-- ===== src/Cli/Memory/Rows.antt =====
-- The lines of the hexdump of host/cli.py and the bytes of the block of memory.
use cwdbg.Base.{
  ℕ, zero, suc, ◌+◌, ◌-◌, ◌≤◌, ◌<◌, ◌≡◌, refl, sym, ap, ◌∙◌, Bool-cases, inl, inr, List, [], ◌∷◌,
  ◌++◌, Bytes, arith, ltb, length, take, drop, concat, length-append, ok,
}
use cwdbg.Cli.Memory.{dump_row, dump_rows}

-- All rows have 16 bytes, but the last, which has between 1 and 16.
abbrev pub IsRows : List Bytes → Type 0
IsRows [] = Unit
IsRows (row ∷ []) = (0 < length row) × (length row ≤ 16)
IsRows (row ∷ next ∷ rows) = (length row ≡ 16) × IsRows (next ∷ rows)

-- The lines of the rows, from an address on.
abbrev pub dump_of : ℕ → List Bytes → Bytes
dump_of address [] = []
dump_of address (row ∷ rows) = dump_row address row ++ dump_of (address + 16) rows

length-drop : (n : ℕ) (xs : Bytes) → length (drop n xs) ≡ length xs - n
length-drop zero xs = omega arith
length-drop (suc n) [] = omega arith
length-drop (suc n) (x ∷ xs) = omega (arith, length-drop n xs)

take-drop : (n : ℕ) (xs : Bytes) → take n xs ++ drop n xs ≡ xs
take-drop zero xs = refl
take-drop (suc n) [] = refl
take-drop (suc n) (x ∷ xs) = ap (λ ys. x ∷ ys) (take-drop n xs)

drop-nil : (n : ℕ) → ◌≡◌ {A = Bytes} (drop n []) []
drop-nil zero = refl
drop-nil (suc n) = refl

drop-drop : (n m : ℕ) (xs : Bytes) → drop m (drop n xs) ≡ drop (n + m) xs
drop-drop zero m xs = ap (λ k. drop k xs) {x = m} {y = 0 + m} (omega arith)
drop-drop (suc n) m [] = drop-nil m ∙ sym (drop-nil (suc n + m))
drop-drop (suc n) m (x ∷ xs) =
    drop-drop n m xs ∙ ap (λ k. drop k (x ∷ xs)) {x = suc (n + m)} {y = suc n + m} (omega arith)

drop_all : (n : ℕ) (xs : Bytes) → length xs ≤ n → drop n xs ≡ []
drop_all zero [] h = refl
drop_all zero (x ∷ xs) h = absurd (omega arith)
drop_all (suc n) [] h = refl
drop_all (suc n) (x ∷ xs) h = drop_all n xs (omega arith)

length-take : (n : ℕ) (xs : Bytes) → length (take n xs) ≡ length xs - (length xs - n)
length-take n xs =
    omega
      (arith, length-append (take n xs) (drop n xs), ap length (take-drop n xs), length-drop n xs)

first-IsRows : (row : Bytes) (rows : List Bytes) → IsRows (row ∷ rows) → 0 < length row
first-IsRows row [] (some_bytes, _) = some_bytes
first-IsRows row (next ∷ rows) (full, _) = omega (arith, full)

-- A full row in front of other rows, or a last row.
IsRows-cons :
    (bytes : Bytes) (rows : List Bytes)
    → 0 < length bytes
    → IsRows rows
    → concat rows ≡ drop 16 bytes
    → IsRows (take 16 bytes ∷ rows)
unfolding concat
IsRows-cons bytes [] some_bytes all h =
    let len = length-take 16 bytes in
    let over : 0 ≡ length bytes - 16 = ap length h ∙ length-drop 16 bytes in
    (omega (arith, len, over), omega (arith, len, over))
IsRows-cons bytes (row ∷ rows) some_bytes all h = (
  omega (
    arith,
    length-take 16 bytes,
    ap length h,
    length-append row (concat rows),
    length-drop 16 bytes,
    first-IsRows row rows all,
  ),
  all,
)

dump_rows-from :
    (fuel address start : ℕ) (result : Bytes)
    → length result - start < fuel
    → (rows : List Bytes) × IsRows rows
      × (concat rows ≡ drop start result)
      × (dump_rows fuel address start result ≡ ok (dump_of (address + start) rows))
unfolding dump_rows concat
dump_rows-from zero address start result h = absurd (omega arith)
dump_rows-from (suc fuel) address start result h = elim (Bool-cases (ltb start (length result))) [
  | inr over ↦ ([], tt, sym (drop_all start result (ground arith)), rw over refl)
  | inl more ↦
      let (rows, all, joined, dumped) =
        dump_rows-from fuel address (start + 16) result (ground arith) in
      let joined' : concat rows ≡ drop 16 (drop start result) =
        joined ∙ sym (drop-drop start 16 result) in
      let some_bytes : 0 < length (drop start result) = ground (arith, length-drop start result) in
      (
        take 16 (drop start result) ∷ rows,
        IsRows-cons (drop start result) rows some_bytes all joined',
        ap (λ xs. take 16 (drop start result) ++ xs) joined' ∙ take-drop 16 (drop start result),
        rw more (
            rw dumped (
              ap
                (λ a.
                  ok (dump_row (address + start) (take 16 (drop start result)) ++ dump_of a rows))
                {x = address + (start + 16)} {y = address + start + 16} (omega arith))),
      )
]

-- The hexdump shows the whole block: it consists of the lines for rows of 16 bytes, and of between 1 and 16 for the
-- last, each with its own address, and the rows are together the bytes that were read. The fuel is enough.
pub dump_rows-IsRows :
    (address : ℕ) (result : Bytes)
    → (rows : List Bytes) × IsRows rows
      × (concat rows ≡ result)
      × (dump_rows (suc (length result)) address 0 result ≡ ok (dump_of address rows))
dump_rows-IsRows address result =
    let (rows, all, joined, dumped) =
      dump_rows-from (suc (length result)) address 0 result (omega arith) in
    (
      rows,
      all,
      joined,
      dumped ∙ ap (λ a. ok (dump_of a rows)) {x = address + 0} {y = address} (omega arith),
    )
