-- ===== src/Stabs/Functions/Stretched.antt =====
-- The table of lines of host/stabslib.py when lines are recorded from a line on that is not the last one of the table.
use cwdbg.Base.{
  ℕ, ◌≤◌, ◌<◌, ◌≡◌, refl, ap, ◌∙◌, List, [], ◌∷◌, ◌++◌, some, append_assoc, arith, ==_iff, lookup,
  insert, nat_key, ok,
}
use cwdbg.Stabs.Builder.Lines.{LineTable, close_at, close_previous, after_close, record_line}
use cwdbg.Stabs.Program.{find_line}
use cwdbg.Stabs.Rising.{
  Rising, ranges, last_line, and_then, record_lines, Before, lookup-append-Before,
  insert-append-Before, enter_line-next, record_lines-rising,
}

-- Lines of which each ends where the next one starts, and the last one at an address.
abbrev pub closed : List (ℕ × ℕ) → ℕ → LineTable
closed [] end = []
closed ((l, a) ∷ []) end = (l, (a, end)) ∷ []
closed ((l, a) ∷ (m, b) ∷ rest) end = (l, (a, b)) ∷ closed ((m, b) ∷ rest) end

ranges-append :
    (xs : List (ℕ × ℕ)) (l a : ℕ) (rest : List (ℕ × ℕ))
    → ranges (xs ++ (l, a) ∷ rest) ≡ closed xs a ++ ranges ((l, a) ∷ rest)
unfolding ranges
ranges-append [] l a rest = refl
ranges-append ((k, d) ∷ []) l a rest = refl
ranges-append ((k, d) ∷ (m, b) ∷ xs) l a rest =
    ap (λ r. (k, (d, b)) ∷ r) (ranges-append ((m, b) ∷ xs) l a rest)

Rising-lt :
    (k d : ℕ) (xs : List (ℕ × ℕ)) (l a : ℕ) (rest : List (ℕ × ℕ))
    → Rising ((k, d) ∷ (xs ++ (l, a) ∷ rest))
    → (k < l) × (d ≤ a)
Rising-lt k d [] l a rest r = (r.0, r.1)
Rising-lt k d ((m, b) ∷ xs) l a rest r =
    let more = Rising-lt m b xs l a rest r.2 in (omega arith, omega arith)

Rising-behind : (x : ℕ × ℕ) (xs : List (ℕ × ℕ)) → Rising (x ∷ xs) → Rising xs
Rising-behind x [] r = tt
Rising-behind x (y ∷ ys) r = r.2

Rising-suffix : (xs ys : List (ℕ × ℕ)) → Rising (xs ++ ys) → Rising ys
Rising-suffix [] ys r = r
Rising-suffix (x ∷ xs) ys r = Rising-suffix xs ys (Rising-behind x (xs ++ ys) r)

ranges-Before :
    (xs : List (ℕ × ℕ)) (l a : ℕ) (rest : List (ℕ × ℕ))
    → Rising (xs ++ (l, a) ∷ rest)
    → Before l (ranges xs)
unfolding ranges
ranges-Before [] l a rest r = tt
ranges-Before ((k, d) ∷ []) l a rest r = (r.0, tt)
ranges-Before ((k, d) ∷ (m, b) ∷ xs) l a rest r =
    ((Rising-lt k d ((m, b) ∷ xs) l a rest r).0, ranges-Before ((m, b) ∷ xs) l a rest r.2)

closed-Before :
    (xs : List (ℕ × ℕ)) (l a : ℕ) (rest : List (ℕ × ℕ))
    → Rising (xs ++ (l, a) ∷ rest)
    → Before l (closed xs a)
closed-Before [] l a rest r = tt
closed-Before ((k, d) ∷ []) l a rest r = (r.0, tt)
closed-Before ((k, d) ∷ (m, b) ∷ xs) l a rest r =
    ((Rising-lt k d ((m, b) ∷ xs) l a rest r).0, closed-Before ((m, b) ∷ xs) l a rest r.2)

insert-Before :
    (k l : ℕ) (r : ℕ × ℕ) (lines : LineTable) → k < l → Before l lines → Before l (insert k r lines)
unfolding insert
insert-Before k l r [] lt h = (lt, tt)
insert-Before k l r ((j, s) ∷ lines) lt h = ground (arith, insert-Before k l r lines lt h.1, h.0)

-- The addresses behind the last of the closed lines are found in what follows them.
find_line-closed :
    (xs : List (ℕ × ℕ)) (l a : ℕ) (rest : List (ℕ × ℕ)) (lines : LineTable) (addr : ℕ)
    → Rising (xs ++ (l, a) ∷ rest)
    → a ≤ addr
    → find_line (closed xs a ++ lines) addr ≡ find_line lines addr
unfolding find_line
find_line-closed [] l a rest lines addr r le = refl
find_line-closed ((k, d) ∷ []) l a rest lines addr r le = ground arith
find_line-closed ((k, d) ∷ (m, b) ∷ xs) l a rest lines addr r le = ground (
  arith,
  find_line-closed ((m, b) ∷ xs) l a rest lines addr r.2 le,
  Rising-lt m b xs l a rest r.2,
)

close_previous-known :
    (l a b n c : ℕ) (pre rest : LineTable)
    → Before l pre
    → l < n
    → close_previous (some l) n c (pre ++ (l, (a, b)) ∷ rest) ≡ ok (pre ++ (l, (a, c)) ∷ rest)
unfolding close_previous close_at lookup insert
close_previous-known l a b n c pre rest h lt = ground (
  arith,
  lookup-append-Before l pre ((l, (a, b)) ∷ rest) h,
  insert-append-Before l (a, c) pre ((l, (a, b)) ∷ rest) h,
  ==_iff l l,
)

Before-trans : (k l : ℕ) (lines : LineTable) → Before k lines → k < l → Before l lines
Before-trans k l [] h lt = tt
Before-trans k l ((j, r) ∷ lines) (less, h) lt = (omega arith, Before-trans k l lines h lt)

Before-both : (l : ℕ) (xs ys : LineTable) → Before l xs → Before l ys → Before l (xs ++ ys)
Before-both l [] ys h h' = h'
Before-both l ((k, r) ∷ xs) ys (less, h) h' = (less, Before-both l xs ys h h')

module _ (xs : List (ℕ × ℕ)) (l a m b : ℕ) (ys : List (ℕ × ℕ)) (n c : ℕ) (zs : List (ℕ × ℕ))
    (rising : Rising (xs ++ (l, a) ∷ ((m, b) ∷ (ys ++ (n, c) ∷ zs)))) where
  -- The line `l`, stretched up to the start of the line `n`.
  abbrev stretched_to : LineTable
  stretched_to = closed xs a ++ (l, (a, c)) ∷ ranges ((m, b) ∷ ys)

  abbrev pub stretched : LineTable
  stretched = stretched_to ++ ranges ((n, c) ∷ zs)

  from_l : Rising ((l, a) ∷ ((m, b) ∷ (ys ++ (n, c) ∷ zs)))
  from_l = Rising-suffix xs ((l, a) ∷ ((m, b) ∷ (ys ++ (n, c) ∷ zs))) rising

  below_n : l < n
  below_n = (Rising-lt l a ((m, b) ∷ ys) n c zs from_l).0

  stretched_to-Before : Before n stretched_to
  stretched_to-Before =
      Before-both n (closed xs a) ((l, (a, c)) ∷ ranges ((m, b) ∷ ys))
        (Before-trans l n (closed xs a) (closed-Before xs l a ((m, b) ∷ (ys ++ (n, c) ∷ zs)) rising)
          below_n)
        (below_n, ranges-Before ((m, b) ∷ ys) n c zs from_l.2)

  record_line-stretched :
      record_line (some l) n c (ranges (xs ++ (l, a) ∷ ((m, b) ∷ ys)))
      ≡ ok (stretched_to ++ (n, (c, 0)) ∷ [], some n)
  unfolding record_line after_close ranges
  record_line-stretched = rw (ranges-append xs l a ((m, b) ∷ ys)) (
      rw
        (close_previous-known l a b n c (closed xs a) (ranges ((m, b) ∷ ys))
          (closed-Before xs l a ((m, b) ∷ (ys ++ (n, c) ∷ zs)) rising) below_n)
        (ap ok (enter_line-next (some l) n c stretched_to stretched_to-Before)))

  pub record_lines-stretched :
      record_lines (some l) ((n, c) ∷ zs) (ranges (xs ++ (l, a) ∷ ((m, b) ∷ ys)))
      ≡ ok (stretched, some (last_line n zs))
  unfolding record_lines and_then
  record_lines-stretched = rw record_line-stretched (
      record_lines-rising n c zs stretched_to stretched_to-Before
        (Rising-suffix ((l, a) ∷ ((m, b) ∷ ys)) ((n, c) ∷ zs) from_l))

  pub find_line-stretched : (addr : ℕ) → a ≤ addr → addr < c → find_line stretched addr ≡ some l
  unfolding find_line
  find_line-stretched addr le lt =
      ap (λ t. find_line t addr)
        (append_assoc (closed xs a) ((l, (a, c)) ∷ ranges ((m, b) ∷ ys)) (ranges ((n, c) ∷ zs)))
      ∙ find_line-closed xs l a ((m, b) ∷ (ys ++ (n, c) ∷ zs))
          ((l, (a, c)) ∷ (ranges ((m, b) ∷ ys) ++ ranges ((n, c) ∷ zs))) addr rising le
      ∙ ground arith
