-- ===== src/Stabs/Table/RoundTrip.antt =====
-- Reading a table of stabs that was written down stab by stab: `from_stabs_data` and
-- `_get_string_from_buffer` of host/stabslib.py.
use cwdbg.Base.{
  ℕ, suc, ◌+◌, ◌-◌, ◌*◌, ◌/◌, ◌^◌, ◌<◌, ◌≡◌, refl, ap, ◌∙◌, true, false, List, [], ◌∷◌, ◌++◌,
  append_assoc, Bytes, arith, ◌==◌, ltb, if◌then◌else◌, length, length-append, take-append, drop,
  drop-append, All, be16, be32, word16-be16, word32-be32, ok,
}
use cwdbg.Hunk.{is_ascii}
use cwdbg.Stabs.Types.{n_undf}
use cwdbg.Stabs.Nodes.{Stab}
use cwdbg.Stabs.Table.{
  stab_from_buffer, nul_index, get_string_from_buffer, is_kept, with_string, read_stab, keep_stab,
  read_stabs, after_header, stabs_from_data,
}

abbrev pub print_stab : Stab → Bytes
print_stab s = be32 s.offset ++ (s.type ∷ s.other ∷ (be16 s.desc ++ be32 s.value))

abbrev pub print_stabs : List Stab → Bytes
print_stabs [] = []
print_stabs (s ∷ ss) = print_stab s ++ print_stabs ss

-- The string of the stab stands in the table of strings at its offset, with a NUL behind it; the numbers fit
-- their fields.
pub record IsPlaced (strings : Bytes) (s : Stab) : Type 0 where
  pub behind : Bytes
  pub placed : drop s.offset strings ≡ s.string ++ 0 ∷ behind
  pub no_nul : All (λ c. (c == 0) ≡ false) s.string
  pub ascii : is_ascii s.string ≡ true
  pub offset_fits : s.offset < 2 ^ 32
  pub desc_fits : s.desc < 2 ^ 16
  pub value_fits : s.value < 2 ^ 32

abbrev pub kept : List Stab → List Stab
kept [] = []
kept (s ∷ ss) = if is_kept s then s ∷ kept ss else kept ss

nul_index-append :
    (s behind : Bytes) → All (λ c. (c == 0) ≡ false) s → nul_index (s ++ 0 ∷ behind) ≡ length s
unfolding nul_index
nul_index-append [] behind h = refl
nul_index-append (c ∷ cs) behind (h, hs) = rw h (ap (λ n. suc n) (nul_index-append cs behind hs))

get_string-append :
    (s behind : Bytes)
    → All (λ c. (c == 0) ≡ false) s
    → is_ascii s ≡ true
    → get_string_from_buffer (s ++ 0 ∷ behind) ≡ ok s
unfolding get_string_from_buffer
get_string-append s behind h a =
    let shorter : ltb (length s) (length (s ++ 0 ∷ behind)) ≡ true =
      ground (arith, length-append s (0 ∷ behind)) in
    rw (nul_index-append s behind h) (rw (shorter, take-append) (rw a refl))

stab_from_buffer-print :
    (s : Stab) (rest : Bytes)
    → s.offset < 2 ^ 32
    → s.desc < 2 ^ 16
    → s.value < 2 ^ 32
    → stab_from_buffer (print_stab s ++ rest) ≡ ok (record s { string = [] })
unfolding stab_from_buffer
stab_from_buffer-print s rest h h' h'' =
    rw (word32-be32 s.offset h, word16-be16 s.desc h', word32-be32 s.value h'') refl

read_stab-print :
    (strings : Bytes) (s : Stab) (rest : Bytes)
    → IsPlaced strings s
    → read_stab strings (print_stab s ++ rest) ≡ ok s
unfolding read_stab with_string stab_from_buffer
read_stab-print strings s rest p =
    rw
      (
        word32-be32 s.offset p.offset_fits,
        word16-be16 s.desc p.desc_fits,
        word32-be32 s.value p.value_fits,
      )
      (rw (p.placed) (rw (get_string-append s.string p.behind p.no_nul p.ascii) refl))

read_stabs-print :
    (strings : Bytes) (ss : List Stab) (rest : Bytes)
    → All (IsPlaced strings) ss
    → read_stabs (length ss) strings (print_stabs ss ++ rest) ≡ ok (kept ss)
unfolding read_stabs keep_stab
read_stabs-print strings [] rest h = refl
read_stabs-print strings (s ∷ ss) rest (p, ps) =
    rw (read_stab-print strings s (print_stabs ss ++ rest) p, read_stabs)
      (rw (read_stabs-print strings ss rest ps) refl)

length-print_stabs : (ss : List Stab) → length (print_stabs ss) ≡ 12 * length ss
length-print_stabs [] = refl
length-print_stabs (s ∷ ss) = omega (arith, length-print_stabs ss)

print_stabs-append :
    (ss : List Stab) (last : Stab)
    → print_stabs (ss ++ last ∷ []) ≡ print_stabs ss ++ print_stab last
print_stabs-append [] last = refl
print_stabs-append (s ∷ ss) last = ap (λ bytes. print_stab s ++ bytes) (print_stabs-append ss last)

after_header-undf :
    (content : Bytes) (s : Stab) (n : ℕ)
    → s.type ≡ n_undf
    → s.desc / 12 ≡ n
    → after_header content (ok s)
      ≡ read_stabs (n - 1) (drop (12 + 12 * n) content) (drop 12 content)
unfolding after_header
after_header-undf content s n h e = rw (h, e) refl

-- Of a header of the type N_UNDF, stabs, and the table of strings, where the header's field `desc` is the number
-- of bytes of the stabs behind it, all stabs but the last one are read with their strings, and those of a known
-- and relevant type are kept, in their order.
pub stabs_from_data-print :
    (header last : Stab) (ss : List Stab) (strings : Bytes)
    → header.offset < 2 ^ 32
    → header.value < 2 ^ 32
    → header.type ≡ n_undf
    → header.desc ≡ 12 * (length ss + 1)
    → header.desc < 2 ^ 16
    → All (IsPlaced strings) ss
    → stabs_from_data (print_stab header ++ (print_stabs (ss ++ last ∷ []) ++ strings))
      ≡ ok (kept ss)
unfolding stabs_from_data
stabs_from_data-print header last ss strings fits fits' undf counts fits'' placed =
    let table = print_stabs (ss ++ last ∷ []) in
    let content = print_stab header ++ (table ++ strings) in
    let num : header.desc / 12 ≡ length ss + 1 = omega arith in
    let table_length : length table ≡ 12 * (length ss + 1) =
      ap length (print_stabs-append ss last)
      ∙ omega (arith, length-append (print_stabs ss) (print_stab last), length-print_stabs ss) in
    let strings_at : drop (12 + 12 * (length ss + 1)) content ≡ strings =
      ap (λ n. drop n content) {y = length (print_stab header ++ table)}
        (omega (arith, table_length))
      ∙ drop-append (print_stab header ++ table) strings in
    let reads : read_stabs (length ss + 1 - 1) strings (table ++ strings) ≡ ok (kept ss) =
      ap (λ n. read_stabs n strings (table ++ strings)) {y = length ss} (omega arith)
      ∙ ap (λ bytes. read_stabs (length ss) strings (bytes ++ strings)) (print_stabs-append ss last)
      ∙ ap (read_stabs (length ss) strings)
          (append_assoc (print_stabs ss) (print_stab last) strings)
      ∙ read_stabs-print strings ss (print_stab last ++ strings) placed in
    ap (after_header content) (stab_from_buffer-print header (table ++ strings) fits fits'' fits')
    ∙ after_header-undf content (record header { string = [] }) (length ss + 1) undf num
    ∙ ap (λ found. read_stabs (length ss + 1 - 1) found (table ++ strings)) strings_at
    ∙ reads
