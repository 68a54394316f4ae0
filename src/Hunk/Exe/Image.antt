-- ===== src/Hunk/Exe/Image.antt =====
-- The format of an executable, written down on its own: the blocks and the bytes that stand for them.
use cwdbg.Base.{
  ℕ, ◌+◌, ◌*◌, ◌/◌, ◌^◌, ◌<◌, ◌≡◌, true, false, List, [], ◌∷◌, ◌++◌, Option, none, some, Bytes,
  length, take, drop, be32, All, eq_text, insert, nat_key,
}
use cwdbg.Hunk.{is_ascii}
use cwdbg.Hunk.Blocks.{
  hunk_header, hunk_code, hunk_data, hunk_bss, hunk_symbol, hunk_reloc32, hunk_debug, hunk_end,
  line_magic,
}
use cwdbg.Hunk.Exe.{Contents}

pub record Symbol : Type 0 where
  pub name : Bytes
  pub value : ℕ

-- The places that refer to the hunk `ref_hnum`.
pub record Relocation : Type 0 where
  pub ref_hnum : ℕ
  pub offsets : List ℕ

-- `header` has the words before the sizes, and the size of each hunk.
pub data Block : Type 0 where
  header : ℕ → ℕ → ℕ → ℕ → List ℕ → Block
  code : Bytes → Block
  content : Bytes → Block
  bss : ℕ → Block
  symbols : List Symbol → Block
  relocs : List Relocation → Block
  debug : Bytes → Block
  end : Block

abbrev pub words : List ℕ → Bytes
words [] = []
words (n ∷ ns) = be32 n ++ words ns

-- Bytes behind the number of 32-bit words that they fill.
abbrev pub counted : Bytes → Bytes
counted bytes = be32 (length bytes / 4) ++ bytes

abbrev pub print_symbols : List Symbol → Bytes
print_symbols [] = be32 0
print_symbols (s ∷ ss) = counted s.name ++ (be32 s.value ++ print_symbols ss)

abbrev pub print_relocs : List Relocation → Bytes
print_relocs [] = be32 0
print_relocs (r ∷ rs) =
    be32 (length r.offsets) ++ (be32 r.ref_hnum ++ (words r.offsets ++ print_relocs rs))

abbrev pub print_body : Block → Bytes
print_body (header resident count first last sizes) =
    be32 resident ++ (be32 count ++ (be32 first ++ (be32 last ++ words sizes)))
print_body (code bytes) = counted bytes
print_body (content bytes) = counted bytes
print_body (bss nwords) = be32 nwords
print_body (symbols ss) = print_symbols ss
print_body (relocs rs) = print_relocs rs
print_body (debug bytes) = counted bytes
print_body end = []

abbrev pub type_of : Block → ℕ
type_of (header _ _ _ _ _) = hunk_header
type_of (code _) = hunk_code
type_of (content _) = hunk_data
type_of (bss _) = hunk_bss
type_of (symbols _) = hunk_symbol
type_of (relocs _) = hunk_reloc32
type_of (debug _) = hunk_debug
type_of end = hunk_end

abbrev pub print : List Block → Bytes
print [] = []
print (b ∷ bs) = be32 (type_of b) ++ (print_body b ++ print bs)

-- Whole words, fewer than a word can count.
pub record IsCounted (bytes : Bytes) : Type 0 where
  pub whole : length bytes / 4 * 4 ≡ length bytes
  pub fits : length bytes / 4 < 2 ^ 32

pub record IsSymbol (s : Symbol) : Type 0 where
  pub counted : IsCounted s.name
  pub filled : 0 < length s.name
  pub ascii : is_ascii s.name ≡ true
  pub fits : s.value < 2 ^ 32

pub record IsHeader (resident count first last : ℕ) (sizes : List ℕ) : Type 0 where
  pub resident_fits : resident < 2 ^ 32
  pub count_fits : count < 2 ^ 32
  pub first_fits : first < 2 ^ 32
  pub last_fits : last < 2 ^ 32
  pub all_sizes : last + 1 ≡ first + length sizes

pub record IsRelocation (r : Relocation) : Type 0 where
  pub hunk_fits : r.ref_hnum < 2 ^ 32
  pub filled : 0 < length r.offsets
  pub fits : length r.offsets < 2 ^ 32

-- The debug information is no table of lines.
pub record IsStabs (bytes : Bytes) : Type 0 where
  pub counted : IsCounted bytes
  pub no_lines : eq_text (take 4 (drop 4 bytes)) line_magic ≡ false

abbrev pub IsBlock : Block → Type 0
IsBlock (header resident count first last sizes) = IsHeader resident count first last sizes
IsBlock (code bytes) = IsCounted bytes
IsBlock (content bytes) = IsCounted bytes
IsBlock (bss nwords) = nwords < 2 ^ 32
IsBlock (symbols ss) = All IsSymbol ss
IsBlock (relocs rs) = All IsRelocation rs
IsBlock (debug bytes) = IsStabs bytes
IsBlock end = Unit

-- What the dictionary holds for a block.
abbrev pub value_of : Block → Option Bytes
value_of (code bytes) = some bytes
value_of (content bytes) = some bytes
value_of (debug bytes) = some bytes
value_of _ = none

abbrev pub store : Contents → Block → Contents
store contents end = contents
store contents b = insert (type_of b) (value_of b) contents

abbrev pub store_all : Contents → List Block → Contents
store_all contents [] = contents
store_all contents (b ∷ bs) = store_all (store contents b) bs
