-- ===== src/Hunk/Blocks.antt =====
-- The readers of the blocks, and `READ_FUNC_BY_BLOCK_TYPE`. A `while True` loop takes fuel; each of
-- its rounds reads a word, so that the number of bytes left is enough.
pub mod Ends
pub mod Total
use Prim.Native.Nat.{bit_and}
use cwdbg.Base.{
  ℕ, zero, suc, ◌+◌, ◌-◌, ◌*◌, ◌/◌, ◌^◌, Bool, true, false, ◌&&◌, ◌||◌, [], ◌∷◌, Option, none, some,
  Bytes, ◌==◌, leb, if◌then◌else◌, length, take, drop, eq_text, Outcome, ok, raise, no_return, Exec,
  pure, throw, check, ◌>>=◌, ◌>>◌, Dict, lookup, nat_key, eof_error, value_error, key_error,
  type_error,
}
use cwdbg.Hunk.{File, read, read_word, ReadString, read_string}

abbrev pub hunk_unit : ℕ
hunk_unit = 999

abbrev pub hunk_name : ℕ
hunk_name = 1000

abbrev pub hunk_code : ℕ
hunk_code = 1001

abbrev pub hunk_data : ℕ
hunk_data = 1002

abbrev pub hunk_bss : ℕ
hunk_bss = 1003

abbrev pub hunk_reloc32 : ℕ
hunk_reloc32 = 1004

abbrev pub hunk_ext : ℕ
hunk_ext = 1007

abbrev pub hunk_symbol : ℕ
hunk_symbol = 1008

abbrev pub hunk_debug : ℕ
hunk_debug = 1009

abbrev pub hunk_end : ℕ
hunk_end = 1010

abbrev pub hunk_header : ℕ
hunk_header = 1011

-- `BlockTypes(t)`: the members are 999 to 1011 and 1013 to 1019.
unfoldable pub is_block_type : ℕ → Bool
is_block_type t = (leb 999 t && leb t 1011) || (leb 1013 t && leb t 1019)

-- The words of a counted loop; each of them is only logged.
unfoldable pub skip_words : ℕ → Exec File (Unit {0})
skip_words zero = pure tt
skip_words (suc n) = do word ← read_word; skip_words n

-- `range(first_hunk, last_hunk + 1)` has no element if the last number is below the first.
unfoldable pub read_header_block : Exec File (Option Bytes)
unfolding skip_words
read_header_block = do
  resident ← read_word
  count ← read_word
  first_hunk ← read_word
  last_hunk ← read_word
  skip_words (last_hunk + 1 - first_hunk)
  pure none

-- `_read_string` is called without the number of characters that it wants.
unfoldable pub read_unit_block : Exec File (Option Bytes)
read_unit_block = throw type_error

unfoldable pub read_name_block : Exec File (Option Bytes)
read_name_block = throw type_error

unfoldable pub read_code_block : Exec File (Option Bytes)
unfolding read
read_code_block = do nwords ← read_word; code ← read (nwords * 4); pure (some code)

unfoldable pub read_data_block : Exec File (Option Bytes)
unfolding read
read_data_block = do nwords ← read_word; content ← read (nwords * 4); pure (some content)

unfoldable pub read_bss_block : Exec File (Option Bytes)
read_bss_block = do nwords ← read_word; pure none

-- EXT_DEF, EXT_ABS and EXT_RES define a symbol; EXT_REF32, EXT_REF16 and EXT_REF8 refer to one.
unfoldable pub ext_entry : ℕ → Exec File (Unit {0})
unfolding skip_words
ext_entry sym_type =
    if sym_type == 1 || sym_type == 2 || sym_type == 3
    then (do value ← read_word; pure tt)
    else if sym_type == 132 || sym_type == 131 || sym_type == 129
    then (do nrefs ← read_word; skip_words nrefs)
    else throw value_error

-- `if word == 0: break`, else the body of the loop.
unfoldable pub until_zero : ℕ → Exec File (Option Bytes) → Exec File (Option Bytes)
until_zero zero body = pure none
until_zero (suc n) body = body

unfoldable pub read_ext_entries : ℕ → Exec File (Option Bytes)
unfolding ext_entry until_zero
read_ext_entries zero = λ file. (no_return, file)
read_ext_entries (suc fuel) = do
  type_len ← read_word
  until_zero type_len (do
    name ← read_string (bit_and type_len 0x00ffffff * 4)
    ext_entry (bit_and type_len 0xff000000 / 2 ^ 24)
    read_ext_entries fuel)

unfoldable pub read_ext_block : Exec File (Option Bytes)
unfolding read_ext_entries
read_ext_block file = read_ext_entries (length file + 1) file

unfoldable pub read_symbol_entries : ℕ → Exec File (Option Bytes)
unfolding until_zero
read_symbol_entries zero = λ file. (no_return, file)
read_symbol_entries (suc fuel) = do
  nwords ← read_word
  until_zero nwords
      (do name ← read_string (nwords * 4); value ← read_word; read_symbol_entries fuel)

unfoldable pub read_symbol_block : Exec File (Option Bytes)
unfolding read_symbol_entries
read_symbol_block file = read_symbol_entries (length file + 1) file

unfoldable pub read_reloc32_entries : ℕ → Exec File (Option Bytes)
unfolding skip_words until_zero
read_reloc32_entries zero = λ file. (no_return, file)
read_reloc32_entries (suc fuel) = do
  noffsets ← read_word
  until_zero noffsets (do hunk ← read_word; skip_words noffsets; read_reloc32_entries fuel)

unfoldable pub read_reloc32_block : Exec File (Option Bytes)
unfolding read_reloc32_entries
read_reloc32_block file = read_reloc32_entries (length file + 1) file

abbrev pub line_magic : Bytes
line_magic = b'L' ∷ b'I' ∷ b'N' ∷ b'E' ∷ []

-- A table of lines (SAS/C) reaches `unpack('>L')`, which lacks its second argument and raises; what
-- stands behind it is never run. Anything else is returned as stabs.
unfoldable pub debug_content : Bytes → Exec File (Option Bytes)
unfolding eq_text
debug_content content =
    if eq_text (take 4 (drop 4 content)) line_magic then throw type_error else pure (some content)

unfoldable pub read_debug_block : Exec File (Option Bytes)
unfolding read debug_content
read_debug_block = do nwords ← read_word; content ← read (nwords * 4); debug_content content

-- `READ_FUNC_BY_BLOCK_TYPE`
unfoldable pub read_funcs : Dict ℕ (Exec File (Option Bytes))
unfolding read_header_block read_unit_block read_name_block read_code_block read_data_block
    read_bss_block read_ext_block read_symbol_block read_reloc32_block read_debug_block
read_funcs =
    (hunk_header, read_header_block)
    ∷ (hunk_unit, read_unit_block)
    ∷ (hunk_name, read_name_block)
    ∷ (hunk_code, read_code_block)
    ∷ (hunk_data, read_data_block)
    ∷ (hunk_bss, read_bss_block)
    ∷ (hunk_ext, read_ext_block)
    ∷ (hunk_symbol, read_symbol_block)
    ∷ (hunk_reloc32, read_reloc32_block)
    ∷ (hunk_debug, read_debug_block)
    ∷ []

unfoldable pub call_reader : Option (Exec File (Option Bytes)) → Exec File (Option Bytes)
call_reader none = throw key_error
call_reader (some reader) = reader

unfoldable pub read_func_by_block_type : ℕ → Exec File (Option Bytes)
unfolding read_funcs call_reader lookup
read_func_by_block_type t = call_reader (lookup t read_funcs)
