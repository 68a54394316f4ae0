-- ===== src/Hunk/Blocks/Total.antt =====
-- How the readers of host/hunklib.py end.
use Prim.Native.Nat.{bit_and, ◌/◌, ◌^◌}
use cwdbg.Base.{
  ℕ, zero, suc, ◌+◌, ◌*◌, ◌<◌, [], ◌∷◌, Option, none, some, Bytes, arith, ◌==◌, length, Exec, Dict,
  lookup, nat_key, All, Bool-cases, inl, inr, key_error, type_error,
}
use cwdbg.Hunk.{File}
use cwdbg.Hunk.Blocks.{
  until_zero, read_ext_entries, read_symbol_entries, read_reloc32_entries, read_ext_block,
  read_symbol_block, read_reloc32_block, read_header_block, read_code_block, read_bss_block,
  call_reader, read_funcs, debug_content, read_debug_block, read_func_by_block_type,
}
use cwdbg.Hunk.Blocks.Ends.{
  Ends, read_word-Ends, read_word-length, Ends-bind, read-Ends, pure-Ends, throw-Ends, if-Ends,
  read_string-Ends, skip_words-Ends, ext_entry-Ends,
}

-- One round of a loop: nothing more after the word 0, else `body` and the next round.
until_zero-Ends :
    (n : ℕ) (body : Exec File (Option Bytes)) (file : File)
    → Ends body file
    → Ends (until_zero n body) file
unfolding until_zero
until_zero-Ends zero body file h = pure-Ends none file
until_zero-Ends (suc n) body file h = h

read_symbol_entries-Ends :
    (fuel : ℕ) (file : File) → length file < fuel → Ends (read_symbol_entries fuel) file
unfolding read_symbol_entries
read_symbol_entries-Ends zero file h = absurd (omega arith)
read_symbol_entries-Ends (suc fuel) file h = Ends-bind _ _ file (read_word-Ends file) λ w f e l.
    let four = read_word-length file f w e in
    until_zero-Ends w _ f (
      Ends-bind _ _ f (read_string-Ends (w * 4) f) λ _ g _ l'.
        Ends-bind _ _ g (read_word-Ends g)
          λ _ k _ l''. read_symbol_entries-Ends fuel k (omega arith))

read_ext_entries-Ends :
    (fuel : ℕ) (file : File) → length file < fuel → Ends (read_ext_entries fuel) file
unfolding read_ext_entries
read_ext_entries-Ends zero file h = absurd (omega arith)
read_ext_entries-Ends (suc fuel) file h = Ends-bind _ _ file (read_word-Ends file) λ w f e l.
    let four = read_word-length file f w e in
    until_zero-Ends w _ f (
      Ends-bind _ _ f (read_string-Ends _ f) λ _ g _ l'.
        Ends-bind _ _ g (ext_entry-Ends (bit_and w 0xff000000 / 2 ^ 24) g)
          λ _ k _ l''. read_ext_entries-Ends fuel k (omega arith))

read_reloc32_entries-Ends :
    (fuel : ℕ) (file : File) → length file < fuel → Ends (read_reloc32_entries fuel) file
unfolding read_reloc32_entries
read_reloc32_entries-Ends zero file h = absurd (omega arith)
read_reloc32_entries-Ends (suc fuel) file h = Ends-bind _ _ file (read_word-Ends file) λ w f e l.
    let four = read_word-length file f w e in
    until_zero-Ends w _ f (
      Ends-bind _ _ f (read_word-Ends f) λ _ g _ l'.
        Ends-bind _ _ g (skip_words-Ends w g)
          λ _ k _ l''. read_reloc32_entries-Ends fuel k (omega arith))

read_reloc32_block-Ends : (file : File) → Ends read_reloc32_block file
unfolding read_reloc32_block
read_reloc32_block-Ends file =
    let h = read_reloc32_entries-Ends (length file + 1) file (omega arith) in
    record { ends = h.ends; shrinks = h.shrinks }

read_ext_block-Ends : (file : File) → Ends read_ext_block file
unfolding read_ext_block
read_ext_block-Ends file =
    let h = read_ext_entries-Ends (length file + 1) file (omega arith) in
    record { ends = h.ends; shrinks = h.shrinks }

read_symbol_block-Ends : (file : File) → Ends read_symbol_block file
unfolding read_symbol_block
read_symbol_block-Ends file =
    let h = read_symbol_entries-Ends (length file + 1) file (omega arith) in
    record { ends = h.ends; shrinks = h.shrinks }

read_header_block-Ends : (file : File) → Ends read_header_block file
unfolding read_header_block
read_header_block-Ends file = Ends-bind _ _ file (read_word-Ends file) λ _ a _ _.
    Ends-bind _ _ a (read_word-Ends a) λ _ b _ _. Ends-bind _ _ b (read_word-Ends b) λ _ c _ _.
      Ends-bind _ _ c (read_word-Ends c)
        λ _ d _ _. Ends-bind _ _ d (skip_words-Ends _ d) λ _ e _ _. pure-Ends none e

read_content-Ends : (file : File) → Ends read_code_block file
unfolding read_code_block
read_content-Ends file =
    Ends-bind _ _ file (read_word-Ends file)
      λ n a _ _. Ends-bind _ _ a (read-Ends (n * 4) a) λ code b _ _. pure-Ends (some code) b

read_bss_block-Ends : (file : File) → Ends read_bss_block file
unfolding read_bss_block
read_bss_block-Ends file = Ends-bind _ _ file (read_word-Ends file) λ _ a _ _. pure-Ends none a

debug_content-Ends : (content : Bytes) (file : File) → Ends (debug_content content) file
unfolding debug_content
debug_content-Ends content file =
    if-Ends _ _ _ file (throw-Ends _ file) (pure-Ends (some content) file)

read_debug_block-Ends : (file : File) → Ends read_debug_block file
unfolding read_debug_block
read_debug_block-Ends file =
    Ends-bind _ _ file (read_word-Ends file)
      λ n a _ _. Ends-bind _ _ a (read-Ends (n * 4) a) λ content b _ _. debug_content-Ends content b

lookup-Ends :
    (t : ℕ) (table : Dict ℕ (Exec File (Option Bytes)))
    → All (λ entry. (file : File) → Ends entry.1 file) table
    → (file : File) → Ends (call_reader (lookup t table)) file
unfolding lookup call_reader
lookup-Ends t [] h file = throw-Ends key_error file
lookup-Ends t ((j, reader) ∷ table) h file = elim (Bool-cases (j == t)) [
  | inl same ↦ rw same (h.0 file)
  | inr other ↦ rw other (lookup-Ends t table h.1 file)
]

-- Whatever the file, each reader of the table returns or raises, and leaves no more bytes than
-- there were.
pub read_func_by_block_type-Ends : (t : ℕ) (file : File) → Ends (read_func_by_block_type t) file
unfolding read_func_by_block_type
read_func_by_block_type-Ends t = lookup-Ends t read_funcs (
  read_header_block-Ends,
  (
    throw-Ends type_error,
    (
      throw-Ends type_error,
      (
        read_content-Ends,
        (
          read_content-Ends,
          (
            read_bss_block-Ends,
            (
              read_ext_block-Ends,
              (read_symbol_block-Ends, (read_reloc32_block-Ends, (read_debug_block-Ends, tt))),
            ),
          ),
        ),
      ),
    ),
  ),
)
