-- ===== src/Hunk/Exe/Bodies.antt =====
-- The readers of host/hunklib.py on single blocks that were written down.
use cwdbg.Base.{
  ℕ, zero, suc, ◌+◌, ◌-◌, ◌/◌, ◌^◌, ◌<◌, ◌≡◌, refl, true, false, List, [], ◌∷◌, ◌++◌, Option, none,
  some, Bytes, length, length-append, append_assoc, take-append, drop-append, be32, All, nat_key,
  arith, ◌==◌, Exec, ok,
}
use cwdbg.Hunk.{File, read_word, read_string, text, strip_nuls, is_ascii}
use cwdbg.Hunk.Blocks.{
  hunk_end, skip_words, until_zero, read_header_block, read_code_block, read_bss_block,
  read_symbol_entries, read_symbol_block, read_reloc32_entries, read_reloc32_block,
  read_debug_block, read_func_by_block_type,
}
use cwdbg.Hunk.Exe.Image.{
  Symbol, Block, header, code, content, bss, symbols, relocs, debug, end, words, Relocation,
  IsRelocation, print_relocs, counted, print_symbols, print_body, type_of, IsCounted, IsSymbol,
  IsHeader, IsStabs, IsBlock, value_of,
}

pub read_word-be32 : (n : ℕ) (rest : File) → n < 2 ^ 32 → read_word (be32 n ++ rest) ≡ (ok n, rest)
unfolding read_word
read_word-be32 n rest h = ground arith

skip_words-words :
    (ns : List ℕ) (rest : File) → skip_words (length ns) (words ns ++ rest) ≡ (ok tt, rest)
unfolding skip_words read_word
skip_words-words [] rest = refl
skip_words-words (n ∷ ns) rest = skip_words-words ns rest

-- A counted block of bytes.
read_code_block-counted :
    (bytes rest : Bytes)
    → IsCounted bytes
    → read_code_block (counted bytes ++ rest) ≡ (ok (some bytes), rest)
unfolding read_code_block
read_code_block-counted bytes rest h =
    rw (read_word-be32 (length bytes / 4) (bytes ++ rest) h.fits, h.whole, take-append, drop-append)
      refl

read_debug_block-counted :
    (bytes rest : Bytes)
    → IsStabs bytes
    → read_debug_block (counted bytes ++ rest) ≡ (ok (some bytes), rest)
unfolding read_debug_block
read_debug_block-counted bytes rest h =
    rw
      (
        read_word-be32 (length bytes / 4) (bytes ++ rest) h.counted.fits,
        h.counted.whole,
        take-append,
        drop-append,
      )
      (rw h.no_lines refl)

read_bss_block-be32 :
    (n : ℕ) (rest : File) → n < 2 ^ 32 → read_bss_block (be32 n ++ rest) ≡ (ok none, rest)
unfolding read_bss_block
read_bss_block-be32 n rest h = rw (read_word-be32 n rest h) refl

read_header_block-words :
    (resident count first last : ℕ) (sizes : List ℕ) (rest : File)
    → IsHeader resident count first last sizes
    → read_header_block (print_body (header resident count first last sizes) ++ rest)
      ≡ (ok none, rest)
unfolding read_header_block
read_header_block-words resident count first last sizes rest h =
    let n : last + 1 - first ≡ length sizes = omega (arith, h.all_sizes) in
    rw
      (
        read_word-be32 resident _ h.resident_fits,
        read_word-be32 count _ h.count_fits,
        read_word-be32 first _ h.first_fits,
        read_word-be32 last _ h.last_fits,
        n,
        skip_words-words,
      )
      refl

read_string-append :
    (name rest : Bytes)
    → 0 < length name
    → is_ascii name ≡ true
    → read_string (length name) (name ++ rest) ≡ (ok (text (strip_nuls name)), rest)
unfolding read_string
read_string-append [] rest h a = absurd (omega arith)
read_string-append (c ∷ cs) rest h a = rw (take-append, drop-append) (ground arith)

until_zero-pos :
    (n : ℕ) (body : Exec File (Option Bytes)) (file : File)
    → 0 < n
    → until_zero n body file ≡ body file
unfolding until_zero
until_zero-pos zero body file h = absurd (omega arith)
until_zero-pos (suc n) body file h = refl

-- The loop over the symbols, with a round for each of them.
read_symbol_entries-print :
    (ss : List Symbol) (fuel : ℕ) (rest : File)
    → All IsSymbol ss
    → length ss < fuel
    → read_symbol_entries fuel (print_symbols ss ++ rest) ≡ (ok none, rest)
unfolding read_symbol_entries
read_symbol_entries-print ss zero rest h l = absurd (omega arith)
read_symbol_entries-print [] (suc fuel) rest h l = rw (read_word-be32 0 rest (omega arith)) refl
read_symbol_entries-print (s ∷ ss) (suc fuel) rest h l =
    let more : 0 < length s.name / 4 = omega (arith, h.0.counted.whole, h.0.filled) in
    let tail = be32 s.value ++ print_symbols ss in
    rw
      (
        append_assoc (counted s.name),
        read_word-be32 (length s.name / 4) (s.name ++ (tail ++ rest)) h.0.counted.fits,
      )
      (rw (until_zero-pos (length s.name / 4) _ _ more) (
        rw
          (
            h.0.counted.whole,
            read_string-append s.name (tail ++ rest) h.0.filled h.0.ascii,
            read_word-be32 s.value (print_symbols ss ++ rest) h.0.fits,
          )
          (read_symbol_entries-print ss fuel rest h.1 (omega arith))))

symbols-lt : (ss : List Symbol) (rest : File) → length ss < length (print_symbols ss ++ rest) + 1
symbols-lt [] rest = omega arith
symbols-lt (s ∷ ss) rest = omega (
  arith,
  symbols-lt ss rest,
  length-append (s.name ++ (be32 s.value ++ print_symbols ss)) rest,
  length-append s.name (be32 s.value ++ print_symbols ss),
  length-append (print_symbols ss) rest,
)

read_symbol_block-print :
    (ss : List Symbol) (rest : File)
    → All IsSymbol ss
    → read_symbol_block (print_symbols ss ++ rest) ≡ (ok none, rest)
unfolding read_symbol_block
read_symbol_block-print ss rest h =
    read_symbol_entries-print ss (length (print_symbols ss ++ rest) + 1) rest h (symbols-lt ss rest)

-- The loop over the relocations, with a round for each hunk that they refer to.
read_reloc32_entries-print :
    (rs : List Relocation) (fuel : ℕ) (rest : File)
    → All IsRelocation rs
    → length rs < fuel
    → read_reloc32_entries fuel (print_relocs rs ++ rest) ≡ (ok none, rest)
unfolding read_reloc32_entries
read_reloc32_entries-print rs zero rest h l = absurd (omega arith)
read_reloc32_entries-print [] (suc fuel) rest h l = rw (read_word-be32 0 rest (omega arith)) refl
read_reloc32_entries-print (r ∷ rs) (suc fuel) rest h l =
    let tail = words r.offsets ++ print_relocs rs in
    rw (read_word-be32 (length r.offsets) (be32 r.ref_hnum ++ (tail ++ rest)) h.0.fits) (
      rw (until_zero-pos (length r.offsets) _ _ h.0.filled) (
        rw
          (
            read_word-be32 r.ref_hnum (tail ++ rest) h.0.hunk_fits,
            append_assoc (words r.offsets) (print_relocs rs) rest,
            skip_words-words r.offsets (print_relocs rs ++ rest),
          )
          (read_reloc32_entries-print rs fuel rest h.1 (omega arith))))

relocs-lt : (rs : List Relocation) (rest : File) → length rs < length (print_relocs rs ++ rest) + 1
relocs-lt [] rest = omega arith
relocs-lt (r ∷ rs) rest = omega (
  arith,
  relocs-lt rs rest,
  length-append (words r.offsets ++ print_relocs rs) rest,
  length-append (words r.offsets) (print_relocs rs),
  length-append (print_relocs rs) rest,
)

read_reloc32_block-print :
    (rs : List Relocation) (rest : File)
    → All IsRelocation rs
    → read_reloc32_block (print_relocs rs ++ rest) ≡ (ok none, rest)
unfolding read_reloc32_block
read_reloc32_block-print rs rest h =
    read_reloc32_entries-print rs (length (print_relocs rs ++ rest) + 1) rest h (relocs-lt rs rest)

-- The reader of the table gives the value of each block but the end mark, which has no reader.
pub read_func-print_body :
    (b : Block) (rest : File)
    → IsBlock b
    → type_of b == hunk_end ≡ false
    → read_func_by_block_type (type_of b) (print_body b ++ rest) ≡ (ok (value_of b), rest)
unfolding read_func_by_block_type
read_func-print_body (header resident count first last sizes) rest h e =
    read_header_block-words resident count first last sizes rest h
read_func-print_body (code bytes) rest h e = read_code_block-counted bytes rest h
read_func-print_body (content bytes) rest h e = read_code_block-counted bytes rest h
read_func-print_body (bss nwords) rest h e = read_bss_block-be32 nwords rest h
read_func-print_body (symbols ss) rest h e = read_symbol_block-print ss rest h
read_func-print_body (relocs rs) rest h e = read_reloc32_block-print rs rest h
read_func-print_body (debug bytes) rest h e = read_debug_block-counted bytes rest h
read_func-print_body end rest h e = cc
