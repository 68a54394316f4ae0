-- ===== src/Hunk/Exe/RoundTrip.antt =====
-- `read_exe` of host/hunklib.py on an executable that was written block by block.
use native.Mathlib.Nat.{zero-add, suc-add}
use cwdbg.Base.{
  ℕ, suc, ◌+◌, ◌-◌, ◌^◌, ◌≤◌, ◌<◌, ◌≡◌, refl, ap, ◌∙◌, true, false, List, [], ◌∷◌, ◌++◌, Option,
  none, some, Bytes, length, length-append, append_assoc, be32, All, lookup, nat_key, arith, ◌==◌,
  Outcome, ok,
}
use cwdbg.Hunk.{File, read_word}
use cwdbg.Hunk.Blocks.{hunk_end, read_funcs, call_reader, read_func_by_block_type, is_block_type}
use cwdbg.Hunk.Exe.{Contents, after_word, after_block, stop_at, read_blocks, read_exe}
use cwdbg.Hunk.Exe.Image.{Block, code, end, print_body, type_of, print, IsBlock, store, store_all}
use cwdbg.Hunk.Exe.Bodies.{read_word-be32, read_func-print_body}

-- One round of the loop reads one block.
read_blocks_step :
    (b : Block) (fuel : ℕ) (last : Option ℕ) (contents : Contents) (rest : File)
    → IsBlock b
    → read_blocks (suc fuel) last contents (be32 (type_of b) ++ (print_body b ++ rest))
      ≡ read_blocks fuel (some (type_of b)) (store contents b) rest
unfolding read_blocks read_word
read_blocks_step end fuel last contents rest h = refl
read_blocks_step (code bytes) fuel last contents rest h =
    rw (read_func-print_body (code bytes) rest h refl) refl
read_blocks_step b fuel last contents rest h = rw (read_func-print_body b rest h refl) refl

abbrev last_type : Option ℕ → List Block → Option ℕ
last_type last [] = last
last_type last (b ∷ bs) = last_type (some (type_of b)) bs

last_type-some : (t : ℕ) (bs : List Block) → (u : ℕ) × (last_type (some t) bs ≡ some u)
last_type-some t [] = (t, refl)
last_type-some t (b ∷ bs) = last_type-some (type_of b) bs

read_blocks-print :
    (bs : List Block) (fuel : ℕ) (last : Option ℕ) (contents : Contents) (rest : File)
    → All IsBlock bs
    → read_blocks (length bs + fuel) last contents (print bs ++ rest)
      ≡ read_blocks fuel (last_type last bs) (store_all contents bs) rest
read_blocks-print [] fuel last contents rest h = rw zero-add refl
read_blocks-print (b ∷ bs) fuel last contents rest h =
    rw (suc-add, append_assoc (be32 (type_of b)), append_assoc (print_body b))
      (read_blocks_step b (length bs + fuel) last contents (print bs ++ rest) h.0
        ∙ read_blocks-print bs fuel (some (type_of b)) (store contents b) rest h.1)

length-print-le : (bs : List Block) (rest : File) → length bs ≤ length (print bs ++ rest)
length-print-le [] rest = omega arith
length-print-le (b ∷ bs) rest =
    let inner = print_body b ++ print bs in
    omega (
      arith,
      length-print-le bs rest,
      length-append inner rest,
      length-append (print_body b) (print bs),
      length-append (print bs) rest,
    )

-- What follows at least one block ends the reading: nothing, or a block of a known type that has no reader,
-- whatever comes behind its type.
pub data Stops : Bytes → Type 0 where
  at_end : Stops []
  at_unread :
      (t : ℕ) (rest : Bytes)
      → t < 2 ^ 32
      → is_block_type t ≡ true
      → t == hunk_end ≡ false
      → lookup t read_funcs ≡ none
      → Stops (be32 t ++ rest)

read_blocks-Stops :
    (fuel t : ℕ) (contents : Contents) {rest : Bytes}
    → Stops rest
    → read_blocks (suc fuel) (some t) contents rest ≡ ok contents
unfolding read_blocks read_func_by_block_type after_word after_block stop_at call_reader
read_blocks-Stops fuel t contents at_end = unfold read_word in refl
read_blocks-Stops fuel t contents (at_unread u rest fits known not_end unread) =
    rw (read_word-be32 u rest fits)
      (rw (after_word, known) (rw not_end (rw (unread, after_block) refl)))

-- Reading the blocks of a well-formed executable gives the dictionary of their contents, a later block of
-- a type in place of an earlier one. A block of a type without a reader ends the reading, so that all that
-- stands behind it is missing.
pub read_exe-print :
    (b : Block) (bs : List Block) (rest : Bytes)
    → All IsBlock (b ∷ bs)
    → Stops rest
    → read_exe (print (b ∷ bs) ++ rest) ≡ ok (store_all [] (b ∷ bs))
unfolding read_exe
read_exe-print b bs rest h s =
    let file = print (b ∷ bs) ++ rest in
    let k = length file - length (b ∷ bs) in
    let (t, seen) = last_type-some (type_of b) bs in
    ap {B = Outcome Contents} (λ fuel. read_blocks fuel none [] file)
      (omega (arith, length-print-le (b ∷ bs) rest))
    ∙ read_blocks-print (b ∷ bs) (suc k) none [] rest h
    ∙ ap (λ last. read_blocks (suc k) last (store_all [] (b ∷ bs)) rest) seen
    ∙ read_blocks-Stops k t (store_all [] (b ∷ bs)) s
