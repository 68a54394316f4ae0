-- ===== src/Hunk/Exe/Limits.antt =====
-- How `read_exe` of host/hunklib.py ends.
use cwdbg.Base.{
  ℕ, zero, suc, ◌+◌, ◌<◌, ◌≡◌, ◌≢◌, refl, ap, inl, inr, Bool-cases, Option, none, some, Bytes,
  arith, [], ◌==◌, length, insert, nat_key, Outcome, ok, raise, no_return, eof_error,
}
use cwdbg.Hunk.{File, read_word}
use cwdbg.Hunk.Blocks.{is_block_type, hunk_end, read_func_by_block_type}
use cwdbg.Hunk.Blocks.Ends.{read_word-length, read_word-Ends}
use cwdbg.Hunk.Blocks.Total.{read_func_by_block_type-Ends}
use cwdbg.Hunk.Exe.{Contents, after_word, after_block, read_blocks, read_exe}

after_word_ends :
    (last : Option ℕ) (contents : Contents) (next : ℕ → File → Outcome Contents)
    (r : Outcome ℕ × File)
    → r.0 ≢ no_return
    → ((t : ℕ) (rest : File) → r ≡ (ok t, rest) → next t rest ≢ no_return)
    → after_word last contents next r ≢ no_return
unfolding after_word
after_word_ends last contents next (ok t, rest) h k = k t rest refl
after_word_ends (some t) contents next (raise eof_error, rest) h k = cc
after_word_ends none contents next (raise eof_error, rest) h k = cc
after_word_ends last contents next (raise _, rest) h k = cc
after_word_ends last contents next (no_return, rest) h k = absurd (h refl)

after_block_ends :
    (contents : Contents) (next : Option Bytes → File → Outcome Contents)
    (r : Outcome (Option Bytes) × File)
    → r.0 ≢ no_return
    → ((v : Option Bytes) (rest : File) → r ≡ (ok v, rest) → next v rest ≢ no_return)
    → after_block contents next r ≢ no_return
unfolding after_block
after_block_ends contents next (ok v, rest) h k = k v rest refl
after_block_ends contents next (raise eof_error, rest) h k = cc
after_block_ends contents next (raise _, rest) h k = cc
after_block_ends contents next (no_return, rest) h k = absurd (h refl)

read_blocks_ends :
    (fuel : ℕ) (last : Option ℕ) (contents : Contents) (file : File)
    → length file < fuel
    → read_blocks fuel last contents file ≢ no_return
unfolding read_blocks
read_blocks_ends zero last contents file h = absurd (omega arith)
read_blocks_ends (suc fuel) last contents file h =
    after_word_ends last contents _ (read_word file) (read_word-Ends file).ends λ t rest e.
      let four = read_word-length file rest t e in
      elim (Bool-cases (is_block_type t)) [
        | inr unknown ↦ rw (unknown) (cc)
        | inl known ↦ rw known (elim (Bool-cases (t == hunk_end)) [
          | inl end ↦ rw end (read_blocks_ends fuel (some t) contents rest (omega arith))
          | inr other ↦ rw other (
              after_block_ends contents _ (read_func_by_block_type t rest)
                (read_func_by_block_type-Ends t rest).ends
                λ v rest' e'.
                  let less = (read_func_by_block_type-Ends t rest).shrinks in
                  read_blocks_ends fuel (some t) (insert t v contents) rest'
                    (omega (arith, ap (λ (r : Outcome (Option Bytes) × File). length r.1) e')))
        ])
      ]

-- The loop over the blocks ends on every file: `read_exe` returns or raises.
pub read_exe-ne-no_return : (file : File) → read_exe file ≢ no_return
unfolding read_exe
read_exe-ne-no_return file = read_blocks_ends (length file + 1) none [] file (omega arith)
