-- ===== src/Hunk/Exe.antt =====
-- `read_exe` and `get_debug_infos_from_exe` of host/hunklib.py. The loop takes fuel: each round reads
-- a word.
pub mod Image
pub mod Bodies
pub mod RoundTrip
pub mod Limits
pub mod DebugInfo
use cwdbg.Base.{
  ℕ, zero, suc, ◌+◌, Bool, true, false, [], Option, none, some, Bytes, ◌==◌, if◌then◌else◌, length,
  Dict, lookup, insert, nat_key, Exn, Outcome, ok, raise, no_return, value_error, eof_error,
  key_error, unbound_local_error,
}
use cwdbg.Hunk.{File, read_word}
use cwdbg.Hunk.Blocks.{is_block_type, hunk_end, hunk_debug, read_func_by_block_type}

-- `content_by_type`; the readers that only log return None.
abbrev pub Contents : Type 0
Contents = Dict ℕ (Option Bytes)

-- The end of the file is met: what was read is returned, with or without a log line, unless
-- `block_type` has no value yet.
unfoldable pub at_eof : Option ℕ → Contents → Outcome Contents
at_eof none contents = raise unbound_local_error
at_eof (some block_type) contents = ok contents

-- The `except` clauses, for a block of a known type.
unfoldable pub stop_at : Exn → Contents → Outcome Contents
stop_at eof_error contents = ok contents
stop_at key_error contents = ok contents
stop_at e contents = raise e

-- What the loop does with a word, and with the result of the block's reader.
unfoldable pub after_word :
    Option ℕ → Contents → (ℕ → File → Outcome Contents) → Outcome ℕ × File → Outcome Contents
unfolding at_eof
after_word last contents next (ok block_type, rest) = next block_type rest
after_word last contents next (raise eof_error, rest) = at_eof last contents
after_word last contents next (raise e, rest) = raise e
after_word last contents next (no_return, rest) = no_return

unfoldable pub after_block :
    Contents
    → (Option Bytes → File → Outcome Contents)
    → Outcome (Option Bytes) × File
    → Outcome Contents
unfolding stop_at
after_block contents next (ok v, rest) = next v rest
after_block contents next (raise e, rest) = stop_at e contents
after_block contents next (no_return, rest) = no_return

unfoldable pub read_blocks : ℕ → Option ℕ → Contents → File → Outcome Contents
unfolding after_word after_block is_block_type
read_blocks zero last contents file = no_return
read_blocks (suc fuel) last contents file =
    after_word last contents
      (λ block_type rest. elim (is_block_type block_type) [
        | false ↦ raise value_error
        | true ↦ elim (block_type == hunk_end) [
          | true ↦ read_blocks fuel (some block_type) contents rest
          | false ↦
              after_block contents
                (λ v rest'. read_blocks fuel (some block_type) (insert block_type v contents) rest')
                (read_func_by_block_type block_type rest)
        ]
      ])
      (read_word file)

unfoldable pub read_exe : File → Outcome Contents
unfolding read_blocks
read_exe file = read_blocks (length file + 1) none [] file

-- `read_exe(fname)[BlockTypes.HUNK_DEBUG]`
debug_entry : Outcome Contents → Outcome (Option Bytes)
debug_entry (ok contents) = elim (lookup hunk_debug contents) [
  | none ↦ raise key_error
  | some v ↦ ok v
]
debug_entry (raise e) = raise e
debug_entry no_return = no_return

unfoldable pub get_debug_infos_from_exe : File → Outcome (Option Bytes)
unfolding debug_entry read_exe
get_debug_infos_from_exe file = debug_entry (read_exe file)
