-- ===== src/Stabs/Builder/Lines.antt =====
-- The table of line numbers that `ProgramTreeBuilder` of host/stabslib.py keeps for each compilation unit.
use cwdbg.Base.{
  ℕ, Option, none, some, ltb, if◌then◌else◌, Dict, lookup, insert, nat_key, text_key, Outcome, ok,
  raise, no_return, key_error,
}

-- For a line number the start and the end of its address range; the end is 0 while it is not known.
abbrev pub LineTable : Type 0
LineTable = Dict ℕ (ℕ × ℕ)

-- The range that is known of the previous line gets its end.
unfoldable pub close_at : ℕ → ℕ → LineTable → Option (ℕ × ℕ) → Outcome LineTable
unfolding insert
close_at prev addr lines none = raise key_error
close_at prev addr lines (some range) = ok (insert prev (range.0, addr) lines)

-- `prev_lineno is not None and prev_lineno < stab.desc`: the previous line ends where this one starts.
unfoldable pub close_previous : Option ℕ → ℕ → ℕ → LineTable → Outcome LineTable
unfolding close_at lookup
close_previous none lineno addr lines = ok lines
close_previous (some prev) lineno addr lines =
    if ltb prev lineno then close_at prev addr lines (lookup prev lines) else ok lines

-- The first address of a line is entered, and the line is the previous one from now on; other
-- addresses of a known line are passed over.
unfoldable pub enter_line : Option ℕ → ℕ → ℕ → LineTable → LineTable × Option ℕ
unfolding insert lookup
enter_line prev lineno addr lines = elim (lookup lineno lines) [
  | none ↦ (insert lineno (addr, 0) lines, some lineno)
  | some _ ↦ (lines, prev)
]

unfoldable pub after_close : Option ℕ → ℕ → ℕ → Outcome LineTable → Outcome (LineTable × Option ℕ)
unfolding enter_line
after_close prev lineno addr (ok closed) = ok (enter_line prev lineno addr closed)
after_close prev lineno addr (raise e) = raise e
after_close prev lineno addr no_return = no_return

-- The part of the branch for N_SLINE that concerns one table.
unfoldable pub record_line : Option ℕ → ℕ → ℕ → LineTable → Outcome (LineTable × Option ℕ)
unfolding close_previous after_close
record_line prev lineno addr lines =
    after_close prev lineno addr (close_previous prev lineno addr lines)
