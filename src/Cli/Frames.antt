-- ===== src/Cli/Frames.antt =====
-- The text of `CliBacktrace.execute` in host/cli.py. The command builds it by code of its own, which repeats that of
-- `get_call_stack_view` in host/target.py.
use cwdbg.Base.{
  ℕ, suc, ◌-◌, List, [], ◌∷◌, ◌++◌, Option, none, some, Bytes, text, decimal, address_text, leb,
  if◌then◌else◌, ℤ, pos, negsuc, Outcome, ok, attribute_error, chain, required,
}
use cwdbg.Stabs.Program.{ProgramWithDebugInfo}
use cwdbg.Target.CallStack.{StackFrame}
use cwdbg.Debugger.Location.{comp_unit_at, lineno_at}

-- `addr_offset`
unfoldable pub backtrace_offset : ℕ → ℕ → ℤ
backtrace_offset initial_pc program_counter =
    if leb initial_pc program_counter then pos (program_counter - initial_pc) else negsuc 0

-- `lineno`, with a known unit.
unfoldable pub backtrace_lineno : Option ℕ → Bytes
unfolding decimal
backtrace_lineno none = text "???"
backtrace_lineno (some lineno) = decimal lineno

-- `{comp_unit}:{lineno}`
unfoldable pub backtrace_place : ProgramWithDebugInfo → ℤ → Option Bytes → Outcome Bytes
unfolding backtrace_lineno
backtrace_place program addr_offset none = ok (text "???:???")
backtrace_place program addr_offset (some comp_unit) =
    chain (lineno_at program addr_offset (some comp_unit))
      λ lineno. ok (comp_unit ++ (b':' ∷ backtrace_lineno lineno))

unfoldable pub backtrace_frame : Option ProgramWithDebugInfo → ℕ → ℕ → StackFrame → Outcome Bytes
unfolding backtrace_offset backtrace_place comp_unit_at decimal address_text
backtrace_frame program initial_pc idx frame =
    let addr_offset = backtrace_offset initial_pc frame.program_counter in
    chain (required attribute_error program) λ known.
      chain (comp_unit_at known addr_offset) λ comp_unit.
        chain (backtrace_place known addr_offset comp_unit) λ place. ok (
          text "Frame #"
          ++ (decimal idx
              ++ (text ": "
                  ++ (address_text frame.program_counter ++ (b' ' ∷ (place ++ (b'\n' ∷ [])))))))

-- The loop, with `call_stack_repr` so far.
unfoldable pub backtrace_text :
    Option ProgramWithDebugInfo → ℕ → ℕ → Bytes → List StackFrame → Outcome Bytes
unfolding backtrace_frame
backtrace_text program initial_pc idx call_stack_repr [] = ok call_stack_repr
backtrace_text program initial_pc idx call_stack_repr (frame ∷ frames) =
    chain (backtrace_frame program initial_pc idx frame)
      λ line. backtrace_text program initial_pc (suc idx) (call_stack_repr ++ line) frames
