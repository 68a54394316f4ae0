-- ===== src/Debugger/Frames.antt =====
-- How the frames of the call stack are shown: `get_call_stack_view` of host/target.py.
use cwdbg.Base.{
  ℕ, suc, ◌-◌, Bool, true, false, List, [], ◌∷◌, Option, none, some, Bytes, text, decimal,
  address_text, concat, leb, if◌then◌else◌, ℤ, pos, negsuc, Outcome, ok, attribute_error, chain,
  required, Exec, pure, lift, ◌>>=◌,
}
use cwdbg.Stabs.Program.{ProgramWithDebugInfo}
use cwdbg.Target.{TargetInfo}
use cwdbg.Target.CallStack.{StackFrame, get_call_stack}
use cwdbg.Debugger.{Debugger, on_server_conn, is_running, current_target, not_available}
use cwdbg.Debugger.Location.{comp_unit_at, lineno_at}

-- `addr_offset`, which is -1 for an address in front of the program.
unfoldable pub frame_offset : ℕ → ℕ → ℤ
frame_offset initial_pc program_counter =
    if leb initial_pc program_counter then pos (program_counter - initial_pc) else negsuc 0

unfoldable pub lineno_text : Option ℕ → Bytes
unfolding decimal
lineno_text none = text "???"
lineno_text (some lineno) = decimal lineno

-- The names of the unit and of the line.
unfoldable pub frame_place : ProgramWithDebugInfo → ℤ → Option Bytes → Outcome (Bytes × Bytes)
unfolding lineno_text
frame_place program offset none = ok (text "???", text "???")
frame_place program offset (some unit) =
    chain (lineno_at program offset (some unit)) λ lineno. ok (unit, lineno_text lineno)

unfoldable pub frame_line : Option ProgramWithDebugInfo → ℕ → ℕ → StackFrame → Outcome Bytes
unfolding frame_offset frame_place comp_unit_at concat decimal address_text
frame_line program initial_pc i frame =
    let offset = frame_offset initial_pc frame.program_counter in
    chain (required attribute_error program) λ known. chain (comp_unit_at known offset) λ unit.
      chain (frame_place known offset unit) λ place. ok (
        concat (
          text "Frame #"
          ∷ decimal i
          ∷ text ": "
          ∷ address_text frame.program_counter
          ∷ text " "
          ∷ place.0
          ∷ text ":"
          ∷ place.1
          ∷ text "\n"
          ∷ []))

-- The loop over the frames; the lines are counted from `i` on.
unfoldable pub frame_lines :
    Option ProgramWithDebugInfo → ℕ → ℕ → List StackFrame → Outcome (List Bytes)
unfolding frame_line
frame_lines program initial_pc i [] = ok []
frame_lines program initial_pc i (frame ∷ frames) =
    chain (frame_line program initial_pc i frame)
      λ line. chain (frame_lines program initial_pc (suc i) frames) λ lines. ok (line ∷ lines)

unfoldable pub or_not_available : List Bytes → List Bytes
or_not_available [] = not_available
or_not_available (line ∷ lines) = line ∷ lines

unfoldable pub frames_view :
    ℕ → TargetInfo → Option ProgramWithDebugInfo → Bool → Exec Debugger (List Bytes)
unfolding get_call_stack frame_lines or_not_available
frames_view fuel info program true = on_server_conn (get_call_stack fuel info) >>= λ frames.
    lift (chain (frame_lines program info.initial_pc 0 frames) λ lines. ok (or_not_available lines))
frames_view fuel info program false = pure not_available

-- The view of `dbg.target_info`, which is also the object that the method is called on.
unfoldable pub get_call_stack_view : ℕ → Exec Debugger (List Bytes)
unfolding is_running current_target frames_view
get_call_stack_view fuel =
    current_target >>= λ info dbg. frames_view fuel info dbg.program (is_running info) dbg
