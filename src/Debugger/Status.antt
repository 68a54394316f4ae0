-- ===== src/Debugger/Status.antt =====
-- The status line and the views of registers and stack: `get_status_str`, `get_register_view` and
-- `get_stack_view` of host/target.py.
use cwdbg.Base.{
  ℕ, zero, suc, ◌*◌, List, [], ◌∷◌, ◌++◌, Option, none, some, Bytes, text, decimal, zero_filled,
  address_text, concat, ◌==◌, if◌then◌else◌, get_elem?, difference, hex, Outcome, ok, raise,
  value_error, assertion_error, chain, required,
}
use cwdbg.Target.{TargetInfo, TaskContext, num_top_stack_dwords}
use cwdbg.Target.States.{
  ts_exited, ts_killed, ts_stopped_by_bpoint, ts_stopped_by_one_shot_bpoint,
  ts_stopped_by_single_step, ts_stopped_by_exception, ts_error,
}
use cwdbg.Debugger.{has_flag, is_running, not_available}

abbrev pub error_names : List Bytes
error_names =
    text "ERROR_OK"
    ∷ text "ERROR_NOT_ENOUGH_MEMORY"
    ∷ text "ERROR_INVALID_ADDRESS"
    ∷ text "ERROR_UNKNOWN_BREAKPOINT"
    ∷ text "ERROR_LOAD_TARGET_FAILED"
    ∷ text "ERROR_CREATE_PROC_FAILED"
    ∷ text "ERROR_UNKNOWN_STOP_REASON"
    ∷ text "ERROR_NO_TRAP"
    ∷ text "ERROR_RUN_COMMAND_FAILED"
    ∷ text "ERROR_BAD_DATA"
    ∷ text "ERROR_OPEN_LIB_FAILED"
    ∷ []

-- `ErrorCodes(code).name`
unfoldable pub error_name : ℕ → Outcome Bytes
error_name code = required value_error (get_elem? error_names code)

-- `hex(self.bpoint.address - self.initial_pc)`
unfoldable pub bpoint_offset : TargetInfo → Bytes
unfolding hex
bpoint_offset info = hex (difference info.bpoint.address info.initial_pc)

unfoldable pub get_status_str : TargetInfo → Outcome Bytes
unfolding has_flag bpoint_offset error_name concat decimal
get_status_str info =
    let state = info.target_state in
    if has_flag state ts_stopped_by_bpoint
    then ok (
        concat (
          text "Hit breakpoint #"
          ∷ decimal info.bpoint.num
          ∷ text " at entry + "
          ∷ bpoint_offset info
          ∷ text ", hit count = "
          ∷ decimal info.bpoint.hit_count
          ∷ []))
    else if has_flag state ts_stopped_by_one_shot_bpoint
    then ok (
        concat (
          text "Hit one-shot breakpoint #"
          ∷ decimal info.bpoint.num
          ∷ text " at entry + "
          ∷ bpoint_offset info
          ∷ []))
    else if has_flag state ts_stopped_by_single_step
    then ok (text "Stopped after single-stepping")
    else if has_flag state ts_stopped_by_exception
    then ok (text "Stopped by exception #" ++ decimal info.task_context.exc_num)
    else if state == ts_exited
    then ok (text "Exited with code " ++ decimal info.exit_code)
    else if state == ts_killed
    then ok (text "Killed")
    else if state == ts_error
    then (chain (error_name info.error_code)
        λ name. ok (concat (text "Error " ∷ name ∷ text " occured" ∷ [])))
    else raise assertion_error

-- An item of an array of registers; the arrays have eight and seven items, so the index is in range.
value_or_zero : Option ℕ → ℕ
value_or_zero none = 0
value_or_zero (some n) = n

unfoldable pub register_in : List ℕ → ℕ → ℕ
unfolding value_or_zero
register_in regs i = value_or_zero (get_elem? regs i)

-- One line, for an address register and a data register.
register_line : ℕ → ℕ → ℕ → Bytes
unfolding concat decimal address_text
register_line i a d = concat (
    (b'A' ∷ decimal i)
    ∷ text "="
    ∷ address_text a
    ∷ text "        "
    ∷ (b'D' ∷ decimal i)
    ∷ text "="
    ∷ address_text d
    ∷ text "\n"
    ∷ [])

-- The lines for A0 to A6, from one register on.
register_lines : ℕ → ℕ → TaskContext → List Bytes
unfolding register_in register_line
register_lines zero i context = []
register_lines (suc n) i context =
    register_line i (register_in context.reg_a i) (register_in context.reg_d i)
    ∷ register_lines n (suc i) context

unfoldable pub get_register_view : TargetInfo → List Bytes
unfolding register_lines is_running
get_register_view info =
    if is_running info
    then register_lines 7 0 info.task_context
      ++ register_line 7 info.task_context.reg_sp (register_in info.task_context.reg_d 7) ∷ []
    else not_available

stack_lines : ℕ → ℕ → List ℕ → List Bytes
unfolding concat decimal zero_filled address_text register_in
stack_lines zero i dwords = []
stack_lines (suc n) i dwords =
    concat (
      text "SP + "
      ∷ zero_filled 2 (decimal (i * 4))
      ∷ text ":    "
      ∷ address_text (register_in dwords i)
      ∷ text "\n"
      ∷ [])
    ∷ stack_lines n (suc i) dwords

unfoldable pub get_stack_view : TargetInfo → List Bytes
unfolding stack_lines is_running
get_stack_view info =
    if is_running info
    then stack_lines num_top_stack_dwords 0 info.top_stack_dwords
    else not_available
