-- ===== src/Cli/Stepping.antt =====
-- Stepping by lines in host/cli.py: `_execute_until_next_line` of `CliNextLine` and `_execute_one_line` of
-- `CliStepLine`. The two methods differ in what they do with one instruction.
pub mod Runs
use cwdbg.Base.{
  ℕ, zero, suc, Bool, true, false, ◌&&◌, List, [], ◌∷◌, Option, none, some, ltb, leb, if◌then◌else◌,
  ℤ, pos, negsuc, plus, Outcome, no_return, chain, required, Exec, pure, lift, ◌>>=◌, ◌>>◌,
  attribute_error, no_debug_info, assertion_error, stop_iteration,
}
use cwdbg.Stabs.Program.{ProgramWithDebugInfo, get_addr_range_for_lineno}
use cwdbg.Server.Commands.{srv_continue, srv_single_step}
use cwdbg.Target.{TargetInfo, num_next_instructions}
use cwdbg.Target.Instructions.{next_instr_is_jsr, next_instr_is_rts}
use cwdbg.Debugger.{Debugger, current_target, current_program, run_server_command}
use cwdbg.Debugger.Location.{comp_unit_at, lineno_at, pc_offset}
use cwdbg.Debugger.Disassembly.{Instruction, Disassembler}
use cwdbg.Cli.{set_bpoint, run_target}

-- The range of the addresses of the line that the PC is in.
unfoldable pub line_range : Option ProgramWithDebugInfo → Option TargetInfo → Outcome (ℕ × ℕ)
unfolding comp_unit_at lineno_at pc_offset get_addr_range_for_lineno
line_range program target = chain (required attribute_error program) λ known.
    chain (required attribute_error target) λ info.
      chain (comp_unit_at known (pc_offset info)) λ found_unit.
        chain (required no_debug_info found_unit) λ unit.
          chain (lineno_at known (pc_offset info) (some unit)) λ found_lineno.
            chain (required no_debug_info found_lineno) λ lineno.
              chain (get_addr_range_for_lineno known lineno (some unit))
                λ range. required assertion_error range

unfoldable pub current_line_range : Exec Debugger (ℕ × ℕ)
unfolding line_range
current_line_range dbg = (line_range dbg.program dbg.target_info, dbg)

-- `first <= offset < last`
unfoldable pub in_range : ℕ × ℕ → ℤ → Bool
in_range (first, last) (pos offset) = leb first offset && ltb offset last
in_range (first, last) (negsuc n) = false

-- Behind an RTS the method starts again, with the line that the PC is in then.
unfoldable pub next_range : Bool → ℕ × ℕ → Exec Debugger (ℕ × ℕ)
unfolding current_line_range
next_range true range = current_line_range
next_range false range = pure range

-- The body of the loop, if its condition holds: `rest` is the loop from the next round on.
unfoldable pub execute_if :
    Exec Debugger Bool
    → (ℕ × ℕ → Exec Debugger (Unit {0}))
    → ℕ × ℕ
    → Bool
    → Exec Debugger (Unit {0})
unfolding next_range
execute_if m rest range true = m >>= λ returned. next_range returned range >>= rest
execute_if m rest range false = pure tt

module _ (round : TargetInfo → Exec Debugger Bool) where
  -- The loop, one unit of fuel for each instruction. `round` executes the next one, and tells whether it
  -- was an RTS after which the method starts again.
  unfoldable pub execute_line : ℕ → ℕ × ℕ → Exec Debugger (Unit {0})
  unfolding current_target in_range pc_offset execute_if
  execute_line zero range = λ dbg. (no_return, dbg)
  execute_line (suc fuel) range = current_target >>= λ info.
      execute_if (round info) (execute_line fuel) range (in_range range (pc_offset info))

  unfoldable pub execute_current_line : ℕ → Exec Debugger (Unit {0})
  unfolding current_line_range execute_line
  execute_current_line fuel = current_line_range >>= λ range. execute_line fuel range

-- `_execute_one_line`: each instruction is single-stepped.
unfoldable pub step_round : TargetInfo → Exec Debugger Bool
unfolding next_instr_is_rts run_target
step_round info = do
  returns ← lift (next_instr_is_rts info)
  run_target srv_single_step
  pure returns

-- A one-shot breakpoint at an offset, up to which the target runs.
unfoldable pub run_to : ℤ → Exec Debugger (Unit {0})
unfolding run_server_command set_bpoint run_target
run_to offset = run_server_command (set_bpoint offset true) >> run_target srv_continue

unfoldable pub first_instruction : List Instruction → Option Instruction
first_instruction [] = none
first_instruction (instr ∷ instrs) = some instr

module _ (disasm : Disassembler) where
  -- `_execute_until_next_line`: a called function is run through.
  unfoldable pub next_round : TargetInfo → Exec Debugger Bool
  unfolding first_instruction next_instr_is_jsr run_to pc_offset step_round
  next_round info = do
    instr ← lift (
        required stop_iteration
          (first_instruction (disasm info.next_instr_bytes info.task_context.reg_pc 1)))
    calls ← lift (next_instr_is_jsr info)
    if calls then (run_to (plus (pc_offset info) instr.size) >> pure false) else step_round info

  -- `get_bytes_used_by_jsr` of host/target.py
  unfoldable pub get_bytes_used_by_jsr : TargetInfo → Outcome ℕ
  unfolding first_instruction
  get_bytes_used_by_jsr info =
      chain
        (required stop_iteration (
          first_instruction
            (disasm info.next_instr_bytes info.task_context.reg_pc num_next_instructions)))
        λ instr. Outcome.ok instr.size

  -- `CliNextInstr.execute` within its `try`.
  unfoldable pub execute_next_instr : Exec Debugger (Unit {0})
  unfolding current_target next_instr_is_jsr get_bytes_used_by_jsr run_to pc_offset run_target
  execute_next_instr = do
    info ← current_target
    calls ← lift (next_instr_is_jsr info)
    if calls
        then (lift (get_bytes_used_by_jsr info) >>= λ size. run_to (plus (pc_offset info) size))
        else run_target srv_single_step
