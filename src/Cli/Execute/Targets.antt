-- ===== src/Cli/Execute/Targets.antt =====
-- What the methods of host/cli.py that let the target run leave alone in the object `dbg`.
use cwdbg.Base.{
  ℕ, Keeps, bind-Keeps, lift-Keeps, except-Keeps, if-Keeps, zero, suc, Bool, true, false, Bytes,
  text, ℤ, ok, Exec, required, stop_iteration, plus, none,
}
use cwdbg.Server.Commands.{ServerCommand, srv_continue, srv_single_step}
use cwdbg.Server.Commands.New.{IsNew, conn_after, srv_continue-IsNew, srv_single_step-IsNew}
use cwdbg.Target.{TargetInfo}
use cwdbg.Target.Instructions.{next_instr_is_jsr, next_instr_is_rts}
use cwdbg.Debugger.{Debugger}
use cwdbg.Debugger.Location.{pc_offset}
use cwdbg.Debugger.Disassembly.{Disassembler}
use cwdbg.Cli.{Environment, run_target, set_bpoint}
use cwdbg.Cli.Stepping.{
  execute_if, execute_line, execute_current_line, current_line_range, in_range, next_range,
  step_round, run_to, next_round, execute_next_instr, first_instruction, get_bytes_used_by_jsr,
}
use cwdbg.Cli.Execute.{execute_running, execute_nexti, execute_line_command}
use cwdbg.Debugger.Kept.{current_target-Keeps, run_server_command-Keeps}
use cwdbg.Cli.Execute.Kept.{or_failed-Keeps}
use cwdbg.Cli.New.{set_bpoint-AllNew}

-- What the exchange of one command and one run of the target keep.
module _ (holds : Debugger → Type 0)
    (exchanges : (command : ServerCommand)
      → IsNew command
      → Keeps holds
          (λ dbg. (ok tt, record dbg { server_conn = conn_after command dbg.server_conn })))
    (runs : (command : ServerCommand) → IsNew command → Keeps holds (run_target command)) where
  pub execute_running-Keeps :
      (prefix : Bytes) (command : ServerCommand)
      → IsNew command
      → Keeps holds (execute_running prefix command)
  unfolding execute_running
  execute_running-Keeps prefix command new =
      or_failed-Keeps holds prefix
        (bind-Keeps holds (runs command new) (λ _. lift-Keeps holds (ok none)))

  current_line_range-Keeps : Keeps holds current_line_range
  unfolding current_line_range
  current_line_range-Keeps = record { kept = λ dbg h. h }

  next_range-Keeps : (returned : Bool) (range : ℕ × ℕ) → Keeps holds (next_range returned range)
  unfolding next_range
  next_range-Keeps true range = current_line_range-Keeps
  next_range-Keeps false range = lift-Keeps holds (ok range)

  module _ (round : TargetInfo → Exec Debugger Bool)
      (round-Keeps : (info : TargetInfo) → Keeps holds (round info)) where
    execute_if-Keeps :
        {rest : ℕ × ℕ → Exec Debugger (Unit {0})}
        → ((range : ℕ × ℕ) → Keeps holds (rest range))
        → (info : TargetInfo) (range : ℕ × ℕ) (inside : Bool)
        → Keeps holds (execute_if (round info) rest range inside)
    unfolding execute_if
    execute_if-Keeps rest info range true =
        bind-Keeps holds (round-Keeps info)
          (λ returned. bind-Keeps holds (next_range-Keeps returned range) rest)
    execute_if-Keeps rest info range false = lift-Keeps holds (ok tt)

    execute_line-Keeps : (fuel : ℕ) (range : ℕ × ℕ) → Keeps holds (execute_line round fuel range)
    unfolding execute_line
    execute_line-Keeps zero range = record { kept = λ dbg h. h }
    execute_line-Keeps (suc fuel) range = bind-Keeps holds (current_target-Keeps holds) (λ info.
        execute_if-Keeps (execute_line-Keeps fuel) info range (in_range range (pc_offset info)))

    pub line_command-Keeps :
        (failure no_info : Bytes) (fuel : ℕ)
        → Keeps holds (execute_line_command failure no_info (execute_current_line round fuel))
    unfolding execute_line_command execute_current_line
    line_command-Keeps failure no_info fuel = except-Keeps holds _ (
        or_failed-Keeps holds failure (
          bind-Keeps holds (bind-Keeps holds current_line_range-Keeps (execute_line-Keeps fuel))
            (λ _. lift-Keeps holds (ok none))))

  pub step_round-Keeps : (info : TargetInfo) → Keeps holds (step_round info)
  unfolding step_round
  step_round-Keeps info = bind-Keeps holds (lift-Keeps holds (next_instr_is_rts info)) (λ returns.
      bind-Keeps holds (runs srv_single_step srv_single_step-IsNew)
        (λ _. lift-Keeps holds (ok returns)))

  run_to-Keeps : (offset : ℤ) → Keeps holds (run_to offset)
  unfolding run_to
  run_to-Keeps offset =
      bind-Keeps holds
        (run_server_command-Keeps holds exchanges (set_bpoint offset true)
          (set_bpoint-AllNew offset true))
        (λ _. runs srv_continue srv_continue-IsNew)

  module _ (disasm : Disassembler) where
    pub next_round-Keeps : (info : TargetInfo) → Keeps holds (next_round disasm info)
    unfolding next_round
    next_round-Keeps info =
        bind-Keeps holds
          (lift-Keeps holds (
            required stop_iteration
              (first_instruction (disasm info.next_instr_bytes info.task_context.reg_pc 1))))
          (λ instr. bind-Keeps holds (lift-Keeps holds (next_instr_is_jsr info)) (λ calls.
            if-Keeps holds calls
              (bind-Keeps holds (run_to-Keeps (plus (pc_offset info) instr.size))
                (λ _. lift-Keeps holds (ok false)))
              (step_round-Keeps info)))

    execute_next_instr-Keeps : Keeps holds (execute_next_instr disasm)
    unfolding execute_next_instr
    execute_next_instr-Keeps = bind-Keeps holds (current_target-Keeps holds) (λ info.
        bind-Keeps holds (lift-Keeps holds (next_instr_is_jsr info)) (λ calls.
          if-Keeps holds calls
            (bind-Keeps holds (lift-Keeps holds (get_bytes_used_by_jsr disasm info))
              (λ size. run_to-Keeps (plus (pc_offset info) size)))
            (runs srv_single_step srv_single_step-IsNew)))

  pub execute_nexti-Keeps : (env : Environment) → Keeps holds (execute_nexti env)
  unfolding execute_nexti
  execute_nexti-Keeps env =
      or_failed-Keeps holds (text "Executing target until next instruction failed: ")
        (bind-Keeps holds (execute_next_instr-Keeps env.disasm) (λ _. lift-Keeps holds (ok none)))
