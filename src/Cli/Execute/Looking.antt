-- ===== src/Cli/Execute/Looking.antt =====
-- What the commands of host/cli.py leave alone in the object `dbg`, command by command.
use cwdbg.Base.{◌≡◌, refl, ap, subst, Keeps, bind-Keeps, ℕ, Option, Bytes, text, Dict, ok}
use cwdbg.Stabs.Program.{ProgramWithDebugInfo}
use cwdbg.Server.{ServerConnection}
use cwdbg.Server.Commands.{
  ServerCommand, srv_continue, srv_kill, srv_run, srv_single_step, srv_quit,
}
use cwdbg.Target.{TargetInfo}
use cwdbg.Target.Syscalls.{SyscallDb}
use cwdbg.Debugger.{Debugger}
use cwdbg.Debugger.Kept.{run_server_command-Keeps}
use cwdbg.Server.Commands.New.{
  IsNew, conn_after, srv_continue-IsNew, srv_kill-IsNew, srv_run-IsNew, srv_single_step-IsNew,
  srv_quit-IsNew,
}
use cwdbg.Cli.{Namespace, Environment, run_target}
use cwdbg.Cli.Commands.{Command}
use cwdbg.Cli.Stepping.{next_round, step_round}
use cwdbg.Cli.Execute.{
  execute_command, execute_quit, execute_continue, execute_kill, execute_run, execute_step_instr,
  execute_next_line, execute_step_line,
}
use cwdbg.Cli.Execute.Kept.{
  execute_backtrace-Keeps, execute_clear_breakpoint-Keeps, execute_disassemble-Keeps,
  execute_examine-Keeps, execute_hexdump-Keeps, execute_inspect-Keeps, execute_set_breakpoint-Keeps,
}
use cwdbg.Cli.Execute.Targets.{
  execute_running-Keeps, line_command-Keeps, step_round-Keeps, next_round-Keeps,
  execute_nexti-Keeps,
}

-- The commands that do not let the target run.
unfoldable pub IsLooking : Command → Type 0
IsLooking Command.backtrace = Unit {0}
IsLooking Command.clear_breakpoint = Unit {0}
IsLooking Command.disassemble = Unit {0}
IsLooking Command.examine = Unit {0}
IsLooking Command.hexdump = Unit {0}
IsLooking Command.inspect = Unit {0}
IsLooking Command.quit = Unit {0}
IsLooking Command.set_breakpoint = Unit {0}
IsLooking _ = ⊥

module _ (holds : Debugger → Type 0)
    (exchanges : (command : ServerCommand)
      → IsNew command
      → Keeps holds
          (λ dbg. (ok tt, record dbg { server_conn = conn_after command dbg.server_conn })))
    (fuel : ℕ) (env : Environment) (args : Namespace) where
  execute_quit-Keeps : Keeps holds execute_quit
  unfolding execute_quit
  execute_quit-Keeps =
      bind-Keeps holds
        (run_server_command-Keeps holds exchanges (ok srv_quit)
          (λ command h. subst IsNew (cc) srv_quit-IsNew))
        (λ _. record { kept = λ dbg h. h })

  looking-Keeps :
      (command : Command) → IsLooking command → Keeps holds (execute_command fuel env command args)
  unfolding execute_command IsLooking
  looking-Keeps Command.backtrace looks = execute_backtrace-Keeps holds exchanges fuel
  looking-Keeps Command.clear_breakpoint looks = execute_clear_breakpoint-Keeps holds exchanges args
  looking-Keeps Command.disassemble looks = execute_disassemble-Keeps holds exchanges env args
  looking-Keeps Command.examine looks = execute_examine-Keeps holds exchanges env args
  looking-Keeps Command.hexdump looks = execute_hexdump-Keeps holds exchanges env args
  looking-Keeps Command.inspect looks = execute_inspect-Keeps holds exchanges env args
  looking-Keeps Command.quit looks = execute_quit-Keeps
  looking-Keeps Command.set_breakpoint looks = execute_set_breakpoint-Keeps holds exchanges args
  looking-Keeps Command.continue looks = elim looks [ ]
  looking-Keeps Command.kill looks = elim looks [ ]
  looking-Keeps Command.next_instr looks = elim looks [ ]
  looking-Keeps Command.next_line looks = elim looks [ ]
  looking-Keeps Command.run looks = elim looks [ ]
  looking-Keeps Command.step_instr looks = elim looks [ ]
  looking-Keeps Command.step_line looks = elim looks [ ]

  module _
      (runs : (command : ServerCommand) → IsNew command → Keeps holds (run_target command)) where
    pub execute_command-Keeps :
        (command : Command) → Keeps holds (execute_command fuel env command args)
    unfolding execute_command execute_continue execute_kill execute_run execute_step_instr
        execute_next_line execute_step_line IsLooking
    execute_command-Keeps Command.continue =
        execute_running-Keeps holds exchanges runs (text "Continuing target failed: ") srv_continue
          srv_continue-IsNew
    execute_command-Keeps Command.kill =
        execute_running-Keeps holds exchanges runs (text "Killing target failed: ") srv_kill
          srv_kill-IsNew
    execute_command-Keeps Command.next_instr = execute_nexti-Keeps holds exchanges runs env
    execute_command-Keeps Command.next_line =
        line_command-Keeps holds exchanges runs (next_round env.disasm)
          (next_round-Keeps holds exchanges runs env.disasm)
          (text "Executing target until next line failed: ")
          (text "Can't execute target until next line: ") fuel
    execute_command-Keeps Command.run =
        execute_running-Keeps holds exchanges runs (text "Running target failed: ") srv_run
          srv_run-IsNew
    execute_command-Keeps Command.step_instr =
        execute_running-Keeps holds exchanges runs (text "Stepping one instruction failed: ")
          srv_single_step srv_single_step-IsNew
    execute_command-Keeps Command.step_line =
        line_command-Keeps holds exchanges runs step_round (step_round-Keeps holds exchanges runs)
          (text "Stepping one line failed: ") (text "Can't step one line: ") fuel
    execute_command-Keeps Command.backtrace = looking-Keeps Command.backtrace tt
    execute_command-Keeps Command.clear_breakpoint = looking-Keeps Command.clear_breakpoint tt
    execute_command-Keeps Command.disassemble = looking-Keeps Command.disassemble tt
    execute_command-Keeps Command.examine = looking-Keeps Command.examine tt
    execute_command-Keeps Command.hexdump = looking-Keeps Command.hexdump tt
    execute_command-Keeps Command.inspect = looking-Keeps Command.inspect tt
    execute_command-Keeps Command.quit = looking-Keeps Command.quit tt
    execute_command-Keeps Command.set_breakpoint = looking-Keeps Command.set_breakpoint tt

rebuilt :
    ServerConnection
    → Option ProgramWithDebugInfo × SyscallDb × Dict ℕ Bytes × Option TargetInfo
    → Debugger
rebuilt conn (program, syscall_db, lib_base_addresses, target_info) = record {
  program = program;
  server_conn = conn;
  syscall_db = syscall_db;
  lib_base_addresses = lib_base_addresses;
  target_info = target_info;
}

-- What a command that does not let the target run (backtrace, delete, disassemble, examine, hexdump, inspect, break
-- and quit) changes in `dbg` is the connection at most: the target, the program and the tables are as before, errors
-- included.
pub execute_command-looking :
    (fuel : ℕ) (env : Environment) (command : Command) (args : Namespace) (dbg : Debugger)
    → IsLooking command
    → let after = (execute_command fuel env command args dbg).1 in
      after ≡ record dbg { server_conn = after.server_conn }
unfolding rebuilt
execute_command-looking fuel env command args dbg looks =
    let others : Debugger
        → Option ProgramWithDebugInfo × SyscallDb × Dict ℕ Bytes × Option TargetInfo =
      λ d. (d.program, d.syscall_db, d.lib_base_addresses, d.target_info) in
    ap (rebuilt (execute_command fuel env command args dbg).1.server_conn) (
      (looking-Keeps (λ d. others d ≡ others dbg) (λ command new. record { kept = λ d h. h }) fuel
          env args command looks).kept
        dbg refl)
