-- ===== src/Cli/Execute.antt =====
-- The `execute` methods of the commands of host/cli.py.
pub mod Backtrace
pub mod Running
pub mod Messages
pub mod Steps
pub mod Kept
pub mod Targets
pub mod Looking
use cwdbg.Base.{
  ℕ, Bool, List, [], ◌∷◌, ◌++◌, Option, none, some, Bytes, text, concat, str, eq_text,
  if◌then◌else◌, Exn, ok, no_return, Exec, pure, get, throw, lift, except, chain, ◌>>=◌, ◌>>◌,
  server_command_error, no_debug_info, quit_debugger,
}
use cwdbg.Server.Commands.{
  ServerCommand, srv_continue, srv_kill, srv_quit, srv_run, srv_single_step,
}
use cwdbg.Target.{TargetInfo}
use cwdbg.Target.CallStack.{StackFrame, get_call_stack}
use cwdbg.Debugger.{Debugger, current_target, run_server_command, on_server_conn}
use cwdbg.Debugger.Status.{get_register_view, get_stack_view}
use cwdbg.Debugger.Disassembly.{get_disasm_view}
use cwdbg.Debugger.Source.{get_source_view}
use cwdbg.Cli.{Namespace, Environment, Reply, message, failed, clear_bpoint, run_target, or_failed}
use cwdbg.Cli.Commands.{Command}
use cwdbg.Cli.Memory.{execute_disassemble, execute_examine, execute_hexdump}
use cwdbg.Cli.Frames.{backtrace_text}
use cwdbg.Cli.Locations.{execute_set_breakpoint}
use cwdbg.Cli.Stepping.{execute_current_line, step_round, next_round, execute_next_instr}

-- A method that returns nothing if it succeeds.
abbrev without_reply : Exec Debugger (Unit {0}) → Exec Debugger (Option Reply)
without_reply m = m >> pure none

-- The loop over the frames.
unfoldable pub shown_frames : TargetInfo → List StackFrame → Exec Debugger (Option Reply)
unfolding backtrace_text
shown_frames info frames dbg = (
  chain (backtrace_text dbg.program info.initial_pc 0 [] frames)
      λ call_stack_repr. ok (some (message call_stack_repr)),
  dbg,
)

unfoldable pub execute_backtrace : ℕ → Exec Debugger (Option Reply)
unfolding current_target get_call_stack shown_frames
execute_backtrace fuel =
    current_target >>= λ info. on_server_conn (get_call_stack fuel info) >>= shown_frames info

unfoldable pub execute_clear_breakpoint : Namespace → Exec Debugger (Option Reply)
unfolding or_failed run_server_command clear_bpoint str concat
execute_clear_breakpoint args = or_failed (text "Clearing breakpoint failed: ") (
    run_server_command (clear_bpoint args.number) >>= λ _.
    pure (some (message (concat (text "Breakpoint #" ∷ str args.number ∷ text " cleared" ∷ [])))))

-- A command that lets the target run, and reports a failure of the server.
unfoldable pub execute_running : Bytes → ServerCommand → Exec Debugger (Option Reply)
unfolding or_failed run_target
execute_running prefix command = or_failed prefix (without_reply (run_target command))

abbrev on_no_debug_info : Bytes → Exn → Option (Option Reply)
on_no_debug_info prefix no_debug_info = some (some (failed prefix no_debug_info))
on_no_debug_info prefix e = none

unfoldable pub execute_line_command :
    Bytes → Bytes → Exec Debugger (Unit {0}) → Exec Debugger (Option Reply)
unfolding or_failed
execute_line_command failure no_info m =
    except (on_no_debug_info no_info) (or_failed failure (without_reply m))

unfoldable pub execute_inspect : Environment → Namespace → Exec Debugger (Option Reply)
unfolding current_target get_disasm_view get_register_view get_stack_view get_source_view concat
    eq_text
execute_inspect env args = do
  info ← current_target
  if eq_text args.what (text "d")
      then (get_disasm_view env.disasm info >>= λ view. pure (some (message (concat view))))
      else (if eq_text args.what (text "r")
          then pure (some (message (concat (get_register_view info))))
          else (if eq_text args.what (text "s")
              then pure (some (message (concat (get_stack_view info))))
              else (if eq_text args.what (text "c")
                  then (get_source_view env.is_darwin env.read_lines info >>= λ view.
                      pure (some (message (concat view))))
                  else pure none)))

unfoldable pub execute_quit : Exec Debugger (Option Reply)
unfolding run_server_command
execute_quit = run_server_command (ok srv_quit) >> throw quit_debugger

unfoldable pub execute_continue : Exec Debugger (Option Reply)
unfolding execute_running
execute_continue = execute_running (text "Continuing target failed: ") srv_continue

unfoldable pub execute_kill : Exec Debugger (Option Reply)
unfolding execute_running
execute_kill = execute_running (text "Killing target failed: ") srv_kill

unfoldable pub execute_run : Exec Debugger (Option Reply)
unfolding execute_running
execute_run = execute_running (text "Running target failed: ") srv_run

unfoldable pub execute_step_instr : Exec Debugger (Option Reply)
unfolding execute_running
execute_step_instr = execute_running (text "Stepping one instruction failed: ") srv_single_step

unfoldable pub execute_nexti : Environment → Exec Debugger (Option Reply)
unfolding or_failed execute_next_instr
execute_nexti env =
    or_failed (text "Executing target until next instruction failed: ")
      (without_reply (execute_next_instr env.disasm))

unfoldable pub execute_next_line : ℕ → Environment → Exec Debugger (Option Reply)
unfolding execute_line_command execute_current_line next_round
execute_next_line fuel env =
    execute_line_command (text "Executing target until next line failed: ")
      (text "Can't execute target until next line: ")
      (execute_current_line (next_round env.disasm) fuel)

unfoldable pub execute_step_line : ℕ → Exec Debugger (Option Reply)
unfolding execute_line_command execute_current_line step_round
execute_step_line fuel =
    execute_line_command (text "Stepping one line failed: ") (text "Can't step one line: ")
      (execute_current_line step_round fuel)

-- `cmd.execute(args)`
unfoldable pub execute_command :
    ℕ → Environment → Command → Namespace → Exec Debugger (Option Reply)
unfolding execute_backtrace execute_clear_breakpoint execute_continue execute_disassemble
    execute_examine execute_hexdump execute_inspect execute_kill execute_nexti execute_next_line
    execute_quit execute_run execute_set_breakpoint execute_step_instr execute_step_line
execute_command fuel env Command.backtrace args = execute_backtrace fuel
execute_command fuel env Command.clear_breakpoint args = execute_clear_breakpoint args
execute_command fuel env Command.continue args = execute_continue
execute_command fuel env Command.disassemble args = execute_disassemble env args
execute_command fuel env Command.examine args = execute_examine env args
execute_command fuel env Command.hexdump args = execute_hexdump env args
execute_command fuel env Command.inspect args = execute_inspect env args
execute_command fuel env Command.kill args = execute_kill
execute_command fuel env Command.next_instr args = execute_nexti env
execute_command fuel env Command.next_line args = execute_next_line fuel env
execute_command fuel env Command.quit args = execute_quit
execute_command fuel env Command.run args = execute_run
execute_command fuel env Command.set_breakpoint args = execute_set_breakpoint args
execute_command fuel env Command.step_instr args = execute_step_instr
execute_command fuel env Command.step_line args = execute_step_line fuel
