-- ===== src/Cli/Commands.antt =====
-- The table of the commands of host/cli.py: their names, the state of the target that they need, and the
-- dictionary that `Cli.__init__` makes of them.
pub mod Classes
pub mod States
pub mod Names
use cwdbg.Base.{
  Bool, true, false, not, List, [], ◌∷◌, ◌++◌, Option, none, some, Bytes, text, concat,
  if◌then◌else◌, Dict, lookup, insert, text_key, Outcome, ok, raise, chain, value_error,
}
use cwdbg.Target.{TargetInfo}
use cwdbg.Debugger.{is_running}
use cwdbg.Cli.Commands.Classes.{
  CliCommand, cli_backtrace, cli_clear_breakpoint, cli_continue, cli_disassemble, cli_examine,
  cli_hexdump, cli_inspect, cli_kill, cli_next_instr, cli_next_line, cli_quit, cli_run,
  cli_set_breakpoint, cli_step_instr, cli_step_line,
}
use cwdbg.Cli.Commands.States.{
  Need, Guard, accepts, no_guard, backtrace_guard, continue_guard, inspect_guard, kill_guard,
  next_instr_guard, next_line_guard, quit_guard, run_guard, step_instr_guard, step_line_guard,
}

pub data Command : Type 0 where
  backtrace clear_breakpoint continue disassemble examine hexdump inspect kill : Command
  next_instr next_line quit run set_breakpoint step_instr step_line : Command

unfoldable pub cli_class : Command → CliCommand
cli_class Command.backtrace = cli_backtrace
cli_class Command.clear_breakpoint = cli_clear_breakpoint
cli_class Command.continue = cli_continue
cli_class Command.disassemble = cli_disassemble
cli_class Command.examine = cli_examine
cli_class Command.hexdump = cli_hexdump
cli_class Command.inspect = cli_inspect
cli_class Command.kill = cli_kill
cli_class Command.next_instr = cli_next_instr
cli_class Command.next_line = cli_next_line
cli_class Command.quit = cli_quit
cli_class Command.run = cli_run
cli_class Command.set_breakpoint = cli_set_breakpoint
cli_class Command.step_instr = cli_step_instr
cli_class Command.step_line = cli_step_line

unfoldable pub command_name : Command → Bytes
unfolding cli_class
command_name command = (cli_class command).command

unfoldable pub command_aliases : Command → List Bytes
unfolding cli_class
command_aliases command = (cli_class command).aliases

abbrev pub cli_commands : List Command
cli_commands =
    Command.backtrace ∷ Command.clear_breakpoint ∷ Command.continue ∷ Command.disassemble
    ∷ Command.examine ∷ Command.inspect ∷ Command.hexdump ∷ Command.kill ∷ Command.next_instr
    ∷ Command.next_line ∷ Command.quit ∷ Command.run ∷ Command.set_breakpoint ∷ Command.step_instr
    ∷ Command.step_line ∷ []

unfoldable pub guard : Command → Guard
guard Command.backtrace = backtrace_guard
guard Command.continue = continue_guard
guard Command.inspect = inspect_guard
guard Command.kill = kill_guard
guard Command.next_instr = next_instr_guard
guard Command.next_line = next_line_guard
guard Command.quit = quit_guard
guard Command.run = run_guard
guard Command.step_instr = step_instr_guard
guard Command.step_line = step_line_guard
guard _ = no_guard

unfoldable pub needed_state : Command → Need
unfolding guard
needed_state command = (guard command).need

unfoldable pub state_error : Command → Bytes
unfolding guard
state_error command = (guard command).error

-- `dbg.target_info and dbg.target_info.target_state & TS_RUNNING`
unfoldable pub target_is_running : Option TargetInfo → Bool
unfolding is_running
target_is_running none = false
target_is_running (some info) = is_running info

-- The message is None where the state is right.
unfoldable pub is_correct_target_state_for_command : Command → Option TargetInfo → Option Bytes
unfolding needed_state target_is_running accepts state_error
is_correct_target_state_for_command command info =
    if accepts (needed_state command) (target_is_running info)
    then none
    else some (state_error command)

-- A name is entered, unless it is known.
unfoldable pub add_unless :
    Command → Bytes → Dict Bytes Command → Option Command → Outcome (Dict Bytes Command)
unfolding insert
add_unless command name table none = ok (insert name command table)
add_unless command name table (some known) = raise value_error

unfoldable pub add_name : Command → Bytes → Dict Bytes Command → Outcome (Dict Bytes Command)
unfolding lookup add_unless
add_name command name table = add_unless command name table (lookup name table)

unfoldable pub add_names : Command → List Bytes → Dict Bytes Command → Outcome (Dict Bytes Command)
unfolding add_name
add_names command [] table = ok table
add_names command (name ∷ names) table =
    chain (add_name command name table) (add_names command names)

-- The loop of `Cli.__init__` over the commands: the name, then the aliases.
unfoldable pub add_commands : List Command → Dict Bytes Command → Outcome (Dict Bytes Command)
unfolding add_names command_name command_aliases
add_commands [] table = ok table
add_commands (command ∷ commands) table =
    chain (add_names command (command_name command ∷ command_aliases command) table)
      (add_commands commands)
