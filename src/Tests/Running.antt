-- ===== src/Tests/Running.antt =====
-- The target, run from the command line of host/cli.py, and the arguments of its system calls.
use cwdbg.Base.{server_command_error, ◌≡◌, refl, [], ◌∷◌, ◌++◌, none, some, Bytes, text, arith, ok}
use cwdbg.Target.{TargetInfo, from_buffer}
use cwdbg.Server.{msg_ack, msg_nack, msg_target_stopped}
use cwdbg.Server.Framing.{message_bytes, Brings-frame}
use cwdbg.Server.Commands.{new_command}
use cwdbg.Server.Commands.Replies.{Comes, server_message, connection, with_command}
use cwdbg.Server.Commands.Stops.{acked_after}
use cwdbg.Target.Syscalls.{SyscallArg}
use cwdbg.Debugger.Arguments.{register_value, contains, get_syscall_arg_values}
use cwdbg.Debugger.Arguments.Strings.{peek_string, get_syscall_arg_values-string}
use cwdbg.Target.States.{is_error_code}
use cwdbg.Target.Layout.{IsTargetInfo}
use cwdbg.Target.RoundTrip.{target_info_bytes, from_buffer-bytes}
use cwdbg.Cli.{failed}
use cwdbg.Cli.Commands.{Command}
use cwdbg.Cli.Execute.{execute_command}
use cwdbg.Cli.Execute.Running.{on_line}
use cwdbg.Cli.Execute.Messages.{
  run_sends, kill_sends, execute_command-stopped, execute_command-refused,
}
use cwdbg.Tests.Commands.{line_of, state_bytes, idle, run_line, run_ack-Comes, stop-Comes}
use cwdbg.Tests.Interface.{debugger_at, target_at, simple_environment, args_of}

execute_command-stopped_example :
    execute_command 9 simple_environment Command.kill
      (args_of (text "kill"))
      (on_line (debugger_at none) 3 run_line [])
    ≡ (
      ok none,
      record (on_line
          (debugger_at none)
          5
          []
          (acked_after 4 [] (with_command (new_command 7 none) 3 run_line []))) {
            target_info = some idle;
          },
    )
unfolding from_buffer
execute_command-stopped_example =
    execute_command-stopped 9 simple_environment (args_of (text "kill")) (debugger_at none) 3 [] []
      (line_of msg_ack 3 []) [] [] Command.kill 7 (text "Killing target failed: ") 9 state_bytes []
      (line_of msg_target_stopped 9 state_bytes) idle kill_sends run_ack-Comes stop-Comes refl

refusal : Comes msg_nack 3 (4 ∷ []) [] (line_of msg_nack 3 (4 ∷ []))
refusal = record {
  checksum = 0xdead;
  checksum_fits = omega arith;
  number_fits = omega arith;
  data_fits = omega arith;
  brings = Brings-frame (message_bytes (server_message msg_nack 3 0xdead (4 ∷ [])) (4 ∷ []));
}

execute_command-refused_example :
    execute_command 9 simple_environment Command.run
      (args_of (text "run"))
      (on_line (debugger_at none) 3 (line_of msg_nack 3 (4 ∷ []) ++ []) [])
    ≡ (
      ok (some (failed (text "Running target failed: ") server_command_error)),
      on_line
          (debugger_at none)
          4
          []
          (with_command (new_command 3 none) 3 (line_of msg_nack 3 (4 ∷ []) ++ []) []),
    )
unfolding is_error_code
execute_command-refused_example =
    execute_command-refused 9 simple_environment (args_of (text "run")) (debugger_at none) 3 [] []
      (line_of msg_nack 3 (4 ∷ [])) [] [] Command.run 3 (text "Running target failed: ") 4 run_sends
      refl refusal

-- The target behind the next line of the small program, and the report of its stop.
abbrev stepped_to : TargetInfo
stepped_to = record idle {
  initial_pc = 0x1000;
  task_context = record idle.task_context { reg_pc = 0x1004 };
  target_state = 71;
}

stepped_to-IsTargetInfo : IsTargetInfo stepped_to
stepped_to-IsTargetInfo = omega arith

abbrev report : Bytes
report = target_info_bytes stepped_to []

from_buffer-bytes_example : from_buffer (target_info_bytes stepped_to (7 ∷ [])) ≡ ok stepped_to
from_buffer-bytes_example = from_buffer-bytes stepped_to (7 ∷ []) stepped_to-IsTargetInfo

abbrev name_arg : SyscallArg
name_arg = record { decl = text "STRPTR name"; register = some 13 }

abbrev block : Bytes
block = text "abc" ++ 0 ∷ 7 ∷ []

block-Comes : Comes msg_ack 3 block [] (line_of msg_ack 3 block)
block-Comes = record {
  checksum = 0xdead;
  checksum_fits = omega arith;
  number_fits = omega arith;
  data_fits = omega arith;
  brings = Brings-frame (message_bytes (server_message msg_ack 3 0xdead block) block);
}

get_syscall_arg_values-string_example :
    get_syscall_arg_values
      (target_at 0)
      name_arg
      (record (debugger_at none) { server_conn = connection 3 (line_of msg_ack 3 block ++ []) [] })
    ≡ (
      ok (16, some (text "abc")),
      record (debugger_at none) {
        server_conn =
            connection 4 [] (with_command (peek_string 16) 3 (line_of msg_ack 3 block ++ []) []);
      },
    )
unfolding register_value contains
get_syscall_arg_values-string_example =
    get_syscall_arg_values-string (debugger_at none) 16 3 (text "abc") (7 ∷ []) []
      (line_of msg_ack 3 block) [] [] (omega arith)
      (
        (refl, refl, refl, omega arith),
        ((refl, refl, refl, omega arith), ((refl, refl, refl, omega arith), tt)),
      )
      (omega arith) block-Comes (target_at 0) name_arg 13 refl refl refl
