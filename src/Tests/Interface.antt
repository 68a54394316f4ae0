-- ===== src/Tests/Interface.antt =====
-- The commands of host/cli.py.
use cwdbg.Base.{
  ℕ, ◌+◌, ◌<◌, ◌≡◌, ◌⊎◌, insert, Outcome, refl, Bool, false, List, [], ◌∷◌, ◌++◌, Option, none,
  some, Bytes, text, concat, arith, be32, lookup, text_key, nat_key, eq_text, pos, ok, raise, Exec,
  struct_error, runtime_error, quit_debugger, system_exit, hexadecimal,
}
use cwdbg.Stabs.Types.{n_so}
use cwdbg.Stabs.Nodes.{node, nil, cons}
use cwdbg.Stabs.Program.{ProgramWithDebugInfo, get_comp_unit_for_addr, get_lineno_for_addr}
use cwdbg.Slip.{find, encode, decode}
use cwdbg.Server.{msg_ack, send_message, recv_message, recv_buffer, parse_message, accept}
use cwdbg.Target.{TargetInfo}
use cwdbg.Debugger.{Debugger}
use cwdbg.Debugger.Frames.{get_call_stack_view, or_not_available}
use cwdbg.Debugger.Location.{lineno_at}
use cwdbg.Cli.{Namespace, Environment, Reply, message}
use cwdbg.Cli.Commands.{
  Command, cli_class, command_name, command_aliases, add_unless, add_name, add_names, add_commands,
}
use cwdbg.Cli.Memory.{dump_rows}
use cwdbg.Cli.Memory.Rows.{IsRows, dump_of, dump_rows-IsRows}
use cwdbg.Cli.Stepping.{line_range, execute_current_line}
use cwdbg.Cli.Stepping.Runs.{Rounds, IsOutside, execute_current_line-left}
use cwdbg.Cli.Locations.{execute_set_breakpoint}
use cwdbg.Cli.Locations.Numbers.{breakpoint_at, execute_set_breakpoint-offset}
use cwdbg.Cli.Execute.Running.{on_line}
use cwdbg.Server.Commands.Replies.{with_command}
use cwdbg.Cli.Execute.{execute_backtrace}
use cwdbg.Cli.Execute.Backtrace.{execute_backtrace-view}
use cwdbg.Cli.Process.{Cli, new_cli, Session, with_none, process_command}
use cwdbg.Cli.Process.Guards.{process_command-refused, process_command-raises}
use cwdbg.Tests.Commands.{line_of, run_ack-Comes}

-- A target that runs and has stopped at an address.
abbrev pub target_at : ℕ → TargetInfo
target_at pc = record {
  initial_pc = 0x1000;
  initial_sp = 0;
  task_context = record {
    reg_sp = 0;
    exc_num = 0;
    reg_sr = 0;
    reg_pc = pc;
    reg_d = [];
    reg_a = 0 ∷ 0 ∷ 0 ∷ 0 ∷ 0 ∷ 16 ∷ 0 ∷ [];
  };
  target_state = 65;
  exit_code = 0;
  error_code = 0;
  next_instr_bytes = 0x4e ∷ 0x71 ∷ [];
  top_stack_dwords = [];
  bpoint = record { num = 0; address = 0; opcode = 0; hit_count = 0 };
}

-- One unit whose line 7 has the first four bytes.
abbrev pub small_program : ProgramWithDebugInfo
small_program = record {
  program_tree =
      node (record { type = 0; name = []; typeid = []; start_addr = 0; end_addr = 0; lineno = 0 })
        (cons
          (node
            (record {
              type = n_so;
              name = text "u";
              typeid = [];
              start_addr = 0;
              end_addr = 0;
              lineno = 0;
            })
            nil)
          nil);
  addresses_by_lineno = (text "u", (7, (0, 4)) ∷ []) ∷ [];
}

abbrev pub debugger_at : Option TargetInfo → Debugger
debugger_at target = record {
  program = some small_program;
  server_conn = record {
    next_seqnum = 3;
    incoming = line_of msg_ack 3 (be32 0xffffffff ++ be32 0x1004);
    sent = [];
  };
  syscall_db = [];
  lib_base_addresses = [];
  target_info = target;
}

abbrev pub args_of : Bytes → Namespace
args_of name = record {
  command = some name;
  number = pos 0;
  address = pos 0;
  ninstr = pos 0;
  size = pos 0;
  format = [];
  what = [];
  location = [];
}

-- Every line is the name of a command without arguments.
abbrev pub simple_environment : Environment
simple_environment = record {
  disasm = λ bytes address count. [];
  is_darwin = false;
  read_lines = λ fname. none;
  calcsize = λ format. raise struct_error;
  unpack = λ format bytes. raise struct_error;
  parse_args = λ cmd_line. ok (args_of cmd_line);
  format_help = text "help";
}

abbrev pub session_with : Option TargetInfo → Session
session_with target = record {
  cli = record {
    commands_by_name = (text "step", Command.step_line) ∷ (text "quit", Command.quit) ∷ [];
    stored_args = none;
  };
  dbg = debugger_at target;
}

-- The table that the program makes.
abbrev made : Outcome Cli → Cli
made (ok cli) = cli
made _ = (session_with none).cli

abbrev new_session : Session
new_session = record (session_with none) { cli = made new_cli }

process_command-refused_example : process_command 9 simple_environment (text "si") new_session ≡ (
  ok (with_none (message (text "Incorrect state for command 'stepi': target is not yet running"))),
  record new_session { cli = record new_session.cli { stored_args = some (args_of (text "si")) } },
)
unfolding new_cli add_commands add_names add_name add_unless command_name command_aliases cli_class
    insert lookup eq_text
process_command-refused_example =
    process_command-refused 9 simple_environment b's' (text "i") new_session (args_of (text "si"))
      (made new_cli) (text "si") false
      (text "Incorrect state for command 'stepi': target is not yet running") refl refl refl refl
      refl tt

process_command-raises_example :
    (runtime_error ≡ quit_debugger)
    ⊎ (runtime_error ≡ system_exit)
    ⊎ (runtime_error ≡ runtime_error)
unfolding process_command
process_command-raises_example =
    process_command-raises 9 simple_environment (text "fly") (session_with none)
      (record (session_with none) {
        cli = record (session_with none).cli { stored_args = some (args_of (text "fly")) };
      })
      runtime_error refl

-- Two bytes of the program are executed without a message.
abbrev advance : TargetInfo → Exec Debugger Bool
advance info dbg =
    (ok false, record dbg { target_info = some (target_at (info.task_context.reg_pc + 2)) })

abbrev at : ℕ → Debugger
at pc = debugger_at (some (target_at pc))

execute_current_line-left_example :
    (first : ℕ × ℕ) × (n : ℕ) × (last : ℕ × ℕ) × (info : TargetInfo) × (line_range
        (some small_program)
        (some (target_at 0x1000))
      ≡ ok first)
    × Rounds advance n first (at 0x1000) last (at 0x1004)
    × (n < 3)
    × (some (target_at 0x1004) ≡ some info)
    × IsOutside last info
unfolding execute_current_line eq_text get_comp_unit_for_addr get_lineno_for_addr
execute_current_line-left_example = execute_current_line-left advance 3 (at 0x1000) (at 0x1004) refl

execute_backtrace-view_example :
    (lines : List Bytes) × (◌≡◌ {A = Option Reply}
      (some (message (text "Frame #0: 0x00001000 u:7\n")))
      (some (message (concat lines))))
    × (get_call_stack_view 3 (at 0x1000)
        ≡ (ok (or_not_available lines), (execute_backtrace 3 (at 0x1000)).1))
unfolding execute_backtrace send_message recv_message recv_buffer find encode parse_message decode
    accept get_comp_unit_for_addr lineno_at get_lineno_for_addr eq_text
execute_backtrace-view_example =
    execute_backtrace-view 3 (at 0x1000) (execute_backtrace 3 (at 0x1000)).1
      (some (message (text "Frame #0: 0x00001000 u:7\n"))) refl

abbrev empty_ack : List Bytes
empty_ack = line_of msg_ack 3 []

execute_set_breakpoint-offset_example :
    execute_set_breakpoint
      (record (args_of (text "break")) { location = text "0x1ac" })
      (on_line (at 0x1000) 3 (empty_ack ++ []) [])
    ≡ (
      ok (some (message (text "Breakpoint set"))),
      on_line (at 0x1000) 4 [] (with_command (breakpoint_at 0x1ac) 3 (empty_ack ++ []) []),
    )
unfolding hexadecimal
execute_set_breakpoint-offset_example =
    execute_set_breakpoint-offset 0x1ac 3
      (record (args_of (text "break")) { location = text "0x1ac" }) (at 0x1000) [] [] empty_ack []
      [] (omega arith) refl run_ack-Comes

abbrev block : Bytes
block = text "0123456789abcdefXYZ"

dump_rows-IsRows_example :
    (rows : List Bytes) × IsRows rows
    × (concat rows ≡ block)
    × (dump_rows 20 0x1000 0 block ≡ ok (dump_of 0x1000 rows))
dump_rows-IsRows_example = dump_rows-IsRows 0x1000 block
