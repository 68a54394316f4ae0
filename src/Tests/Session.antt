-- ===== src/Tests/Session.antt =====
-- What the commands of host/cli.py leave alone in a session.
use cwdbg.Base.{◌≡◌, refl, [], ◌∷◌, none, some, text, arith, All, AllBytes, ok}
use cwdbg.Slip.{frame, encode, decode, find}
use cwdbg.Server.{
  ServerConnection, msg_ack, msg_init, header_bytes, send_message, recv_message, recv_buffer,
  parse_message, accept,
}
use cwdbg.Server.Framing.{next_bytes}
use cwdbg.Server.Sound.{IsLine}
use cwdbg.Cli.Process.{Session, process_command}
use cwdbg.Ui.Keys.{edited, enter, unhandled, new_screen, run_events}
use cwdbg.Ui.Sound.{IsSoundScreen, run_events_sound}
use cwdbg.Entry.Main.{no_tui, main}
use cwdbg.Entry.Sound.{main-sent}
use cwdbg.Tests.Commands.{line_of}
use cwdbg.Debugger.{Debugger}
use cwdbg.Cli.Commands.{Command}
use cwdbg.Cli.Execute.{execute_command}
use cwdbg.Cli.Execute.Looking.{IsLooking, execute_command-looking}
use cwdbg.Cli.Process.Kept.{process_command-tables}
use cwdbg.Tests.Interface.{simple_environment, session_with, debugger_at, target_at, args_of}

abbrev stopped : Debugger
stopped = debugger_at (some (target_at 0x1000))

execute_command-looking_example :
    let after =
      (execute_command 3 simple_environment Command.backtrace
        (args_of (text "backtrace"))
        stopped).1 in
    after ≡ record stopped { server_conn = after.server_conn }
unfolding IsLooking
execute_command-looking_example =
    execute_command-looking 3 simple_environment Command.backtrace (args_of (text "backtrace"))
      stopped tt

process_command-tables_example :
    let before = session_with (some (target_at 0x1000)) in
    let after = (process_command 3 simple_environment (text "step") before).1 in
    (after.dbg.program ≡ before.dbg.program)
    × (after.dbg.syscall_db ≡ before.dbg.syscall_db)
    × (after.dbg.lib_base_addresses ≡ before.dbg.lib_base_addresses)
    × (after.cli.commands_by_name ≡ before.cli.commands_by_name)
process_command-tables_example =
    process_command-tables 3 simple_environment (text "step")
      (session_with (some (target_at 0x1000)))

-- A connection on which nothing has happened yet.
abbrev quiet : Session
quiet = record (session_with none) {
  dbg = record (session_with none).dbg {
    server_conn = record { next_seqnum = 0; incoming = line_of msg_ack 0 []; sent = [] };
  };
}

ack_bytes : All AllBytes (line_of msg_ack 0 [])
unfolding encode header_bytes
ack_bytes = (omega arith, tt)

run_events_sound_example :
    IsSoundScreen
      (run_events 3 simple_environment
        (unhandled (text "f11") ∷ edited (text "quit") ∷ enter ∷ [])
        (new_screen quiet)).1
unfolding new_screen
run_events_sound_example =
    run_events_sound 3 simple_environment
      (unhandled (text "f11") ∷ edited (text "quit") ∷ enter ∷ []) (new_screen quiet)
      ((record { sent_lines = tt; incoming_bytes = ack_bytes }, tt), omega arith)

-- The server answers MSG_INIT, and no line is typed.
abbrev after_init : ServerConnection
after_init = record {
  next_seqnum = 1;
  incoming = [];
  sent =
      frame (next_bytes (record { next_seqnum = 0; incoming = []; sent = [] }) msg_init none) ∷ [];
}

main-sent_example : All IsLine after_init.sent
unfolding main encode send_message recv_message recv_buffer find parse_message decode accept
main-sent_example =
    main-sent 3 simple_environment none [] (line_of msg_ack 0 []) (no_tui []) (ok tt) after_init tt
      ack_bytes refl
