-- ===== src/Cli/Sound.antt =====
-- The object `dbg` with a sound connection and a well-formed state of the target.
use cwdbg.Base.{Outcome, ok, raise, no_return, OfOk, Keeps, given-Keeps}
use cwdbg.Server.Sound.{IsSound}
use cwdbg.Server.Commands.{ServerCommand, Exchange, execute}
use cwdbg.Server.Commands.New.{IsNew, conn_after}
use cwdbg.Server.Commands.Sound.{IsKnown, execute-kept}
use cwdbg.Debugger.{Debugger, executed, run_server_command, keep_target_info}
use cwdbg.Cli.{run_target}

abbrev pub IsSoundDebugger : Debugger → Type 0
IsSoundDebugger dbg = IsSound dbg.server_conn × IsKnown dbg.target_info

pub exchange-Keeps :
    (command : ServerCommand)
    → IsNew command
    → Keeps IsSoundDebugger
        (λ dbg. (ok tt, record dbg { server_conn = conn_after command dbg.server_conn }))
exchange-Keeps command new = record {
  kept = λ dbg h. ((execute-kept command new dbg.server_conn h.0).0, h.1);
}

executed_sound :
    (dbg : Debugger) (r : Outcome (Unit {0}) × Exchange)
    → IsKnown dbg.target_info
    → IsSound r.1.conn × IsKnown r.1.command.target_info
    → IsSoundDebugger (executed dbg r).1
      × OfOk (λ (command : ServerCommand). IsKnown command.target_info) (executed dbg r).0
unfolding executed
executed_sound dbg (ok _, x) known h = ((h.0, known), h.1)
executed_sound dbg (raise e, x) known h = ((h.0, known), tt)
executed_sound dbg (no_return, x) known h = ((h.0, known), tt)

pub run_target-Keeps :
    (command : ServerCommand) → IsNew command → Keeps IsSoundDebugger (run_target command)
unfolding run_target run_server_command keep_target_info
run_target-Keeps command new =
    given-Keeps IsSoundDebugger {given = λ (command : ServerCommand). IsKnown command.target_info}
      (record {
        keeps = record { kept = λ dbg h. (after dbg h).0 };
        gives = λ dbg h. (after dbg h).1;
      })
      (λ command known. record { kept = λ dbg h. (h.0, known) })
  where
    after :
        (dbg : Debugger)
        → IsSoundDebugger dbg
        → IsSoundDebugger (run_server_command (ok command) dbg).1
          × OfOk
              (λ (command : ServerCommand). IsKnown command.target_info)
              (run_server_command (ok command) dbg).0
    after dbg h =
        executed_sound dbg (execute (record { command = command; conn = dbg.server_conn })) h.1
          (execute-kept command new dbg.server_conn h.0)
