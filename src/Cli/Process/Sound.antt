-- ===== src/Cli/Process/Sound.antt =====
-- A command line of host/cli.py in a session with a sound connection and a well-formed state of the target.
use cwdbg.Base.{ℕ, Bytes, Keeps}
use cwdbg.Cli.Sound.{IsSoundDebugger, exchange-Keeps, run_target-Keeps}
use cwdbg.Cli.{Environment}
use cwdbg.Cli.Execute.Looking.{execute_command-Keeps}
use cwdbg.Cli.Process.{Session, store_args, on_dbg, process_command}
use cwdbg.Cli.Process.Kept.{process_command-Keeps}

abbrev pub IsSoundSession : Session → Type 0
IsSoundSession s = IsSoundDebugger s.dbg

pub process_command_sound :
    (fuel : ℕ) (env : Environment) (cmd_line : Bytes)
    → Keeps IsSoundSession (process_command fuel env cmd_line)
unfolding store_args on_dbg
process_command_sound fuel env cmd_line =
    process_command-Keeps IsSoundSession (λ args. record { kept = λ s h. h }) fuel env
      (λ command args. record {
        kept = λ s h.
            (execute_command-Keeps IsSoundDebugger exchange-Keeps fuel env args run_target-Keeps
                command).kept
              s.dbg h;
      })
      cmd_line
