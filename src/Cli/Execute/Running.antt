-- ===== src/Cli/Execute/Running.antt =====
-- The commands of host/cli.py that let the target run, together with the server commands of host/server.py that
-- they use.
use cwdbg.Base.{
  ℕ, ◌+◌, ◌≡◌, ap, true, false, List, ◌∷◌, ◌++◌, Option, none, some, Bytes, Outcome, ok, raise,
  pure, server_command_error, handled, proceed,
}
use cwdbg.Target.{TargetInfo, from_buffer}
use cwdbg.Target.States.{is_error_code}
use cwdbg.Server.{is_msg_type, is_reply, msg_ack, msg_nack, msg_target_stopped}
use cwdbg.Server.Commands.{ServerCommand, Exchange, execute, waits_for_stop}
use cwdbg.Server.Commands.Replies.{Comes, connection, exchange, with_command, execute-nack}
use cwdbg.Server.Commands.Stops.{acked_after, execute-stopped}
use cwdbg.Debugger.{Debugger, executed, run_server_command, keep_target_info}
use cwdbg.Cli.{Reply, failed, run_target, or_failed, on_failure}
use cwdbg.Cli.Execute.{execute_running}

-- The debugger with a connection whose next reply has a certain number.
abbrev pub on_line : Debugger → ℕ → List Bytes → List Bytes → Debugger
on_line dbg n incoming sent = record dbg { server_conn = connection n incoming sent }

-- What becomes of the outcome of the server command.
after : Bytes → Debugger → Outcome (Unit {0}) × Exchange → Outcome (Option Reply) × Debugger
unfolding executed keep_target_info
after prefix dbg r =
    let e = executed dbg r in
    let t = proceed e.0 keep_target_info e.1 in
    handled (on_failure prefix) (proceed t.0 (λ _. pure none) t.1)

execute_running-ok :
    (prefix : Bytes) (command : ServerCommand) (dbg : Debugger) (x : Exchange)
    → execute (exchange command dbg.server_conn) ≡ (ok tt, x)
    → execute_running prefix command dbg
      ≡ (ok none, record dbg { server_conn = x.conn; target_info = x.command.target_info })
unfolding execute_running run_target run_server_command executed keep_target_info or_failed after
execute_running-ok prefix command dbg x h =
    ap (after prefix dbg) {x = execute (exchange command dbg.server_conn)} {y = (ok tt, x)} h

execute_running-raise :
    (prefix : Bytes) (command : ServerCommand) (dbg : Debugger) (x : Exchange)
    → execute (exchange command dbg.server_conn) ≡ (raise server_command_error, x)
    → execute_running prefix command dbg
      ≡ (ok (some (failed prefix server_command_error)), record dbg { server_conn = x.conn })
unfolding execute_running run_target run_server_command executed keep_target_info or_failed after
execute_running-raise prefix command dbg x h =
    ap (after prefix dbg) {x = execute (exchange command dbg.server_conn)}
      {y = (raise server_command_error, x)} h

module _ (prefix : Bytes) (command : ServerCommand) (dbg : Debugger) (n : ℕ) (bytes extra : Bytes)
    (chunks rest sent : List Bytes) (known : is_msg_type command.msg_type ≡ true)
    (plain : is_reply command.msg_type ≡ false) where
  -- A server command that lets the target run is acknowledged, and the stop of the target is reported.
  pub execute_running-stopped :
      (m : ℕ) (stopped extra' : Bytes) (chunks' : List Bytes) (info : TargetInfo)
      → waits_for_stop command.msg_type ≡ true
      → Comes msg_ack n bytes extra chunks
      → Comes msg_target_stopped m stopped extra' chunks'
      → from_buffer stopped ≡ ok info
      → execute_running prefix command (on_line dbg n (chunks ++ (chunks' ++ rest)) sent) ≡ (
        ok none,
        record (on_line dbg (n + 1 + 1) rest (
            acked_after (n + 1) rest (with_command command n (chunks ++ (chunks' ++ rest)) sent))) {
              target_info = some info;
            },
      )
  execute_running-stopped m stopped extra' chunks' info runs acked stops read =
      execute_running-ok prefix command (on_line dbg n (chunks ++ (chunks' ++ rest)) sent)
        (exchange
          (record command { error_code = some 0; bytes = some bytes; target_info = some info })
          (connection (n + 1 + 1) rest
            (acked_after (n + 1) rest (with_command command n (chunks ++ (chunks' ++ rest)) sent))))
        (execute-stopped command n bytes extra chunks sent known plain runs acked m stopped extra'
          chunks' rest info stops read)

  -- When the server refuses such a command with a known error code, the user gets the message that it failed, and
  -- the debugger keeps what it knew of the target; the connection can be used further.
  pub execute_running-refused :
      (code : ℕ)
      → is_error_code code ≡ true
      → Comes msg_nack n (code ∷ bytes) extra chunks
      → execute_running prefix command (on_line dbg n (chunks ++ rest) sent) ≡ (
        ok (some (failed prefix server_command_error)),
        on_line dbg (n + 1) rest (with_command command n (chunks ++ rest) sent),
      )
  execute_running-refused code good refusal =
      execute_running-raise prefix command (on_line dbg n (chunks ++ rest) sent)
        (exchange (record command { error_code = some code })
          (connection (n + 1) rest (with_command command n (chunks ++ rest) sent)))
        (execute-nack command n bytes extra chunks rest sent known plain code good refusal)
