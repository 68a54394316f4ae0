-- ===== src/Cli/Execute/Messages.antt =====
-- What the commands of host/cli.py that let the target run send to the server of host/server.py, and what becomes of
-- its answers.
use cwdbg.Base.{
  ℕ, ◌+◌, ◌≡◌, refl, true, List, ◌++◌, ◌∷◌, none, some, Bytes, text, ok, server_command_error,
}
use cwdbg.Target.{TargetInfo, from_buffer}
use cwdbg.Target.States.{is_error_code}
use cwdbg.Server.{is_msg_type, is_reply, msg_ack, msg_nack, msg_target_stopped}
use cwdbg.Server.Commands.{new_command, waits_for_stop}
use cwdbg.Server.Commands.Replies.{Comes, with_command}
use cwdbg.Server.Commands.Stops.{acked_after}
use cwdbg.Debugger.{Debugger}
use cwdbg.Cli.{Namespace, Environment, failed}
use cwdbg.Cli.Commands.{Command}
use cwdbg.Cli.Execute.{
  execute_command, execute_continue, execute_kill, execute_run, execute_step_instr,
}
use cwdbg.Cli.Execute.Running.{on_line, execute_running-stopped, execute_running-refused}

-- The type of the message that a command sends, and the text in front of the server's error.
pub data Sends : Command → ℕ → Bytes → Type 0 where
  run_sends : Sends Command.run 3 (text "Running target failed: ")
  continue_sends : Sends Command.continue 5 (text "Continuing target failed: ")
  step_instr_sends : Sends Command.step_instr 6 (text "Stepping one instruction failed: ")
  kill_sends : Sends Command.kill 7 (text "Killing target failed: ")

module _ (fuel : ℕ) (env : Environment) (args : Namespace) (dbg : Debugger) (n : ℕ)
    (bytes extra : Bytes) (chunks rest sent : List Bytes) where
  -- `run`, `continue`, `stepi` and `kill` send a message of the types 3, 5, 6 and 7 without data. When the server
  -- acknowledges it and then reports the stop of the target, in chunks of their own, nothing is printed, an ACK is sent
  -- too, the debugger holds the new state of the target, and the number of the connection is two higher.
  pub execute_command-stopped :
      (command : Command) (t : ℕ) (prefix : Bytes) (m : ℕ) (stopped extra' : Bytes)
      (chunks' : List Bytes) (info : TargetInfo)
      → Sends command t prefix
      → Comes msg_ack n bytes extra chunks
      → Comes msg_target_stopped m stopped extra' chunks'
      → from_buffer stopped ≡ ok info
      → execute_command fuel env command args (on_line dbg n (chunks ++ (chunks' ++ rest)) sent) ≡ (
        ok none,
        record (on_line dbg (n + 1 + 1) rest (
            acked_after
              (n + 1)
              rest
              (with_command (new_command t none) n (chunks ++ (chunks' ++ rest)) sent))) {
                target_info = some info;
              },
      )
  unfolding execute_command execute_run execute_continue execute_step_instr execute_kill is_msg_type
      is_reply waits_for_stop
  execute_command-stopped _ _ prefix m stopped extra' chunks' info run_sends acked stops read =
      execute_running-stopped prefix (new_command 3 none) dbg n bytes extra chunks rest sent refl
        refl m stopped extra' chunks' info refl acked stops read
  execute_command-stopped _ _ prefix m stopped extra' chunks' info continue_sends acked stops read =
      execute_running-stopped prefix (new_command 5 none) dbg n bytes extra chunks rest sent refl
        refl m stopped extra' chunks' info refl acked stops read
  execute_command-stopped _ _ prefix m stopped extra' chunks' info step_instr_sends acked stops
        read =
      execute_running-stopped prefix (new_command 6 none) dbg n bytes extra chunks rest sent refl
        refl m stopped extra' chunks' info refl acked stops read
  execute_command-stopped _ _ prefix m stopped extra' chunks' info kill_sends acked stops read =
      execute_running-stopped prefix (new_command 7 none) dbg n bytes extra chunks rest sent refl
        refl m stopped extra' chunks' info refl acked stops read

  -- When the server refuses the message of `run`, `continue`, `stepi` or `kill` with a known error code, the user gets the
  -- text that belongs to the command and the exception, the debugger keeps what it knew of the target and does not wait
  -- for a stop, and the number of the connection is one higher.
  pub execute_command-refused :
      (command : Command) (t : ℕ) (prefix : Bytes) (code : ℕ)
      → Sends command t prefix
      → is_error_code code ≡ true
      → Comes msg_nack n (code ∷ bytes) extra chunks
      → execute_command fuel env command args (on_line dbg n (chunks ++ rest) sent) ≡ (
        ok (some (failed prefix server_command_error)),
        on_line dbg (n + 1) rest (with_command (new_command t none) n (chunks ++ rest) sent),
      )
  unfolding execute_command execute_run execute_continue execute_step_instr execute_kill is_msg_type
      is_reply
  execute_command-refused _ _ prefix code run_sends good refusal =
      execute_running-refused prefix (new_command 3 none) dbg n bytes extra chunks rest sent refl
        refl code good refusal
  execute_command-refused _ _ prefix code continue_sends good refusal =
      execute_running-refused prefix (new_command 5 none) dbg n bytes extra chunks rest sent refl
        refl code good refusal
  execute_command-refused _ _ prefix code step_instr_sends good refusal =
      execute_running-refused prefix (new_command 6 none) dbg n bytes extra chunks rest sent refl
        refl code good refusal
  execute_command-refused _ _ prefix code kill_sends good refusal =
      execute_running-refused prefix (new_command 7 none) dbg n bytes extra chunks rest sent refl
        refl code good refusal
