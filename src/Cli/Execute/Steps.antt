-- ===== src/Cli/Execute/Steps.antt =====
-- `step` of host/cli.py against a server that answers every instruction, up to the end of the line.
use cwdbg.Base.{
  ℕ, suc, ◌+◌, ◌*◌, ◌≡◌, Bool, true, false, ◌==◌, List, ◌∷◌, ◌++◌, Option, some, Bytes, Outcome, ok,
  proceed,
}
use cwdbg.Stabs.Program.{ProgramWithDebugInfo}
use cwdbg.Server.{msg_ack, msg_target_stopped}
use cwdbg.Server.Commands.{Exchange, srv_single_step}
use cwdbg.Server.Commands.Replies.{Comes, with_command}
use cwdbg.Server.Commands.Stops.{acked_after}
use cwdbg.Target.{TargetInfo, from_buffer}
use cwdbg.Debugger.{Debugger, executed, keep_target_info}
use cwdbg.Cli.Stepping.{line_range}
use cwdbg.Cli.Stepping.Runs.{IsWithin, IsOutside}
use cwdbg.Cli.Execute.Running.{on_line}

-- What the target says it is when it stops, and the state of the debugger then.
abbrev pub stopped_at : Debugger → ℕ → List Bytes → List Bytes → TargetInfo → Debugger
stopped_at dbg n incoming sent info = record (on_line dbg n incoming sent) {
  target_info = some info;
}

-- The next instruction is an RTS, which has the code 0x4e75.
abbrev pub Returns : Bool → TargetInfo → Type 0
Returns returns info =
    (a : ℕ) × (b : ℕ) × (more : Bytes) × (info.next_instr_bytes ≡ a ∷ b ∷ more)
    × ((a * 256 + b == 0x4e75) ≡ returns)

-- The server acknowledges a step and reports the stop: what it sends, the number before it, and the new target.
pub record Stop (n : ℕ) (info : TargetInfo) (chunks chunks' : List Bytes) : Type 0 where
  pub bytes : Bytes
  pub extra : Bytes
  pub acked : Comes msg_ack n bytes extra chunks
  pub number : ℕ
  pub stopped : Bytes
  pub extra' : Bytes
  pub reported : Comes msg_target_stopped number stopped extra' chunks'
  pub read : from_buffer stopped ≡ ok info

-- The way of the target through its program: the number of instructions, the number of the connection, the range of the
-- line and the target in front of them, what comes in, and the number and the target behind them.
pub data Way (program : Option ProgramWithDebugInfo)
    : ℕ → ℕ → ℕ × ℕ → TargetInfo → List Bytes → ℕ → TargetInfo → List Bytes → Type 0 where
  arrived :
      {n : ℕ} {range : ℕ × ℕ} {info : TargetInfo} {rest : List Bytes}
      → IsOutside range info
      → Way program 0 n range info rest n info rest
  stepped :
      {k n n' : ℕ} {range : ℕ × ℕ} {info next last : TargetInfo}
      {chunks chunks' incoming rest : List Bytes}
      → IsWithin range info
      → Returns false info
      → Stop n next chunks chunks'
      → Way program k (n + 1 + 1) range next incoming n' last rest
      → Way program (suc k) n range info (chunks ++ (chunks' ++ incoming)) n' last rest
  returned :
      {k n n' : ℕ} {range range' : ℕ × ℕ} {info next last : TargetInfo}
      {chunks chunks' incoming rest : List Bytes}
      → IsWithin range info
      → Returns true info
      → Stop n next chunks chunks'
      → line_range program (some next) ≡ ok range'
      → Way program k (n + 1 + 1) range' next incoming n' last rest
      → Way program (suc k) n range info (chunks ++ (chunks' ++ incoming)) n' last rest

after_step : Debugger → Outcome (Unit {0}) × Exchange → Outcome (Unit {0}) × Debugger
unfolding executed keep_target_info
after_step dbg r = let e = executed dbg r in proceed e.0 keep_target_info e.1

sent_after : ℕ → List Bytes → List Bytes → List Bytes → List Bytes → List Bytes
sent_after n chunks chunks' incoming sent =
    acked_after (n + 1) incoming
      (with_command srv_single_step n (chunks ++ (chunks' ++ incoming)) sent)
