-- ===== src/Debugger.antt =====
-- The global object `dbg` of host/debugger.py, through which the commands, the views and the entry point
-- share the program, the connection and the state of the target. The command line interface that it holds
-- too is a component of its own here.
pub mod Current
pub mod Location
pub mod Status
pub mod Frames
pub mod Arguments
pub mod Disassembly
pub mod Source
pub mod Kept
use Prim.Native.Nat.{bit_and}
use cwdbg.Base.{
  ℕ, Bool, not, Option, none, some, Bytes, text, List, [], ◌∷◌, ◌==◌, Dict, Outcome, ok, raise,
  no_return, Exec, get, lift, modify, required, attribute_error, ◌>>=◌,
}
use cwdbg.Stabs.Program.{ProgramWithDebugInfo}
use cwdbg.Server.{ServerConnection}
use cwdbg.Server.Commands.{ServerCommand, Exchange, execute}
use cwdbg.Target.{TargetInfo}
use cwdbg.Target.States.{ts_running}
use cwdbg.Target.Syscalls.{SyscallDb}

pub record Debugger : Type 0 where
  pub program : Option ProgramWithDebugInfo
  pub server_conn : ServerConnection
  pub syscall_db : SyscallDb
  pub lib_base_addresses : Dict ℕ Bytes
  pub target_info : Option TargetInfo

abbrev pub on_server_conn : {A : Type 0} → Exec ServerConnection A → Exec Debugger A
on_server_conn m dbg = let r = m dbg.server_conn in (r.0, record dbg { server_conn = r.1 })

-- `state & flag` as a condition.
unfoldable pub has_flag : ℕ → ℕ → Bool
has_flag state flag = not (bit_and state flag == 0)

unfoldable pub is_running : TargetInfo → Bool
unfolding has_flag
is_running info = has_flag info.target_state ts_running

-- An attribute of `dbg.target_info` or `dbg.program` is used: None raises.
unfoldable pub current_target : Exec Debugger TargetInfo
current_target dbg = (required attribute_error dbg.target_info, dbg)

unfoldable pub current_program : Exec Debugger ProgramWithDebugInfo
current_program dbg = (required attribute_error dbg.program, dbg)

unfoldable pub executed :
    Debugger → Outcome (Unit {0}) × Exchange → Outcome ServerCommand × Debugger
executed dbg (ok _, x) = (ok x.command, record dbg { server_conn = x.conn })
executed dbg (raise e, x) = (raise e, record dbg { server_conn = x.conn })
executed dbg (no_return, x) = (no_return, record dbg { server_conn = x.conn })

-- `cmd.execute(dbg.server_conn)`, where building the command may raise.
unfoldable pub run_server_command : Outcome ServerCommand → Exec Debugger ServerCommand
unfolding executed execute
run_server_command (ok command) dbg =
    executed dbg (execute (record { command = command; conn = dbg.server_conn }))
run_server_command (raise e) dbg = (raise e, dbg)
run_server_command no_return dbg = (no_return, dbg)

-- `dbg.target_info = cmd.target_info`
unfoldable pub keep_target_info : ServerCommand → Exec Debugger (Unit {0})
keep_target_info command dbg = (ok tt, record dbg { target_info = command.target_info })

abbrev pub not_available : List Bytes
not_available = text "*** NOT AVAILABLE ***\n" ∷ []
