-- ===== src/Entry/Main.antt =====
-- `main` of host/cwdbg.py behind the parsing of its arguments.
use cwdbg.Base.{
  ℕ, List, [], Option, none, some, Bytes, Dict, Outcome, ok, raise, no_return, Exec, system_exit,
}
use cwdbg.Hunk.{File}
use cwdbg.Server.{ServerConnection}
use cwdbg.Target.Syscalls.{SyscallInfo}
use cwdbg.Cli.{Environment}
use cwdbg.Cli.Process.{Session}
use cwdbg.Ui.Keys.{Event, main_screen}
use cwdbg.Entry.{command_loop, init_debugger}

-- What the user does: lines without the terminal interface, keys with it.
pub data Input : Type 0 where
  no_tui : List Bytes → Input
  tui : List Event → Input

unfoldable pub interface : ℕ → Environment → Input → Exec Session (Unit {0})
unfolding command_loop main_screen
interface fuel env (no_tui cmd_lines) session =
    let r = command_loop fuel env cmd_lines (record { session = session; printed = [] }) in
    (r.0, r.1.session)
interface fuel env (tui events) session = main_screen fuel env events session

-- `except Exception as e: logger.exception(…)`; SystemExit is no `Exception`.
unfoldable pub logged : Outcome (Unit {0}) → Outcome (Unit {0})
logged (ok _) = ok tt
logged (raise system_exit) = raise system_exit
logged (raise e) = ok tt
logged no_return = no_return

-- `finally`: the connection, if there is one, is closed.
unfoldable pub closed : Outcome (Unit {0}) → Option ServerConnection → Option ServerConnection
closed no_return conn = none
closed _ conn = conn

-- The body of the `try`, with the connection that it leaves in `dbg`.
unfoldable pub started :
    ℕ
    → Environment
    → Input
    → Outcome Session × Option ServerConnection
    → Outcome (Unit {0}) × Option ServerConnection
unfolding interface
started fuel env input (ok session, conn) =
    let r = interface fuel env input session in (r.0, some r.1.dbg.server_conn)
started fuel env input (raise e, conn) = (raise e, conn)
started fuel env input (no_return, conn) = (no_return, conn)

-- What `main` comes to, and the connection that it closes.
unfoldable pub main :
    ℕ
    → Environment
    → Option File
    → List (Bytes × Dict ℕ SyscallInfo)
    → List Bytes
    → Input
    → Outcome (Unit {0}) × Option ServerConnection
unfolding started init_debugger logged closed
main fuel env prog files incoming input =
    let r = started fuel env input (init_debugger prog files incoming none) in
    (logged r.0, closed r.0 r.1)
