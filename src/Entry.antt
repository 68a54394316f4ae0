-- ===== src/Entry.antt =====
-- The start of the debugger and its loop without the terminal interface: host/cwdbg.py. The files of the
-- system call database are given by their names, without the extension, and the dictionaries in them.
pub mod Main
pub mod Sound
use cwdbg.Base.{
  ℕ, List, [], ◌∷◌, ◌++◌, Option, none, some, Bytes, text, Dict, insert, nat_key, text_key, Outcome,
  ok, raise, no_return, Exec, pure, throw, lift, modify, chain, required, ◌>>=◌, ◌>>◌, type_error,
  eof_error, quit_debugger,
}
use cwdbg.Hunk.{File}
use cwdbg.Hunk.Exe.{get_debug_infos_from_exe}
use cwdbg.Stabs.Program.{ProgramWithDebugInfo, from_stabs_data}
use cwdbg.Server.{ServerConnection}
use cwdbg.Server.Commands.{Exchange, connect, srv_get_base_address, base_address_result}
use cwdbg.Target.CallStack.{run_command}
use cwdbg.Target.Syscalls.{SyscallInfo, SyscallDb}
use cwdbg.Cli.{Environment, message}
use cwdbg.Cli.Process.{Cli, Session, Result, value, new_cli, process_command}

-- `ProgramWithDebugInfo.from_stabs_data(get_debug_infos_from_exe(args.prog))`, if a program is given.
unfoldable pub load_program : Option File → Outcome (Option ProgramWithDebugInfo)
unfolding get_debug_infos_from_exe from_stabs_data
load_program none = ok none
load_program (some file) = chain (get_debug_infos_from_exe file) λ found.
    chain (required type_error found)
      λ content. chain (from_stabs_data content) λ program. ok (some program)

unfoldable pub load_syscall_db : List (Bytes × Dict ℕ SyscallInfo) → SyscallDb → SyscallDb
unfolding insert
load_syscall_db [] db = db
load_syscall_db ((name, content) ∷ files) db = load_syscall_db files (insert name content db)

-- The address of one library.
unfoldable pub get_base_address : Bytes → Exec ServerConnection ℕ
unfolding run_command srv_get_base_address base_address_result
get_base_address name = do
  bytes ← run_command (ok (srv_get_base_address (name ++ text ".library")))
  lift (base_address_result bytes)

unfoldable pub get_lib_base_addresses :
    List (Bytes × Dict ℕ SyscallInfo) → Dict ℕ Bytes → Exec ServerConnection (Dict ℕ Bytes)
unfolding get_base_address insert
get_lib_base_addresses [] libs = pure libs
get_lib_base_addresses ((name, content) ∷ files) libs = do
  address ← get_base_address name
  get_lib_base_addresses files (insert address name libs)

-- The connection once SrvInit was executed.
unfoldable pub connected : Outcome (Unit {0}) × Exchange → Outcome ServerConnection
connected (ok _, x) = ok x.conn
connected (raise e, x) = raise e
connected (no_return, x) = no_return

unfoldable pub with_libs :
    Option ProgramWithDebugInfo
    → Cli
    → SyscallDb
    → Outcome (Dict ℕ Bytes) × ServerConnection
    → Outcome Session × Option ServerConnection
with_libs program cli db (ok libs, conn) = (
  ok (record {
    cli = cli;
    dbg = record {
      program = program;
      server_conn = conn;
      syscall_db = db;
      lib_base_addresses = libs;
      target_info = none;
    };
  }),
  some conn,
)
with_libs program cli db (raise e, conn) = (raise e, some conn)
with_libs program cli db (no_return, conn) = (no_return, some conn)

-- `_init_debugger`, with the chunks that the server is going to send. The state is `dbg.server_conn`, which `main`
-- uses when something in here raises.
unfoldable pub init_debugger :
    Option File
    → List (Bytes × Dict ℕ SyscallInfo)
    → List Bytes
    → Exec (Option ServerConnection) Session
unfolding load_program connected connect new_cli load_syscall_db get_lib_base_addresses with_libs
init_debugger prog files incoming = do
  program ← lift (load_program prog)
  conn ← lift (connected (connect incoming))
  modify (λ _. some conn)
  cli ← lift new_cli
  λ _. with_libs program cli (load_syscall_db files []) (get_lib_base_addresses files [] conn)

pub record Console : Type 0 where
  pub session : Session
  pub printed : List Result

-- `if result_str: print(result_str)`; a tuple is printed too.
unfoldable pub print_result : Result → List Result → List Result
print_result (value none) printed = printed
print_result (value (some (message []))) printed = printed
print_result result printed = printed ++ result ∷ []

-- One round of the loop is over: quitting leaves it.
unfoldable pub after_command :
    Exec Console (Unit {0}) → Outcome Result × Session → Console → Outcome (Unit {0}) × Console
unfolding print_result
after_command rest (ok result, s) console =
    rest (record { session = s; printed = print_result result console.printed })
after_command rest (raise quit_debugger, s) console = (ok tt, record console { session = s })
after_command rest (raise e, s) console = (raise e, record console { session = s })
after_command rest (no_return, s) console = (no_return, record console { session = s })

-- `while True`, with the lines that are going to be typed; behind the last one `input` raises.
unfoldable pub command_loop : ℕ → Environment → List Bytes → Exec Console (Unit {0})
unfolding after_command process_command
command_loop fuel env [] = throw eof_error
command_loop fuel env (cmd_line ∷ cmd_lines) = λ console.
    after_command (command_loop fuel env cmd_lines)
      (process_command fuel env cmd_line console.session) console
