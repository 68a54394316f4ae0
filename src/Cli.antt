-- ===== src/Cli.antt =====
-- The command line interface of host/cli.py: what it is given by other code, and what its commands return.
pub mod Commands
pub mod New
pub mod Sound
pub mod Memory
pub mod Frames
pub mod Stepping
pub mod Locations
pub mod Execute
pub mod Process
use cwdbg.Base.{
  ℕ, Bool, List, [], ◌∷◌, Option, none, some, Bytes, text, ℤ, pos, negsuc, Exn, Outcome, ok, raise,
  server_command_error, struct_error, Exec, ◌>>=◌, ◌>>◌, except,
}
use cwdbg.Server.Commands.{ServerCommand, srv_peek_mem, srv_clear_breakpoint, srv_set_breakpoint}
use cwdbg.Debugger.{Debugger, run_server_command, keep_target_info}
use cwdbg.Debugger.Disassembly.{Disassembler}

-- What the argument parser makes of a line. It sets the fields for the arguments of the command; the command
-- is None if the line names none.
pub record Namespace : Type 0 where
  pub command : Option Bytes
  pub number : ℤ
  pub address : ℤ
  pub ninstr : ℤ
  pub size : ℤ
  pub format : Bytes
  pub what : Bytes
  pub location : Bytes

-- A value that `struct.unpack` gives: a number, or another one by its `repr`.
pub data Value : Type 0 where
  number : ℤ → Value
  other : Bytes → Value

-- What the commands take from other code: the disassembler, the platform, files, the format strings of
-- `struct`, and the argument parser with its help text.
pub record Environment : Type 0 where
  pub disasm : Disassembler
  pub is_darwin : Bool
  pub read_lines : Bytes → Option (List Bytes)
  pub calcsize : Bytes → Outcome ℕ
  pub unpack : Bytes → Bytes → Outcome (List Value)
  pub parse_args : Bytes → Outcome Namespace
  pub format_help : Bytes

-- A message: a text, or a text behind which the message of an exception stands.
pub data Reply : Type 0 where
  message : Bytes → Reply
  failed : Bytes → Exn → Reply

-- The commands whose arguments are packed: `struct.pack` refuses negative numbers.
unfoldable pub peek_mem : ℤ → ℤ → Outcome ServerCommand
unfolding srv_peek_mem
peek_mem (pos address) (pos nbytes) = srv_peek_mem address nbytes
peek_mem _ _ = raise struct_error

unfoldable pub clear_bpoint : ℤ → Outcome ServerCommand
unfolding srv_clear_breakpoint
clear_bpoint (pos n) = srv_clear_breakpoint n
clear_bpoint (negsuc n) = raise struct_error

unfoldable pub set_bpoint : ℤ → Bool → Outcome ServerCommand
unfolding srv_set_breakpoint
set_bpoint (pos offset) is_one_shot = srv_set_breakpoint offset is_one_shot
set_bpoint (negsuc n) is_one_shot = raise struct_error

-- A command that makes the target run, and what the debugger then knows of the target.
unfoldable pub run_target : ServerCommand → Exec Debugger (Unit {0})
unfolding run_server_command keep_target_info
run_target command = run_server_command (ok command) >>= keep_target_info

abbrev pub on_failure : Bytes → Exn → Option (Option Reply)
on_failure prefix server_command_error = some (some (failed prefix server_command_error))
on_failure prefix e = none

-- `except ServerCommandError as e: return f"…: {e}"`
unfoldable pub or_failed : Bytes → Exec Debugger (Option Reply) → Exec Debugger (Option Reply)
or_failed prefix m = except (on_failure prefix) m
