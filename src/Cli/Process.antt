-- ===== src/Cli/Process.antt =====
-- `Cli.__init__` and `Cli.process_command` of host/cli.py.
pub mod Guards
pub mod Kept
pub mod Sound
use cwdbg.Base.{
  ℕ, Bool, ◌||◌, List, [], ◌∷◌, ◌++◌, Option, none, some, Bytes, text, eq_text, if◌then◌else◌, Dict,
  lookup, text_key, Exn, Outcome, ok, raise, no_return, Exec, pure, get, modify, throw, lift,
  required, ◌>>=◌, ◌>>◌, key_error, attribute_error, argument_parser_error, quit_debugger,
  system_exit, runtime_error,
}
use cwdbg.Target.{TargetInfo}
use cwdbg.Debugger.{Debugger}
use cwdbg.Cli.{Namespace, Environment, Reply, message}
use cwdbg.Cli.Commands.{Command, cli_commands, add_commands, is_correct_target_state_for_command}
use cwdbg.Cli.Execute.{execute_command}

-- `_stored_args` is an attribute that is first set when a line was parsed.
pub record Cli : Type 0 where
  pub commands_by_name : Dict Bytes Command
  pub stored_args : Option Namespace

pub record Session : Type 0 where
  pub cli : Cli
  pub dbg : Debugger

-- `Cli.__init__`
unfoldable pub new_cli : Outcome Cli
unfolding add_commands
new_cli = elim (add_commands cli_commands []) [
  | ok table ↦ ok (record { commands_by_name = table; stored_args = none })
  | raise e ↦ raise e
  | no_return ↦ no_return
]

-- What `process_command` returns: the value of `execute`, or a tuple of a message and None.
pub data Result : Type 0 where
  value : Option Reply → Result
  with_none : Reply → Result

unfoldable pub store_args : Namespace → Session → Session
store_args args s = record s { cli = record s.cli { stored_args = some args } }

-- The arguments on the line, or those of the command before for an empty line.
unfoldable pub choose_args : Environment → Bytes → Exec Session Namespace
unfolding store_args
choose_args env [] = λ s. (required attribute_error s.cli.stored_args, s)
choose_args env (c ∷ cs) = do
  args ← lift (env.parse_args (c ∷ cs))
  modify (store_args args)
  pure args

unfoldable pub on_dbg : Exec Debugger (Option Reply) → Exec Session Result
on_dbg m s =
    let r = m s.dbg in
    (
      elim r.0 [ ok reply ↦ ok (value reply) | raise e ↦ raise e | no_return ↦ no_return ],
      record s { dbg = r.1 },
    )

-- The check of the target's state, and the command.
unfoldable pub guarded : ℕ → Environment → Command → Namespace → Option Bytes → Exec Session Result
unfolding on_dbg execute_command
guarded fuel env command args (some error) = pure (with_none (message error))
guarded fuel env command args none = on_dbg (execute_command fuel env command args)

unfoldable pub run_named : ℕ → Environment → Namespace → Option Command → Exec Session Result
unfolding guarded is_correct_target_state_for_command
run_named fuel env args none = throw key_error
run_named fuel env args (some command) = λ s.
    guarded fuel env command args (is_correct_target_state_for_command command s.dbg.target_info) s

-- No command bears the name None.
unfoldable pub dispatch : ℕ → Environment → Namespace → Option Bytes → Exec Session Result
unfolding run_named eq_text lookup
dispatch fuel env args none = throw key_error
dispatch fuel env args (some name) =
    if eq_text name (text "help") || eq_text name (text "h")
    then pure (with_none (message env.format_help))
    else λ s. run_named fuel env args (lookup name s.cli.commands_by_name) s

-- The inner `try` and what follows it.
unfoldable pub with_args : ℕ → Environment → Outcome Namespace × Session → Outcome Result × Session
unfolding dispatch
with_args fuel env (ok args, s) = dispatch fuel env args args.command s
with_args fuel env (raise argument_parser_error, s) =
    (ok (with_none (message (text "Invalid command / argument\n" ++ env.format_help))), s)
with_args fuel env (raise attribute_error, s) =
    (ok (with_none (message (text "Can't repeat command, no previous command available"))), s)
with_args fuel env (raise e, s) = (raise e, s)
with_args fuel env (no_return, s) = (no_return, s)

-- `except QuitDebuggerException: raise`, `except Exception as e: raise RuntimeError`; SystemExit is no `Exception`.
unfoldable pub reported : Exn → Exn
reported quit_debugger = quit_debugger
reported system_exit = system_exit
reported e = runtime_error

unfoldable pub report : Outcome Result × Session → Outcome Result × Session
unfolding reported
report (ok r, s) = (ok r, s)
report (raise e, s) = (raise (reported e), s)
report (no_return, s) = (no_return, s)

unfoldable pub process_command : ℕ → Environment → Bytes → Exec Session Result
unfolding choose_args with_args report
process_command fuel env cmd_line s = report (with_args fuel env (choose_args env cmd_line s))
