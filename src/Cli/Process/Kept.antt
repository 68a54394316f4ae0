-- ===== src/Cli/Process/Kept.antt =====
-- What a command line of host/cli.py leaves alone in the object `dbg`.
use cwdbg.Base.{
  ◌≡◌, refl, sym, subst, ℕ, ◌||◌, [], ◌∷◌, Option, none, some, Bytes, text, eq_text, lookup,
  text_key, Dict, argument_parser_error, attribute_error, key_error, Outcome, ok, raise, no_return,
  modify, Keeps, bind-Keeps, lift-Keeps, if-Keeps,
}
use cwdbg.Stabs.Program.{ProgramWithDebugInfo}
use cwdbg.Server.Commands.{ServerCommand}
use cwdbg.Server.Commands.New.{IsNew}
use cwdbg.Target.Syscalls.{SyscallDb}
use cwdbg.Debugger.{Debugger, keep_target_info}
use cwdbg.Debugger.Kept.{run_server_command-Keeps}
use cwdbg.Cli.{Namespace, Environment, message, run_target}
use cwdbg.Cli.Commands.{Command, is_correct_target_state_for_command}
use cwdbg.Cli.Execute.{execute_command}
use cwdbg.Cli.Execute.Looking.{execute_command-Keeps}
use cwdbg.Cli.Process.{
  Session, Result, with_none, choose_args, store_args, guarded, on_dbg, run_named, dispatch,
  with_args, report, process_command,
}

-- A predicate of the session that storing the arguments for the next line keeps, and each command.
module _ (holds : Session → Type 0)
    (stores : (args : Namespace) → Keeps holds (modify (store_args args))) (fuel : ℕ)
    (env : Environment)
    (executes : (command : Command) (args : Namespace)
      → Keeps holds (on_dbg (execute_command fuel env command args))) where
  guarded-Keeps :
      (command : Command) (args : Namespace) (error : Option Bytes)
      → Keeps holds (guarded fuel env command args error)
  unfolding guarded
  guarded-Keeps command args (some error) = lift-Keeps holds (ok (with_none (message error)))
  guarded-Keeps command args none = executes command args

  run_named-Keeps :
      (args : Namespace) (found : Option Command) → Keeps holds (run_named fuel env args found)
  unfolding run_named
  run_named-Keeps args none = lift-Keeps holds (raise key_error)
  run_named-Keeps args (some command) = record {
    kept = λ s h.
        (guarded-Keeps command args
            (is_correct_target_state_for_command command s.dbg.target_info)).kept
          s h;
  }

  dispatch-Keeps :
      (args : Namespace) (name : Option Bytes) → Keeps holds (dispatch fuel env args name)
  unfolding dispatch
  dispatch-Keeps args none = lift-Keeps holds (raise key_error)
  dispatch-Keeps args (some name) =
      if-Keeps holds (eq_text name (text "help") || eq_text name (text "h"))
        (lift-Keeps holds (ok (with_none (message env.format_help))))
        (record {
          kept = λ s h. (run_named-Keeps args (lookup name s.cli.commands_by_name)).kept s h;
        })

  with_args-kept : (r : Outcome Namespace × Session) → holds r.1 → holds (with_args fuel env r).1
  unfolding with_args
  with_args-kept (ok args, s) h = (dispatch-Keeps args args.command).kept s h
  with_args-kept (raise argument_parser_error, s) h = h
  with_args-kept (raise attribute_error, s) h = h
  with_args-kept (raise e, s) h = h
  with_args-kept (no_return, s) h = h

  choose_args-Keeps : (cmd_line : Bytes) → Keeps holds (choose_args env cmd_line)
  unfolding choose_args
  choose_args-Keeps [] = record { kept = λ s h. h }
  choose_args-Keeps (c ∷ cs) =
      bind-Keeps holds (lift-Keeps holds (env.parse_args (c ∷ cs)))
        (λ args. bind-Keeps holds (stores args) (λ _. lift-Keeps holds (ok args)))

  report-state : (r : Outcome Result × Session) → (report r).1 ≡ r.1
  unfolding report
  report-state (ok r, s) = refl
  report-state (raise e, s) = refl
  report-state (no_return, s) = refl

  pub process_command-Keeps : (cmd_line : Bytes) → Keeps holds (process_command fuel env cmd_line)
  unfolding process_command
  process_command-Keeps cmd_line = record {
    kept = λ s h.
        let parsed = choose_args env cmd_line s in
        subst holds (sym (report-state (with_args fuel env parsed)))
          (with_args-kept parsed ((choose_args-Keeps cmd_line).kept s h));
  }

abbrev loaded : Debugger → Option ProgramWithDebugInfo × SyscallDb × Dict ℕ Bytes
loaded dbg = (dbg.program, dbg.syscall_db, dbg.lib_base_addresses)

abbrev tables :
    Session → (Option ProgramWithDebugInfo × SyscallDb × Dict ℕ Bytes) × Dict Bytes Command
tables s = (loaded s.dbg, s.cli.commands_by_name)

-- A run of the target.
run_target-loaded :
    (dbg : Debugger) (command : ServerCommand)
    → IsNew command
    → Keeps (λ d. loaded d ≡ loaded dbg) (run_target command)
unfolding run_target keep_target_info
run_target-loaded dbg command new =
    bind-Keeps (λ d. loaded d ≡ loaded dbg)
      (run_server_command-Keeps (λ d. loaded d ≡ loaded dbg)
        (λ command new. record { kept = λ d h. h }) (ok command) (λ built h. subst IsNew (cc) new))
      (λ command. record { kept = λ d h. h })

-- Whatever the command line is and whatever it comes to, errors included, the program, the database of the system
-- calls, the addresses of the libraries and the table of the commands stay as they are.
pub process_command-tables :
    (fuel : ℕ) (env : Environment) (cmd_line : Bytes) (s : Session)
    → let after = (process_command fuel env cmd_line s).1 in
      (after.dbg.program ≡ s.dbg.program)
      × (after.dbg.syscall_db ≡ s.dbg.syscall_db)
      × (after.dbg.lib_base_addresses ≡ s.dbg.lib_base_addresses)
      × (after.cli.commands_by_name ≡ s.cli.commands_by_name)
unfolding store_args on_dbg
process_command-tables fuel env cmd_line s =
    let same =
      (process_command-Keeps (λ t. tables t ≡ tables s) (λ args. record { kept = λ t h. h }) fuel
          env
          (λ command args. record {
            kept = λ t h.
                let same =
                  (execute_command-Keeps (λ d. loaded d ≡ loaded s.dbg)
                      (λ command new. record { kept = λ d h. h }) fuel env args
                      (run_target-loaded s.dbg) command).kept
                    t.dbg (λ i. (h i).0) in
                λ i. (same i, (h i).1);
          })
          cmd_line).kept
        s refl in
    (λ i. (same i).0.0, λ i. (same i).0.1, λ i. (same i).0.2, λ i. (same i).1)
