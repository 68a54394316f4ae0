-- ===== src/Cli/Process/Guards.antt =====
-- The guards and the errors of `process_command`.
use cwdbg.Base.{
  ℕ, ◌≡◌, ◌⊎◌, inl, inr, refl, sym, ap, ◌∙◌, Bool, true, false, List, [], ◌∷◌, ◌++◌, Option, none,
  some, All, Bool-cases, eq_text_iff, insert, Bytes, text, eq_text, lookup, text_key, subst, Exn,
  Outcome, ok, raise, no_return, quit_debugger, system_exit, runtime_error,
}
use Prim.Native.Nat.{bit_and}
use cwdbg.Target.{TargetInfo}
use cwdbg.Debugger.{is_running, has_flag}
use cwdbg.Cli.{Namespace, Environment, message}
use cwdbg.Cli.Commands.States.{accepts}
use cwdbg.Cli.Commands.{
  cli_class, add_commands, add_names, add_name, add_unless, command_name, command_aliases, guard,
  Command, needed_state, target_is_running, state_error, is_correct_target_state_for_command,
}
use cwdbg.Cli.Process.{
  Cli, new_cli, Session, Result, with_none, process_command, choose_args, with_args, report,
  reported, dispatch, run_named, guarded, store_args,
}

reported-cases :
    (e : Exn)
    → (reported e ≡ quit_debugger) ⊎ (reported e ≡ system_exit) ⊎ (reported e ≡ runtime_error)
unfolding reported
reported-cases quit_debugger = inl refl
reported-cases system_exit = inr (inl refl)
reported-cases e = inr (inr refl)

report-raises :
    (r : Outcome Result × Session) (s' : Session) (e : Exn)
    → report r ≡ (raise e, s')
    → (e ≡ quit_debugger) ⊎ (e ≡ system_exit) ⊎ (e ≡ runtime_error)
unfolding report
report-raises (ok r, s) s' e h = cc
report-raises (no_return, s) s' e h = cc
report-raises (raise x, s) s' e h =
    let same : reported x ≡ e = cc in
    subst (λ y. (y ≡ quit_debugger) ⊎ (y ≡ system_exit) ⊎ (y ≡ runtime_error)) same
      (reported-cases x)

-- Whatever the line, the state and the replies of the server are, an exception that comes out of `process_command`
-- is QuitDebuggerException, RuntimeError, or the SystemExit of the argument parser.
pub process_command-raises :
    (fuel : ℕ) (env : Environment) (cmd_line : Bytes) (s s' : Session) (e : Exn)
    → process_command fuel env cmd_line s ≡ (raise e, s')
    → (e ≡ quit_debugger) ⊎ (e ≡ system_exit) ⊎ (e ≡ runtime_error)
unfolding process_command
process_command-raises fuel env cmd_line s s' e h =
    report-raises (with_args fuel env (choose_args env cmd_line s)) s' e h

-- A command that a line names is refused by its guard.
guarded_by :
    (fuel : ℕ) (env : Environment) (c : ℕ) (cs : Bytes) (s : Session) (args : Namespace)
    (name : Bytes) (command : Command)
    → env.parse_args (c ∷ cs) ≡ ok args
    → args.command ≡ some name
    → eq_text name (text "help") ≡ false
    → eq_text name (text "h") ≡ false
    → lookup name s.cli.commands_by_name ≡ some command
    → accepts (needed_state command) (target_is_running s.dbg.target_info) ≡ false
    → process_command fuel env (c ∷ cs) s ≡ (
      ok (with_none (message (state_error command))),
      record s { cli = record s.cli { stored_args = some args } },
    )
unfolding process_command choose_args with_args dispatch run_named guarded report store_args
    is_correct_target_state_for_command
guarded_by fuel env c cs s args name command parsed named no_help no_h known wrong =
    rw parsed (rw named (rw (no_help, no_h) (rw known (rw wrong refl))))

abbrev not_yet : Bytes → Bytes
not_yet name = text "Incorrect state for command '" ++ (name ++ text "': target is not yet running")

-- Which names are refused: whether while the target is running, and with which message.
abbrev pub refusals : List (Bytes × (Bool × Bytes))
refusals =
    (text "backtrace", (false, not_yet (text "backtrace")))
    ∷ (text "bt", (false, not_yet (text "backtrace")))
    ∷ (text "continue", (false, not_yet (text "continue")))
    ∷ (text "c", (false, not_yet (text "continue")))
    ∷ (text "cont", (false, not_yet (text "continue")))
    ∷ (text "inspect", (false, not_yet (text "inspect")))
    ∷ (text "i", (false, not_yet (text "inspect")))
    ∷ (text "kill", (false, not_yet (text "kill")))
    ∷ (text "k", (false, not_yet (text "kill")))
    ∷ (text "nexti", (false, not_yet (text "nexti")))
    ∷ (text "ni", (false, not_yet (text "nexti")))
    ∷ (text "next", (false, not_yet (text "next")))
    ∷ (text "n", (false, not_yet (text "next")))
    ∷ (text "stepi", (false, not_yet (text "stepi")))
    ∷ (text "si", (false, not_yet (text "stepi")))
    ∷ (text "step", (false, not_yet (text "step")))
    ∷ (text "s", (false, not_yet (text "step")))
    ∷ (text "run", (true, text "Incorrect state for command 'run': target is already running"))
    ∷ (text "r", (true, text "Incorrect state for command 'run': target is already running"))
    ∷ (text "quit", (true, text "Incorrect state for command 'quit': target is still running"))
    ∷ (text "q", (true, text "Incorrect state for command 'quit': target is still running"))
    ∷ []

-- The lowest bit of the state of the target tells whether it is running.
abbrev pub IsRunning : Bool → Option TargetInfo → Type 0
IsRunning true none = ⊥
IsRunning false none = Unit
IsRunning true (some info) = bit_and info.target_state 1 ≡ 1
IsRunning false (some info) = bit_and info.target_state 1 ≡ 0

IsRunning-target :
    (running : Bool) (target : Option TargetInfo)
    → IsRunning running target
    → target_is_running target ≡ running
unfolding target_is_running is_running has_flag
IsRunning-target true none h = elim h [ ]
IsRunning-target false none h = refl
IsRunning-target true (some info) h = rw h refl
IsRunning-target false (some info) h = rw h refl

-- The command that the table of `Cli.__init__` knows by a name.
abbrev command_in : Bytes → Outcome Cli → Option Command
command_in name (ok cli) = lookup name cli.commands_by_name
command_in name (raise e) = none
command_in name no_return = none

abbrev IsRefusal : Bytes × (Bool × Bytes) → Type 0
IsRefusal (name, (running, error)) =
    (command : Command) × (command_in name new_cli ≡ some command)
    × (eq_text name (text "help") ≡ false)
    × (eq_text name (text "h") ≡ false)
    × (accepts (needed_state command) running ≡ false)
    × (state_error command ≡ error)

refusals-IsRefusal : All IsRefusal refusals
unfolding new_cli add_commands add_names add_name add_unless command_name command_aliases cli_class
    insert lookup eq_text accepts needed_state state_error guard
refusals-IsRefusal = (
  (Command.backtrace, refl, refl, refl, refl, refl),
  (
    (Command.backtrace, refl, refl, refl, refl, refl),
    (
      (Command.continue, refl, refl, refl, refl, refl),
      (
        (Command.continue, refl, refl, refl, refl, refl),
        (
          (Command.continue, refl, refl, refl, refl, refl),
          (
            (Command.inspect, refl, refl, refl, refl, refl),
            (
              (Command.inspect, refl, refl, refl, refl, refl),
              (
                (Command.kill, refl, refl, refl, refl, refl),
                (
                  (Command.kill, refl, refl, refl, refl, refl),
                  (
                    (Command.next_instr, refl, refl, refl, refl, refl),
                    (
                      (Command.next_instr, refl, refl, refl, refl, refl),
                      (
                        (Command.next_line, refl, refl, refl, refl, refl),
                        (
                          (Command.next_line, refl, refl, refl, refl, refl),
                          (
                            (Command.step_instr, refl, refl, refl, refl, refl),
                            (
                              (Command.step_instr, refl, refl, refl, refl, refl),
                              (
                                (Command.step_line, refl, refl, refl, refl, refl),
                                (
                                  (Command.step_line, refl, refl, refl, refl, refl),
                                  (
                                    (Command.run, refl, refl, refl, refl, refl),
                                    (
                                      (Command.run, refl, refl, refl, refl, refl),
                                      (
                                        (Command.quit, refl, refl, refl, refl, refl),
                                        ((Command.quit, refl, refl, refl, refl, refl), tt),
                                      ),
                                    ),
                                  ),
                                ),
                              ),
                            ),
                          ),
                        ),
                      ),
                    ),
                  ),
                ),
              ),
            ),
          ),
        ),
      ),
    ),
  ),
)

All-lookup :
    {A : Type 0} (P : Bytes × A → Type 0) (table : List (Bytes × A)) (name : Bytes) (a : A)
    → All P table
    → lookup name table ≡ some a
    → P (name, a)
unfolding lookup
All-lookup P [] name a all h = cc
All-lookup P ((key, b) ∷ table) name a (p, all) h = elim (Bool-cases (eq_text key name)) [
  | inl same ↦
      let e : key ≡ name = (eq_text_iff key name).0 same in
      let found : lookup name ((key, b) ∷ table) ≡ some b = rw same refl in
      let e' : b ≡ a = cc in subst P (λ i. (e i, e' i)) p
  | inr differs ↦
      let further : lookup name ((key, b) ∷ table) ≡ lookup name table = rw differs refl in
      All-lookup P table name a all (sym further ∙ h)
]

-- A command is refused in the wrong state of the target: if a line names, by its name or an alias, a command that needs a
-- running target (backtrace, continue, inspect, kill, nexti, next, stepi, step) while it is not running, or `run` or
-- `quit` while it is, the result is a tuple with the message for that command, and only the stored arguments have
-- changed, not the debugger with its connection and its target. The table of names is that of `Cli.__init__`.
pub process_command-refused :
    (fuel : ℕ) (env : Environment) (c : ℕ) (cs : Bytes) (s : Session) (args : Namespace) (cli : Cli)
    (name : Bytes) (running : Bool) (error : Bytes)
    → new_cli ≡ ok cli
    → s.cli.commands_by_name ≡ cli.commands_by_name
    → env.parse_args (c ∷ cs) ≡ ok args
    → args.command ≡ some name
    → lookup name refusals ≡ some (running, error)
    → IsRunning running s.dbg.target_info
    → process_command fuel env (c ∷ cs) s ≡ (
      ok (with_none (message error)),
      record s { cli = record s.cli { stored_args = some args } },
    )
process_command-refused fuel env c cs s args cli name running error made same parsed named refused
      wrong =
    let (command, found, no_help, no_h, refuses, says) =
      All-lookup IsRefusal refusals name (running, error) refusals-IsRefusal refused in
    let known : lookup name s.cli.commands_by_name ≡ some command =
      ap (lookup name) same ∙ ap (command_in name) (sym made) ∙ found in
    guarded_by fuel env c cs s args name command parsed named no_help no_h known (
      ap (accepts (needed_state command)) (IsRunning-target running s.dbg.target_info wrong)
      ∙ refuses)
    ∙ ap
        (λ e.
          (ok (with_none (message e)), record s { cli = record s.cli { stored_args = some args } }))
        says
