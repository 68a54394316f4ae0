-- ===== src/Tests/Screen.antt =====
-- The terminal interface of host/ui.py, the generator of the system call database, and the layout of the target.
use cwdbg.Base.{
  ◌≡◌, ◌≢◌, refl, List, [], ◌∷◌, ◌++◌, none, some, Bytes, text, arith, lookup, insert, text_key,
  nat_key, eq_text, strip, ok, is_space, All,
}
use cwdbg.Target.Syscalls.{SyscallArg, SyscallInfo}
use cwdbg.Cli.{message}
use cwdbg.Cli.Commands.{Command, state_error, add_commands}
use cwdbg.Cli.Commands.Names.{IsKnown, add_commands-eq-ok}
use cwdbg.Cli.Process.{process_command}
use cwdbg.Ui.{Screen, string, press_enter}
use cwdbg.Ui.Tuples.{press_enter_tuple}
use cwdbg.Ui.Layout.{
  views, views_of, main_widget, source_view, disasm_view, register_view, stack_view, variable_view,
  call_stack_view, input_view, log_view, status_line,
}
use cwdbg.Ui.Log.{write_all, new_handler, latest, write_all-latest}
use cwdbg.Base.{is_word, hexadecimal}
use cwdbg.Generator.{create_db}
use cwdbg.Generator.Protos.Parts.{plain_args}
use cwdbg.Generator.Database.{create_db-function}
use cwdbg.Generator.Pragmas.RoundTrip.{assigned}
use cwdbg.Tests.Interface.{simple_environment, session_with}

-- The user has typed `step` before the target runs.
abbrev pub screen : Screen
screen = record {
  session = session_with none;
  edit_text = text " step";
  history = string (message (text "> help")) ∷ [];
  caption = [];
  status_line = [];
  source_view = [];
  register_view = [];
  disasm_view = [];
  stack_view = [];
  call_stack_view = [];
}

press_enter_tuple_example : press_enter 9 simple_environment screen ≢ (ok tt, screen)
unfolding process_command strip
press_enter_tuple_example =
    press_enter_tuple 9 simple_environment screen (message (state_error Command.step_line))
      (process_command 9 simple_environment (text "step") (session_with none)).1 screen refl

abbrev log : List Bytes
log =
    text "0"
    ∷ text "1"
    ∷ text "2"
    ∷ text "3"
    ∷ text "4"
    ∷ text "5"
    ∷ text "6"
    ∷ text "7"
    ∷ text "8"
    ∷ text "9"
    ∷ text "10"
    ∷ []

write_all-latest_example : (write_all log new_handler).messages ≡ latest log
write_all-latest_example = write_all-latest log

abbrev arg : Bytes → SyscallArg
arg decl = record { decl = decl; register = none }

abbrev open_info : SyscallInfo
open_info = record {
  name = text "Open";
  args = arg (text "STRPTR name") ∷ arg (text "LONG accessMode") ∷ [];
  ret_type = text "BPTR ";
}

create_db-function_example :
    create_db
      (text "BPTR Open(STRPTR name, LONG accessMode);\n" ∷ [])
      (text "#pragma libcall DOSBase Open 1e 2102\n" ∷ [])
    ≡ ok (
        (
          0x1e,
          record open_info {
            args =
                assigned
                  (plain_args (text "STRPTR name" ∷ text "LONG accessMode" ∷ []))
                  (1 ∷ 2 ∷ []);
          },
        )
        ∷ [])
unfolding is_space is_word eq_text strip hexadecimal
create_db-function_example =
    create_db-function (text "BPTR") b' ' (text "Open") (text "STRPTR name")
      (text "LONG accessMode" ∷ []) refl (refl, (refl, (refl, (refl, tt))))
      (
        (
          refl,
          refl,
          refl,
          (
            refl,
            (refl, (refl, (refl, (refl, (refl, (refl, (refl, (refl, (refl, (refl, tt)))))))))),
          ),
        ),
        (
          (
            refl,
            refl,
            refl,
            (
              refl,
              (
                refl,
                (
                  refl,
                  (
                    refl,
                    (
                      refl,
                      (
                        refl,
                        (refl, (refl, (refl, (refl, (refl, (refl, (refl, (refl, (refl, tt))))))))),
                      ),
                    ),
                  ),
                ),
              ),
            ),
          ),
          tt,
        ),
      )
      (refl, (refl, (refl, (refl, (refl, (refl, (refl, (refl, (refl, tt)))))))))
      (text "BPTR Open(STRPTR name, LONG accessMode);\n")
      (text "#pragma libcall DOSBase Open 1e 2102\n") (text "libcall") (text "DOSBase") 0x1e 0
      (1 ∷ 2 ∷ []) refl refl (refl, (refl, (refl, (refl, (refl, (refl, (refl, tt)))))))
      (refl, (refl, (refl, (refl, (refl, (refl, (refl, tt))))))) (omega arith, (omega arith, tt))
      (omega arith) (omega arith) refl

add_commands-eq-ok_example :
    All
      (IsKnown (
        (text "quit", Command.quit)
        ∷ (text "q", Command.quit)
        ∷ (text "run", Command.run)
        ∷ (text "r", Command.run)
        ∷ []))
      (Command.quit ∷ Command.run ∷ [])
    × ((name : Bytes) (command : Command)
        → lookup name [] ≡ some command
        → lookup name (
            (text "quit", Command.quit)
            ∷ (text "q", Command.quit)
            ∷ (text "run", Command.run)
            ∷ (text "r", Command.run)
            ∷ [])
          ≡ some command)
unfolding add_commands eq_text lookup insert
add_commands-eq-ok_example = add_commands-eq-ok (Command.quit ∷ Command.run ∷ []) [] _ refl

-- Each view has its place on the screen.
main_widget-views :
    views main_widget.body ++ views main_widget.footer
    ≡ source_view ∷ disasm_view ∷ register_view ∷ stack_view ∷ variable_view ∷ call_stack_view
      ∷ input_view ∷ log_view ∷ status_line ∷ []
unfolding views views_of main_widget
main_widget-views = refl
