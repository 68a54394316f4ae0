-- ===== src/Ui/Keys.antt =====
-- The main screen of host/ui.py as it is set up, and its event loop. What the keys do that the widget `Edit` of urwid
-- handles is given by the text that they leave in it.
use cwdbg.Base.{
  ℕ, List, [], ◌∷◌, Bytes, text, Outcome, ok, raise, no_return, Exec, modify, pure, ◌>>◌,
}
use cwdbg.Cli.{Environment}
use cwdbg.Cli.Process.{Session}
use cwdbg.Ui.{Screen, status_text, press_enter, handle_global_input}

-- `*** NOT AVAILABLE ***` and `* Idle *`, until a target has run.
unfoldable pub new_screen : Session → Screen
unfolding status_text
new_screen session = record {
  session = session;
  edit_text = [];
  history = [];
  caption = [];
  status_line = status_text (text "Idle");
  source_view = text "*** NOT AVAILABLE ***" ∷ [];
  register_view = text "*** NOT AVAILABLE ***" ∷ [];
  disasm_view = text "*** NOT AVAILABLE ***" ∷ [];
  stack_view = text "*** NOT AVAILABLE ***" ∷ [];
  call_stack_view = text "*** NOT AVAILABLE ***" ∷ [];
}

-- A key that changes the text of the command line, `enter`, or a key that the command line does not handle.
pub data Event : Type 0 where
  edited : Bytes → Event
  enter : Event
  unhandled : Bytes → Event

unfoldable pub set_edit_text : Bytes → Screen → Screen
set_edit_text edit_text s = record s { edit_text = edit_text }

-- `CommandInput.keypress`, and `_handle_global_input` for what it hands back.
unfoldable pub keypress : ℕ → Environment → Event → Exec Screen (Unit {0})
unfolding press_enter handle_global_input set_edit_text
keypress fuel env (edited edit_text) = modify (set_edit_text edit_text)
keypress fuel env enter = press_enter fuel env
keypress fuel env (unhandled key) = handle_global_input fuel env key >> pure tt

-- `loop.run()`: it waits for the next key, until something is raised.
unfoldable pub run_events : ℕ → Environment → List Event → Exec Screen (Unit {0})
unfolding keypress
run_events fuel env [] = λ s. (no_return, s)
run_events fuel env (event ∷ events) = keypress fuel env event >> run_events fuel env events

-- `ExitMainLoop` ends the loop of urwid; whatever else is raised is logged.
unfoldable pub end_loop : Outcome (Unit {0}) → Outcome (Unit {0})
end_loop (ok _) = ok tt
end_loop (raise e) = ok tt
end_loop no_return = no_return

-- `MainScreen(…)`
unfoldable pub main_screen : ℕ → Environment → List Event → Exec Session (Unit {0})
unfolding new_screen run_events end_loop
main_screen fuel env events session =
    let r = run_events fuel env events (new_screen session) in (end_loop r.0, r.1.session)
