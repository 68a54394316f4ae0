-- ===== src/Ui/Kept.antt =====
-- Predicates of the session and the history that the key `enter` of host/ui.py keeps.
use cwdbg.Base.{
  ℕ, Bool, true, false, List, [], ◌∷◌, ◌++◌, Bytes, text, strip, Outcome, ok, raise, no_return,
  Exec, Keeps, bind-Keeps, lift-Keeps, modify-Keeps, Option, none, some,
}
use cwdbg.Server.Commands.{ServerCommand}
use cwdbg.Server.Commands.New.{IsNew, conn_after}
use cwdbg.Target.{TargetInfo}
use cwdbg.Debugger.{Debugger, current_target}
use cwdbg.Debugger.Kept.{
  current_target-Keeps, get_disasm_view-Keeps, get_source_view-Keeps, get_call_stack_view-Keeps,
}
use cwdbg.Debugger.Disassembly.{get_disasm_view}
use cwdbg.Debugger.Source.{get_source_view}
use cwdbg.Debugger.Frames.{get_call_stack_view}
use cwdbg.Debugger.Status.{get_status_str}
use cwdbg.Cli.{Environment, message}
use cwdbg.Cli.Process.{Session, Result, process_command}
use cwdbg.Ui.Keys.{Event, edited, enter, unhandled, keypress, run_events, set_edit_text}
use cwdbg.Ui.{
  Screen, HistoryItem, string, press_enter, refresh, run_line, or_exit, show_history, show_if,
  remember, shortened, items_of, all_strings, on_session, on_debugger, update_status_line,
  update_views, show_views, set_from, current_status, set_status_line, set_source_view,
  set_disasm_view, set_call_stack_view, show_source, show_disasm, show_call_stack, stored,
  refresh_if, show_result, has_target, key_command, press_with, handle_global_input,
}

module _ (inv : Session → List HistoryItem → Type 0)
    (exchanges : (s : Session) (items : List HistoryItem) (command : ServerCommand)
      → IsNew command
      → Keeps
          (λ d. inv (record s { dbg = d }) items)
          (λ d. (ok tt, record d { server_conn = conn_after command d.server_conn })))
    (fuel : ℕ) (env : Environment)
    (commands : (items : List HistoryItem) (cmd_line : Bytes)
      → Keeps (λ s. inv s items) (process_command fuel env cmd_line))
    (remembers : (s : Session) (items : List HistoryItem) (cmd_line : Bytes) (result : Result)
      → inv s items
      → inv s (
          shortened
            ((items ++ string (message (text "> " ++ cmd_line)) ∷ []) ++ items_of result))) where
  abbrev Holds : Screen → Type 0
  Holds s = inv s.session s.history

  stored-kept :
      {A : Type 0} (set : A → Screen → Screen) (r : Outcome A × Screen)
      → ((a : A) (s : Screen) → Holds s → Holds (set a s))
      → Holds r.1
      → Holds (stored set r).1
  unfolding stored
  stored-kept set (ok a, s) sets h = sets a s h
  stored-kept set (raise e, s) sets h = h
  stored-kept set (no_return, s) sets h = h

  module _ {A : Type 0} (m : Exec Debugger A)
      (parts : (s : Session) (items : List HistoryItem)
        → Keeps (λ d. inv (record s { dbg = d }) items) m) where
    on_debugger-Keeps : Keeps Holds (on_debugger m)
    unfolding on_debugger on_session
    on_debugger-Keeps = record { kept = λ s h. (parts s.session s.history).kept s.session.dbg h }

    set_from-Keeps :
        (set : A → Screen → Screen)
        → ((a : A) (s : Screen) → Holds s → Holds (set a s))
        → Keeps Holds (set_from m set)
    unfolding set_from
    set_from-Keeps set sets = record {
      kept = λ s h. stored-kept set (on_debugger m s) sets (on_debugger-Keeps.kept s h);
    }

  update_status_line-Keeps : Keeps Holds update_status_line
  unfolding update_status_line current_status
  update_status_line-Keeps =
      set_from-Keeps current_status
        (λ s items.
          bind-Keeps (λ d. inv (record s { dbg = d }) items)
            (current_target-Keeps (λ d. inv (record s { dbg = d }) items))
            (λ info. lift-Keeps (λ d. inv (record s { dbg = d }) items) (get_status_str info)))
        set_status_line (λ a s h. h)

  show_source-Keeps : (info : TargetInfo) → Keeps Holds (show_source env info)
  unfolding show_source set_source_view
  show_source-Keeps info =
      set_from-Keeps (get_source_view env.is_darwin env.read_lines info)
        (λ s items.
          get_source_view-Keeps (λ d. inv (record s { dbg = d }) items) env.is_darwin env.read_lines
            info)
        (set_source_view info) (λ a s h. h)

  show_disasm-Keeps : (info : TargetInfo) → Keeps Holds (show_disasm env info)
  unfolding show_disasm set_disasm_view
  show_disasm-Keeps info =
      set_from-Keeps (get_disasm_view env.disasm info)
        (λ s items.
          get_disasm_view-Keeps (λ d. inv (record s { dbg = d }) items) (exchanges s items)
            env.disasm info)
        (set_disasm_view info) (λ a s h. h)

  show_call_stack-Keeps : Keeps Holds (show_call_stack fuel)
  unfolding show_call_stack set_call_stack_view
  show_call_stack-Keeps =
      set_from-Keeps (get_call_stack_view fuel)
        (λ s items.
          get_call_stack_view-Keeps (λ d. inv (record s { dbg = d }) items) (exchanges s items)
            fuel)
        set_call_stack_view (λ a s h. h)

  update_views-Keeps : Keeps Holds (update_views fuel env)
  unfolding update_views show_views
  update_views-Keeps =
      bind-Keeps Holds
        (on_debugger-Keeps current_target
          (λ s items. current_target-Keeps (λ d. inv (record s { dbg = d }) items)))
        (λ info.
          bind-Keeps Holds (show_source-Keeps info)
            (λ _. bind-Keeps Holds (show_disasm-Keeps info) (λ _. show_call_stack-Keeps)))

  refresh-Keeps : Keeps Holds (refresh fuel env)
  unfolding refresh
  refresh-Keeps = record { kept = λ s h. (refresh_if-Keeps (has_target s)).kept s h }
    where
      refresh_if-Keeps : (known : Bool) → Keeps Holds (refresh_if fuel env known)
      refresh_if-Keeps true = bind-Keeps Holds update_status_line-Keeps (λ _. update_views-Keeps)
      refresh_if-Keeps false = lift-Keeps Holds (ok tt)

  show_if-Keeps : (all : Bool) → Keeps Holds (show_if all)
  unfolding show_if
  show_if-Keeps true = record { kept = λ s h. h }
  show_if-Keeps false = record { kept = λ s h. h }

  show_result-Keeps :
      (cmd_line : Bytes) (result : Result) → Keeps Holds (show_result fuel env cmd_line result)
  unfolding show_result remember show_history
  show_result-Keeps cmd_line result = bind-Keeps Holds refresh-Keeps (λ _. record {
    kept = λ s h.
        let t = remember cmd_line result s in
        (show_if-Keeps (all_strings t.history)).kept t
          (remembers s.session s.history cmd_line result h);
  })

  or_exit-kept : (r : Outcome Result × Screen) → Holds r.1 → Holds (or_exit r).1
  unfolding or_exit
  or_exit-kept (ok r, s) h = h
  or_exit-kept (raise e, s) h = h
  or_exit-kept (no_return, s) h = h

  run_line-Keeps : (cmd_line : Bytes) → Keeps Holds (run_line fuel env cmd_line)
  unfolding run_line on_session
  run_line-Keeps cmd_line = record {
    kept = λ s h.
        or_exit-kept (on_session (process_command fuel env cmd_line) s)
          ((commands s.history cmd_line).kept s.session h);
  }

  pub press_enter-Keeps : Keeps Holds (press_enter fuel env)
  unfolding press_enter
  press_enter-Keeps = record {
    kept = λ s h.
        (bind-Keeps Holds (run_line-Keeps (strip s.edit_text))
            (show_result-Keeps (strip s.edit_text))).kept
          s h;
  }

  press_with-Keeps : (command : Option Bytes) → Keeps Holds (press_with fuel env command)
  unfolding press_with
  press_with-Keeps none = lift-Keeps Holds (ok true)
  press_with-Keeps (some command) =
      bind-Keeps Holds (modify-Keeps Holds (λ s. record s { edit_text = command }) (λ s h. h))
        (λ _. bind-Keeps Holds press_enter-Keeps (λ _. lift-Keeps Holds (ok true)))

  keypress-Keeps : (event : Event) → Keeps Holds (keypress fuel env event)
  unfolding keypress handle_global_input set_edit_text
  keypress-Keeps (edited edit_text) =
      modify-Keeps Holds (λ s. record s { edit_text = edit_text }) (λ s h. h)
  keypress-Keeps enter = press_enter-Keeps
  keypress-Keeps (unhandled key) =
      bind-Keeps Holds (press_with-Keeps (key_command key)) (λ _. lift-Keeps Holds (ok tt))

  pub run_events-Keeps : (events : List Event) → Keeps Holds (run_events fuel env events)
  unfolding run_events
  run_events-Keeps [] = record { kept = λ s h. h }
  run_events-Keeps (event ∷ events) =
      bind-Keeps Holds (keypress-Keeps event) (λ _. run_events-Keeps events)
