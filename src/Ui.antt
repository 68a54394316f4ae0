-- ===== src/Ui.antt =====
-- The terminal interface of host/ui.py without its widgets: the log, the command line with its history, and the
-- views. A widget is the text that was last set.
pub mod Log
pub mod History
pub mod Kept
pub mod Layout
pub mod Keys
pub mod Sound
pub mod Tuples
use cwdbg.Base.{
  ℕ, ◌+◌, ◌-◌, Bool, true, false, not, List, [], ◌∷◌, ◌++◌, Option, none, some, Bytes, text,
  eq_text, concat, strip, ltb, if◌then◌else◌, length, drop, Exn, Outcome, ok, raise, no_return,
  Exec, pure, get, modify, throw, lift, check, ◌>>=◌, ◌>>◌, type_error, quit_debugger,
  exit_main_loop, chain,
}
use cwdbg.Target.{TargetInfo}
use cwdbg.Debugger.{Debugger, current_target}
use cwdbg.Debugger.Status.{get_status_str, get_register_view, get_stack_view}
use cwdbg.Debugger.Frames.{get_call_stack_view}
use cwdbg.Debugger.Disassembly.{get_disasm_view}
use cwdbg.Debugger.Source.{get_source_view}
use cwdbg.Cli.{Environment, Reply, message, failed}
use cwdbg.Cli.Process.{Session, Result, value, with_none, process_command}

abbrev pub input_widget_height : ℕ
input_widget_height = 15

-- What is put into the history: a string, whole or with the message of an exception, or a tuple.
pub data HistoryItem : Type 0 where
  string : Reply → HistoryItem
  tuple : Reply → HistoryItem

pub record Screen : Type 0 where
  pub session : Session
  pub edit_text : Bytes
  pub history : List HistoryItem
  pub caption : List HistoryItem
  pub status_line : Bytes
  pub source_view : List Bytes
  pub register_view : List Bytes
  pub disasm_view : List Bytes
  pub stack_view : List Bytes
  pub call_stack_view : List Bytes

unfoldable pub on_session : {A : Type 0} → Exec Session A → Exec Screen A
on_session m s = let r = m s.session in (r.0, record s { session = r.1 })

unfoldable pub on_debugger : {A : Type 0} → Exec Debugger A → Exec Screen A
unfolding on_session
on_debugger m = on_session λ s. let r = m s.dbg in (r.0, record s { dbg = r.1 })

unfoldable pub status_text : Bytes → Bytes
unfolding concat
status_text status = concat (
    text "F5 = continue, F10 = next, F11 = step, Shift + F10 = nexti, Shift + F11 = stepi    "
    ∷ text "Status: * "
    ∷ status
    ∷ text " *"
    ∷ [])

unfoldable pub stored :
    {A : Type 0} → (A → Screen → Screen) → Outcome A × Screen → Outcome (Unit {0}) × Screen
stored set (ok a, s) = (ok tt, set a s)
stored set (raise e, s) = (raise e, s)
stored set (no_return, s) = (no_return, s)

-- A call whose value is set in a widget.
unfoldable pub set_from :
    {A : Type 0} → Exec Debugger A → (A → Screen → Screen) → Exec Screen (Unit {0})
unfolding stored on_debugger
set_from m set s = stored set (on_debugger m s)

unfoldable pub current_status : Exec Debugger Bytes
unfolding current_target get_status_str
current_status = current_target >>= λ info. lift (get_status_str info)

abbrev pub set_status_line : Bytes → Screen → Screen
set_status_line status s = record s { status_line = status_text status }

unfoldable pub update_status_line : Exec Screen (Unit {0})
unfolding set_from current_status status_text
update_status_line = set_from current_status set_status_line

unfoldable pub set_source_view : TargetInfo → List Bytes → Screen → Screen
unfolding get_register_view
set_source_view info view s = record s {
  source_view = view;
  register_view = get_register_view info;
}

unfoldable pub set_disasm_view : TargetInfo → List Bytes → Screen → Screen
unfolding get_stack_view
set_disasm_view info view s = record s { disasm_view = view; stack_view = get_stack_view info }

unfoldable pub set_call_stack_view : List Bytes → Screen → Screen
set_call_stack_view view s = record s { call_stack_view = view }

unfoldable pub show_source : Environment → TargetInfo → Exec Screen (Unit {0})
unfolding set_from set_source_view get_source_view
show_source env info =
    set_from (get_source_view env.is_darwin env.read_lines info) (set_source_view info)

unfoldable pub show_disasm : Environment → TargetInfo → Exec Screen (Unit {0})
unfolding set_from set_disasm_view get_disasm_view
show_disasm env info = set_from (get_disasm_view env.disasm info) (set_disasm_view info)

unfoldable pub show_call_stack : ℕ → Exec Screen (Unit {0})
unfolding set_from set_call_stack_view get_call_stack_view
show_call_stack fuel = set_from (get_call_stack_view fuel) set_call_stack_view

-- The views are set one after the other, those in front of one that raises too.
unfoldable pub show_views : ℕ → Environment → TargetInfo → Exec Screen (Unit {0})
unfolding show_source show_disasm show_call_stack
show_views fuel env info = show_source env info >> (show_disasm env info >> show_call_stack fuel)

unfoldable pub update_views : ℕ → Environment → Exec Screen (Unit {0})
unfolding on_debugger current_target show_views
update_views fuel env = on_debugger current_target >>= λ info. show_views fuel env info

-- `if result: self._history.append(result)`; an empty string counts as nothing.
unfoldable pub items_of : Result → List HistoryItem
items_of (value none) = []
items_of (value (some (message []))) = []
items_of (value (some reply)) = string reply ∷ []
items_of (with_none reply) = tuple reply ∷ []

-- The items that are kept: as many of the last ones as there are lines.
unfoldable pub shortened : List HistoryItem → List HistoryItem
shortened items =
    if ltb input_widget_height (length items)
    then drop (length items - input_widget_height) items
    else items

unfoldable pub remember : Bytes → Result → Screen → Screen
unfolding items_of shortened
remember cmd_line result s = record s {
  history =
      shortened ((s.history ++ string (message (text "> " ++ cmd_line)) ∷ []) ++ items_of result);
}

-- `'\n'.join(…)` raises for an item that is no string.
unfoldable pub all_strings : List HistoryItem → Bool
all_strings [] = true
all_strings (string reply ∷ items) = all_strings items
all_strings (tuple reply ∷ items) = false

unfoldable pub show_if : Bool → Exec Screen (Unit {0})
show_if true s = (ok tt, record s { caption = s.history; edit_text = [] })
show_if false s = (raise type_error, s)

unfoldable pub show_history : Exec Screen (Unit {0})
unfolding all_strings show_if
show_history s = show_if (all_strings s.history) s

-- Quitting ends the main loop.
unfoldable pub exit_for : Exn → Exn
exit_for quit_debugger = exit_main_loop
exit_for e = e

unfoldable pub or_exit : Outcome Result × Screen → Outcome Result × Screen
unfolding exit_for
or_exit (ok r, s) = (ok r, s)
or_exit (raise e, s) = (raise (exit_for e), s)
or_exit (no_return, s) = (no_return, s)

unfoldable pub has_target : Screen → Bool
has_target s = elim s.session.dbg.target_info [ none ↦ false | some _ ↦ true ]

unfoldable pub refresh_if : ℕ → Environment → Bool → Exec Screen (Unit {0})
unfolding update_status_line update_views
refresh_if fuel env true = update_status_line >> update_views fuel env
refresh_if fuel env false = pure tt

-- `if dbg.target_info:`
unfoldable pub refresh : ℕ → Environment → Exec Screen (Unit {0})
unfolding has_target refresh_if
refresh fuel env s = refresh_if fuel env (has_target s) s

unfoldable pub run_line : ℕ → Environment → Bytes → Exec Screen Result
unfolding on_session or_exit process_command
run_line fuel env cmd_line s = or_exit (on_session (process_command fuel env cmd_line) s)

-- What is done with the result: the views come first.
unfoldable pub show_result : ℕ → Environment → Bytes → Result → Exec Screen (Unit {0})
unfolding refresh remember show_history
show_result fuel env cmd_line result =
    refresh fuel env >> (modify (remember cmd_line result) >> show_history)

-- `CommandInput.keypress` for the key `enter`.
unfoldable pub press_enter : ℕ → Environment → Exec Screen (Unit {0})
unfolding strip run_line show_result
press_enter fuel env s =
    (run_line fuel env (strip s.edit_text) >>= show_result fuel env (strip s.edit_text)) s

-- The command of a function key.
unfoldable pub key_command : Bytes → Option Bytes
unfolding eq_text
key_command key =
    if eq_text key (text "f5")
    then some (text "cont")
    else if eq_text key (text "f10")
    then some (text "next")
    else if eq_text key (text "f11")
    then some (text "step")
    else if eq_text key (text "shift f10")
    then some (text "nexti")
    else if eq_text key (text "shift f11")
    then some (text "stepi")
    else none

unfoldable pub press_with : ℕ → Environment → Option Bytes → Exec Screen Bool
unfolding press_enter
press_with fuel env none = pure true
press_with fuel env (some command) = do
  modify (λ (s : Screen). record s { edit_text = command })
  press_enter fuel env
  pure true

-- `_handle_global_input`
unfoldable pub handle_global_input : ℕ → Environment → Bytes → Exec Screen Bool
unfolding press_with key_command
handle_global_input fuel env key = press_with fuel env (key_command key)
