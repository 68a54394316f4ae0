-- ===== src/Ui/Sound.antt =====
-- The event loop of host/ui.py: the session under it, and the history.
use cwdbg.Base.{ℕ, ◌≤◌, List, [], ◌∷◌, ◌++◌, text, arith, length, Keeps}
use cwdbg.Cli.{Environment, message}
use cwdbg.Cli.Sound.{exchange-Keeps}
use cwdbg.Cli.Process.Sound.{IsSoundSession, process_command_sound}
use cwdbg.Ui.{Screen, string, input_widget_height, items_of}
use cwdbg.Ui.Keys.{Event, new_screen, run_events, main_screen}
use cwdbg.Ui.Kept.{run_events-Keeps}
use cwdbg.Ui.History.{length-shortened}

abbrev pub IsSoundScreen : Screen → Type 0
IsSoundScreen s = IsSoundSession s.session × (length s.history ≤ input_widget_height)

-- Whatever keys are pressed and whatever they come to, errors included: if the frames that were sent are messages of
-- known types whose fields fit, the chunks that come in are bytes, the state of the target, if there is one, has the
-- layout of the structure, and the history has at most 15 entries, then all this is so afterwards.
pub run_events_sound :
    (fuel : ℕ) (env : Environment) (events : List Event) (s : Screen)
    → IsSoundScreen s
    → IsSoundScreen (run_events fuel env events s).1
run_events_sound fuel env events s h =
    (run_events-Keeps
        (λ session items. IsSoundSession session × (length items ≤ input_widget_height))
        (λ session items command new. record {
          kept = λ d k. ((exchange-Keeps command new).kept d k.0, k.1);
        })
        fuel env
        (λ items cmd_line. record {
          kept = λ session k. ((process_command_sound fuel env cmd_line).kept session k.0, k.1);
        })
        (λ session items cmd_line result k. (
          k.0,
          length-shortened
              ((items ++ string (message (text "> " ++ cmd_line)) ∷ []) ++ items_of result),
        ))
        events).kept
      s h

pub main_screen_sound :
    (fuel : ℕ) (env : Environment) (events : List Event)
    → Keeps IsSoundSession (main_screen fuel env events)
unfolding main_screen new_screen
main_screen_sound fuel env events = record {
  kept = λ session h. (run_events_sound fuel env events (new_screen session) (h, omega arith)).0;
}
