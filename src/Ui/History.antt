-- ===== src/Ui/History.antt =====
-- The history of the command line in host/ui.py: its length, and results that are tuples.
use cwdbg.Base.{ℕ, zero, suc, ◌-◌, ◌≤◌, ◌≡◌, List, [], ◌∷◌, ◌++◌, text, arith, length, drop}
use cwdbg.Cli.{Environment, message}
use cwdbg.Ui.Kept.{press_enter-Keeps}
use cwdbg.Ui.{Screen, HistoryItem, string, input_widget_height, press_enter, shortened, items_of}

length-drop {ℓ} : {A : Type ℓ} (n : ℕ) (xs : List A) → length (drop n xs) ≡ length xs - n
length-drop zero xs = omega arith
length-drop (suc n) [] = omega arith
length-drop (suc n) (x ∷ xs) = omega (arith, length-drop n xs)

pub length-shortened : (items : List HistoryItem) → length (shortened items) ≤ input_widget_height
unfolding shortened
length-shortened items = ground (arith, length-drop (length items - input_widget_height) items)

-- The history keeps at most 15 entries, whatever is typed and whatever the command and the views come to, errors
-- included.
pub press_enter-history :
    (fuel : ℕ) (env : Environment) (s : Screen)
    → length s.history ≤ input_widget_height
    → length (press_enter fuel env s).1.history ≤ input_widget_height
press_enter-history fuel env s h =
    (press_enter-Keeps (λ session items. length items ≤ input_widget_height)
        (λ session items command new. record { kept = λ d short. short }) fuel env
        (λ items cmd_line. record { kept = λ session short. short })
        (λ session items cmd_line result short.
          length-shortened
            ((items ++ string (message (text "> " ++ cmd_line)) ∷ []) ++ items_of result))).kept
      s h
