-- ===== src/Ui/Tuples.antt =====
-- What the command line of host/ui.py does with the tuples that `process_command` returns for errors.
use cwdbg.Base.{
  ℕ, zero, suc, ◌-◌, ◌≤◌, ◌≡◌, ◌≢◌, refl, ap, ◌∙◌, false, List, [], ◌∷◌, ◌++◌, Bytes, text, arith,
  strip, length, drop, length-append, ok, raise, ◌>>◌, modify, bind-eq-ok, subst, type_error,
}
use cwdbg.Cli.{Environment, Reply, message}
use cwdbg.Cli.Process.{Session, Result, with_none, process_command}
use cwdbg.Ui.{
  Screen, HistoryItem, string, tuple, press_enter, refresh, run_line, or_exit, show_history,
  show_if, remember, shortened, items_of, all_strings, on_session, show_result,
}

all_strings-tuple :
    (items : List HistoryItem) (reply : Reply) → all_strings (items ++ tuple reply ∷ []) ≡ false
unfolding all_strings
all_strings-tuple [] reply = refl
all_strings-tuple (string r ∷ items) reply = all_strings-tuple items reply
all_strings-tuple (tuple r ∷ items) reply = refl

drop-append_le :
    (n : ℕ) (xs ys : List HistoryItem) → n ≤ length xs → drop n (xs ++ ys) ≡ drop n xs ++ ys
drop-append_le zero xs ys h = refl
drop-append_le (suc n) [] ys h = absurd (omega arith)
drop-append_le (suc n) (x ∷ xs) ys h = drop-append_le n xs ys (omega arith)

-- The last item is always kept.
all_strings-shortened :
    (items : List HistoryItem) (reply : Reply)
    → all_strings (shortened (items ++ tuple reply ∷ [])) ≡ false
unfolding shortened
all_strings-shortened items reply =
    let n = length (items ++ tuple reply ∷ []) - 15 in
    let len = length-append items (tuple reply ∷ []) in
    let few : n ≤ length items = omega (arith, len) in
    let cut : all_strings (drop n (items ++ tuple reply ∷ [])) ≡ false =
      ap all_strings (drop-append_le n items (tuple reply ∷ []) few)
      ∙ all_strings-tuple (drop n items) reply in
    ground (arith, cut, all_strings-tuple items reply)

show_history_tuple :
    (cmd_line : Bytes) (reply : Reply) (s : Screen)
    → show_history (remember cmd_line (with_none reply) s)
      ≡ (raise type_error, remember cmd_line (with_none reply) s)
unfolding show_history show_if remember items_of
show_history_tuple cmd_line reply s =
    rw (all_strings-shortened (s.history ++ string (message (text "> " ++ cmd_line)) ∷ []) reply)
      refl

show_result_tuple :
    (fuel : ℕ) (env : Environment) (cmd_line : Bytes) (reply : Reply) (s t : Screen)
    → show_result fuel env cmd_line (with_none reply) s ≢ (ok tt, t)
unfolding show_result
show_result_tuple fuel env cmd_line reply s t p =
    let (_, u, _, shown) =
      bind-eq-ok {A = Unit {0}} (refresh fuel env)
        (λ _. modify (remember cmd_line (with_none reply)) >> show_history) s p in
    cc (show_history_tuple cmd_line reply u)

run_line_ok :
    (fuel : ℕ) (env : Environment) (cmd_line : Bytes) (s : Screen) (result : Result)
    (session : Session)
    → process_command fuel env cmd_line s.session ≡ (ok result, session)
    → run_line fuel env cmd_line s ≡ (ok result, record s { session = session })
unfolding run_line on_session or_exit
run_line_ok fuel env cmd_line s result session h = rw h refl

-- The key does not do its work, whatever the views come to, when `process_command` returns a tuple, as it does for a
-- command that is refused, unknown or a call for help: the history then cannot be joined.
pub press_enter_tuple :
    (fuel : ℕ) (env : Environment) (s : Screen) (reply : Reply) (session : Session) (t : Screen)
    → process_command fuel env (strip s.edit_text) s.session ≡ (ok (with_none reply), session)
    → press_enter fuel env s ≢ (ok tt, t)
unfolding press_enter
press_enter_tuple fuel env s reply session t h p =
    let (result, u, ran, shown) =
      bind-eq-ok (run_line fuel env (strip s.edit_text)) (show_result fuel env (strip s.edit_text))
        s p in
    let same : result ≡ with_none reply =
      cc (run_line_ok fuel env (strip s.edit_text) s (with_none reply) session h, ran) in
    show_result_tuple fuel env (strip s.edit_text) reply u t
      (subst (λ r. show_result fuel env (strip s.edit_text) r u ≡ (ok tt, t)) same shown)
