-- ===== src/Cli/Execute/Backtrace.antt =====
-- The command `backtrace` of host/cli.py against the view of the call stack of host/target.py, which repeats its
-- code.
use cwdbg.Base.{
  ℕ, suc, ◌≡◌, refl, sym, ap, ◌∙◌, subst, Bool, true, false, List, [], ◌∷◌, ◌++◌, Option, none,
  some, Bytes, arith, concat, text, decimal, address_text, append_assoc, append-nil, ℤ, Outcome, ok,
  raise, no_return, lift, chain, ◌>>=◌, bind-eq-ok, bind-ok, chain-eq-ok,
}
use cwdbg.Stabs.Program.{ProgramWithDebugInfo}
use cwdbg.Server.{ServerConnection}
use cwdbg.Target.{TargetInfo}
use cwdbg.Target.CallStack.{StackFrame, get_call_stack}
use cwdbg.Debugger.{Debugger, current_target, is_running, has_flag, on_server_conn}
use cwdbg.Debugger.Current.{current_target_known, current_target-eq-ok}
use cwdbg.Debugger.Location.{comp_unit_at, lineno_at}
use cwdbg.Cli.Frames.{
  backtrace_offset, backtrace_lineno, backtrace_place, backtrace_frame, backtrace_text,
}
use cwdbg.Debugger.Frames.{
  frame_offset, lineno_text, frame_place, frame_line, frame_lines, or_not_available,
  get_call_stack_view, frames_view,
}
use cwdbg.Cli.{Reply, message}
use cwdbg.Cli.Execute.{execute_backtrace, shown_frames}

get_call_stack_stopped :
    (fuel : ℕ) (info : TargetInfo) (conn : ServerConnection)
    → is_running info ≡ false
    → get_call_stack fuel info conn ≡ (ok [], conn)
unfolding is_running has_flag get_call_stack
get_call_stack_stopped fuel info conn h = ground arith

module _ (fuel : ℕ) (info : TargetInfo) (program : Option ProgramWithDebugInfo) (dbg v : Debugger)
    (frames : List StackFrame) (lines : List Bytes)
    (called : on_server_conn (get_call_stack fuel info) dbg ≡ (ok frames, v))
    (shown : frame_lines program info.initial_pc 0 frames ≡ ok lines) where
  stopped : is_running info ≡ false → (frames ≡ []) × (dbg ≡ v)
  stopped e =
      let none_left : on_server_conn (get_call_stack fuel info) dbg ≡ (ok [], dbg) =
        rw (get_call_stack_stopped fuel info dbg.server_conn e) refl in
      let both : ◌≡◌ {A = Outcome (List StackFrame) × Debugger} (ok frames, v) (ok [], dbg) =
        sym called ∙ none_left in
      (cc, sym (λ i. (both i).1))

  frames_view-lines :
      (running : Bool)
      → is_running info ≡ running
      → frames_view fuel info program running dbg ≡ (ok (or_not_available lines), v)
  unfolding frames_view frame_lines or_not_available
  frames_view-lines true e =
      bind-ok (on_server_conn (get_call_stack fuel info))
        (λ frames. lift (
          chain (frame_lines program info.initial_pc 0 frames)
            λ lines. ok (or_not_available lines)))
        dbg called
      ∙ rw shown refl
  frames_view-lines false e =
      let (empty, same) = stopped e in
      let nothing : frame_lines program info.initial_pc 0 frames ≡ ok [] = rw empty refl in
      let l : [] ≡ lines = cc in
      subst (λ ls. frames_view fuel info program false dbg ≡ (ok (or_not_available ls), v)) l cc

-- The two copies of the code for one frame agree.
lineno_place :
    (unit : Bytes) (r : Outcome (Option ℕ))
    → chain r (λ lineno. ok (unit ++ (b':' ∷ backtrace_lineno lineno)))
      ≡ chain {A = Bytes × Bytes}
          (chain r (λ lineno. ok (unit, lineno_text lineno)))
          (λ p. ok (p.0 ++ (b':' ∷ p.1)))
unfolding backtrace_lineno lineno_text
lineno_place unit (ok none) = refl
lineno_place unit (ok (some lineno)) = refl
lineno_place unit (raise e) = refl
lineno_place unit no_return = refl

backtrace_place-frame_place :
    (program : ProgramWithDebugInfo) (offset : ℤ) (unit : Option Bytes)
    → backtrace_place program offset unit
      ≡ chain (frame_place program offset unit) (λ p. ok (p.0 ++ (b':' ∷ p.1)))
unfolding backtrace_place frame_place
backtrace_place-frame_place program offset none = refl
backtrace_place-frame_place program offset (some unit) =
    lineno_place unit (lineno_at program offset (some unit))

chain_place :
    (r : Outcome (Bytes × Bytes)) (f : Bytes → Bytes) (g : Bytes × Bytes → Bytes)
    → ((p : Bytes × Bytes) → f (p.0 ++ (b':' ∷ p.1)) ≡ g p)
    → chain (chain r (λ p. ok (p.0 ++ (b':' ∷ p.1)))) (λ place. ok (f place))
      ≡ chain r (λ p. ok (g p))
chain_place (ok p) f g same = ap ok (same p)
chain_place (raise e) f g same = refl
chain_place no_return f g same = refl

chain_unit :
    {A : Type 0} (r : Outcome A) (f g : A → Outcome Bytes)
    → ((a : A) → f a ≡ g a)
    → chain r f ≡ chain r g
chain_unit (ok a) f g same = same a
chain_unit (raise e) f g same = refl
chain_unit no_return f g same = refl

backtrace_frame-frame_line :
    (program : Option ProgramWithDebugInfo) (initial_pc i : ℕ) (frame : StackFrame)
    → backtrace_frame program initial_pc i frame ≡ frame_line program initial_pc i frame
unfolding backtrace_frame frame_line backtrace_offset frame_offset concat
backtrace_frame-frame_line none initial_pc i frame = refl
backtrace_frame-frame_line (some known) initial_pc i frame =
    let offset = frame_offset initial_pc frame.program_counter in
    let end : Bytes = b'\n' ∷ [] in
    chain_unit (comp_unit_at known offset) _ _ (λ unit.
      ap
        (λ r. chain r λ place. ok (
          text "Frame #"
          ++ (decimal i
              ++ (text ": " ++ (address_text frame.program_counter ++ (b' ' ∷ (place ++ end)))))))
        (backtrace_place-frame_place known offset unit)
      ∙ chain_place (frame_place known offset unit) _ _ (λ p.
        ap
          (λ place.
            text "Frame #"
            ++ (decimal i ++ (text ": " ++ (address_text frame.program_counter ++ (b' ' ∷ place)))))
          (append_assoc p.0 (b':' ∷ p.1) end)))

text_of_line :
    (repr : Bytes) (r : Outcome Bytes) (more : Outcome (List Bytes)) (rest : Bytes → Outcome Bytes)
    → ((repr : Bytes) → rest repr ≡ chain more (λ lines. ok (repr ++ concat lines)))
    → chain r (λ line. rest (repr ++ line))
      ≡ chain
          (chain r λ line. chain more λ lines. ok (line ∷ lines))
          (λ lines. ok (repr ++ concat lines))
unfolding concat
text_of_line repr (ok line) (ok lines) rest same =
    same (repr ++ line) ∙ ap ok (append_assoc repr line (concat lines))
text_of_line repr (ok line) (raise e) rest same = same (repr ++ line)
text_of_line repr (ok line) no_return rest same = same (repr ++ line)
text_of_line repr (raise e) more rest same = refl
text_of_line repr no_return more rest same = refl

-- What the command puts together is the lines of the view.
backtrace_text-frame_lines :
    (program : Option ProgramWithDebugInfo) (initial_pc i : ℕ) (repr : Bytes)
    (frames : List StackFrame)
    → backtrace_text program initial_pc i repr frames
      ≡ chain (frame_lines program initial_pc i frames) (λ lines. ok (repr ++ concat lines))
unfolding backtrace_text frame_lines concat
backtrace_text-frame_lines program initial_pc i repr [] = ap ok (sym (append-nil repr))
backtrace_text-frame_lines program initial_pc i repr (frame ∷ frames) =
    ap (λ r. chain r λ line. backtrace_text program initial_pc (suc i) (repr ++ line) frames)
      (backtrace_frame-frame_line program initial_pc i frame)
    ∙ text_of_line repr (frame_line program initial_pc i frame)
        (frame_lines program initial_pc (suc i) frames)
        (λ repr. backtrace_text program initial_pc (suc i) repr frames)
        (λ repr. backtrace_text-frame_lines program initial_pc (suc i) repr frames)

shown_frames-eq-ok :
    (info : TargetInfo) (frames : List StackFrame) (v dbg' : Debugger) (reply : Option Reply)
    → shown_frames info frames v ≡ (ok reply, dbg')
    → (lines : List Bytes) × (frame_lines v.program info.initial_pc 0 frames ≡ ok lines)
      × ((reply ≡ some (message (concat lines))) × (v ≡ dbg'))
unfolding shown_frames
shown_frames-eq-ok info frames v dbg' reply h =
    let (repr, built, put) =
      chain-eq-ok (backtrace_text v.program info.initial_pc 0 [] frames)
        (λ repr. ok (some (message repr))) (λ i. (h i).0) in
    let (lines, shown, same) =
      chain-eq-ok (frame_lines v.program info.initial_pc 0 frames) (λ lines. ok (concat lines))
        (sym (backtrace_text-frame_lines v.program info.initial_pc 0 [] frames) ∙ built) in
    (lines, shown, (cc, λ i. (h i).1))

-- Whenever `backtrace` succeeds, the view of the call stack in the same state shows the same lines, which the
-- command puts together into one text, or that it is not available if there are none; both leave the
-- debugger in the same state.
pub execute_backtrace-view :
    (fuel : ℕ) (dbg dbg' : Debugger) (reply : Option Reply)
    → execute_backtrace fuel dbg ≡ (ok reply, dbg')
    → (lines : List Bytes) × (reply ≡ some (message (concat lines)))
      × (get_call_stack_view fuel dbg ≡ (ok (or_not_available lines), dbg'))
unfolding execute_backtrace get_call_stack_view
execute_backtrace-view fuel dbg dbg' reply h =
    let (info, u, found, h') =
      bind-eq-ok current_target
        (λ info. on_server_conn (get_call_stack fuel info) >>= shown_frames info) dbg h in
    let (known, same) = current_target-eq-ok dbg u info found in
    let (frames, v, called, h'') =
      bind-eq-ok (on_server_conn (get_call_stack fuel info)) (shown_frames info) dbg (
        subst
          (λ d.
            (on_server_conn (get_call_stack fuel info) >>= shown_frames info) d ≡ (ok reply, dbg'))
          same h') in
    let (lines, shown, put) = shown_frames-eq-ok info frames v dbg' reply h'' in
    let kept : dbg.program ≡ v.program = λ i. (called i).1.program in
    (
      lines,
      put.0,
      current_target_known dbg info
            (λ info dbg. frames_view fuel info dbg.program (is_running info) dbg) known
          ∙ frames_view-lines fuel info dbg.program dbg v frames lines called
              (subst (λ p. frame_lines p info.initial_pc 0 frames ≡ ok lines) {x = v.program}
                {y = dbg.program} (sym kept) shown)
              (is_running info) refl
          ∙ ap (λ d. (ok (or_not_available lines), d)) {x = v} {y = dbg'} put.1,
    )
