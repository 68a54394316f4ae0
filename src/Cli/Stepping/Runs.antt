-- ===== src/Cli/Stepping/Runs.antt =====
-- Stepping by lines as a relation: which sequences of instructions the loops of `_execute_one_line` and
-- `_execute_until_next_line` go through.
use cwdbg.Base.{
  ℕ, zero, suc, ◌+◌, ◌≤◌, ◌<◌, ◌≡◌, ◌⊎◌, inl, inr, ap, sym, ◌∙◌, Bool, true, false, some, arith, ok,
  subst, Exec, ◌>>=◌, bind-eq-ok,
}
use native.Mathlib.Decide.{dec_lt}
use cwdbg.Target.{TargetInfo}
use cwdbg.Debugger.{Debugger, current_target}
use cwdbg.Debugger.Current.{current_target_known, current_target-eq-ok}
use cwdbg.Debugger.Location.{pc_offset}
use cwdbg.Cli.Stepping.{
  in_range, next_range, line_range, current_line_range, execute_if, execute_line,
  execute_current_line,
}

-- The PC is in the range of a line, given by offsets from the start of the program, or not.
abbrev pub IsWithin : ℕ × ℕ → TargetInfo → Type 0
IsWithin range info =
    (range.0 + info.initial_pc ≤ info.task_context.reg_pc)
    × (info.task_context.reg_pc < range.1 + info.initial_pc)

abbrev pub IsOutside : ℕ × ℕ → TargetInfo → Type 0
IsOutside range info =
    (info.task_context.reg_pc < range.0 + info.initial_pc)
    ⊎ (range.1 + info.initial_pc ≤ info.task_context.reg_pc)

in_range-IsWithin :
    (range : ℕ × ℕ) (info : TargetInfo)
    → IsWithin range info
    → in_range range (pc_offset info) ≡ true
unfolding in_range pc_offset
in_range-IsWithin (first, last) info (lo, hi) = ground arith

in_range-IsOutside :
    (range : ℕ × ℕ) (info : TargetInfo)
    → IsOutside range info
    → in_range range (pc_offset info) ≡ false
unfolding in_range pc_offset
in_range-IsOutside (first, last) info (inl lo) = ground arith
in_range-IsOutside (first, last) info (inr hi) = ground arith

in_range_cases :
    (range : ℕ × ℕ) (info : TargetInfo)
    → ((in_range range (pc_offset info) ≡ true) × IsWithin range info)
      ⊎ ((in_range range (pc_offset info) ≡ false) × IsOutside range info)
in_range_cases range info = elim (dec_lt info.task_context.reg_pc (range.0 + info.initial_pc)) [
  | yes lo ↦ inr (in_range-IsOutside range info (inl lo), inl lo)
  | no lo ↦ elim (dec_lt info.task_context.reg_pc (range.1 + info.initial_pc)) [
    | yes hi ↦
        let within : IsWithin range info = (omega arith, hi) in
        inl (in_range-IsWithin range info within, within)
    | no hi ↦
        let out : IsOutside range info = inr (omega arith) in
        inr (in_range-IsOutside range info out, out)
  ]
]

module _ (round : TargetInfo → Exec Debugger Bool) where
  -- The rounds from a state of the debugger on, for the range of the line that the target is in: how many, and
  -- the range and the state at the end.
  pub data Rounds : ℕ → ℕ × ℕ → Debugger → ℕ × ℕ → Debugger → Type 0 where
    -- The PC has left the line.
    left :
        {range : ℕ × ℕ} {dbg : Debugger} {info : TargetInfo}
        → dbg.target_info ≡ some info
        → IsOutside range info
        → Rounds 0 range dbg range dbg
    -- An instruction of the line is executed, which is no RTS.
    round_by :
        {n : ℕ} {range last : ℕ × ℕ} {dbg dbg' end : Debugger} {info : TargetInfo}
        → dbg.target_info ≡ some info
        → IsWithin range info
        → round info dbg ≡ (ok false, dbg')
        → Rounds n range dbg' last end
        → Rounds (suc n) range dbg last end
    -- Behind an RTS the line is the one that the PC is in then.
    return_by :
        {n : ℕ} {range range' last : ℕ × ℕ} {dbg dbg' end : Debugger} {info : TargetInfo}
        → dbg.target_info ≡ some info
        → IsWithin range info
        → round info dbg ≡ (ok true, dbg')
        → line_range dbg'.program dbg'.target_info ≡ ok range'
        → Rounds n range' dbg' last end
        → Rounds (suc n) range dbg last end

  -- One round of the loop, within the line.
  execute_line-suc :
      (fuel : ℕ) (range : ℕ × ℕ) (dbg : Debugger) (info : TargetInfo) (within : Bool)
      → dbg.target_info ≡ some info
      → in_range range (pc_offset info) ≡ within
      → execute_line round (suc fuel) range dbg
        ≡ execute_if (round info) (execute_line round fuel) range within dbg
  unfolding execute_line
  execute_line-suc fuel range dbg info within known h =
      current_target_known dbg info
        (λ info.
          execute_if (round info) (execute_line round fuel) range (in_range range (pc_offset info)))
        known
      ∙ ap (λ w. execute_if (round info) (execute_line round fuel) range w dbg) h

  -- The loop ends, with the state at the end of the rounds, if there is fuel for one round more than there are.
  pub execute_line-Rounds :
      (fuel n : ℕ) (range last : ℕ × ℕ) (dbg end : Debugger)
      → Rounds n range dbg last end
      → n < fuel
      → execute_line round fuel range dbg ≡ (ok tt, end)
  unfolding execute_if next_range current_line_range
  execute_line-Rounds zero n range last dbg end r h = absurd (omega arith)
  execute_line-Rounds (suc fuel) _ range _ dbg _ (left {info = info} known out) h =
      execute_line-suc fuel range dbg info false known (in_range-IsOutside range info out)
  execute_line-Rounds (suc fuel) _ range last dbg end
        (round_by {n = n} {dbg' = dbg'} {info = info} known within executed r) h =
      execute_line-suc fuel range dbg info true known (in_range-IsWithin range info within)
      ∙ rw executed (execute_line-Rounds fuel n range last dbg' end r (omega arith))
  execute_line-Rounds (suc fuel) _ range last dbg end
        (return_by {n = n} {range' = range'} {dbg' = dbg'} {info = info} known within executed next
          r)
        h =
      execute_line-suc fuel range dbg info true known (in_range-IsWithin range info within)
      ∙ rw executed (rw next (execute_line-Rounds fuel n range' last dbg' end r (omega arith)))

  -- What the state is when the rounds are over.
  Rounds-left :
      {n : ℕ} {range last : ℕ × ℕ} {dbg end : Debugger}
      → Rounds n range dbg last end
      → (info : TargetInfo) × (end.target_info ≡ some info) × IsOutside last info
  Rounds-left (left {info = info} known out) = (info, known, out)
  Rounds-left (round_by known within executed r) = Rounds-left r
  Rounds-left (return_by known within executed next r) = Rounds-left r

  -- What is left of the loop behind one instruction.
  next-eq-ok :
      (fuel : ℕ) (range : ℕ × ℕ) (dbg u end : Debugger) (info : TargetInfo)
      → ((range : ℕ × ℕ) (dbg : Debugger)
          → execute_line round fuel range dbg ≡ (ok tt, end)
          → (n : ℕ) × (last : ℕ × ℕ) × Rounds n range dbg last end × (n < fuel))
      → dbg.target_info ≡ some info
      → IsWithin range info
      → (returned : Bool) → round info dbg ≡ (ok returned, u)
      → (next_range returned range >>= execute_line round fuel) u ≡ (ok tt, end)
      → (n : ℕ) × (last : ℕ × ℕ) × Rounds n range dbg last end × (n < suc fuel)
  unfolding next_range current_line_range
  next-eq-ok fuel range dbg u end info more known within false executed h =
      let (n, last, rounds, few) = more range u h in
      (suc n, last, round_by known within executed rounds, omega arith)
  next-eq-ok fuel range dbg u end info more known within true executed h =
      let (range', v, next, h') = bind-eq-ok current_line_range (execute_line round fuel) u h in
      let same : v ≡ u = sym (λ i. (next i).1) in
      let (n, last, rounds, few) = more range' v h' in
      (
        suc n,
        last,
        return_by known within executed (λ i. (next i).0)
            (subst (λ d. Rounds n range' d last end) same rounds),
        omega arith,
      )

  -- Where the loop ends without an exception, it went through rounds, fewer than there is fuel.
  pub execute_line-eq-ok :
      (fuel : ℕ) (range : ℕ × ℕ) (dbg end : Debugger)
      → execute_line round fuel range dbg ≡ (ok tt, end)
      → (n : ℕ) × (last : ℕ × ℕ) × Rounds n range dbg last end × (n < fuel)
  unfolding execute_line execute_if
  execute_line-eq-ok zero range dbg end h = cc
  execute_line-eq-ok (suc fuel) range dbg end h =
      let (info, u, found, h') =
        bind-eq-ok current_target
          (λ info.
            execute_if (round info) (execute_line round fuel) range
              (in_range range (pc_offset info)))
          dbg h in
      let (known, same) = current_target-eq-ok dbg u info found in
      elim (in_range_cases range info) [
        | inl (w, within) ↦
            let h'' = sym (execute_line-suc fuel range dbg info true known w) ∙ h in
            let (returned, v, executed, rest) =
              bind-eq-ok (round info)
                (λ returned. next_range returned range >>= execute_line round fuel) dbg h'' in
            next-eq-ok fuel range dbg v end info
              (λ range dbg. execute_line-eq-ok fuel range dbg end) known within returned executed
              rest
        | inr (w, out) ↦
            let h'' = sym (execute_line-suc fuel range dbg info false known w) ∙ h in
            (
              0,
              range,
              subst (λ d. Rounds 0 range dbg range d) {x = dbg} {y = end} (λ i. (h'' i).1)
                  (left known out),
              omega arith,
            )
      ]

  -- When stepping by a line succeeds, the debug information knew the line that the PC was in, and the target went
  -- through rounds that begin with the addresses of that line: while the PC is at an address from the first of the line
  -- on and in front of the last, an instruction is executed, and behind an RTS the line is the one that the PC is in
  -- then. There were fewer rounds than units of fuel, and the target has stopped outside of the last line.
  pub execute_current_line-left :
      (fuel : ℕ) (dbg end : Debugger)
      → execute_current_line round fuel dbg ≡ (ok tt, end)
      → (first : ℕ × ℕ) × (n : ℕ) × (last : ℕ × ℕ) × (info : TargetInfo) × (line_range dbg.program
            dbg.target_info
          ≡ ok first)
        × Rounds n first dbg last end
        × (n < fuel)
        × (end.target_info ≡ some info)
        × IsOutside last info
  unfolding execute_current_line current_line_range
  execute_current_line-left fuel dbg end h =
      let (first, u, found, h') = bind-eq-ok current_line_range (execute_line round fuel) dbg h in
      let (n, last, rounds, few) = execute_line-eq-ok fuel first u end h' in
      let same : u ≡ dbg = sym (λ i. (found i).1) in
      let (info, known, out) = Rounds-left rounds in
      (
        first,
        n,
        last,
        info,
        λ i. (found i).0,
        subst (λ d. Rounds n first d last end) same rounds,
        few,
        known,
        out,
      )
