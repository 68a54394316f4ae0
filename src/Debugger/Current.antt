-- ===== src/Debugger/Current.antt =====
-- The target that the debugger has, as the first step of a call.
use cwdbg.Base.{
  ◌≡◌, sym, ap, some, required, required-eq-ok, ok, proceed, Exec, ◌>>=◌, attribute_error,
}
use cwdbg.Target.{TargetInfo}
use cwdbg.Debugger.{Debugger, current_target}

pub current_target_known :
    {B : Type 0} (dbg : Debugger) (info : TargetInfo) (f : TargetInfo → Exec Debugger B)
    → dbg.target_info ≡ some info
    → (current_target >>= f) dbg ≡ f info dbg
unfolding current_target
current_target_known dbg info f known =
    ap (λ o. proceed (required attribute_error o) f dbg) {x = dbg.target_info} {y = some info} known

pub current_target-eq-ok :
    (dbg u : Debugger) (info : TargetInfo)
    → current_target dbg ≡ (ok info, u)
    → (dbg.target_info ≡ some info) × (u ≡ dbg)
unfolding current_target
current_target-eq-ok dbg u info h =
    (required-eq-ok attribute_error dbg.target_info (λ i. (h i).0), sym (λ i. (h i).1))
