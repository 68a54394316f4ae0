-- ===== src/Debugger/Location.antt =====
-- The look-ups of host/stabslib.py at the offset of an address from the entry point of the program,
-- which is negative for an address in front of it.
use cwdbg.Base.{
  ℕ, Option, none, Bytes, ◌==◌, if◌then◌else◌, ℤ, pos, negsuc, difference, Outcome, ok, raise,
  no_return, assertion_error,
}
use cwdbg.Stabs.Types.{n_so}
use cwdbg.Stabs.Nodes.{Nodes, nil, cons, children, info}
use cwdbg.Stabs.Program.{
  ProgramWithDebugInfo, chosen_unit, get_comp_unit_for_addr, get_lineno_for_addr,
}
use cwdbg.Target.{TargetInfo}

-- No start address is negative, so no child holds a negative address; a child that is not a compilation
-- unit raises.
unfoldable pub no_unit : Nodes → Outcome (Option Bytes)
no_unit nil = ok none
no_unit (cons child rest) =
    let others = no_unit rest in if (info child).type == n_so then others else raise assertion_error

unfoldable pub comp_unit_at : ProgramWithDebugInfo → ℤ → Outcome (Option Bytes)
unfolding no_unit
comp_unit_at p (pos offset) = get_comp_unit_for_addr p offset
comp_unit_at p (negsuc n) = no_unit (children p.program_tree)

unfoldable pub no_line : Outcome Bytes → Outcome (Option ℕ)
no_line (ok unit) = ok none
no_line (raise e) = raise e
no_line no_return = no_return

unfoldable pub lineno_at : ProgramWithDebugInfo → ℤ → Option Bytes → Outcome (Option ℕ)
unfolding no_line
lineno_at p (pos offset) comp_unit = get_lineno_for_addr p offset comp_unit
lineno_at p (negsuc n) comp_unit = no_line (chosen_unit p.addresses_by_lineno comp_unit)

-- `task_context.reg_pc - initial_pc`
unfoldable pub pc_offset : TargetInfo → ℤ
pc_offset info = difference info.task_context.reg_pc info.initial_pc
