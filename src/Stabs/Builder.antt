-- ===== src/Stabs/Builder.antt =====
-- `ProgramTreeBuilder` of host/stabslib.py: the loop of `_build_subtree`, and `build`. Each round of the
-- loop and each call of `_build_subtree` takes a unit of fuel.
pub mod State
pub mod Lines
pub mod Branches
pub mod Below
pub mod Rounds
pub mod Total
use cwdbg.Base.{
  ℕ, zero, suc, ◌+◌, ◌*◌, Bool, true, false, not, ◌&&◌, ◌||◌, List, [], ◌∷◌, ◌++◌, Option, none,
  some, Bytes, ◌==◌, ltb, if◌then◌else◌, length, Dict, lookup, insert, nat_key, text_key, Outcome,
  ok, raise, no_return, Exec, pure, throw, get, modify, ◌>>=◌, ◌>>◌, value_error, attribute_error,
  assertion_error, key_error,
}
use cwdbg.Stabs.Types.{
  n_undf, n_fun, n_stsym, n_lcsym, n_gsym, n_rsym, n_sline, n_so, n_lsym, n_psym, n_lbrac, n_rbrac,
  is_stab_type,
}
use cwdbg.Stabs.Text.{split_once, ends_with, hex8}
use cwdbg.Stabs.Nodes.{Stab, NodeInfo, ProgramNode, Nodes, node, nil, cons, info, extend, append}
use cwdbg.Stabs.Builder.Lines.{LineTable, record_line}
use cwdbg.Stabs.Builder.State.{
  Item, stab, pair, Builder, Draft, Locals, new_locals, new_node, finished, end_at, with_children,
  take_func_nodes,
}
use cwdbg.Stabs.Builder.Branches.{
  Call, on_so, on_symbol, on_local, on_fun, on_sline, on_lbrac, on_rbrac, on_other,
}

-- The branches of the loop, and the one that the type of a stab selects.
pub data Branch : Type 0 where
  at_so at_symbol at_local at_fun at_sline at_lbrac at_rbrac at_other : Branch

unfoldable pub branch_of : ℕ → Branch
branch_of t =
    if t == n_so
    then at_so
    else if t == n_gsym || t == n_stsym || t == n_lcsym
    then at_symbol
    else if t == n_lsym || t == n_rsym
    then at_local
    else if t == n_psym
    then at_symbol
    else if t == n_fun
    then at_fun
    else if t == n_sline
    then at_sline
    else if t == n_lbrac
    then at_lbrac
    else if t == n_rbrac
    then at_rbrac
    else at_other

unfoldable pub run_branch : Branch → Call → Option Draft → Locals → Stab → Exec Builder ProgramNode
unfolding on_so on_symbol on_local on_fun on_sline on_lbrac on_rbrac on_other
run_branch at_so again d f s = on_so again d f s
run_branch at_symbol again d f s = on_symbol again d f s
run_branch at_local again d f s = on_local again d f s
run_branch at_fun again d f s = on_fun again d f s
run_branch at_sline again d f s = on_sline again d f s
run_branch at_lbrac again d f s = on_lbrac again d f s
run_branch at_rbrac again d f s = on_rbrac d s
run_branch at_other again d f s = on_other s

unfoldable pub on_stab : Call → Option Draft → Locals → Stab → Exec Builder ProgramNode
unfolding branch_of run_branch
on_stab again d f s = run_branch (branch_of s.type) again d f s

-- What follows the loop, when there are no more stabs.
unfoldable pub at_last : Option Draft → Exec Builder ProgramNode
unfolding take_func_nodes
at_last none = throw attribute_error
at_last (some d) =
    if d.own.type == n_so
    then (do functions ← take_func_nodes; pure (finished (with_children d functions)))
    else pure (finished d)

-- One round of the loop, on what `pop` returns; a pair has no attribute `type`.
unfoldable pub on_item : Call → Option Draft → Locals → List Item → Exec Builder ProgramNode
unfolding on_stab at_last
on_item again d f [] b = at_last d b
on_item again d f (stab s ∷ rest) b = on_stab again d f s (record b { stabs = rest })
on_item again d f (pair s string ∷ rest) b = (raise attribute_error, record b { stabs = rest })

-- `_build_subtree`, from a round of its loop on.
unfoldable pub build_subtree : ℕ → Option Draft → Locals → Exec Builder ProgramNode
unfolding on_item
build_subtree zero d f b = (no_return, b)
build_subtree (suc fuel) d f b = on_item (build_subtree fuel) d f b.stabs b

-- `build`: a subtree for each compilation unit, as long as there are stabs.
unfoldable pub build_units : ℕ → Nodes → Exec Builder Nodes
unfolding build_subtree
build_units zero units b = (no_return, b)
build_units (suc fuel) units b = elim b.stabs [
  | [] ↦ (ok units, b)
  | _ ∷ _ ↦
      (build_subtree (2 * length b.stabs + 1) none (new_locals none none none) >>= λ unit.
      build_units fuel (append units unit))
        b
]

-- Type definitions are left out.
unfoldable pub items : List Stab → List Item
items [] = []
items (s ∷ ss) = (if s.type == n_lsym && s.value == 0 then [] else stab s ∷ []) ++ items ss

unfoldable pub new_builder : List Stab → Builder
unfolding items
new_builder stabs = record {
  stabs = items stabs;
  nodes_stack = nil;
  func_nodes_stack = nil;
  lines = [];
}

-- The root node, with the builder that holds the table of lines.
unfoldable pub build : List Stab → Outcome ProgramNode × Builder
unfolding build_units new_builder
build stabs =
    (build_units (length stabs + 1) nil >>= λ units. pure (node (new_node n_undf [] [] 0 0) units))
      (new_builder stabs)
