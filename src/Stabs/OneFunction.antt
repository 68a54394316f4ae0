-- ===== src/Stabs/OneFunction.antt =====
-- A compilation unit with one function, as GCC emits its stabs: the lines of the function come before
-- its N_FUN. The tree and the states of `_build_subtree`, host/stabslib.py, that belong to it.
pub mod Rounds
pub mod Unit
pub mod Build
pub mod Lookup
pub mod SecondUnit
use cwdbg.Base.{
  ℕ, zero, suc, ◌+◌, ◌*◌, ◌≤◌, ◌<◌, ◌≡◌, refl, ap, sym, ◌∙◌, Bool, true, false, ◌&&◌, List, [], ◌∷◌,
  ◌++◌, Option, none, some, append_assoc, Bytes, arith, ◌==◌, ltb, if◌then◌else◌, length, All,
  eq_text, eq_text_refl, Dict, lookup, insert, text_key, Outcome, ok, raise, no_return, Exec, pure,
  throw, modify, proceed, ◌>>=◌, ◌>>◌,
}
use cwdbg.Stabs.Types.{n_undf, n_so, n_fun, n_sline, n_lsym}
use cwdbg.Stabs.Text.{split_once, ends_with}
use cwdbg.Stabs.Nodes.{
  Stab, ProgramNode, Nodes, node, nil, cons, extend, append, extend-nil, extend_assoc,
}
use cwdbg.Stabs.Builder.Lines.{LineTable, record_line}
use cwdbg.Stabs.Builder.State.{
  Item, stab, Builder, Draft, Locals, new_locals, new_node, finished, with_children, push_stab,
  push_node, push_func_node, take_nodes, take_func_nodes, of_option, split_symbol,
}
use cwdbg.Stabs.Builder.Branches.{
  Call, on_so, on_fun, leave_or_call, add_function, on_sline, store_line, store_in, store_recorded,
}
use cwdbg.Stabs.Builder.{
  branch_of, run_branch, on_stab, at_last, on_item, build_subtree, build_units, items, new_builder,
  build,
}
use cwdbg.Stabs.Rising.{record_lines, record_lines-cons}

abbrev pub lines_of : List Stab → List (ℕ × ℕ)
lines_of [] = []
lines_of (s ∷ ss) = (s.desc, s.value) ∷ lines_of ss

abbrev pub line_nodes : List Stab → Nodes
line_nodes [] = nil
line_nodes (s ∷ ss) = cons (node (new_node n_sline [] [] s.value s.desc) nil) (line_nodes ss)

abbrev pub stabs_items : List Stab → List Item
stabs_items [] = []
stabs_items (s ∷ ss) = stab s ∷ stabs_items ss

-- One round of the loop for each stab.
abbrev pub rounds : List Stab → ℕ → ℕ
rounds [] fuel = fuel
rounds (s ∷ ss) fuel = suc (rounds ss fuel)

abbrev pub in_unit : Bytes → Bytes → Option ℕ → Locals
in_unit srcdir unit prev = record {
  srcdir = srcdir;
  current_comp_unit = some unit;
  current_func_lineno = none;
  prev_lineno = prev;
}

-- In the unit, with the nodes and the functions that were read and wait for what they belong to.
abbrev pub reading_with : List Item → Nodes → Nodes → Bytes → LineTable → Builder
reading_with stabs nodes funcs unit table = record {
  stabs = stabs;
  nodes_stack = nodes;
  func_nodes_stack = funcs;
  lines = (unit, table) ∷ [];
}

abbrev pub reading : List Item → Nodes → Bytes → LineTable → Builder
reading stabs nodes unit table = reading_with stabs nodes nil unit table

abbrev pub unit_draft : Stab → Draft
unit_draft so = record { own = new_node n_so so.string [] so.value 0; below = nil }

abbrev pub function_node : Stab → Bytes → Nodes → ProgramNode
function_node fn name nodes = node (new_node n_fun name [] fn.value fn.desc) nodes

-- A compilation unit with one function: a stab N_SO with the name of the file, the lines of the function, and N_FUN.
abbrev pub one_function : Stab → List Stab → Stab → List Stab
one_function so ss fn = so ∷ (ss ++ fn ∷ [])

abbrev pub unit_node : Stab → List Stab → Stab → Bytes → ProgramNode
unit_node so ss fn name =
    node (unit_draft so).own (cons (function_node fn name (line_nodes ss)) nil)

abbrev pub on_items : List Item → Builder
on_items stabs = record { stabs = stabs; nodes_stack = nil; func_nodes_stack = nil; lines = [] }

abbrev pub start : Stab → List Stab → Stab → Builder
start so ss fn = record {
  stabs = stab so ∷ (stabs_items ss ++ stab fn ∷ []);
  nodes_stack = nil;
  func_nodes_stack = nil;
  lines = [];
}
