-- ===== src/Stabs/Functions.antt =====
-- A compilation unit with any number of functions, as GCC emits its stabs: the lines of a function come before its
-- N_FUN, those of the first function behind N_SO, those of each other one behind the N_FUN of the function before it.
pub mod Rounds
pub mod Stretched
pub mod Build
pub mod Lines
pub mod Lookup
use cwdbg.Base.{ℕ, ◌≡◌, List, [], ◌∷◌, ◌++◌, Option, some, Bytes, All, Outcome, ok}
use cwdbg.Stabs.Types.{n_fun, n_sline}
use cwdbg.Stabs.Text.{split_once}
use cwdbg.Stabs.Nodes.{Stab, NodeInfo, ProgramNode, Nodes, node, nil, cons}
use cwdbg.Stabs.Builder.Lines.{LineTable}
use cwdbg.Stabs.Builder.State.{Item, stab, Draft, new_node}
use cwdbg.Stabs.Rising.{record_lines}
use cwdbg.Stabs.OneFunction.{lines_of, line_nodes, stabs_items, unit_draft}

-- N_FUN, the name in its string, and the lines behind it, which are those of the next function.
pub record Function : Type 0 where
  pub fn : Stab
  pub name : Bytes
  pub behind : List Stab

pub record IsFunction (f : Function) : Type 0 where
  pub is_fun : f.fn.type ≡ n_fun
  pub typeid : Bytes
  pub is_named : split_once b':' f.fn.string ≡ some (f.name, typeid)
  pub are_lines : All (λ (s : Stab). s.type ≡ n_sline) f.behind

abbrev pub stabs_of : List Function → List Stab
stabs_of [] = []
stabs_of (f ∷ fs) = f.fn ∷ (f.behind ++ stabs_of fs)

abbrev pub items_of : List Function → List Item
items_of [] = []
items_of (f ∷ fs) = stab f.fn ∷ (stabs_items f.behind ++ items_of fs)

abbrev pub unit_stabs : Stab → List Stab → List Function → List Stab
unit_stabs so ss fs = so ∷ (ss ++ stabs_of fs)

-- A function ends where the next one begins; the end of the last one is not known.
abbrev pub end_of : List Function → ℕ
end_of [] = 0
end_of (f ∷ fs) = f.fn.value

abbrev pub function_draft : Function → Nodes → Draft
function_draft f lines = record {
  own = new_node n_fun f.name [] f.fn.value f.fn.desc;
  below = lines;
}

abbrev pub function_node : Function → List Function → Nodes → ProgramNode
function_node f fs lines = node (record (function_draft f lines).own { end_addr = end_of fs }) lines

-- Each function with its own lines.
abbrev pub function_nodes : Nodes → List Function → Nodes
function_nodes lines [] = nil
function_nodes lines (f ∷ fs) =
    cons (function_node f fs lines) (function_nodes (line_nodes f.behind) fs)

-- The lines behind the last function.
abbrev pub left_over : Nodes → List Function → Nodes
left_over lines [] = lines
left_over lines (f ∷ fs) = left_over (line_nodes f.behind) fs

-- The lines behind each function are recorded from the same previous line on, that of the unit.
abbrev pub Recorded : Option ℕ → List Function → LineTable → LineTable → Type 0
Recorded prev [] before after = before ≡ after
Recorded prev (f ∷ fs) before after =
    (p : LineTable × Option ℕ) × (record_lines prev (lines_of f.behind) before ≡ ok p)
    × Recorded prev fs p.0 after

abbrev pub functions_unit : Stab → List Stab → List Function → ProgramNode
functions_unit so ss fs = node (unit_draft so).own (function_nodes (line_nodes ss) fs)
