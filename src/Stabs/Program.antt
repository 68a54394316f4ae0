-- ===== src/Stabs/Program.antt =====
-- `ProgramWithDebugInfo` of host/stabslib.py: how it is made, and the look-ups.
use cwdbg.Base.{
  ℕ, Bool, ◌&&◌, List, [], ◌∷◌, Option, none, some, Bytes, ◌==◌, ltb, leb, if◌then◌else◌, Dict,
  lookup, nat_key, text_key, Outcome, ok, raise, no_return, value_error, assertion_error,
}
use cwdbg.Stabs.Types.{n_so}
use cwdbg.Stabs.Nodes.{Stab, NodeInfo, ProgramNode, Nodes, nil, cons, children, info}
use cwdbg.Stabs.Table.{stabs_from_data}
use cwdbg.Stabs.DataDict.{build_data_dict, type_stabs}
use cwdbg.Stabs.Builder.{build}
use cwdbg.Stabs.Builder.State.{Builder}
use cwdbg.Stabs.Builder.Lines.{LineTable}

pub record ProgramWithDebugInfo : Type 0 where
  pub program_tree : ProgramNode
  pub addresses_by_lineno : Dict Bytes LineTable

unfoldable pub with_tree : Outcome ProgramNode × Builder → Outcome ProgramWithDebugInfo
with_tree (ok root, builder) =
    ok (record { program_tree = root; addresses_by_lineno = builder.lines })
with_tree (raise e, _) = raise e
with_tree (no_return, _) = no_return

unfoldable pub after_types : List Stab → Outcome (Unit {0}) → Outcome ProgramWithDebugInfo
unfolding build with_tree
after_types stabs (ok _) = with_tree (build stabs)
after_types stabs (raise e) = raise e
after_types stabs no_return = no_return

-- `__init__`: the data dictionary first, then the tree.
unfoldable pub new_program : List Stab → Outcome ProgramWithDebugInfo
unfolding after_types build_data_dict type_stabs
new_program stabs = after_types stabs (build_data_dict (type_stabs stabs))

unfoldable pub from_stabs_data : Bytes → Outcome ProgramWithDebugInfo
unfolding stabs_from_data new_program
from_stabs_data content = elim (stabs_from_data content) [
  | ok stabs ↦ new_program stabs
  | raise e ↦ raise e
  | no_return ↦ no_return
]

-- The compilation unit that is meant; it may be left out if there is just one.
unfoldable pub chosen_unit : Dict Bytes LineTable → Option Bytes → Outcome Bytes
chosen_unit units (some unit) = ok unit
chosen_unit ((unit, _) ∷ []) none = ok unit
chosen_unit _ none = raise value_error

unfoldable pub get_addr_range_for_lineno :
    ProgramWithDebugInfo → ℕ → Option Bytes → Outcome (Option (ℕ × ℕ))
unfolding chosen_unit lookup
get_addr_range_for_lineno p lineno comp_unit = elim (chosen_unit p.addresses_by_lineno comp_unit) [
  | ok unit ↦ elim (lookup unit p.addresses_by_lineno) [
    | none ↦ ok none
    | some lines ↦ ok (lookup lineno lines)
  ]
  | raise e ↦ raise e
  | no_return ↦ no_return
]

-- `child.end_addr == 0 or addr < child.end_addr`, behind the start address.
unfoldable pub spans : NodeInfo → ℕ → Bool
spans i addr = leb i.start_addr addr && (if i.end_addr == 0 then Bool.true else ltb addr i.end_addr)

unfoldable pub find_unit : Nodes → ℕ → Outcome (Option Bytes)
unfolding spans
find_unit nil addr = ok none
find_unit (cons child rest) addr =
    let others = find_unit rest addr in
    if (info child).type == n_so
    then (if spans (info child) addr then ok (some (info child).name) else others)
    else raise assertion_error

unfoldable pub get_comp_unit_for_addr : ProgramWithDebugInfo → ℕ → Outcome (Option Bytes)
unfolding find_unit
get_comp_unit_for_addr p addr = find_unit (children p.program_tree) addr

-- The first line, in the order of entry, whose range holds the address.
unfoldable pub find_line : LineTable → ℕ → Option ℕ
find_line [] addr = none
find_line ((lineno, range) ∷ lines) addr =
    if leb range.0 addr && ltb addr range.1 then some lineno else find_line lines addr

unfoldable pub get_lineno_for_addr : ProgramWithDebugInfo → ℕ → Option Bytes → Outcome (Option ℕ)
unfolding chosen_unit lookup find_line
get_lineno_for_addr p addr comp_unit = elim (chosen_unit p.addresses_by_lineno comp_unit) [
  | ok unit ↦ elim (lookup unit p.addresses_by_lineno) [
    | none ↦ ok none
    | some lines ↦ ok (find_line lines addr)
  ]
  | raise e ↦ raise e
  | no_return ↦ no_return
]
