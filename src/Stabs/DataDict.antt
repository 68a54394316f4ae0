-- ===== src/Stabs/DataDict.antt =====
-- `DataDictBuilder` of host/stabslib.py. It builds nothing yet, and it raises on what it cannot take apart.
use cwdbg.Base.{
  ◌&&◌, List, [], ◌∷◌, ◌++◌, none, some, Bytes, ◌==◌, if◌then◌else◌, Outcome, ok, raise, no_return,
  value_error, index_error,
}
use cwdbg.Stabs.Types.{n_lsym}
use cwdbg.Stabs.Text.{split_once}
use cwdbg.Stabs.Nodes.{Stab}

-- A stab that defines a type.
unfoldable pub type_stabs : List Stab → List Stab
type_stabs [] = []
type_stabs (s ∷ ss) = (if s.type == n_lsym && s.value == 0 then s ∷ [] else []) ++ type_stabs ss

-- `type_info[0] == 't'`, then the split at '='; another stab is only logged.
check_type_info : Bytes → Outcome (Unit {0})
unfolding split_once
check_type_info [] = raise index_error
check_type_info (c ∷ cs) =
    if c == b't'
    then (elim (split_once b'=' (c ∷ cs)) [ none ↦ raise value_error | some _ ↦ ok tt ])
    else ok tt

check_type_stab : Stab → Outcome (Unit {0})
unfolding split_once check_type_info
check_type_stab s = elim (split_once b':' s.string) [
  | none ↦ raise value_error
  | some p ↦ check_type_info p.1
]

unfoldable pub build_data_dict : List Stab → Outcome (Unit {0})
unfolding check_type_stab
build_data_dict [] = ok tt
build_data_dict (s ∷ ss) = elim (check_type_stab s) [
  | ok _ ↦ build_data_dict ss
  | raise e ↦ raise e
  | no_return ↦ no_return
]
