-- ===== src/Tests/Functions.antt =====
-- A program of three functions, host/stabslib.py, in the order in which GCC emits its stabs.
use cwdbg.Base.{◌≡◌, refl, List, [], ◌∷◌, none, some, Bytes, arith, nat_key, text_key, ok}
use cwdbg.Stabs.Types.{n_fun, n_sline}
use cwdbg.Stabs.Text.{split_once, ends_with}
use cwdbg.Stabs.Nodes.{Stab}
use cwdbg.Stabs.Builder.Lines.{LineTable}
use cwdbg.Stabs.Program.{ProgramWithDebugInfo, new_program, get_lineno_for_addr}
use cwdbg.Stabs.Rising.{here, there}
use cwdbg.Stabs.Functions.{Function, IsFunction, unit_stabs}
use cwdbg.Stabs.Functions.Lookup.{
  with_lines, get_lineno_for_addr-two_functions, get_lineno_for_addr-three_functions,
}
use cwdbg.Tests.Program.{entry, so}

abbrev line_3 : Stab
line_3 = entry n_sline [] 3 0

abbrev line_5 : Stab
line_5 = entry n_sline [] 5 8

abbrev line_7 : Stab
line_7 = entry n_sline [] 7 12

abbrev line_8 : Stab
line_8 = entry n_sline [] 8 16

abbrev line_9 : Stab
line_9 = entry n_sline [] 9 24

-- The functions f, g and h.
abbrev function : Bytes → Stab → Function
function name fn = record { fn = fn; name = name; behind = [] }

abbrev f : Function
f = function (b'f' ∷ []) (entry n_fun (b'f' ∷ b':' ∷ b'F' ∷ []) 3 0)

abbrev g : Function
g = function (b'g' ∷ []) (entry n_fun (b'g' ∷ b':' ∷ b'F' ∷ []) 7 12)

abbrev h : Function
h = function (b'h' ∷ []) (entry n_fun (b'h' ∷ b':' ∷ b'F' ∷ []) 9 24)

f-IsFunction : IsFunction (with_lines f (line_7 ∷ line_8 ∷ []))
unfolding split_once
f-IsFunction = record {
  is_fun = refl;
  typeid = b'F' ∷ [];
  is_named = refl;
  are_lines = (refl, (refl, tt));
}

g-IsFunction : IsFunction (with_lines g (line_9 ∷ []))
unfolding split_once
g-IsFunction = record { is_fun = refl; typeid = b'F' ∷ []; is_named = refl; are_lines = (refl, tt) }

last_g-IsFunction : IsFunction (with_lines g [])
unfolding split_once
last_g-IsFunction = record { is_fun = refl; typeid = b'F' ∷ []; is_named = refl; are_lines = tt }

last_h-IsFunction : IsFunction (with_lines h [])
unfolding split_once
last_h-IsFunction = record { is_fun = refl; typeid = b'F' ∷ []; is_named = refl; are_lines = tt }

abbrev two : List Function
two = with_lines f (line_7 ∷ line_8 ∷ []) ∷ with_lines g [] ∷ []

abbrev three : List Function
three = with_lines f (line_7 ∷ line_8 ∷ []) ∷ with_lines g (line_9 ∷ []) ∷ with_lines h [] ∷ []

-- The line 5 ends where the line 9 starts.
abbrev table : LineTable
table = (3, (0, 8)) ∷ (5, (8, 24)) ∷ (7, (12, 16)) ∷ (8, (16, 0)) ∷ (9, (24, 0)) ∷ []

get_lineno_for_addr-two_functions_example :
    (p : ProgramWithDebugInfo) × (new_program (unit_stabs so (line_3 ∷ line_5 ∷ []) two) ≡ ok p)
    × (get_lineno_for_addr p 13 none ≡ ok (some 7))
unfolding ends_with
get_lineno_for_addr-two_functions_example =
    get_lineno_for_addr-two_functions so line_5 (line_3 ∷ []) refl refl (refl, (refl, tt)) f g
      (line_7 ∷ line_8 ∷ []) 7 12 16 13 (f-IsFunction, (last_g-IsFunction, tt))
      (omega arith, omega arith, (omega arith, omega arith, (omega arith, omega arith, tt)))
      (there (there here)) (omega arith) (omega arith)

get_lineno_for_addr-three_functions_example :
    (p : ProgramWithDebugInfo) × (new_program (unit_stabs so (line_3 ∷ line_5 ∷ []) three) ≡ ok p)
    × (get_lineno_for_addr p 13 none ≡ ok (some 5))
unfolding ends_with
get_lineno_for_addr-three_functions_example =
    get_lineno_for_addr-three_functions so line_5 (line_3 ∷ []) refl refl (refl, (refl, tt)) f g h
      line_7 line_9 (line_8 ∷ []) [] 13 (f-IsFunction, (g-IsFunction, (last_h-IsFunction, tt)))
      (
        omega arith,
        omega arith,
        (omega arith, omega arith, (omega arith, omega arith, (omega arith, omega arith, tt))),
      )
      (omega arith) (omega arith)
