-- ===== src/Tests/Program.antt =====
-- A program of one function, host/stabslib.py, in the order in which GCC emits its stabs; and one of three
-- functions.
use cwdbg.Base.{
  ℕ, ◌≡◌, ◌≢◌, ◌≤◌, ◌<◌, refl, List, [], ◌∷◌, some, Bytes, arith, All, eq_text, lookup, insert,
  nat_key, text_key, ok, no_return,
}
use cwdbg.Stabs.Types.{n_undf, n_so, n_fun, n_sline}
use cwdbg.Stabs.Text.{ends_with}
use cwdbg.Stabs.Nodes.{Stab, node, nil, cons}
use cwdbg.Stabs.Builder.{build}
use cwdbg.Stabs.Builder.Lines.{LineTable, close_previous, enter_line, after_close, record_line}
use cwdbg.Stabs.Builder.State.{new_node}
use cwdbg.Stabs.Builder.Total.{build-ne-no_return}
use cwdbg.Stabs.Program.{ProgramWithDebugInfo, get_addr_range_for_lineno, get_lineno_for_addr}
use cwdbg.Stabs.Ranges.{get_lineno_for_addr-range}
use cwdbg.Stabs.Rising.{Rising, record_lines}
use cwdbg.Stabs.OneFunction.{lines_of}
use cwdbg.Base.{◌++◌, raise, attribute_error}
use cwdbg.Hunk.{is_ascii}
use cwdbg.Stabs.Table.{stabs_from_data}
use cwdbg.Stabs.Table.RoundTrip.{print_stab, print_stabs, kept, stabs_from_data-print}
use cwdbg.Stabs.OneFunction.SecondUnit.{build_second_unit}

abbrev pub entry : ℕ → Bytes → ℕ → ℕ → Stab
entry type string desc value = record {
  offset = 0;
  type = type;
  other = 0;
  desc = desc;
  value = value;
  string = string;
}

abbrev pub so : Stab
so = entry n_so (b'a' ∷ []) 0 0

abbrev fn : Stab
fn = entry n_fun (b'f' ∷ b':' ∷ b'F' ∷ []) 3 0

abbrev line_3 : Stab
line_3 = entry n_sline [] 3 0

abbrev more_lines : List Stab
more_lines = entry n_sline [] 5 8 ∷ entry n_sline [] 6 20 ∷ []

abbrev table : LineTable
table = (3, (0, 8)) ∷ (5, (8, 20)) ∷ (6, (20, 0)) ∷ []

abbrev line_types : All (λ (t : Stab). t.type ≡ n_sline) (line_3 ∷ more_lines)
line_types = (refl, (refl, (refl, tt)))

abbrev rising : Rising (lines_of (line_3 ∷ more_lines))
rising = (omega arith, omega arith, (omega arith, omega arith, tt))

build-ne-no_return_example : (build (so ∷ fn ∷ so ∷ [])).0 ≢ no_return
build-ne-no_return_example = build-ne-no_return (so ∷ fn ∷ so ∷ [])

abbrev program : ProgramWithDebugInfo
program = record {
  program_tree =
      node (new_node n_undf [] [] 0 0) (cons (node (new_node n_so (b'a' ∷ []) [] 4 0) nil) nil);
  addresses_by_lineno = (b'a' ∷ [], table) ∷ [];
}

get_lineno_for_addr-range_example :
    (r : ℕ × ℕ) × (get_addr_range_for_lineno program 5 (some (b'a' ∷ [])) ≡ ok (some r))
    × (r.0 ≤ 10)
    × (10 < r.1)
unfolding lookup get_lineno_for_addr eq_text
get_lineno_for_addr-range_example =
    get_lineno_for_addr-range program (b'a' ∷ []) table 10 5 refl (refl, (refl, (refl, tt))) refl

build_second_unit_example : (build (so ∷ line_3 ∷ so ∷ fn ∷ [])).0 ≡ raise attribute_error
unfolding ends_with record_lines record_line close_previous after_close enter_line lookup insert
build_second_unit_example =
    build_second_unit so so (line_3 ∷ []) (fn ∷ []) ((3, (0, 0)) ∷ [], some 3) refl refl (refl, tt)
      refl refl

-- A header, a stab with the string `a`, and a last stab.
abbrev table_header : Stab
table_header = entry n_undf [] 24 3

abbrev strings : Bytes
strings = 0 ∷ b'a' ∷ 0 ∷ []

abbrev file_stab : Stab
file_stab = record so { offset = 1 }

stabs_from_data-print_example :
    stabs_from_data
      (print_stab table_header ++ (print_stabs ((file_stab ∷ []) ++ so ∷ []) ++ strings))
    ≡ ok (kept (file_stab ∷ []))
unfolding is_ascii
stabs_from_data-print_example =
    stabs_from_data-print table_header so (file_stab ∷ []) strings (omega arith) (omega arith) refl
      refl (omega arith)
      (
        record {
          behind = [];
          placed = refl;
          no_nul = (refl, tt);
          ascii = refl;
          offset_fits = omega arith;
          desc_fits = omega arith;
          value_fits = omega arith;
        },
        tt,
      )

-- The last line 2 of the first of three functions is closed by the first line of the third one.
abbrev three_functions : List Stab
three_functions =
    so
    ∷ entry n_sline [] 1 0
    ∷ entry n_sline [] 2 4
    ∷ entry n_fun (b'f' ∷ b':' ∷ b'F' ∷ []) 1 0
    ∷ entry n_sline [] 5 8
    ∷ entry n_sline [] 6 12
    ∷ entry n_fun (b'g' ∷ b':' ∷ b'F' ∷ []) 5 8
    ∷ entry n_sline [] 9 16
    ∷ entry n_fun (b'h' ∷ b':' ∷ b'F' ∷ []) 9 16
    ∷ []

three_functions_lines :
    (build three_functions).1.lines
    ≡ (b'a' ∷ [], (1, (0, 4)) ∷ (2, (4, 16)) ∷ (5, (8, 12)) ∷ (6, (12, 0)) ∷ (9, (16, 0)) ∷ []) ∷ []
unfolding build eq_text
three_functions_lines = refl
