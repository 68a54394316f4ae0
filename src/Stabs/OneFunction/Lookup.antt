-- ===== src/Stabs/OneFunction/Lookup.antt =====
-- `ProgramWithDebugInfo` of host/stabslib.py on a compilation unit with one function, from the stabs to the
-- look-up of an address.
use cwdbg.Base.{
  ℕ, ◌≤◌, ◌<◌, ◌≡◌, refl, ap, ◌∙◌, false, List, [], ◌∷◌, ◌++◌, none, some, Bytes, arith, All,
  eq_text_refl, lookup, text_key, ok,
}
use cwdbg.Stabs.Types.{n_undf, n_so, n_fun, n_sline}
use cwdbg.Stabs.Text.{split_once, ends_with}
use cwdbg.Stabs.Nodes.{Stab, node, nil, cons}
use cwdbg.Stabs.DataDict.{type_stabs, build_data_dict}
use cwdbg.Stabs.Builder.State.{new_node}
use cwdbg.Stabs.Program.{
  ProgramWithDebugInfo, new_program, with_tree, after_types, chosen_unit, find_line,
  get_lineno_for_addr,
}
use cwdbg.Stabs.Rising.{
  Rising, ranges, last_line, record_lines-ranges, Follows, find_line-ranges, Ended, find_line-last,
}
use cwdbg.Stabs.OneFunction.Build.{build-one_function}
use cwdbg.Stabs.OneFunction.{lines_of, one_function, unit_node}

type_stabs-fun :
    (ss : List Stab) (fn : Stab)
    → All (λ (s : Stab). s.type ≡ n_sline) ss
    → fn.type ≡ n_fun
    → type_stabs (ss ++ fn ∷ []) ≡ []
unfolding type_stabs
type_stabs-fun [] fn h h' = rw h' refl
type_stabs-fun (s ∷ ss) fn (h, hs) h' = rw h (type_stabs-fun ss fn hs h')

abbrev pub program_of : Stab → List Stab → Stab → Bytes → ProgramWithDebugInfo
program_of so ss fn name = record {
  program_tree = node (new_node n_undf [] [] 0 0) (cons (unit_node so ss fn name) nil);
  addresses_by_lineno = (so.string, ranges (lines_of ss)) ∷ [];
}

find_in_program :
    (so : Stab) (ss : List Stab) (fn : Stab) (name : Bytes) (addr : ℕ)
    → get_lineno_for_addr (program_of so ss fn name) addr none
      ≡ ok (find_line (ranges (lines_of ss)) addr)
unfolding get_lineno_for_addr chosen_unit lookup
find_in_program so ss fn name addr = ground (arith, eq_text_refl so.string)

module _ (so s : Stab) (ss : List Stab) (fn : Stab) (name typeid : Bytes) (so_type : so.type ≡ n_so)
    (is_file : ends_with b'/' so.string ≡ false)
    (line_types : All (λ (t : Stab). t.type ≡ n_sline) (s ∷ ss))
    (rising : Rising (lines_of (s ∷ ss))) (fn_type : fn.type ≡ n_fun)
    (fn_name : split_once b':' fn.string ≡ some (name, typeid)) where
  type_stabs-one_function : type_stabs (one_function so (s ∷ ss) fn) ≡ []
  unfolding type_stabs
  type_stabs-one_function = rw so_type (type_stabs-fun (s ∷ ss) fn line_types fn_type)

  -- The stabs of a file with one function, whose lines rise with their addresses, make a program.
  pub new_program-one_function :
      new_program (one_function so (s ∷ ss) fn) ≡ ok (program_of so (s ∷ ss) fn name)
  unfolding new_program build_data_dict after_types with_tree
  new_program-one_function =
      let built =
        build-one_function so (s ∷ ss) fn name typeid
          (ranges (lines_of (s ∷ ss)), some (last_line s.desc (lines_of ss))) so_type is_file
          line_types (record_lines-ranges s.desc s.value (lines_of ss) rising) fn_type fn_name in
      rw (type_stabs-one_function, built) refl

  -- In the program that is made of the stabs of a file with one function whose lines rise with
  -- their addresses (N_SO with a name that does not end in a slash, at least one line, N_FUN with a
  -- colon in its string), an address between the start of a line and the start of the next line is
  -- mapped to the first of the two.
  pub get_lineno_for_addr-one_function :
      (l lo hi addr : ℕ)
      → Follows l lo hi (lines_of (s ∷ ss))
      → lo ≤ addr
      → addr < hi
      → (p : ProgramWithDebugInfo) × (new_program (one_function so (s ∷ ss) fn) ≡ ok p)
        × (get_lineno_for_addr p addr none ≡ ok (some l))
  get_lineno_for_addr-one_function l lo hi addr f le lt = (
    program_of so (s ∷ ss) fn name,
    new_program-one_function,
    find_in_program so (s ∷ ss) fn name addr
        ∙ ap ok (find_line-ranges (lines_of (s ∷ ss)) l lo hi addr rising f le lt),
  )

  -- In the program that is made of the stabs of a file with one function whose lines rise with
  -- their addresses, no address at or behind the starts of all lines is mapped to a line.
  pub get_lineno_for_addr-last_line :
      (addr : ℕ)
      → Ended addr (lines_of (s ∷ ss))
      → (p : ProgramWithDebugInfo) × (new_program (one_function so (s ∷ ss) fn) ≡ ok p)
        × (get_lineno_for_addr p addr none ≡ ok none)
  get_lineno_for_addr-last_line addr e = (
    program_of so (s ∷ ss) fn name,
    new_program-one_function,
    find_in_program so (s ∷ ss) fn name addr ∙ ap ok (find_line-last (lines_of (s ∷ ss)) addr e),
  )
