-- ===== src/Stabs/Functions/Lookup.antt =====
-- `ProgramWithDebugInfo` of host/stabslib.py on a compilation unit with two or three functions, from the stabs to the
-- look-up of an address.
use cwdbg.Base.{
  ℕ, ◌≤◌, ◌<◌, ◌≡◌, refl, sym, ap, ◌∙◌, subst, false, List, [], ◌∷◌, ◌++◌, Option, none, some,
  arith, All, append_assoc, eq_text_refl, lookup, text_key, ok,
}
use cwdbg.Stabs.Types.{n_undf, n_so, n_sline}
use cwdbg.Stabs.Text.{ends_with}
use cwdbg.Stabs.Nodes.{Stab, node, nil, cons}
use cwdbg.Stabs.DataDict.{type_stabs, build_data_dict}
use cwdbg.Stabs.Builder.Lines.{LineTable}
use cwdbg.Stabs.Builder.State.{new_node}
use cwdbg.Stabs.Program.{
  ProgramWithDebugInfo, new_program, with_tree, after_types, chosen_unit, find_line,
  get_lineno_for_addr,
}
use cwdbg.Stabs.Rising.{Rising, ranges, last_line, record_lines, Follows, find_line-ranges}
use cwdbg.Stabs.OneFunction.{lines_of}
use cwdbg.Stabs.Functions.{Function, IsFunction, stabs_of, unit_stabs, Recorded, functions_unit}
use cwdbg.Stabs.Functions.Lines.{
  lines_of-append, Rising-prefix, record_lines-first, record_lines-second,
}
use cwdbg.Stabs.Functions.Stretched.{record_lines-stretched, find_line-stretched, stretched}
use cwdbg.Stabs.Functions.Build.{build-functions}

type_stabs-lines :
    (ss rest : List Stab)
    → All (λ (s : Stab). s.type ≡ n_sline) ss
    → type_stabs (ss ++ rest) ≡ type_stabs rest
unfolding type_stabs
type_stabs-lines [] rest hs = refl
type_stabs-lines (s ∷ ss) rest (h, hs) = rw h (type_stabs-lines ss rest hs)

type_stabs-functions : (fs : List Function) → All IsFunction fs → type_stabs (stabs_of fs) ≡ []
unfolding type_stabs
type_stabs-functions [] all = refl
type_stabs-functions (f ∷ fs) (h, all) =
    rw h.is_fun (type_stabs-lines f.behind (stabs_of fs) h.are_lines ∙ type_stabs-functions fs all)

module _ (so : Stab) (ss : List Stab) (fs : List Function) (so_type : so.type ≡ n_so)
    (is_file : ends_with b'/' so.string ≡ false)
    (line_types : All (λ (s : Stab). s.type ≡ n_sline) ss) (functions : All IsFunction fs) where
  abbrev program_with : LineTable → ProgramWithDebugInfo
  program_with table = record {
    program_tree = node (new_node n_undf [] [] 0 0) (cons (functions_unit so ss fs) nil);
    addresses_by_lineno = (so.string, table) ∷ [];
  }

  type_stabs-unit : type_stabs (unit_stabs so ss fs) ≡ []
  unfolding type_stabs
  type_stabs-unit =
      rw so_type (type_stabs-lines ss (stabs_of fs) line_types ∙ type_stabs-functions fs functions)

  new_program-functions :
      (p : LineTable × Option ℕ) (table : LineTable)
      → record_lines none (lines_of ss) [] ≡ ok p
      → Recorded p.1 fs p.0 table
      → new_program (unit_stabs so ss fs) ≡ ok (program_with table)
  unfolding new_program build_data_dict after_types with_tree
  new_program-functions p table first others =
      rw
        (
          type_stabs-unit,
          build-functions so ss fs p table so_type is_file line_types functions first others,
        )
        refl

  find_in_program :
      (table : LineTable) (addr : ℕ)
      → get_lineno_for_addr (program_with table) addr none ≡ ok (find_line table addr)
  unfolding get_lineno_for_addr chosen_unit lookup
  find_in_program table addr = ground (arith, eq_text_refl so.string)

abbrev pub with_lines : Function → List Stab → Function
with_lines f ss = record f { behind = ss }

module _ (so s : Stab) (ss : List Stab) (so_type : so.type ≡ n_so)
    (is_file : ends_with b'/' so.string ≡ false)
    (line_types : All (λ (s : Stab). s.type ≡ n_sline) (ss ++ s ∷ [])) where
  first_recorded :
      (rest : List (ℕ × ℕ))
      → Rising (lines_of ss ++ (s.desc, s.value) ∷ rest)
      → record_lines none (lines_of (ss ++ s ∷ [])) []
        ≡ ok (ranges (lines_of ss ++ (s.desc, s.value) ∷ []), some s.desc)
  first_recorded rest rising =
      ap (λ xs. record_lines none xs []) (lines_of-append ss (s ∷ []))
      ∙ record_lines-first (lines_of ss) s.desc s.value (
          Rising-prefix (lines_of ss ++ (s.desc, s.value) ∷ []) rest
            (subst Rising (sym (append_assoc (lines_of ss) ((s.desc, s.value) ∷ []) rest)) rising))

  -- In the program that is made of the stabs of a file with two functions whose lines rise with their addresses over
  -- both (N_SO with a name that does not end in a slash, at least one line, N_FUN with a colon in its string, the
  -- lines of the second function, its N_FUN), an address between the start of a line and the start of the next line is
  -- mapped to the first of the two, in either function.
  pub get_lineno_for_addr-two_functions :
      (f g : Function) (ts : List Stab) (l lo hi addr : ℕ)
      → All IsFunction (with_lines f ts ∷ with_lines g [] ∷ [])
      → Rising (lines_of ss ++ (s.desc, s.value) ∷ lines_of ts)
      → Follows l lo hi (lines_of ss ++ (s.desc, s.value) ∷ lines_of ts)
      → lo ≤ addr
      → addr < hi
      → (p : ProgramWithDebugInfo) × (new_program
            (unit_stabs so (ss ++ s ∷ []) (with_lines f ts ∷ with_lines g [] ∷ []))
          ≡ ok p)
        × (get_lineno_for_addr p addr none ≡ ok (some l))
  unfolding record_lines
  get_lineno_for_addr-two_functions f g ts l lo hi addr functions rising follows le lt =
      let fs = with_lines f ts ∷ with_lines g [] ∷ [] in
      let lines = lines_of ss ++ (s.desc, s.value) ∷ lines_of ts in
      let (last, second) = record_lines-second (lines_of ss) s.desc s.value (lines_of ts) rising in
      (
        program_with so (ss ++ s ∷ []) fs so_type is_file line_types functions (ranges lines),
        new_program-functions so (ss ++ s ∷ []) fs so_type is_file line_types functions
            (ranges (lines_of ss ++ (s.desc, s.value) ∷ []), some s.desc) (ranges lines)
            (first_recorded (lines_of ts) rising)
            ((ranges lines, last), second, ((ranges lines, some s.desc), refl, refl)),
        find_in_program so (ss ++ s ∷ []) fs so_type is_file line_types functions (ranges lines)
              addr
            ∙ ap ok (find_line-ranges lines l lo hi addr rising follows le lt),
      )

  -- In the program that is made of the stabs of a file with three functions whose lines rise with their addresses over
  -- all three, every address from the start of the last line of the first function up to the start of the first line of
  -- the third one is mapped to the last line of the first function: so are all the addresses of the second function.
  pub get_lineno_for_addr-three_functions :
      (f g h : Function) (t u : Stab) (ts us : List Stab) (addr : ℕ)
      → All IsFunction (with_lines f (t ∷ ts) ∷ with_lines g (u ∷ us) ∷ with_lines h [] ∷ [])
      → Rising (
          lines_of ss
          ++ (s.desc, s.value)
            ∷ ((t.desc, t.value) ∷ (lines_of ts ++ (u.desc, u.value) ∷ lines_of us)))
      → s.value ≤ addr
      → addr < u.value
      → (p : ProgramWithDebugInfo) × (new_program (
            unit_stabs so
              (ss ++ s ∷ [])
              (with_lines f (t ∷ ts) ∷ with_lines g (u ∷ us) ∷ with_lines h [] ∷ []))
          ≡ ok p)
        × (get_lineno_for_addr p addr none ≡ ok (some s.desc))
  unfolding record_lines
  get_lineno_for_addr-three_functions f g h t u ts us addr functions rising le lt =
      let fs = with_lines f (t ∷ ts) ∷ with_lines g (u ∷ us) ∷ with_lines h [] ∷ [] in
      let before = lines_of ss ++ (s.desc, s.value) ∷ lines_of (t ∷ ts) in
      let table =
        stretched (lines_of ss) s.desc s.value t.desc t.value (lines_of ts) u.desc u.value
          (lines_of us) rising in
      let (last, second) = record_lines-second (lines_of ss) s.desc s.value (lines_of (t ∷ ts)) (
        Rising-prefix before (lines_of (u ∷ us)) (
          subst Rising
            (sym (
              append_assoc (lines_of ss) ((s.desc, s.value) ∷ lines_of (t ∷ ts))
                (lines_of (u ∷ us))))
            rising)) in
      (
        program_with so (ss ++ s ∷ []) fs so_type is_file line_types functions table,
        new_program-functions so (ss ++ s ∷ []) fs so_type is_file line_types functions
            (ranges (lines_of ss ++ (s.desc, s.value) ∷ []), some s.desc) table
            (first_recorded (lines_of (t ∷ ts) ++ lines_of (u ∷ us)) rising)
            (
              (ranges before, last),
              second,
              (
                (table, some (last_line u.desc (lines_of us))),
                record_lines-stretched (lines_of ss) s.desc s.value t.desc t.value (lines_of ts)
                    u.desc u.value (lines_of us) rising,
                ((table, some s.desc), refl, refl),
              ),
            ),
        find_in_program so (ss ++ s ∷ []) fs so_type is_file line_types functions table addr
            ∙ ap ok (
                find_line-stretched (lines_of ss) s.desc s.value t.desc t.value (lines_of ts) u.desc
                  u.value (lines_of us) rising addr le lt),
      )
