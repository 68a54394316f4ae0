-- ===== src/Stabs/Scopes/Build.antt =====
-- What `build` of host/stabslib.py makes of a compilation unit whose functions have parameters and scopes.
use cwdbg.Base.{
  ℕ, suc, ◌+◌, ◌*◌, ◌≡◌, refl, ap, ◌∙◌, false, List, [], ◌∷◌, ◌++◌, none, some, All, arith, length,
  text_key, Option, ok,
}
use cwdbg.Stabs.Types.{n_undf, n_so, n_sline}
use cwdbg.Stabs.Text.{ends_with}
use cwdbg.Stabs.Nodes.{Stab, ProgramNode, Nodes, node, nil, cons}
use cwdbg.Stabs.Builder.Lines.{LineTable}
use cwdbg.Stabs.Builder.State.{stab, new_locals, new_node}
use cwdbg.Stabs.Builder.{build_subtree, build}
use cwdbg.Stabs.Rising.{record_lines}
use cwdbg.Stabs.OneFunction.{
  lines_of, line_nodes, stabs_items, rounds, in_unit, reading_with, unit_draft, on_items,
}
use cwdbg.Stabs.OneFunction.Rounds.{build_subtree-slines, build_subtree-so}
use cwdbg.Stabs.OneFunction.Unit.{build-unit}
use cwdbg.Stabs.OneFunction.Build.{rounds-length, items-cons}
use cwdbg.Stabs.Functions.{Recorded}
use cwdbg.Stabs.Functions.Build.{items-lines}
use cwdbg.Stabs.Functions.Rounds.{length-items_of}
use cwdbg.Stabs.Scopes.Functions.{
  WholeFunction, IsWholeFunction, functions_of, whole_stabs, whole_items, whole_nodes, lines_left,
  InOrder,
}
use cwdbg.Stabs.Scopes.Items.{items-wholes}
use cwdbg.Stabs.Scopes.Units.{build_subtree-wholes}

-- A compilation unit: N_SO, the lines of the first function, and the functions.
abbrev pub whole_unit : Stab → List Stab → List WholeFunction → List Stab
whole_unit so ss ws = so ∷ (ss ++ whole_stabs ws)

abbrev pub whole_unit_node : Stab → List Stab → List WholeFunction → ProgramNode
whole_unit_node so ss ws = node (unit_draft so).own (whole_nodes (line_nodes ss) ws)

module _ (so : Stab) (ss : List Stab) (ws : List WholeFunction) (p : LineTable × Option ℕ)
    (so_type : so.type ≡ n_so) (is_file : ends_with b'/' so.string ≡ false)
    (line_types : All (λ (s : Stab). s.type ≡ n_sline) ss) (functions : All IsWholeFunction ws)
    (first : record_lines none (lines_of ss) [] ≡ ok p) where
  abbrev unit_fuel : ℕ
  unit_fuel = suc (length ss + 2 * length (whole_items ws))

  -- What the rounds over the functions come to is the unit of the tree.
  pub build-read :
      (kids nodes : Nodes) (table : LineTable)
      → build_subtree
          (suc (suc (length ss + 2 * length (whole_items ws))))
          (some (unit_draft so))
          (in_unit [] so.string p.1)
          (reading_with (whole_items ws) (line_nodes ss) nil so.string p.0)
        ≡ (ok (node (unit_draft so).own kids), reading_with [] nodes nil so.string table)
      → build (whole_unit so ss ws) ≡ (
        ok (node (new_node n_undf [] [] 0 0) (cons (node (unit_draft so).own kids) nil)),
        reading_with [] nodes nil so.string table,
      )
  build-read kids nodes table read =
      let rest = stabs_items ss ++ whole_items ws in
      build-unit (stab so) rest (node (unit_draft so).own kids) nodes nil so.string table
        (ap (λ n. build_subtree n none (new_locals none none none) (on_items (stab so ∷ rest)))
            {y = suc (rounds ss (suc unit_fuel))}
            (omega (arith, rounds-length ss (suc unit_fuel), length-items_of ss (whole_items ws)))
          ∙ build_subtree-so (rounds ss (suc unit_fuel)) so rest so_type is_file
          ∙ build_subtree-slines (suc unit_fuel) (some (unit_draft so)) [] so.string none ss
              (whole_items ws) nil nil [] p line_types first
          ∙ read)
        so (ss ++ whole_stabs ws)
        (items-cons so (ss ++ whole_stabs ws) (rw so_type refl)
          ∙ ap (λ r. stab so ∷ r)
              (items-lines ss (whole_stabs ws) line_types
                ∙ ap (λ r. stabs_items ss ++ r) (items-wholes ws functions)))

  -- The stabs of a file (N_SO with a name that does not end in a slash, lines) whose functions have parameters, local
  -- variables and scopes of any depth, in the order in which GCC emits them and with a colon in each name, make the tree
  -- of root, file and functions: each function has its own lines, its parameters and its scopes, and each scope its
  -- address range, its variables and the scopes in it. A function ends where the next one begins, the last one has the
  -- end 0. It is assumed that the functions behind the first one begin in no earlier line than it and have no scope
  -- inside a scope, and that all lines can be recorded; the table of lines is the recorded one.
  pub build-whole_functions :
      (table : LineTable)
      → InOrder ws
      → Recorded p.1 (functions_of ws) p.0 table
      → build (whole_unit so ss ws) ≡ (
        ok (node (new_node n_undf [] [] 0 0) (cons (whole_unit_node so ss ws) nil)),
        reading_with [] (lines_left (line_nodes ss) ws) nil so.string table,
      )
  build-whole_functions table in_order others =
      build-read (whole_nodes (line_nodes ss) ws) (lines_left (line_nodes ss) ws) table (
        build_subtree-wholes unit_fuel so ws p.1 (line_nodes ss) nil p.0 table functions in_order
          others (omega arith))
