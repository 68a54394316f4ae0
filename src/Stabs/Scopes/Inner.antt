-- ===== src/Stabs/Scopes/Inner.antt =====
-- A function that is followed by one with a scope inside a scope, host/stabslib.py.
use cwdbg.Base.{
  ℕ, suc, ◌+◌, ◌*◌, ◌-◌, ◌<◌, ◌≤◌, ◌≡◌, ap, sym, ◌∙◌, subst, false, List, [], ◌∷◌, none, some, All,
  arith, length, Bytes, text_key, Option, ok,
}
use cwdbg.Stabs.Types.{n_undf, n_so, n_sline}
use cwdbg.Stabs.Text.{ends_with}
use cwdbg.Stabs.Nodes.{Stab, ProgramNode, Nodes, node, nil, cons, info, extend, extend-nil}
use cwdbg.Stabs.Builder.Lines.{LineTable}
use cwdbg.Stabs.Builder.State.{Draft, new_node, take_func_nodes, with_children}
use cwdbg.Stabs.Builder.Branches.{nested_functions}
use cwdbg.Stabs.Builder.{build_subtree, build}
use cwdbg.Stabs.Rising.{record_lines}
use cwdbg.Stabs.OneFunction.{lines_of, line_nodes, in_unit, reading_with, unit_draft}
use cwdbg.Stabs.Functions.{Recorded, function_draft}
use cwdbg.Stabs.Scopes.{Variable, Scopes, scope, IsScopes, scope_nodes, scope_node, variable_nodes}
use cwdbg.Stabs.Scopes.Rounds.{
  Takes, Reads, scope_draft, scope-Reads, scopes-Reads, nested_functions-Stays,
}
use cwdbg.Stabs.Scopes.Functions.{
  WholeFunction, IsWholeFunction, functions_of, whole_items, whole_node, whole_node_with,
  StaysBehind-nil, length-whole_items,
}
use cwdbg.Stabs.Scopes.Units.{build_subtree-add_whole, build_subtree-unit_end}
use cwdbg.Stabs.Scopes.Build.{whole_unit, build-read}

-- A scope with a scope in it, which comes first in it.
pub record Outer : Type 0 where
  pub locals : List Variable
  pub lbrac : Stab
  pub rbrac : Stab
  pub inner_locals : List Variable
  pub inner_lbrac : Stab
  pub inner_rbrac : Stab
  pub inside : Scopes
  pub beside : Scopes
  pub behind : Scopes

abbrev pub outer_scopes : Outer → Scopes
outer_scopes o =
    scope o.locals o.lbrac (scope o.inner_locals o.inner_lbrac o.inside o.inner_rbrac o.beside)
      o.rbrac o.behind

-- Its nodes, with these functions in the inner scope.
abbrev pub nodes_with : Outer → Nodes → Nodes
nodes_with o funcs =
    cons
      (scope_node o.lbrac o.rbrac (
        extend (variable_nodes o.locals) (
          cons
            (scope_node o.inner_lbrac o.inner_rbrac
              (extend (extend (variable_nodes o.inner_locals) funcs) (scope_nodes o.inside)))
            (scope_nodes o.beside))))
      (scope_nodes o.behind)

module _ (unit : Bytes) (table : LineTable) where
  nested_functions-taken :
      (first : ProgramNode) (others : Nodes)
      → 0 < (info first).lineno
      → Takes unit table 0 (cons first others) (cons first others) nil
  unfolding nested_functions take_func_nodes
  nested_functions-taken first others below rest = ground arith

  -- The scope of the line of its function takes none of the functions that wait, the scope in it, which has the line 0,
  -- takes them all.
  outer-Reads :
      (o : Outer) (d : Draft) (first : ProgramNode) (others : Nodes)
      → IsScopes (outer_scopes o)
      → 0 < (info first).lineno
      → (info first).lineno ≤ d.own.lineno
      → Reads unit table
          (outer_scopes o)
          d
          (cons first others)
          (nodes_with o (cons first others))
          nil
  outer-Reads o d first others
        (all, is_l, (inner_all, is_inner_l, inside, is_inner_r, beside), is_r, behind) below le =
      let funcs = cons first others in
      let vars = variable_nodes o.locals in
      let inner =
        scope_node o.inner_lbrac o.inner_rbrac
          (extend (extend (variable_nodes o.inner_locals) funcs) (scope_nodes o.inside)) in
      subst
        (λ ns.
          Reads unit table (outer_scopes o) d funcs
            (cons (scope_node o.lbrac o.rbrac (extend ns (cons inner (scope_nodes o.beside))))
              (scope_nodes o.behind))
            nil)
        (extend-nil vars)
        (scope-Reads unit table o.locals o.lbrac o.rbrac
          (scope o.inner_locals o.inner_lbrac o.inside o.inner_rbrac o.beside) o.behind d funcs nil
          funcs (cons inner (scope_nodes o.beside)) nil (scope_nodes o.behind) nil all is_l is_r
          (λ rest. nested_functions-Stays unit table d.own.lineno rest funcs le)
          (scope-Reads unit table o.inner_locals o.inner_lbrac o.inner_rbrac o.inside o.beside
            (scope_draft unit table o.lbrac (extend vars nil)) funcs funcs nil
            (scope_nodes o.inside) nil (scope_nodes o.beside) nil inner_all is_inner_l is_inner_r
            (nested_functions-taken first others below)
            (scopes-Reads unit table o.inside
              (scope_draft unit table o.inner_lbrac (extend (variable_nodes o.inner_locals) funcs))
              nil inside (StaysBehind-nil 0 o.inside))
            (scopes-Reads unit table o.beside
              (with_children (scope_draft unit table o.lbrac (extend vars nil)) (cons inner nil))
              nil beside (StaysBehind-nil 0 o.beside)))
          (scopes-Reads unit table o.behind _ nil behind (StaysBehind-nil d.own.lineno o.behind)))

-- The first function, and the second one with the first in its inner scope.
abbrev pub first_node : List Stab → WholeFunction → WholeFunction → ProgramNode
first_node ss f g = whole_node f (g ∷ []) (line_nodes ss)

abbrev pub second_node : List Stab → WholeFunction → WholeFunction → Outer → ProgramNode
second_node ss f g o =
    whole_node_with g [] (line_nodes f.function.behind)
      (nodes_with o (cons (first_node ss f g) nil))

module _ (so : Stab) (ss : List Stab) (f g : WholeFunction) (o : Outer) (p : LineTable × Option ℕ)
    (table : LineTable) (so_type : so.type ≡ n_so) (is_file : ends_with b'/' so.string ≡ false)
    (line_types : All (λ (s : Stab). s.type ≡ n_sline) ss)
    (functions : All IsWholeFunction (f ∷ g ∷ [])) (nested : g.scopes ≡ outer_scopes o)
    (first : record_lines none (lines_of ss) [] ≡ ok p)
    (others : Recorded p.1 (functions_of (f ∷ g ∷ [])) p.0 table) where
  -- In a file with two functions, with their parameters and scopes, where the first begins in a line from 1 on and the second in no earlier line
  -- than the first, and the second has a scope whose first part is a scope, and if all lines can be recorded, the first
  -- function is missing among the children of the file: its node is put into the inner scope of the second one, behind
  -- the variables of that scope, as if it were nested there.
  pub build-inner_scope :
      0 < f.function.fn.desc
      → f.function.fn.desc ≤ g.function.fn.desc
      → build (whole_unit so ss (f ∷ g ∷ [])) ≡ (
        ok (
            node
              (new_node n_undf [] [] 0 0)
              (cons (node (unit_draft so).own (cons (second_node ss f g o) nil)) nil)),
        reading_with [] (line_nodes g.function.behind) nil so.string table,
      )
  build-inner_scope below le =
      let (q, read, (r, read', same)) = others in
      let fuel : ℕ = length ss + 2 * length (whole_items (f ∷ g ∷ [])) in
      let d =
        function_draft g.function
          (extend (line_nodes f.function.behind) (variable_nodes g.parameters)) in
      build-read so ss (f ∷ g ∷ []) p so_type is_file line_types functions first
        (cons (second_node ss f g o) nil) (line_nodes g.function.behind) table
        (build_subtree-add_whole (suc fuel) so f (g ∷ []) p.1 (line_nodes ss) nil
            (scope_nodes f.scopes) nil p.0 q functions
            (scopes-Reads so.string p.0 f.scopes
              (function_draft f.function (extend (line_nodes ss) (variable_nodes f.parameters))) nil
              functions.0.are_scopes (StaysBehind-nil f.function.fn.desc f.scopes))
            read (omega arith)
          ∙ build_subtree-add_whole fuel so g [] p.1 (line_nodes f.function.behind)
              (cons (first_node ss f g) nil) (nodes_with o (cons (first_node ss f g) nil)) nil q.0 r
              functions.1
              (subst
                (λ s.
                  Reads so.string q.0 s d (cons (first_node ss f g) nil)
                    (nodes_with o (cons (first_node ss f g) nil)) nil)
                (sym nested)
                (outer-Reads so.string q.0 o d (first_node ss f g) nil
                  (subst IsScopes nested functions.1.0.are_scopes) below le))
              read' (omega (arith, length-whole_items f (g ∷ [])))
          ∙ ap
              (λ n. build_subtree n (some (unit_draft so)) (in_unit [] so.string p.1) (
                reading_with [] (line_nodes g.function.behind) (cons (second_node ss f g o) nil)
                  so.string r.0))
              {y = suc (fuel - 1)} (omega (arith, length-whole_items f (g ∷ [])))
          ∙ build_subtree-unit_end (fuel - 1) so p.1 (line_nodes g.function.behind)
              (cons (second_node ss f g o) nil) r.0
          ∙ ap
              (λ t. (
                ok (node (unit_draft so).own (cons (second_node ss f g o) nil)),
                reading_with [] (line_nodes g.function.behind) nil so.string t,
              ))
              same)
