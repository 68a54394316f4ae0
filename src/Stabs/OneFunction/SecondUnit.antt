-- ===== src/Stabs/OneFunction/SecondUnit.antt =====
-- What `build` of host/stabslib.py makes of a second N_SO.
use cwdbg.Base.{
  ℕ, suc, ◌+◌, ◌*◌, ◌≡◌, refl, ap, ◌∙◌, false, List, [], ◌∷◌, ◌++◌, Option, none, some, Bytes,
  arith, length, All, ok, raise, Exec, ◌>>=◌, pure, attribute_error,
}
use cwdbg.Stabs.Types.{n_undf, n_so, n_sline}
use cwdbg.Stabs.Text.{ends_with}
use cwdbg.Stabs.Nodes.{Stab, ProgramNode, Nodes, node, nil, cons}
use cwdbg.Stabs.Builder.Lines.{LineTable}
use cwdbg.Stabs.Builder.State.{
  Item, stab, pair, Builder, new_locals, new_node, push_stab, take_func_nodes,
}
use cwdbg.Stabs.Builder.Branches.{on_so}
use cwdbg.Stabs.Builder.{
  branch_of, run_branch, on_stab, on_item, build_subtree, build_units, items, new_builder, build,
}
use cwdbg.Stabs.Rising.{record_lines}
use cwdbg.Stabs.OneFunction.{
  lines_of, line_nodes, stabs_items, rounds, in_unit, reading, unit_draft, on_items,
}
use cwdbg.Stabs.OneFunction.Rounds.{build_subtree-slines, build_subtree-so}
use cwdbg.Stabs.OneFunction.Build.{rounds-length, items-cons, items-slines, length-stabs_items}

build_subtree-end :
    (fuel : ℕ) (so end : Stab) (prev : Option ℕ) (rest : List Item) (nodes : Nodes)
    (table : LineTable)
    → end.type ≡ n_so
    → build_subtree
        (suc fuel)
        (some (unit_draft so))
        (in_unit [] so.string prev)
        (reading (stab end ∷ rest) nodes so.string table)
      ≡ (
        ok (node (record (unit_draft so).own { end_addr = end.value }) nil),
        reading (pair end end.string ∷ rest) nodes so.string table,
      )
unfolding build_subtree on_item on_stab branch_of run_branch on_so push_stab take_func_nodes
build_subtree-end fuel so end prev rest nodes table h = rw h refl

build_units-pair :
    (fuel : ℕ) (units : Nodes) (s : Stab) (string : Bytes) (rest : List Item) (nodes : Nodes)
    (unit : Bytes) (table : LineTable)
    → (build_units (suc fuel) units (reading (pair s string ∷ rest) nodes unit table)).0
      ≡ raise attribute_error
unfolding build_units build_subtree on_item
build_units-pair fuel units s string rest nodes unit table =
    let more : 2 * suc (length rest) + 1 ≡ suc (2 * suc (length rest)) = omega arith in rw more refl

abbrev first_unit : Stab → Stab → ProgramNode
first_unit so end = node (record (unit_draft so).own { end_addr = end.value }) nil

abbrev two_units : Stab → List Stab → Stab → List Item → List Item
two_units so ss end rest = stab so ∷ (stabs_items ss ++ stab end ∷ rest)

build_subtree-first_unit :
    (so end : Stab) (ss : List Stab) (rest : List Item) (p : LineTable × Option ℕ)
    → so.type ≡ n_so
    → ends_with b'/' so.string ≡ false
    → All (λ (s : Stab). s.type ≡ n_sline) ss
    → record_lines none (lines_of ss) [] ≡ ok p
    → end.type ≡ n_so
    → build_subtree
        (2 * length (two_units so ss end rest) + 1)
        none
        (new_locals none none none)
        (on_items (two_units so ss end rest))
      ≡ (ok (first_unit so end), reading (pair end end.string ∷ rest) (line_nodes ss) so.string p.0)
build_subtree-first_unit so end ss rest p h e hs rec h' =
    let fuel : ℕ = suc (length ss + 3 + 2 * length rest) in
    let enough : 2 * length (two_units so ss end rest) + 1 ≡ suc (rounds ss fuel) =
      omega (arith, rounds-length ss fuel, length-stabs_items ss (stab end) rest) in
    ap (λ n. build_subtree n none (new_locals none none none) (on_items (two_units so ss end rest)))
      enough
    ∙ build_subtree-so (rounds ss fuel) so (stabs_items ss ++ stab end ∷ rest) h e
    ∙ build_subtree-slines fuel (some (unit_draft so)) [] so.string none ss (stab end ∷ rest) nil
        nil [] p hs rec
    ∙ build_subtree-end (length ss + 3 + 2 * length rest) so end p.1 rest (line_nodes ss) p.0 h'

build_units-two_units :
    (fuel : ℕ) (so end : Stab) (ss : List Stab) (rest : List Item) (nodes : Nodes)
    (table : LineTable)
    → build_subtree
        (2 * length (two_units so ss end rest) + 1)
        none
        (new_locals none none none)
        (on_items (two_units so ss end rest))
      ≡ (ok (first_unit so end), reading (pair end end.string ∷ rest) nodes so.string table)
    → (build_units (suc (suc fuel)) nil (on_items (two_units so ss end rest))).0
      ≡ raise attribute_error
unfolding build_units
build_units-two_units fuel so end ss rest nodes table e =
    rw e (
      build_units-pair fuel (cons (first_unit so end) nil) end end.string rest nodes so.string
        table)

raise-bind :
    {A B : Type 0} (m : Exec Builder A) (f : A → Exec Builder B) (b : Builder)
    → (m b).0 ≡ raise attribute_error
    → ((m >>= f) b).0 ≡ raise attribute_error
raise-bind m f b e = rw e refl

-- A file that is followed by another N_SO, after its name, which does not end in a slash, and any
-- number of lines that can be recorded, cannot be read: `build` raises AttributeError, whatever
-- comes behind.
pub build_second_unit :
    (so end : Stab) (ss rest : List Stab) (p : LineTable × Option ℕ)
    → so.type ≡ n_so
    → ends_with b'/' so.string ≡ false
    → All (λ (s : Stab). s.type ≡ n_sline) ss
    → record_lines none (lines_of ss) [] ≡ ok p
    → end.type ≡ n_so
    → (build (so ∷ (ss ++ end ∷ rest))).0 ≡ raise attribute_error
unfolding build new_builder
build_second_unit so end ss rest p h e hs rec h' =
    let all = so ∷ (ss ++ end ∷ rest) in
    let read : items all ≡ two_units so ss end (items rest) =
      items-cons so (ss ++ end ∷ rest) (rw h refl)
      ∙ ap (λ r. stab so ∷ r) (items-slines ss end rest hs (rw h' refl)) in
    let units : (build_units (length all + 1) nil (on_items (items all))).0
        ≡ raise attribute_error =
      ap (λ xs. (build_units (length all + 1) nil (on_items xs)).0) read
      ∙ ap (λ n. (build_units n nil (on_items (two_units so ss end (items rest)))).0)
          {y = suc (suc (length (ss ++ end ∷ rest)))} (omega arith)
      ∙ build_units-two_units (length (ss ++ end ∷ rest)) so end ss (items rest) (line_nodes ss) p.0
          (build_subtree-first_unit so end ss (items rest) p h e hs rec h') in
    raise-bind (build_units (length all + 1) nil)
      (λ units. pure (node (new_node n_undf [] [] 0 0) units)) (on_items (items all)) units
