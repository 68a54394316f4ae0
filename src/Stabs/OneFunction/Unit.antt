-- ===== src/Stabs/OneFunction/Unit.antt =====
-- What `build` of host/stabslib.py makes of the stabs of one compilation unit, from what `_build_subtree` makes of them.
use cwdbg.Base.{
  ℕ, suc, ◌+◌, ◌*◌, ◌≡◌, refl, ap, ◌∙◌, List, [], ◌∷◌, none, Bytes, arith, length, ok, pure,
}
use cwdbg.Stabs.Types.{n_undf}
use cwdbg.Stabs.Nodes.{Stab, ProgramNode, Nodes, node, nil, cons}
use cwdbg.Stabs.Builder.Lines.{LineTable}
use cwdbg.Stabs.Builder.State.{Item, new_locals, new_node}
use cwdbg.Stabs.Builder.{build_subtree, build_units, items, new_builder, build}
use cwdbg.Stabs.OneFunction.{reading_with, on_items}
use cwdbg.Stabs.OneFunction.Rounds.{bind-ok}

module _ (i : Item) (rest : List Item) (unit : ProgramNode) (nodes funcs : Nodes) (name : Bytes)
    (table : LineTable)
    (read : build_subtree
        (2 * length (i ∷ rest) + 1)
        none
        (new_locals none none none)
        (on_items (i ∷ rest))
      ≡ (ok unit, reading_with [] nodes funcs name table)) where
  build_units-unit :
      (fuel : ℕ)
      → build_units (suc (suc fuel)) nil (on_items (i ∷ rest))
        ≡ (ok (cons unit nil), reading_with [] nodes funcs name table)
  unfolding build_units
  build_units-unit fuel = rw read refl

  pub build-unit :
      (s : Stab) (ss : List Stab)
      → items (s ∷ ss) ≡ i ∷ rest
      → build (s ∷ ss) ≡ (
        ok (node (new_node n_undf [] [] 0 0) (cons unit nil)),
        reading_with [] nodes funcs name table,
      )
  unfolding build new_builder
  build-unit s ss e =
      bind-ok (build_units (length (s ∷ ss) + 1) nil)
        (λ units. pure (node (new_node n_undf [] [] 0 0) units)) (new_builder (s ∷ ss))
        (cons unit nil) (reading_with [] nodes funcs name table)
        (ap (build_units (length (s ∷ ss) + 1) nil) (ap on_items e)
          ∙ ap (λ n. build_units n nil (on_items (i ∷ rest))) {y = suc (suc (length ss))}
              (omega arith)
          ∙ build_units-unit (length ss))
