-- ===== src/Stabs/Scopes/Variables.antt =====
-- The rounds of `_build_subtree`, host/stabslib.py, over variables.
use cwdbg.Base.{
  ℕ, suc, ◌≡◌, refl, ap, sym, ◌∙◌, true, List, [], ◌∷◌, some, Bytes, All, arith, ◌==◌, ◌||◌,
  nat_key, Option,
}
use cwdbg.Stabs.Types.{n_lsym, n_rsym}
use cwdbg.Stabs.Nodes.{Nodes, nil, cons, extend, append, extend-nil, extend_assoc}
use cwdbg.Stabs.Builder.Lines.{LineTable}
use cwdbg.Stabs.Builder.State.{
  Item, stab, Draft, Locals, with_children, push_node, of_option, split_symbol,
}
use cwdbg.Stabs.Builder.Branches.{on_symbol, add_symbol, on_local}
use cwdbg.Stabs.Builder.{at_local, branch_of, run_branch, on_stab, on_item, build_subtree}
use cwdbg.Stabs.OneFunction.{reading_with}
use cwdbg.Stabs.Scopes.{
  Variable, IsParameter, IsLocal, variable_items, variable_node, variable_nodes, variable_rounds,
}

branch_of-local : (t : ℕ) → (t == n_lsym || t == n_rsym) ≡ true → branch_of t ≡ at_local
unfolding branch_of
branch_of-local t h = ground arith

module _ (unit : Bytes) (table : LineTable) where
  build_subtree-local :
      (fuel : ℕ) (d : Option Draft) (f : Locals) (v : Variable) (rest : List Item)
      (nodes funcs : Nodes)
      → IsLocal v
      → build_subtree (suc fuel) d f (reading_with (stab v.own ∷ rest) nodes funcs unit table)
        ≡ build_subtree fuel d f
            (reading_with rest (append nodes (variable_node v)) funcs unit table)
  unfolding build_subtree on_item on_stab run_branch on_local split_symbol of_option push_node
  build_subtree-local fuel d f v rest nodes funcs h =
      rw (branch_of-local v.own.type h.is_local, h.is_named) refl

  pub build_subtree-locals :
      (fuel : ℕ) (d : Option Draft) (f : Locals) (vs : List Variable) (rest : List Item)
      (nodes funcs : Nodes)
      → All IsLocal vs
      → build_subtree
          (variable_rounds vs fuel)
          d
          f
          (reading_with (variable_items vs rest) nodes funcs unit table)
        ≡ build_subtree fuel d f
            (reading_with rest (extend nodes (variable_nodes vs)) funcs unit table)
  build_subtree-locals fuel d f [] rest nodes funcs all =
      ap (λ ns. build_subtree fuel d f (reading_with rest ns funcs unit table))
        (sym (extend-nil nodes))
  build_subtree-locals fuel d f (v ∷ vs) rest nodes funcs (h, all) =
      build_subtree-local (variable_rounds vs fuel) d f v (variable_items vs rest) nodes funcs h
      ∙ build_subtree-locals fuel d f vs rest (append nodes (variable_node v)) funcs all
      ∙ ap (λ ns. build_subtree fuel d f (reading_with rest ns funcs unit table))
          (extend_assoc nodes (cons (variable_node v) nil) (variable_nodes vs))

  build_subtree-parameter :
      (fuel : ℕ) (d : Draft) (f : Locals) (v : Variable) (rest : List Item) (nodes funcs : Nodes)
      → IsParameter v
      → build_subtree
          (suc fuel)
          (some d)
          f
          (reading_with (stab v.own ∷ rest) nodes funcs unit table)
        ≡ build_subtree fuel
            (some (with_children d (cons (variable_node v) nil)))
            f
            (reading_with rest nodes funcs unit table)
  unfolding build_subtree on_item on_stab branch_of run_branch on_symbol add_symbol split_symbol
      of_option
  build_subtree-parameter fuel d f v rest nodes funcs h = rw (h.is_parameter, h.is_named) refl

  abbrev pub below_is : Draft → Nodes → Draft
  below_is d nodes = record d { below = nodes }

  -- The parameters of a function become its children.
  pub build_subtree-parameters :
      (fuel : ℕ) (d : Draft) (f : Locals) (vs : List Variable) (rest : List Item)
      (nodes funcs : Nodes)
      → All IsParameter vs
      → build_subtree
          (variable_rounds vs fuel)
          (some d)
          f
          (reading_with (variable_items vs rest) nodes funcs unit table)
        ≡ build_subtree fuel
            (some (with_children d (variable_nodes vs)))
            f
            (reading_with rest nodes funcs unit table)
  build_subtree-parameters fuel d f [] rest nodes funcs all =
      ap
        (λ ns.
          build_subtree fuel (some (below_is d ns)) f (reading_with rest nodes funcs unit table))
        (sym (extend-nil d.below))
  build_subtree-parameters fuel d f (v ∷ vs) rest nodes funcs (h, all) =
      build_subtree-parameter (variable_rounds vs fuel) d f v (variable_items vs rest) nodes funcs h
      ∙ build_subtree-parameters fuel (with_children d (cons (variable_node v) nil)) f vs rest nodes
          funcs all
      ∙ ap
          (λ ns.
            build_subtree fuel (some (below_is d ns)) f (reading_with rest nodes funcs unit table))
          (extend_assoc d.below (cons (variable_node v) nil) (variable_nodes vs))
