-- ===== src/Stabs/Scopes/Rounds.antt =====
-- The rounds of `_build_subtree`, host/stabslib.py, over scopes.
use cwdbg.Base.{
  ℕ, suc, ◌+◌, ◌-◌, ◌≤◌, ◌≡◌, refl, ap, sym, ◌∙◌, subst, List, [], ◌∷◌, none, some, Bytes, All,
  arith, nat_key, ok, ◌>>=◌,
}
use cwdbg.Stabs.Types.{n_lbrac, n_rbrac}
use cwdbg.Stabs.Nodes.{Stab, ProgramNode, Nodes, nil, cons, extend, extend-nil, extend_assoc, info}
use cwdbg.Stabs.Builder.Lines.{LineTable}
use cwdbg.Stabs.Builder.State.{
  Builder, finished, end_at, Item, stab, Draft, Locals, new_locals, new_node, with_children,
  push_stab, take_nodes, take_func_nodes,
}
use cwdbg.Stabs.Builder.Branches.{
  Call, on_lbrac, on_rbrac, new_scope, add_scope, nested_functions, scope_name,
}
use cwdbg.Stabs.Builder.{branch_of, run_branch, on_stab, on_item, build_subtree}
use cwdbg.Stabs.OneFunction.{reading_with}
use cwdbg.Stabs.OneFunction.Rounds.{bind-ok}
use cwdbg.Stabs.Scopes.{
  Stays, StaysBehind, Variable, IsLocal, Scopes, no_scopes, scope, IsScopes, scope_items,
  variable_nodes, scope_node, scope_nodes, variable_rounds, scope_rounds, call_rounds,
}
use cwdbg.Stabs.Scopes.Variables.{below_is, build_subtree-locals}

variable_rounds-add :
    (vs : List Variable) (m n : ℕ) → variable_rounds vs (m + n) ≡ variable_rounds vs m + n
variable_rounds-add [] m n = refl
variable_rounds-add (v ∷ vs) m n = omega (arith, variable_rounds-add vs m n)

pub scope_rounds-add : (ss : Scopes) (n : ℕ) → scope_rounds ss n ≡ scope_rounds ss 0 + n
scope_rounds-add no_scopes n = omega arith
scope_rounds-add (scope locals l inner r more) n =
    ap (variable_rounds locals) {y = suc (scope_rounds more 0) + n}
      (omega (arith, scope_rounds-add more n))
    ∙ variable_rounds-add locals (suc (scope_rounds more 0)) n

module _ (unit : Bytes) (table : LineTable) where
  -- A scope begins: the variables in front of it, and the functions that it takes, become its children.
  pub build_subtree-lbrac :
      (fuel func_lineno : ℕ) (l : Stab) (rest : List Item) (nodes funcs taken left : Nodes)
      → l.type ≡ n_lbrac
      → nested_functions func_lineno (reading_with rest nil funcs unit table)
        ≡ (ok taken, reading_with rest nil left unit table)
      → build_subtree
          (suc fuel)
          none
          (new_locals none (some func_lineno) none)
          (reading_with (stab l ∷ rest) nodes funcs unit table)
        ≡ build_subtree fuel
            (some (record {
              own = new_node n_lbrac (scope_name l.value) [] l.value 0;
              below = extend nodes taken;
            }))
            (new_locals none (some func_lineno) none)
            (reading_with rest nil left unit table)
  unfolding build_subtree on_item on_stab branch_of run_branch on_lbrac take_nodes new_scope
  build_subtree-lbrac fuel func_lineno l rest nodes funcs taken left h k = rw (h, k) refl

  pub build_subtree-rbrac :
      (fuel : ℕ) (d : Draft) (f : Locals) (r : Stab) (rest : List Item) (nodes funcs : Nodes)
      → r.type ≡ n_rbrac
      → build_subtree (suc fuel) (some d) f (reading_with (stab r ∷ rest) nodes funcs unit table)
        ≡ (ok (finished (end_at d r.value)), reading_with rest nodes funcs unit table)
  unfolding build_subtree on_item on_stab branch_of run_branch on_rbrac
  build_subtree-rbrac fuel d f r rest nodes funcs h = rw h refl

  on_item-lbrac :
      (again : Call) (d : Draft) (f : Locals) (l : Stab) (rest : List Item) (b : Builder)
      → l.type ≡ n_lbrac
      → on_item again (some d) f (stab l ∷ rest) b
        ≡ (again none (new_locals none (some d.own.lineno) none) >>= add_scope again d f)
            (record b { stabs = stab l ∷ rest })
  unfolding on_item on_stab branch_of run_branch on_lbrac push_stab
  on_item-lbrac again d f l rest b h = rw h refl

  add_scope-scope :
      (again : Call) (d : Draft) (f : Locals) (child : ProgramNode) (b : Builder)
      → (info child).type ≡ n_lbrac
      → add_scope again d f child b ≡ again (some (with_children d (cons child nil))) f b
  unfolding add_scope
  add_scope-scope again d f child b h = rw h refl

  -- In a function or a scope, N_LBRAC is put back and read again by the call for the scope.
  pub build_subtree-enter :
      (fuel : ℕ) (d : Draft) (f : Locals) (l : Stab) (rest : List Item) (nodes funcs : Nodes)
      (child : ProgramNode) (b : Builder)
      → l.type ≡ n_lbrac
      → (info child).type ≡ n_lbrac
      → build_subtree fuel none
          (new_locals none (some d.own.lineno) none)
          (reading_with (stab l ∷ rest) nodes funcs unit table)
        ≡ (ok child, b)
      → build_subtree (suc fuel) (some d) f (reading_with (stab l ∷ rest) nodes funcs unit table)
        ≡ build_subtree fuel (some (with_children d (cons child nil))) f b
  unfolding build_subtree
  build_subtree-enter fuel d f l rest nodes funcs child b h is_scope k =
      on_item-lbrac (build_subtree fuel) d f l rest
        (reading_with (stab l ∷ rest) nodes funcs unit table) h
      ∙ bind-ok (build_subtree fuel none (new_locals none (some d.own.lineno) none))
          (add_scope (build_subtree fuel) d f) (reading_with (stab l ∷ rest) nodes funcs unit table)
          child b k
      ∙ add_scope-scope (build_subtree fuel) d f child b is_scope

  pub nested_functions-Stays :
      (func_lineno : ℕ) (rest : List Item) (funcs : Nodes)
      → Stays func_lineno funcs
      → nested_functions func_lineno (reading_with rest nil funcs unit table)
        ≡ (ok nil, reading_with rest nil funcs unit table)
  unfolding nested_functions take_func_nodes
  nested_functions-Stays func_lineno rest nil stays = refl
  nested_functions-Stays func_lineno rest (cons first others) stays = ground arith

  -- A scope of the line `func_lineno` takes these of the functions that wait, and leaves those.
  abbrev pub Takes : ℕ → Nodes → Nodes → Nodes → Type 0
  Takes func_lineno funcs taken left =
      (rest : List Item)
      → nested_functions func_lineno (reading_with rest nil funcs unit table)
        ≡ (ok taken, reading_with rest nil left unit table)

  -- The rounds over some scopes give these children to the function or the scope that they stand in.
  abbrev pub Reads : Scopes → Draft → Nodes → Nodes → Nodes → Type 0
  Reads ss d funcs kids left =
      (fuel : ℕ) (f : Locals) (rest : List Item)
      → call_rounds ss ≤ fuel
      → build_subtree (scope_rounds ss fuel) (some d) f
          (reading_with (scope_items ss rest) nil funcs unit table)
        ≡ build_subtree fuel (some (with_children d kids)) f (reading_with rest nil left unit table)

  abbrev pub scope_draft : Stab → Nodes → Draft
  scope_draft l nodes = record {
    own = new_node n_lbrac (scope_name l.value) [] l.value 0;
    below = nodes;
  }

  -- The call for one scope.
  build_subtree-scope :
      (fuel func_lineno : ℕ) (l r : Stab) (inner : Scopes) (rest : List Item)
      (nodes funcs taken between kids left : Nodes)
      → l.type ≡ n_lbrac
      → r.type ≡ n_rbrac
      → Takes func_lineno funcs taken between
      → Reads inner (scope_draft l (extend nodes taken)) between kids left
      → 2 + scope_rounds inner 0 + call_rounds inner ≤ fuel
      → build_subtree fuel none
          (new_locals none (some func_lineno) none)
          (reading_with (stab l ∷ scope_items inner (stab r ∷ rest)) nodes funcs unit table)
        ≡ (
          ok (scope_node l r (extend (extend nodes taken) kids)),
          reading_with rest nil left unit table,
        )
  build_subtree-scope fuel func_lineno l r inner rest nodes funcs taken between kids left is_l is_r
        takes read enough =
      let spare : ℕ = fuel - (2 + scope_rounds inner 0) in
      let f = new_locals none (some func_lineno) none in
      ap
        (λ n.
          build_subtree n none f
            (reading_with (stab l ∷ scope_items inner (stab r ∷ rest)) nodes funcs unit table))
        {y = suc (scope_rounds inner (suc spare))}
        (omega (arith, scope_rounds-add inner (suc spare)))
      ∙ build_subtree-lbrac (scope_rounds inner (suc spare)) func_lineno l
          (scope_items inner (stab r ∷ rest)) nodes funcs taken between is_l
          (takes (scope_items inner (stab r ∷ rest)))
      ∙ read (suc spare) f (stab r ∷ rest) (omega arith)
      ∙ build_subtree-rbrac spare (with_children (scope_draft l (extend nodes taken)) kids) f r rest
          nil left is_r

  -- A scope, and the scopes behind it.
  pub scope-Reads :
      (locals : List Variable) (l r : Stab) (inner more : Scopes) (d : Draft)
      (funcs taken between kids left others last : Nodes)
      → All IsLocal locals
      → l.type ≡ n_lbrac
      → r.type ≡ n_rbrac
      → Takes d.own.lineno funcs taken between
      → Reads inner (scope_draft l (extend (variable_nodes locals) taken)) between kids left
      → let child = scope_node l r (extend (extend (variable_nodes locals) taken) kids) in
        Reads more (with_children d (cons child nil)) left others last
        → Reads (scope locals l inner r more) d funcs (cons child others) last
  scope-Reads locals l r inner more d funcs taken between kids left others last all is_l is_r takes
        read further fuel f rest enough =
      let child = scope_node l r (extend (extend (variable_nodes locals) taken) kids) in
      let behind = scope_items inner (stab r ∷ scope_items more rest) in
      build_subtree-locals unit table (suc (scope_rounds more fuel)) (some d) f locals
        (stab l ∷ behind) nil funcs all
      ∙ build_subtree-enter (scope_rounds more fuel) d f l behind (variable_nodes locals) funcs
          child (reading_with (scope_items more rest) nil left unit table) is_l refl
          (build_subtree-scope (scope_rounds more fuel) d.own.lineno l r inner
            (scope_items more rest) (variable_nodes locals) funcs taken between kids left is_l is_r
            takes read (omega (arith, scope_rounds-add more fuel, enough)))
      ∙ further fuel f rest (omega (arith, enough))
      ∙ ap
          (λ ns.
            build_subtree fuel (some (below_is unit table d ns)) f
              (reading_with rest nil last unit table))
          (extend_assoc d.below (cons child nil) others)

  -- Scopes of any depth become children of the function or of the scope that they stand in, each with its variables in
  -- front of the scopes in it.
  pub scopes-Reads :
      (ss : Scopes) (d : Draft) (funcs : Nodes)
      → IsScopes ss
      → StaysBehind d.own.lineno funcs ss
      → Reads ss d funcs (scope_nodes ss) funcs
  scopes-Reads no_scopes d funcs all behind = λ fuel f rest enough.
      ap
        (λ ns.
          build_subtree fuel (some (below_is unit table d ns)) f
            (reading_with rest nil funcs unit table))
        (sym (extend-nil d.below))
  scopes-Reads (scope locals l inner r more) d funcs (all, is_l, inside, is_r, others)
        (stays, behind, further) =
      let vars = variable_nodes locals in
      subst
        (λ ns.
          Reads (scope locals l inner r more) d funcs
            (cons (scope_node l r (extend ns (scope_nodes inner))) (scope_nodes more)) funcs)
        (extend-nil vars)
        (scope-Reads locals l r inner more d funcs nil funcs (scope_nodes inner) funcs
          (scope_nodes more) funcs all is_l is_r
          (λ rest. nested_functions-Stays d.own.lineno rest funcs stays)
          (scopes-Reads inner (scope_draft l (extend vars nil)) funcs inside behind)
          (scopes-Reads more
            (with_children d
              (cons (scope_node l r (extend (extend vars nil) (scope_nodes inner))) nil))
            funcs others further))
