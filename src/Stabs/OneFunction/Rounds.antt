-- ===== src/Stabs/OneFunction/Rounds.antt =====
-- The rounds of `_build_subtree`, host/stabslib.py, over a compilation unit with one function.
use cwdbg.Base.{
  ℕ, suc, ◌≡◌, refl, ap, sym, ◌∙◌, false, List, [], ◌∷◌, ◌++◌, Option, none, some, Bytes, All,
  eq_text_refl, lookup, insert, text_key, Outcome, ok, Exec, proceed, ◌>>=◌,
}
use cwdbg.Stabs.Types.{n_so, n_fun, n_sline}
use cwdbg.Stabs.Text.{split_once, ends_with}
use cwdbg.Stabs.Nodes.{Stab, Nodes, node, nil, cons, extend, append, extend-nil, extend_assoc}
use cwdbg.Stabs.Builder.Lines.{LineTable, record_line}
use cwdbg.Stabs.Builder.State.{
  Item, stab, Builder, Draft, Locals, new_locals, new_node, push_stab, push_node, push_func_node,
  take_nodes, take_func_nodes, of_option, split_symbol,
}
use cwdbg.Stabs.Builder.Branches.{
  Call, on_so, on_fun, leave_or_call, add_function, on_sline, store_line, store_in, store_recorded,
}
use cwdbg.Stabs.Builder.{branch_of, run_branch, on_stab, at_last, on_item, build_subtree}
use cwdbg.Stabs.Rising.{record_lines, record_lines-cons}
use cwdbg.Stabs.OneFunction.{
  lines_of, line_nodes, stabs_items, rounds, in_unit, reading, reading_with, unit_draft,
  function_node,
}

store_line-reading :
    (srcdir unit : Bytes) (prev : Option ℕ) (s : Stab) (rest : List Item) (nodes funcs : Nodes)
    (table : LineTable) (q : LineTable × Option ℕ)
    → record_line prev s.desc s.value table ≡ ok q
    → store_line (in_unit srcdir unit prev) s (some unit) (reading_with rest nodes funcs unit table)
      ≡ (ok q.1, reading_with rest nodes funcs unit q.0)
unfolding store_line store_in store_recorded lookup insert
store_line-reading srcdir unit prev s rest nodes funcs table q e =
    rw (eq_text_refl unit, e, eq_text_refl unit) refl

build_subtree-sline :
    (fuel : ℕ) (d : Option Draft) (srcdir unit : Bytes) (prev : Option ℕ) (s : Stab)
    (rest : List Item) (nodes funcs : Nodes) (table : LineTable) (q : LineTable × Option ℕ)
    → s.type ≡ n_sline
    → record_line prev s.desc s.value table ≡ ok q
    → build_subtree
        (suc fuel)
        d
        (in_unit srcdir unit prev)
        (reading_with (stab s ∷ rest) nodes funcs unit table)
      ≡ build_subtree fuel d (in_unit srcdir unit q.1) (
          reading_with rest
            (append nodes (node (new_node n_sline [] [] s.value s.desc) nil))
            funcs
            unit
            q.0)
unfolding build_subtree on_item on_stab branch_of run_branch on_sline store_line push_node
build_subtree-sline fuel d srcdir unit prev s rest nodes funcs table q h e = rw h (
    rw
      (store_line-reading srcdir unit prev s rest
        (append nodes (node (new_node n_sline [] [] s.value s.desc) nil)) funcs table q e)
      refl)

pub build_subtree-slines :
    (fuel : ℕ) (d : Option Draft) (srcdir unit : Bytes) (prev : Option ℕ) (ss : List Stab)
    (rest : List Item) (nodes funcs : Nodes) (table : LineTable) (p : LineTable × Option ℕ)
    → All (λ (s : Stab). s.type ≡ n_sline) ss
    → record_lines prev (lines_of ss) table ≡ ok p
    → build_subtree
        (rounds ss fuel)
        d
        (in_unit srcdir unit prev)
        (reading_with (stabs_items ss ++ rest) nodes funcs unit table)
      ≡ build_subtree fuel d
          (in_unit srcdir unit p.1)
          (reading_with rest (extend nodes (line_nodes ss)) funcs unit p.0)
unfolding record_lines
build_subtree-slines fuel d srcdir unit prev [] rest nodes funcs table p h e =
    ap
      (λ ns.
        build_subtree fuel d (in_unit srcdir unit prev) (reading_with rest ns funcs unit table))
      (sym (extend-nil nodes))
    ∙ ap
        (λ (q : LineTable × Option ℕ).
          build_subtree fuel d (in_unit srcdir unit q.1)
            (reading_with rest (extend nodes nil) funcs unit q.0))
        {x = (table, prev)} (cc)
build_subtree-slines fuel d srcdir unit prev (s ∷ ss) rest nodes funcs table p h e =
    let (q, e', e'') = record_lines-cons prev s.desc s.value (lines_of ss) table p e in
    build_subtree-sline (rounds ss fuel) d srcdir unit prev s (stabs_items ss ++ rest) nodes funcs
      table q h.0 e'
    ∙ build_subtree-slines fuel d srcdir unit q.1 ss rest
        (append nodes (node (new_node n_sline [] [] s.value s.desc) nil)) funcs q.0 p h.1 e''
    ∙ ap
        (λ ns. build_subtree fuel d (in_unit srcdir unit p.1) (reading_with rest ns funcs unit p.0))
        {x = extend (append nodes (node (new_node n_sline [] [] s.value s.desc) nil))
          (line_nodes ss)}
        (extend_assoc nodes (line_nodes (s ∷ [])) (line_nodes ss))

build_subtree-fun :
    (fuel : ℕ) (fn : Stab) (unit name typeid : Bytes) (prev : Option ℕ) (nodes : Nodes)
    (table : LineTable)
    → fn.type ≡ n_fun
    → split_once b':' fn.string ≡ some (name, typeid)
    → build_subtree
        (suc (suc fuel))
        none
        (new_locals (some unit) none prev)
        (reading (stab fn ∷ []) nodes unit table)
      ≡ (ok (function_node fn name nodes), reading [] nil unit table)
unfolding build_subtree on_item on_stab branch_of run_branch on_fun split_symbol of_option
    take_nodes at_last
build_subtree-fun fuel fn unit name typeid prev nodes table h e = rw (h, e) refl

pub bind-ok :
    {A B : Type 0} (m : Exec Builder A) (f : A → Exec Builder B) (b : Builder) (a : A)
    (b' : Builder)
    → m b ≡ (ok a, b')
    → (m >>= f) b ≡ f a b'
bind-ok m f b a b' e = ap (λ (r : Outcome _ × Builder). proceed r.0 f r.1) e

pub on_item-fun :
    (again : Call) (so fn : Stab) (rest : List Item) (f : Locals) (b : Builder)
    → fn.type ≡ n_fun
    → on_item again (some (unit_draft so)) f (stab fn ∷ rest) b
      ≡ (again none (new_locals (some so.string) none f.prev_lineno)
            >>= add_function again (unit_draft so) f)
          (record b { stabs = stab fn ∷ rest })
unfolding on_item on_stab branch_of run_branch on_fun push_stab leave_or_call
on_item-fun again so fn rest f b h = rw h refl

pub build_subtree-unit :
    (fuel : ℕ) (so fn : Stab) (name typeid : Bytes) (prev : Option ℕ) (nodes : Nodes)
    (table : LineTable)
    → fn.type ≡ n_fun
    → split_once b':' fn.string ≡ some (name, typeid)
    → build_subtree
        (suc (suc (suc fuel)))
        (some (unit_draft so))
        (in_unit [] so.string prev)
        (reading (stab fn ∷ []) nodes so.string table)
      ≡ (
        ok (node (unit_draft so).own (cons (function_node fn name nodes) nil)),
        reading [] nil so.string table,
      )
unfolding build_subtree on_item at_last add_function push_func_node take_func_nodes
build_subtree-unit fuel so fn name typeid prev nodes table h e =
    on_item-fun (build_subtree (suc (suc fuel))) so fn [] (in_unit [] so.string prev)
      (reading (stab fn ∷ []) nodes so.string table) h
    ∙ bind-ok (build_subtree (suc (suc fuel)) none (new_locals (some so.string) none prev))
        (add_function (build_subtree (suc (suc fuel))) (unit_draft so) (in_unit [] so.string prev))
        (reading (stab fn ∷ []) nodes so.string table) (function_node fn name nodes)
        (reading [] nil so.string table)
        (build_subtree-fun fuel fn so.string name typeid prev nodes table h e)

pub build_subtree-so :
    (fuel : ℕ) (so : Stab) (rest : List Item)
    → so.type ≡ n_so
    → ends_with b'/' so.string ≡ false
    → build_subtree
        (suc fuel)
        none
        (new_locals none none none)
        (record { stabs = stab so ∷ rest; nodes_stack = nil; func_nodes_stack = nil; lines = [] })
      ≡ build_subtree fuel
          (some (unit_draft so))
          (in_unit [] so.string none)
          (reading rest nil so.string [])
unfolding build_subtree on_item on_stab branch_of run_branch on_so insert
build_subtree-so fuel so rest h e = rw (h, e) refl
