-- ===== src/Stabs/Builder/Rounds.antt =====
-- The fuel that a round of the loop of `_build_subtree`, host/stabslib.py, uses up.
use cwdbg.Base.{
  ℕ, ◌+◌, ◌-◌, ◌*◌, ◌≤◌, ◌<◌, ◌≡◌, ap, List, [], ◌∷◌, ◌++◌, Option, none, some, Bytes, arith,
  length, insert, nat_key, text_key, assertion_error, attribute_error,
}
use cwdbg.Stabs.Types.{n_fun, n_so, n_sline}
use cwdbg.Stabs.Text.{ends_with}
use cwdbg.Stabs.Nodes.{Stab, ProgramNode, Nodes, node, nil, cons}
use cwdbg.Stabs.Builder.State.{
  Item, stab, pair, Builder, Draft, Locals, new_locals, new_node, with_children, push_stab,
  push_node, push_func_node, take_nodes, split_symbol,
}
use cwdbg.Stabs.Builder.Branches.{
  Call, on_so, add_symbol, on_symbol, on_local, add_function, leave_or_call, on_fun, store_line,
  on_sline, nested_functions, add_scope, new_scope, on_lbrac, on_rbrac, on_other,
}
use cwdbg.Stabs.Builder.{
  Branch, at_so, at_symbol, at_local, at_fun, at_sline, at_lbrac, at_rbrac, at_other, branch_of,
  run_branch, at_last, on_item,
}
use cwdbg.Stabs.Builder.Below.{
  left, Below, busy, room, Below-bind, Below-le, Below-pure, Below-throw, Below-if, Below-modify,
  split_symbol-Below, take_nodes-Below, nested_functions-Below, store_line-Below, room-le,
  room_after,
}

-- Every branch keeps within its fuel if the calls do that it makes.
module _ (again : Call) (fuel : ℕ)
    (ih : (d : Option Draft) (f : Locals) (b : Builder)
      → 2 * left b + busy d < fuel
      → Below (room d b) (again d f) b) where
  go :
      (k : ℕ) (d : Option Draft) (f : Locals) (b : Builder)
      → 2 * left b + busy d < fuel
      → room d b ≤ k
      → Below k (again d f) b
  go k d f b h l = Below-le (room d b) k (again d f) b (ih d f b h) l

  on_so-Below :
      (d : Option Draft) (f : Locals) (s : Stab) (b : Builder)
      → 2 * left b + busy d + 1 < fuel
      → Below (left b + busy d) (on_so again d f s) b
  unfolding on_so
  on_so-Below none f s b h =
      Below-if (left b + 0) (ends_with b'/' s.string) _ _ b
        (go (left b + 0) none (record f { srcdir = s.string }) b (omega arith) (omega arith))
        (let name = f.srcdir ++ s.string in
          let named = record b { lines = insert name [] b.lines } in
          let more =
            ih (some (record { own = new_node n_so name [] s.value 0; below = nil }))
              (record f { current_comp_unit = some name }) named (omega arith) in
          record { ends = more.ends; shrinks = omega (arith, more.shrinks) })
  on_so-Below (some d) f s b h = record { ends = cc; shrinks = omega arith }

  add_symbol-Below :
      (d : Option Draft) (f : Locals) (s : Stab) (p : Bytes × Bytes) (b : Builder)
      → 2 * left b + busy d + 1 < fuel
      → Below (left b) (add_symbol again d f s p) b
  unfolding add_symbol
  add_symbol-Below none f s p b h = Below-throw _ assertion_error b (omega arith)
  add_symbol-Below (some d) f s (symbol, typeid) b h = ih (some _) f b (omega arith)

  on_symbol-Below :
      (d : Option Draft) (f : Locals) (s : Stab) (b : Builder)
      → 2 * left b + busy d + 1 < fuel
      → Below (left b + busy d) (on_symbol again d f s) b
  unfolding on_symbol
  on_symbol-Below d f s b h =
      Below-bind (left b) _ (split_symbol s) (add_symbol again d f s) b (split_symbol-Below s b)
        (omega arith)
        λ p b' l. Below-le _ _ _ b' (add_symbol-Below d f s p b' (omega arith)) (omega arith)

  on_local-Below :
      (d : Option Draft) (f : Locals) (s : Stab) (b : Builder)
      → 2 * left b + busy d + 1 < fuel
      → Below (left b + busy d) (on_local again d f s) b
  unfolding on_local
  on_local-Below d f s b h =
      Below-bind (left b) _ (split_symbol s) _ b (split_symbol-Below s b) (omega arith)
        λ (symbol, typeid) b' l.
          let pushed = push_node (node (new_node s.type symbol typeid s.value 0) nil) b' in
          Below-modify _ _ _ b' (go _ d f pushed (omega arith) (omega (arith, room-le d pushed)))

  add_function-Below :
      (d : Draft) (f : Locals) (child : ProgramNode) (b : Builder)
      → 2 * left b + 1 < fuel
      → Below (left b) (add_function again d f child) b
  unfolding add_function
  add_function-Below d f child b h =
      Below-if _ _ _ _ b
        (Below-modify _ _ _ b (ih (some d) f (push_func_node child b) (omega arith)))
        (Below-throw _ assertion_error b (omega arith))

  leave_or_call-Below :
      (d : Draft) (f : Locals) (s : Stab) (b : Builder)
      → 2 * left b < fuel
      → 0 < left b
      → Below (left b) (leave_or_call again d f s) b
  unfolding leave_or_call
  leave_or_call-Below d f s b h p = Below-if _ _ _ _ b (Below-pure _ _ b (omega arith)) (
      Below-if _ _ _ _ b
        (Below-bind (left b - 1) _ _ (add_function again d f) b
          (ih none (new_locals (some d.own.name) none f.prev_lineno) b (omega arith)) (omega arith)
          λ child b' l.
            Below-le _ _ _ b' (add_function-Below d f child b' (omega arith)) (omega arith))
        (Below-throw _ assertion_error b (omega arith)))

  on_fun-Below :
      (d : Option Draft) (f : Locals) (s : Stab) (b : Builder)
      → 2 * left b + busy d + 1 < fuel
      → Below (left b + busy d) (on_fun again d f s) b
  unfolding on_fun
  on_fun-Below none f s b h =
      Below-bind (left b) _ (split_symbol s) _ b (split_symbol-Below s b) (omega arith)
        λ (symbol, typeid) b' l.
          Below-bind (left b') _ take_nodes _ b' (take_nodes-Below b') (omega arith) λ nodes b'' l'.
            Below-le _ _ _ b''
              (ih (some (record { own = new_node n_fun symbol [] s.value s.desc; below = nodes })) f
                b'' (omega arith))
              (omega arith)
  on_fun-Below (some d) f s b h = Below-modify _ _ _ b (
      Below-le _ _ _ _
        (leave_or_call-Below d f s (push_stab (stab s) b) (omega arith) (omega arith))
        (omega arith))

  on_sline-Below :
      (d : Option Draft) (f : Locals) (s : Stab) (b : Builder)
      → 2 * left b + busy d + 1 < fuel
      → Below (left b + busy d) (on_sline again d f s) b
  unfolding on_sline
  on_sline-Below d f s b h =
      let pushed = push_node (node (new_node n_sline [] [] s.value s.desc) nil) b in
      Below-modify _ _ _ b (
        Below-bind (left b) _ (store_line f s f.current_comp_unit) _ pushed
          (store_line-Below f s f.current_comp_unit pushed) (omega arith)
          λ prev b' l.
            go _ d (record f { prev_lineno = prev }) b' (omega arith) (omega (arith, room-le d b')))

  new_scope-Below :
      (f : Locals) (s : Stab) (nodes : Nodes) (n : Option ℕ) (b : Builder)
      → 2 * left b + 1 < fuel
      → Below (left b) (new_scope again f s nodes n) b
  unfolding new_scope
  new_scope-Below f s nodes none b h = Below-throw _ assertion_error b (omega arith)
  new_scope-Below f s nodes (some n) b h =
      Below-bind (left b) _ (nested_functions n) _ b (nested_functions-Below n b) (omega arith)
        λ functions b' l. Below-le _ _ _ b' (ih (some _) f b' (omega arith)) (omega arith)

  on_lbrac-Below :
      (d : Option Draft) (f : Locals) (s : Stab) (b : Builder)
      → 2 * left b + busy d + 1 < fuel
      → Below (left b + busy d) (on_lbrac again d f s) b
  unfolding on_lbrac
  on_lbrac-Below none f s b h =
      Below-bind (left b) _ take_nodes _ b (take_nodes-Below b) (omega arith) λ nodes b' l.
        Below-le _ _ _ b' (new_scope-Below f s nodes f.current_func_lineno b' (omega arith))
          (omega arith)
  on_lbrac-Below (some d) f s b h =
      let pushed = push_stab (stab s) b in
      Below-modify _ _ _ b (
        Below-bind (left b) _ _ (add_scope again d f) pushed
          (go (left b) none (new_locals none (some d.own.lineno) none) pushed (omega arith)
            (omega arith))
          (omega arith) λ child b' l. add_scope-Below child b' l)
    where
      add_scope-Below :
          (child : ProgramNode) (b' : Builder)
          → left b' ≤ left b
          → Below (left b + 1) (add_scope again d f child) b'
      add_scope-Below child b' l =
          Below-if _ _ _ _ b'
            (Below-le _ _ _ b' (ih (some (with_children d (cons child nil))) f b' (omega arith))
              (omega arith))
            (Below-throw _ assertion_error b' (omega arith))

  on_rbrac-Below :
      (d : Option Draft) (s : Stab) (b : Builder) → Below (left b + busy d) (on_rbrac d s) b
  unfolding on_rbrac
  on_rbrac-Below none s b = Below-throw _ attribute_error b (omega arith)
  on_rbrac-Below (some d) s b = Below-pure _ _ b (omega arith)

  on_other-Below :
      (d : Option Draft) (s : Stab) (b : Builder) → Below (left b + busy d) (on_other s) b
  unfolding on_other
  on_other-Below d s b = record { ends = ground arith; shrinks = ground arith }

  run_branch-Below :
      (branch : Branch) (d : Option Draft) (f : Locals) (s : Stab) (b : Builder)
      → 2 * left b + busy d + 1 < fuel
      → Below (left b + busy d) (run_branch branch again d f s) b
  unfolding run_branch
  run_branch-Below at_so d f s b h = on_so-Below d f s b h
  run_branch-Below at_symbol d f s b h = on_symbol-Below d f s b h
  run_branch-Below at_local d f s b h = on_local-Below d f s b h
  run_branch-Below at_fun d f s b h = on_fun-Below d f s b h
  run_branch-Below at_sline d f s b h = on_sline-Below d f s b h
  run_branch-Below at_lbrac d f s b h = on_lbrac-Below d f s b h
  run_branch-Below at_rbrac d f s b h = on_rbrac-Below d s b
  run_branch-Below at_other d f s b h = on_other-Below d s b

  at_last-Below : (d : Option Draft) (b : Builder) → Below (left b) (at_last d) b
  unfolding at_last
  at_last-Below none b = Below-throw _ attribute_error b (omega arith)
  at_last-Below (some d) b = record { ends = ground arith; shrinks = ground arith }

  pub on_item-Below :
      (d : Option Draft) (f : Locals) (items : List Item) (b : Builder)
      → b.stabs ≡ items
      → 2 * length items + busy d < fuel + 1
      → Below (room d b) (on_item again d f items) b
  unfolding on_item
  on_item-Below d f [] b e h =
      let empty : left b ≡ 0 = ap length e in
      Below-le _ _ _ b (at_last-Below d b) (omega (arith, empty))
  on_item-Below d f (stab s ∷ rest) b e h =
      let r = run_branch-Below (branch_of s.type) d f s (record b { stabs = rest }) (omega arith) in
      record {
        ends = r.ends;
        shrinks = omega (arith, r.shrinks, room_after d rest b (ap length e));
      }
  on_item-Below d f (pair s string ∷ rest) b e h = record {
    ends = cc;
    shrinks = omega (arith, room_after d rest b (ap length e));
  }
