-- ===== src/Stabs/Functions/Rounds.antt =====
-- The rounds of `_build_subtree`, host/stabslib.py, over the functions of a compilation unit.
use cwdbg.Base.{
  ℕ, zero, suc, ◌+◌, ◌-◌, ◌<◌, ◌≤◌, ◌≡◌, refl, ap, sym, ◌∙◌, List, [], ◌∷◌, ◌++◌, Option, none,
  some, Bytes, All, arith, length, ok,
}
use cwdbg.Stabs.Nodes.{Stab, Nodes, node, nil, cons, extend, append, extend-nil, extend_assoc}
use cwdbg.Stabs.Builder.Lines.{LineTable}
use cwdbg.Stabs.Builder.State.{
  Item, stab, new_locals, push_stab, push_func_node, take_nodes, take_func_nodes, of_option,
  split_symbol,
}
use cwdbg.Stabs.Builder.Branches.{on_fun, leave_or_call, add_function}
use cwdbg.Stabs.Builder.{branch_of, run_branch, on_stab, at_last, on_item, build_subtree}
use cwdbg.Stabs.Rising.{record_lines}
use cwdbg.Stabs.OneFunction.{
  lines_of, line_nodes, stabs_items, rounds, in_unit, reading_with, unit_draft,
}
use cwdbg.Stabs.OneFunction.Rounds.{build_subtree-slines, bind-ok, on_item-fun}
use cwdbg.Stabs.OneFunction.Build.{rounds-length}
use cwdbg.Stabs.Functions.{
  Function, IsFunction, items_of, function_draft, function_node, function_nodes, left_over,
  Recorded,
}

-- A function begins: the lines in front of it become its children.
pub build_subtree-begin :
    (fuel : ℕ) (f : Function) (unit : Bytes) (prev : Option ℕ) (rest : List Item)
    (nodes funcs : Nodes) (table : LineTable)
    → IsFunction f
    → build_subtree
        (suc fuel)
        none
        (new_locals (some unit) none prev)
        (reading_with (stab f.fn ∷ rest) nodes funcs unit table)
      ≡ build_subtree fuel
          (some (function_draft f nodes))
          (in_unit [] unit prev)
          (reading_with rest nil funcs unit table)
unfolding build_subtree on_item on_stab branch_of run_branch on_fun split_symbol of_option
    take_nodes
build_subtree-begin fuel f unit prev rest nodes funcs table h = rw (h.is_fun, h.is_named) refl

-- It ends with the stabs, or where the next one begins.
build_subtree-end :
    (fuel : ℕ) (f : Function) (fs : List Function) (unit : Bytes) (prev : Option ℕ)
    (below nodes funcs : Nodes) (table : LineTable)
    → All IsFunction fs
    → build_subtree
        (suc fuel)
        (some (function_draft f below))
        (in_unit [] unit prev)
        (reading_with (items_of fs) nodes funcs unit table)
      ≡ (ok (function_node f fs below), reading_with (items_of fs) nodes funcs unit table)
unfolding build_subtree on_item on_stab branch_of run_branch on_fun push_stab leave_or_call at_last
build_subtree-end fuel f [] unit prev below nodes funcs table all = refl
build_subtree-end fuel f (g ∷ gs) unit prev below nodes funcs table all = rw all.0.is_fun refl

build_subtree-function :
    (fuel : ℕ) (f : Function) (fs : List Function) (unit : Bytes) (prev : Option ℕ)
    (nodes funcs : Nodes) (table : LineTable) (p : LineTable × Option ℕ)
    → All IsFunction (f ∷ fs)
    → record_lines prev (lines_of f.behind) table ≡ ok p
    → length f.behind + 2 ≤ fuel
    → build_subtree fuel none
        (new_locals (some unit) none prev)
        (reading_with (items_of (f ∷ fs)) nodes funcs unit table)
      ≡ (
        ok (function_node f fs nodes),
        reading_with (items_of fs) (line_nodes f.behind) funcs unit p.0,
      )
build_subtree-function fuel f fs unit prev nodes funcs table p all recorded enough =
    let spare : ℕ = fuel - (length f.behind + 2) in
    ap
      (λ n.
        build_subtree n none (new_locals (some unit) none prev)
          (reading_with (items_of (f ∷ fs)) nodes funcs unit table))
      {y = suc (rounds f.behind (suc spare))} (omega (arith, rounds-length f.behind (suc spare)))
    ∙ build_subtree-begin (rounds f.behind (suc spare)) f unit prev
        (stabs_items f.behind ++ items_of fs) nodes funcs table all.0
    ∙ build_subtree-slines (suc spare) (some (function_draft f nodes)) [] unit prev f.behind
        (items_of fs) nil funcs table p all.0.are_lines recorded
    ∙ build_subtree-end spare f fs unit p.1 nodes (line_nodes f.behind) funcs p.0 all.1

pub length-items_of :
    (ss : List Stab) (items : List Item)
    → length (stabs_items ss ++ items) ≡ length ss + length items
length-items_of [] items = omega arith
length-items_of (s ∷ ss) items = omega (arith, length-items_of ss items)

-- The unit collects its functions.
pub build_subtree-functions :
    (fuel : ℕ) (so : Stab) (fs : List Function) (prev : Option ℕ) (nodes funcs : Nodes)
    (table after : LineTable)
    → All IsFunction fs
    → Recorded prev fs table after
    → length (items_of fs) < fuel
    → build_subtree
        (suc fuel)
        (some (unit_draft so))
        (in_unit [] so.string prev)
        (reading_with (items_of fs) nodes funcs so.string table)
      ≡ (
        ok (node (unit_draft so).own (extend funcs (function_nodes nodes fs))),
        reading_with [] (left_over nodes fs) nil so.string after,
      )
unfolding build_subtree on_item at_last take_func_nodes add_function push_func_node
build_subtree-functions fuel so [] prev nodes funcs table after all recorded enough = λ i. (
  ok (node (unit_draft so).own (sym (extend-nil funcs) i)),
  reading_with [] nodes nil so.string (recorded i),
)
build_subtree-functions zero so (f ∷ fs) prev nodes funcs table after all recorded enough =
    absurd (omega arith)
build_subtree-functions (suc fuel) so (f ∷ fs) prev nodes funcs table after all (p, read, recorded)
      enough =
    let more = length-items_of f.behind (items_of fs) in
    let child = function_node f fs nodes in
    on_item-fun (build_subtree (suc fuel)) so f.fn (stabs_items f.behind ++ items_of fs)
      (in_unit [] so.string prev) (reading_with (items_of (f ∷ fs)) nodes funcs so.string table)
      all.0.is_fun
    ∙ bind-ok (build_subtree (suc fuel) none (new_locals (some so.string) none prev))
        (add_function (build_subtree (suc fuel)) (unit_draft so) (in_unit [] so.string prev))
        (reading_with (items_of (f ∷ fs)) nodes funcs so.string table) child
        (reading_with (items_of fs) (line_nodes f.behind) funcs so.string p.0)
        (build_subtree-function (suc fuel) f fs so.string prev nodes funcs table p all read
          (omega (arith, more, enough)))
    ∙ build_subtree-functions fuel so fs prev (line_nodes f.behind) (append funcs child) p.0 after
        all.1 recorded (omega (arith, more, enough))
    ∙ ap
        (λ ns. (
          ok (node (unit_draft so).own ns),
          reading_with [] (left_over nodes (f ∷ fs)) nil so.string after,
        ))
        (extend_assoc funcs (cons child nil) (function_nodes (line_nodes f.behind) fs))
