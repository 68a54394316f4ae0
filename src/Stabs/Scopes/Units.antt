-- ===== src/Stabs/Scopes/Units.antt =====
-- The rounds of `_build_subtree`, host/stabslib.py, over functions with parameters and scopes.
use cwdbg.Base.{
  ℕ, zero, suc, ◌*◌, ◌<◌, ◌≡◌, refl, ap, sym, ◌∙◌, List, [], ◌∷◌, ◌++◌, none, some, All, arith,
  length, text_key, Option, ok,
}
use cwdbg.Stabs.Nodes.{Stab, Nodes, node, nil, cons, info, extend, append, extend-nil, extend_assoc}
use cwdbg.Stabs.Builder.Lines.{LineTable}
use cwdbg.Stabs.Builder.State.{new_locals, push_func_node, take_func_nodes}
use cwdbg.Stabs.Builder.Branches.{add_function}
use cwdbg.Stabs.Builder.{at_last, on_item, build_subtree}
use cwdbg.Stabs.Rising.{record_lines}
use cwdbg.Stabs.OneFunction.{lines_of, line_nodes, stabs_items, in_unit, reading_with, unit_draft}
use cwdbg.Stabs.OneFunction.Rounds.{bind-ok, on_item-fun}
use cwdbg.Stabs.Functions.{Recorded, function_draft}
use cwdbg.Stabs.Scopes.{StaysBehind, variable_items, scope_items, scope_nodes, variable_nodes}
use cwdbg.Stabs.Scopes.Rounds.{Reads, scopes-Reads}
use cwdbg.Stabs.Scopes.Functions.{
  WholeFunction, IsWholeFunction, functions_of, whole_items, whole_node, whole_node_with,
  whole_nodes, lines_left, IsBehind, InOrder, StaysBehind-flat, StaysBehind-nil,
  build_subtree-whole, length-whole_items,
}

-- The functions that are still to come, behind those that wait.
abbrev pub Follow : Nodes → List WholeFunction → Type 0
Follow nil ws = InOrder ws
Follow (cons first others) ws = All (IsBehind (info first).lineno) ws

Follow-stays :
    (funcs : Nodes) (w : WholeFunction) (ws : List WholeFunction)
    → Follow funcs (w ∷ ws)
    → StaysBehind w.function.fn.desc funcs w.scopes
Follow-stays nil w ws follow = StaysBehind-nil w.function.fn.desc w.scopes
Follow-stays (cons first others) w ws ((le, flat), follow) =
    StaysBehind-flat w.function.fn.desc first others w.scopes le flat

Follow-append :
    (funcs : Nodes) (w : WholeFunction) (ws : List WholeFunction) (lines : Nodes)
    → Follow funcs (w ∷ ws)
    → Follow (append funcs (whole_node w ws lines)) ws
Follow-append nil w ws lines follow = follow
Follow-append (cons first others) w ws lines follow = follow.1

-- One function of the unit is read, with what its scopes become and the functions that they leave.
pub build_subtree-add_whole :
    (fuel : ℕ) (so : Stab) (w : WholeFunction) (ws : List WholeFunction) (prev : Option ℕ)
    (nodes funcs kids left : Nodes) (table : LineTable) (p : LineTable × Option ℕ)
    → All IsWholeFunction (w ∷ ws)
    → Reads so.string table w.scopes
        (function_draft w.function (extend nodes (variable_nodes w.parameters)))
        funcs
        kids
        left
    → record_lines prev (lines_of w.function.behind) table ≡ ok p
    → 2 * length (whole_items (w ∷ ws)) < fuel
    → build_subtree
        (suc fuel)
        (some (unit_draft so))
        (in_unit [] so.string prev)
        (reading_with (whole_items (w ∷ ws)) nodes funcs so.string table)
      ≡ build_subtree fuel (some (unit_draft so)) (in_unit [] so.string prev) (
          reading_with
            (whole_items ws)
            (line_nodes w.function.behind)
            (append left (whole_node_with w ws nodes kids))
            so.string
            p.0)
unfolding build_subtree add_function push_func_node
build_subtree-add_whole fuel so w ws prev nodes funcs kids left table p all read recorded enough =
    let start = reading_with (whole_items (w ∷ ws)) nodes funcs so.string table in
    on_item-fun (build_subtree fuel) so w.function.fn
      (variable_items w.parameters
        (scope_items w.scopes (stabs_items w.function.behind ++ whole_items ws)))
      (in_unit [] so.string prev) start all.0.is_function.is_fun
    ∙ bind-ok (build_subtree fuel none (new_locals (some so.string) none prev))
        (add_function (build_subtree fuel) (unit_draft so) (in_unit [] so.string prev)) start
        (whole_node_with w ws nodes kids)
        (reading_with (whole_items ws) (line_nodes w.function.behind) left so.string p.0)
        (build_subtree-whole fuel w ws so.string prev nodes funcs kids left table p all read
          recorded (omega (arith, enough)))

-- Behind the last one the unit is finished.
pub build_subtree-unit_end :
    (fuel : ℕ) (so : Stab) (prev : Option ℕ) (nodes funcs : Nodes) (table : LineTable)
    → build_subtree
        (suc fuel)
        (some (unit_draft so))
        (in_unit [] so.string prev)
        (reading_with [] nodes funcs so.string table)
      ≡ (ok (node (unit_draft so).own funcs), reading_with [] nodes nil so.string table)
unfolding build_subtree on_item at_last take_func_nodes
build_subtree-unit_end fuel so prev nodes funcs table = refl

-- The unit collects its functions.
pub build_subtree-wholes :
    (fuel : ℕ) (so : Stab) (ws : List WholeFunction) (prev : Option ℕ) (nodes funcs : Nodes)
    (table after : LineTable)
    → All IsWholeFunction ws
    → Follow funcs ws
    → Recorded prev (functions_of ws) table after
    → 2 * length (whole_items ws) < fuel
    → build_subtree
        (suc fuel)
        (some (unit_draft so))
        (in_unit [] so.string prev)
        (reading_with (whole_items ws) nodes funcs so.string table)
      ≡ (
        ok (node (unit_draft so).own (extend funcs (whole_nodes nodes ws))),
        reading_with [] (lines_left nodes ws) nil so.string after,
      )
unfolding build_subtree on_item at_last take_func_nodes
build_subtree-wholes fuel so [] prev nodes funcs table after all follow recorded enough = λ i. (
  ok (node (unit_draft so).own (sym (extend-nil funcs) i)),
  reading_with [] nodes nil so.string (recorded i),
)
build_subtree-wholes zero so (w ∷ ws) prev nodes funcs table after all follow recorded enough =
    absurd (omega arith)
build_subtree-wholes (suc fuel) so (w ∷ ws) prev nodes funcs table after all follow
      (p, read, recorded) enough =
    let child = whole_node w ws nodes in
    let behind = line_nodes w.function.behind in
    build_subtree-add_whole (suc fuel) so w ws prev nodes funcs (scope_nodes w.scopes) funcs table p
      all
      (scopes-Reads so.string table w.scopes
        (function_draft w.function (extend nodes (variable_nodes w.parameters))) funcs
        all.0.are_scopes (Follow-stays funcs w ws follow))
      read enough
    ∙ build_subtree-wholes fuel so ws prev behind (append funcs child) p.0 after all.1
        (Follow-append funcs w ws nodes follow) recorded
        (omega (arith, enough, length-whole_items w ws))
    ∙ ap
        (λ ns. (
          ok (node (unit_draft so).own ns),
          reading_with [] (lines_left nodes (w ∷ ws)) nil so.string after,
        ))
        (extend_assoc funcs (cons child nil) (whole_nodes behind ws))
