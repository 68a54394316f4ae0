-- ===== src/Stabs/Scopes/Functions.antt =====
-- Functions with their parameters and scopes, as GCC emits their stabs, and the rounds of `_build_subtree` of
-- host/stabslib.py over them.
use cwdbg.Base.{
  ℕ, suc, ◌+◌, ◌*◌, ◌-◌, ◌<◌, ◌≤◌, ◌≡◌, refl, ap, sym, ◌∙◌, List, [], ◌∷◌, ◌++◌, Option, none, some,
  Bytes, All, arith, length, ok, subst,
}
use cwdbg.Stabs.Types.{n_fun}
use cwdbg.Stabs.Nodes.{Stab, ProgramNode, Nodes, node, nil, cons, extend, info}
use cwdbg.Stabs.Builder.Lines.{LineTable}
use cwdbg.Stabs.Builder.State.{
  Item, stab, Draft, new_locals, push_stab, finished, end_at, with_children,
}
use cwdbg.Stabs.Builder.Branches.{on_fun, leave_or_call}
use cwdbg.Stabs.Builder.{branch_of, run_branch, on_stab, at_last, on_item, build_subtree}
use cwdbg.Stabs.Rising.{record_lines}
use cwdbg.Stabs.OneFunction.{lines_of, line_nodes, stabs_items, rounds, in_unit, reading_with}
use cwdbg.Stabs.OneFunction.Rounds.{build_subtree-slines}
use cwdbg.Stabs.OneFunction.Build.{rounds-length}
use cwdbg.Stabs.Functions.{Function, IsFunction, function_draft}
use cwdbg.Stabs.Functions.Rounds.{build_subtree-begin, length-items_of}
use cwdbg.Stabs.Scopes.{
  StaysBehind, Variable, IsParameter, Scopes, no_scopes, scope, IsScopes, variable_items,
  scope_items, variable_stabs, scope_stabs, variable_nodes, scope_nodes, variable_rounds,
  scope_rounds, call_rounds,
}
use cwdbg.Stabs.Scopes.Variables.{build_subtree-parameters}
use cwdbg.Stabs.Scopes.Rounds.{Reads, scope_rounds-add}

pub record WholeFunction : Type 0 where
  pub function : Function
  pub parameters : List Variable
  pub scopes : Scopes

pub record IsWholeFunction (w : WholeFunction) : Type 0 where
  pub is_function : IsFunction w.function
  pub are_parameters : All IsParameter w.parameters
  pub are_scopes : IsScopes w.scopes

abbrev pub functions_of : List WholeFunction → List Function
functions_of [] = []
functions_of (w ∷ ws) = w.function ∷ functions_of ws

abbrev pub whole_stabs : List WholeFunction → List Stab
whole_stabs [] = []
whole_stabs (w ∷ ws) =
    w.function.fn
    ∷ variable_stabs w.parameters (scope_stabs w.scopes (w.function.behind ++ whole_stabs ws))

abbrev pub whole_items : List WholeFunction → List Item
whole_items [] = []
whole_items (w ∷ ws) =
    stab w.function.fn
    ∷ variable_items w.parameters
        (scope_items w.scopes (stabs_items w.function.behind ++ whole_items ws))

-- A function ends where the next one begins; the end of the last one is not known.
abbrev pub whole_end : List WholeFunction → ℕ
whole_end [] = 0
whole_end (w ∷ ws) = w.function.fn.value

-- The lines of a function, its parameters and what stands in it.
abbrev pub whole_node_with : WholeFunction → List WholeFunction → Nodes → Nodes → ProgramNode
whole_node_with w ws lines kids =
    node (record (function_draft w.function lines).own { end_addr = whole_end ws })
      (extend (extend lines (variable_nodes w.parameters)) kids)

abbrev pub whole_node : WholeFunction → List WholeFunction → Nodes → ProgramNode
whole_node w ws lines = whole_node_with w ws lines (scope_nodes w.scopes)

abbrev pub whole_nodes : Nodes → List WholeFunction → Nodes
whole_nodes lines [] = nil
whole_nodes lines (w ∷ ws) =
    cons (whole_node w ws lines) (whole_nodes (line_nodes w.function.behind) ws)

abbrev pub lines_left : Nodes → List WholeFunction → Nodes
lines_left lines [] = lines
lines_left lines (w ∷ ws) = lines_left (line_nodes w.function.behind) ws

-- No scope stands in a scope.
abbrev pub IsFlat : Scopes → Type 0
IsFlat no_scopes = Unit
IsFlat (scope locals lbrac inner rbrac more) = (inner ≡ no_scopes) × IsFlat more

-- A function behind the one that begins in the line `first_lineno` begins in no earlier line.
abbrev pub IsBehind : ℕ → WholeFunction → Type 0
IsBehind first_lineno w = (first_lineno ≤ w.function.fn.desc) × IsFlat w.scopes

abbrev pub InOrder : List WholeFunction → Type 0
InOrder [] = Unit
InOrder (w ∷ ws) = All (IsBehind w.function.fn.desc) ws

variable_rounds-length : (vs : List Variable) (n : ℕ) → variable_rounds vs n ≡ length vs + n
variable_rounds-length [] n = omega arith
variable_rounds-length (v ∷ vs) n = omega (arith, variable_rounds-length vs n)

length-variable_items :
    (vs : List Variable) (rest : List Item)
    → length (variable_items vs rest) ≡ length vs + length rest
length-variable_items [] rest = omega arith
length-variable_items (v ∷ vs) rest = omega (arith, length-variable_items vs rest)

-- Two rounds for each stab are enough for scopes.
scope_rounds-le :
    (ss : Scopes) (rest : List Item)
    → scope_rounds ss 0 + call_rounds ss + 2 * length rest ≤ 2 * length (scope_items ss rest)
scope_rounds-le no_scopes rest = omega arith
scope_rounds-le (scope locals l inner r more) rest = omega (
  arith,
  variable_rounds-length locals (suc (scope_rounds more 0)),
  length-variable_items locals (stab l ∷ scope_items inner (stab r ∷ scope_items more rest)),
  scope_rounds-le inner (stab r ∷ scope_items more rest),
  scope_rounds-le more rest,
)

pub StaysBehind-nil : (n : ℕ) (ss : Scopes) → StaysBehind n nil ss
StaysBehind-nil n no_scopes = tt
StaysBehind-nil n (scope locals l inner r more) =
    (tt, StaysBehind-nil 0 inner, StaysBehind-nil n more)

pub StaysBehind-flat :
    (n : ℕ) (first : ProgramNode) (others : Nodes) (ss : Scopes)
    → (info first).lineno ≤ n
    → IsFlat ss
    → StaysBehind n (cons first others) ss
StaysBehind-flat n first others no_scopes le flat = tt
StaysBehind-flat n first others (scope locals l inner r more) le (flat, further) = (
  le,
  subst (StaysBehind 0 (cons first others)) (sym flat) tt,
  StaysBehind-flat n first others more le further,
)

-- It ends with the stabs, or where the next one begins.
build_subtree-whole_end :
    (fuel : ℕ) (d : Draft) (ws : List WholeFunction) (unit : Bytes) (prev : Option ℕ)
    (nodes funcs : Nodes) (table : LineTable)
    → d.own.type ≡ n_fun
    → d.own.end_addr ≡ 0
    → All IsWholeFunction ws
    → build_subtree
        (suc fuel)
        (some d)
        (in_unit [] unit prev)
        (reading_with (whole_items ws) nodes funcs unit table)
      ≡ (
        ok (finished (end_at d (whole_end ws))),
        reading_with (whole_items ws) nodes funcs unit table,
      )
unfolding build_subtree on_item on_stab branch_of run_branch on_fun push_stab leave_or_call at_last
build_subtree-whole_end fuel d [] unit prev nodes funcs table is_fun unended all =
    rw (is_fun, unended) refl
build_subtree-whole_end fuel d (g ∷ gs) unit prev nodes funcs table is_fun unended all =
    rw (all.0.is_function.is_fun, is_fun) refl

pub build_subtree-whole :
    (fuel : ℕ) (w : WholeFunction) (ws : List WholeFunction) (unit : Bytes) (prev : Option ℕ)
    (nodes funcs kids left : Nodes) (table : LineTable) (p : LineTable × Option ℕ)
    → All IsWholeFunction (w ∷ ws)
    → Reads unit table w.scopes
        (function_draft w.function (extend nodes (variable_nodes w.parameters)))
        funcs
        kids
        left
    → record_lines prev (lines_of w.function.behind) table ≡ ok p
    → 2 * length (whole_items (w ∷ ws)) ≤ fuel
    → build_subtree fuel none
        (new_locals (some unit) none prev)
        (reading_with (whole_items (w ∷ ws)) nodes funcs unit table)
      ≡ (
        ok (whole_node_with w ws nodes kids),
        reading_with (whole_items ws) (line_nodes w.function.behind) left unit p.0,
      )
build_subtree-whole fuel w ws unit prev nodes funcs kids left table p all read recorded enough =
    let f = w.function in
    let lines = stabs_items f.behind ++ whole_items ws in
    let spare : ℕ = fuel - (length w.parameters + scope_rounds w.scopes 0 + length f.behind + 2) in
    let after : ℕ = rounds f.behind (suc spare) in
    let d = function_draft f (extend nodes (variable_nodes w.parameters)) in
    let of_parameters = length-variable_items w.parameters (scope_items w.scopes lines) in
    let of_scopes = scope_rounds-le w.scopes lines in
    let of_lines = length-items_of f.behind (whole_items ws) in
    ap
      (λ n.
        build_subtree n none (new_locals (some unit) none prev)
          (reading_with (whole_items (w ∷ ws)) nodes funcs unit table))
      {y = suc (variable_rounds w.parameters (scope_rounds w.scopes after))}
      (omega (
        arith,
        enough,
        of_parameters,
        of_scopes,
        of_lines,
        variable_rounds-length w.parameters (scope_rounds w.scopes after),
        scope_rounds-add w.scopes after,
        rounds-length f.behind (suc spare),
      ))
    ∙ build_subtree-begin (variable_rounds w.parameters (scope_rounds w.scopes after)) f unit prev
        (variable_items w.parameters (scope_items w.scopes lines)) nodes funcs table
        all.0.is_function
    ∙ build_subtree-parameters unit table (scope_rounds w.scopes after) (function_draft f nodes)
        (in_unit [] unit prev) w.parameters (scope_items w.scopes lines) nil funcs
        all.0.are_parameters
    ∙ read after (in_unit [] unit prev) lines (
        omega
          (arith, enough, of_parameters, of_scopes, of_lines, rounds-length f.behind (suc spare)))
    ∙ build_subtree-slines (suc spare) (some (with_children d kids)) [] unit prev f.behind
        (whole_items ws) nil left table p all.0.is_function.are_lines recorded
    ∙ build_subtree-whole_end spare (with_children d kids) ws unit p.1 (line_nodes f.behind) left
        p.0 refl refl all.1

pub length-whole_items :
    (w : WholeFunction) (ws : List WholeFunction)
    → length (whole_items ws) < length (whole_items (w ∷ ws))
length-whole_items w ws = omega (
  arith,
  length-variable_items w.parameters
      (scope_items w.scopes (stabs_items w.function.behind ++ whole_items ws)),
  scope_rounds-le w.scopes (stabs_items w.function.behind ++ whole_items ws),
  length-items_of w.function.behind (whole_items ws),
)
