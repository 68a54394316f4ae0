-- ===== src/Stabs/Scopes/Items.antt =====
-- The items that `ProgramTreeBuilder` of host/stabslib.py keeps of functions with parameters and scopes.
use cwdbg.Base.{◌≡◌, refl, ap, ◌∙◌, ◌==◌, ◌&&◌, false, List, [], ◌∷◌, ◌++◌, All, text_key}
use cwdbg.Stabs.Types.{n_lsym}
use cwdbg.Stabs.Nodes.{Stab}
use cwdbg.Stabs.Builder.State.{stab}
use cwdbg.Stabs.Builder.{items}
use cwdbg.Stabs.OneFunction.{stabs_items}
use cwdbg.Stabs.OneFunction.Build.{items-cons}
use cwdbg.Stabs.Functions.Build.{items-lines}
use cwdbg.Stabs.Scopes.{
  Variable, IsParameter, IsLocal, Scopes, no_scopes, scope, IsScopes, variable_items, scope_items,
  variable_stabs, scope_stabs,
}
use cwdbg.Stabs.Scopes.Functions.{WholeFunction, IsWholeFunction, whole_stabs, whole_items}

items-kept :
    (s : Stab) (ss : List Stab)
    → (s.type == n_lsym && s.value == 0) ≡ false
    → items (s ∷ ss) ≡ stab s ∷ items ss
unfolding items
items-kept s ss h = rw h refl

items-parameters :
    (vs : List Variable) (rest : List Stab)
    → All IsParameter vs
    → items (variable_stabs vs rest) ≡ variable_items vs (items rest)
items-parameters [] rest all = refl
items-parameters (v ∷ vs) rest (h, all) =
    items-cons v.own (variable_stabs vs rest) (rw h.is_parameter refl)
    ∙ ap (λ r. stab v.own ∷ r) (items-parameters vs rest all)

items-locals :
    (vs : List Variable) (rest : List Stab)
    → All IsLocal vs
    → items (variable_stabs vs rest) ≡ variable_items vs (items rest)
items-locals [] rest all = refl
items-locals (v ∷ vs) rest (h, all) =
    items-kept v.own (variable_stabs vs rest) h.is_no_type
    ∙ ap (λ r. stab v.own ∷ r) (items-locals vs rest all)

items-scopes :
    (ss : Scopes) (rest : List Stab)
    → IsScopes ss
    → items (scope_stabs ss rest) ≡ scope_items ss (items rest)
items-scopes no_scopes rest all = refl
items-scopes (scope locals l inner r more) rest (all, is_l, inside, is_r, others) =
    items-locals locals (l ∷ scope_stabs inner (r ∷ scope_stabs more rest)) all
    ∙ ap (variable_items locals) (
        items-cons l (scope_stabs inner (r ∷ scope_stabs more rest)) (rw is_l refl)
        ∙ ap (λ x. stab l ∷ x)
            (items-scopes inner (r ∷ scope_stabs more rest) inside
              ∙ ap (scope_items inner) (
                  items-cons r (scope_stabs more rest) (rw is_r refl)
                  ∙ ap (λ x. stab r ∷ x) (items-scopes more rest others))))

pub items-wholes :
    (ws : List WholeFunction) → All IsWholeFunction ws → items (whole_stabs ws) ≡ whole_items ws
unfolding items
items-wholes [] all = refl
items-wholes (w ∷ ws) (h, all) =
    let f = w.function in
    let lines = f.behind ++ whole_stabs ws in
    items-cons f.fn (variable_stabs w.parameters (scope_stabs w.scopes lines))
      (rw h.is_function.is_fun refl)
    ∙ ap (λ x. stab f.fn ∷ x)
        (items-parameters w.parameters (scope_stabs w.scopes lines) h.are_parameters
          ∙ ap (variable_items w.parameters) (
              items-scopes w.scopes lines h.are_scopes
              ∙ ap (scope_items w.scopes) (
                  items-lines f.behind (whole_stabs ws) h.is_function.are_lines
                  ∙ ap (λ x. stabs_items f.behind ++ x) (items-wholes ws all))))
