-- ===== src/Stabs/OneFunction/Build.antt =====
-- What `build` of host/stabslib.py makes of a compilation unit with one function.
use cwdbg.Base.{
  ℕ, suc, ◌+◌, ◌*◌, ◌≡◌, refl, ap, ◌∙◌, false, List, [], ◌∷◌, ◌++◌, Option, none, some, Bytes,
  arith, ◌==◌, length, All, text_key, ok,
}
use cwdbg.Stabs.Types.{n_undf, n_so, n_fun, n_sline, n_lsym}
use cwdbg.Stabs.Text.{split_once, ends_with}
use cwdbg.Stabs.Nodes.{Stab, node, nil, cons}
use cwdbg.Stabs.Builder.Lines.{LineTable}
use cwdbg.Stabs.Builder.State.{Item, stab, new_locals, new_node}
use cwdbg.Stabs.Builder.{build_subtree, items, build}
use cwdbg.Stabs.Rising.{record_lines}
use cwdbg.Stabs.OneFunction.{
  lines_of, line_nodes, stabs_items, rounds, reading, unit_draft, one_function, unit_node, start,
}
use cwdbg.Stabs.OneFunction.Unit.{build-unit}
use cwdbg.Stabs.OneFunction.Rounds.{build_subtree-slines, build_subtree-unit, build_subtree-so}

pub rounds-length : (ss : List Stab) (fuel : ℕ) → rounds ss fuel ≡ length ss + fuel
rounds-length [] fuel = omega arith
rounds-length (s ∷ ss) fuel = omega (arith, rounds-length ss fuel)

pub items-cons :
    (s : Stab) (ss : List Stab) → (s.type == n_lsym) ≡ false → items (s ∷ ss) ≡ stab s ∷ items ss
unfolding items
items-cons s ss h = rw h refl

pub items-slines :
    (ss : List Stab) (t : Stab) (rest : List Stab)
    → All (λ (s : Stab). s.type ≡ n_sline) ss
    → (t.type == n_lsym) ≡ false
    → items (ss ++ t ∷ rest) ≡ stabs_items ss ++ stab t ∷ items rest
items-slines [] t rest h h' = items-cons t rest h'
items-slines (s ∷ ss) t rest (h, hs) h' =
    items-cons s (ss ++ t ∷ rest) (rw h refl) ∙ ap (λ r. stab s ∷ r) (items-slines ss t rest hs h')

items-one_function :
    (so : Stab) (ss : List Stab) (fn : Stab)
    → so.type ≡ n_so
    → All (λ (s : Stab). s.type ≡ n_sline) ss
    → fn.type ≡ n_fun
    → items (one_function so ss fn) ≡ stab so ∷ (stabs_items ss ++ stab fn ∷ [])
unfolding items
items-one_function so ss fn h hs h' =
    items-cons so (ss ++ fn ∷ []) (rw h refl)
    ∙ ap (λ r. stab so ∷ r) (items-slines ss fn [] hs (rw h' refl))

pub length-stabs_items :
    (ss : List Stab) (t : Item) (rest : List Item)
    → length (stabs_items ss ++ t ∷ rest) ≡ length ss + 1 + length rest
length-stabs_items [] t rest = omega arith
length-stabs_items (s ∷ ss) t rest = omega (arith, length-stabs_items ss t rest)

build_subtree-one_function :
    (so : Stab) (ss : List Stab) (fn : Stab) (name typeid : Bytes) (p : LineTable × Option ℕ)
    → so.type ≡ n_so
    → ends_with b'/' so.string ≡ false
    → All (λ (s : Stab). s.type ≡ n_sline) ss
    → record_lines none (lines_of ss) [] ≡ ok p
    → fn.type ≡ n_fun
    → split_once b':' fn.string ≡ some (name, typeid)
    → build_subtree
        (2 * length (start so ss fn).stabs + 1)
        none
        (new_locals none none none)
        (start so ss fn)
      ≡ (ok (unit_node so ss fn name), reading [] nil so.string p.0)
build_subtree-one_function so ss fn name typeid p h e hs rec h' e' =
    let fuel : ℕ = suc (suc (suc (length ss + 1))) in
    let enough : 2 * length (start so ss fn).stabs + 1 ≡ suc (rounds ss fuel) =
      omega (arith, rounds-length ss fuel, length-stabs_items ss (stab fn) []) in
    ap (λ n. build_subtree n none (new_locals none none none) (start so ss fn)) enough
    ∙ build_subtree-so (rounds ss fuel) so (stabs_items ss ++ stab fn ∷ []) h e
    ∙ build_subtree-slines fuel (some (unit_draft so)) [] so.string none ss (stab fn ∷ []) nil nil
        [] p hs rec
    ∙ build_subtree-unit (length ss + 1) so fn name typeid p.1 (line_nodes ss) p.0 h' e'

-- The stabs of a file with one function (N_SO with a name that does not end in a slash, lines, N_FUN with a colon
-- in its string) make the tree of root, file and function, in which the function has a node for each line, and the
-- table that recording the lines one by one gives, if that succeeds. Nothing is left on the stacks.
pub build-one_function :
    (so : Stab) (ss : List Stab) (fn : Stab) (name typeid : Bytes) (p : LineTable × Option ℕ)
    → so.type ≡ n_so
    → ends_with b'/' so.string ≡ false
    → All (λ (s : Stab). s.type ≡ n_sline) ss
    → record_lines none (lines_of ss) [] ≡ ok p
    → fn.type ≡ n_fun
    → split_once b':' fn.string ≡ some (name, typeid)
    → build (one_function so ss fn) ≡ (
      ok (node (new_node n_undf [] [] 0 0) (cons (unit_node so ss fn name) nil)),
      reading [] nil so.string p.0,
    )
build-one_function so ss fn name typeid p h e hs rec h' e' =
    build-unit (stab so) (stabs_items ss ++ stab fn ∷ []) (unit_node so ss fn name) nil nil
      so.string p.0 (build_subtree-one_function so ss fn name typeid p h e hs rec h' e') so
      (ss ++ fn ∷ []) (items-one_function so ss fn h hs h')
