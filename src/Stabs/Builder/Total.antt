-- ===== src/Stabs/Builder/Total.antt =====
-- How `build` of host/stabslib.py ends.
use cwdbg.Base.{
  ℕ, zero, suc, ◌+◌, ◌-◌, ◌*◌, ◌≤◌, ◌<◌, ◌≡◌, ◌≢◌, refl, ap, List, [], ◌∷◌, Option, none, arith,
  length, nat_key, text_key, no_return, pure,
}
use cwdbg.Stabs.Types.{n_undf}
use cwdbg.Stabs.Nodes.{Stab, Nodes, node, nil, append}
use cwdbg.Stabs.Builder.State.{Item, Builder, Draft, Locals, new_locals, new_node}
use cwdbg.Stabs.Builder.{build_subtree, build_units, items, new_builder, build}
use cwdbg.Stabs.Builder.Below.{left, Below, busy, room, Below-bind, Below-le, Below-pure}
use cwdbg.Stabs.Builder.Rounds.{on_item-Below}

build_subtree-Below :
    (fuel : ℕ) (d : Option Draft) (f : Locals) (b : Builder)
    → 2 * left b + busy d < fuel
    → Below (room d b) (build_subtree fuel d f) b
unfolding build_subtree
build_subtree-Below zero d f b h = absurd (omega arith)
build_subtree-Below (suc fuel) d f b h =
    let r =
      on_item-Below (build_subtree fuel) fuel (build_subtree-Below fuel) d f b.stabs b refl
        (omega arith) in
    record { ends = r.ends; shrinks = r.shrinks }

build_units-Below :
    (fuel : ℕ) (units : Nodes) (items : List Item) (b : Builder)
    → b.stabs ≡ items
    → length items < fuel
    → Below (left b) (build_units fuel units) b
unfolding build_units
build_units-Below zero units items b e h = absurd (omega arith)
build_units-Below (suc fuel) units [] b e h = record {
  ends = rw (e, build_units) (cc);
  shrinks = rw (e, build_units) (omega (arith, ap length e));
}
build_units-Below (suc fuel) units (x ∷ rest) b e h =
    let l : left b ≡ suc (length rest) = ap length e in
    let r =
      Below-bind (left b - 1) (left b)
        (build_subtree (2 * length b.stabs + 1) none (new_locals none none none))
        (λ unit. build_units fuel (append units unit)) b
        (build_subtree-Below (2 * length b.stabs + 1) none (new_locals none none none) b
          (omega arith))
        (omega arith)
        (λ unit b' l'.
          Below-le _ _ _ b'
            (build_units-Below fuel (append units unit) b'.stabs b' refl (omega (arith, l)))
            (omega (arith, l))) in
    record {
      ends = rw (e, build_units) r.ends;
      shrinks = rw (e, build_units) (omega (arith, r.shrinks, l));
    }

length-items-le : (stabs : List Stab) → length (items stabs) ≤ length stabs
unfolding items
length-items-le [] = omega arith
length-items-le (s ∷ ss) = ground (arith, length-items-le ss)

-- Building the tree comes to an end on every list of stabs: `build` returns or raises.
pub build-ne-no_return : (stabs : List Stab) → (build stabs).0 ≢ no_return
unfolding build new_builder
build-ne-no_return stabs =
    (Below-bind (left (new_builder stabs)) (left (new_builder stabs))
      (build_units (length stabs + 1) nil) (λ units. pure (node (new_node n_undf [] [] 0 0) units))
      (new_builder stabs)
      (build_units-Below (length stabs + 1) nil (items stabs) (new_builder stabs) refl
        (omega (arith, length-items-le stabs)))
      (omega arith) λ units b' l. Below-pure _ _ b' l).ends
