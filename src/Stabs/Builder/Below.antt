-- ===== src/Stabs/Builder/Below.antt =====
-- What a call of `_build_subtree`, host/stabslib.py, leaves to be read of the list of stabs.
use cwdbg.Base.{
  ℕ, suc, ◌+◌, ◌-◌, ◌≤◌, ◌≡◌, ◌≢◌, refl, Bool, true, false, List, Option, none, some, Bytes, arith,
  if◌then◌else◌, length, nat_key, text_key, Exn, Outcome, ok, raise, no_return, Exec, pure, throw,
  modify, proceed, ◌>>=◌, ◌>>◌,
}
use cwdbg.Stabs.Nodes.{Stab}
use cwdbg.Stabs.Builder.State.{Item, Builder, Draft, Locals, take_nodes, split_symbol}
use cwdbg.Stabs.Builder.Branches.{store_line, nested_functions}

abbrev pub left : Builder → ℕ
left b = length b.stabs

-- The call returns or raises, and leaves at most `k` items to be read.
pub record Below {A : Type 0} (k : ℕ) (m : Exec Builder A) (b : Builder) : Type 0 where
  pub ends : (m b).0 ≢ no_return
  pub shrinks : left (m b).1 ≤ k

module _ {A B : Type 0} where
  pub Below-proceed :
      (j k : ℕ) (r : Outcome A × Builder) (f : A → Exec Builder B)
      → r.0 ≢ no_return
      → left r.1 ≤ j
      → j ≤ k
      → ((a : A) (b' : Builder) → left b' ≤ j → Below k (f a) b')
      → ((proceed r.0 f r.1).0 ≢ no_return) × (left (proceed r.0 f r.1).1 ≤ k)
  Below-proceed j k (ok a, b') f h l le g = let e = g a b' l in (e.ends, e.shrinks)
  Below-proceed j k (raise x, b') f h l le g = (cc, omega arith)
  Below-proceed j k (no_return, b') f h l le g = absurd (h refl)

  pub Below-bind :
      (j k : ℕ) (m : Exec Builder A) (f : A → Exec Builder B) (b : Builder)
      → Below j m b
      → j ≤ k
      → ((a : A) (b' : Builder) → left b' ≤ j → Below k (f a) b')
      → Below k (m >>= f) b
  Below-bind j k m f b h le g =
      let r = Below-proceed j k (m b) f h.ends h.shrinks le g in
      record { ends = r.0; shrinks = r.1 }

module _ {A : Type 0} where
  pub Below-le : (j k : ℕ) (m : Exec Builder A) (b : Builder) → Below j m b → j ≤ k → Below k m b
  Below-le j k m b h le = record { ends = h.ends; shrinks = omega (arith, h.shrinks) }

  pub Below-pure : (k : ℕ) (a : A) (b : Builder) → left b ≤ k → Below k (pure a) b
  Below-pure k a b h = record { ends = cc; shrinks = h }

  pub Below-throw : (k : ℕ) (e : Exn) (b : Builder) → left b ≤ k → Below k (throw {A = A} e) b
  Below-throw k e b h = record { ends = cc; shrinks = h }

  pub Below-if :
      (k : ℕ) (c : Bool) (m n : Exec Builder A) (b : Builder)
      → Below k m b
      → Below k n b
      → Below k (if c then m else n) b
  Below-if k true m n b h h' = h
  Below-if k false m n b h h' = h'

pub Below-modify :
    {A : Type 0} (k : ℕ) (g : Builder → Builder) (m : Exec Builder A) (b : Builder)
    → Below k m (g b)
    → Below k (modify g >> m) b
Below-modify k g m b h = record { ends = h.ends; shrinks = h.shrinks }

pub split_symbol-Below : (s : Stab) (b : Builder) → Below (left b) (split_symbol s) b
unfolding split_symbol
split_symbol-Below s b = record { ends = ground arith; shrinks = ground arith }

pub take_nodes-Below : (b : Builder) → Below (left b) take_nodes b
unfolding take_nodes
take_nodes-Below b = record { ends = cc; shrinks = omega arith }

pub nested_functions-Below : (n : ℕ) (b : Builder) → Below (left b) (nested_functions n) b
unfolding nested_functions
nested_functions-Below n b = record { ends = ground arith; shrinks = ground arith }

pub store_line-Below :
    (f : Locals) (s : Stab) (u : Option Bytes) (b : Builder) → Below (left b) (store_line f s u) b
unfolding store_line
store_line-Below f s u b = record { ends = ground arith; shrinks = ground arith }

abbrev pub busy : Option Draft → ℕ
busy none = 0
busy (some _) = 1

-- Until a node is there, at least one item is read.
abbrev pub room : Option Draft → Builder → ℕ
room none b = left b - 1
room (some _) b = left b

pub room-le : (d : Option Draft) (b : Builder) → room d b ≤ left b
room-le none b = omega arith
room-le (some d) b = omega arith

pub room_after :
    (d : Option Draft) (rest : List Item) (b : Builder)
    → left b ≡ suc (length rest)
    → length rest + busy d ≤ room d b
room_after none rest b h = omega arith
room_after (some d) rest b h = omega arith
