-- ===== src/Base/Lists.antt =====
-- Lists over the native numbers, and lists of bytes. A text is the list of its code points.
use Prim.Native.Nat.{ℕ, zero, suc, ◌+◌, ◌≤◌, ◌<◌}
use mathlib.Core.Path.{◌≡◌, refl}
use mathlib.Core.Logic.{◌↔◌}
use mathlib.Core.Bool.{Bool, true, false, ◌&&◌}
use mathlib.Core.Option.{Option, none, some}
use mathlib.Core.List.{List, [], ◌∷◌, ◌++◌}
use native.Mathlib.Omega.{arith}
use cwdbg.Base.Tests.{◌==◌}

abbrev pub Bytes : Type 0
Bytes = List ℕ

module _ {ℓ} {A : Type ℓ} where
  abbrev pub length : List A → ℕ
  length [] = 0
  length (x ∷ xs) = suc (length xs)

  abbrev pub take : ℕ → List A → List A
  take zero xs = []
  take (suc n) [] = []
  take (suc n) (x ∷ xs) = x ∷ take n xs

  abbrev pub drop : ℕ → List A → List A
  drop zero xs = xs
  drop (suc n) [] = []
  drop (suc n) (x ∷ xs) = drop n xs

  abbrev pub get_elem? : List A → ℕ → Option A
  get_elem? [] i = none
  get_elem? (x ∷ xs) zero = some x
  get_elem? (x ∷ xs) (suc i) = get_elem? xs i

  pub length-append : (xs ys : List A) → length (xs ++ ys) ≡ length xs + length ys
  length-append [] ys = omega arith
  length-append (x ∷ xs) ys = omega (arith, length-append xs ys)

  pub take-append : (xs ys : List A) → take (length xs) (xs ++ ys) ≡ xs
  take-append [] ys = refl
  take-append (x ∷ xs) ys = λ i. x ∷ take-append xs ys i

  pub drop-append : (xs ys : List A) → drop (length xs) (xs ++ ys) ≡ ys
  drop-append [] ys = refl
  drop-append (x ∷ xs) ys = drop-append xs ys

  pub length-drop-le : (n : ℕ) (xs : List A) → length (drop n xs) ≤ length xs
  length-drop-le zero xs = omega arith
  length-drop-le (suc n) [] = omega arith
  length-drop-le (suc n) (x ∷ xs) = omega (arith, length-drop-le n xs)

-- Every item of a list has the property.
abbrev pub All {ℓ κ} : {A : Type ℓ} → (A → Type κ) → List A → Type κ
All P [] = Unit
All P (x ∷ xs) = P x × All P xs

module _ {ℓ κ} {A : Type ℓ} (P : A → Type κ) where
  pub All-take : (n : ℕ) (xs : List A) → All P xs → All P (take n xs)
  All-take zero xs all = tt
  All-take (suc n) [] all = tt
  All-take (suc n) (x ∷ xs) (h, all) = (h, All-take n xs all)

  pub All-drop : (n : ℕ) (xs : List A) → All P xs → All P (drop n xs)
  All-drop zero xs all = all
  All-drop (suc n) [] all = tt
  All-drop (suc n) (x ∷ xs) (h, all) = All-drop n xs all

  pub All-snoc : (xs : List A) (x : A) → All P xs → P x → All P (xs ++ x ∷ [])
  All-snoc [] x all h = (h, tt)
  All-snoc (y ∷ xs) x (k, all) h = (k, All-snoc xs x all h)

abbrev pub AllBytes : Bytes → Type 0
AllBytes = All (λ b. b < 256)

-- Equality of texts and of byte strings.
unfoldable pub eq_text : Bytes → Bytes → Bool
eq_text [] [] = true
eq_text (x ∷ xs) (y ∷ ys) = x == y && eq_text xs ys
eq_text _ _ = false

pub eq_text_iff : (xs ys : Bytes) → (eq_text xs ys ≡ true) ↔ (xs ≡ ys)
unfolding eq_text
eq_text_iff (x ∷ xs) (y ∷ ys) = ground (arith, eq_text_iff xs ys)
eq_text_iff _ _ = ground arith

pub eq_text_refl : (xs : Bytes) → eq_text xs xs ≡ true
eq_text_refl xs = (eq_text_iff xs xs).1 refl
