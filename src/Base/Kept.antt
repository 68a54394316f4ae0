-- ===== src/Base/Kept.antt =====
-- Predicates on an object's state that a method keeps, whatever it comes to.
use cwdbg.Base.Actions.{
  Exn, OfOk, Outcome, ok, raise, no_return, Exec, proceed, lift, modify, handled-state, except,
  ◌>>=◌,
}
use cwdbg.Base.Tests.{if◌then◌else◌}
use mathlib.Core.Path.{◌≡◌, refl, sym, subst}
use mathlib.Core.Bool.{Bool, true, false}
use mathlib.Core.Option.{Option}

module _ {S : Type 0} (holds : S → Type 0) where
  -- The predicate holds behind the method if it holds in front of it, when it raises too.
  pub record Keeps {A : Type 0} (m : Exec S A) : Type 0 where
    pub kept : (s : S) → holds s → holds (m s).1

  proceed-kept :
      {A B : Type 0} (f : A → Exec S B)
      → ((a : A) → Keeps (f a))
      → (r : Outcome A × S) → holds r.1
      → holds (proceed r.0 f r.1).1
  proceed-kept f rest (ok a, u) h = (rest a).kept u h
  proceed-kept f rest (raise e, u) h = h
  proceed-kept f rest (no_return, u) h = h

  module _ {A B : Type 0} {m : Exec S A} where
    pub bind-Keeps : {f : A → Exec S B} → Keeps m → ((a : A) → Keeps (f a)) → Keeps (m >>= f)
    bind-Keeps {f = f} first rest = record {
      kept = λ s h. proceed-kept f rest (m s) (first.kept s h);
    }

  pub modify-Keeps : (f : S → S) → ((s : S) → holds s → holds (f s)) → Keeps (modify f)
  modify-Keeps f keeps = record { kept = keeps }

  module _ {A : Type 0} where
    pub lift-Keeps : (r : Outcome A) → Keeps (lift r)
    lift-Keeps r = record { kept = λ s h. h }

    pub except-Keeps :
        {m : Exec S A} (handler : Exn → Option A) → Keeps m → Keeps (except handler m)
    except-Keeps {m = m} handler first = record {
      kept = λ s h. subst holds (sym (handled-state handler (m s))) (first.kept s h);
    }

    pub if-Keeps : (b : Bool) {m n : Exec S A} → Keeps m → Keeps n → Keeps (if b then m else n)
    if-Keeps true m n = m
    if-Keeps false m n = n

  -- The value has a property too, where there is one.
  pub record Gives {A : Type 0} (given : A → Type 0) (m : Exec S A) : Type 0 where
    pub keeps : Keeps m
    pub gives : (s : S) → holds s → OfOk given (m s).0

  module _ {A B : Type 0} {given : A → Type 0} where
    given-kept :
        (f : A → Exec S B)
        → ((a : A) → given a → Keeps (f a))
        → (r : Outcome A × S) → holds r.1
        → OfOk given r.0
        → holds (proceed r.0 f r.1).1
    given-kept f rest (ok a, u) h g = (rest a g).kept u h
    given-kept f rest (raise e, u) h g = h
    given-kept f rest (no_return, u) h g = h

    pub given-Keeps :
        {m : Exec S A} {f : A → Exec S B}
        → Gives given m
        → ((a : A) → given a → Keeps (f a))
        → Keeps (m >>= f)
    given-Keeps {m = m} {f = f} first rest = record {
      kept = λ s h. given-kept f rest (m s) (first.keeps.kept s h) (first.gives s h);
    }

    given-given :
        {after : B → Type 0} (f : A → Exec S B)
        → ((a : A) → given a → Gives after (f a))
        → (r : Outcome A × S) → holds r.1
        → OfOk given r.0
        → OfOk after (proceed r.0 f r.1).0
    given-given f rest (ok a, u) h g = (rest a g).gives u h
    given-given f rest (raise e, u) h g = tt
    given-given f rest (no_return, u) h g = tt

    pub bind-Gives :
        {after : B → Type 0} {m : Exec S A} {f : A → Exec S B}
        → Gives given m
        → ((a : A) → given a → Gives after (f a))
        → Gives after (m >>= f)
    bind-Gives {m = m} {f = f} first rest = record {
      keeps = given-Keeps first (λ a g. (rest a g).keeps);
      gives = λ s h. given-given f rest (m s) (first.keeps.kept s h) (first.gives s h);
    }

  outcome_given :
      {A : Type 0} (given : A → Type 0) (r : Outcome A)
      → ((a : A) → r ≡ ok a → given a)
      → OfOk given r
  outcome_given given (ok a) all = all a refl
  outcome_given given (raise e) all = tt
  outcome_given given no_return all = tt

  pub lift-Gives :
      {A : Type 0} {given : A → Type 0} (r : Outcome A)
      → ((a : A) → r ≡ ok a → given a)
      → Gives given (lift r)
  lift-Gives {given = given} r all = record {
    keeps = lift-Keeps r;
    gives = λ s h. outcome_given given r all;
  }

  -- Nothing is known of the value.
  pub Keeps-Gives : {A : Type 0} {m : Exec S A} → Keeps m → Gives (λ _. Unit {0}) m
  Keeps-Gives {m = m} keeps = record { keeps = keeps; gives = λ s h. nothing (m s).0 }
    where
      nothing : {A : Type 0} (r : Outcome A) → OfOk (λ _. Unit {0}) r
      nothing (ok a) = tt
      nothing (raise e) = tt
      nothing no_return = tt
