-- ===== src/Base/Actions.antt =====
-- What a call of Python code comes to, and methods that change an object's state and may raise.
use mathlib.Core.Path.{◌≡◌, refl, ap}
use mathlib.Core.Bool.{Bool, true, false}
use mathlib.Core.Option.{Option, none, some}

-- The classes of exceptions that the modelled code raises or catches.
pub data Exn : Type 0 where
  eof_error value_error key_error index_error type_error attribute_error : Exn
  assertion_error not_implemented_error unbound_local_error struct_error : Exn
  unicode_decode_error stop_iteration connection_error server_command_error : Exn
  runtime_error quit_debugger no_debug_info argument_parser_error system_exit exit_main_loop : Exn

-- `no_return`: the call waits for ever, or the fuel of the model ran out.
pub data Outcome {ℓ} (A : Type ℓ) : Type ℓ where
  ok : A → Outcome A
  raise : Exn → Outcome A
  no_return : Outcome A

-- What was changed before a raise stays changed, so the state comes back beside the error too.
abbrev pub Exec {ℓ κ} : Type ℓ → Type κ → Type (ℓ ⊔ κ)
Exec S A = S → Outcome A × S

module _ {ℓ κ} {S : Type ℓ} {A : Type κ} where
  abbrev pub pure : A → Exec S A
  pure a s = (ok a, s)

  abbrev pub throw : Exn → Exec S A
  throw e s = (raise e, s)

  abbrev pub get : (S → A) → Exec S A
  get f s = (ok (f s), s)

abbrev pub modify {ℓ} : {S : Type ℓ} → (S → S) → Exec S (Unit {0})
modify f s = (ok tt, f s)

module _ {ℓ κ κ'} {S : Type ℓ} {A : Type κ} {B : Type κ'} where
  abbrev pub proceed : Outcome A → (A → Exec S B) → Exec S B
  proceed (ok a) f s = f a s
  proceed (raise e) f s = (raise e, s)
  proceed no_return f s = (no_return, s)

  infixl 5 ◌>>=◌ ◌>>◌
  abbrev pub ◌>>=◌ : Exec S A → (A → Exec S B) → Exec S B
  ◌>>=◌ m f s = let r = m s in proceed r.0 f r.1

  abbrev pub ◌>>◌ : Exec S A → Exec S B → Exec S B
  m >> k = m >>= λ _. k

-- `assert` and the guards that raise.
abbrev pub check {ℓ} : {S : Type ℓ} → Bool → Exn → Exec S (Unit {0})
check true e = pure tt
check false e = throw e

-- `except X: raise Y`: whatever the call raises, another exception comes out.
abbrev pub rethrow_as {ℓ κ} : {S : Type ℓ} {A : Type κ} → Exn → Outcome A × S → Outcome A × S
rethrow_as e (ok a, s) = (ok a, s)
rethrow_as e (raise _, s) = (raise e, s)
rethrow_as e (no_return, s) = (no_return, s)

abbrev handled_with {ℓ κ} : {S : Type ℓ} {A : Type κ} → Exn → Option A → S → Outcome A × S
handled_with e none s = (raise e, s)
handled_with e (some a) s = (ok a, s)

abbrev pub handled {ℓ κ} :
    {S : Type ℓ} {A : Type κ} → (Exn → Option A) → Outcome A × S → Outcome A × S
handled handler (ok a, s) = (ok a, s)
handled handler (raise e, s) = handled_with e (handler e) s
handled handler (no_return, s) = (no_return, s)

handled_with-state {ℓ κ} :
    {S : Type ℓ} {A : Type κ} (e : Exn) (o : Option A) (s : S) → (handled_with e o s).1 ≡ s
handled_with-state e none s = refl
handled_with-state e (some a) s = refl

-- Handling an exception undoes nothing.
pub handled-state {ℓ κ} :
    {S : Type ℓ} {A : Type κ} (handler : Exn → Option A) (r : Outcome A × S)
    → (handled handler r).1 ≡ r.1
handled-state handler (ok a, s) = refl
handled-state handler (raise e, s) = handled_with-state e (handler e) s
handled-state handler (no_return, s) = refl

-- `except`: the handled exceptions give a value, the others are passed on.
abbrev pub except {ℓ κ} : {S : Type ℓ} {A : Type κ} → (Exn → Option A) → Exec S A → Exec S A
except handler m s = let r = m s in handled handler r

-- A property of the value, if there is one.
abbrev pub OfOk {ℓ κ} : {A : Type ℓ} → (A → Type κ) → Outcome A → Type κ
OfOk P (ok a) = P a
OfOk P (raise e) = Unit
OfOk P no_return = Unit

-- The outcome of one call, followed by a second that uses its value.
abbrev pub chain {ℓ κ} : {A : Type ℓ} {B : Type κ} → Outcome A → (A → Outcome B) → Outcome B
chain (ok a) f = f a
chain (raise e) f = raise e
chain no_return f = no_return

-- A call that does not change the state.
abbrev pub lift {ℓ κ} : {S : Type ℓ} {A : Type κ} → Outcome A → Exec S A
lift r s = (r, s)

-- The value, or an exception where it is None.
abbrev pub required {ℓ} : {A : Type ℓ} → Exn → Option A → Outcome A
required e none = raise e
required e (some a) = ok a

-- Inversion of a block that succeeds: its first part does, and its rest from there.
module _ {ℓ κ κ'} {S : Type ℓ} {A : Type κ} {B : Type κ'} where
  bind-eq-ok_from :
      (m : Exec S A) (f : A → Exec S B) (s : S) (r : Outcome A × S) {b : B} {t : S}
      → m s ≡ r
      → proceed r.0 f r.1 ≡ (ok b, t)
      → (a : A) × (u : S) × (m s ≡ (ok a, u)) × (f a u ≡ (ok b, t))
  bind-eq-ok_from m f s (ok a, u) e h = (a, u, e, h)
  bind-eq-ok_from m f s (raise x, u) e h = cc
  bind-eq-ok_from m f s (no_return, u) e h = cc

  pub bind-eq-ok :
      (m : Exec S A) (f : A → Exec S B) (s : S) {b : B} {t : S}
      → (m >>= f) s ≡ (ok b, t)
      → (a : A) × (u : S) × (m s ≡ (ok a, u)) × (f a u ≡ (ok b, t))
  bind-eq-ok m f s h = bind-eq-ok_from m f s (m s) refl h

-- A block whose first part succeeds goes on with its rest.
pub bind-ok {ℓ κ κ'} :
    {S : Type ℓ} {A : Type κ} {B : Type κ'} (m : Exec S A) (f : A → Exec S B) (s : S) {a : A}
    {u : S}
    → m s ≡ (ok a, u)
    → (m >>= f) s ≡ f a u
bind-ok m f s {a = a} {u = u} h = ap (λ r. proceed r.0 f r.1) {x = m s} {y = (ok a, u)} h

pub rethrow_as-eq-ok {ℓ κ} :
    {S : Type ℓ} {A : Type κ} (e : Exn) (r : Outcome A × S) {a : A} {t : S}
    → rethrow_as e r ≡ (ok a, t)
    → r ≡ (ok a, t)
rethrow_as-eq-ok e (ok a, s) h = h
rethrow_as-eq-ok e (raise x, s) h = cc
rethrow_as-eq-ok e (no_return, s) h = cc

pub required-eq-ok {ℓ} :
    {A : Type ℓ} (e : Exn) (o : Option A) {a : A} → required e o ≡ ok a → o ≡ some a
required-eq-ok e none h = cc
required-eq-ok e (some a) h = cc

-- Two calls in a chain that succeeds: both do.
pub chain-eq-ok {ℓ κ} :
    {A : Type ℓ} {B : Type κ} (r : Outcome A) (f : A → Outcome B) {b : B}
    → chain r f ≡ ok b
    → (a : A) × (r ≡ ok a) × (f a ≡ ok b)
chain-eq-ok (ok a) f h = (a, refl, h)
chain-eq-ok (raise e) f h = cc
chain-eq-ok no_return f h = cc
