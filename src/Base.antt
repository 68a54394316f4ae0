-- ===== src/Base.antt =====
-- The names that the other modules share: those of the libraries, passed on, Boolean tests on the
-- native numbers, lists of bytes, big-endian words, and Python's exceptions as outcomes.
mod Tests
mod Lists
mod Words
mod Actions
mod Dicts
mod Texts
mod Integers
mod Numerals
mod Kept
pub use Tests.*
unfoldable pub use Lists.*
pub use Words.*
pub use Actions.*
pub use Kept.*
unfoldable pub use Dicts.*
unfoldable pub use Texts.*
unfoldable pub use Integers.*
unfoldable pub use Numerals.*
pub use Prim.Native.Nat.{ℕ, zero, suc, ◌+◌, ◌-◌, ◌*◌, ◌/◌, ◌%◌, ◌^◌, ◌≤◌, ◌<◌}
pub use mathlib.Core.Path.{◌≡◌, refl, sym, ap, ◌∙◌, subst}
pub use mathlib.Core.Logic.{◌≢◌, ◌⊎◌, inl, inr}
pub use mathlib.Core.Bool.{Bool, true, false, not, ◌&&◌, ◌||◌}
pub use mathlib.Core.Option.{Option, none, some}
pub use mathlib.Core.List.{List, [], ◌∷◌, ◌++◌, append_assoc, append-nil}
pub use native.Mathlib.Omega.{arith}
