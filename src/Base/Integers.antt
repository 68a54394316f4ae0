-- ===== src/Base/Integers.antt =====
-- Python's integers, over the native natural numbers: differences of addresses and typed numbers may be
-- negative.
use Prim.Native.Nat.{ℕ, suc, ◌+◌, ◌-◌, ◌*◌}
use mathlib.Core.List.{◌∷◌, ◌++◌}
use cwdbg.Base.Tests.{leb, if◌then◌else◌}
use cwdbg.Base.Lists.{Bytes}
use cwdbg.Base.Texts.{text, decimal, hexadecimal}

-- `negsuc n` is -(n + 1).
pub data ℤ : Type 0 where
  pos : ℕ → ℤ
  negsuc : ℕ → ℤ

-- `a - b`
abbrev pub difference : ℕ → ℕ → ℤ
difference a b = if leb b a then pos (a - b) else negsuc (b - a - 1)

-- `i + n`
abbrev pub plus : ℤ → ℕ → ℤ
plus (pos a) n = pos (a + n)
plus (negsuc a) n = difference n (suc a)

-- `i * n`, for n > 0
abbrev pub times : ℤ → ℕ → ℤ
times (pos a) n = pos (a * n)
times (negsuc a) n = negsuc (suc a * n - 1)

-- `hex(i)`
unfoldable pub hex : ℤ → Bytes
unfolding hexadecimal
hex (pos n) = text "0x" ++ hexadecimal n
hex (negsuc n) = text "-0x" ++ hexadecimal (suc n)

-- `str(i)`
unfoldable pub str : ℤ → Bytes
unfolding decimal
str (pos n) = decimal n
str (negsuc n) = b'-' ∷ decimal (suc n)
