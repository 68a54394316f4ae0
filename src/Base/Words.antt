-- ===== src/Base/Words.antt =====
-- Big-endian words, as `struct` and `ctypes.BigEndianStructure` lay them out.
use Prim.Native.Nat.{ℕ, ◌+◌, ◌*◌, ◌/◌, ◌%◌, ◌<◌}
use mathlib.Core.Path.{◌≡◌}
use mathlib.Core.List.{[], ◌∷◌}
use native.Mathlib.Omega.{arith}
use cwdbg.Base.Lists.{Bytes}

-- The low 16 bits of a number, as two bytes.
abbrev pub be16 : ℕ → Bytes
be16 n = n / 256 % 256 ∷ n % 256 ∷ []

-- The low 32 bits of a number, as four bytes.
abbrev pub be32 : ℕ → Bytes
be32 n = n / 16777216 % 256 ∷ n / 65536 % 256 ∷ n / 256 % 256 ∷ n % 256 ∷ []

abbrev pub word16 : ℕ → ℕ → ℕ
word16 a b = a * 256 + b

abbrev pub word32 : ℕ → ℕ → ℕ → ℕ → ℕ
word32 a b c d = a * 16777216 + b * 65536 + c * 256 + d

pub word16-be16 : (n : ℕ) → n < 65536 → word16 (n / 256 % 256) (n % 256) ≡ n
word16-be16 n h = omega arith

pub word32-be32 :
    (n : ℕ)
    → n < 4294967296
    → word32 (n / 16777216 % 256) (n / 65536 % 256) (n / 256 % 256) (n % 256) ≡ n
word32-be32 n h = omega arith
