-- ===== src/Stabs/Text.antt =====
-- The operations on strings that host/stabslib.py uses; a string is the list of its code points.
use cwdbg.Base.{
  ℕ, zero, suc, ◌+◌, ◌/◌, ◌%◌, Bool, false, [], ◌∷◌, ◌++◌, Option, none, some, Bytes, ◌==◌, ltb,
  if◌then◌else◌,
}

-- `s.split(sep, maxsplit=1)`, unpacked into two parts; without a separator the unpacking fails.
unfoldable pub split_once : ℕ → Bytes → Option (Bytes × Bytes)
split_once sep [] = none
split_once sep (c ∷ cs) =
    let rest = split_once sep cs in
    if c == sep then some ([], cs) else (elim rest [ none ↦ none | some p ↦ some (c ∷ p.0, p.1) ])

-- `s.endswith(c)` for a single character.
unfoldable pub ends_with : ℕ → Bytes → Bool
ends_with c [] = false
ends_with c (x ∷ []) = x == c
ends_with c (x ∷ y ∷ ys) = ends_with c (y ∷ ys)

hex_digit : ℕ → ℕ
hex_digit n = if ltb n 10 then n + b'0' else n + 87

-- The last `k` hexadecimal digits of a number, in lower case.
hex_digits : ℕ → ℕ → Bytes
unfolding hex_digit
hex_digits zero n = []
hex_digits (suc k) n = hex_digits k (n / 16) ++ hex_digit (n % 16) ∷ []

-- `f'{n:08x}'` for a number of 32 bits.
unfoldable pub hex8 : ℕ → Bytes
unfolding hex_digits
hex8 n = hex_digits 8 n
