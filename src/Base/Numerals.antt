-- ===== src/Base/Numerals.antt =====
-- Texts of digits: the parts of regular expressions that match them, `int`, and numbers that are printed and
-- read again.
use Prim.Native.Nat.{ℕ, zero, suc, ◌+◌, ◌*◌, ◌/◌, ◌%◌, ◌≤◌, ◌<◌}
use mathlib.Core.Path.{◌≡◌, refl, sym, ap, ◌∙◌}
use mathlib.Core.Logic.{inl, inr}
use mathlib.Core.Bool.{Bool, true, false, ◌&&◌, ◌||◌}
use mathlib.Core.List.{[], ◌∷◌, ◌++◌, append_assoc, append-nil}
use native.Mathlib.Omega.{arith}
use cwdbg.Base.Tests.{ltb, ◌==◌, if◌then◌else◌, Bool-cases}
use cwdbg.Base.Lists.{Bytes, All}
use cwdbg.Base.Texts.{digit, digits, decimal, hexadecimal, is_digit, is_hex_digit, digit_value}

-- A class of characters, repeated up to `$`, which also stands in front of a line end that comes last.
unfoldable pub any_number : (ℕ → Bool) → Bytes → Bool
any_number p [] = true
any_number p (c ∷ []) = p c || c == b'\n'
any_number p (c ∷ d ∷ cs) = p c && any_number p (d ∷ cs)

unfoldable pub at_least_one : (ℕ → Bool) → Bytes → Bool
unfolding any_number
at_least_one p [] = false
at_least_one p (c ∷ cs) = p c && any_number p cs

-- `int(…)` of a text of digits, which may end in a line end.
unfoldable pub int_from : ℕ → ℕ → Bytes → ℕ
unfolding digit_value
int_from base n [] = n
int_from base n (c ∷ cs) =
    if c == b'\n' then int_from base n cs else int_from base (n * base + digit_value c) cs

All-append : (P : ℕ → Type 0) (xs ys : Bytes) → All P xs → All P ys → All P (xs ++ ys)
All-append P [] ys a b = b
All-append P (x ∷ xs) ys (a, all) b = (a, All-append P xs ys all b)

any_number-All : (p : ℕ → Bool) (xs : Bytes) → All (λ c. p c ≡ true) xs → any_number p xs ≡ true
unfolding any_number
any_number-All p [] a = refl
any_number-All p (x ∷ []) (a, _) = rw a refl
any_number-All p (x ∷ y ∷ xs) (a, all) = rw a (any_number-All p (y ∷ xs) all)

at_least_one-append :
    (p : ℕ → Bool) (xs : Bytes) (c : ℕ)
    → All (λ c. p c ≡ true) xs
    → p c ≡ true
    → at_least_one p (xs ++ c ∷ []) ≡ true
unfolding at_least_one any_number
at_least_one-append p [] c all h = rw h refl
at_least_one-append p (x ∷ xs) c (a, all) h =
    rw a (any_number-All p (xs ++ c ∷ []) (All-append (λ c. p c ≡ true) xs (c ∷ []) all (h, tt)))

pub digit_value-digit : (n : ℕ) → n < 16 → digit_value (digit n) ≡ n
unfolding digit_value digit
digit_value-digit n h = ground arith

digit_no_end : (n : ℕ) → (digit n == b'\n') ≡ false
unfolding digit
digit_no_end n = ground arith

module _ (base : ℕ) (fits : base ≤ 16) (some_base : 0 < base)
    (smaller : (n : ℕ) → base ≤ n → n / base < n) (whole : (n : ℕ) → n / base * base + n % base ≡ n)
    (rest_fits : (n : ℕ) → n % base < base) (p : ℕ → Bool)
    (known : (n : ℕ) → n < base → p (digit n) ≡ true) where
  digits-All : (fuel n : ℕ) → All (λ c. p c ≡ true) (digits base fuel n)
  unfolding digits
  digits-All zero n = tt
  digits-All (suc fuel) n = elim (Bool-cases (ltb n base)) [
    | inl few ↦ rw few (known n (ground arith), tt)
    | inr many ↦ rw many (
        All-append (λ c. p c ≡ true) (digits base fuel (n / base)) (digit (n % base) ∷ [])
          (digits-All fuel (n / base)) (known (n % base) (rest_fits n), tt))
  ]

  int_from-digit :
      (m d : ℕ) (rest : Bytes)
      → d < 16
      → int_from base m (digit d ∷ rest) ≡ int_from base (m * base + d) rest
  unfolding int_from
  int_from-digit m d rest h = rw (digit_no_end d) (rw (digit_value-digit d h) refl)

  int_from-digits :
      (fuel n : ℕ) (rest : Bytes)
      → n < fuel
      → int_from base 0 (digits base fuel n ++ rest) ≡ int_from base n rest
  unfolding digits
  int_from-digits zero n rest h = absurd (omega arith)
  int_from-digits (suc fuel) n rest h = elim (Bool-cases (ltb n base)) [
    | inl few ↦ rw few (
        int_from-digit 0 n rest (ground (arith, fits))
        ∙ ap (λ m. int_from base m rest) {x = 0 * base + n} {y = n} (omega arith))
    | inr many ↦ rw many (
        ap (int_from base 0)
          (append_assoc (digits base fuel (n / base)) (digit (n % base) ∷ []) rest)
        ∙ int_from-digits fuel (n / base) (digit (n % base) ∷ rest) (ground (arith, smaller n))
        ∙ int_from-digit (n / base) (n % base) rest (omega (arith, rest_fits n, fits))
        ∙ ap (λ m. int_from base m rest) (whole n))
  ]

  digits-at_least_one : (fuel n : ℕ) → at_least_one p (digits base (suc fuel) n) ≡ true
  unfolding digits
  digits-at_least_one fuel n = elim (Bool-cases (ltb n base)) [
    | inl few ↦ rw few (at_least_one-append p [] (digit n) tt (known n (ground arith)))
    | inr many ↦ rw many (
        at_least_one-append p (digits base fuel (n / base)) (digit (n % base))
          (digits-All fuel (n / base)) (known (n % base) (rest_fits n)))
  ]

pub is_hex_digit-digit : (n : ℕ) → n < 16 → is_hex_digit (digit n) ≡ true
unfolding is_hex_digit is_digit digit
is_hex_digit-digit n h = ground arith

is_digit-digit : (n : ℕ) → n < 10 → is_digit (digit n) ≡ true
unfolding is_digit digit
is_digit-digit n h = ground arith

-- Hexadecimal and decimal numbers as Python prints them, read again.
pub hexadecimal-All : (n : ℕ) → All (λ c. is_hex_digit c ≡ true) (hexadecimal n)
unfolding hexadecimal
hexadecimal-All n =
    digits-All 16 (omega arith) (omega arith) (λ n h. omega arith) (λ n. omega arith)
      (λ n. omega arith) is_hex_digit is_hex_digit-digit (suc n) n

pub hexadecimal-at_least_one : (n : ℕ) → at_least_one is_hex_digit (hexadecimal n) ≡ true
unfolding hexadecimal
hexadecimal-at_least_one n =
    digits-at_least_one 16 (omega arith) (omega arith) (λ n h. omega arith) (λ n. omega arith)
      (λ n. omega arith) is_hex_digit is_hex_digit-digit n n

pub int_from-hexadecimal : (n : ℕ) → int_from 16 0 (hexadecimal n) ≡ n
unfolding hexadecimal int_from
int_from-hexadecimal n =
    ap (int_from 16 0) (sym (append-nil (digits 16 (suc n) n)))
    ∙ int_from-digits 16 (omega arith) (omega arith) (λ n h. omega arith) (λ n. omega arith)
        (λ n. omega arith) is_hex_digit is_hex_digit-digit (suc n) n [] (omega arith)

pub decimal-All : (n : ℕ) → All (λ c. is_digit c ≡ true) (decimal n)
unfolding decimal
decimal-All n =
    digits-All 10 (omega arith) (omega arith) (λ n h. omega arith) (λ n. omega arith)
      (λ n. omega arith) is_digit is_digit-digit (suc n) n

pub decimal-at_least_one : (n : ℕ) → at_least_one is_digit (decimal n) ≡ true
unfolding decimal
decimal-at_least_one n =
    digits-at_least_one 10 (omega arith) (omega arith) (λ n h. omega arith) (λ n. omega arith)
      (λ n. omega arith) is_digit is_digit-digit n n

pub int_from-decimal : (n : ℕ) → int_from 10 0 (decimal n) ≡ n
unfolding decimal int_from
int_from-decimal n =
    ap (int_from 10 0) (sym (append-nil (digits 10 (suc n) n)))
    ∙ int_from-digits 10 (omega arith) (omega arith) (λ n h. omega arith) (λ n. omega arith)
        (λ n. omega arith) is_digit is_digit-digit (suc n) n [] (omega arith)
