-- ===== src/Generator/Pragmas/RoundTrip.antt =====
-- A pragma in the format of the include files, as host/create-syscall-info-db.py reads it.
use cwdbg.Base.{
  ℕ, ◌<◌, ◌≡◌, refl, sym, ap, ◌∙◌, true, List, [], ◌∷◌, ◌++◌, some, Bytes, arith, All, append_assoc,
  length, is_hex_digit, is_digit, digit, hexadecimal, digit_value-digit, is_hex_digit-digit,
  hexadecimal-All, hexadecimal-at_least_one, int_from-hexadecimal, lt→ltb, ==_refl, nat_key,
  text_key, ok,
}
use cwdbg.Target.Syscalls.{SyscallArg}
use cwdbg.Generator.Pragmas.{
  hex_value, hex_values, without_prefix, is_hex_number, hex_int, pop, target_register,
  set_registers, args_from,
}

without_prefix-hex : (s : Bytes) → All (λ c. is_hex_digit c ≡ true) s → without_prefix s ≡ s
unfolding without_prefix is_hex_digit is_digit
without_prefix-hex [] all = refl
without_prefix-hex (a ∷ []) all = refl
without_prefix-hex (a ∷ b ∷ cs) (h, (h', _)) = ground arith

pub hex_int-hexadecimal : (n : ℕ) → hex_int (hexadecimal n) ≡ ok n
unfolding hex_int is_hex_number
hex_int-hexadecimal n =
    rw (without_prefix-hex (hexadecimal n) (hexadecimal-All n))
      (rw (hexadecimal-at_least_one n) (ap ok (int_from-hexadecimal n)))

pub hex_value-digit : (n : ℕ) → n < 16 → hex_value (digit n) ≡ ok n
unfolding hex_value
hex_value-digit n h = rw (is_hex_digit-digit n h) (ap ok (digit_value-digit n h))

pub hex_values-cons :
    (n : ℕ) (tail : Bytes) (ns : List ℕ)
    → n < 16
    → hex_values tail ≡ ok ns
    → hex_values (digit n ∷ tail) ≡ ok (n ∷ ns)
unfolding hex_values
hex_values-cons n tail ns few h = rw (hex_value-digit n few) (rw h refl)

-- The registers of the arguments, in reverse order, as digits and as numbers.
abbrev pub register_digits : List ℕ → Bytes
register_digits [] = []
register_digits (r ∷ rs) = register_digits rs ++ digit r ∷ []

abbrev pub reversed : List ℕ → List ℕ
reversed [] = []
reversed (r ∷ rs) = reversed rs ++ r ∷ []

pub hex_values-registers :
    (rs : List ℕ) (tail : Bytes) (ns : List ℕ)
    → All (λ r. r < 15) rs
    → hex_values tail ≡ ok ns
    → hex_values (register_digits rs ++ tail) ≡ ok (reversed rs ++ ns)
hex_values-registers [] tail ns all h = h
hex_values-registers (r ∷ rs) tail ns (few, all) h =
    ap hex_values (append_assoc (register_digits rs) (digit r ∷ []) tail)
    ∙ hex_values-registers rs (digit r ∷ tail) (r ∷ ns) all
        (hex_values-cons r tail ns (omega arith) h)
    ∙ ap ok (sym (append_assoc (reversed rs) (r ∷ []) ns))

pop-append : (ns : List ℕ) (n : ℕ) → pop (ns ++ n ∷ []) ≡ ok (n, ns)
unfolding pop
pop-append [] n = refl
pop-append (m ∷ []) n = refl
pop-append (m ∷ k ∷ ns) n = rw (pop-append (k ∷ ns) n) refl

-- The arguments with their registers.
abbrev pub assigned : List SyscallArg → List ℕ → List SyscallArg
assigned (arg ∷ args) (r ∷ rs) = record arg { register = some r } ∷ assigned args rs
assigned _ _ = []

set_registers-reversed :
    (rs : List ℕ) (args : List SyscallArg)
    → All (λ r. r < 15) rs
    → length args ≡ length rs
    → set_registers (reversed rs) args ≡ ok (assigned args rs)
unfolding set_registers target_register
set_registers-reversed [] [] all h = refl
set_registers-reversed [] (arg ∷ args) all h = absurd (omega (arith, h))
set_registers-reversed (r ∷ rs) [] all h = absurd (omega (arith, h))
set_registers-reversed (r ∷ rs) (arg ∷ args) (few, all) h =
    rw (pop-append (reversed rs) r)
      (rw (lt→ltb r 15 few) (rw (set_registers-reversed rs args all (omega (arith, h))) refl))

pub args_from-reversed :
    (rs : List ℕ) (ret : ℕ) (args : List SyscallArg)
    → All (λ r. r < 15) rs
    → length args ≡ length rs
    → args_from (reversed rs ++ ret ∷ length rs ∷ []) args ≡ ok (some (assigned args rs))
unfolding args_from
args_from-reversed rs ret args all h =
    rw (sym (append_assoc (reversed rs) (ret ∷ []) (length rs ∷ []))) (
      rw (pop-append (reversed rs ++ ret ∷ []) (length rs)) (
        rw (pop-append (reversed rs) ret)
          (rw (h, ==_refl (length rs)) (rw (set_registers-reversed rs args all h) refl))))
