-- ===== src/Generator/Pragmas/Line.antt =====
-- A whole line of pragmas in the format of the include files, as host/create-syscall-info-db.py reads it.
use cwdbg.Base.{
  ℕ, ◌<◌, ◌≡◌, refl, sym, ap, ◌∙◌, true, false, List, [], ◌∷◌, ◌++◌, some, Bytes, text, arith, All,
  append_assoc, length, starts_with, is_space, is_hex_digit, digit, hexadecimal, is_hex_digit-digit,
  hexadecimal-All, at_least_one, subst, hexadecimal-at_least_one, lookup, insert, nat_key, text_key,
  ok,
}
use cwdbg.Target.Syscalls.{SyscallInfo}
use cwdbg.Generator.Pragmas.{
  Tables, split_words, last_three, hex_values, enter_args, enter_pragma, read_pragma,
}
use cwdbg.Generator.Pragmas.Words.{IsWord, split_words-word, split_words-last, All-visible}
use cwdbg.Generator.Pragmas.RoundTrip.{
  hex_int-hexadecimal, hex_values-cons, hex_values-registers, args_from-reversed, register_digits,
  assigned,
}

-- The last word of a pragma: the registers of the arguments in reverse order, that of the result, and the number
-- of the arguments.
abbrev pub reg_info : List ℕ → ℕ → Bytes
reg_info rs ret = register_digits rs ++ digit ret ∷ digit (length rs) ∷ []

-- `#pragma libcall <base> <name> <offset> <registers>`
abbrev pub pragma_line : Bytes → Bytes → Bytes → ℕ → Bytes → Bytes
pragma_line kind lib_base name offset registers =
    text "#pragma "
    ++ (kind
        ++ b' ' ∷ (lib_base ++ b' ' ∷ (name ++ b' ' ∷ (hexadecimal offset ++ b' ' ∷ registers))))

hex_registers :
    (rs : List ℕ) (tail : Bytes)
    → All (λ r. r < 15) rs
    → All (λ c. is_hex_digit c ≡ true) tail
    → All (λ c. is_hex_digit c ≡ true) (register_digits rs ++ tail)
hex_registers [] tail few all = all
hex_registers (r ∷ rs) tail (f, few) all =
    subst (All (λ c. is_hex_digit c ≡ true))
      (sym (append_assoc (register_digits rs) (digit r ∷ []) tail))
      (hex_registers rs (digit r ∷ tail) few (is_hex_digit-digit r (omega arith), all))

IsWord-hex :
    (s : Bytes) → All (λ c. is_hex_digit c ≡ true) s → at_least_one is_hex_digit s ≡ true → IsWord s
unfolding at_least_one
IsWord-hex [] all h = cc
IsWord-hex (c ∷ cs) all h = All-visible (c ∷ cs) all

IsWord-append :
    (xs : Bytes) (c : ℕ) (ys : Bytes)
    → All (λ c. is_space c ≡ false) (xs ++ c ∷ ys)
    → IsWord (xs ++ c ∷ ys)
IsWord-append [] c ys all = all
IsWord-append (x ∷ xs) c ys all = all

reg_info-IsWord :
    (rs : List ℕ) (ret : ℕ)
    → All (λ r. r < 15) rs
    → ret < 15
    → length rs < 16
    → IsWord (reg_info rs ret)
reg_info-IsWord rs ret few ret_few short =
    IsWord-append (register_digits rs) (digit ret) (digit (length rs) ∷ []) (
      All-visible (reg_info rs ret) (
        hex_registers rs (digit ret ∷ digit (length rs) ∷ []) few
          (is_hex_digit-digit ret (omega arith), (is_hex_digit-digit (length rs) short, tt))))

pragma-IsWord : IsWord (text "#pragma")
unfolding is_space
pragma-IsWord = (refl, (refl, (refl, (refl, (refl, (refl, (refl, tt)))))))

split_words-pragma :
    (kind lib_base name : Bytes) (offset : ℕ) (registers : Bytes)
    → IsWord kind
    → IsWord lib_base
    → IsWord name
    → IsWord registers
    → split_words (pragma_line kind lib_base name offset registers)
      ≡ text "#pragma" ∷ kind ∷ lib_base ∷ name ∷ hexadecimal offset ∷ registers ∷ []
split_words-pragma kind lib_base name offset registers k l n r =
    let offset_word =
      IsWord-hex (hexadecimal offset) (hexadecimal-All offset) (hexadecimal-at_least_one offset) in
    split_words-word (text "#pragma") _ pragma-IsWord
    ∙ ap (λ ws. text "#pragma" ∷ ws)
        (split_words-word kind _ k
          ∙ ap (λ ws. kind ∷ ws)
              (split_words-word lib_base _ l
                ∙ ap (λ ws. lib_base ∷ ws)
                    (split_words-word name _ n
                      ∙ ap (λ ws. name ∷ ws)
                          (split_words-word (hexadecimal offset) _ offset_word
                            ∙ ap (λ ws. hexadecimal offset ∷ ws) (split_words-last registers r)))))

-- A pragma for a function with a known prototype, with as many registers as the prototype has arguments, at most
-- 15, gives the arguments their registers in the order of the prototype, and enters the function under the offset.
pub read_pragma-pragma_line :
    (kind lib_base name : Bytes) (offset ret : ℕ) (rs : List ℕ) (tables : Tables)
    (info : SyscallInfo)
    → IsWord kind
    → IsWord lib_base
    → IsWord name
    → All (λ r. r < 15) rs
    → ret < 15
    → length rs < 16
    → lookup name tables.by_name ≡ some info
    → length info.args ≡ length rs
    → read_pragma (pragma_line kind lib_base name offset (reg_info rs ret)) tables
      ≡ ok (record {
        by_name = insert name (record info { args = assigned info.args rs }) tables.by_name;
        by_offset = insert offset name tables.by_offset;
      })
unfolding read_pragma last_three enter_pragma enter_args starts_with hex_values
read_pragma-pragma_line kind lib_base name offset ret rs tables info k l n few ret_few short known
      same =
    let words =
      split_words-pragma kind lib_base name offset (reg_info rs ret) k l n
        (reg_info-IsWord rs ret few ret_few short) in
    let values =
      hex_values-registers rs (digit ret ∷ digit (length rs) ∷ []) (ret ∷ length rs ∷ []) few (
        hex_values-cons ret (digit (length rs) ∷ []) (length rs ∷ []) (omega arith)
          (hex_values-cons (length rs) [] [] short refl)) in
    rw words (
      rw (hex_int-hexadecimal offset)
        (rw known (rw values (rw (args_from-reversed rs ret info.args few same) refl))))
