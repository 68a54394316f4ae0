-- ===== src/Base/Texts.antt =====
-- Python's `str` as the list of the code points: literals, decimal and hexadecimal numbers, padding,
-- and the methods of `str` that several modules use.
use Prim.Native.Char.{code}
use Prim.Native.String.{String}
use Prim.Native.Nat.{ℕ, zero, suc, ◌+◌, ◌-◌, ◌/◌, ◌%◌}
use mathlib.Core.Bool.{Bool, true, false, ◌&&◌, ◌||◌}
use mathlib.Core.List.{List, [], ◌∷◌, ◌++◌}
use cwdbg.Base.Tests.{ltb, leb, ◌==◌, if◌then◌else◌}
use cwdbg.Base.Lists.{Bytes, length}

abbrev pub text : String → Bytes
text String.[] = []
text (String.◌∷◌ c cs) = code c ∷ text cs

-- A digit, with lower-case letters behind 9.
unfoldable pub digit : ℕ → ℕ
digit n = if ltb n 10 then b'0' + n else b'a' + (n - 10)

-- The digits of a number that has at most as many of them as there is fuel.
unfoldable pub digits : ℕ → ℕ → ℕ → Bytes
unfolding digit
digits base zero n = []
digits base (suc fuel) n =
    let high = digits base fuel (n / base) in
    if ltb n base then digit n ∷ [] else high ++ digit (n % base) ∷ []

-- `str(n)`
unfoldable pub decimal : ℕ → Bytes
unfolding digits
decimal n = digits 10 (suc n) n

-- `f'{n:x}'`
unfoldable pub hexadecimal : ℕ → Bytes
unfolding digits
hexadecimal n = digits 16 (suc n) n

unfoldable pub repeated : ℕ → ℕ → Bytes
repeated c zero = []
repeated c (suc n) = c ∷ repeated c n

-- `f'{s:<n}'`
unfoldable pub left_justified : ℕ → Bytes → Bytes
unfolding repeated
left_justified n s = s ++ repeated b' ' (n - length s)

-- `f'{n:08x}'` for eight digits, `f'{n:02}'` for two.
unfoldable pub zero_filled : ℕ → Bytes → Bytes
unfolding repeated
zero_filled n s = repeated b'0' (n - length s) ++ s

-- `f'0x{n:08x}'`
unfoldable pub address_text : ℕ → Bytes
unfolding hexadecimal zero_filled
address_text n = text "0x" ++ zero_filled 8 (hexadecimal n)

-- `''.join(parts)`
unfoldable pub concat : List Bytes → Bytes
concat [] = []
concat (s ∷ parts) = s ++ concat parts

-- `s.startswith(p)`
unfoldable pub starts_with : Bytes → Bytes → Bool
starts_with [] s = true
starts_with (p ∷ ps) [] = false
starts_with (p ∷ ps) (c ∷ cs) = p == c && starts_with ps cs

-- `c.isspace()`
unfoldable pub is_space : ℕ → Bool
is_space c =
    (leb 9 c && leb c 13)
    || (leb 28 c && leb c 32)
    || c == 0x85
    || c == 0xa0
    || c == 0x1680
    || (leb 0x2000 c && leb c 0x200a)
    || c == 0x2028
    || c == 0x2029
    || c == 0x202f
    || c == 0x205f
    || c == 0x3000

unfoldable pub strip_left : Bytes → Bytes
unfolding is_space
strip_left [] = []
strip_left (c ∷ cs) = let rest = strip_left cs in if is_space c then rest else c ∷ cs

-- A character in front of a text that was stripped.
keep_unless_blank : ℕ → Bytes → Bytes
unfolding is_space
keep_unless_blank c [] = if is_space c then [] else c ∷ []
keep_unless_blank c (d ∷ ds) = c ∷ d ∷ ds

unfoldable pub strip_right : Bytes → Bytes
unfolding keep_unless_blank
strip_right [] = []
strip_right (c ∷ cs) = keep_unless_blank c (strip_right cs)

-- `s.strip()`
unfoldable pub strip : Bytes → Bytes
unfolding strip_left strip_right
strip s = strip_right (strip_left s)

-- Classes of characters in regular expressions. Of the characters outside of ASCII none counts as a digit or as a
-- part of a word here.
abbrev between : ℕ → ℕ → ℕ → Bool
between a b c = leb a c && leb c b

-- `\d`, for the digits of ASCII; Python takes those of other scripts too.
unfoldable pub is_digit : ℕ → Bool
is_digit c = between b'0' b'9' c

-- `[0-9a-fA-F]`
unfoldable pub is_hex_digit : ℕ → Bool
unfolding is_digit
is_hex_digit c = is_digit c || between b'a' b'f' c || between b'A' b'F' c

-- `[a-zA-Z_]`
unfoldable pub begins_name : ℕ → Bool
begins_name c = between b'a' b'z' c || between b'A' b'Z' c || c == b'_'

-- `\w`, for the characters of ASCII.
unfoldable pub is_word : ℕ → Bool
unfolding is_digit begins_name
is_word c = is_digit c || begins_name c

-- The value of a hexadecimal digit.
unfoldable pub digit_value : ℕ → ℕ
digit_value c = if leb b'a' c then c - 87 else if leb b'A' c then c - 55 else c - b'0'
