-- ===== src/Generator/Pragmas.antt =====
-- The pragmas: the second loop of `main` in host/create-syscall-info-db.py. The dictionary by offsets holds
-- the same objects as the one by names, whose arguments are changed in place: it is kept as a dictionary
-- from offsets to names.
pub mod Words
pub mod RoundTrip
pub mod Line
use cwdbg.Base.{
  ℕ, zero, suc, ◌+◌, ◌*◌, ◌-◌, Bool, not, ◌&&◌, ◌||◌, List, [], ◌∷◌, ◌++◌, Option, none, some,
  Bytes, text, strip, starts_with, is_space, is_hex_digit, digit_value, at_least_one, int_from,
  ◌==◌, ltb, if◌then◌else◌, length, drop, Dict, lookup, insert, nat_key, text_key, Outcome, ok,
  raise, no_return, chain, required, value_error, index_error,
}
use cwdbg.Target.Syscalls.{SyscallArg, SyscallInfo}

pub record Tables : Type 0 where
  pub by_name : Dict Bytes SyscallInfo
  pub by_offset : Dict ℕ Bytes

-- A character in front of the words of a text, which begins with a word, or does not.
put_before : ℕ → Bool → List Bytes → List Bytes
put_before c Bool.false words = (c ∷ []) ∷ words
put_before c Bool.true [] = (c ∷ []) ∷ []
put_before c Bool.true (word ∷ words) = (c ∷ word) ∷ words

begins_word : Bytes → Bool
unfolding is_space
begins_word [] = Bool.false
begins_word (c ∷ cs) = not (is_space c)

-- `s.split()`
unfoldable pub split_words : Bytes → List Bytes
unfolding is_space begins_word put_before
split_words [] = []
split_words (c ∷ cs) =
    let words = split_words cs in if is_space c then words else put_before c (begins_word cs) words

-- `…[-3:]`, unpacked into three names.
unfoldable pub last_three : List Bytes → Outcome (Bytes × Bytes × Bytes)
last_three (a ∷ b ∷ c ∷ []) = ok (a, b, c)
last_three (a ∷ b ∷ c ∷ d ∷ words) = last_three (b ∷ c ∷ d ∷ words)
last_three _ = raise value_error

-- `int(x, 16)` for one character.
unfoldable pub hex_value : ℕ → Outcome ℕ
unfolding is_hex_digit digit_value
hex_value c = if is_hex_digit c then ok (digit_value c) else raise value_error

unfoldable pub hex_values : Bytes → Outcome (List ℕ)
unfolding hex_value
hex_values [] = ok []
hex_values (c ∷ cs) = chain (hex_value c) λ n. chain (hex_values cs) λ ns. ok (n ∷ ns)

-- What stands behind a prefix that marks hexadecimal numbers, or the whole text.
unfoldable pub without_prefix : Bytes → Bytes
without_prefix (a ∷ b ∷ cs) = if a == b'0' && (b == b'x' || b == b'X') then cs else a ∷ b ∷ cs
without_prefix s = s

-- Is every character a hexadecimal digit, and is there one?
unfoldable pub is_hex_number : Bytes → Bool
unfolding at_least_one is_hex_digit
is_hex_number s = at_least_one is_hex_digit s

-- `int(offset, 16)` for a text without sign, underscores and line ends, of which a word of a pragma has none.
unfoldable pub hex_int : Bytes → Outcome ℕ
unfolding without_prefix is_hex_number int_from
hex_int s =
    let digits = without_prefix s in
    if is_hex_number digits then ok (int_from 16 0 digits) else raise value_error

-- `reg_info.pop()`: the last item, and what is left.
unfoldable pub pop : List ℕ → Outcome (ℕ × List ℕ)
pop [] = raise index_error
pop (n ∷ []) = ok (n, [])
pop (n ∷ m ∷ ns) = chain (pop (m ∷ ns)) λ r. ok (r.0, n ∷ r.1)

-- `TargetRegisters(n)`
unfoldable pub target_register : ℕ → Outcome ℕ
target_register n = if ltb n 15 then ok n else raise value_error

-- `for arg in sci.args: arg.register = TargetRegisters(reg_info.pop())`
unfoldable pub set_registers : List ℕ → List SyscallArg → Outcome (List SyscallArg)
unfolding pop target_register
set_registers reg_info [] = ok []
set_registers reg_info (arg ∷ args) = chain (pop reg_info) λ r.
    chain (target_register r.0)
      λ n. chain (set_registers r.1 args) λ rest. ok (record arg { register = some n } ∷ rest)

-- The arguments with their registers, or none where the number of arguments differs.
unfoldable pub args_from : List ℕ → List SyscallArg → Outcome (Option (List SyscallArg))
unfolding pop set_registers
args_from reg_info args = chain (pop reg_info) λ nargs. chain (pop nargs.1) λ ret_val_reg.
    if nargs.0 == length args
    then (chain (set_registers ret_val_reg.1 args) λ changed. ok (some changed))
    else ok none

unfoldable pub enter_args : Bytes → ℕ → SyscallInfo → Tables → Option (List SyscallArg) → Tables
unfolding insert
enter_args name offset info tables none = tables
enter_args name offset info tables (some args) = record {
  by_name = insert name (record info { args = args }) tables.by_name;
  by_offset = insert offset name tables.by_offset;
}

-- A function that has no prototype is skipped.
unfoldable pub enter_pragma : Bytes → ℕ → Bytes → Tables → Option SyscallInfo → Outcome Tables
unfolding hex_values args_from enter_args
enter_pragma name offset reg_info tables none = ok tables
enter_pragma name offset reg_info tables (some info) = chain (hex_values reg_info) λ values.
    chain (args_from values info.args) λ args. ok (enter_args name offset info tables args)

-- A stripped line.
unfoldable pub read_pragma : Bytes → Tables → Outcome Tables
unfolding starts_with last_three split_words hex_int enter_pragma lookup
read_pragma line tables =
    if starts_with (text "#pragma") line
    then (chain (last_three (split_words line)) λ words.
        chain (hex_int words.1)
          λ offset. enter_pragma words.0 offset words.2 tables (lookup words.0 tables.by_name))
    else ok tables

unfoldable pub read_pragmas : List Bytes → Tables → Outcome Tables
unfolding read_pragma strip
read_pragmas [] tables = ok tables
read_pragmas (line ∷ lines) tables = chain (read_pragma (strip line) tables) (read_pragmas lines)
