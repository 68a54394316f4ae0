-- ===== src/Generator/Protos.antt =====
-- The prototypes: the first loop of `main` in host/create-syscall-info-db.py.
pub mod Parts
pub mod Line
use cwdbg.Base.{
  ℕ, suc, ◌-◌, ◌||◌, List, [], ◌∷◌, Option, none, some, Bytes, text, eq_text, strip, is_word, ◌==◌,
  if◌then◌else◌, take, drop, Dict, insert, text_key,
}
use cwdbg.Stabs.Text.{ends_with}
use cwdbg.Target.Syscalls.{SyscallArg, SyscallInfo}

-- `s.find(c)` and `s.rfind(c)`
unfoldable pub find_char : ℕ → Bytes → Option ℕ
find_char c [] = none
find_char c (x ∷ xs) =
    let rest = find_char c xs in
    if x == c then some 0 else (elim rest [ none ↦ none | some i ↦ some (suc i) ])

unfoldable pub rfind_char : ℕ → Bytes → Option ℕ
rfind_char c [] = none
rfind_char c (x ∷ xs) = elim (rfind_char c xs) [
  | some i ↦ some (suc i)
  | none ↦ if x == c then some 0 else none
]

-- One more character in front of the parts.
in_front : ℕ → List Bytes → List Bytes
in_front c [] = (c ∷ []) ∷ []
in_front c (part ∷ parts) = (c ∷ part) ∷ parts

-- `s.split(c)`
unfoldable pub split : ℕ → Bytes → List Bytes
unfolding in_front
split c [] = [] ∷ []
split c (x ∷ xs) = let parts = split c xs in if x == c then [] ∷ parts else in_front x parts

-- `[SyscallArg(decl=arg) for arg in args if …]`
unfoldable pub declared_args : List Bytes → List SyscallArg
unfolding strip eq_text
declared_args [] = []
declared_args (part ∷ parts) =
    let arg = strip part in
    let rest = declared_args parts in
    if eq_text arg (text "VOID") || eq_text arg (text "...")
    then rest
    else record { decl = arg; register = none } ∷ rest

in_word : ℕ → Bytes × Bytes → Bytes × Bytes
in_word c ([], word) = if is_word c then ([], c ∷ word) else (c ∷ [], word)
in_word c (x ∷ xs, word) = (c ∷ x ∷ xs, word)

-- The word at the end of a text, and what stands in front of it.
unfoldable pub split_last_word : Bytes → Bytes × Bytes
unfolding in_word
split_last_word [] = ([], [])
split_last_word (c ∷ cs) = in_word c (split_last_word cs)

-- The regular expression for the type and the name: both have at least one character.
unfoldable pub match_head : Bytes × Bytes → Option (Bytes × Bytes)
match_head (c ∷ cs, d ∷ ds) = some (c ∷ cs, d ∷ ds)
match_head _ = none

-- The parts of a prototype between the parentheses and in front of them.
unfoldable pub proto_parts :
    Bytes → Option ℕ → Option ℕ → Option ((Bytes × Bytes) × List SyscallArg)
unfolding match_head split_last_word declared_args split
proto_parts line (some first) (some last) = elim (match_head (split_last_word (take first line))) [
  | none ↦ none
  | some head ↦
      some (head, declared_args (split b',' (take (last - suc first) (drop (suc first) line))))
]
proto_parts line _ _ = none

unfoldable pub enter_proto :
    Option ((Bytes × Bytes) × List SyscallArg) → Dict Bytes SyscallInfo → Dict Bytes SyscallInfo
unfolding insert
enter_proto none by_name = by_name
enter_proto (some ((ret_type, name), args)) by_name =
    insert name (record { name = name; args = args; ret_type = ret_type }) by_name

-- A stripped line; what does not look like a prototype is skipped.
unfoldable pub read_proto : Bytes → Dict Bytes SyscallInfo → Dict Bytes SyscallInfo
unfolding ends_with enter_proto proto_parts find_char rfind_char
read_proto line by_name =
    if ends_with b';' line
    then enter_proto (proto_parts line (find_char b'(' line) (rfind_char b')' line)) by_name
    else by_name

unfoldable pub read_protos : List Bytes → Dict Bytes SyscallInfo → Dict Bytes SyscallInfo
unfolding read_proto strip
read_protos [] by_name = by_name
read_protos (line ∷ lines) by_name = read_protos lines (read_proto (strip line) by_name)
