-- ===== src/Debugger/Arguments.antt =====
-- The arguments of the system call that the target is about to make: `_get_syscall_arg_values` of
-- host/target.py, with Python's decoding of UTF-8 under `errors='replace'`.
pub mod Strings
use cwdbg.Base.{
  ℕ, zero, suc, ◌+◌, ◌-◌, ◌*◌, Bool, ◌&&◌, ◌||◌, [], ◌∷◌, ◌++◌, Option, none, some, Bytes, text,
  ◌==◌, ltb, leb, if◌then◌else◌, starts_with, Outcome, type_error, index_error, attribute_error,
  get_elem?, Exec, pure, lift, required, ◌>>=◌,
}
use cwdbg.Server.Commands.{srv_peek_mem}
use cwdbg.Target.{TargetInfo}
use cwdbg.Target.CallStack.{run_command}
use cwdbg.Target.Syscalls.{SyscallArg}
use cwdbg.Debugger.{Debugger, on_server_conn}

-- `part in s`
unfoldable pub contains : Bytes → Bytes → Bool
unfolding starts_with
contains part [] = starts_with part []
contains part (c ∷ cs) = starts_with part (c ∷ cs) || contains part cs

-- What a first byte begins: how many bytes are to follow, the bounds of the next one, and the bits so far.
pub record Sequence : Type 0 where
  more : ℕ
  lowest : ℕ
  highest : ℕ
  bits : ℕ

abbrev between : ℕ → ℕ → ℕ → Bool
between a b n = leb a n && leb n b

first_byte : ℕ → Option Sequence
first_byte b =
    if between 0xc2 0xdf b
    then some (record { more = 1; lowest = 0x80; highest = 0xbf; bits = b - 0xc0 })
    else if between 0xe0 0xef b
    then some (record {
      more = 2;
      lowest = if b == 0xe0 then 0xa0 else 0x80;
      highest = if b == 0xed then 0x9f else 0xbf;
      bits = b - 0xe0;
    })
    else if between 0xf0 0xf4 b
    then some (record {
      more = 3;
      lowest = if b == 0xf0 then 0x90 else 0x80;
      highest = if b == 0xf4 then 0x8f else 0xbf;
      bits = b - 0xf0;
    })
    else none

abbrev replacement : ℕ
replacement = 0xfffd

-- A byte outside of a sequence: the character that it is, or the sequence that it begins.
start_byte : ℕ → Bytes × Option Sequence
unfolding first_byte
start_byte b =
    if ltb b 0x80
    then (b ∷ [], none)
    else (elim (first_byte b) [ none ↦ (replacement ∷ [], none) | some s ↦ ([], some s) ])

-- A byte within a sequence. Where it does not fit, what came before is replaced by one character.
continue : Sequence → ℕ → Bytes × Option Sequence
unfolding start_byte
continue s b =
    let bits = s.bits * 64 + (b - 0x80) in
    if between s.lowest s.highest b
    then (if s.more == 1
        then (bits ∷ [], none)
        else ([], some (record { more = s.more - 1; lowest = 0x80; highest = 0xbf; bits = bits })))
    else (let r = start_byte b in (replacement ∷ r.0, r.1))

next_byte : Option Sequence → ℕ → Bytes × Option Sequence
unfolding continue
next_byte none b = start_byte b
next_byte (some s) b = continue s b

-- `bytes.decode(errors='replace')`
unfoldable pub decode_from : Option Sequence → Bytes → Bytes
unfolding next_byte
decode_from none [] = []
decode_from (some s) [] = replacement ∷ []
decode_from s (b ∷ bs) = let r = next_byte s b in r.0 ++ decode_from r.1 bs

-- Line ends are written as escape sequences.
unfoldable pub escape_line_ends : Bytes → Bytes
escape_line_ends [] = []
escape_line_ends (c ∷ cs) =
    let rest = escape_line_ends cs in
    if c == b'\n' then text "\\n" ++ rest else if c == b'\r' then text "\\r" ++ rest else c ∷ rest

-- The bytes in front of the first null byte, or all of them, but at most 255.
unfoldable pub until_nul : ℕ → Bytes → Bytes
until_nul zero bytes = []
until_nul (suc n) [] = []
until_nul (suc n) (b ∷ bs) = let rest = until_nul n bs in if b == 0 then [] else b ∷ rest

abbrev pub max_msg_data_len : ℕ
max_msg_data_len = 255

unfoldable pub string_of : Bytes → Bytes
unfolding until_nul decode_from escape_line_ends
string_of result = escape_line_ends (decode_from none (until_nul max_msg_data_len result))

unfoldable pub string_at : ℕ → Exec Debugger Bytes
unfolding run_command srv_peek_mem string_of
string_at address = do
  result ← on_server_conn (run_command (srv_peek_mem address max_msg_data_len))
  bytes ← lift (required attribute_error result)
  pure (string_of bytes)

-- D0 has the number 0, and A0 has the number 8.
unfoldable pub register_value : TargetInfo → ℕ → Outcome ℕ
register_value info r = required index_error (
    if leb 8 r
    then get_elem? info.task_context.reg_a (r - 8)
    else get_elem? info.task_context.reg_d r)

unfoldable pub get_syscall_arg_values : TargetInfo → SyscallArg → Exec Debugger (ℕ × Option Bytes)
unfolding register_value contains string_at
get_syscall_arg_values info arg = do
  r ← lift (required type_error arg.register)
  arg_int ← lift (register_value info r)
  if contains (text "STRPTR") arg.decl
      then (string_at arg_int >>= λ s. pure (arg_int, some s))
      else pure (arg_int, none)
