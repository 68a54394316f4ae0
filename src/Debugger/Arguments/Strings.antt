-- ===== src/Debugger/Arguments/Strings.antt =====
-- The strings among the arguments of system calls, host/target.py.
use cwdbg.Base.{
  ℕ, zero, suc, ◌+◌, text, ok, required, ◌^◌, be32, be16, bind-ok, lift, pure, ◌>>=◌,
  attribute_error, ◌<◌, ◌≡◌, refl, ap, ◌∙◌, true, false, List, [], ◌∷◌, ◌++◌, none, some, Bytes,
  arith, All, ◌==◌, lt→ltb, length,
}
use cwdbg.Server.{ServerConnection, is_msg_type, is_reply, msg_ack, msg_peek_mem}
use cwdbg.Server.Commands.{
  ServerCommand, execute, srv_peek_mem, waits_for_stop, new_command, pack_uint32, pack_uint16,
}
use cwdbg.Server.Commands.Replies.{Comes, connection, exchange, with_command, execute-ack}
use cwdbg.Target.{TargetInfo}
use cwdbg.Target.CallStack.{run_command, command_result}
use cwdbg.Target.Syscalls.{SyscallArg}
use cwdbg.Debugger.{Debugger, on_server_conn}
use cwdbg.Debugger.Arguments.{
  string_at, register_value, contains, get_syscall_arg_values, start_byte, next_byte, decode_from,
  escape_line_ends, until_nul, max_msg_data_len, string_of,
}

-- The characters of ASCII that are shown as they are, among them all that can be printed.
abbrev pub IsPlain : ℕ → Type 0
IsPlain c = (c == 0 ≡ false) × (c == b'\n' ≡ false) × (c == b'\r' ≡ false) × (c < 0x80)

until_nul-plain :
    (n : ℕ) (s rest : Bytes) → All IsPlain s → length s < n → until_nul n (s ++ 0 ∷ rest) ≡ s
unfolding until_nul
until_nul-plain zero s rest all h = absurd (omega arith)
until_nul-plain (suc n) [] rest all h = refl
until_nul-plain (suc n) (c ∷ s) rest ((visible, _, _, _), all) h =
    rw visible (ap (λ t. c ∷ t) (until_nul-plain n s rest all (omega arith)))

decode_from-plain : (s : Bytes) → All IsPlain s → decode_from none s ≡ s
unfolding decode_from next_byte start_byte
decode_from-plain [] all = refl
decode_from-plain (c ∷ s) ((_, _, _, few), all) =
    rw (lt→ltb c 0x80 few) (ap (λ t. c ∷ t) (decode_from-plain s all))

escape_line_ends-plain : (s : Bytes) → All IsPlain s → escape_line_ends s ≡ s
unfolding escape_line_ends
escape_line_ends-plain [] all = refl
escape_line_ends-plain (c ∷ s) ((_, no_end, no_cr, _), all) =
    rw (no_end, no_cr) (ap (λ t. c ∷ t) (escape_line_ends-plain s all))

string_of-plain :
    (s rest : Bytes) → All IsPlain s → length s < max_msg_data_len → string_of (s ++ 0 ∷ rest) ≡ s
unfolding string_of
string_of-plain s rest all h =
    rw (until_nul-plain max_msg_data_len s rest all h)
      (ap escape_line_ends (decode_from-plain s all) ∙ escape_line_ends-plain s all)

-- The command that reads the block.
abbrev pub peek_string : ℕ → ServerCommand
peek_string address = new_command msg_peek_mem (some (be32 address ++ be16 max_msg_data_len))

srv_peek_mem-string :
    (address : ℕ)
    → address < 2 ^ 32
    → srv_peek_mem address max_msg_data_len ≡ ok (peek_string address)
unfolding srv_peek_mem pack_uint32 pack_uint16
srv_peek_mem-string address h = rw (lt→ltb address (2 ^ 32) h) refl

module _ (dbg : Debugger) (address n : ℕ) (s behind extra : Bytes) (chunks rest sent : List Bytes)
    (fits : address < 2 ^ 32) (plain : All IsPlain s) (short : length s < max_msg_data_len)
    (acked : Comes msg_ack n (s ++ 0 ∷ behind) extra chunks) where
  abbrev before : Debugger
  before = record dbg { server_conn = connection n (chunks ++ rest) sent }

  abbrev line_after : ServerConnection
  line_after = connection (n + 1) rest (with_command (peek_string address) n (chunks ++ rest) sent)

  peek_string-ack :
      run_command (srv_peek_mem address max_msg_data_len) (connection n (chunks ++ rest) sent)
      ≡ (ok (some (s ++ 0 ∷ behind)), line_after)
  unfolding run_command command_result is_msg_type is_reply waits_for_stop
  peek_string-ack =
      ap (λ c. run_command c (connection n (chunks ++ rest) sent))
        (srv_peek_mem-string address fits)
      ∙ ap command_result
          {x = execute (exchange (peek_string address) (connection n (chunks ++ rest) sent))}
          {y = (
            ok tt,
            exchange
                (record (peek_string address) {
                  error_code = some 0;
                  bytes = some (s ++ 0 ∷ behind);
                })
                line_after,
          )}
          (execute-ack (peek_string address) n (s ++ 0 ∷ behind) extra chunks rest sent refl refl
            refl acked)

  string_at-ack : string_at address before ≡ (ok s, record dbg { server_conn = line_after })
  unfolding string_at
  string_at-ack =
      bind-ok (on_server_conn (run_command (srv_peek_mem address max_msg_data_len)))
        (λ result. lift (required attribute_error result) >>= λ bytes. pure (string_of bytes))
        before
        (ap (λ r. (r.0, record dbg { server_conn = r.1 }))
          {x = run_command (srv_peek_mem address max_msg_data_len)
            (connection n (chunks ++ rest) sent)}
          {y = (ok (some (s ++ 0 ∷ behind)), line_after)} peek_string-ack)
      ∙ ap (λ t. (ok t, record dbg { server_conn = line_after }))
          (string_of-plain s behind plain short)

  -- An argument whose declaration says STRPTR, in a register that the target has, is shown with the string at the
  -- address in that register: when the server sends a block that begins with a string of at most 254
  -- characters of ASCII without line ends, and with a null byte, it is that string, whatever follows.
  pub get_syscall_arg_values-string :
      (info : TargetInfo) (arg : SyscallArg) (r : ℕ)
      → arg.register ≡ some r
      → register_value info r ≡ ok address
      → contains (text "STRPTR") arg.decl ≡ true
      → get_syscall_arg_values info arg before
        ≡ (ok (address, some s), record dbg { server_conn = line_after })
  unfolding get_syscall_arg_values
  get_syscall_arg_values-string info arg r in_reg value pointer = rw in_reg (
      rw value (
        rw pointer (
          bind-ok (string_at address) (λ string. pure (address, some string)) before
            string_at-ack)))
