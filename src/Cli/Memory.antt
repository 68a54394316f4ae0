-- ===== src/Cli/Memory.antt =====
-- The commands of host/cli.py that show memory: `disassemble`, `examine` and `hexdump`.
pub mod Rows
use cwdbg.Base.{
  ℕ, zero, suc, ◌+◌, Bool, ◌&&◌, List, [], ◌∷◌, ◌++◌, Option, none, some, Bytes, text, decimal,
  digit, ◌/◌, ◌%◌, left_justified, address_text, concat, ltb, leb, if◌then◌else◌, length, take,
  drop, ℤ, pos, negsuc, times, hex, str, Exn, Outcome, ok, raise, no_return, chain, type_error,
  struct_error, Exec, pure, throw, lift, required, except, ◌>>=◌,
}
use cwdbg.Server.Commands.{ServerCommand}
use cwdbg.Target.{max_instr_bytes}
use cwdbg.Debugger.{Debugger, run_server_command}
use cwdbg.Debugger.Disassembly.{Instruction, Disassembler, instruction_text}
use cwdbg.Cli.{
  Namespace, Value, number, other, Environment, Reply, message, failed, peek_mem, or_failed,
}

-- `SrvPeekMem(address, nbytes).execute(dbg.server_conn)`, of which the result is used: a use of None raises.
unfoldable pub read_memory : ℤ → ℤ → Exec Debugger Bytes
unfolding peek_mem run_server_command
read_memory address nbytes = do
  command ← run_server_command (peek_mem address nbytes)
  lift (required type_error command.bytes)

-- An address that was accepted by `struct.pack` is not negative.
unfoldable pub nat_part : ℤ → ℕ
nat_part (pos n) = n
nat_part (negsuc n) = 0

unfoldable pub listing : List Instruction → Bytes
unfolding address_text instruction_text
listing [] = []
listing (instr ∷ instrs) =
    (address_text instr.address ++ (text ":  " ++ instruction_text instr)) ++ listing instrs

-- The first instructions, as many as the user wants.
unfoldable pub execute_disassemble : Environment → Namespace → Exec Debugger (Option Reply)
unfolding or_failed read_memory nat_part listing
execute_disassemble env args = or_failed (text "Reading memory failed: ") do
  result ← read_memory args.address (times args.ninstr max_instr_bytes)
  pure (some (message (listing (env.disasm result (nat_part args.address) (nat_part args.ninstr)))))

unfoldable pub value_text : Value → Bytes
unfolding hex
value_text (number n) = hex n
value_text (other s) = s

-- `'\n'.join(…)`
unfoldable pub join_lines : List Bytes → Bytes
join_lines [] = []
join_lines (line ∷ []) = line
join_lines (line ∷ next ∷ lines) = line ++ b'\n' ∷ join_lines (next ∷ lines)

unfoldable pub value_texts : List Value → List Bytes
unfolding value_text
value_texts [] = []
value_texts (v ∷ vs) = value_text v ∷ value_texts vs

abbrev pub on_struct_error : Exn → Option (Option Reply)
on_struct_error struct_error =
    some (some (failed (text "Parsing format string failed: ") struct_error))
on_struct_error e = none

unfoldable pub execute_examine : Environment → Namespace → Exec Debugger (Option Reply)
unfolding or_failed read_memory join_lines value_texts
execute_examine env args = or_failed (text "Reading memory failed: ") (
    except on_struct_error do
      nbytes ← lift (env.calcsize args.format)
      result ← read_memory args.address (pos nbytes)
      values ← lift (env.unpack args.format result)
      pure (some (message (join_lines (value_texts values)))))

-- `bytes.hex(sep=' ')`
unfoldable pub hex_bytes : Bytes → Bytes
unfolding digit
hex_bytes [] = []
hex_bytes (b ∷ []) = digit (b / 16) ∷ digit (b % 16) ∷ []
hex_bytes (b ∷ c ∷ cs) = digit (b / 16) ∷ digit (b % 16) ∷ b' ' ∷ hex_bytes (c ∷ cs)

unfoldable pub printable : Bytes → Bytes
printable [] = []
printable (b ∷ bs) = (if leb 0x20 b && leb b 0x7e then b else b'.') ∷ printable bs

-- One line of the dump, for the bytes at an address.
unfoldable pub dump_row : ℕ → Bytes → Bytes
unfolding address_text left_justified hex_bytes printable concat
dump_row address row = concat (
    address_text address
    ∷ text ":  "
    ∷ left_justified 47 (hex_bytes row)
    ∷ text "  "
    ∷ printable row
    ∷ text "\n"
    ∷ [])

-- `while pos < len(cmd.result)`, one unit of fuel for each line.
unfoldable pub dump_rows : ℕ → ℕ → ℕ → Bytes → Outcome Bytes
unfolding dump_row
dump_rows zero address start result = no_return
dump_rows (suc fuel) address start result =
    let rest = dump_rows fuel address (start + 16) result in
    if ltb start (length result)
    then (chain rest λ dump. ok (dump_row (address + start) (take 16 (drop start result)) ++ dump))
    else ok []

unfoldable pub hexdump_heading : ℤ → ℤ → Bytes
unfolding str hex concat
hexdump_heading size address =
    concat
      (text "Hex dump of " ∷ str size ∷ text " bytes at address " ∷ hex address ∷ text ":\n" ∷ [])

-- The loop takes at most one round more than there are bytes.
unfoldable pub execute_hexdump : Environment → Namespace → Exec Debugger (Option Reply)
unfolding or_failed read_memory nat_part hexdump_heading dump_rows
execute_hexdump env args = or_failed (text "Reading memory failed: ") do
  result ← read_memory args.address args.size
  dump ← lift (dump_rows (suc (length result)) (nat_part args.address) 0 result)
  pure (some (message (hexdump_heading args.size args.address ++ dump)))
