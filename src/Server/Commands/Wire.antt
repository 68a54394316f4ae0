-- ===== src/Server/Commands/Wire.antt =====
-- The arguments of the commands of host/server.py as the server takes them out of the data.
use cwdbg.Base.{
  ℕ, ◌^◌, ◌<◌, ◌≡◌, Bool, [], ◌∷◌, ◌++◌, Option, none, some, Bytes, arith, if◌then◌else◌, be32,
  word16, word32, ok,
}
use cwdbg.Server.{payload, msg_peek_mem, msg_set_bpoint}
use cwdbg.Server.Commands.{ServerCommand, srv_peek_mem, srv_set_breakpoint, base_address_result}

-- A 32-bit and a 16-bit word.
abbrev pub unpack_long_word : Bytes → Option (ℕ × ℕ)
unpack_long_word (a ∷ b ∷ c ∷ d ∷ e ∷ f ∷ []) = some (word32 a b c d, word16 e f)
unpack_long_word _ = none

-- A command that could be built for reading memory carries the address and the number of bytes that
-- it was given.
pub srv_peek_mem-unpack :
    (address nbytes : ℕ) (command : ServerCommand)
    → srv_peek_mem address nbytes ≡ ok command
    → (command.msg_type ≡ msg_peek_mem)
      × (unpack_long_word (payload command.bytes) ≡ some (address, nbytes))
unfolding srv_peek_mem payload
srv_peek_mem-unpack address nbytes command h = (ground arith, ground arith)

-- A command that could be built for a breakpoint carries the offset and, as 1 or 0, whether it is for one shot.
pub srv_set_breakpoint-unpack :
    (offset : ℕ) (is_one_shot : Bool) (command : ServerCommand)
    → srv_set_breakpoint offset is_one_shot ≡ ok command
    → (command.msg_type ≡ msg_set_bpoint)
      × (unpack_long_word (payload command.bytes) ≡ some (offset, if is_one_shot then 1 else 0))
unfolding srv_set_breakpoint payload
srv_set_breakpoint-unpack offset is_one_shot command h = (ground arith, ground arith)

-- The address that the server answers is the result, whatever follows it in the reply.
pub base_address_result-be32 :
    (n : ℕ) (rest : Bytes) → n < 2 ^ 32 → base_address_result (some (be32 n ++ rest)) ≡ ok n
unfolding base_address_result
base_address_result-be32 n rest h = ground arith
