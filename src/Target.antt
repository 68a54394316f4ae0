-- ===== src/Target.antt =====
-- What the debugger knows of the stopped target: the structures of host/target.py, in the layout in
-- which the server sends them.
pub mod States
pub mod Layout
pub mod RoundTrip
pub mod Instructions
pub mod Syscalls
pub mod SourceView
pub mod CallStack
use cwdbg.Base.{
  ℕ, zero, suc, ◌+◌, ◌*◌, List, [], ◌∷◌, Option, none, some, Bytes, ltb, if◌then◌else◌, length,
  take, drop, get_elem?, word16, word32, Outcome, ok, raise, value_error,
}

pub record Breakpoint : Type 0 where
  pub num : ℕ
  pub address : ℕ
  pub opcode : ℕ
  pub hit_count : ℕ

pub record TaskContext : Type 0 where
  pub reg_sp : ℕ
  pub exc_num : ℕ
  pub reg_sr : ℕ
  pub reg_pc : ℕ
  pub reg_d : List ℕ
  pub reg_a : List ℕ

pub record TargetInfo : Type 0 where
  pub initial_pc : ℕ
  pub initial_sp : ℕ
  pub task_context : TaskContext
  pub target_state : ℕ
  pub exit_code : ℕ
  pub error_code : ℕ
  pub next_instr_bytes : Bytes
  pub top_stack_dwords : List ℕ
  pub bpoint : Breakpoint

abbrev pub num_next_instructions : ℕ
num_next_instructions = 8

abbrev pub max_instr_bytes : ℕ
max_instr_bytes = 8

abbrev pub num_top_stack_dwords : ℕ
num_top_stack_dwords = 8

byte_or_zero : Option ℕ → ℕ
byte_or_zero none = 0
byte_or_zero (some b) = b

byte_at : Bytes → ℕ → ℕ
unfolding byte_or_zero
byte_at buffer i = byte_or_zero (get_elem? buffer i)

uint16_at : Bytes → ℕ → ℕ
unfolding byte_at
uint16_at buffer i = word16 (byte_at buffer i) (byte_at buffer (i + 1))

uint32_at : Bytes → ℕ → ℕ
unfolding byte_at
uint32_at buffer i =
    word32 (byte_at buffer i) (byte_at buffer (i + 1)) (byte_at buffer (i + 2))
      (byte_at buffer (i + 3))

-- An array of 32-bit words from position `i` on.
uint32s_at : ℕ → Bytes → ℕ → List ℕ
unfolding uint32_at
uint32s_at zero buffer i = []
uint32s_at (suc n) buffer i = uint32_at buffer i ∷ uint32s_at n buffer (i + 4)

-- The structures have a packing of 2, so no field is padded.
abbrev pub sizeof_target_info : ℕ
sizeof_target_info = 204

-- The fields, one after the other.
unfoldable pub read_fields : Bytes → TargetInfo
unfolding uint16_at uint32_at uint32s_at
read_fields buffer = record {
  initial_pc = uint32_at buffer 0;
  initial_sp = uint32_at buffer 4;
  task_context = record {
    reg_sp = uint32_at buffer 8;
    exc_num = uint32_at buffer 12;
    reg_sr = uint16_at buffer 16;
    reg_pc = uint32_at buffer 18;
    reg_d = uint32s_at 8 buffer 22;
    reg_a = uint32s_at 7 buffer 54;
  };
  target_state = uint32_at buffer 82;
  exit_code = uint32_at buffer 86;
  error_code = uint32_at buffer 90;
  next_instr_bytes = take (num_next_instructions * max_instr_bytes) (drop 94 buffer);
  top_stack_dwords = uint32s_at num_top_stack_dwords buffer 158;
  bpoint = record {
    num = uint32_at buffer 190;
    address = uint32_at buffer 194;
    opcode = uint16_at buffer 198;
    hit_count = uint32_at buffer 200;
  };
}

-- `TargetInfo.from_buffer`: ctypes refuses a buffer that is too short, and ignores what follows.
unfoldable pub from_buffer : Bytes → Outcome TargetInfo
unfolding read_fields
from_buffer buffer =
    if ltb (length buffer) sizeof_target_info then raise value_error else ok (read_fields buffer)
