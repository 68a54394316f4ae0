-- ===== src/Target/Layout.antt =====
-- What `TargetInfo.from_buffer` of host/target.py makes of any bytes: values that the fields of the structure can
-- hold.
use cwdbg.Base.{
  ℕ, zero, suc, ◌+◌, ◌≤◌, ◌<◌, ◌≡◌, refl, sym, ◌∙◌, subst, true, false, List, [], ◌∷◌, Bytes, arith,
  All, AllBytes, All-take, All-drop, ltb, Bool-cases, inl, inr, length, take, drop, ok, raise,
  value_error,
}
use cwdbg.Target.{
  Breakpoint, TaskContext, TargetInfo, byte_or_zero, byte_at, uint16_at, uint32_at, uint32s_at,
  sizeof_target_info, read_fields, from_buffer,
}

abbrev pub IsUint32 : ℕ → Type 0
IsUint32 n = n < 4294967296

-- A number of words of 32 bits.
abbrev pub IsUint32s : ℕ → List ℕ → Type 0
IsUint32s n ns = (length ns ≡ n) × All IsUint32 ns

abbrev pub IsTaskContext : TaskContext → Type 0
IsTaskContext context =
    IsUint32 context.reg_sp
    × IsUint32 context.exc_num
    × (context.reg_sr < 65536)
    × IsUint32 context.reg_pc
    × IsUint32s 8 context.reg_d
    × IsUint32s 7 context.reg_a

abbrev pub IsBreakpoint : Breakpoint → Type 0
IsBreakpoint bpoint =
    IsUint32 bpoint.num
    × IsUint32 bpoint.address
    × (bpoint.opcode < 65536)
    × IsUint32 bpoint.hit_count

abbrev pub IsTargetInfo : TargetInfo → Type 0
IsTargetInfo info =
    IsUint32 info.initial_pc
    × IsUint32 info.initial_sp
    × IsTaskContext info.task_context
    × IsUint32 info.target_state
    × IsUint32 info.exit_code
    × IsUint32 info.error_code
    × (length info.next_instr_bytes ≡ 64)
    × AllBytes info.next_instr_bytes
    × IsUint32s 8 info.top_stack_dwords
    × IsBreakpoint info.bpoint

byte_at_byte : (buffer : Bytes) (i : ℕ) → AllBytes buffer → byte_at buffer i < 256
unfolding byte_at byte_or_zero
byte_at_byte [] i all = omega arith
byte_at_byte (b ∷ buffer) zero (h, all) = h
byte_at_byte (b ∷ buffer) (suc i) (h, all) = byte_at_byte buffer i all

uint16_at_fits : (buffer : Bytes) (i : ℕ) → AllBytes buffer → uint16_at buffer i < 65536
unfolding uint16_at
uint16_at_fits buffer i all =
    omega (arith, byte_at_byte buffer i all, byte_at_byte buffer (i + 1) all)

uint32_at_fits : (buffer : Bytes) (i : ℕ) → AllBytes buffer → IsUint32 (uint32_at buffer i)
unfolding uint32_at
uint32_at_fits buffer i all = omega (
  arith,
  byte_at_byte buffer i all,
  byte_at_byte buffer (i + 1) all,
  byte_at_byte buffer (i + 2) all,
  byte_at_byte buffer (i + 3) all,
)

uint32s_at_fits :
    (n : ℕ) (buffer : Bytes) (i : ℕ) → AllBytes buffer → IsUint32s n (uint32s_at n buffer i)
unfolding uint32s_at
uint32s_at_fits zero buffer i all = (refl, tt)
uint32s_at_fits (suc n) buffer i all =
    let rest = uint32s_at_fits n buffer (i + 4) all in
    (omega (arith, rest.0), (uint32_at_fits buffer i all, rest.1))

length-slice : (n m : ℕ) (bytes : Bytes) → m + n ≤ length bytes → length (take n (drop m bytes)) ≡ n
length-slice zero m bytes h = refl
length-slice (suc n) zero [] h = absurd (omega arith)
length-slice (suc n) zero (b ∷ bytes) h = omega (arith, length-slice n 0 bytes (omega arith))
length-slice (suc n) (suc m) [] h = absurd (omega arith)
length-slice (suc n) (suc m) (b ∷ bytes) h = length-slice (suc n) m bytes (omega arith)

read_fields-IsTargetInfo :
    (buffer : Bytes)
    → AllBytes buffer
    → sizeof_target_info ≤ length buffer
    → IsTargetInfo (read_fields buffer)
unfolding read_fields
read_fields-IsTargetInfo buffer all long = (
  uint32_at_fits buffer 0 all,
  uint32_at_fits buffer 4 all,
  (
    uint32_at_fits buffer 8 all,
    uint32_at_fits buffer 12 all,
    uint16_at_fits buffer 16 all,
    uint32_at_fits buffer 18 all,
    uint32s_at_fits 8 buffer 22 all,
    uint32s_at_fits 7 buffer 54 all,
  ),
  uint32_at_fits buffer 82 all,
  uint32_at_fits buffer 86 all,
  uint32_at_fits buffer 90 all,
  length-slice 64 94 buffer (omega arith),
  All-take (λ b. b < 256) 64 (drop 94 buffer) (All-drop (λ b. b < 256) 94 buffer all),
  uint32s_at_fits 8 buffer 158 all,
  (
    uint32_at_fits buffer 190 all,
    uint32_at_fits buffer 194 all,
    uint16_at_fits buffer 198 all,
    uint32_at_fits buffer 200 all,
  ),
)

too_short :
    (buffer : Bytes)
    → ltb (length buffer) sizeof_target_info ≡ true
    → from_buffer buffer ≡ raise value_error
unfolding from_buffer
too_short buffer h = rw h refl

long_enough :
    (buffer : Bytes)
    → ltb (length buffer) sizeof_target_info ≡ false
    → from_buffer buffer ≡ ok (read_fields buffer)
unfolding from_buffer
long_enough buffer h = rw h refl

-- Whatever bytes the server sends, a target that is read from them has its eight data and seven address registers,
-- 64 bytes of instructions and eight words of the stack, and every number fits into its field.
pub from_buffer-IsTargetInfo :
    (buffer : Bytes) (info : TargetInfo)
    → AllBytes buffer
    → from_buffer buffer ≡ ok info
    → IsTargetInfo info
from_buffer-IsTargetInfo buffer info all h =
    elim (Bool-cases (ltb (length buffer) sizeof_target_info)) [
      | inl short ↦ absurd (cc (too_short buffer short))
      | inr long ↦
          let same : ok (read_fields buffer) ≡ ok info = sym (long_enough buffer long) ∙ h in
          subst IsTargetInfo {x = read_fields buffer} {y = info} (cc)
            (read_fields-IsTargetInfo buffer all (ground arith))
    ]
