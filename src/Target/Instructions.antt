-- ===== src/Target/Instructions.antt =====
-- The tests of host/target.py on the next instruction of the target, and the offset of a system call.
use Prim.Native.Nat.{bit_and}
use cwdbg.Base.{
  ℕ, ◌-◌, ◌^◌, ◌≤◌, ◌<◌, ◌≡◌, Bool, [], ◌∷◌, Bytes, arith, ◌==◌, ltb, if◌then◌else◌, take, drop,
  ◌++◌, be16, word16, word16-be16, nat_key, text_key, Outcome, ok, raise, no_return, struct_error,
}
use cwdbg.Target.{TargetInfo}

-- `struct.unpack('>H', …)` on two bytes.
unfoldable pub unpack_uint16 : Bytes → Outcome ℕ
unpack_uint16 (a ∷ b ∷ []) = ok (word16 a b)
unpack_uint16 _ = raise struct_error

test_word : Outcome ℕ → (ℕ → Bool) → Outcome Bool
test_word (ok w) test = ok (test w)
test_word (raise e) test = raise e
test_word no_return test = no_return

unfoldable pub next_instr_is_jsr : TargetInfo → Outcome Bool
unfolding test_word unpack_uint16
next_instr_is_jsr info =
    test_word (unpack_uint16 (take 2 info.next_instr_bytes)) λ w. bit_and w 0xffc0 == 0x4e80

unfoldable pub next_instr_is_rts : TargetInfo → Outcome Bool
unfolding test_word unpack_uint16
next_instr_is_rts info = test_word (unpack_uint16 (take 2 info.next_instr_bytes)) λ w. w == 0x4e75

-- JSR with the effective address A6 + offset.
unfoldable pub next_instr_is_syscall : TargetInfo → Outcome Bool
unfolding test_word unpack_uint16
next_instr_is_syscall info =
    test_word (unpack_uint16 (take 2 info.next_instr_bytes)) λ w. bit_and w 0xffff == 0x4eae

-- `abs` of the two bytes as a signed number.
unfoldable pub magnitude : ℕ → ℕ
magnitude w = if ltb w (2 ^ 15) then w else 2 ^ 16 - w

offset_word : Outcome ℕ → Outcome ℕ
unfolding magnitude
offset_word (ok w) = ok (magnitude w)
offset_word (raise e) = raise e
offset_word no_return = no_return

unfoldable pub get_syscall_offset : TargetInfo → Outcome ℕ
unfolding unpack_uint16 offset_word
get_syscall_offset info = offset_word (unpack_uint16 (take 2 (drop 2 info.next_instr_bytes)))

-- A JSR whose 16-bit displacement is the negative number -n, as in all calls of library functions, gives the
-- offset n, up to the greatest that a displacement can hold.
pub get_syscall_offset-negative :
    (info : TargetInfo) (n hi lo : ℕ) (rest : Bytes)
    → 0 < n
    → n ≤ 32768
    → info.next_instr_bytes ≡ hi ∷ lo ∷ (be16 (65536 - n) ++ rest)
    → get_syscall_offset info ≡ ok n
unfolding get_syscall_offset unpack_uint16 offset_word magnitude
get_syscall_offset-negative info n hi lo rest h h' e =
    rw (e, word16-be16 (65536 - n) (omega arith)) (ground arith)
