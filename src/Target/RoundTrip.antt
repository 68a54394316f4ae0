-- ===== src/Target/RoundTrip.antt =====
-- The bytes of the structure `TargetInfo` of host/target.py, field by field, and what `from_buffer` makes of them.
use cwdbg.Base.{
  ℕ, zero, suc, ◌+◌, ◌*◌, ◌-◌, ◌<◌, ◌≤◌, ◌≡◌, refl, ap, sym, ◌∙◌, false, List, [], ◌∷◌, ◌++◌, Bytes,
  arith, length, take, drop, drop-append, take-append, be16, be32, word16, word32, word16-be16,
  word32-be32, ltb, ok,
}
use cwdbg.Target.{
  TaskContext, TargetInfo, byte_or_zero, byte_at, uint16_at, uint32_at, uint32s_at, read_fields,
  from_buffer,
}
use cwdbg.Target.Layout.{IsTargetInfo, IsUint32, IsUint32s}

-- Words of 32 bits, in front of other bytes.
abbrev pub words : List ℕ → Bytes → Bytes
words [] rest = rest
words (n ∷ ns) rest = be32 n ++ words ns rest

-- The structure as the server lays it out: the fields in their order, big-endian and without gaps.
abbrev pub stack_bytes : TargetInfo → Bytes → Bytes
stack_bytes info rest = words info.top_stack_dwords (
    be32 info.bpoint.num
    ++ (be32 info.bpoint.address
        ++ (be16 info.bpoint.opcode ++ (be32 info.bpoint.hit_count ++ rest))))

abbrev pub state_bytes : TargetInfo → Bytes → Bytes
state_bytes info rest =
    be32 info.target_state
    ++ (be32 info.exit_code
        ++ (be32 info.error_code ++ (info.next_instr_bytes ++ stack_bytes info rest)))

abbrev pub target_info_bytes : TargetInfo → Bytes → Bytes
target_info_bytes info rest =
    let context = info.task_context in
    be32 info.initial_pc
    ++ (be32 info.initial_sp
        ++ (be32 context.reg_sp
            ++ (be32 context.exc_num
                ++ (be16 context.reg_sr
                    ++ (be32 context.reg_pc
                        ++ words context.reg_d (words context.reg_a (state_bytes info rest)))))))

-- The bytes from an offset on.
drop_none : (k : ℕ) → ◌≡◌ {A = Bytes} [] (drop k [])
drop_none zero = refl
drop_none (suc k) = refl

drop-drop : (i k : ℕ) (xs : Bytes) → drop (i + k) xs ≡ drop k (drop i xs)
drop-drop zero k xs = ap (λ n. drop n xs) (omega arith)
drop-drop (suc i) k [] = ap (λ n. drop n []) {y = suc (i + k)} (omega arith) ∙ drop_none k
drop-drop (suc i) k (x ∷ xs) =
    ap (λ n. drop n (x ∷ xs)) {y = suc (i + k)} (omega arith) ∙ drop-drop i k xs

length-drop : (k : ℕ) (xs : Bytes) → length (drop k xs) ≡ length xs - k
length-drop zero xs = omega arith
length-drop (suc k) [] = omega arith
length-drop (suc k) (x ∷ xs) = omega (arith, length-drop k xs)

drop-words :
    (k : ℕ) (ns : List ℕ) (rest : Bytes) → k ≡ 4 * length ns → drop k (words ns rest) ≡ rest
drop-words k [] rest h = ap (λ k. drop k rest) h
drop-words k (n ∷ ns) rest h =
    ap (λ k. drop k (words (n ∷ ns) rest)) {y = 4 + (k - 4)} (omega arith)
    ∙ drop-drop 4 (k - 4) (words (n ∷ ns) rest)
    ∙ drop-words (k - 4) ns rest (omega arith)

byte_at-drop : (k i : ℕ) (buffer : Bytes) → byte_at buffer (k + i) ≡ byte_at (drop k buffer) i
unfolding byte_at byte_or_zero
byte_at-drop zero i buffer = ap (byte_at buffer) (omega arith)
byte_at-drop (suc k) i [] = refl
byte_at-drop (suc k) i (b ∷ buffer) =
    ap (byte_at (b ∷ buffer)) {y = suc (k + i)} (omega arith) ∙ byte_at-drop k i buffer

byte_there :
    (i j k : ℕ) (buffer ys : Bytes)
    → k ≡ i + j
    → drop i buffer ≡ ys
    → byte_at buffer k ≡ byte_at ys j
byte_there i j k buffer ys h e =
    ap (byte_at buffer) h ∙ byte_at-drop i j buffer ∙ ap (λ ys. byte_at ys j) e

module _ (buffer : Bytes) where
  uint16_there :
      (i n : ℕ) (rest : Bytes) → n < 65536 → drop i buffer ≡ be16 n ++ rest → uint16_at buffer i ≡ n
  unfolding uint16_at byte_at byte_or_zero
  uint16_there i n rest fits e =
      (λ t.
        word16 (byte_there i 0 i buffer (be16 n ++ rest) (omega arith) e t)
          (byte_there i 1 (i + 1) buffer (be16 n ++ rest) refl e t))
      ∙ word16-be16 n fits

  uint32_there :
      (i n : ℕ) (rest : Bytes)
      → IsUint32 n
      → drop i buffer ≡ be32 n ++ rest
      → uint32_at buffer i ≡ n
  unfolding uint32_at byte_at byte_or_zero
  uint32_there i n rest fits e =
      (λ t.
        word32 (byte_there i 0 i buffer (be32 n ++ rest) (omega arith) e t)
          (byte_there i 1 (i + 1) buffer (be32 n ++ rest) refl e t)
          (byte_there i 2 (i + 2) buffer (be32 n ++ rest) refl e t)
          (byte_there i 3 (i + 3) buffer (be32 n ++ rest) refl e t))
      ∙ word32-be32 n fits

  behind :
      (i k j : ℕ) (xs ys : Bytes)
      → j ≡ i + k
      → drop i buffer ≡ xs
      → drop k xs ≡ ys
      → drop j buffer ≡ ys
  behind i k j xs ys h e e' = ap (λ n. drop n buffer) h ∙ drop-drop i k buffer ∙ ap (drop k) e ∙ e'

  uint32s_there :
      (i n : ℕ) (ns : List ℕ) (rest : Bytes)
      → IsUint32s n ns
      → drop i buffer ≡ words ns rest
      → uint32s_at n buffer i ≡ ns
  unfolding uint32s_at
  uint32s_there i zero [] rest (size, fits) e = refl
  uint32s_there i zero (m ∷ ns) rest (size, fits) e = absurd (omega arith)
  uint32s_there i (suc n) [] rest (size, fits) e = absurd (omega arith)
  uint32s_there i (suc n) (m ∷ ns) rest (size, (fit, fits)) e = λ t.
      uint32_there i m (words ns rest) fit e t
      ∷ uint32s_there (i + 4) n ns rest (omega arith, fits)
          (behind i 4 (i + 4) (words (m ∷ ns) rest) (words ns rest) refl e refl) t

ltb-false : (a b : ℕ) → b ≤ a → ltb a b ≡ false
ltb-false a b h = ground arith

module _ (info : TargetInfo) (rest : Bytes) (fits : IsTargetInfo info) where
  abbrev buffer : Bytes
  buffer = target_info_bytes info rest

  abbrev context : TaskContext
  context = info.task_context

  -- Where the arrays and what follows them begin.
  at_reg_a : drop 54 buffer ≡ words context.reg_a (state_bytes info rest)
  at_reg_a =
      behind buffer 22 32 54 (words context.reg_d (words context.reg_a (state_bytes info rest))) _
        refl refl (drop-words 32 context.reg_d _ (omega (arith, fits.2.4.0)))

  at_state : drop 82 buffer ≡ state_bytes info rest
  at_state =
      behind buffer 54 28 82 _ _ refl at_reg_a
        (drop-words 28 context.reg_a _ (omega (arith, fits.2.5.0)))

  at_instr : drop 94 buffer ≡ info.next_instr_bytes ++ stack_bytes info rest
  at_instr = behind buffer 82 12 94 (state_bytes info rest) _ refl at_state refl

  at_stack : drop 158 buffer ≡ stack_bytes info rest
  at_stack = behind buffer 94 64 158 _ _ refl at_instr (
      ap (λ n. drop n (info.next_instr_bytes ++ stack_bytes info rest)) (sym fits.6)
      ∙ drop-append info.next_instr_bytes (stack_bytes info rest))

  at_bpoint :
      drop 190 buffer
      ≡ be32 info.bpoint.num
        ++ (be32 info.bpoint.address
            ++ (be16 info.bpoint.opcode ++ (be32 info.bpoint.hit_count ++ rest)))
  at_bpoint =
      behind buffer 158 32 190 (stack_bytes info rest) _ refl at_stack
        (drop-words 32 info.top_stack_dwords _ (omega (arith, fits.8.0)))

  read_fields-bytes : read_fields buffer ≡ info
  unfolding read_fields
  read_fields-bytes = λ t. record {
    initial_pc = uint32_there buffer 0 info.initial_pc _ fits.0 refl t;
    initial_sp = uint32_there buffer 4 info.initial_sp _ fits.1 refl t;
    task_context = record {
      reg_sp = uint32_there buffer 8 context.reg_sp _ fits.2.0 refl t;
      exc_num = uint32_there buffer 12 context.exc_num _ fits.2.1 refl t;
      reg_sr = uint16_there buffer 16 context.reg_sr _ fits.2.2 refl t;
      reg_pc = uint32_there buffer 18 context.reg_pc _ fits.2.3 refl t;
      reg_d = uint32s_there buffer 22 8 context.reg_d _ fits.2.4 refl t;
      reg_a = uint32s_there buffer 54 7 context.reg_a _ fits.2.5 at_reg_a t;
    };
    target_state = uint32_there buffer 82 info.target_state _ fits.3 at_state t;
    exit_code =
        uint32_there buffer 86 info.exit_code _ fits.4
          (behind buffer 82 4 86 (state_bytes info rest) _ refl at_state refl) t;
    error_code =
        uint32_there buffer 90 info.error_code _ fits.5
          (behind buffer 82 8 90 (state_bytes info rest) _ refl at_state refl) t;
    next_instr_bytes =
        (ap (take 64) at_instr
            ∙ ap (λ n. take n (info.next_instr_bytes ++ stack_bytes info rest)) (sym fits.6)
            ∙ take-append info.next_instr_bytes (stack_bytes info rest))
          t;
    top_stack_dwords = uint32s_there buffer 158 8 info.top_stack_dwords _ fits.8 at_stack t;
    bpoint = record {
      num = uint32_there buffer 190 info.bpoint.num _ fits.9.0 at_bpoint t;
      address =
          uint32_there buffer 194 info.bpoint.address _ fits.9.1
            (behind buffer 190 4 194 _ _ refl at_bpoint refl) t;
      opcode =
          uint16_there buffer 198 info.bpoint.opcode _ fits.9.2
            (behind buffer 190 8 198 _ _ refl at_bpoint refl) t;
      hit_count =
          uint32_there buffer 200 info.bpoint.hit_count _ fits.9.3
            (behind buffer 190 10 200 _ _ refl at_bpoint refl) t;
    };
  }

  length-buffer : 204 ≤ length buffer
  length-buffer = omega (arith, length-drop 190 buffer, ap length at_bpoint)

  -- The fields of a target one behind the other, big-endian and without gaps (the initial PC and SP; SP, number of the
  -- exception, SR, PC, D0 to D7 and A0 to A6 of the task; state, exit code, error code, 64 bytes of instructions, eight
  -- words of the stack; number, address, opcode and hits of the breakpoint), where SR and the opcode have 16 bits and the
  -- other numbers 32, are read as that target, whatever follows.
  pub from_buffer-bytes : from_buffer (target_info_bytes info rest) ≡ ok info
  unfolding from_buffer
  from_buffer-bytes = rw (ltb-false (length buffer) 204 length-buffer) (ap ok read_fields-bytes)
