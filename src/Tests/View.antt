-- ===== src/Tests/View.antt =====
-- The stopped target, host/target.py.
use cwdbg.Base.{
  ℕ, ◌≤◌, ◌-◌, suc, ◌≡◌, refl, List, [], ◌∷◌, ◌++◌, Option, some, Bytes, arith, be32, length,
  get_elem?, ok, Exec,
}
use cwdbg.Target.{TargetInfo}
use cwdbg.Target.Syscalls.{SyscallInfo}
use cwdbg.Base.{Dict, nat_key, text_key}
use cwdbg.Target.SourceView.{source_view, marked, start_lineno, source_view-current}
use cwdbg.Target.CallStack.{StackFrame, walk, Chain, base, frame, walk-Chain}

-- A memory with one frame at the address 16, and the initial frame behind it; the state is not used.
abbrev peek : ℕ → Exec ℕ (Option Bytes)
peek addr s = (ok (some (be32 0xffffffff ++ be32 0x1000)), s)

abbrev frames : List StackFrame
frames = record { frame_ptr = 16; program_counter = 0x2000; return_addr = 0x1000 } ∷ []

frames-Chain : Chain peek 16 0x2000 0 frames 0
frames-Chain = frame refl (omega arith) (omega arith) refl base

walk-Chain_example : walk peek 2 16 0x2000 0 ≡ (ok frames, 0)
walk-Chain_example = walk-Chain peek 2 16 0x2000 0 frames 0 frames-Chain (omega arith)

abbrev text : List Bytes
text = (b'a' ∷ []) ∷ (b'b' ∷ []) ∷ (b'c' ∷ []) ∷ []

source_view-current_example :
    (view : List Bytes) × (source_view (b'f' ∷ []) text 2 ≡ ok view)
    × (get_elem? view (suc (2 - start_lineno 2)) ≡ some (marked (b'b' ∷ [])))
    × (length view ≤ 11)
source_view-current_example =
    source_view-current (b'f' ∷ []) text 2 (b'b' ∷ []) (omega arith) (omega arith) refl

abbrev at_syscall : TargetInfo
at_syscall = record {
  initial_pc = 0;
  initial_sp = 0;
  task_context = record { reg_sp = 0; exc_num = 0; reg_sr = 0; reg_pc = 0; reg_d = []; reg_a = [] };
  target_state = 1;
  exit_code = 0;
  error_code = 0;
  next_instr_bytes = 0x4e ∷ 0xae ∷ 0xfd ∷ 0xd8 ∷ [];
  top_stack_dwords = [];
  bpoint = record { num = 0; address = 0; opcode = 0; hit_count = 0 };
}

abbrev exec_call : TargetInfo
exec_call = record at_syscall {
  task_context = record {
    reg_sp = 0;
    exc_num = 0;
    reg_sr = 0;
    reg_pc = 0;
    reg_d = [];
    reg_a = 0 ∷ 0 ∷ 0 ∷ 0 ∷ 0 ∷ 0 ∷ 0x676 ∷ [];
  };
}

abbrev functions : Dict ℕ SyscallInfo
functions = (552, record { name = b'O' ∷ []; args = []; ret_type = b'B' ∷ [] }) ∷ []
