-- ===== src/Target/CallStack.antt =====
-- `get_call_stack` of host/target.py: the walk along the saved frame pointers of the stopped target.
use Prim.Native.Nat.{bit_and}
use cwdbg.Base.{
  ℕ, zero, suc, ◌^◌, ◌<◌, ◌≡◌, refl, true, false, List, [], ◌∷◌, ◌++◌, Option, none, some, Bytes,
  arith, ◌==◌, if◌then◌else◌, length, take, drop, get_elem?, be32, word32, word32-be32, Outcome, ok,
  raise, no_return, Exn, Exec, pure, throw, ◌>>=◌, struct_error, type_error, runtime_error,
  server_command_error,
}
use cwdbg.Server.{ServerConnection}
use cwdbg.Server.Commands.{ServerCommand, Exchange, execute, srv_peek_mem}
use cwdbg.Target.{TargetInfo}
use cwdbg.Target.States.{ts_running}

pub record StackFrame : Type 0 where
  pub frame_ptr : ℕ
  pub program_counter : ℕ
  pub return_addr : ℕ

-- `except ServerCommandError as e: raise RuntimeError`
unfoldable pub command_failure : Exn → Exn
command_failure server_command_error = runtime_error
command_failure e = e

-- The `result` of a command, which is None if nothing was received.
unfoldable pub command_result :
    Outcome (Unit {0}) × Exchange → Outcome (Option Bytes) × ServerConnection
unfolding command_failure
command_result (ok _, x) = (ok x.command.bytes, x.conn)
command_result (raise e, x) = (raise (command_failure e), x.conn)
command_result (no_return, x) = (no_return, x.conn)

unfoldable pub run_command : Outcome ServerCommand → Exec ServerConnection (Option Bytes)
unfolding command_result execute
run_command (ok command) conn = command_result (execute (record { command = command; conn = conn }))
run_command (raise e) conn = (raise (command_failure e), conn)
run_command no_return conn = (no_return, conn)

-- `SrvPeekMem(address=frame_ptr, nbytes=8).execute(dbg.server_conn)`
unfoldable pub peek_frame : ℕ → Exec ServerConnection (Option Bytes)
unfolding run_command srv_peek_mem
peek_frame frame_ptr = run_command (srv_peek_mem frame_ptr 8)

-- `struct.unpack('>I', …)`, which takes exactly four bytes.
unfoldable pub unpack_uint32 : {S : Type 0} → Bytes → Exec S ℕ
unpack_uint32 (a ∷ b ∷ c ∷ d ∷ []) = pure (word32 a b c d)
unpack_uint32 _ = throw struct_error

-- The two words behind a frame pointer: the return address, which is unpacked first, and the frame pointer
-- that was saved.
unfoldable pub saved_words : {S : Type 0} → Option Bytes → Exec S (ℕ × ℕ)
unfolding unpack_uint32
saved_words none = throw type_error
saved_words (some result) = do
  return_addr ← unpack_uint32 (drop 4 result)
  frame_ptr ← unpack_uint32 (take 4 result)
  pure (return_addr, frame_ptr)

abbrev pub initial_frame : ℕ
initial_frame = 0xffffffff

-- The loop, one unit of fuel for each frame. `peek` reads the eight bytes at an address.
unfoldable pub walk :
    {S : Type 0} → (ℕ → Exec S (Option Bytes)) → ℕ → ℕ → ℕ → Exec S (List StackFrame)
unfolding saved_words
walk peek zero frame_ptr program_counter = λ s. (no_return, s)
walk peek (suc fuel) frame_ptr program_counter = elim (frame_ptr == initial_frame) [
  | true ↦ pure []
  | false ↦ peek frame_ptr >>= λ result. saved_words result >>= λ saved.
      walk peek fuel saved.1 saved.0 >>= λ frames. pure (
        record { frame_ptr = frame_ptr; program_counter = program_counter; return_addr = saved.0 }
        ∷ frames)
]

unfoldable pub register_or_zero : Option ℕ → ℕ
register_or_zero none = 0
register_or_zero (some n) = n

-- `A5` is the frame pointer.
unfoldable pub get_call_stack : ℕ → TargetInfo → Exec ServerConnection (List StackFrame)
unfolding register_or_zero walk peek_frame
get_call_stack fuel info =
    if bit_and info.target_state ts_running == 0
    then pure []
    else walk peek_frame fuel (register_or_zero (get_elem? info.task_context.reg_a 5))
        info.task_context.reg_pc

module _ {S : Type 0} (peek : ℕ → Exec S (Option Bytes)) where
  -- A chain of frames in the memory that `peek` reads, with the states before and behind it.
  pub data Chain : ℕ → ℕ → S → List StackFrame → S → Type 0 where
    base : {program_counter : ℕ} {s : S} → Chain initial_frame program_counter s [] s
    frame :
        {frame_ptr program_counter next return_addr : ℕ} {s s' s'' : S} {frames : List StackFrame}
        → frame_ptr == initial_frame ≡ false
        → next < 2 ^ 32
        → return_addr < 2 ^ 32
        → peek frame_ptr s ≡ (ok (some (be32 next ++ be32 return_addr)), s')
        → Chain next return_addr s' frames s''
        → Chain frame_ptr program_counter s
            (record {
              frame_ptr = frame_ptr;
              program_counter = program_counter;
              return_addr = return_addr;
            }
              ∷ frames)
            s''

  -- The walk along a chain of frames that ends in the initial frame returns them all, in the order from the
  -- innermost one on, if there is fuel for one round more than there are frames.
  pub walk-Chain :
      (fuel frame_ptr program_counter : ℕ) (s : S) (frames : List StackFrame) (s' : S)
      → Chain frame_ptr program_counter s frames s'
      → length frames < fuel
      → walk peek fuel frame_ptr program_counter s ≡ (ok frames, s')
  unfolding walk
  walk-Chain zero _ pc s frames s' c h = absurd (omega arith)
  walk-Chain (suc fuel) _ pc s _ _ base h = refl
  walk-Chain (suc fuel) fp pc s _ s''
        (frame {next = next} {return_addr = return_addr} {s' = s'} {frames = frames} n f f' p c) h =
      rw (n, walk)
        (rw p (
          rw (word32-be32 next f, word32-be32 return_addr f')
            (rw (walk-Chain fuel next return_addr s' frames s'' c (omega arith)) refl)))
