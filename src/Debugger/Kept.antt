-- ===== src/Debugger/Kept.antt =====
-- Predicates of the object `dbg` that the methods of host/target.py and the server commands keep.
use Prim.Native.Nat.{bit_and}
use cwdbg.Base.{
  ℕ, zero, suc, length, take, drop, get_elem?, List, [], ◌∷◌, Bool, true, false, ◌==◌, refl, Option,
  none, some, Bytes, text, Outcome, ok, raise, no_return, Exec, pure, chain, required, type_error,
  struct_error, attribute_error, ◌>>=◌, Keeps, bind-Keeps, lift-Keeps, if-Keeps,
}
use cwdbg.Server.{ServerConnection}
use cwdbg.Server.Commands.{ServerCommand, Exchange, execute, srv_peek_mem}
use cwdbg.Server.Commands.New.{IsNew, AllNew, conn_after, srv_peek_mem-AllNew}
use cwdbg.Target.{TargetInfo, num_next_instructions}
use cwdbg.Target.States.{ts_running}
use cwdbg.Target.CallStack.{
  run_command, command_result, unpack_uint32, saved_words, walk, peek_frame, initial_frame,
  register_or_zero, get_call_stack,
}
use cwdbg.Target.Syscalls.{SyscallArg, SyscallInfo, get_syscall_info}
use cwdbg.Debugger.{
  Debugger, current_target, executed, run_server_command, on_server_conn, is_running, not_available,
}
use cwdbg.Debugger.Arguments.{
  string_at, register_value, contains, get_syscall_arg_values, max_msg_data_len,
}
use cwdbg.Debugger.Disassembly.{
  Instruction, Disassembler, arg_line, arg_lines, syscall_lines, disasm_lines, get_disasm_view,
  instr_addr,
}
use cwdbg.Debugger.Frames.{get_call_stack_view, frames_view, frame_lines, or_not_available}
use cwdbg.Stabs.Program.{ProgramWithDebugInfo}
use cwdbg.Debugger.Source.{get_source_view, from_program}

module _ (holds : Debugger → Type 0) where
  pub current_target-Keeps : Keeps holds current_target
  unfolding current_target
  current_target-Keeps = record { kept = λ dbg h. h }

  module _
      (exchanges : (command : ServerCommand)
        → IsNew command
        → Keeps holds
            (λ dbg. (ok tt, record dbg { server_conn = conn_after command dbg.server_conn }))) where
    executed-kept :
        (dbg : Debugger) (r : Outcome (Unit {0}) × Exchange)
        → holds (record dbg { server_conn = r.1.conn })
        → holds (executed dbg r).1
    unfolding executed
    executed-kept dbg (ok _, x) h = h
    executed-kept dbg (raise e, x) h = h
    executed-kept dbg (no_return, x) h = h

    pub run_server_command-Keeps :
        (r : Outcome ServerCommand) → AllNew r → Keeps holds (run_server_command r)
    unfolding run_server_command
    run_server_command-Keeps (ok command) new = record {
      kept = λ dbg h.
          executed-kept dbg (execute (record { command = command; conn = dbg.server_conn }))
            ((exchanges command (new command refl)).kept dbg h);
    }
    run_server_command-Keeps (raise e) new = record { kept = λ dbg h. h }
    run_server_command-Keeps no_return new = record { kept = λ dbg h. h }

    -- The predicate, of the connection alone.
    abbrev WithConn : Debugger → ServerConnection → Type 0
    WithConn dbg conn = holds (record dbg { server_conn = conn })

    on_server_conn-Keeps :
        {A : Type 0} (m : Exec ServerConnection A)
        → ((dbg : Debugger) → Keeps (WithConn dbg) m)
        → Keeps holds (on_server_conn m)
    on_server_conn-Keeps m parts = record { kept = λ dbg h. (parts dbg).kept dbg.server_conn h }

    command_result-kept :
        (dbg : Debugger) (r : Outcome (Unit {0}) × Exchange)
        → WithConn dbg r.1.conn
        → WithConn dbg (command_result r).1
    unfolding command_result
    command_result-kept dbg (ok _, x) h = h
    command_result-kept dbg (raise e, x) h = h
    command_result-kept dbg (no_return, x) h = h

    run_command-Keeps :
        (dbg : Debugger) (r : Outcome ServerCommand)
        → AllNew r
        → Keeps (WithConn dbg) (run_command r)
    unfolding run_command
    run_command-Keeps dbg (ok command) new = record {
      kept = λ conn h.
          command_result-kept dbg (execute (record { command = command; conn = conn }))
            ((exchanges command (new command refl)).kept (record dbg { server_conn = conn }) h);
    }
    run_command-Keeps dbg (raise e) new = record { kept = λ conn h. h }
    run_command-Keeps dbg no_return new = record { kept = λ conn h. h }

    unpack_uint32-Keeps :
        (dbg : Debugger) (bytes : Bytes) → Keeps (WithConn dbg) (unpack_uint32 bytes)
    unfolding unpack_uint32
    unpack_uint32-Keeps dbg (a ∷ b ∷ c ∷ d ∷ []) = lift-Keeps (WithConn dbg) (ok _)
    unpack_uint32-Keeps dbg _ = lift-Keeps (WithConn dbg) (raise struct_error)

    saved_words-Keeps :
        (dbg : Debugger) (result : Option Bytes) → Keeps (WithConn dbg) (saved_words result)
    unfolding saved_words
    saved_words-Keeps dbg none = lift-Keeps (WithConn dbg) (raise type_error)
    saved_words-Keeps dbg (some result) =
        bind-Keeps (WithConn dbg) (unpack_uint32-Keeps dbg (drop 4 result)) (λ return_addr.
          bind-Keeps (WithConn dbg) (unpack_uint32-Keeps dbg (take 4 result))
            (λ frame_ptr. lift-Keeps (WithConn dbg) (ok (return_addr, frame_ptr))))

    module _ (dbg : Debugger) where
      -- One frame, and the walk from the frame behind it on.
      frame-Keeps :
          (fuel frame_ptr program_counter : ℕ)
          → ((next return_addr : ℕ) → Keeps (WithConn dbg) (walk peek_frame fuel next return_addr))
          → (is_last : Bool)
          → Keeps (WithConn dbg) (elim is_last [
            | true ↦ pure []
            | false ↦ peek_frame frame_ptr >>= λ result. saved_words result >>= λ saved.
                walk peek_frame fuel saved.1 saved.0 >>= λ frames. pure (
                  record {
                    frame_ptr = frame_ptr;
                    program_counter = program_counter;
                    return_addr = saved.0;
                  }
                  ∷ frames)
          ])
      unfolding peek_frame
      frame-Keeps fuel frame_ptr program_counter rest true = lift-Keeps (WithConn dbg) (ok [])
      frame-Keeps fuel frame_ptr program_counter rest false =
          bind-Keeps (WithConn dbg)
            (run_command-Keeps dbg (srv_peek_mem frame_ptr 8) (srv_peek_mem-AllNew frame_ptr 8))
            (λ result. bind-Keeps (WithConn dbg) (saved_words-Keeps dbg result) (λ saved.
              bind-Keeps (WithConn dbg) (rest saved.1 saved.0)
                (λ frames. lift-Keeps (WithConn dbg) (ok _))))

      walk-Keeps :
          (fuel frame_ptr program_counter : ℕ)
          → Keeps (WithConn dbg) (walk peek_frame fuel frame_ptr program_counter)
      unfolding walk
      walk-Keeps zero frame_ptr program_counter = record { kept = λ conn h. h }
      walk-Keeps (suc fuel) frame_ptr program_counter =
          frame-Keeps fuel frame_ptr program_counter (walk-Keeps fuel) (frame_ptr == initial_frame)

    pub get_call_stack-Keeps :
        (fuel : ℕ) (info : TargetInfo) → Keeps holds (on_server_conn (get_call_stack fuel info))
    unfolding get_call_stack
    get_call_stack-Keeps fuel info = on_server_conn-Keeps (get_call_stack fuel info) (λ dbg.
        if-Keeps (WithConn dbg) (bit_and info.target_state ts_running == 0)
          (lift-Keeps (WithConn dbg) (ok []))
          (walk-Keeps dbg fuel (register_or_zero (get_elem? info.task_context.reg_a 5))
            info.task_context.reg_pc))

    string_at-Keeps : (address : ℕ) → Keeps holds (string_at address)
    unfolding string_at
    string_at-Keeps address =
        bind-Keeps holds
          (on_server_conn-Keeps (run_command (srv_peek_mem address max_msg_data_len)) (λ dbg.
            run_command-Keeps dbg (srv_peek_mem address max_msg_data_len)
              (srv_peek_mem-AllNew address max_msg_data_len)))
          (λ result.
            bind-Keeps holds (lift-Keeps holds (required attribute_error result))
              (λ bytes. lift-Keeps holds (ok _)))

    get_syscall_arg_values-Keeps :
        (info : TargetInfo) (arg : SyscallArg) → Keeps holds (get_syscall_arg_values info arg)
    unfolding get_syscall_arg_values
    get_syscall_arg_values-Keeps info arg =
        bind-Keeps holds (lift-Keeps holds (required type_error arg.register)) (λ r.
          bind-Keeps holds (lift-Keeps holds (register_value info r)) (λ arg_int.
            if-Keeps holds (contains (text "STRPTR") arg.decl)
              (bind-Keeps holds (string_at-Keeps arg_int)
                (λ s. lift-Keeps holds (ok (arg_int, some s))))
              (lift-Keeps holds (ok (arg_int, none)))))

    arg_lines-Keeps :
        (indent : ℕ) (info : TargetInfo) (args : List SyscallArg)
        → Keeps holds (arg_lines indent info args)
    unfolding arg_lines arg_line
    arg_lines-Keeps indent info [] = lift-Keeps holds (ok [])
    arg_lines-Keeps indent info (arg ∷ args) =
        bind-Keeps holds
          (bind-Keeps holds (get_syscall_arg_values-Keeps info arg)
            (λ values. lift-Keeps holds (ok _)))
          (λ line.
            bind-Keeps holds (arg_lines-Keeps indent info args)
              (λ lines. lift-Keeps holds (ok (line ∷ lines))))

    syscall_lines-Keeps :
        (indent : ℕ) (info : TargetInfo) (syscall : Option SyscallInfo)
        → Keeps holds (syscall_lines indent info syscall)
    unfolding syscall_lines
    syscall_lines-Keeps indent info none = lift-Keeps holds (ok [])
    syscall_lines-Keeps indent info (some syscall) =
        bind-Keeps holds (arg_lines-Keeps indent info syscall.args)
          (λ lines. lift-Keeps holds (ok _))

    disasm_lines-Keeps :
        (info : TargetInfo) (instrs : List Instruction) → Keeps holds (disasm_lines info instrs)
    unfolding disasm_lines
    disasm_lines-Keeps info [] = lift-Keeps holds (ok not_available)
    disasm_lines-Keeps info (instr ∷ instrs) = record {
      kept = λ dbg h.
          (bind-Keeps holds
              (lift-Keeps holds (get_syscall_info dbg.syscall_db dbg.lib_base_addresses info))
              (λ syscall.
                bind-Keeps holds (syscall_lines-Keeps (length (instr_addr info instr)) info syscall)
                  (λ lines. lift-Keeps holds (ok _)))).kept
            dbg h;
    }

    pub get_disasm_view-Keeps :
        (disasm : Disassembler) (info : TargetInfo) → Keeps holds (get_disasm_view disasm info)
    unfolding get_disasm_view
    get_disasm_view-Keeps disasm info =
        if-Keeps holds (is_running info)
          (disasm_lines-Keeps info
            (disasm info.next_instr_bytes info.task_context.reg_pc num_next_instructions))
          (lift-Keeps holds (ok not_available))

    pub get_call_stack_view-Keeps : (fuel : ℕ) → Keeps holds (get_call_stack_view fuel)
    unfolding get_call_stack_view frames_view
    get_call_stack_view-Keeps fuel = bind-Keeps holds current_target-Keeps (λ info. record {
      kept = λ dbg h. (frames_view-Keeps info dbg.program (is_running info)).kept dbg h;
    })
      where
        frames_view-Keeps :
            (info : TargetInfo) (program : Option ProgramWithDebugInfo) (runs : Bool)
            → Keeps holds (frames_view fuel info program runs)
        frames_view-Keeps info program true =
            bind-Keeps holds (get_call_stack-Keeps fuel info) (λ frames. lift-Keeps holds (
              chain (frame_lines program info.initial_pc 0 frames)
                λ lines. ok (or_not_available lines)))
        frames_view-Keeps info program false = lift-Keeps holds (ok not_available)

  pub get_source_view-Keeps :
      (is_darwin : Bool) (read_lines : Bytes → Option (List Bytes)) (info : TargetInfo)
      → Keeps holds (get_source_view is_darwin read_lines info)
  unfolding get_source_view
  get_source_view-Keeps is_darwin read_lines info = record {
    kept = λ dbg h.
        (if-Keeps holds (is_running info)
            (lift-Keeps holds (from_program is_darwin read_lines dbg.program info))
            (lift-Keeps holds (ok not_available))).kept
          dbg h;
  }
