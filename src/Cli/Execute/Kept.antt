-- ===== src/Cli/Execute/Kept.antt =====
-- What the commands of host/cli.py that only look at the target leave alone in the object `dbg`.
use cwdbg.Base.{
  ℕ, Keeps, bind-Keeps, lift-Keeps, except-Keeps, if-Keeps, suc, false, [], ◌∷◌, Option, none, some,
  Bytes, text, concat, str, eq_text, length, times, ℤ, pos, value_error, Outcome, ok, raise,
  no_return, Exec, pure, ◌>>=◌, required, type_error,
}
use cwdbg.Stabs.Program.{ProgramWithDebugInfo, get_addr_range_for_lineno}
use cwdbg.Server.Commands.{ServerCommand}
use cwdbg.Server.Commands.New.{IsNew, AllNew, conn_after}
use cwdbg.Cli.New.{peek_mem-AllNew, set_bpoint-AllNew, clear_bpoint-AllNew}
use cwdbg.Target.{max_instr_bytes}
use cwdbg.Debugger.{Debugger, run_server_command}
use cwdbg.Debugger.Kept.{
  current_target-Keeps, run_server_command-Keeps, get_call_stack-Keeps, get_disasm_view-Keeps,
  get_source_view-Keeps,
}
use cwdbg.Debugger.Status.{get_register_view, get_stack_view}
use cwdbg.Cli.{
  Namespace, Environment, Reply, message, or_failed, on_failure, set_bpoint, peek_mem, clear_bpoint,
}
use cwdbg.Cli.Memory.{
  read_memory, execute_disassemble, execute_examine, execute_hexdump, on_struct_error, nat_part,
  dump_rows,
}
use cwdbg.Cli.Locations.{
  Location, set_breakpoint_at, at_range, at_source, at_location, get_addr_range_for_func_name,
  execute_set_breakpoint, parse_location,
}
use cwdbg.Cli.Execute.{execute_backtrace, execute_clear_breakpoint, execute_inspect, shown_frames}

module _ (holds : Debugger → Type 0) where
  pub or_failed-Keeps :
      (prefix : Bytes) {m : Exec Debugger (Option Reply)}
      → Keeps holds m
      → Keeps holds (or_failed prefix m)
  unfolding or_failed
  or_failed-Keeps prefix = except-Keeps holds (on_failure prefix)

  module _
      (exchanges : (command : ServerCommand)
        → IsNew command
        → Keeps holds
            (λ dbg. (ok tt, record dbg { server_conn = conn_after command dbg.server_conn }))) where
    -- A server command, and a reply when it succeeds.
    pub replied-Keeps :
        (r : Outcome ServerCommand) (reply : Reply)
        → AllNew r
        → Keeps holds (run_server_command r >>= λ _. pure (some reply))
    replied-Keeps r reply new =
        bind-Keeps holds (run_server_command-Keeps holds exchanges r new)
          (λ command. lift-Keeps holds (ok (some reply)))

    pub read_memory-Keeps : (address nbytes : ℤ) → Keeps holds (read_memory address nbytes)
    unfolding read_memory
    read_memory-Keeps address nbytes =
        bind-Keeps holds
          (run_server_command-Keeps holds exchanges (peek_mem address nbytes)
            (peek_mem-AllNew address nbytes))
          (λ command. lift-Keeps holds (required type_error command.bytes))

    pub set_breakpoint_at-Keeps : (at : ℕ) → Keeps holds (set_breakpoint_at at)
    unfolding set_breakpoint_at
    set_breakpoint_at-Keeps at = or_failed-Keeps (text "Setting breakpoint failed: ") (
        replied-Keeps (set_bpoint (pos at) false) (message (text "Breakpoint set"))
          (set_bpoint-AllNew (pos at) false))

    at_range-Keeps :
        (location : Bytes) (r : Outcome (Option (ℕ × ℕ))) → Keeps holds (at_range location r)
    unfolding at_range
    at_range-Keeps location (ok (some range)) = set_breakpoint_at-Keeps range.0
    at_range-Keeps location (ok none) = record { kept = λ dbg h. h }
    at_range-Keeps location (raise value_error) = record { kept = λ dbg h. h }
    at_range-Keeps location (raise e) = record { kept = λ dbg h. h }
    at_range-Keeps location no_return = record { kept = λ dbg h. h }

    at_source-Keeps :
        (program : ProgramWithDebugInfo) (location : Bytes) (place : Location)
        → Keeps holds (at_source program location place)
    unfolding at_source
    at_source-Keeps program location (Location.offset at) = set_breakpoint_at-Keeps at
    at_source-Keeps program location (Location.line lineno) =
        at_range-Keeps location (get_addr_range_for_lineno program lineno none)
    at_source-Keeps program location (Location.function name) =
        at_range-Keeps location (get_addr_range_for_func_name program name)
    at_source-Keeps program location Location.invalid = lift-Keeps holds _

    pub at_location-Keeps :
        (program : Option ProgramWithDebugInfo) (location : Bytes) (place : Location)
        → Keeps holds (at_location program location place)
    unfolding at_location
    at_location-Keeps program location (Location.offset at) = set_breakpoint_at-Keeps at
    at_location-Keeps none location (Location.line lineno) = lift-Keeps holds _
    at_location-Keeps none location (Location.function name) = lift-Keeps holds _
    at_location-Keeps none location Location.invalid = lift-Keeps holds _
    at_location-Keeps (some program) location (Location.line lineno) =
        at_source-Keeps program location (Location.line lineno)
    at_location-Keeps (some program) location (Location.function name) =
        at_source-Keeps program location (Location.function name)
    at_location-Keeps (some program) location Location.invalid =
        at_source-Keeps program location Location.invalid

    pub execute_set_breakpoint-Keeps :
        (args : Namespace) → Keeps holds (execute_set_breakpoint args)
    unfolding execute_set_breakpoint
    execute_set_breakpoint-Keeps args = record {
      kept = λ dbg h.
          (at_location-Keeps dbg.program args.location (parse_location args.location)).kept dbg h;
    }

    pub execute_backtrace-Keeps : (fuel : ℕ) → Keeps holds (execute_backtrace fuel)
    unfolding execute_backtrace shown_frames
    execute_backtrace-Keeps fuel = bind-Keeps holds (current_target-Keeps holds) (λ info.
        bind-Keeps holds (get_call_stack-Keeps holds exchanges fuel info)
          (λ frames. record { kept = λ dbg h. h }))

    pub execute_clear_breakpoint-Keeps :
        (args : Namespace) → Keeps holds (execute_clear_breakpoint args)
    unfolding execute_clear_breakpoint
    execute_clear_breakpoint-Keeps args = or_failed-Keeps (text "Clearing breakpoint failed: ") (
        replied-Keeps (clear_bpoint args.number)
          (message (concat (text "Breakpoint #" ∷ str args.number ∷ text " cleared" ∷ [])))
          (clear_bpoint-AllNew args.number))

    pub execute_disassemble-Keeps :
        (env : Environment) (args : Namespace) → Keeps holds (execute_disassemble env args)
    unfolding execute_disassemble
    execute_disassemble-Keeps env args = or_failed-Keeps (text "Reading memory failed: ") (
        bind-Keeps holds (read_memory-Keeps args.address (times args.ninstr max_instr_bytes))
          (λ result. lift-Keeps holds (ok _)))

    pub execute_examine-Keeps :
        (env : Environment) (args : Namespace) → Keeps holds (execute_examine env args)
    unfolding execute_examine
    execute_examine-Keeps env args = or_failed-Keeps (text "Reading memory failed: ") (
        except-Keeps holds on_struct_error (
          bind-Keeps holds (lift-Keeps holds (env.calcsize args.format)) (λ nbytes.
            bind-Keeps holds (read_memory-Keeps args.address (pos nbytes)) (λ result.
              bind-Keeps holds (lift-Keeps holds (env.unpack args.format result))
                (λ values. lift-Keeps holds (ok _))))))

    pub execute_hexdump-Keeps :
        (env : Environment) (args : Namespace) → Keeps holds (execute_hexdump env args)
    unfolding execute_hexdump
    execute_hexdump-Keeps env args = or_failed-Keeps (text "Reading memory failed: ") (
        bind-Keeps holds (read_memory-Keeps args.address args.size) (λ result.
          bind-Keeps holds
            (lift-Keeps holds (dump_rows (suc (length result)) (nat_part args.address) 0 result))
            (λ dump. lift-Keeps holds (ok _))))

    pub execute_inspect-Keeps :
        (env : Environment) (args : Namespace) → Keeps holds (execute_inspect env args)
    unfolding execute_inspect
    execute_inspect-Keeps env args = bind-Keeps holds (current_target-Keeps holds) (λ info.
        if-Keeps holds (eq_text args.what (text "d"))
          (bind-Keeps holds (get_disasm_view-Keeps holds exchanges env.disasm info)
            (λ view. lift-Keeps holds (ok (some (message (concat view))))))
          (if-Keeps holds (eq_text args.what (text "r"))
            (lift-Keeps holds (ok (some (message (concat (get_register_view info))))))
            (if-Keeps holds (eq_text args.what (text "s"))
              (lift-Keeps holds (ok (some (message (concat (get_stack_view info))))))
              (if-Keeps holds (eq_text args.what (text "c"))
                (bind-Keeps holds (get_source_view-Keeps holds env.is_darwin env.read_lines info)
                  (λ view. lift-Keeps holds (ok (some (message (concat view))))))
                (lift-Keeps holds (ok none))))))
