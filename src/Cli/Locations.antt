-- ===== src/Cli/Locations.antt =====
-- The locations of breakpoints: `CliSetBreakpoint.execute` of host/cli.py.
pub mod Numbers
use cwdbg.Base.{
  ℕ, ◌+◌, ◌-◌, ◌*◌, Bool, true, false, ◌&&◌, ◌||◌, List, [], ◌∷◌, ◌++◌, Option, none, some, Bytes,
  text, ltb, leb, ◌==◌, if◌then◌else◌, pos, Exn, Outcome, ok, raise, no_return, value_error,
  attribute_error, not_implemented_error, is_digit, is_hex_digit, begins_name, is_word, any_number,
  at_least_one, int_from, server_command_error, Exec, pure, get, throw, lift, ◌>>=◌, ◌>>◌,
}
use cwdbg.Stabs.Program.{ProgramWithDebugInfo, get_addr_range_for_lineno}
use cwdbg.Debugger.{Debugger, run_server_command}
use cwdbg.Cli.{Namespace, Reply, message, failed, set_bpoint, or_failed}

-- What stands behind a prefix `0x`.
unfoldable pub behind_0x : Bytes → Option Bytes
behind_0x (a ∷ b ∷ cs) = if a == b'0' && b == b'x' then some cs else none
behind_0x _ = none

-- The forms that a location may have.
pub data Location : Type 0 where
  offset : ℕ → Location
  line : ℕ → Location
  function : Bytes → Location
  invalid : Location

unfoldable pub is_function_name : Bytes → Bool
unfolding begins_name at_least_one is_word
is_function_name [] = false
is_function_name (c ∷ cs) = begins_name c && at_least_one is_word cs

unfoldable pub source_location : Bytes → Location
unfolding at_least_one is_digit int_from is_function_name
source_location s =
    if at_least_one is_digit s
    then line (int_from 10 0 s)
    else if is_function_name s
    then function s
    else invalid

unfoldable pub location_behind : Bytes → Option Bytes → Location
unfolding at_least_one is_hex_digit int_from source_location
location_behind s none = source_location s
location_behind s (some hex_digits) =
    if at_least_one is_hex_digit hex_digits
    then offset (int_from 16 0 hex_digits)
    else source_location s

unfoldable pub parse_location : Bytes → Location
unfolding behind_0x location_behind
parse_location s = location_behind s (behind_0x s)

unfoldable pub get_addr_range_for_func_name :
    ProgramWithDebugInfo → Bytes → Outcome (Option (ℕ × ℕ))
get_addr_range_for_func_name program name = raise not_implemented_error

-- `SrvSetBreakpoint(offset).execute(dbg.server_conn)`
unfoldable pub set_breakpoint_at : ℕ → Exec Debugger (Option Reply)
unfolding or_failed run_server_command set_bpoint
set_breakpoint_at at = or_failed (text "Setting breakpoint failed: ") (
    run_server_command (set_bpoint (pos at) false) >>= λ _.
    pure (some (message (text "Breakpoint set"))))

-- What is done with the range that was looked up.
unfoldable pub at_range : Bytes → Outcome (Option (ℕ × ℕ)) → Exec Debugger (Option Reply)
unfolding set_breakpoint_at
at_range location (ok (some range)) = set_breakpoint_at range.0
at_range location (ok none) =
    pure (some (message (text "No address available for breakpoint location " ++ location)))
at_range location (raise value_error) = pure (
    some (
      failed (text "Failed to find address for breakpoint location " ++ (location ++ text ": "))
        value_error))
at_range location (raise e) = throw e
at_range location no_return = λ dbg. (no_return, dbg)

unfoldable pub at_source : ProgramWithDebugInfo → Bytes → Location → Exec Debugger (Option Reply)
unfolding at_range set_breakpoint_at get_addr_range_for_func_name
at_source program location (offset at) = set_breakpoint_at at
at_source program location (line lineno) =
    at_range location (get_addr_range_for_lineno program lineno none)
at_source program location (function name) =
    at_range location (get_addr_range_for_func_name program name)
at_source program location invalid =
    pure (some (message (text "Invalid format of breakpoint location")))

-- Offsets need no program.
unfoldable pub at_location :
    Option ProgramWithDebugInfo → Bytes → Location → Exec Debugger (Option Reply)
unfolding at_source set_breakpoint_at
at_location program location (offset at) = set_breakpoint_at at
at_location none location _ =
    pure (some (message (text "Program not loaded on host, source-level debugging not available")))
at_location (some program) location place = at_source program location place

unfoldable pub execute_set_breakpoint : Namespace → Exec Debugger (Option Reply)
unfolding parse_location at_location
execute_set_breakpoint args = do
  program ← get (λ (dbg : Debugger). dbg.program)
  at_location program args.location (parse_location args.location)
