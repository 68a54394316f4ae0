-- ===== src/Cli/Locations/Numbers.antt =====
-- Locations of breakpoints that are numbers, as host/cli.py reads them and as Python prints them.
use cwdbg.Base.{
  ℕ, ◌+◌, ◌<◌, ◌≡◌, refl, ltb, List, Outcome, Option, handled, proceed, pure, be32, ap, ◌∙◌, true,
  [], ◌∷◌, ◌++◌, none, some, Bytes, text, arith, All, decimal, hexadecimal, is_digit, ok,
  hexadecimal-at_least_one, int_from-hexadecimal, decimal-All, decimal-at_least_one,
  int_from-decimal,
}
use cwdbg.Stabs.Program.{ProgramWithDebugInfo, get_addr_range_for_lineno}
use cwdbg.Server.{is_msg_type, is_reply, msg_ack}
use cwdbg.Server.Commands.{
  ServerCommand, Exchange, execute, new_command, waits_for_stop, srv_set_breakpoint, with_data,
  pack_uint32, pack_uint16,
}
use cwdbg.Server.Commands.Replies.{Comes, connection, exchange, with_command, execute-ack}
use cwdbg.Debugger.{Debugger, executed, run_server_command}
use cwdbg.Cli.Execute.Running.{on_line}
use cwdbg.Cli.{Namespace, Reply, message, set_bpoint, or_failed, on_failure}
use cwdbg.Cli.Locations.{
  offset, line, behind_0x, location_behind, parse_location, source_location, execute_set_breakpoint,
  set_breakpoint_at, at_location, at_range,
}

ltb-true : (a b : ℕ) → a < b → ltb a b ≡ true
ltb-true a b h = ground arith

behind_0x-digits : (xs : Bytes) → All (λ c. is_digit c ≡ true) xs → behind_0x xs ≡ none
unfolding behind_0x is_digit
behind_0x-digits [] all = refl
behind_0x-digits (a ∷ []) all = refl
behind_0x-digits (a ∷ b ∷ cs) (h, (h', _)) = ground arith

parse_location-hexadecimal : (n : ℕ) → parse_location (text "0x" ++ hexadecimal n) ≡ offset n
unfolding parse_location location_behind behind_0x
parse_location-hexadecimal n = rw (hexadecimal-at_least_one n) (ap offset (int_from-hexadecimal n))

source_location-decimal : (n : ℕ) → source_location (decimal n) ≡ line n
unfolding source_location
source_location-decimal n = rw (decimal-at_least_one n) (ap line (int_from-decimal n))

parse_location-decimal : (n : ℕ) → parse_location (decimal n) ≡ line n
unfolding parse_location location_behind
parse_location-decimal n =
    rw (behind_0x-digits (decimal n) (decimal-All n)) (source_location-decimal n)

execute_set_breakpoint-at :
    (n : ℕ) (args : Namespace) (dbg : Debugger)
    → args.location ≡ text "0x" ++ hexadecimal n
    → execute_set_breakpoint args dbg ≡ set_breakpoint_at n dbg
unfolding execute_set_breakpoint
execute_set_breakpoint-at n args dbg h =
    ap (λ location. at_location dbg.program args.location location dbg)
      (ap parse_location h ∙ parse_location-hexadecimal n)

-- The message of the type 10: the offset, and 0 for a breakpoint that stays.
abbrev pub breakpoint_at : ℕ → ServerCommand
breakpoint_at n = new_command 10 (some (be32 n ++ 0 ∷ 0 ∷ []))

after_reply : Debugger → Outcome (Unit {0}) × Exchange → Outcome (Option Reply) × Debugger
unfolding executed
after_reply dbg r =
    let e = executed dbg r in
    handled (on_failure (text "Setting breakpoint failed: "))
      (proceed e.0 (λ _. pure (some (message (text "Breakpoint set")))) e.1)

set_breakpoint_at-ok :
    (n : ℕ) (dbg : Debugger) (x : Exchange)
    → n < 4294967296
    → execute (exchange (breakpoint_at n) dbg.server_conn) ≡ (ok tt, x)
    → set_breakpoint_at n dbg
      ≡ (ok (some (message (text "Breakpoint set"))), record dbg { server_conn = x.conn })
unfolding set_breakpoint_at set_bpoint srv_set_breakpoint with_data pack_uint32 pack_uint16
    run_server_command executed or_failed after_reply
set_breakpoint_at-ok n dbg x fits h = rw (ltb-true n 4294967296 fits) (
    ap (after_reply dbg) {x = execute (exchange (breakpoint_at n) dbg.server_conn)} {y = (ok tt, x)}
      h)

-- The location `0x` with the digits that Python prints for a number below 2 ^ 32 sets a breakpoint at that offset,
-- whether a program is loaded or not: the message of the type 10 is sent, whose data are the four bytes of the offset
-- and two zero bytes, since the breakpoint is no one-shot, and when the server acknowledges it, the user is told so.
pub execute_set_breakpoint-offset :
    (n k : ℕ) (args : Namespace) (dbg : Debugger) (bytes extra : Bytes)
    (chunks rest sent : List Bytes)
    → n < 4294967296
    → args.location ≡ text "0x" ++ hexadecimal n
    → Comes msg_ack k bytes extra chunks
    → execute_set_breakpoint args (on_line dbg k (chunks ++ rest) sent) ≡ (
      ok (some (message (text "Breakpoint set"))),
      on_line dbg (k + 1) rest (with_command (breakpoint_at n) k (chunks ++ rest) sent),
    )
unfolding is_msg_type is_reply waits_for_stop
execute_set_breakpoint-offset n k args dbg bytes extra chunks rest sent fits h acked =
    execute_set_breakpoint-at n args (on_line dbg k (chunks ++ rest) sent) h
    ∙ set_breakpoint_at-ok n (on_line dbg k (chunks ++ rest) sent)
        (exchange (record (breakpoint_at n) { error_code = some 0; bytes = some bytes })
          (connection (k + 1) rest (with_command (breakpoint_at n) k (chunks ++ rest) sent)))
        fits (execute-ack (breakpoint_at n) k bytes extra chunks rest sent refl refl refl acked)

-- The location that is a number in decimal sets the breakpoint at the start of the range of that line, in the
-- only compilation unit of the loaded program.
pub execute_set_breakpoint-line :
    (n : ℕ) (args : Namespace) (dbg : Debugger) (program : ProgramWithDebugInfo) (range : ℕ × ℕ)
    → args.location ≡ decimal n
    → dbg.program ≡ some program
    → get_addr_range_for_lineno program n none ≡ ok (some range)
    → execute_set_breakpoint args dbg ≡ set_breakpoint_at range.0 dbg
unfolding execute_set_breakpoint
execute_set_breakpoint-line n args dbg program range h loaded found =
    ap (λ location. at_location dbg.program args.location location dbg)
      (ap parse_location h ∙ parse_location-decimal n)
    ∙ ap (λ p. at_location p args.location (line n) dbg) {x = dbg.program} {y = some program} loaded
    ∙ ap (λ r. at_range args.location r dbg) found
