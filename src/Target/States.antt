-- ===== src/Target/States.antt =====
-- The target's states (`TargetStates` of host/target.py; the server sends a sum of them) and the
-- error codes of host/errors.py.
use cwdbg.Base.{ℕ, Bool, ltb}

abbrev pub ts_idle : ℕ
ts_idle = 0

abbrev pub ts_running : ℕ
ts_running = 1

abbrev pub ts_single_stepping : ℕ
ts_single_stepping = 2

abbrev pub ts_exited : ℕ
ts_exited = 4

abbrev pub ts_killed : ℕ
ts_killed = 8

abbrev pub ts_stopped_by_bpoint : ℕ
ts_stopped_by_bpoint = 16

abbrev pub ts_stopped_by_one_shot_bpoint : ℕ
ts_stopped_by_one_shot_bpoint = 32

abbrev pub ts_stopped_by_single_step : ℕ
ts_stopped_by_single_step = 64

abbrev pub ts_stopped_by_exception : ℕ
ts_stopped_by_exception = 128

abbrev pub ts_error : ℕ
ts_error = 65536

-- `ErrorCodes(code)` gives a member for the codes 0 to 10, and raises for any other number.
unfoldable pub is_error_code : ℕ → Bool
is_error_code code = ltb code 11
