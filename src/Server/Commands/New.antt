-- ===== src/Server/Commands/New.antt =====
-- The commands of host/server.py as their constructors make them.
use cwdbg.Base.{ℕ, ◌<◌, ◌≡◌, refl, false, Bool, none, arith, length, Outcome, ok}
use cwdbg.Server.{ServerConnection, payload, is_reply}
use cwdbg.Server.Commands.{
  ServerCommand, execute, srv_peek_mem, srv_set_breakpoint, srv_clear_breakpoint, srv_continue,
  srv_single_step, srv_run, srv_kill, srv_quit, srv_init,
}

-- A command that was not executed: no state of the target yet, no reply, and data that one message can hold.
pub record IsNew (command : ServerCommand) : Type 0 where
  pub no_target : command.target_info ≡ none
  pub is_no_reply : is_reply command.msg_type ≡ false
  pub fits : length (payload command.bytes) < 256

-- Building the command may raise.
abbrev pub AllNew : Outcome ServerCommand → Type 0
AllNew r = (command : ServerCommand) → r ≡ ok command → IsNew command

-- The connection behind the execution of a command.
abbrev pub conn_after : ServerCommand → ServerConnection → ServerConnection
conn_after command conn = (execute (record { command = command; conn = conn })).1.conn

pub srv_peek_mem-AllNew : (address nbytes : ℕ) → AllNew (srv_peek_mem address nbytes)
unfolding srv_peek_mem payload is_reply
srv_peek_mem-AllNew address nbytes command h = record {
  no_target = ground arith;
  is_no_reply = ground arith;
  fits = ground arith;
}

pub srv_set_breakpoint-AllNew :
    (offset : ℕ) (is_one_shot : Bool) → AllNew (srv_set_breakpoint offset is_one_shot)
unfolding srv_set_breakpoint payload is_reply
srv_set_breakpoint-AllNew offset is_one_shot command h = record {
  no_target = ground arith;
  is_no_reply = ground arith;
  fits = ground arith;
}

pub srv_clear_breakpoint-AllNew : (number : ℕ) → AllNew (srv_clear_breakpoint number)
unfolding srv_clear_breakpoint payload is_reply
srv_clear_breakpoint-AllNew number command h = record {
  no_target = ground arith;
  is_no_reply = ground arith;
  fits = ground arith;
}

pub srv_continue-IsNew : IsNew srv_continue
unfolding payload is_reply
srv_continue-IsNew = record { no_target = refl; is_no_reply = refl; fits = omega arith }

pub srv_single_step-IsNew : IsNew srv_single_step
unfolding payload is_reply
srv_single_step-IsNew = record { no_target = refl; is_no_reply = refl; fits = omega arith }

pub srv_run-IsNew : IsNew srv_run
unfolding payload is_reply
srv_run-IsNew = record { no_target = refl; is_no_reply = refl; fits = omega arith }

pub srv_kill-IsNew : IsNew srv_kill
unfolding payload is_reply
srv_kill-IsNew = record { no_target = refl; is_no_reply = refl; fits = omega arith }

pub srv_quit-IsNew : IsNew srv_quit
unfolding payload is_reply
srv_quit-IsNew = record { no_target = refl; is_no_reply = refl; fits = omega arith }

pub srv_init-IsNew : IsNew srv_init
unfolding payload is_reply
srv_init-IsNew = record { no_target = refl; is_no_reply = refl; fits = omega arith }
