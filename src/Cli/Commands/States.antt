-- ===== src/Cli/Commands/States.antt =====
-- The guards of the commands of host/cli.py on the state of the target: `is_correct_target_state_for_command` of each
-- class.
use cwdbg.Base.{Bool, true, not, [], Bytes, text}

-- Which states of the target a command accepts.
pub data Need : Type 0 where
  any running stopped : Need

unfoldable pub accepts : Need → Bool → Bool
accepts Need.any r = true
accepts Need.running r = r
accepts Need.stopped r = not r

pub record Guard : Type 0 where
  pub need : Need
  pub error : Bytes

-- The method of `CliCommand`, which classes without a guard have.
abbrev pub no_guard : Guard
no_guard = record { need = Need.any; error = [] }

abbrev pub backtrace_guard : Guard
backtrace_guard = record {
  need = Need.running;
  error = text "Incorrect state for command 'backtrace': target is not yet running";
}

abbrev pub continue_guard : Guard
continue_guard = record {
  need = Need.running;
  error = text "Incorrect state for command 'continue': target is not yet running";
}

abbrev pub inspect_guard : Guard
inspect_guard = record {
  need = Need.running;
  error = text "Incorrect state for command 'inspect': target is not yet running";
}

abbrev pub kill_guard : Guard
kill_guard = record {
  need = Need.running;
  error = text "Incorrect state for command 'kill': target is not yet running";
}

abbrev pub next_instr_guard : Guard
next_instr_guard = record {
  need = Need.running;
  error = text "Incorrect state for command 'nexti': target is not yet running";
}

abbrev pub next_line_guard : Guard
next_line_guard = record {
  need = Need.running;
  error = text "Incorrect state for command 'next': target is not yet running";
}

abbrev pub quit_guard : Guard
quit_guard = record {
  need = Need.stopped;
  error = text "Incorrect state for command 'quit': target is still running";
}

abbrev pub run_guard : Guard
run_guard = record {
  need = Need.stopped;
  error = text "Incorrect state for command 'run': target is already running";
}

abbrev pub step_instr_guard : Guard
step_instr_guard = record {
  need = Need.running;
  error = text "Incorrect state for command 'stepi': target is not yet running";
}

abbrev pub step_line_guard : Guard
step_line_guard = record {
  need = Need.running;
  error = text "Incorrect state for command 'step': target is not yet running";
}
