-- ===== src/Tests/Commands.antt =====
-- Commands and their replies, host/server.py.
use cwdbg.Base.{
  ℕ, zero, suc, ◌≢◌, ◌≡◌, ◌<◌, length, refl, List, [], ◌∷◌, ◌++◌, some, Bytes, arith, ok, raise,
  no_return, server_command_error,
}
use cwdbg.Slip.{slip_end, encode, frame}
use cwdbg.Target.{TargetInfo, from_buffer}
use cwdbg.Target.States.{is_error_code}
use cwdbg.Server.{
  is_msg_type, is_reply, msg_ack, msg_nack, msg_peek_mem, msg_set_bpoint, msg_target_stopped,
}
use cwdbg.Server.Framing.{message_bytes, Brings-frame}
use cwdbg.Server.Commands.{ServerCommand, Exchange, execute, new_command, waits_for_stop, srv_run}
use cwdbg.Server.Commands.Replies.{
  Comes, server_message, connection, exchange, with_command, execute-ack, execute-nack,
}
use cwdbg.Server.Commands.Stops.{
  acked_after, execute-stopped, execute-lost_stop, execute-beyond_seqnum,
}

abbrev pub line_of : ℕ → ℕ → Bytes → List Bytes
line_of t n bytes = frame (message_bytes (server_message t n 0xdead bytes) bytes) ∷ []

ack-Comes : Comes msg_ack 3 (7 ∷ 0xdb ∷ []) [] (line_of msg_ack 3 (7 ∷ 0xdb ∷ []))
ack-Comes = record {
  checksum = 0xdead;
  checksum_fits = omega arith;
  number_fits = omega arith;
  data_fits = omega arith;
  brings =
      Brings-frame
        (message_bytes (server_message msg_ack 3 0xdead (7 ∷ 0xdb ∷ [])) (7 ∷ 0xdb ∷ []));
}

nack-Comes : Comes msg_nack 3 (2 ∷ []) [] (line_of msg_nack 3 (2 ∷ []))
nack-Comes = record {
  checksum = 0xdead;
  checksum_fits = omega arith;
  number_fits = omega arith;
  data_fits = omega arith;
  brings = Brings-frame (message_bytes (server_message msg_nack 3 0xdead (2 ∷ [])) (2 ∷ []));
}

abbrev peek : ServerCommand
peek = new_command msg_peek_mem (some (0 ∷ 0 ∷ 1 ∷ 0xc0 ∷ 0 ∷ 2 ∷ []))

execute-ack_example :
    execute (exchange peek (connection 3 (line_of msg_ack 3 (7 ∷ 0xdb ∷ []) ++ []) [])) ≡ (
      ok tt,
      exchange
          (record peek { error_code = some 0; bytes = some (7 ∷ 0xdb ∷ []) })
          (connection 4 [] (with_command peek 3 (line_of msg_ack 3 (7 ∷ 0xdb ∷ []) ++ []) [])),
    )
unfolding is_msg_type is_reply waits_for_stop
execute-ack_example =
    execute-ack peek 3 (7 ∷ 0xdb ∷ []) [] (line_of msg_ack 3 (7 ∷ 0xdb ∷ [])) [] [] refl refl refl
      ack-Comes

execute-nack_example :
    execute (exchange peek (connection 3 (line_of msg_nack 3 (2 ∷ []) ++ []) [])) ≡ (
      raise server_command_error,
      exchange
          (record peek { error_code = some 2 })
          (connection 4 [] (with_command peek 3 (line_of msg_nack 3 (2 ∷ []) ++ []) [])),
    )
unfolding is_msg_type is_reply is_error_code
execute-nack_example =
    execute-nack peek 3 [] [] (line_of msg_nack 3 (2 ∷ [])) [] [] refl refl 2 refl nack-Comes

pub run_ack-Comes : Comes msg_ack 3 [] [] (line_of msg_ack 3 [])
run_ack-Comes = record {
  checksum = 0xdead;
  checksum_fits = omega arith;
  number_fits = omega arith;
  data_fits = omega arith;
  brings = Brings-frame (message_bytes (server_message msg_ack 3 0xdead []) []);
}

abbrev zeros : ℕ → Bytes
zeros zero = []
zeros (suc n) = 0 ∷ zeros n

-- A target that is idle.
abbrev pub state_bytes : Bytes
state_bytes = zeros 204

abbrev pub idle : TargetInfo
idle = record {
  initial_pc = 0;
  initial_sp = 0;
  task_context = record {
    reg_sp = 0;
    exc_num = 0;
    reg_sr = 0;
    reg_pc = 0;
    reg_d = 0 ∷ 0 ∷ 0 ∷ 0 ∷ 0 ∷ 0 ∷ 0 ∷ 0 ∷ [];
    reg_a = 0 ∷ 0 ∷ 0 ∷ 0 ∷ 0 ∷ 0 ∷ 0 ∷ [];
  };
  target_state = 0;
  exit_code = 0;
  error_code = 0;
  next_instr_bytes = zeros 64;
  top_stack_dwords = 0 ∷ 0 ∷ 0 ∷ 0 ∷ 0 ∷ 0 ∷ 0 ∷ 0 ∷ [];
  bpoint = record { num = 0; address = 0; opcode = 0; hit_count = 0 };
}

short : length state_bytes < 256
short = omega arith

pub stop-Comes :
    Comes msg_target_stopped 9 state_bytes [] (line_of msg_target_stopped 9 state_bytes)
stop-Comes = record {
  checksum = 0xdead;
  checksum_fits = omega arith;
  number_fits = omega arith;
  data_fits = short;
  brings =
      Brings-frame
        (message_bytes (server_message msg_target_stopped 9 0xdead state_bytes) state_bytes);
}

abbrev pub run_line : List Bytes
run_line = line_of msg_ack 3 [] ++ (line_of msg_target_stopped 9 state_bytes ++ [])

execute-stopped_example : execute (exchange srv_run (connection 3 run_line [])) ≡ (
  ok tt,
  exchange
      (record srv_run { error_code = some 0; bytes = some []; target_info = some idle })
      (connection 5 [] (acked_after 4 [] (with_command srv_run 3 run_line []))),
)
unfolding is_msg_type is_reply waits_for_stop from_buffer
execute-stopped_example =
    execute-stopped srv_run 3 [] [] (line_of msg_ack 3 []) [] refl refl refl run_ack-Comes 9
      state_bytes [] (line_of msg_target_stopped 9 state_bytes) [] idle stop-Comes refl

-- The ACK and the whole message behind it in one chunk.
abbrev stop_frame : Bytes
stop_frame =
    frame (message_bytes (server_message msg_target_stopped 9 0xdead state_bytes) state_bytes)

abbrev run_content : Bytes
run_content = message_bytes (server_message msg_ack 3 0xdead []) []

abbrev one_chunk : List Bytes
one_chunk = (encode run_content ++ slip_end ∷ stop_frame) ∷ []

one_chunk-Comes : Comes msg_ack 3 [] stop_frame one_chunk
one_chunk-Comes = record {
  checksum = 0xdead;
  checksum_fits = omega arith;
  number_fits = omega arith;
  data_fits = omega arith;
  brings = record { before = []; last = encode run_content; chunks_are = refl; content_is = refl };
}

execute-lost_stop_example : execute (exchange srv_run (connection 3 one_chunk [])) ≡ (
  no_return,
  exchange
      (record srv_run { error_code = some 0; bytes = some [] })
      (connection 4 [] (with_command srv_run 3 one_chunk [])),
)
unfolding is_msg_type is_reply waits_for_stop
execute-lost_stop_example =
    execute-lost_stop srv_run 3 [] stop_frame one_chunk [] refl refl refl one_chunk-Comes

-- The ACK that the server sends for the command with the number 65536, whose low 16 bits are 0.
abbrev late : Exchange
late = exchange peek (connection 65536 ((0 ∷ 0 ∷ 0 ∷ 0 ∷ 1 ∷ 0 ∷ 0xc0 ∷ []) ∷ []) [])

execute-beyond_seqnum_example : execute late ≢ (ok tt, late)
unfolding is_reply
execute-beyond_seqnum_example = execute-beyond_seqnum late late (omega arith, tt) refl (omega arith)

abbrev one_shot : ServerCommand
one_shot = new_command msg_set_bpoint (some (0 ∷ 1 ∷ 0 ∷ 2 ∷ 0 ∷ 1 ∷ []))
