-- ===== src/Server/Commands.antt =====
-- The server commands of host/server.py: `ServerCommand`, its `execute`, and the classes derived
-- from it. `error_code` is `none` for the value -1 that a command starts with.
pub mod Replies
pub mod Stops
pub mod Wire
pub mod New
pub mod Sound
use cwdbg.Base.{
  ℕ, ◌+◌, ◌^◌, Bool, ◌||◌, [], ◌∷◌, ◌++◌, Option, none, some, Bytes, ◌==◌, ltb, List, if◌then◌else◌,
  take, be16, be32, word32, Outcome, ok, raise, Exec, pure, get, modify, throw, check, ◌>>=◌, ◌>>◌,
  value_error, index_error, type_error, struct_error, connection_error, server_command_error,
}
use cwdbg.Target.{TargetInfo, from_buffer}
use cwdbg.Target.States.{is_error_code}
use cwdbg.Server.{
  ServerConnection, send_message, recv_message, is_msg_type, is_reply, msg_init, msg_ack, msg_run,
  msg_quit, msg_cont, msg_step, msg_kill, msg_peek_mem, msg_set_bpoint, msg_clear_bpoint,
  msg_target_stopped, msg_get_base_address,
}

pub record ServerCommand : Type 0 where
  pub msg_type : ℕ
  pub bytes : Option Bytes
  pub error_code : Option ℕ
  pub target_info : Option TargetInfo

-- A command in the course of its execution, with the connection that it uses.
pub record Exchange : Type 0 where
  pub command : ServerCommand
  pub conn : ServerConnection

on_conn : {A : Type 0} → Exec ServerConnection A → Exec Exchange A
on_conn m x = let r = m x.conn in (r.0, record x { conn = r.1 })

of_outcome : {A : Type 0} → Outcome A → Exec Exchange A
of_outcome r x = (r, x)

-- `msg_type in (MSG_RUN, MSG_STEP, MSG_CONT, MSG_KILL)`
unfoldable pub waits_for_stop : ℕ → Bool
waits_for_stop t = t == msg_run || t == msg_step || t == msg_cont || t == msg_kill

acknowledged : Bytes → Exec Exchange (Unit {0})
acknowledged reply = modify (λ (x : Exchange). record x {
  command = record x.command { error_code = some 0; bytes = some reply };
})

-- `data[0]`, and the name of the error code in the message of the exception.
refused : Bytes → Exec Exchange (Unit {0})
unfolding is_error_code
refused [] = throw index_error
refused (code ∷ _) = do
  modify (λ (x : Exchange). record x { command = record x.command { error_code = some code } })
  check (is_error_code code) value_error
  throw server_command_error

store_target_info : TargetInfo → Exchange → Exchange
store_target_info info x = record x { command = record x.command { target_info = some info } }

-- The second half of `execute`: the wait for MSG_TARGET_STOPPED.
unfoldable pub await_stop : Exec Exchange (Unit {0})
unfolding on_conn of_outcome store_target_info from_buffer
await_stop = do
  (msg_type, stopped) ← on_conn recv_message
  check (msg_type == msg_target_stopped) connection_error
  on_conn (send_message msg_ack none)
  info ← of_outcome (from_buffer stopped)
  modify (store_target_info info)

-- What `execute` does once a message has come in, for a command of type `sent_type`.
unfoldable pub handle_reply : ℕ → ℕ × Bytes → Exec Exchange (Unit {0})
unfolding is_reply waits_for_stop acknowledged refused await_stop
handle_reply sent_type (msg_type, reply) = do
  check (is_reply msg_type) connection_error
  if msg_type == msg_ack then acknowledged reply else refused reply
  if waits_for_stop sent_type then await_stop else pure tt

unfoldable pub execute : Exec Exchange (Unit {0})
unfolding is_msg_type on_conn handle_reply
execute = do
  command ← get (λ (x : Exchange). x.command)
  check (is_msg_type command.msg_type) value_error
  on_conn (send_message command.msg_type command.bytes)
  received ← on_conn recv_message
  handle_reply command.msg_type received

abbrev pub new_command : ℕ → Option Bytes → ServerCommand
new_command msg_type bytes = record {
  msg_type = msg_type;
  bytes = bytes;
  error_code = none;
  target_info = none;
}

-- `struct.pack` refuses a number that the format cannot hold.
unfoldable pub pack_uint32 : ℕ → Outcome Bytes
pack_uint32 n = if ltb n (2 ^ 32) then ok (be32 n) else raise struct_error

unfoldable pub pack_uint16 : ℕ → Outcome Bytes
pack_uint16 n = if ltb n (2 ^ 16) then ok (be16 n) else raise struct_error

-- A command whose data is two packed values.
unfoldable pub with_data : ℕ → Outcome Bytes → Outcome Bytes → Outcome ServerCommand
with_data msg_type (ok xs) (ok ys) = ok (new_command msg_type (some (xs ++ ys)))
with_data msg_type (ok xs) (raise e) = raise e
with_data msg_type (raise e) _ = raise e
with_data msg_type _ _ = Outcome.no_return

unfoldable pub srv_clear_breakpoint : ℕ → Outcome ServerCommand
unfolding with_data pack_uint32
srv_clear_breakpoint bpoint_num = with_data msg_clear_bpoint (pack_uint32 bpoint_num) (ok [])

abbrev pub srv_continue : ServerCommand
srv_continue = new_command msg_cont none

-- The name is given by the bytes of its encoding.
unfoldable pub srv_get_base_address : Bytes → ServerCommand
srv_get_base_address library_name = new_command msg_get_base_address (some (library_name ++ 0 ∷ []))

abbrev pub srv_init : ServerCommand
srv_init = new_command msg_init none

abbrev pub srv_kill : ServerCommand
srv_kill = new_command msg_kill none

unfoldable pub srv_peek_mem : ℕ → ℕ → Outcome ServerCommand
unfolding with_data pack_uint32 pack_uint16
srv_peek_mem address nbytes = with_data msg_peek_mem (pack_uint32 address) (pack_uint16 nbytes)

abbrev pub srv_quit : ServerCommand
srv_quit = new_command msg_quit none

abbrev pub srv_run : ServerCommand
srv_run = new_command msg_run none

unfoldable pub srv_set_breakpoint : ℕ → Bool → Outcome ServerCommand
unfolding with_data pack_uint32 pack_uint16
srv_set_breakpoint bpoint_offset is_one_shot =
    with_data msg_set_bpoint (pack_uint32 bpoint_offset)
      (pack_uint16 (if is_one_shot then 1 else 0))

abbrev pub srv_single_step : ServerCommand
srv_single_step = new_command msg_step none

-- `SrvGetBaseAddress.result`: `struct.unpack` of the first four bytes. Slicing `None` raises.
unfoldable pub base_address_result : Option Bytes → Outcome ℕ
base_address_result none = raise type_error
base_address_result (some (a ∷ b ∷ c ∷ d ∷ _)) = ok (word32 a b c d)
base_address_result (some _) = raise struct_error

-- `ServerConnection.__init__`, from the socket that is connected to the server.
unfoldable pub connect : List Bytes → Outcome (Unit {0}) × Exchange
unfolding execute
connect incoming = execute (record {
  command = srv_init;
  conn = record { next_seqnum = 0; incoming = incoming; sent = [] };
})
