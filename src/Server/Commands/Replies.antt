-- ===== src/Server/Commands/Replies.antt =====
-- What `execute` makes of the server's ACK or NACK.
use cwdbg.Base.{
  ℕ, ◌+◌, ◌<◌, ◌≡◌, refl, ◌∙◌, true, false, List, [], ◌∷◌, ◌++◌, Option, some, Bytes, arith,
  if◌then◌else◌, length, ok, raise, pure, proceed, value_error, server_command_error,
}
use cwdbg.Slip.{frame}
use cwdbg.Target.States.{is_error_code}
use cwdbg.Server.{
  ServerConnection, ProtoMessage, is_msg_type, is_reply, msg_ack, msg_nack, send_message,
  recv_message,
}
use cwdbg.Server.Framing.{
  Brings, IsWire, message_bytes, next_bytes, send_message-sent_one, recv_message-received, received,
}
use cwdbg.Server.Commands.{
  ServerCommand, Exchange, execute, handle_reply, waits_for_stop, await_stop,
}

-- A message of type `t` as the server builds it; it sends the same constant or any other checksum.
abbrev pub server_message : ℕ → ℕ → ℕ → Bytes → ProtoMessage
server_message t n checksum bytes = record {
  seqnum = n;
  checksum = checksum;
  type = t;
  length = length bytes;
}

-- The socket is about to bring this message, cut into `chunks`.
pub record Comes (t n : ℕ) (bytes extra : Bytes) (chunks : List Bytes) : Type 0 where
  pub checksum : ℕ
  pub checksum_fits : checksum < 65536
  pub number_fits : n < 65536
  pub data_fits : length bytes < 256
  pub brings : Brings (message_bytes (server_message t n checksum bytes) bytes) extra chunks

pub Comes-IsWire :
    {t n : ℕ} {bytes extra : Bytes} {chunks : List Bytes} (k : Comes t n bytes extra chunks)
    → t < 256
    → IsWire (server_message t n k.checksum bytes) bytes
Comes-IsWire k h = record {
  seqnum_fits = k.number_fits;
  checksum_fits = k.checksum_fits;
  type_fits = h;
  length_is = refl;
  length_fits = k.data_fits;
}

abbrev pub connection : ℕ → List Bytes → List Bytes → ServerConnection
connection n incoming sent = record { next_seqnum = n; incoming = incoming; sent = sent }

received_reply :
    (t n k : ℕ) (bytes : Bytes) (rest sent : List Bytes)
    → is_reply t ≡ true
    → received (server_message t n k bytes) bytes (connection n rest sent)
      ≡ (ok (t, bytes), connection (n + 1) rest sent)
unfolding is_reply is_msg_type
received_reply t n k bytes rest sent h = ground arith

is_reply-lt : (t : ℕ) → is_reply t ≡ true → t < 256
unfolding is_reply
is_reply-lt t h = ground arith

-- A reply with the number that is next is accepted, and the number moves on.
pub recv_reply :
    (t n : ℕ) (bytes extra : Bytes) (chunks rest sent : List Bytes)
    → is_reply t ≡ true
    → Comes t n bytes extra chunks
    → recv_message (connection n (chunks ++ rest) sent)
      ≡ (ok (t, bytes), connection (n + 1) rest sent)
recv_reply t n bytes extra chunks rest sent h k =
    recv_message-received (server_message t n k.checksum bytes) bytes extra chunks rest n sent
      (Comes-IsWire k (is_reply-lt t h)) k.brings
    ∙ received_reply t n k.checksum bytes rest sent h

-- The command's own message is no reply, so the number stays.
pub send_plain :
    (t n : ℕ) (content : Option Bytes) (incoming sent : List Bytes)
    → is_msg_type t ≡ true
    → is_reply t ≡ false
    → send_message t content (connection n incoming sent) ≡ (
      ok tt,
      connection n incoming
          (sent ++ frame (next_bytes (connection n incoming sent) t content) ∷ []),
    )
send_plain t n content incoming sent known plain =
    send_message-sent_one (connection n incoming sent) t content known ∙ ground arith

-- The line after a command has gone out.
abbrev pub with_command : ServerCommand → ℕ → List Bytes → List Bytes → List Bytes
with_command command n incoming sent =
    sent ++ frame (next_bytes (connection n incoming sent) command.msg_type command.bytes) ∷ []

abbrev pub exchange : ServerCommand → ServerConnection → Exchange
exchange command conn = record { command = command; conn = conn }

-- `execute` up to the message that comes in.
pub execute_sent :
    (command : ServerCommand) (n : ℕ) (incoming sent : List Bytes)
    → is_msg_type command.msg_type ≡ true
    → is_reply command.msg_type ≡ false
    → let r = recv_message (connection n incoming (with_command command n incoming sent)) in
      execute (exchange command (connection n incoming sent))
      ≡ proceed r.0 (handle_reply command.msg_type) (exchange command r.1)
unfolding execute
execute_sent command n incoming sent known plain =
    rw (known, send_plain command.msg_type n command.bytes incoming sent known plain) refl

pub execute_unknown :
    (x : Exchange) → is_msg_type x.command.msg_type ≡ false → execute x ≡ (raise value_error, x)
unfolding execute
execute_unknown x h = rw h refl

module _ (command : ServerCommand) (n : ℕ) (bytes extra : Bytes) (chunks rest sent : List Bytes)
    (known : is_msg_type command.msg_type ≡ true) (plain : is_reply command.msg_type ≡ false) where
  abbrev log : List Bytes
  log = with_command command n (chunks ++ rest) sent

  -- After an ACK the command holds the data of the reply, and the rest of `execute` runs.
  pub execute_acked :
      Comes msg_ack n bytes extra chunks
      → execute (exchange command (connection n (chunks ++ rest) sent))
        ≡ (if waits_for_stop command.msg_type then await_stop else pure tt) (
            exchange
              (record command { error_code = some 0; bytes = some bytes })
              (connection (n + 1) rest log))
  unfolding handle_reply
  execute_acked k =
      execute_sent command n (chunks ++ rest) sent known plain
      ∙ rw (recv_reply msg_ack n bytes extra chunks rest log refl k) refl

  -- A command that does not make the target run is finished by an ACK with the number that is next,
  -- however its frame is cut: one frame was sent, the number is one higher, and the command holds the
  -- code 0 and the data of the reply.
  pub execute-ack :
      waits_for_stop command.msg_type ≡ false
      → Comes msg_ack n bytes extra chunks
      → execute (exchange command (connection n (chunks ++ rest) sent)) ≡ (
        ok tt,
        exchange
            (record command { error_code = some 0; bytes = some bytes })
            (connection (n + 1) rest log),
      )
  execute-ack short k = execute_acked k ∙ rw short

  -- A NACK with a known error code raises `ServerCommandError`, also where the command would have
  -- waited for the target: the command holds the code, and the number is one higher, so that the
  -- connection can be used further.
  pub execute-nack :
      (code : ℕ)
      → is_error_code code ≡ true
      → Comes msg_nack n (code ∷ bytes) extra chunks
      → execute (exchange command (connection n (chunks ++ rest) sent)) ≡ (
        raise server_command_error,
        exchange (record command { error_code = some code }) (connection (n + 1) rest log),
      )
  unfolding handle_reply
  execute-nack code good k =
      execute_sent command n (chunks ++ rest) sent known plain
      ∙ rw (recv_reply msg_nack n (code ∷ bytes) extra chunks rest log refl k) (rw good refl)
