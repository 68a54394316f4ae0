-- ===== src/Server.antt =====
-- The serial protocol of host/server.py: messages, and the connection that sends and receives them.
-- The socket is the list of chunks that its `recv` is still to return, and the frames that were
-- handed to its `send`. When the chunks have run out, `recv` does not return, or returns empty
-- chunks for ever: either way `recv_message` does not come to an end.
pub mod Framing
pub mod Sequence
pub mod Sound
pub mod Commands
use cwdbg.Base.{
  ℕ, ◌+◌, ◌%◌, Bool, ◌||◌, List, [], ◌∷◌, ◌++◌, Option, none, some, Bytes, ◌==◌, ltb, if◌then◌else◌,
  length, take, be16, word16, Exn, Outcome, ok, raise, no_return, Exec, pure, get, modify, throw,
  check, rethrow_as, proceed, ◌>>=◌, ◌>>◌, value_error, connection_error,
}
use cwdbg.Slip.{slip_end, find, decode, frame}

abbrev pub msg_init : ℕ
msg_init = 0

abbrev pub msg_ack : ℕ
msg_ack = 1

abbrev pub msg_nack : ℕ
msg_nack = 2

abbrev pub msg_run : ℕ
msg_run = 3

abbrev pub msg_quit : ℕ
msg_quit = 4

abbrev pub msg_cont : ℕ
msg_cont = 5

abbrev pub msg_step : ℕ
msg_step = 6

abbrev pub msg_kill : ℕ
msg_kill = 7

abbrev pub msg_peek_mem : ℕ
msg_peek_mem = 8

abbrev pub msg_poke_mem : ℕ
msg_poke_mem = 9

abbrev pub msg_set_bpoint : ℕ
msg_set_bpoint = 10

abbrev pub msg_clear_bpoint : ℕ
msg_clear_bpoint = 11

abbrev pub msg_target_stopped : ℕ
msg_target_stopped = 12

abbrev pub msg_get_base_address : ℕ
msg_get_base_address = 13

-- `MsgTypes(t)` gives a member for the numbers above, and raises for any other.
unfoldable pub is_msg_type : ℕ → Bool
is_msg_type t = ltb t 14

-- `t in (MsgTypes.MSG_ACK, MsgTypes.MSG_NACK)`
unfoldable pub is_reply : ℕ → Bool
is_reply t = t == msg_ack || t == msg_nack

pub record ServerConnection : Type 0 where
  pub next_seqnum : ℕ
  pub incoming : List Bytes
  pub sent : List Bytes

pub record ProtoMessage : Type 0 where
  pub seqnum : ℕ
  pub checksum : ℕ
  pub type : ℕ
  pub length : ℕ

-- `bytearray(msg)`: each field is cut to its width.
unfoldable pub header_bytes : ProtoMessage → Bytes
header_bytes msg =
    be16 msg.seqnum ++ (be16 msg.checksum ++ (msg.type % 256 ∷ msg.length % 256 ∷ []))

-- The optional data; `if data` treats an empty string of bytes like no data.
unfoldable pub payload : Option Bytes → Bytes
payload none = []
payload (some bytes) = bytes

unfoldable pub next_message : ℕ → ℕ → Option Bytes → ProtoMessage
unfolding payload
next_message seqnum msg_type bytes = record {
  seqnum = seqnum;
  checksum = 0xdead;
  type = msg_type;
  length = length (payload bytes);
}

bump_seqnum : ServerConnection → ServerConnection
bump_seqnum c = record c { next_seqnum = c.next_seqnum + 1 }

-- `self._conn.send(buffer)`, which is taken to send the whole buffer.
hand_over : Bytes → ServerConnection → ServerConnection
hand_over bytes c = record c { sent = c.sent ++ bytes ∷ [] }

unfoldable pub send_message : ℕ → Option Bytes → Exec ServerConnection (Unit {0})
unfolding is_msg_type is_reply header_bytes next_message payload bump_seqnum hand_over
send_message msg_type bytes = do
  seqnum ← get (λ (c : ServerConnection). c.next_seqnum)
  let buffer = header_bytes (next_message seqnum msg_type bytes) ++ payload bytes
  -- the log line looks up the name of the type, before anything is sent
  check (is_msg_type (msg_type % 256)) connection_error
  modify (hand_over (frame buffer))
  if is_reply msg_type then modify bump_seqnum else pure tt

-- `while pos == -1`: chunks are read until there is an end marker.
unfoldable pub recv_frame : Bytes → List Bytes → Outcome Bytes × List Bytes
recv_frame buffer [] = (no_return, [])
recv_frame buffer (chunk ∷ chunks) =
    let more = buffer ++ chunk in
    elim (find slip_end more) [ none ↦ recv_frame more chunks | some _ ↦ (ok more, chunks) ]

unfoldable pub recv_buffer : Exec ServerConnection Bytes
unfolding recv_frame
recv_buffer c = let r = recv_frame [] c.incoming in (r.0, record c { incoming = r.1 })

-- `ProtoMessage.from_buffer` and the slice behind the header.
unfoldable pub parse_message : Bytes → Outcome (ProtoMessage × Bytes)
parse_message (s₁ ∷ s₀ ∷ c₁ ∷ c₀ ∷ type ∷ len ∷ rest) = ok (
  record { seqnum = word16 s₁ s₀; checksum = word16 c₁ c₀; type = type; length = len },
  take len rest,
)
parse_message _ = raise value_error

-- An ACK or a NACK must carry the number that is next, and moves it on.
unfoldable pub check_seqnum : ℕ → Exec ServerConnection (Unit {0})
unfolding bump_seqnum
check_seqnum seqnum = do
  next_seqnum ← get (λ (c : ServerConnection). c.next_seqnum)
  check (seqnum == next_seqnum) connection_error
  modify bump_seqnum

-- The log line with the type's name, and the check of the sequence number.
unfoldable pub accept : ProtoMessage → Bytes → Exec ServerConnection (ℕ × Bytes)
unfolding is_msg_type is_reply check_seqnum
accept msg bytes = do
  check (is_msg_type msg.type) value_error
  if is_reply msg.type then check_seqnum msg.seqnum else pure tt
  pure (msg.type, bytes)

-- What is done with the buffer, once it holds an end marker.
unfoldable pub read_message : Bytes → Exec ServerConnection (ℕ × Bytes)
read_message buffer c = proceed (parse_message (decode buffer)) (λ (msg, bytes). accept msg bytes) c

unfoldable pub try_recv : Exec ServerConnection (ℕ × Bytes)
unfolding read_message
try_recv = recv_buffer >>= read_message

-- Whatever is raised inside comes out as a `ConnectionError`.
unfoldable pub recv_message : Exec ServerConnection (ℕ × Bytes)
unfolding try_recv
recv_message c = rethrow_as connection_error (try_recv c)
