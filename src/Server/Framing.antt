-- ===== src/Server/Framing.antt =====
-- What `recv_message` of host/server.py makes of the chunks that the socket returns.
use cwdbg.Base.{
  ℕ, ◌+◌, ◌%◌, ◌<◌, ◌≡◌, refl, ap, ◌∙◌, true, false, not, ◌&&◌, ◌||◌, List, [], ◌∷◌, ◌++◌, Option,
  Bytes, append_assoc, arith, ◌==◌, if◌then◌else◌, length, take-append, Outcome, ok, raise,
  rethrow_as, connection_error,
}
use cwdbg.Slip.{slip_end, decode, encode, frame}
use cwdbg.Slip.RoundTrip.{decode_frame, find-encode, find-encode-none}
use cwdbg.Server.{
  ServerConnection, ProtoMessage, header_bytes, recv_frame, recv_buffer, parse_message, accept,
  try_recv, recv_message, is_msg_type, is_reply, send_message, next_message, payload,
}

-- The bytes of one message, with its header.
abbrev pub message_bytes : ProtoMessage → Bytes → Bytes
message_bytes msg bytes = header_bytes msg ++ bytes

abbrev pub joined : List Bytes → Bytes
joined [] = []
joined (b ∷ bs) = b ++ joined bs

-- The chunks bring the frame of `content`, cut anywhere; `extra` is what the last chunk brings beyond
-- the end of the frame.
pub record Brings (content extra : Bytes) (chunks : List Bytes) : Type 0 where
  pub before : List Bytes
  pub last : Bytes
  pub chunks_are : chunks ≡ before ++ (last ++ slip_end ∷ extra) ∷ []
  pub content_is : encode content ≡ joined before ++ last

-- A frame in a chunk of its own.
pub Brings-frame : (content : Bytes) → Brings content [] (frame content ∷ [])
Brings-frame content = record {
  before = [];
  last = encode content;
  chunks_are = refl;
  content_is = refl;
}

recv_frame-Brings :
    (content extra buffer : Bytes) (before : List Bytes) (last : Bytes) (rest : List Bytes)
    → encode content ≡ buffer ++ (joined before ++ last)
    → recv_frame buffer (before ++ ((last ++ slip_end ∷ extra) ∷ rest))
      ≡ (ok (encode content ++ slip_end ∷ extra), rest)
unfolding recv_frame
recv_frame-Brings content extra buffer [] last rest e =
    let whole : buffer ++ (last ++ slip_end ∷ extra) ≡ encode content ++ slip_end ∷ extra =
      rw (e, append_assoc) in
    rw (whole, recv_frame) (rw (find-encode content extra) (ap (λ t. (ok t, rest)) whole))
recv_frame-Brings content extra buffer (b ∷ bs) last rest e =
    let split : encode content ≡ (buffer ++ b) ++ (joined bs ++ last) =
      e ∙ rw (append_assoc b, append_assoc) in
    rw (find-encode-none (buffer ++ b) (joined bs ++ last) content split, recv_frame)
      (recv_frame-Brings content extra (buffer ++ b) bs last rest split)

-- The message is read whole and decoded, however it was cut, and with it what came behind its frame
-- in the last chunk: no later call sees that.
recv_buffer-Brings :
    (content extra : Bytes) (chunks rest : List Bytes) (n : ℕ) (sent : List Bytes)
    → Brings content extra chunks
    → recv_buffer (record { next_seqnum = n; incoming = chunks ++ rest; sent = sent }) ≡ (
      ok (encode content ++ slip_end ∷ extra),
      record { next_seqnum = n; incoming = rest; sent = sent },
    )
unfolding recv_buffer
recv_buffer-Brings content extra chunks rest n sent b =
    let read = recv_frame-Brings content extra [] b.before b.last rest b.content_is in
    rw b.chunks_are (rw append_assoc (rw read))

-- A message whose fields fit their widths and whose header states the length of its data.
pub record IsWire (msg : ProtoMessage) (bytes : Bytes) : Type 0 where
  pub seqnum_fits : msg.seqnum < 65536
  pub checksum_fits : msg.checksum < 65536
  pub type_fits : msg.type < 256
  pub length_is : msg.length ≡ length bytes
  pub length_fits : length bytes < 256

parse_message-append :
    (msg : ProtoMessage) (bytes rest : Bytes)
    → IsWire msg bytes
    → parse_message (message_bytes msg bytes ++ rest) ≡ ok (msg, bytes)
unfolding parse_message header_bytes
parse_message-append msg bytes rest w =
    let len : msg.length % 256 ≡ length bytes = omega arith in rw (len, take-append) (ground arith)

try_recv_of :
    (c d : ServerConnection) (buffer : Bytes) (msg : ProtoMessage) (bytes : Bytes)
    → recv_buffer c ≡ (ok buffer, d)
    → parse_message (decode buffer) ≡ ok (msg, bytes)
    → try_recv c ≡ accept msg bytes d
unfolding try_recv
try_recv_of c d buffer msg bytes e p = rw (e, p)

module _ (msg : ProtoMessage) (bytes extra : Bytes) (chunks rest : List Bytes) (n : ℕ)
    (sent : List Bytes) (w : IsWire msg bytes)
    (b : Brings (message_bytes msg bytes) extra chunks) where
  abbrev pub before_recv : ServerConnection
  before_recv = record { next_seqnum = n; incoming = chunks ++ rest; sent = sent }

  abbrev pub after_recv : ServerConnection
  after_recv = record { next_seqnum = n; incoming = rest; sent = sent }

  pub recv_message-Brings :
      recv_message before_recv ≡ rethrow_as connection_error (accept msg bytes after_recv)
  unfolding recv_message
  recv_message-Brings =
      let content = message_bytes msg bytes in
      ap (rethrow_as connection_error) (
        try_recv_of before_recv after_recv (encode content ++ slip_end ∷ extra) msg bytes
          (recv_buffer-Brings content extra chunks rest n sent b)
          (rw decode_frame (parse_message-append msg bytes (slip_end ∷ decode extra) w)))

-- What a connection makes of a message, told by what it holds: an unknown type, and a reply with
-- another number than the one that is next, are errors; a reply in turn moves the number on.
abbrev pub received :
    ProtoMessage → Bytes → ServerConnection → Outcome (ℕ × Bytes) × ServerConnection
received msg bytes c =
    if not (is_msg_type msg.type) || (is_reply msg.type && not (msg.seqnum == c.next_seqnum))
    then (raise connection_error, c)
    else (
      ok (msg.type, bytes),
      record c { next_seqnum = c.next_seqnum + (if is_reply msg.type then 1 else 0) },
    )

accept-received :
    (msg : ProtoMessage) (bytes : Bytes) (c : ServerConnection)
    → rethrow_as connection_error (accept msg bytes c) ≡ received msg bytes c
unfolding accept is_reply is_msg_type
accept-received msg bytes c = ground arith

-- However the frame of a message whose fields fit is cut into chunks, and whatever follows the frame
-- in the last chunk, `recv_message` makes of it what the message says, and drops what follows.
pub recv_message-received :
    (msg : ProtoMessage) (bytes extra : Bytes) (chunks rest : List Bytes) (n : ℕ)
    (sent : List Bytes)
    → IsWire msg bytes
    → Brings (message_bytes msg bytes) extra chunks
    → recv_message (record { next_seqnum = n; incoming = chunks ++ rest; sent = sent })
      ≡ received msg bytes (record { next_seqnum = n; incoming = rest; sent = sent })
recv_message-received msg bytes extra chunks rest n sent w b =
    recv_message-Brings msg bytes extra chunks rest n sent w b ∙ accept-received msg bytes _

-- The message that `send_message` builds.
abbrev pub next_bytes : ServerConnection → ℕ → Option Bytes → Bytes
next_bytes c t content = message_bytes (next_message c.next_seqnum t content) (payload content)

-- What `send_message` changes: one more frame is handed over, and a reply moves the number on.
abbrev pub sent_one : ServerConnection → ℕ → Option Bytes → ServerConnection
sent_one c t content = record c {
  sent = c.sent ++ frame (next_bytes c t content) ∷ [];
  next_seqnum = c.next_seqnum + (if is_reply t then 1 else 0);
}

pub send_message-sent_one :
    (c : ServerConnection) (t : ℕ) (content : Option Bytes)
    → is_msg_type t ≡ true
    → send_message t content c ≡ (ok tt, sent_one c t content)
unfolding send_message
send_message-sent_one c t content known = ground arith

is_msg_type-fits : (t : ℕ) → is_msg_type t ≡ true → t < 256
unfolding is_msg_type
is_msg_type-fits t known = ground arith

next_message-IsWire :
    (n t : ℕ) (content : Option Bytes)
    → is_msg_type t ≡ true
    → n < 65536
    → length (payload content) < 256
    → IsWire (next_message n t content) (payload content)
unfolding next_message
next_message-IsWire n t content known fits short = record {
  seqnum_fits = fits;
  checksum_fits = omega arith;
  type_fits = is_msg_type-fits t known;
  length_is = refl;
  length_fits = short;
}

received_plain :
    (n t : ℕ) (content : Option Bytes) (c : ServerConnection)
    → is_msg_type t ≡ true
    → is_reply t ≡ false
    → received (next_message n t content) (payload content) c ≡ (ok (t, payload content), c)
unfolding next_message
received_plain n t content c known plain = ground arith

-- A message that is no reply, sent by one side and brought to the other in one chunk, arrives as it
-- was sent, as long as the number of the sender and the length of the data fit their fields.
pub recv-send :
    (c : ServerConnection) (t n : ℕ) (content : Option Bytes) (sent rest : List Bytes)
    → is_msg_type t ≡ true
    → is_reply t ≡ false
    → c.next_seqnum < 65536
    → length (payload content) < 256
    → (line : Bytes) × (send_message t content c ≡ (ok tt, record c { sent = c.sent ++ line ∷ [] }))
      × (recv_message (record { next_seqnum = n; incoming = line ∷ rest; sent = sent })
          ≡ (ok (t, payload content), record { next_seqnum = n; incoming = rest; sent = sent }))
recv-send c t n content sent rest known plain fits short = (
  frame (next_bytes c t content),
  send_message-sent_one c t content known ∙ ground arith,
  recv_message-received (next_message c.next_seqnum t content) (payload content) []
        (frame (next_bytes c t content) ∷ []) rest n sent
        (next_message-IsWire c.next_seqnum t content known fits short)
        (Brings-frame (next_bytes c t content))
      ∙ received_plain c.next_seqnum t content _ known plain,
)
