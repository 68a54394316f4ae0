-- ===== src/Tests/Line.antt =====
-- Frames and messages, host/server.py.
use cwdbg.Base.{◌≡◌, refl, List, [], ◌∷◌, ◌++◌, some, Bytes, arith, ok}
use cwdbg.Slip.{slip_end, encode, decode, frame}
use cwdbg.Slip.RoundTrip.{decode-encode}
use cwdbg.Server.{
  ServerConnection, ProtoMessage, is_msg_type, is_reply, payload, header_bytes, msg_ack,
  msg_peek_mem, send_message, recv_message,
}
use cwdbg.Server.Framing.{message_bytes, Brings, IsWire, received, recv_message-received, recv-send}

abbrev special : Bytes
special = 1 ∷ 0xc0 ∷ 0xdb ∷ 0xdc ∷ []

decode-encode_example :
    decode (encode special ++ 0xdb ∷ 0xdd ∷ []) ≡ special ++ decode (0xdb ∷ 0xdd ∷ [])
decode-encode_example = decode-encode special (0xdb ∷ 0xdd ∷ [])

abbrev ack : ProtoMessage
ack = record { seqnum = 3; checksum = 0xdead; type = msg_ack; length = 2 }

abbrev ack_content : Bytes
ack_content = message_bytes ack (0xc0 ∷ 7 ∷ [])

ack-IsWire : IsWire ack (0xc0 ∷ 7 ∷ [])
ack-IsWire = record {
  seqnum_fits = omega arith;
  checksum_fits = omega arith;
  type_fits = omega arith;
  length_is = refl;
  length_fits = omega arith;
}

-- The frame comes in two chunks, and the start of another one behind it.
abbrev ack_chunks : List Bytes
ack_chunks =
    (0 ∷ 3 ∷ 0xde ∷ []) ∷ ((0xad ∷ 1 ∷ 2 ∷ 0xdb ∷ 0xdc ∷ 7 ∷ []) ++ slip_end ∷ (0 ∷ 4 ∷ [])) ∷ []

ack-Brings : Brings ack_content (0 ∷ 4 ∷ []) ack_chunks
unfolding encode header_bytes
ack-Brings = record {
  before = (0 ∷ 3 ∷ 0xde ∷ []) ∷ [];
  last = 0xad ∷ 1 ∷ 2 ∷ 0xdb ∷ 0xdc ∷ 7 ∷ [];
  chunks_are = refl;
  content_is = refl;
}

recv_message-received_example :
    recv_message (record { next_seqnum = 3; incoming = ack_chunks ++ []; sent = [] })
    ≡ received ack (0xc0 ∷ 7 ∷ []) (record { next_seqnum = 3; incoming = []; sent = [] })
recv_message-received_example =
    recv_message-received ack (0xc0 ∷ 7 ∷ []) (0 ∷ 4 ∷ []) ack_chunks [] 3 [] ack-IsWire ack-Brings

abbrev at_three : ServerConnection
at_three = record { next_seqnum = 3; incoming = []; sent = [] }

recv-send_example :
    (line : Bytes) × (send_message msg_peek_mem (some special) at_three
      ≡ (ok tt, record at_three { sent = [] ++ line ∷ [] }))
    × (recv_message (record { next_seqnum = 0; incoming = line ∷ []; sent = [] }) ≡ (
      ok (msg_peek_mem, payload (some special)),
      record { next_seqnum = 0; incoming = []; sent = [] },
    ))
unfolding payload is_msg_type is_reply
recv-send_example =
    recv-send at_three msg_peek_mem 0 (some special) [] [] refl refl (omega arith) (omega arith)

abbrev at_ack : ServerConnection
at_ack = record { next_seqnum = 3; incoming = frame (0 ∷ 3 ∷ 0 ∷ 0 ∷ 1 ∷ 0 ∷ []) ∷ []; sent = [] }
