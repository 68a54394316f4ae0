-- ===== src/Server/Sound.antt =====
-- What is on the line of host/server.py: frames of messages on the way out, bytes on the way in.
use cwdbg.Base.{
  ℕ, ◌%◌, ◌<◌, ◌≡◌, refl, sym, ap, subst, Bool, true, false, List, [], ◌∷◌, ◌++◌, ◌==◌, Exn, Option,
  none, some, Bytes, arith, length, Outcome, ok, raise, no_return, OfOk, check, rethrow_as,
  value_error, connection_error, All, AllBytes, All-take, All-snoc, Keeps, bind-Keeps, lift-Keeps,
  if-Keeps, Gives, bind-Gives, lift-Gives, Keeps-Gives,
}
use cwdbg.Slip.{slip_end, find, decode, frame}
use cwdbg.Slip.ByteRange.{decode-AllBytes}
use cwdbg.Server.{
  ServerConnection, ProtoMessage, recv_frame, recv_buffer, parse_message, accept, read_message,
  try_recv, recv_message, is_reply, is_msg_type, payload, send_message, check_seqnum, next_message,
  header_bytes,
}
use cwdbg.Server.Framing.{IsWire, message_bytes, next_bytes, sent_one, send_message-sent_one}
use cwdbg.Server.Sequence.{recv_frame-AllBytes}

-- One message in its frame: its fields fit, its length is that of its data, and its type is known.
pub record IsLine (line : Bytes) : Type 0 where
  pub msg : ProtoMessage
  pub bytes : Bytes
  pub is_wire : IsWire msg bytes
  pub known : is_msg_type msg.type ≡ true
  pub line_is : line ≡ frame (message_bytes msg bytes)

pub record IsSound (c : ServerConnection) : Type 0 where
  pub sent_lines : All IsLine c.sent
  pub incoming_bytes : All AllBytes c.incoming

-- On the line the number of the connection has 16 bits.
abbrev message_of : ℕ → ℕ → Bytes → ProtoMessage
message_of seqnum msg_type bytes = record {
  seqnum = seqnum % 65536;
  checksum = 0xdead;
  type = msg_type;
  length = length bytes;
}

next_bytes-cut :
    (c : ServerConnection) (t : ℕ) (content : Option Bytes)
    → next_bytes c t content
      ≡ message_bytes (message_of c.next_seqnum t (payload content)) (payload content)
unfolding next_message header_bytes
next_bytes-cut c t content = ground arith

next_bytes-IsLine :
    (c : ServerConnection) (t : ℕ) (content : Option Bytes)
    → is_msg_type t ≡ true
    → length (payload content) < 256
    → IsLine (frame (next_bytes c t content))
unfolding is_msg_type
next_bytes-IsLine c t content known short = record {
  msg = message_of c.next_seqnum t (payload content);
  bytes = payload content;
  is_wire = record {
    seqnum_fits = omega arith;
    checksum_fits = omega arith;
    type_fits = ground arith;
    length_is = refl;
    length_fits = short;
  };
  known = known;
  line_is = ap frame (next_bytes-cut c t content);
}

sent_one-IsSound :
    (c : ServerConnection) (t : ℕ) (content : Option Bytes)
    → is_msg_type t ≡ true
    → length (payload content) < 256
    → IsSound c
    → IsSound (sent_one c t content)
sent_one-IsSound c t content known short sound = record {
  sent_lines =
      All-snoc IsLine c.sent (frame (next_bytes c t content)) sound.sent_lines
        (next_bytes-IsLine c t content known short);
  incoming_bytes = sound.incoming_bytes;
}

pub send_message-Keeps :
    (t : ℕ) (content : Option Bytes)
    → is_msg_type t ≡ true
    → length (payload content) < 256
    → Keeps IsSound (send_message t content)
send_message-Keeps t content known short = record {
  kept = λ c sound.
      subst (λ r. IsSound r.1) (sym (send_message-sent_one c t content known))
        (sent_one-IsSound c t content known short sound);
}

recv_frame-rest :
    (buffer : Bytes) (chunks : List Bytes)
    → All AllBytes chunks
    → All AllBytes (recv_frame buffer chunks).1
unfolding recv_frame
recv_frame-rest buffer [] k = tt
recv_frame-rest buffer (b ∷ bs) k =
    found (find slip_end (buffer ++ b)) (recv_frame-rest (buffer ++ b) bs k.1)
  where
    found :
        (at : Option ℕ)
        → All AllBytes (recv_frame (buffer ++ b) bs).1
        → All AllBytes
            (elim at as (λ _. Outcome Bytes × List Bytes) [
              | none ↦ recv_frame (buffer ++ b) bs
              | some x ↦ (ok (buffer ++ b), bs)
            ]).1
    found none rest = rest
    found (some i) rest = k.1

recv_buffer-Gives : Gives IsSound AllBytes recv_buffer
unfolding recv_buffer
recv_buffer-Gives = record {
  keeps = record {
    kept = λ c sound. record {
      sent_lines = sound.sent_lines;
      incoming_bytes = recv_frame-rest [] c.incoming sound.incoming_bytes;
    };
  };
  gives = λ c sound. recv_frame-AllBytes [] c.incoming tt sound.incoming_bytes;
}

parse_message-AllBytes :
    (s : Bytes) (parsed : ProtoMessage × Bytes)
    → AllBytes s
    → parse_message s ≡ ok parsed
    → AllBytes parsed.1
unfolding parse_message
parse_message-AllBytes (s₁ ∷ s₀ ∷ c₁ ∷ c₀ ∷ type ∷ len ∷ rest) parsed h e =
    subst (OfOk (λ parsed. AllBytes parsed.1)) e (All-take (λ b. b < 256) len rest h.1.1.1.1.1.1)
parse_message-AllBytes _ parsed h e = cc

pub check-Keeps : {S : Type 0} (holds : S → Type 0) (b : Bool) (e : Exn) → Keeps holds (check b e)
check-Keeps holds true e = lift-Keeps holds (ok tt)
check-Keeps holds false e = lift-Keeps holds (raise e)

check_seqnum-Keeps : (seqnum : ℕ) → Keeps IsSound (check_seqnum seqnum)
unfolding check_seqnum
check_seqnum-Keeps seqnum = record {
  kept = λ c sound.
      (bind-Keeps IsSound (check-Keeps IsSound (seqnum == c.next_seqnum) connection_error) (λ _.
          record {
            kept = λ d h. record { sent_lines = h.sent_lines; incoming_bytes = h.incoming_bytes };
          })).kept
        c sound;
}

accept-Gives :
    (msg : ProtoMessage) (bytes : Bytes)
    → AllBytes bytes
    → Gives IsSound (λ (t, d). AllBytes d) (accept msg bytes)
unfolding accept
accept-Gives msg bytes all =
    bind-Gives IsSound
      (Keeps-Gives IsSound (check-Keeps IsSound (is_msg_type msg.type) value_error))
      (λ _ _.
        bind-Gives IsSound
          (Keeps-Gives IsSound (
            if-Keeps IsSound (is_reply msg.type) (check_seqnum-Keeps msg.seqnum)
              (lift-Keeps IsSound (ok tt))))
          (λ _ _.
            lift-Gives IsSound (ok (msg.type, bytes))
              (λ (t, d) h. subst (OfOk (λ (t, d). AllBytes d)) h all)))

read_message-Gives :
    (buffer : Bytes) → AllBytes buffer → Gives IsSound (λ (t, d). AllBytes d) (read_message buffer)
unfolding read_message
read_message-Gives buffer all =
    bind-Gives IsSound
      (lift-Gives IsSound (parse_message (decode buffer))
        (λ parsed h. parse_message-AllBytes (decode buffer) parsed (decode-AllBytes buffer all) h))
      (λ (msg, bytes) h. accept-Gives msg bytes h)

rethrow_as-state : {S A : Type 0} (e : Exn) (r : Outcome A × S) → (rethrow_as e r).1 ≡ r.1
rethrow_as-state e (ok a, s) = refl
rethrow_as-state e (raise _, s) = refl
rethrow_as-state e (no_return, s) = refl

rethrow_as-given :
    {S A : Type 0} (given : A → Type 0) (e : Exn) (r : Outcome A × S)
    → OfOk given r.0
    → OfOk given (rethrow_as e r).0
rethrow_as-given given e (ok a, s) h = h
rethrow_as-given given e (raise _, s) h = tt
rethrow_as-given given e (no_return, s) h = tt

pub recv_message-Gives : Gives IsSound (λ (t, d). AllBytes d) recv_message
unfolding recv_message try_recv
recv_message-Gives =
    let read = bind-Gives IsSound recv_buffer-Gives read_message-Gives in
    record {
      keeps = record {
        kept = λ c sound.
            subst IsSound (sym (rethrow_as-state connection_error (try_recv c)))
              (read.keeps.kept c sound);
      };
      gives = λ c sound. rethrow_as-given _ connection_error (try_recv c) (read.gives c sound);
    }
