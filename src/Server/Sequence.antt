-- ===== src/Server/Sequence.antt =====
-- The sequence numbers of host/server.py, which have 16 bits on the line and no bound in the connection.
use mathlib.Core.Path.{subst}
use cwdbg.Base.{
  ℕ, ◌<◌, ◌≡◌, refl, ap, true, List, [], ◌∷◌, ◌++◌, Option, none, some, Bytes, arith, Outcome, ok,
  raise, no_return, OfOk, All, AllBytes, proceed, connection_error, bind-eq-ok, rethrow_as-eq-ok,
}
use cwdbg.Slip.{slip_end, find, decode}
use cwdbg.Slip.ByteRange.{AllBytes-append, decode-AllBytes}
use cwdbg.Server.{
  ServerConnection, ProtoMessage, recv_frame, recv_buffer, parse_message, accept, read_message,
  recv_message, is_reply,
}

pub recv_frame-AllBytes :
    (buffer : Bytes) (chunks : List Bytes)
    → AllBytes buffer
    → All AllBytes chunks
    → OfOk AllBytes (recv_frame buffer chunks).0
unfolding recv_frame
recv_frame-AllBytes buffer [] h k = tt
recv_frame-AllBytes buffer (b ∷ bs) h k =
    let more = AllBytes-append buffer b h k.0 in
    found more (recv_frame-AllBytes (buffer ++ b) bs more k.1) (find slip_end (buffer ++ b))
  where
    found :
        AllBytes (buffer ++ b)
        → OfOk AllBytes (recv_frame (buffer ++ b) bs).0
        → (at : Option ℕ)
        → OfOk AllBytes
            (elim at as (λ _. Outcome Bytes × List Bytes) [
              | none ↦ recv_frame (buffer ++ b) bs
              | some x ↦ (ok (buffer ++ b), bs)
            ]).0
    found whole rest none = rest
    found whole rest (some i) = whole

parse_message-seqnum :
    (s : Bytes) (msg : ProtoMessage) (bytes : Bytes)
    → AllBytes s
    → parse_message s ≡ ok (msg, bytes)
    → msg.seqnum < 65536
unfolding parse_message
parse_message-seqnum (s₁ ∷ s₀ ∷ c₁ ∷ c₀ ∷ type ∷ len ∷ rest) msg bytes h e = ground arith
parse_message-seqnum _ msg bytes h e = ground arith

accept-seqnum :
    (msg : ProtoMessage) (bytes : Bytes) (c : ServerConnection) {t : ℕ} {d : Bytes}
    {c' : ServerConnection}
    → accept msg bytes c ≡ (ok (t, d), c')
    → is_reply t ≡ true
    → c.next_seqnum ≡ msg.seqnum
unfolding accept is_reply
accept-seqnum msg bytes c h r = ground arith

recv_buffer-AllBytes :
    (c d : ServerConnection) (buffer : Bytes)
    → All AllBytes c.incoming
    → recv_buffer c ≡ (ok buffer, d)
    → AllBytes buffer × (d.next_seqnum ≡ c.next_seqnum)
unfolding recv_buffer
recv_buffer-AllBytes c d buffer h e =
    let read : (recv_frame [] c.incoming).0 ≡ ok buffer = ap (λ r. r.0) e in
    (subst (OfOk AllBytes) read (recv_frame-AllBytes [] c.incoming tt h), ground arith)

read_message-seqnum :
    (c c' : ServerConnection) (buffer : Bytes) (t : ℕ) (d : Bytes)
    → AllBytes buffer
    → read_message buffer c ≡ (ok (t, d), c')
    → is_reply t ≡ true
    → c.next_seqnum < 65536
unfolding read_message
read_message-seqnum c c' buffer t d h e r = go (parse_message (decode buffer)) refl e
  where
    go :
        (parsed : Outcome (ProtoMessage × Bytes))
        → parse_message (decode buffer) ≡ parsed
        → proceed parsed (λ (msg, bytes). accept msg bytes) c ≡ (ok (t, d), c')
        → c.next_seqnum < 65536
    go (ok (msg, bytes)) p q = omega (
      arith,
      accept-seqnum msg bytes c q r,
      parse_message-seqnum (decode buffer) msg bytes (decode-AllBytes buffer h) p,
    )
    go (raise x) p q = cc
    go no_return p q = cc

-- Over bytes, `recv_message` accepts an ACK or a NACK only while the number of the connection is below
-- 2 ^ 16.
pub recv_message-seqnum_fits :
    (c c' : ServerConnection) (t : ℕ) (bytes : Bytes)
    → All AllBytes c.incoming
    → recv_message c ≡ (ok (t, bytes), c')
    → is_reply t ≡ true
    → c.next_seqnum < 65536
unfolding recv_message
recv_message-seqnum_fits c c' t bytes h e r =
    let (buffer, c₁, read, parsed) =
      bind-eq-ok recv_buffer read_message c (rethrow_as-eq-ok connection_error _ e) in
    let (all, same) = recv_buffer-AllBytes c c₁ buffer h read in
    omega (arith, same, read_message-seqnum c₁ c' buffer t bytes all parsed r)
