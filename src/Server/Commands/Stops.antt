-- ===== src/Server/Commands/Stops.antt =====
-- The commands that make the target run: `execute` waits for MSG_TARGET_STOPPED behind the ACK.
use mathlib.Core.Path.{subst}
use cwdbg.Base.{
  ℕ, ◌+◌, ◌≤◌, ◌≡◌, ◌≢◌, refl, sym, ◌∙◌, inl, inr, proceed, connection_error, Bool-cases,
  append-nil, true, false, List, [], ◌∷◌, ◌++◌, none, some, Bytes, arith, Outcome, ok, raise,
  no_return, All, AllBytes,
}
use cwdbg.Slip.{frame}
use cwdbg.Target.{TargetInfo, from_buffer}
use cwdbg.Server.{
  ServerConnection, is_msg_type, is_reply, msg_ack, msg_target_stopped, send_message, recv_message,
  recv_buffer,
}
use cwdbg.Server.Framing.{next_bytes, send_message-sent_one, recv_message-received, received}
use cwdbg.Server.Sequence.{recv_message-seqnum_fits}
use cwdbg.Server.Commands.{
  ServerCommand, Exchange, execute, handle_reply, waits_for_stop, await_stop,
}
use cwdbg.Server.Commands.Replies.{
  Comes, Comes-IsWire, server_message, connection, exchange, with_command, execute_acked,
  execute_sent, execute_unknown,
}

received_stopped :
    (m n k : ℕ) (bytes : Bytes) (rest sent : List Bytes)
    → received (server_message msg_target_stopped m k bytes) bytes (connection n rest sent)
      ≡ (ok (msg_target_stopped, bytes), connection n rest sent)
unfolding is_reply is_msg_type
received_stopped m n k bytes rest sent = ground arith

recv_stopped :
    (m n : ℕ) (bytes extra : Bytes) (chunks rest sent : List Bytes)
    → Comes msg_target_stopped m bytes extra chunks
    → recv_message (connection n (chunks ++ rest) sent)
      ≡ (ok (msg_target_stopped, bytes), connection n rest sent)
recv_stopped m n bytes extra chunks rest sent k =
    recv_message-received (server_message msg_target_stopped m k.checksum bytes) bytes extra chunks
      rest n sent (Comes-IsWire k (omega arith)) k.brings
    ∙ received_stopped m n k.checksum bytes rest sent

abbrev pub acked_after : ℕ → List Bytes → List Bytes → List Bytes
acked_after n rest sent = sent ++ frame (next_bytes (connection n rest sent) msg_ack none) ∷ []

send_ack :
    (n : ℕ) (rest sent : List Bytes)
    → send_message msg_ack none (connection n rest sent)
      ≡ (ok tt, connection (n + 1) rest (acked_after n rest sent))
unfolding is_msg_type is_reply
send_ack n rest sent = send_message-sent_one (connection n rest sent) msg_ack none refl

-- The wait ends with the state of the target, and an ACK goes out.
await_stop-stopped :
    (command : ServerCommand) (m n : ℕ) (bytes extra : Bytes) (chunks rest sent : List Bytes)
    (info : TargetInfo)
    → from_buffer bytes ≡ ok info
    → Comes msg_target_stopped m bytes extra chunks
    → await_stop (exchange command (connection n (chunks ++ rest) sent)) ≡ (
      ok tt,
      exchange
          (record command { target_info = some info })
          (connection (n + 1) rest (acked_after n rest sent)),
    )
unfolding await_stop
await_stop-stopped command m n bytes extra chunks rest sent info read k =
    rw (recv_stopped m n bytes extra chunks rest sent k, send_ack n rest sent) (rw read)

-- With nothing left on the line the wait does not end.
await_stop-silent :
    (command : ServerCommand) (n : ℕ) (sent : List Bytes)
    → await_stop (exchange command (connection n [] sent))
      ≡ (no_return, exchange command (connection n [] sent))
unfolding await_stop recv_message recv_buffer
await_stop-silent command n sent = refl

module _ (command : ServerCommand) (n : ℕ) (bytes extra : Bytes) (chunks sent : List Bytes)
    (known : is_msg_type command.msg_type ≡ true) (plain : is_reply command.msg_type ≡ false)
    (runs : waits_for_stop command.msg_type ≡ true)
    (acked : Comes msg_ack n bytes extra chunks) where
  -- A command that makes the target run ends, when an ACK with the number that is next and
  -- MSG_TARGET_STOPPED come in chunks of their own, with the target's state stored in the command;
  -- the command and an ACK were sent, and the number is two higher.
  pub execute-stopped :
      (m : ℕ) (stopped extra' : Bytes) (chunks' rest : List Bytes) (info : TargetInfo)
      → Comes msg_target_stopped m stopped extra' chunks'
      → from_buffer stopped ≡ ok info
      → execute (exchange command (connection n (chunks ++ (chunks' ++ rest)) sent)) ≡ (
        ok tt,
        exchange
            (record command { error_code = some 0; bytes = some bytes; target_info = some info })
            (connection (n + 1 + 1) rest (
              acked_after
                (n + 1)
                rest
                (with_command command n (chunks ++ (chunks' ++ rest)) sent))),
      )
  execute-stopped m stopped extra' chunks' rest info k read =
      execute_acked command n bytes extra chunks (chunks' ++ rest) sent known plain acked
      ∙ rw runs (
          await_stop-stopped (record command { error_code = some 0; bytes = some bytes }) m (n + 1)
            stopped extra' chunks' rest (with_command command n (chunks ++ (chunks' ++ rest)) sent)
            info read k)

  -- For a command that makes the target run, what came behind the ACK in its chunk is lost, a whole
  -- MSG_TARGET_STOPPED too: if nothing more comes, `execute` does not return.
  pub execute-lost_stop : execute (exchange command (connection n chunks sent)) ≡ (
    no_return,
    exchange
        (record command { error_code = some 0; bytes = some bytes })
        (connection (n + 1) [] (with_command command n chunks sent)),
  )
  execute-lost_stop =
      let all = append-nil chunks in
      subst
        (λ c. execute (exchange command (connection n c sent)) ≡ (
          no_return,
          exchange (record command { error_code = some 0; bytes = some bytes })
              (connection (n + 1) [] (with_command command n c sent)),
        ))
        all
        (execute_acked command n bytes extra chunks [] sent known plain acked
          ∙ rw runs (await_stop-silent _ _ _))

handle_reply_unexpected :
    (t u : ℕ) (bytes : Bytes) (x : Exchange)
    → is_reply u ≡ false
    → handle_reply t (u, bytes) x ≡ (raise connection_error, x)
unfolding handle_reply
handle_reply_unexpected t u bytes x h = rw h refl

no_reply_beyond :
    (c : ServerConnection) (x y : Exchange) (t : ℕ) (r : Outcome (ℕ × Bytes) × ServerConnection)
    → All AllBytes c.incoming
    → 65536 ≤ c.next_seqnum
    → recv_message c ≡ r
    → proceed r.0 (handle_reply t) (record x { conn = r.1 }) ≢ (ok tt, y)
no_reply_beyond c x y t (ok (u, bytes), d) all far p q = elim (Bool-cases (is_reply u)) [
  | inl reply ↦ absurd (omega (arith, recv_message-seqnum_fits c d u bytes all p reply))
  | inr other ↦ cc (handle_reply_unexpected t u bytes (record x { conn = d }) other)
]
no_reply_beyond c x y t (raise e, d) all far p q = cc
no_reply_beyond c x y t (no_return, d) all far p q = cc

-- Once the number of the connection has reached 2 ^ 16, no command is executed any more, unless its
-- own message is a reply: whatever bytes the server sends, `execute` raises or does not return.
pub execute-beyond_seqnum :
    (x y : Exchange)
    → All AllBytes x.conn.incoming
    → is_reply x.command.msg_type ≡ false
    → 65536 ≤ x.conn.next_seqnum
    → execute x ≢ (ok tt, y)
execute-beyond_seqnum x y all plain far e = elim (Bool-cases (is_msg_type x.command.msg_type)) [
  | inl known ↦
      no_reply_beyond
        (connection x.conn.next_seqnum x.conn.incoming
          (with_command x.command x.conn.next_seqnum x.conn.incoming x.conn.sent))
        x y x.command.msg_type _ all far refl
        (sym (execute_sent x.command x.conn.next_seqnum x.conn.incoming x.conn.sent known plain)
          ∙ e)
  | inr unknown ↦ cc (execute_unknown x unknown)
]
