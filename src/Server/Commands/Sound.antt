-- ===== src/Server/Commands/Sound.antt =====
-- What `ServerCommand.execute` of host/server.py keeps of the line, and the states of the target that it stores.
use cwdbg.Base.{
  ℕ, ◌≡◌, refl, sym, subst, Bool, true, false, [], ◌∷◌, Option, none, some, Bytes, arith, ok, raise,
  Exec, ◌==◌, ◌>>=◌, ◌>>◌, modify-Keeps, check, value_error, connection_error, index_error,
  server_command_error, Keeps, bind-Keeps, lift-Keeps, if-Keeps, Gives, given-Keeps, lift-Gives,
  Keeps-Gives,
}
use cwdbg.Server.{
  ServerConnection, send_message, recv_message, is_msg_type, is_reply, payload, msg_ack,
  msg_target_stopped,
}
use cwdbg.Server.Sound.{IsSound, send_message-Keeps, recv_message-Gives, check-Keeps}
use cwdbg.Target.{TargetInfo, from_buffer}
use cwdbg.Target.Layout.{IsTargetInfo, from_buffer-IsTargetInfo}
use cwdbg.Target.States.{is_error_code}
use cwdbg.Server.Commands.{
  ServerCommand, Exchange, execute, handle_reply, waits_for_stop, acknowledged, refused, await_stop,
  on_conn, of_outcome, store_target_info,
}
use cwdbg.Server.Commands.New.{IsNew}

-- A state of the target that is well formed, if there is one.
abbrev pub IsKnown : Option TargetInfo → Type 0
IsKnown none = Unit
IsKnown (some info) = IsTargetInfo info

abbrev IsSoundExchange : Exchange → Type 0
IsSoundExchange x = IsSound x.conn × IsKnown x.command.target_info

on_conn-Gives :
    {A : Type 0} {given : A → Type 0} (m : Exec ServerConnection A)
    → Gives IsSound given m
    → Gives IsSoundExchange given (on_conn m)
unfolding on_conn
on_conn-Gives m sound = record {
  keeps = record { kept = λ x h. (sound.keeps.kept x.conn h.0, h.1) };
  gives = λ x h. sound.gives x.conn h.0;
}

on_conn-Keeps :
    {A : Type 0} (m : Exec ServerConnection A) → Keeps IsSound m → Keeps IsSoundExchange (on_conn m)
on_conn-Keeps m sound = (on_conn-Gives m (Keeps-Gives IsSound sound)).keeps

acknowledged-Keeps : (reply : Bytes) → Keeps IsSoundExchange (acknowledged reply)
unfolding acknowledged
acknowledged-Keeps reply = record { kept = λ x h. h }

refused-Keeps : (reply : Bytes) → Keeps IsSoundExchange (refused reply)
unfolding refused
refused-Keeps [] = lift-Keeps IsSoundExchange (raise index_error)
refused-Keeps (code ∷ rest) =
    bind-Keeps IsSoundExchange (modify-Keeps IsSoundExchange (note code) (λ x h. h)) (λ _.
      bind-Keeps IsSoundExchange (check-Keeps IsSoundExchange (is_error_code code) value_error)
        (λ _. lift-Keeps IsSoundExchange (raise server_command_error)))
  where
    note : ℕ → Exchange → Exchange
    note code x = record x { command = record x.command { error_code = some code } }

-- The state that comes in is stored.
await_stop-Keeps : Keeps IsSoundExchange await_stop
unfolding await_stop of_outcome store_target_info is_msg_type payload
await_stop-Keeps =
    given-Keeps IsSoundExchange (on_conn-Gives recv_message recv_message-Gives)
      (λ (msg_type, stopped) all.
        bind-Keeps IsSoundExchange
          (check-Keeps IsSoundExchange (msg_type == msg_target_stopped) connection_error)
          (λ _.
            bind-Keeps IsSoundExchange (on_conn-Keeps (send_message msg_ack none) send_ack-Keeps)
              (λ _.
                given-Keeps IsSoundExchange
                  (lift-Gives IsSoundExchange (from_buffer stopped)
                    (λ info h. from_buffer-IsTargetInfo stopped info all h))
                  (λ info known. record { kept = λ x h. (h.0, known) }))))
  where
    send_ack-Keeps : Keeps IsSound (send_message msg_ack none)
    send_ack-Keeps = send_message-Keeps msg_ack none refl (omega arith)

handle_reply-Keeps :
    (sent_type msg_type : ℕ) (reply : Bytes)
    → Keeps IsSoundExchange (handle_reply sent_type (msg_type, reply))
unfolding handle_reply
handle_reply-Keeps sent_type msg_type reply =
    bind-Keeps IsSoundExchange (check-Keeps IsSoundExchange (is_reply msg_type) connection_error)
      (λ _.
        bind-Keeps IsSoundExchange
          (if-Keeps IsSoundExchange (msg_type == msg_ack) (acknowledged-Keeps reply)
            (refused-Keeps reply))
          (λ _.
            if-Keeps IsSoundExchange (waits_for_stop sent_type) await_stop-Keeps
              (lift-Keeps IsSoundExchange (ok tt))))

module _ (command : ServerCommand) (new : IsNew command) where
  -- The command with the type and the data that it was built with.
  send_new-Keeps :
      (known : Bool)
      → is_msg_type command.msg_type ≡ known
      → Keeps IsSoundExchange (do
        check known value_error
        on_conn (send_message command.msg_type command.bytes)
        received ← on_conn recv_message
        handle_reply command.msg_type received)
  send_new-Keeps true known =
      bind-Keeps IsSoundExchange
        (on_conn-Keeps (send_message command.msg_type command.bytes)
          (send_message-Keeps command.msg_type command.bytes known new.fits))
        (λ _.
          bind-Keeps IsSoundExchange (on_conn-Gives recv_message recv_message-Gives).keeps
            (λ (msg_type, reply). handle_reply-Keeps command.msg_type msg_type reply))
  send_new-Keeps false known = lift-Keeps IsSoundExchange (raise value_error)

  pub execute-kept :
      (conn : ServerConnection)
      → IsSound conn
      → let x = (execute (record { command = command; conn = conn })).1 in
        IsSound x.conn × IsKnown x.command.target_info
  unfolding execute
  execute-kept conn sound =
      (send_new-Keeps (is_msg_type command.msg_type) refl).kept
        (record { command = command; conn = conn }) (sound, subst IsKnown (sym new.no_target) tt)
