-- ===== src/Client/Callbacks.antt =====
-- `Client::onConnectionStatusChanged` of mac/chatkit/cim/core/client.cpp: what the client does when
-- its line comes up, and when it goes down.
use coffee_chat_desktop.Prelude.{
  ℕ, ◌+◌, ◌^◌, ◌<◌, ◌≡◌, refl, List, [], ◌∷◌, ◌++◌, length, Option, none, some, ok, false,
  if◌then◌else◌,
}
use coffee_chat_desktop.Prelude.Int.{ℤ}
use coffee_chat_desktop.Tcp.{ConnectionStatus, connect_ok, is_connect_ok}
use coffee_chat_desktop.Client.{
  default, Client, Event, Protobuf, sent, login_failed, connection_changed, header_size,
  cmd_auth_req, err_internal_error,
}
use coffee_chat_desktop.Client.Frame.{next_seq}
use coffee_chat_desktop.Client.Session.{
  is_logining, is_login_ok, on_connected, on_disconnected, on_connection_status_changed,
  drop_client,
}
use coffee_chat_desktop.Client.Packets.{packet}
use coffee_chat_desktop.Client.Sending.{send_lem}
use coffee_chat_desktop.Client.Answers.{logged_out, logout_lem}

-- The call of the connection callback, if there is one.
abbrev pub reported : ℕ → ConnectionStatus → Client → List Event
reported conn status c = if c.connection_cb then connection_changed (some conn) status ∷ [] else []

-- When the line of its `TcpClient` comes up the client sends one packet, the login request with
-- the next sequence number and with the name and the password digest that it stored, if the
-- request fits into 2^31 bytes, and reports the line after that.
pub status_connected_lem :
    (pb : Protobuf) (conn i now : ℕ) (answer : ℤ) (c : Client)
    → c.tcp_client ≡ some i
    → (c.net.clients i).connect_status ≡ connect_ok
    → header_size + length (pb.auth_req c.user_name c.user_pwd) < 2 ^ 31
    → on_connection_status_changed pb conn connect_ok now answer c
      ≡ ok (
        record c { seq = next_seq c.seq; last_send_time = now },
        sent (packet cmd_auth_req (next_seq c.seq) (pb.auth_req c.user_name c.user_pwd))
            ∷ reported conn connect_ok c,
      )
unfolding on_connection_status_changed on_connected
status_connected_lem pb conn i now answer c here up small =
    rw (send_lem cmd_auth_req (pb.auth_req c.user_name c.user_pwd) now answer c i small here, up)
      refl

-- A login that was waiting is told of the lost line.
abbrev pub told_of_loss : Client → List Event
told_of_loss c =
    if is_logining c.login_status
    then (if c.login_cb then login_failed err_internal_error ∷ [] else [])
    else []

drop_client-connection_cb :
    (t : Option ℕ) (c : Client) → (drop_client t c).0.connection_cb ≡ c.connection_cb
unfolding drop_client
drop_client-connection_cb none c = refl
drop_client-connection_cb (some i) c = refl

-- When its line goes down, a client that is not logged in first tells a login that is waiting,
-- then closes and forgets the line, and reports the change last.
pub status_lost_lem :
    (pb : Protobuf) (conn now : ℕ) (status : ConnectionStatus) (answer : ℤ) (c : Client)
    → is_connect_ok status ≡ false
    → is_login_ok c.login_status ≡ false
    → on_connection_status_changed pb conn status now answer c
      ≡ ok ((logged_out c).0, (told_of_loss c ++ (logged_out c).1) ++ reported conn status c)
unfolding on_connection_status_changed on_disconnected logged_out
status_lost_lem pb conn now status answer c down out =
    let kept = drop_client-connection_cb c.tcp_client (record c { login_status = default }) in
    rw (down, logout_lem pb now answer c out, kept) refl
