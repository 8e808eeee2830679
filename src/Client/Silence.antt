-- ===== src/Client/Silence.antt =====
-- Which code of mac/chatkit/cim/core/client.cpp passes no response of the server to the login
-- callback: all but `onMessage`.
use coffee_chat_desktop.Prelude.{
  ℕ, ◌≡◌, refl, ◌∙◌, List, [], ◌∷◌, ◌++◌, map, All, All-append, arith, Option, none, some, ok,
  Safely, Safely-bind, Bool-cases, inl, inr, ltb, sub_size, ◌%◌, ◌^◌, ◌>>=◌, if◌then◌else◌, true,
  false, Bool,
}
use coffee_chat_desktop.Prelude.Int.{ℤ}
use coffee_chat_desktop.Tcp.{
  ConnectionStatus, Effect, ConnectAnswers, disconnected, is_connect_ok, connect,
}
use coffee_chat_desktop.Client.{
  default, Client, Event, tcp, sent, login_result, login_failed, login_timeout, connection_changed,
  message_received, Protobuf, cmd_auth_req, cmd_logout_req, err_internal_error,
}
use coffee_chat_desktop.Client.Invariant.{anyhow}
use coffee_chat_desktop.Client.Frame.{send, send_raw, conn_status}
use coffee_chat_desktop.Client.Session.{
  is_login_ok, login, logout, send_logout, drop_client, make_client, on_connected, on_disconnected,
  on_connection_status_changed, on_timer, login_timeout_events,
}

-- No response of the server; the one that the client makes up has the code of a failure.
abbrev pub IsSilent : Event → Type 0
IsSilent (login_result rsp) = ⊥
IsSilent (tcp effect) = Unit {0}
IsSilent (sent bytes) = Unit {0}
IsSilent (login_failed code) = code ≡ err_internal_error
IsSilent login_timeout = Unit {0}
IsSilent (connection_changed conn status) = Unit {0}
IsSilent (message_received text) = Unit {0}

pub tcp-IsSilent : (effects : List Effect) → All IsSilent (map tcp effects)
tcp-IsSilent [] = tt
tcp-IsSilent (effect ∷ effects) = (tt, tcp-IsSilent effects)

-- The buffer stays, and no response is passed on.
abbrev pub Silent : Client → Client × List Event → Type 0
Silent c r = (r.0.recv_buffer ≡ c.recv_buffer) × All IsSilent r.1

pub send-IsSilent :
    (cmd : ℕ) (body : List ℕ) (now : ℕ) (answer : ℤ) (c : Client)
    → Safely (send cmd body now answer c) (λ (r, c', events). Silent c (c', events))
unfolding send send_raw conn_status
send-IsSilent cmd body now answer c = ground arith

drop_client-Silent : (t : Option ℕ) (c : Client) → Silent c (drop_client t c)
unfolding drop_client
drop_client-Silent none c = (refl, tt)
drop_client-Silent (some i) c = (refl, tcp-IsSilent _)

module _ (pb : Protobuf) (now : ℕ) (answer : ℤ) where
  send_logout-Silent : (c : Client) → Safely (send_logout pb now answer c) (Silent c)
  unfolding send_logout
  send_logout-Silent c = ground (
    arith,
    send-IsSilent cmd_logout_req (pb.logout_req c.user_id) now answer
        (record c { login_status = default }),
  )

  pub logout-Silent : (c : Client) → Safely (logout pb now answer c) (Silent c)
  unfolding logout
  logout-Silent c =
      Safely-bind (Silent c) (Silent c) (send_logout pb now answer c) _ (send_logout-Silent c)
        (λ r s.
          let dropped = drop_client-Silent r.0.tcp_client (record r.0 { login_status = default }) in
          (dropped.0 ∙ s.0, All-append IsSilent r.1 _ s.1 dropped.1))

  pub login-Silent :
      (name pwd : List ℕ) (cb timeout_cb : Bool) (fresh : ℕ) (a : ConnectAnswers) (c : Client)
      → Safely (login pb name pwd cb timeout_cb now answer fresh a c) (Silent c)
  unfolding login
  login-Silent name pwd cb timeout_cb fresh a c =
      Safely-bind (Silent c) (Silent c) (logout pb now answer c) _ (logout-Silent c) (λ r s.
        let (i, net) = make_client pb fresh r.0.tcp_client r.0.net in
        let done = connect i r.0.server_ip r.0.gate_port a net in
        Safely-bind (λ x. Unit {0}) (Silent c) done _ (anyhow done)
          (λ x u. (s.0, All-append IsSilent r.1 _ s.1 (tcp-IsSilent x.2))))

  changed-Silent :
      (status : ConnectionStatus) (c : Client)
      → Safely
          (if is_connect_ok status
            then on_connected pb now answer c
            else on_disconnected pb now answer c)
          (Silent c)
  unfolding on_connected on_disconnected
  changed-Silent status c = ground (
    arith,
    send-IsSilent cmd_auth_req (pb.auth_req c.user_name c.user_pwd) now answer c,
    logout-Silent c,
  )

  reported-IsSilent :
      (t : Bool) (conn : Option ℕ) (status : ConnectionStatus)
      → All IsSilent (if t then connection_changed conn status ∷ [] else [])
  reported-IsSilent true conn status = (tt, tt)
  reported-IsSilent false conn status = tt

  pub status_changed-Silent :
      (conn : ℕ) (status : ConnectionStatus) (c : Client)
      → Safely (on_connection_status_changed pb conn status now answer c) (Silent c)
  unfolding on_connection_status_changed
  status_changed-Silent conn status c =
      Safely-bind (Silent c) (Silent c)
        (if is_connect_ok status
          then on_connected pb now answer c
          else on_disconnected pb now answer c)
        _ (changed-Silent status c)
        (λ r s. (
          s.0,
          All-append IsSilent r.1 _ s.1 (reported-IsSilent r.0.connection_cb (some conn) status),
        ))

  login_timeout_events-IsSilent : (c : Client) → All IsSilent (login_timeout_events pb now c)
  unfolding login_timeout_events
  login_timeout_events-IsSilent c = ground arith

  expired-Silent :
      (told : List Event) (c : Client)
      → All IsSilent told
      → Safely
          (do
            (c', events) ← logout pb now answer c
            ok (
              c',
              told
                  ++ (events
                      ++ (if c'.connection_cb
                          then connection_changed c'.tcp_client disconnected ∷ []
                          else [])),
            ))
          (Silent c)
  expired-Silent told c h =
      Safely-bind (Silent c) (Silent c) (logout pb now answer c) _ (logout-Silent c) (λ r s.
        let told_of = reported-IsSilent r.0.connection_cb r.0.tcp_client disconnected in
        (s.0, All-append IsSilent told _ h (All-append IsSilent r.1 _ s.1 told_of)))

  pub on_timer-Silent : (c : Client) → Safely (on_timer pb now answer c) (Silent c)
  unfolding on_timer
  on_timer-Silent c =
      let told = login_timeout_events-IsSilent c in
      let expired = expired-Silent (login_timeout_events pb now c) c told in
      elim (Bool-cases (is_login_ok c.login_status)) [
        | inr e ↦ rw e (refl, told)
        | inl e ↦
            elim (Bool-cases
              (ltb (c.keep_alive_time_out % 2 ^ 16) (sub_size now c.last_recv_time))) [
                | inl f ↦ rw (e, f) expired
                | inr f ↦ rw (e, f) (refl, told)
              ]
      ]
