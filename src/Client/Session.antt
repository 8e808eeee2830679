-- ===== src/Client/Session.antt =====
-- The session of mac/chatkit/cim/core/client.cpp: `login`, `logout`, the connection callback, the
-- timer, and the answer to a login.
use coffee_chat_desktop.Prelude.{
  ℕ, ◌%◌, ◌^◌, Bool, true, false, List, [], ◌∷◌, ◌++◌, Option, none, some, map, if◌then◌else◌, ltb,
  ◌==◌, sub_size, Outcome, ok, ◌>>=◌,
}
use coffee_chat_desktop.Prelude.Int.{ℤ}
use coffee_chat_desktop.Buffer
use coffee_chat_desktop.Buffer.{Buffer, initial_size, cheap_prepend_size}
use coffee_chat_desktop.Md5.{md5_of}
use coffee_chat_desktop.Tcp
use coffee_chat_desktop.Tcp.{
  Net, ConnectAnswers, ConnectionStatus, disconnected, is_connect_ok, new_client, set_client,
}
use coffee_chat_desktop.Client.{
  default, Client, Event, tcp, login_result, login_failed, login_timeout, connection_changed,
  LoginStatus, logining, login_ok, AuthRsp, Protobuf, cmd_msg_data, cmd_logout_req, cmd_auth_req,
  err_success, err_internal_error,
}
use coffee_chat_desktop.Client.Frame.{send}

-- "unknow"
abbrev pub unknown_name : List ℕ
unknown_name = b'u' ∷ b'n' ∷ b'k' ∷ b'n' ∷ b'o' ∷ b'w' ∷ []

abbrev pub is_login_ok : LoginStatus → Bool
is_login_ok login_ok = true
is_login_ok _ = false

abbrev pub is_logining : LoginStatus → Bool
is_logining logining = true
is_logining _ = false

-- `tcp_client_->close(); tcp_client_ = nullptr`, if there is one. If this was the last reference,
-- the destructor closes once more.
unfoldable pub drop_client : Option ℕ → Client → Client × List Event
drop_client none c = (c, [])
drop_client (some i) c =
    let (net', effects) = Tcp.close i c.net in
    (record c { net = net'; tcp_client = none }, map tcp effects)

-- The constructor, with the settings that the client reads later. What it reads before it is set
-- has an initial value there.
unfoldable pub create : Net → List ℕ → ℕ → ℕ → ℕ → Outcome Client
create net ip port login_time_out keep_alive_time_out = do
  b ← Buffer.create initial_size cheap_prepend_size
  ok (record {
    net = net;
    tcp_client = none;
    recv_buffer = b;
    login_status = default;
    last_login_time = 0;
    last_send_time = 0;
    last_recv_time = 0;
    login_cb = false;
    login_timeout_cb = false;
    connection_cb = false;
    recv_cb = false;
    user_name = [];
    user_pwd = [];
    user_id = 0;
    seq = 0;
    server_ip = ip;
    gate_port = port;
    login_time_out = login_time_out;
    keep_alive_time_out = keep_alive_time_out;
  })

-- `setConnectionCallback(cb)`, and `setRecvMsgCallback(cb)` of the chat manager.
unfoldable pub set_connection_callback : Bool → Client → Client
set_connection_callback cb c = record c { connection_cb = cb }

unfoldable pub set_recv_msg_callback : Bool → Client → Client
set_recv_msg_callback cb c = record c { recv_cb = cb }

module _ (pb : Protobuf) where
  -- `ChatManager::sendMessage(to, msg, msg_data)`, with the nickname that it sets.
  unfoldable pub send_message : ℕ → ℕ → List ℕ → ℕ → ℤ → Client → Outcome (Client × List Event)
  send_message to kind text now answer c = do
    (r, c', events) ←
        send cmd_msg_data (pb.msg_data c.user_id unknown_name kind to text) now answer c
    ok (c', events)

  -- The request that `logout` sends while it is logged in.
  unfoldable pub send_logout : ℕ → ℤ → Client → Outcome (Client × List Event)
  send_logout now answer c =
      if is_login_ok c.login_status
      then (do
        (r, c', events) ←
            send cmd_logout_req (pb.logout_req c.user_id) now answer
              (record c { login_status = default })
        ok (c', events))
      else ok (c, [])

  unfoldable pub logout : ℕ → ℤ → Client → Outcome (Client × List Event)
  logout now answer c = do
    (c1, events) ← send_logout now answer c
    let (c2, more) = drop_client c1.tcp_client (record c1 { login_status = default })
    ok (c2, events ++ more)

  -- A new `TcpClient` at the address `fresh`, with both callbacks bound, if there is none.
  unfoldable pub make_client : ℕ → Option ℕ → Net → ℕ × Net
  make_client fresh none net =
      (fresh, set_client fresh (record new_client { connection_cb = true; message_cb = true }) net)
  make_client fresh (some i) net = (i, net)

  -- `login(user_name, pwd, cb, timeout_cb)`; what `connect` returns is not looked at.
  unfoldable pub login :
      List ℕ
      → List ℕ
      → Bool
      → Bool
      → ℕ
      → ℤ
      → ℕ
      → ConnectAnswers
      → Client
      → Outcome (Client × List Event)
  login name pwd cb timeout_cb now answer fresh answers c = do
    (c1, events) ← logout now answer c
    let (i, net') = make_client fresh c1.tcp_client c1.net
    (done, net'', effects) ← Tcp.connect i c1.server_ip c1.gate_port answers net'
    ok (
      record c1 {
        login_cb = cb;
        login_timeout_cb = timeout_cb;
        login_status = logining;
        last_login_time = now;
        user_name = name;
        user_pwd = md5_of pwd;
        tcp_client = some i;
        net = net'';
      },
      events ++ map tcp effects,
    )

  -- The two branches of `onConnectionStatusChanged`.
  unfoldable pub on_connected : ℕ → ℤ → Client → Outcome (Client × List Event)
  on_connected now answer c = do
    (r, c', events) ← send cmd_auth_req (pb.auth_req c.user_name c.user_pwd) now answer c
    ok (c', events)

  unfoldable pub on_disconnected : ℕ → ℤ → Client → Outcome (Client × List Event)
  on_disconnected now answer c = do
    let told =
        if is_logining c.login_status
        then (if c.login_cb then login_failed err_internal_error ∷ [] else [])
        else []
    (c', events) ← logout now answer c
    ok (c', told ++ events)

  -- `onConnectionStatusChanged(conn, status)`
  unfoldable pub on_connection_status_changed :
      ℕ → ConnectionStatus → ℕ → ℤ → Client → Outcome (Client × List Event)
  on_connection_status_changed conn status now answer c = do
    (c', events) ←
        if is_connect_ok status then on_connected now answer c else on_disconnected now answer c
    ok (c', events ++ (if c'.connection_cb then connection_changed (some conn) status ∷ [] else []))

  -- The check of the login time-out in `onTimer`; the setting is cut to 16 bits.
  unfoldable pub login_timeout_events : ℕ → Client → List Event
  login_timeout_events cur_time c =
      if is_logining c.login_status
      then (if ltb (c.login_time_out % 2 ^ 16) (sub_size cur_time c.last_login_time)
          then (if c.login_timeout_cb then login_timeout ∷ [] else [])
          else [])
      else []

  -- `onTimer(handle)`
  unfoldable pub on_timer : ℕ → ℤ → Client → Outcome (Client × List Event)
  on_timer cur_time answer c =
      let told = login_timeout_events cur_time c in
      if is_login_ok c.login_status
      then (if ltb (c.keep_alive_time_out % 2 ^ 16) (sub_size cur_time c.last_recv_time)
          then (do
            (c', events) ← logout cur_time answer c
            ok (
              c',
              told
                  ++ (events
                      ++ (if c'.connection_cb
                          then connection_changed c'.tcp_client disconnected ∷ []
                          else [])),
            ))
          else ok (c, told))
      else ok (c, told)

  -- `onHandleAuthRsp`: a response that does not parse is dropped with the buffer as it is.
  unfoldable pub on_auth_rsp : Option AuthRsp → ℕ → ℤ → Client → Outcome (Client × List Event)
  on_auth_rsp none now answer c = ok (c, [])
  on_auth_rsp (some rsp) now answer c = do
    buffer ← Buffer.skip c.recv_buffer rsp.byte_size
    let c0 : Client = record c { recv_buffer = buffer }
    (c', events) ← if rsp.result_code == err_success then ok (c0, []) else logout now answer c0
    ok (c', events ++ (if c'.login_cb then login_result rsp ∷ [] else []))
