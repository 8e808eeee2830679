-- ===== src/System/Login.antt =====
-- A login from the button to the answer, through `Client` and `TcpClient`.
use coffee_chat_desktop.Prelude.{
  ℕ, ◌+◌, ◌^◌, ◌<◌, ◌≡◌, ◌≢◌, refl, sym, ap, ◌∙◌, subst, true, false, List, [], ◌∷◌, ◌++◌, length,
  none, some, ok, ==_iff, arith, Returns, Returns-eq, Returns-mono,
}
use coffee_chat_desktop.Prelude.Int.{ℤ, pos, minus_one}
use coffee_chat_desktop.Buffer.{Buffer}
use coffee_chat_desktop.Buffer.Contents.{Holds}
use coffee_chat_desktop.Md5.{md5_of}
use coffee_chat_desktop.Tcp.{
  Net, ConnectAnswers, StreamHandle, connecting, connect_ok, set_client, uv_read_start, new_client,
}
use coffee_chat_desktop.Client.{
  default, logining, Client, Protobuf, AuthRsp, tcp, sent, login_result, header_size, cmd_auth_req,
  cmd_auth_rsp, err_success,
}
use coffee_chat_desktop.Client.Frame.{next_seq}
use coffee_chat_desktop.Client.Session.{login, make_client, is_login_ok, drop_client}
use coffee_chat_desktop.Client.Packets.{packet}
use coffee_chat_desktop.Client.Delivery.{IsReady, IsSendable}
use coffee_chat_desktop.Client.Answers.{answer_lem, logout_lem, logged_out}
use coffee_chat_desktop.Client.Callbacks.{reported, status_connected_lem}
use coffee_chat_desktop.System.{
  and_then, notify, dispatch, deliver, with_events, on_connect_event, on_read_event,
}
use coffee_chat_desktop.System.Wiring.{
  IsWired, connect-IsWired, on_connect-IsWired, on_read-IsWired,
}

-- What `login` leaves: the connection that it started, the credentials, and all that the answer
-- needs.
record IsAsking (this : ℕ) (fd : ℤ) (name pwd : List ℕ) (old c : Client) : Type 0 where
  wired : IsWired this fd connecting c.net
  own : c.tcp_client ≡ some this
  named : c.user_name ≡ name
  hashed : c.user_pwd ≡ md5_of pwd
  told_to : c.login_cb ≡ true
  waits : c.login_status ≡ logining
  same_buffer : c.recv_buffer ≡ old.recv_buffer
  same_seq : c.seq ≡ old.seq

logged_out_offline :
    (c : Client) → c.tcp_client ≡ none → logged_out c ≡ (record c { login_status = default }, [])
unfolding logged_out drop_client
logged_out_offline c off = rw off refl

login-IsAsking :
    (pb : Protobuf) (name pwd : List ℕ) (now : ℕ) (answer : ℤ) (fresh : ℕ) (a : ConnectAnswers)
    (c : Client)
    → c.tcp_client ≡ none
    → is_login_ok c.login_status ≡ false
    → c.net.loop_is_run ≡ true
    → a.tcp_init ≢ minus_one
    → a.ip4_addr ≢ minus_one
    → a.tcp_connect ≡ pos 0
    → Returns
        (login pb name pwd true true now answer fresh a c)
        (λ r. IsAsking fresh a.fileno name pwd c r.0)
unfolding login make_client set_client
login-IsAsking pb name pwd now answer fresh a c off out run init addr done =
    let net : Net =
      set_client fresh (record new_client { connection_cb = true; message_cb = true }) c.net in
    let ((ret, net', effects), e, w) =
      Returns-eq (λ r. IsWired fresh a.fileno connecting r.1) _
        (connect-IsWired fresh c.server_ip c.gate_port a net (ground (arith, ==_iff fresh fresh))
          (ground (arith, ==_iff fresh fresh)) run init addr done) in
    rw (logout_lem pb now answer c out ∙ ap ok (logged_out_offline c off), off, e)
      (record {
        wired = w;
        own = refl;
        named = refl;
        hashed = refl;
        told_to = refl;
        waits = refl;
        same_buffer = refl;
        same_seq = refl;
      })

-- The connect event sends the login request.
request_lem :
    (pb : Protobuf) (name pwd : List ℕ) (this now : ℕ) (answer : ℤ) (h : StreamHandle)
    (old c : Client)
    → h.fileno_ret ≡ pos 0
    → IsAsking this h.fd name pwd old c
    → header_size + length (pb.auth_req name (md5_of pwd)) < 2 ^ 31
    → (net : Net) × IsWired this h.fd connect_ok net
      × (on_connect_event pb now answer h (pos 0) c
          ≡ some (
              ok (
                record c { net = net; seq = next_seq c.seq; last_send_time = now },
                (sent (packet cmd_auth_req (next_seq old.seq) (pb.auth_req name (md5_of pwd)))
                      ∷ reported this connect_ok c)
                    ++ (tcp (uv_read_start h.handle) ∷ []),
              )))
unfolding on_connect_event deliver dispatch notify and_then with_events
request_lem pb name pwd this now answer h old c ret asks small =
    let (net, w, e) = on_connect-IsWired this h c.net ret asks.wired in
    let told =
      status_connected_lem pb this this now answer (record c { net = net }) asks.own w.live.state
        (rw (asks.named, asks.hashed) small) in
    (net, w, rw (e, told, asks.named, asks.hashed, asks.same_seq) refl)

-- A read event with the answer to the login.
pub answer_event_lem :
    (pb : Protobuf) (body : List ℕ) (rsp : AuthRsp) (this seq now : ℕ) (answer : ℤ)
    (h : StreamHandle) (c : Client)
    → h.fileno_ret ≡ pos 0
    → IsWired this h.fd connect_ok c.net
    → IsReady (header_size + length body + 0) c
    → IsSendable cmd_auth_rsp seq body []
    → pb.parse_auth_rsp body ≡ some rsp
    → rsp.byte_size ≡ length body
    → rsp.result_code ≡ err_success
    → c.login_status ≡ logining
    → c.login_cb ≡ true
    → let p : List ℕ = packet cmd_auth_rsp seq body in
      (b : Buffer) × Holds [] b
      × (on_read_event pb now answer h (pos (length p)) p c
          ≡ some (ok (record c { recv_buffer = b }, login_result rsp ∷ [])))
unfolding on_read_event deliver dispatch notify and_then with_events
answer_event_lem pb body rsp this seq now answer h c ret w ready sendable parses size good waits
      cb =
    let p : List ℕ = packet cmd_auth_rsp seq body in
    let e = on_read-IsWired this h (length p) p c.net ret (omega arith) w in
    let (b, empty, f) =
      answer_lem pb rsp now answer c seq body ready sendable parses size (rw waits refl) in
    (b, empty, rw (e, f, good, cb) refl)

-- A login over a connection that comes up: a client that is not logged in and has no connection
-- starts one, with the loop running, the calls of libuv succeeding, and credentials that fit into
-- 2^31 bytes. Then the connect event sends one packet, the login request with the name and the MD5
-- digest of the password, reports the line and starts to read. When a packet with a successful
-- answer that the parser takes whole is read, smaller than `kMaxBufferLen`, it reaches the login
-- callback, and nothing else happens; the line is still up, and the buffer empty.
pub login_lem :
    (pb : Protobuf) (name pwd body : List ℕ) (rsp : AuthRsp) (now t1 t2 : ℕ) (answer a1 a2 : ℤ)
    (fresh seq : ℕ) (a : ConnectAnswers) (c : Client)
    → c.tcp_client ≡ none
    → is_login_ok c.login_status ≡ false
    → c.net.loop_is_run ≡ true
    → a.tcp_init ≢ minus_one
    → a.ip4_addr ≢ minus_one
    → a.tcp_connect ≡ pos 0
    → header_size + length (pb.auth_req name (md5_of pwd)) < 2 ^ 31
    → IsReady (header_size + length body + 0) c
    → IsSendable cmd_auth_rsp seq body []
    → pb.parse_auth_rsp body ≡ some rsp
    → rsp.byte_size ≡ length body
    → rsp.result_code ≡ err_success
    → let h : StreamHandle = record { handle = a.handle; fileno_ret = pos 0; fd = a.fileno } in
      let p : List ℕ = packet cmd_auth_rsp seq body in
      Returns (login pb name pwd true true now answer fresh a c) (λ r.
        (c2 : Client) × (c3 : Client) × (on_connect_event pb t1 a1 h (pos 0) r.0
          ≡ some (
              ok (
                c2,
                (sent (packet cmd_auth_req (next_seq c.seq) (pb.auth_req name (md5_of pwd)))
                      ∷ reported fresh connect_ok r.0)
                    ++ (tcp (uv_read_start a.handle) ∷ []),
              )))
        × (on_read_event pb t2 a2 h (pos (length p)) p c2 ≡ some (ok (c3, login_result rsp ∷ [])))
        × (c3.tcp_client ≡ some fresh)
        × ((c3.net.clients fresh).connect_status ≡ connect_ok)
        × Holds [] c3.recv_buffer)
login_lem pb name pwd body rsp now t1 t2 answer a1 a2 fresh seq a c off out run init addr done small
      ready sendable parses size good =
    let h : StreamHandle = record { handle = a.handle; fileno_ret = pos 0; fd = a.fileno } in
    Returns-mono (λ r. IsAsking fresh a.fileno name pwd c r.0) _
      (login pb name pwd true true now answer fresh a c)
      (login-IsAsking pb name pwd now answer fresh a c off out run init addr done)
      (λ r asks.
        let (net, w, e) = request_lem pb name pwd fresh t1 a1 h c r.0 refl asks small in
        let c2 : Client = record r.0 { net = net; seq = next_seq (r.0).seq; last_send_time = t1 } in
        let ready2 : IsReady (header_size + length body + 0) c2 = record {
          empty = subst (Holds []) (sym asks.same_buffer) ready.empty;
          room = rw asks.same_buffer ready.room;
        } in
        let (b, empty, f) =
          answer_event_lem pb body rsp fresh seq t2 a2 h c2 refl w ready2 sendable parses size good
            asks.waits asks.told_to in
        (c2, record c2 { recv_buffer = b }, e, f, asks.own, w.live.state, empty))
