-- ===== src/System/Loss.antt =====
-- A connection that breaks while a login waits for its answer, through `TcpClient` and `Client`.
use coffee_chat_desktop.Prelude.{
  ℕ, ◌≡◌, ◌≢◌, refl, ap, ◌∙◌, true, false, List, [], ◌∷◌, ◌++◌, Option, none, some, ok, ==_iff,
  arith,
}
use coffee_chat_desktop.Prelude.Int.{ℤ, pos, negsuc, minus_one, ==ℤ_iff}
use coffee_chat_desktop.Tcp.{
  Net, StreamHandle, uv_close, freed, connection_callback, disconnected, connect_ok, find_conn,
  find_tcp_client, lose, close, close_effects, set_client, set_connection_status, on_read,
}
use coffee_chat_desktop.Tcp.Registry.{find_conn-erase_conn}
use coffee_chat_desktop.Client.{
  logining, Client, Event, Protobuf, tcp, login_failed, err_internal_error,
}
use coffee_chat_desktop.Client.Session.{is_login_ok, drop_client, on_connection_status_changed}
use coffee_chat_desktop.Client.Answers.{logged_out}
use coffee_chat_desktop.Client.Callbacks.{reported, status_lost_lem}
use coffee_chat_desktop.System.{on_read_event, deliver, dispatch, notify, and_then, with_events}
use coffee_chat_desktop.System.Wiring.{IsWired}

-- The effects that a handle's close has.
abbrev pub closing : Option ℕ → List Event
closing none = []
closing (some h) = tcp (uv_close h) ∷ []

-- The handler's own part.
on_read-lose :
    (this : ℕ) (h : StreamHandle) (err : ℕ) (net : Net)
    → h.fileno_ret ≡ pos 0
    → h.fd ≢ minus_one
    → IsWired this h.fd connect_ok net
    → (lost : Net) × (on_read h (negsuc err) [] net
        ≡ ok (
          lost,
          (close_effects (net.clients this).tcp_handle
                ++ (connection_callback this disconnected ∷ []))
              ++ (freed ∷ []),
        ))
      × (find_conn h.fd lost.conn_map ≡ none)
      × ((lost.clients this).tcp_handle ≡ none)
      × (lost.loop_is_run ≡ net.loop_is_run)
unfolding on_read find_tcp_client lose close set_connection_status set_client
on_read-lose this h err net ret valid w = (
  (lose (some this) net).0,
  rw (ret, w.live.found) (ground (arith, ==_iff this this, w.tells_status)),
  ground (
    arith,
    w.live.holds,
    ==ℤ_iff h.fd minus_one,
    ==ℤ_iff h.fd h.fd,
    find_conn-erase_conn h.fd h.fd net.conn_map,
  ),
  ground (arith, ==_iff this this),
  refl,
)

-- The callback between the two effects of the handler.
dispatch-lose :
    (pb : Protobuf) (now : ℕ) (answer : ℤ) (this : ℕ) (o : Option ℕ) (c c' : Client)
    (events : List Event)
    → on_connection_status_changed pb this disconnected now answer c ≡ ok (c', events)
    → dispatch pb now answer
        ((close_effects o ++ (connection_callback this disconnected ∷ [])) ++ (freed ∷ []))
        c
      ≡ some (ok (c', closing o ++ (events ++ (tcp freed ∷ []))))
unfolding dispatch notify and_then with_events close_effects
dispatch-lose pb now answer this none c c' events e = rw e refl
dispatch-lose pb now answer this (some h) c c' events e = rw e refl

-- The client's own close finds the line closed.
logged_out-closed :
    (c : Client) (this : ℕ) (fd : ℤ)
    → c.tcp_client ≡ some this
    → (c.net.clients this).tcp_handle ≡ none
    → find_conn fd c.net.conn_map ≡ none
    → ((logged_out c).1 ≡ [])
      × ((logged_out c).0.tcp_client ≡ none)
      × (is_login_ok (logged_out c).0.login_status ≡ false)
      × (find_conn fd (logged_out c).0.net.conn_map ≡ none)
      × ((logged_out c).0.net.loop_is_run ≡ c.net.loop_is_run)
unfolding logged_out drop_client close close_effects set_client
logged_out-closed c this fd own closed gone = rw own (
  rw closed refl,
  refl,
  refl,
  ground (arith, gone, find_conn-erase_conn (c.net.clients this).sock_fd fd c.net.conn_map),
  refl,
)

-- When the line of a client that waits for the answer to its login breaks, the read event that says
-- so closes the handle, tells the login callback once that the login failed, and reports the line;
-- the client then has no connection and is not logged in, the descriptor reaches nobody, and the
-- loop runs as before, so that the client can log in anew.
pub login_lost_lem :
    (pb : Protobuf) (now err this : ℕ) (answer : ℤ) (h : StreamHandle) (c : Client)
    → h.fileno_ret ≡ pos 0
    → h.fd ≢ minus_one
    → IsWired this h.fd connect_ok c.net
    → c.tcp_client ≡ some this
    → c.login_status ≡ logining
    → c.login_cb ≡ true
    → (c' : Client) × (on_read_event pb now answer h (negsuc err) [] c
        ≡ some (
            ok (
              c',
              closing (c.net.clients this).tcp_handle
                  ++ ((login_failed err_internal_error ∷ reported this disconnected c)
                      ++ (tcp freed ∷ [])),
            )))
      × (c'.tcp_client ≡ none)
      × (is_login_ok c'.login_status ≡ false)
      × (find_conn h.fd c'.net.conn_map ≡ none)
      × (c'.net.loop_is_run ≡ c.net.loop_is_run)
unfolding on_read_event deliver
login_lost_lem pb now err this answer h c ret valid w own waits cb =
    let (lost, e, gone, closed, runs) = on_read-lose this h err c.net ret valid w in
    let c1 : Client = record c { net = lost } in
    let out = logged_out-closed c1 this h.fd own closed gone in
    let told = status_lost_lem pb this now disconnected answer c1 refl (rw waits refl) in
    (
      (logged_out c1).0,
      ap (λ r. deliver pb now answer r c) e
          ∙ dispatch-lose pb now answer this (c.net.clients this).tcp_handle c1 (logged_out c1).0 _
              told
          ∙ rw (out.0, waits, cb) refl,
      out.1,
      out.2,
      out.3,
      out.4 ∙ runs,
    )
