-- ===== src/System/Wiring.antt =====
-- A connection whose object calls its client back, through `connect`, `onConnect` and `onRead` of
-- mac/chatkit/cim/base/tcp_client.cpp.
use coffee_chat_desktop.Prelude.{
  ℕ, ◌<◌, ◌≡◌, ◌≢◌, refl, true, List, [], ◌∷◌, ok, ==_iff, arith, Returns,
}
use coffee_chat_desktop.Prelude.Int.{ℤ, pos, minus_one, ==ℤ_iff}
use coffee_chat_desktop.Tcp.{
  Net, ConnectAnswers, StreamHandle, ConnectionStatus, connecting, connect_ok, connect,
  start_connect, prepare, on_connect, on_read, find_tcp_client, connected, received,
  set_connection_status, set_client, close, uv_read_start, connection_callback, message_callback,
}
use coffee_chat_desktop.Tcp.Lifecycle.{IsLive, connect_done}

-- The object is under its descriptor, and calls the client back.
pub record IsWired (this : ℕ) (fd : ℤ) (status : ConnectionStatus) (net : Net) : Type 0 where
  pub live : IsLive this fd status net
  pub tells_status : (net.clients this).connection_cb ≡ true
  pub tells_bytes : (net.clients this).message_cb ≡ true

pub connect-IsWired :
    (this : ℕ) (ip : List ℕ) (port : ℕ) (a : ConnectAnswers) (net : Net)
    → (net.clients this).connection_cb ≡ true
    → (net.clients this).message_cb ≡ true
    → net.loop_is_run ≡ true
    → a.tcp_init ≢ minus_one
    → a.ip4_addr ≢ minus_one
    → a.tcp_connect ≡ pos 0
    → Returns (connect this ip port a net) (λ r. IsWired this a.fileno connecting r.1)
unfolding connect start_connect prepare close set_client
connect-IsWired this ip port a net cb mb run init addr done =
    let live = connect_done this ip port a net run init addr done in
    ground
      (arith, ==ℤ_iff a.tcp_init minus_one, ==ℤ_iff a.ip4_addr minus_one, ==_iff this this, live)

pub on_connect-IsWired :
    (this : ℕ) (h : StreamHandle) (net : Net)
    → h.fileno_ret ≡ pos 0
    → IsWired this h.fd connecting net
    → (net' : Net) × IsWired this h.fd connect_ok net'
      × (on_connect h (pos 0) net
          ≡ ok (net', connection_callback this connect_ok ∷ uv_read_start h.handle ∷ []))
unfolding on_connect find_tcp_client connected set_connection_status set_client
on_connect-IsWired this h net ret w = (
  (set_connection_status this connect_ok net).0,
  record {
    live = record {
      holds = ground (arith, ==_iff this this, w.live.holds);
      state = ground (arith, ==_iff this this);
      found = w.live.found;
    };
    tells_status = ground (arith, ==_iff this this, w.tells_status);
    tells_bytes = ground (arith, ==_iff this this, w.tells_bytes);
  },
  rw (ret, w.live.found, w.tells_status) refl,
)

pub on_read-IsWired :
    (this : ℕ) (h : StreamHandle) (n : ℕ) (bytes : List ℕ) (net : Net)
    → h.fileno_ret ≡ pos 0
    → 0 < n
    → IsWired this h.fd connect_ok net
    → on_read h (pos n) bytes net ≡ ok (net, message_callback this bytes ∷ [])
unfolding on_read find_tcp_client received
on_read-IsWired this h n bytes net ret more w = rw (ret, w.live.found, w.tells_bytes) (ground arith)
