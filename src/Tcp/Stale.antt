-- ===== src/Tcp/Stale.antt =====
-- `close()` of mac/chatkit/cim/base/tcp_client.cpp erases by a descriptor that it never resets.
use coffee_chat_desktop.Prelude.{ℕ, ◌≡◌, ◌≢◌, none, some, ==_iff, arith, abort}
use coffee_chat_desktop.Prelude.Int.{pos, minus_one, ==ℤ_iff}
use coffee_chat_desktop.Tcp.{
  Net, StreamHandle, find_conn, close, connected, on_connect, find_tcp_client, set_client,
}
use coffee_chat_desktop.Tcp.Registry.{find_conn-erase_conn}

-- An object that still carries the descriptor of a connection that it lost, or the 0 of the
-- constructor, takes another object that libuv gave this descriptor out of the map when it is
-- closed or destroyed. The other object keeps its state, but its connect event stops at the assert.
pub stale_close :
    (i j : ℕ) (h : StreamHandle) (net : Net)
    → j ≢ i
    → (net.clients i).sock_fd ≡ h.fd
    → h.fd ≢ minus_one
    → find_conn h.fd net.conn_map ≡ some j
    → let net' = (close i net).0 in
      (net'.clients j ≡ net.clients j)
      × (find_conn h.fd net'.conn_map ≡ none)
      × (on_connect h (pos 0) net' ≡ abort)
unfolding close on_connect find_tcp_client connected set_client
stale_close i j h net other stale valid found =
    let erased = find_conn-erase_conn h.fd h.fd net.conn_map in
    (
      ground (arith, ==_iff j i),
      ground (arith, ==ℤ_iff h.fd minus_one, ==ℤ_iff h.fd h.fd, erased),
      ground (arith, ==ℤ_iff h.fd minus_one, ==ℤ_iff h.fd h.fd, erased),
    )
