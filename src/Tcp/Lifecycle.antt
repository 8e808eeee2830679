-- ===== src/Tcp/Lifecycle.antt =====
-- The life of a connection of mac/chatkit/cim/base/tcp_client.cpp, and what holds after any
-- history.
use coffee_chat_desktop.Prelude.{
  ℕ, ◌≡◌, ◌≢◌, refl, sym, Bool, true, false, List, [], none, some, ==_iff, arith, ok, Returns,
  Returns-mono, Safely-ok, subst,
}
use coffee_chat_desktop.Prelude.Int.{ℤ, pos, negsuc, minus_one, ==ℤ_iff}
use coffee_chat_desktop.Tcp.{
  Net, ConnectAnswers, StreamHandle, Effect, ConnectionStatus, connecting, disconnected, connect_ok,
  find_conn, set_client, close, start_connect, prepare, connect, connected, on_connect, on_read,
  find_tcp_client, lose, set_connection_status, set_connection_callback, set_message_callback,
  new_client,
}
use coffee_chat_desktop.Tcp.Registry.{
  IsConsistent, find_conn-put_conn, find_conn-erase_conn, close-IsConsistent, connect-IsConsistent,
  on_connect-IsConsistent, on_read-IsConsistent, set_connection_callback-IsConsistent,
  set_message_callback-IsConsistent,
}

-- One thing that the program or libuv does.
pub data Move (net net' : Net) : Type 0 where
  connects :
      (this : ℕ) (ip : List ℕ) (port : ℕ) (a : ConnectAnswers) (done : Bool) (effects : List Effect)
      → a.fileno ≢ minus_one
      → connect this ip port a net ≡ ok (done, net', effects)
      → Move net net'
  closes : (this : ℕ) → net' ≡ (close this net).0 → Move net net'
  sets_connection_callback : (this : ℕ) → net' ≡ set_connection_callback this net → Move net net'
  sets_message_callback : (this : ℕ) → net' ≡ set_message_callback this net → Move net net'
  uv_connects :
      (h : StreamHandle) (status : ℤ) (effects : List Effect)
      → on_connect h status net ≡ ok (net', effects)
      → Move net net'
  uv_reads :
      (h : StreamHandle) (nread : ℤ) (bytes : List ℕ) (effects : List Effect)
      → on_read h nread bytes net ≡ ok (net', effects)
      → Move net net'
  loops : (b : Bool) → net' ≡ record net { loop_is_run = b } → Move net net'

pub data Reach (net : Net) : Net → Type 0 where
  here : Reach net net
  next : {mid net' : Net} → Reach net mid → Move mid net' → Reach net net'

pub Move-IsConsistent : (net net' : Net) → Move net net' → IsConsistent net → IsConsistent net'
Move-IsConsistent net net' (connects this ip port a done effects h e) v =
    Safely-ok _ (done, net', effects) (connect-IsConsistent this ip port a net v h) e
Move-IsConsistent net net' (closes this e) v =
    subst IsConsistent (sym e) (close-IsConsistent net this v)
Move-IsConsistent net net' (sets_connection_callback this e) v =
    subst IsConsistent (sym e) (set_connection_callback-IsConsistent this net v)
Move-IsConsistent net net' (sets_message_callback this e) v =
    subst IsConsistent (sym e) (set_message_callback-IsConsistent this net v)
Move-IsConsistent net net' (uv_connects h status effects e) v =
    Safely-ok _ (net', effects) (on_connect-IsConsistent h status net v) e
Move-IsConsistent net net' (uv_reads h nread bytes effects e) v =
    Safely-ok _ (net', effects) (on_read-IsConsistent h nread bytes net v) e
Move-IsConsistent net net' (loops b e) v =
    subst IsConsistent (sym e) (record { owned = v.owned; no_invalid = v.no_invalid })

-- No object, no connection.
abbrev pub empty_net : Net
empty_net = record { clients = λ i. new_client; conn_map = []; loop_is_run = false }

pub empty_net-IsConsistent : IsConsistent empty_net
unfolding find_conn
empty_net-IsConsistent = record { owned = λ fd i e. absurd (cc e); no_invalid = refl }

-- Whatever the program and libuv did so far, as long as libuv gives out no descriptor that is -1,
-- an event on a descriptor reaches only an object that holds this descriptor, and never one under
-- -1.
pub Reach-IsConsistent : {net : Net} → Reach empty_net net → IsConsistent net
Reach-IsConsistent here = empty_net-IsConsistent
Reach-IsConsistent (next {mid} {net'} r m) = Move-IsConsistent mid net' m (Reach-IsConsistent r)

-- The object holds the descriptor, is found under it, and has the status.
pub record IsLive (this : ℕ) (fd : ℤ) (status : ConnectionStatus) (net : Net) : Type 0 where
  pub holds : (net.clients this).sock_fd ≡ fd
  pub state : (net.clients this).connect_status ≡ status
  pub found : find_conn fd net.conn_map ≡ some this

-- The line is down, and events on the descriptor reach nobody.
pub record IsLost (this : ℕ) (fd : ℤ) (net : Net) : Type 0 where
  pub state : (net.clients this).connect_status ≡ disconnected
  pub no_handle : (net.clients this).tcp_handle ≡ none
  pub gone : find_conn fd net.conn_map ≡ none

start_connect_done :
    (this : ℕ) (a : ConnectAnswers) (net : Net)
    → a.tcp_connect ≡ pos 0
    → ((start_connect this a net).0 ≡ true)
      × IsLive this a.fileno connecting (start_connect this a net).1
unfolding start_connect
start_connect_done this a net done = rw done (
  refl,
  record {
    holds = ground (arith, ==_iff this this);
    state = ground (arith, ==_iff this this);
    found =
        ground (
          arith,
          find_conn-put_conn a.fileno a.fileno this net.conn_map,
          ==ℤ_iff a.fileno a.fileno,
        );
  },
)

pub connect_done :
    (this : ℕ) (ip : List ℕ) (port : ℕ) (a : ConnectAnswers) (net : Net)
    → net.loop_is_run ≡ true
    → a.tcp_init ≢ minus_one
    → a.ip4_addr ≢ minus_one
    → a.tcp_connect ≡ pos 0
    → Returns (connect this ip port a net) (λ r. (r.0 ≡ true) × IsLive this a.fileno connecting r.1)
unfolding connect
connect_done this ip port a net run init addr done = ground (
  arith,
  ==ℤ_iff a.tcp_init minus_one,
  ==ℤ_iff a.ip4_addr minus_one,
  start_connect_done this a (prepare this ip port a.handle net) done,
)

pub on_connect_done :
    (this : ℕ) (h : StreamHandle) (net : Net)
    → h.fileno_ret ≡ pos 0
    → IsLive this h.fd connecting net
    → Returns (on_connect h (pos 0) net) (λ s. IsLive this h.fd connect_ok s.0)
unfolding on_connect find_tcp_client connected set_connection_status set_client
on_connect_done this h net ret live =
    rw (ret, live.found)
      (record {
        holds = ground (arith, ==_iff this this, live.holds);
        state = ground (arith, ==_iff this this);
        found = live.found;
      })

-- A failed read, end of file included, takes the object down and out of the map.
pub on_read-IsLost :
    (this : ℕ) (h : StreamHandle) (err : ℕ) (status : ConnectionStatus) (net : Net)
    → h.fileno_ret ≡ pos 0
    → h.fd ≢ minus_one
    → IsLive this h.fd status net
    → Returns (on_read h (negsuc err) [] net) (λ t. IsLost this h.fd t.0)
unfolding on_read find_tcp_client lose close set_connection_status set_client
on_read-IsLost this h err status net ret valid live =
    rw (ret, live.found)
      (record {
        state = ground (arith, ==_iff this this);
        no_handle = ground (arith, ==_iff this this);
        gone = ground (
          arith,
          ==_iff this this,
          live.holds,
          ==ℤ_iff h.fd minus_one,
          ==ℤ_iff h.fd h.fd,
          find_conn-erase_conn h.fd h.fd net.conn_map,
        );
      })

-- A connection from `connect` to the loss of the line, with the loop running: the calls of libuv
-- succeed and give out a descriptor that is not -1, the connect event comes, and then a read
-- fails on the same descriptor. Each step returns; the object goes from connecting over
-- connected to disconnected, is found under its descriptor until the end, and then is not.
pub connect-IsLost :
    (this : ℕ) (ip : List ℕ) (port : ℕ) (a : ConnectAnswers) (net : Net) (err : ℕ)
    → net.loop_is_run ≡ true
    → a.tcp_init ≢ minus_one
    → a.ip4_addr ≢ minus_one
    → a.tcp_connect ≡ pos 0
    → a.fileno ≢ minus_one
    → let h : StreamHandle = record { handle = a.handle; fileno_ret = pos 0; fd = a.fileno } in
      Returns (connect this ip port a net) (λ r.
        (r.0 ≡ true)
        × IsLive this a.fileno connecting r.1
        × Returns (on_connect h (pos 0) r.1) (λ s.
          IsLive this a.fileno connect_ok s.0
          × Returns (on_read h (negsuc err) [] s.0) (λ t. IsLost this a.fileno t.0)))
connect-IsLost this ip port a net err run init addr done valid =
    let h : StreamHandle = record { handle = a.handle; fileno_ret = pos 0; fd = a.fileno } in
    Returns-mono _ _ (connect this ip port a net)
      (connect_done this ip port a net run init addr done)
      (λ r c. (
        c.0,
        c.1,
        Returns-mono _ _ (on_connect h (pos 0) r.1) (on_connect_done this h r.1 refl c.1)
            (λ s l. (l, on_read-IsLost this h err connect_ok s.0 refl valid l)),
      ))
