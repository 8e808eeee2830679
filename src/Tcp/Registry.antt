-- ===== src/Tcp/Registry.antt =====
-- `g_conn_map` of mac/chatkit/cim/base/tcp_client.cpp: who is found under a descriptor.
use coffee_chat_desktop.Prelude.{
  ℕ, ◌≡◌, ◌≢◌, refl, sym, ap, ◌∙◌, inl, inr, true, List, [], ◌∷◌, Option, none, some, if◌then◌else◌,
  ==_iff, Bool-cases, arith, Safely, subst,
}
use coffee_chat_desktop.Prelude.Int.{ℤ, pos, minus_one, ◌==ℤ◌, ==ℤ_iff}
use coffee_chat_desktop.Tcp.{
  on_connect, on_read, connected, find_tcp_client, lose, set_connection_status, StreamHandle,
  ConnectionStatus, prepare, Net, TcpClient, ConnectAnswers, find_conn, erase_conn, put_conn,
  set_client, close, start_connect, connect, connecting, disconnected, connect_ok,
  set_connection_callback, set_message_callback,
}

pub find_conn-erase_conn :
    (fd j : ℤ) (m : List (ℤ × ℕ))
    → find_conn j (erase_conn fd m) ≡ (if fd ==ℤ j then none else find_conn j m)
unfolding find_conn erase_conn
find_conn-erase_conn fd j [] = ground arith
find_conn-erase_conn fd j ((k, i) ∷ m) =
    ground (arith, ==ℤ_iff k fd, ==ℤ_iff k j, ==ℤ_iff fd j, find_conn-erase_conn fd j m)

pub find_conn-put_conn :
    (fd j : ℤ) (i : ℕ) (m : List (ℤ × ℕ))
    → find_conn j (put_conn fd i m) ≡ (if fd ==ℤ j then some i else find_conn j m)
unfolding put_conn find_conn
find_conn-put_conn fd j i m = ground (arith, find_conn-erase_conn fd j m)

-- Whoever is found under a descriptor holds that descriptor, and nobody is found under -1.
pub record IsConsistent (net : Net) : Type 0 where
  pub owned : (fd : ℤ) (i : ℕ) → find_conn fd net.conn_map ≡ some i → (net.clients i).sock_fd ≡ fd
  pub no_invalid : find_conn minus_one net.conn_map ≡ none

module _ (net : Net) (this : ℕ) where
  -- What is found after `close` was found before, and is another object's if the map was in order.
  pub find_conn-close :
      (fd : ℤ) (i : ℕ)
      → find_conn fd (close this net).0.conn_map ≡ some i
      → find_conn fd net.conn_map ≡ some i
  unfolding close
  find_conn-close fd i =
      ground (arith, find_conn-erase_conn (net.clients this).sock_fd fd net.conn_map)

  sock_fd-close : (i : ℕ) → ((close this net).0.clients i).sock_fd ≡ (net.clients i).sock_fd
  unfolding close
  sock_fd-close i = ground (arith, ==_iff i this)

  find_conn-close-none :
      (fd : ℤ) → find_conn fd net.conn_map ≡ none → find_conn fd (close this net).0.conn_map ≡ none
  unfolding close
  find_conn-close-none fd h =
      ground (arith, find_conn-erase_conn (net.clients this).sock_fd fd net.conn_map)

  pub close-IsConsistent : IsConsistent net → IsConsistent (close this net).0
  close-IsConsistent v = record {
    owned = λ fd i e. sock_fd-close i ∙ v.owned fd i (find_conn-close fd i e);
    no_invalid = find_conn-close-none minus_one v.no_invalid;
  }

  close-erases :
      let fd = (net.clients this).sock_fd in
      fd ≢ minus_one → find_conn fd (close this net).0.conn_map ≡ none
  unfolding close
  close-erases h =
      let fd = (net.clients this).sock_fd in
      ground (arith, find_conn-erase_conn fd fd net.conn_map, ==ℤ_iff fd fd, ==ℤ_iff fd minus_one)

  -- Nothing leads to a closed object, if the map was in order.
  pub close-forgets :
      (fd : ℤ) (i : ℕ)
      → IsConsistent net
      → find_conn fd (close this net).0.conn_map ≡ some i
      → i ≢ this
  close-forgets fd i v e q =
      let before : find_conn fd net.conn_map ≡ some i = find_conn-close fd i e in
      let holds : (net.clients this).sock_fd ≡ fd =
        ap (λ j. (net.clients j).sock_fd) (sym q) ∙ v.owned fd i before in
      let valid : fd ≢ minus_one =
        λ r. cc (subst (λ k. find_conn k net.conn_map ≡ some i) r before, v.no_invalid) in
      cc (
        subst (λ k. find_conn k (close this net).0.conn_map ≡ none) holds
            (close-erases (λ r. valid (sym holds ∙ r))),
        e,
      )

-- A change of an object that keeps its descriptor keeps the map in order.
pub set_client-IsConsistent :
    (this : ℕ) (c : TcpClient) (net : Net)
    → IsConsistent net
    → c.sock_fd ≡ (net.clients this).sock_fd
    → IsConsistent (set_client this c net)
unfolding set_client
set_client-IsConsistent this c net v k = record {
  owned = λ fd i e. ground (arith, ==_iff i this, v.owned fd i);
  no_invalid = v.no_invalid;
}

-- A successful `connect` registers the object under the descriptor that it got, and under no other.
pub start_connect-IsConsistent :
    (this : ℕ) (a : ConnectAnswers) (net : Net)
    → IsConsistent net
    → ((fd : ℤ) (i : ℕ) → find_conn fd net.conn_map ≡ some i → i ≢ this)
    → a.fileno ≢ minus_one
    → IsConsistent (start_connect this a net).1
unfolding start_connect
start_connect-IsConsistent this a net v others h = elim (Bool-cases (a.tcp_connect ==ℤ pos 0)) [
  | inl done ↦ rw done (record {
    owned = λ fd i e. ground (
      arith,
      find_conn-put_conn a.fileno fd this net.conn_map,
      ==ℤ_iff a.fileno fd,
      ==_iff i this,
      v.owned fd i,
      others fd i,
    );
    no_invalid = ground (
      arith,
      find_conn-put_conn a.fileno minus_one this net.conn_map,
      ==ℤ_iff a.fileno minus_one,
      v.no_invalid,
    );
  })
  | inr failed ↦
      let waiting = record (net.clients this) { connect_status = connecting } in
      rw failed (
        close-IsConsistent (set_client this waiting net) this
          (set_client-IsConsistent this waiting net v refl))
]

module _ (this : ℕ) (ip : List ℕ) (port handle : ℕ) (net : Net) (v : IsConsistent net) where
  prepare-IsConsistent : IsConsistent (prepare this ip port handle net)
  unfolding prepare
  prepare-IsConsistent =
      set_client-IsConsistent this _ (close this net).0 (close-IsConsistent net this v) refl

  prepare-forgets :
      (fd : ℤ) (i : ℕ) → find_conn fd (prepare this ip port handle net).conn_map ≡ some i → i ≢ this
  unfolding prepare set_client
  prepare-forgets fd i e = close-forgets net this fd i v e

-- `connect` keeps the map in order on every path that it does not stop at, if the descriptor that
-- libuv gives out is one.
pub connect-IsConsistent :
    (this : ℕ) (ip : List ℕ) (port : ℕ) (a : ConnectAnswers) (net : Net)
    → IsConsistent net
    → a.fileno ≢ minus_one
    → Safely (connect this ip port a net) (λ r. IsConsistent r.1)
unfolding connect
connect-IsConsistent this ip port a net v h =
    let ready = prepare this ip port a.handle net in
    ground (
      arith,
      prepare-IsConsistent this ip port a.handle net v,
      start_connect-IsConsistent this a ready (prepare-IsConsistent this ip port a.handle net v)
          (prepare-forgets this ip port a.handle net v) h,
    )

set_connection_status-IsConsistent :
    (this : ℕ) (status : ConnectionStatus) (net : Net)
    → IsConsistent net
    → IsConsistent (set_connection_status this status net).0
unfolding set_connection_status
set_connection_status-IsConsistent this status net v =
    set_client-IsConsistent this (record (net.clients this) { connect_status = status }) net v refl

lose-IsConsistent :
    (found : Option ℕ) (net : Net) → IsConsistent net → IsConsistent (lose found net).0
unfolding lose
lose-IsConsistent none net v = v
lose-IsConsistent (some i) net v =
    set_connection_status-IsConsistent i disconnected (close i net).0 (close-IsConsistent net i v)

connected-IsConsistent :
    (h : StreamHandle) (found : Option ℕ) (net : Net)
    → IsConsistent net
    → Safely (connected h found net) (λ r. IsConsistent r.0)
unfolding connected
connected-IsConsistent h none net v = tt
connected-IsConsistent h (some i) net v = set_connection_status-IsConsistent i connect_ok net v

pub set_connection_callback-IsConsistent :
    (this : ℕ) (net : Net) → IsConsistent net → IsConsistent (set_connection_callback this net)
unfolding set_connection_callback
set_connection_callback-IsConsistent this net v =
    set_client-IsConsistent this (record (net.clients this) { connection_cb = true }) net v refl

pub set_message_callback-IsConsistent :
    (this : ℕ) (net : Net) → IsConsistent net → IsConsistent (set_message_callback this net)
unfolding set_message_callback
set_message_callback-IsConsistent this net v =
    set_client-IsConsistent this (record (net.clients this) { message_cb = true }) net v refl

-- So do the event handlers, on every event that they do not stop at.
pub on_connect-IsConsistent :
    (h : StreamHandle) (status : ℤ) (net : Net)
    → IsConsistent net
    → Safely (on_connect h status net) (λ r. IsConsistent r.0)
unfolding on_connect find_tcp_client
on_connect-IsConsistent h status net v =
    let found = find_conn h.fd net.conn_map in
    ground (arith, connected-IsConsistent h found net v, lose-IsConsistent found net v)

pub on_read-IsConsistent :
    (h : StreamHandle) (nread : ℤ) (bytes : List ℕ) (net : Net)
    → IsConsistent net
    → Safely (on_read h nread bytes net) (λ r. IsConsistent r.0)
unfolding on_read find_tcp_client
on_read-IsConsistent h nread bytes net v =
    ground (arith, lose-IsConsistent (find_conn h.fd net.conn_map) net v)
