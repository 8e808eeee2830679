-- ===== src/Client/Reachable.antt =====
-- The client of mac/chatkit/cim/core/client.cpp over its life: every state that the program and
-- the callbacks lead to.
use coffee_chat_desktop.Prelude.{ℕ, ◌≡◌, sym, Bool, List, some, ok, Safely, Safely-ok, subst, arith}
use coffee_chat_desktop.Prelude.Int.{ℤ}
use coffee_chat_desktop.Tcp.{Net, ConnectAnswers, ConnectionStatus}
use coffee_chat_desktop.Client.{Client, Event, Protobuf}
use coffee_chat_desktop.Client.Frame.{send}
use coffee_chat_desktop.Client.Session.{
  create, login, logout, on_connection_status_changed, on_timer, login_timeout_events,
  set_connection_callback, set_recv_msg_callback,
}
use coffee_chat_desktop.Client.Receive.{on_message}
use coffee_chat_desktop.Client.Invariant.{Keeps, status_changed-Keeps, on_message-Keeps}
use coffee_chat_desktop.Client.LoggedOut.{
  IsOut, send-IsOut, logout-IsOut, login-IsOut, IsOut-IsKept, on_timer_eq,
}

-- One call of the client's code that ends, or a change to what it looks at.
pub data Step (pb : Protobuf) (c c' : Client) : Type 0 where
  logs_in :
      (name pwd : List ℕ) (cb timeout_cb : Bool) (now : ℕ) (answer : ℤ) (fresh : ℕ)
      (a : ConnectAnswers) (events : List Event)
      → login pb name pwd cb timeout_cb now answer fresh a c ≡ ok (c', events)
      → Step pb c c'
  logs_out :
      (now : ℕ) (answer : ℤ) (events : List Event)
      → logout pb now answer c ≡ ok (c', events)
      → Step pb c c'
  sends :
      (cmd : ℕ) (body : List ℕ) (now : ℕ) (answer r : ℤ) (events : List Event)
      → send cmd body now answer c ≡ ok (r, c', events)
      → Step pb c c'
  line_changes :
      (conn : ℕ) (status : ConnectionStatus) (now : ℕ) (answer : ℤ) (events : List Event)
      → on_connection_status_changed pb conn status now answer c ≡ ok (c', events)
      → Step pb c c'
  receives :
      (bytes : List ℕ) (now : ℕ) (answer : ℤ) (events : List Event)
      → on_message pb bytes now answer c ≡ some (ok (c', events))
      → Step pb c c'
  ticks :
      (now : ℕ) (answer : ℤ) (events : List Event)
      → on_timer pb now answer c ≡ ok (c', events)
      → Step pb c c'
  sets_connection_cb : (cb : Bool) → c' ≡ set_connection_callback cb c → Step pb c c'
  sets_recv_cb : (cb : Bool) → c' ≡ set_recv_msg_callback cb c → Step pb c c'
  net_moves : (net : Net) → c' ≡ record c { net = net } → Step pb c c'

-- The states that a new client gets to.
pub data Reach (pb : Protobuf) : Client → Type 0 where
  created :
      {c : Client} (net : Net) (ip : List ℕ) (port login_time_out keep_alive_time_out : ℕ)
      → create net ip port login_time_out keep_alive_time_out ≡ ok c
      → Reach pb c
  next : {c c' : Client} → Reach pb c → Step pb c c' → Reach pb c'

on_message_end :
    (pb : Protobuf) (bytes : List ℕ) (now : ℕ) (answer : ℤ) (c c' : Client) (events : List Event)
    → IsOut c
    → on_message pb bytes now answer c ≡ some (ok (c', events))
    → IsOut c'
on_message_end pb bytes now answer c c' events out e =
    subst (Keeps pb IsOut (IsOut-IsKept pb) now answer) e
      (on_message-Keeps pb IsOut (IsOut-IsKept pb) now answer bytes c out)

Step-IsOut : (pb : Protobuf) (c c' : Client) → Step pb c c' → IsOut c → IsOut c'
unfolding set_connection_callback set_recv_msg_callback
Step-IsOut pb c c' (logs_in name pwd cb timeout_cb now answer fresh a events e) out =
    Safely-ok _ (c', events) (login-IsOut pb now answer name pwd cb timeout_cb fresh a c out) e
Step-IsOut pb c c' (logs_out now answer events e) out =
    Safely-ok _ (c', events) (logout-IsOut pb now answer c out) e
Step-IsOut pb c c' (sends cmd body now answer r events e) out =
    Safely-ok _ (r, c', events) (send-IsOut cmd body now answer c out) e
Step-IsOut pb c c' (line_changes conn status now answer events e) out =
    Safely-ok _ (c', events)
      (status_changed-Keeps pb IsOut (IsOut-IsKept pb) now answer conn status c out) e
Step-IsOut pb c c' (receives bytes now answer events e) out =
    on_message_end pb bytes now answer c c' events out e
Step-IsOut pb c c' (ticks now answer events e) out =
    Safely-ok (λ q. IsOut q.0) (c', events)
      (subst (λ r. Safely r (λ q. IsOut q.0)) (sym (on_timer_eq pb now answer c out)) out) e
Step-IsOut pb c c' (sets_connection_cb cb e) out = subst IsOut (sym e) out
Step-IsOut pb c c' (sets_recv_cb cb e) out = subst IsOut (sym e) out
Step-IsOut pb c c' (net_moves net e) out = subst IsOut (sym e) out

create-IsOut : (net : Net) (ip : List ℕ) (port lt kt : ℕ) → Safely (create net ip port lt kt) IsOut
unfolding create
create-IsOut net ip port lt kt = ground arith

Reach-IsOut : (pb : Protobuf) (c : Client) → Reach pb c → IsOut c
Reach-IsOut pb c (created net ip port lt kt e) =
    Safely-ok IsOut c (create-IsOut net ip port lt kt) e
Reach-IsOut pb c' (next {c} r s) = Step-IsOut pb c c' s (Reach-IsOut pb c r)

-- In every state that the client gets to it is not logged in, whatever it received, a successful
-- login response included. So the timer never finds a dead line: it leaves the client as it is,
-- and all that it does is to report, each time anew, a login that takes too long.
pub never_logged_in :
    (pb : Protobuf) (c : Client) (now : ℕ) (answer : ℤ)
    → Reach pb c
    → IsOut c × (on_timer pb now answer c ≡ ok (c, login_timeout_events pb now c))
never_logged_in pb c now answer r =
    let out = Reach-IsOut pb c r in (out, on_timer_eq pb now answer c out)
