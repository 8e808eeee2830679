-- ===== src/System/Steps.antt =====
-- The client and its connection over their life: what holds after any sequence of calls and events.
use coffee_chat_desktop.Prelude.{
  ℕ, ◌≡◌, ◌≢◌, refl, sym, subst, Bool, List, some, ok, Safely, Safely-ok, Safely-bind,
}
use coffee_chat_desktop.Prelude.Int.{ℤ, minus_one}
use coffee_chat_desktop.Buffer
use coffee_chat_desktop.Buffer.{initial_size, cheap_prepend_size}
use coffee_chat_desktop.Tcp.{ConnectAnswers, StreamHandle, on_connect, on_read}
use coffee_chat_desktop.Tcp.Registry.{on_connect-IsConsistent, on_read-IsConsistent}
use coffee_chat_desktop.Tcp.Lifecycle.{empty_net, empty_net-IsConsistent}
use coffee_chat_desktop.Client.{Client, Event, Protobuf}
use coffee_chat_desktop.Client.Frame.{send}
use coffee_chat_desktop.Client.Session.{create, login, logout, on_timer}
use coffee_chat_desktop.Client.Invariant.{anyhow}
use coffee_chat_desktop.Client.LoggedOut.{on_timer_eq}
use coffee_chat_desktop.System.{Run, on_connect_event, on_read_event}
use coffee_chat_desktop.System.Invariant.{
  IsSound, IsFresh, EndsSound, logout-IsSound, send-IsSound, login-IsSound, deliver-EndsSound,
}

-- One call of the program, or one event of libuv, that ends.
pub data Step (pb : Protobuf) (c c' : Client) : Type 0 where
  logs_in :
      (name pwd : List ℕ) (cb timeout_cb : Bool) (now : ℕ) (answer : ℤ) (fresh : ℕ)
      (a : ConnectAnswers) (events : List Event)
      → IsFresh fresh c.net
      → a.fileno ≢ minus_one
      → login pb name pwd cb timeout_cb now answer fresh a c ≡ ok (c', events)
      → Step pb c c'
  logs_out :
      (now : ℕ) (answer : ℤ) (events : List Event)
      → logout pb now answer c ≡ ok (c', events)
      → Step pb c c'
  sends :
      (cmd : ℕ) (body : List ℕ) (now : ℕ) (answer r : ℤ) (events : List Event)
      → send cmd body now answer c ≡ ok (r, c', events)
      → Step pb c c'
  ticks :
      (now : ℕ) (answer : ℤ) (events : List Event)
      → on_timer pb now answer c ≡ ok (c', events)
      → Step pb c c'
  uv_connects :
      (now : ℕ) (answer : ℤ) (h : StreamHandle) (status : ℤ) (events : List Event)
      → on_connect_event pb now answer h status c ≡ some (ok (c', events))
      → Step pb c c'
  uv_reads :
      (now : ℕ) (answer : ℤ) (h : StreamHandle) (nread : ℤ) (bytes : List ℕ) (events : List Event)
      → on_read_event pb now answer h nread bytes c ≡ some (ok (c', events))
      → Step pb c c'
  loops : (b : Bool) → c' ≡ record c { net = record (c.net) { loop_is_run = b } } → Step pb c c'

pub data Reach (pb : Protobuf) : Client → Type 0 where
  created :
      {c : Client} (ip : List ℕ) (port login_time_out keep_alive_time_out : ℕ)
      → create empty_net ip port login_time_out keep_alive_time_out ≡ ok c
      → Reach pb c
  next : {c c' : Client} → Reach pb c → Step pb c c' → Reach pb c'

run_end :
    (c' : Client) (events : List Event) (m : Run)
    → m ≡ some (ok (c', events))
    → EndsSound m
    → IsSound c'
run_end c' events m e h = subst EndsSound e h

pub Step-IsSound : (pb : Protobuf) (c c' : Client) → Step pb c c' → IsSound c → IsSound c'
unfolding on_connect_event on_read_event
Step-IsSound pb c c' (logs_in name pwd cb timeout_cb now answer fresh a events f valid e) s =
    Safely-ok (λ r. IsSound r.0) (c', events)
      (login-IsSound pb name pwd cb timeout_cb now answer fresh a c s f valid) e
Step-IsSound pb c c' (logs_out now answer events e) s =
    Safely-ok (λ r. IsSound r.0) (c', events) (logout-IsSound pb now answer c s) e
Step-IsSound pb c c' (sends cmd body now answer r events e) s =
    Safely-ok (λ r. IsSound r.1) (r, c', events) (send-IsSound cmd body now answer c s) e
Step-IsSound pb c c' (ticks now answer events e) s =
    Safely-ok (λ q. IsSound q.0) (c', events)
      (subst (λ r. Safely r (λ q. IsSound q.0)) (sym (on_timer_eq pb now answer c s.0)) s) e
Step-IsSound pb c c' (uv_connects now answer h status events e) s = run_end c' events _ e (
    deliver-EndsSound pb now answer (on_connect h status c.net) c s.0
      (on_connect-IsConsistent h status c.net s.1))
Step-IsSound pb c c' (uv_reads now answer h nread bytes events e) s = run_end c' events _ e (
    deliver-EndsSound pb now answer (on_read h nread bytes c.net) c s.0
      (on_read-IsConsistent h nread bytes c.net s.1))
Step-IsSound pb c c' (loops b e) s =
    subst IsSound (sym e) (s.0, record { owned = s.1.owned; no_invalid = s.1.no_invalid })

create-IsSound : (ip : List ℕ) (port lt kt : ℕ) → Safely (create empty_net ip port lt kt) IsSound
unfolding create
create-IsSound ip port lt kt =
    let buffer = Buffer.create initial_size cheap_prepend_size in
    Safely-bind (λ b. Unit {0}) IsSound buffer _ (anyhow buffer)
      (λ b u. (refl, empty_net-IsConsistent))

-- Whatever the program calls and whatever events and bytes libuv brings, as long as a login makes
-- its `TcpClient` at an address that is not in the map, and libuv gives out descriptors that are
-- not -1: the client is not logged in, an event on a descriptor reaches only an object that holds
-- it, and none is reached under -1.
pub Reach-IsSound : (pb : Protobuf) {c : Client} → Reach pb c → IsSound c
Reach-IsSound pb (created {c} ip port lt kt e) =
    Safely-ok IsSound c (create-IsSound ip port lt kt) e
Reach-IsSound pb (next {c} {c'} r st) = Step-IsSound pb c c' st (Reach-IsSound pb r)
