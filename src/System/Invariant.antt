-- ===== src/System/Invariant.antt =====
-- What one call of the client, or one event of libuv, does to the login status and to the map of
-- connections.
use coffee_chat_desktop.Prelude.{
  ℕ, ◌≢◌, refl, sym, subst, Bool, List, [], ◌∷◌, Option, none, some, Outcome, ok, abort, ==_iff,
  arith, Safely, Safely-bind,
}
use coffee_chat_desktop.Prelude.Int.{ℤ, minus_one}
use coffee_chat_desktop.Tcp.{
  Net, ConnectAnswers, Effect, uv_close, uv_read_start, connection_callback, message_callback,
  freed, find_conn, set_client,
}
use coffee_chat_desktop.Tcp.Registry.{
  IsConsistent, find_conn-close, close-IsConsistent, connect-IsConsistent,
}
use coffee_chat_desktop.Client.{default, Client, Event, Protobuf}
use coffee_chat_desktop.Client.Frame.{send, send_raw, conn_status}
use coffee_chat_desktop.Client.Session.{login, logout, make_client, drop_client}
use coffee_chat_desktop.Client.Answers.{logged_out, logout_lem}
use coffee_chat_desktop.Client.Invariant.{IsKept, Keeps, status_changed-Keeps, on_message-Keeps}
use coffee_chat_desktop.Client.LoggedOut.{IsOut, drop_client-IsOut}
use coffee_chat_desktop.Client.Receive.{on_message}
use coffee_chat_desktop.System.{Run, with_events, and_then, notify, dispatch, deliver}

-- The client is not logged in, and the map of connections is in order.
abbrev pub IsSound : Client → Type 0
IsSound c = IsOut c × IsConsistent c.net

pub send-IsSound :
    (cmd : ℕ) (body : List ℕ) (now : ℕ) (answer : ℤ) (c : Client)
    → IsSound c
    → Safely (send cmd body now answer c) (λ r. IsSound r.1)
unfolding send send_raw conn_status
send-IsSound cmd body now answer c s = ground arith

drop_client-IsConsistent :
    (t : Option ℕ) (c : Client) → IsConsistent c.net → IsConsistent (drop_client t c).0.net
unfolding drop_client
drop_client-IsConsistent none c v = v
drop_client-IsConsistent (some i) c v = close-IsConsistent c.net i v

logged_out-IsSound : (c : Client) → IsSound c → IsSound (logged_out c).0
unfolding logged_out
logged_out-IsSound c s = (
  drop_client-IsOut c.tcp_client (record c { login_status = default }) refl,
  drop_client-IsConsistent c.tcp_client (record c { login_status = default }) s.1,
)

pub logout-IsSound :
    (pb : Protobuf) (now : ℕ) (answer : ℤ) (c : Client)
    → IsSound c
    → Safely (logout pb now answer c) (λ r. IsSound r.0)
logout-IsSound pb now answer c s =
    subst (λ m. Safely m (λ r. IsSound r.0)) (sym (logout_lem pb now answer c s.0))
      (logged_out-IsSound c s)

IsSound-IsKept : (pb : Protobuf) → IsKept pb IsSound
IsSound-IsKept pb = record {
  keeps_buffer = λ c b s. s;
  keeps_send = send-IsSound;
  keeps_logout = logout-IsSound pb;
}

-- An address that no descriptor leads to.
abbrev pub IsFresh : ℕ → Net → Type 0
IsFresh this net = (fd : ℤ) → find_conn fd net.conn_map ≢ some this

drop_client-IsFresh :
    (t : Option ℕ) (c : Client) (this : ℕ)
    → IsFresh this c.net
    → IsFresh this (drop_client t c).0.net
unfolding drop_client
drop_client-IsFresh none c this f = f
drop_client-IsFresh (some i) c this f = λ fd e. f fd (find_conn-close c.net i fd this e)

make_client-IsConsistent :
    (pb : Protobuf) (this : ℕ) (t : Option ℕ) (net : Net)
    → IsConsistent net
    → IsFresh this net
    → IsConsistent (make_client pb this t net).1
unfolding make_client set_client
make_client-IsConsistent pb this (some i) net v f = v
make_client-IsConsistent pb this none net v f = record {
  owned = λ fd i e. ground (arith, ==_iff i this, v.owned fd i e, f fd, e);
  no_invalid = v.no_invalid;
}

pub login-IsSound :
    (pb : Protobuf) (name pwd : List ℕ) (cb timeout_cb : Bool) (now : ℕ) (answer : ℤ) (fresh : ℕ)
    (a : ConnectAnswers) (c : Client)
    → IsSound c
    → IsFresh fresh c.net
    → a.fileno ≢ minus_one
    → Safely (login pb name pwd cb timeout_cb now answer fresh a c) (λ r. IsSound r.0)
unfolding login logged_out
login-IsSound pb name pwd cb timeout_cb now answer fresh a c s f valid =
    let c1 : Client = (logged_out c).0 in
    let still : IsFresh fresh c1.net =
      drop_client-IsFresh c.tcp_client (record c { login_status = default }) fresh f in
    let ready =
      make_client-IsConsistent pb fresh c1.tcp_client c1.net (logged_out-IsSound c s).1 still in
    rw (logout_lem pb now answer c s.0) (
      Safely-bind (λ r. IsConsistent r.1) (λ r. IsSound r.0) _ _
        (connect-IsConsistent (make_client pb fresh c1.tcp_client c1.net).0 c1.server_ip
          c1.gate_port a (make_client pb fresh c1.tcp_client c1.net).1 ready valid)
        (λ r v. (refl, v)))

-- What holds behind a run, whenever it ends.
abbrev pub EndsSound : Run → Type 0
EndsSound none = Unit {0}
EndsSound (some r) = Safely r (λ q. IsSound q.0)

with_events-EndsSound :
    (events : List Event) (m : Run) → EndsSound m → EndsSound (with_events events m)
unfolding with_events
with_events-EndsSound events none h = tt
with_events-EndsSound events (some abort) h = tt
with_events-EndsSound events (some (ok (c, more))) h = h

and_then-EndsSound :
    (m : Run) (f : Client → Run)
    → EndsSound m
    → ((c : Client) → IsSound c → EndsSound (f c))
    → EndsSound (and_then m f)
unfolding and_then
and_then-EndsSound none f h k = tt
and_then-EndsSound (some abort) f h k = tt
and_then-EndsSound (some (ok (c, events))) f h k = with_events-EndsSound events (f c) (k c h)

module _ (pb : Protobuf) (now : ℕ) (answer : ℤ) where
  Keeps-EndsSound : (m : Run) → Keeps pb IsSound (IsSound-IsKept pb) now answer m → EndsSound m
  Keeps-EndsSound none h = tt
  Keeps-EndsSound (some r) h = h

  on_message-EndsSound :
      (bytes : List ℕ) (c : Client) → IsSound c → EndsSound (on_message pb bytes now answer c)
  on_message-EndsSound bytes c s =
      Keeps-EndsSound (on_message pb bytes now answer c)
        (on_message-Keeps pb IsSound (IsSound-IsKept pb) now answer bytes c s)

  notify-EndsSound :
      (effect : Effect) (c : Client) → IsSound c → EndsSound (notify pb now answer effect c)
  unfolding notify
  notify-EndsSound (connection_callback i status) c s =
      status_changed-Keeps pb IsSound (IsSound-IsKept pb) now answer i status c s
  notify-EndsSound (message_callback i bytes) c s = on_message-EndsSound bytes c s
  notify-EndsSound (uv_close h) c s = s
  notify-EndsSound (uv_read_start h) c s = s
  notify-EndsSound freed c s = s

  dispatch-EndsSound :
      (effects : List Effect) (c : Client)
      → IsSound c
      → EndsSound (dispatch pb now answer effects c)
  unfolding dispatch
  dispatch-EndsSound [] c s = s
  dispatch-EndsSound (effect ∷ effects) c s =
      and_then-EndsSound (notify pb now answer effect c) (dispatch pb now answer effects)
        (notify-EndsSound effect c s) (λ c' s'. dispatch-EndsSound effects c' s')

  pub deliver-EndsSound :
      (m : Outcome (Net × List Effect)) (c : Client)
      → IsOut c
      → Safely m (λ r. IsConsistent r.0)
      → EndsSound (deliver pb now answer m c)
  unfolding deliver
  deliver-EndsSound abort c out v = tt
  deliver-EndsSound (ok (net, effects)) c out v =
      dispatch-EndsSound effects (record c { net = net }) (out, v)
