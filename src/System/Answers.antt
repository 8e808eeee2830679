-- ===== src/System/Answers.antt =====
-- Which events of libuv bring a response to the login callback: a read event on `Client`, and no
-- other.
use coffee_chat_desktop.Prelude.{
  ℕ, List, [], ◌∷◌, ◌++◌, All, All-append, length, arith, Option, none, some, Outcome, ok, abort,
  Safely, Safely-bind, Safely-mono, ◌>>=◌, Bool-cases, inl, inr,
}
use coffee_chat_desktop.Prelude.Int.{ℤ, ◌==ℤ◌, pos, is_positive, is_negative}
use coffee_chat_desktop.Tcp.{
  Net, Effect, ConnectionStatus, uv_close, uv_read_start, connection_callback, message_callback,
  freed, StreamHandle, on_connect, on_read, find_tcp_client, lose, connected, received, close,
  close_effects, set_connection_status,
}
use coffee_chat_desktop.Client.{Client, Event, Protobuf}
use coffee_chat_desktop.Client.Receive.{on_message}
use coffee_chat_desktop.Client.Invariant.{anyhow}
use coffee_chat_desktop.Client.Silence.{IsSilent, Silent, status_changed-Silent}
use coffee_chat_desktop.Client.Delivery.{IsReady}
use coffee_chat_desktop.Client.Origin.{IsFrom, silent-IsFrom}
use coffee_chat_desktop.Client.Origin.Loop.{EndsAll, EndsFrom, on_message-EndsFrom}
use coffee_chat_desktop.System.{
  Run, with_events, and_then, notify, dispatch, deliver, on_connect_event, on_read_event,
}

-- An effect that brings no bytes.
abbrev IsLine : Effect → Type 0
IsLine (message_callback i bytes) = ⊥
IsLine (uv_close h) = Unit {0}
IsLine (uv_read_start h) = Unit {0}
IsLine (connection_callback i status) = Unit {0}
IsLine freed = Unit {0}

close_effects-IsLine : (t : Option ℕ) → All IsLine (close_effects t)
unfolding close_effects
close_effects-IsLine none = tt
close_effects-IsLine (some h) = (tt, tt)

status-IsLine :
    (this : ℕ) (status : ConnectionStatus) (net : Net)
    → All IsLine (set_connection_status this status net).1
unfolding set_connection_status
status-IsLine this status net = ground arith

lose-IsLine : (found : Option ℕ) (net : Net) → All IsLine (lose found net).1
unfolding lose close
lose-IsLine none net = tt
lose-IsLine (some i) net =
    All-append IsLine _ _ (close_effects-IsLine (net.clients i).tcp_handle)
      (status-IsLine i _ (close i net).0)

connected-IsLine :
    (h : StreamHandle) (found : Option ℕ) (net : Net)
    → Safely (connected h found net) (λ r. All IsLine r.1)
unfolding connected
connected-IsLine h none net = tt
connected-IsLine h (some i) net = All-append IsLine _ _ (status-IsLine i _ net) (tt, tt)

on_connect-IsLine :
    (h : StreamHandle) (status : ℤ) (net : Net)
    → Safely (on_connect h status net) (λ r. All IsLine r.1)
unfolding on_connect
on_connect-IsLine h status net =
    Safely-bind (λ found. Unit {0}) (λ r. All IsLine r.1) (find_tcp_client h net) _
      (anyhow (find_tcp_client h net))
      (λ found u. elim (Bool-cases (status ==ℤ pos 0)) [
        | inl e ↦ rw e (connected-IsLine h found net)
        | inr e ↦ rw e (lose-IsLine found net)
      ])

with_events-EndsAll :
    (P : Event → Type 0) (events : List Event) (m : Run)
    → All P events
    → EndsAll P m
    → EndsAll P (with_events events m)
unfolding with_events
with_events-EndsAll P events none h k = tt
with_events-EndsAll P events (some abort) h k = tt
with_events-EndsAll P events (some (ok (c, more))) h k = All-append P events more h k

and_then-EndsAll :
    (P : Event → Type 0) (m : Run) (f : Client → Run)
    → EndsAll P m
    → ((c : Client) → EndsAll P (f c))
    → EndsAll P (and_then m f)
unfolding and_then
and_then-EndsAll P none f h k = tt
and_then-EndsAll P (some abort) f h k = tt
and_then-EndsAll P (some (ok (c, events))) f h k = with_events-EndsAll P events (f c) h (k c)

module _ (pb : Protobuf) (now : ℕ) (answer : ℤ) where
  notify-IsSilent :
      (effect : Effect) (c : Client)
      → IsLine effect
      → EndsAll IsSilent (notify pb now answer effect c)
  unfolding notify
  notify-IsSilent (connection_callback i status) c l =
      Safely-mono (Silent c) (λ (r : Client × List Event). All IsSilent r.1) _
        (status_changed-Silent pb now answer i status c) (λ r s. s.1)
  notify-IsSilent (message_callback i bytes) c l = absurd l
  notify-IsSilent (uv_close h) c l = (tt, tt)
  notify-IsSilent (uv_read_start h) c l = (tt, tt)
  notify-IsSilent freed c l = (tt, tt)

  dispatch-IsSilent :
      (effects : List Effect) (c : Client)
      → All IsLine effects
      → EndsAll IsSilent (dispatch pb now answer effects c)
  unfolding dispatch
  dispatch-IsSilent [] c h = tt
  dispatch-IsSilent (effect ∷ effects) c h =
      and_then-EndsAll IsSilent (notify pb now answer effect c) (dispatch pb now answer effects)
        (notify-IsSilent effect c h.0) (λ c'. dispatch-IsSilent effects c' h.1)

  deliver-IsSilent :
      (m : Outcome (Net × List Effect)) (c : Client)
      → Safely m (λ r. All IsLine r.1)
      → EndsAll IsSilent (deliver pb now answer m c)
  unfolding deliver
  deliver-IsSilent abort c h = tt
  deliver-IsSilent (ok (net, effects)) c h = dispatch-IsSilent effects (record c { net = net }) h

  -- A connect event brings no response.
  pub on_connect_event-IsSilent :
      (h : StreamHandle) (status : ℤ) (c : Client)
      → EndsAll IsSilent (on_connect_event pb now answer h status c)
  unfolding on_connect_event
  on_connect_event-IsSilent h status c =
      deliver-IsSilent (on_connect h status c.net) c (on_connect-IsLine h status c.net)

  silent-EndsFrom : (bytes : List ℕ) (m : Run) → EndsAll IsSilent m → EndsFrom pb bytes m
  silent-EndsFrom bytes none h = tt
  silent-EndsFrom bytes (some abort) h = tt
  silent-EndsFrom bytes (some (ok (c, events))) h = silent-IsFrom pb bytes events h

  received-EndsFrom :
      (found : Option ℕ) (bytes : List ℕ) (c : Client)
      → IsReady (length bytes) c
      → EndsFrom pb bytes (dispatch pb now answer (received found bytes c.net) c)
  unfolding received dispatch notify
  received-EndsFrom none bytes c ready = tt
  received-EndsFrom (some i) bytes c ready = elim (Bool-cases (c.net.clients i).message_cb) [
    | inl e ↦ rw e (
        and_then-EndsAll (IsFrom pb bytes) (on_message pb bytes now answer c)
          (dispatch pb now answer []) (on_message-EndsFrom pb bytes now answer c ready) (λ c'. tt))
    | inr e ↦ rw e tt
  ]

  arrived-EndsFrom :
      (m : Outcome (Option ℕ)) (bytes : List ℕ) (c : Client)
      → IsReady (length bytes) c
      → EndsFrom pb bytes
          (deliver pb now answer (do found ← m; ok (c.net, received found bytes c.net)) c)
  unfolding deliver
  arrived-EndsFrom abort bytes c ready = tt
  arrived-EndsFrom (ok found) bytes c ready = received-EndsFrom found bytes c ready

  lost-IsLine :
      (m : Outcome (Option ℕ)) (net : Net)
      → Safely
          (do found ← m; let (lost, effects) = lose found net; ok (lost, effects ++ freed ∷ []))
          (λ (r : Net × List Effect). All IsLine r.1)
  lost-IsLine abort net = tt
  lost-IsLine (ok found) net = All-append IsLine _ _ (lose-IsLine found net) (tt, tt)

  -- Each response that a read event brings to the login callback comes from the bytes of the event.
  pub on_read_event-EndsFrom :
      (h : StreamHandle) (nread : ℤ) (bytes : List ℕ) (c : Client)
      → IsReady (length bytes) c
      → EndsFrom pb bytes (on_read_event pb now answer h nread bytes c)
  unfolding on_read_event on_read
  on_read_event-EndsFrom h nread bytes c ready = elim (Bool-cases (is_positive nread)) [
    | inl e ↦ rw e (arrived-EndsFrom (find_tcp_client h c.net) bytes c ready)
    | inr e ↦ elim (Bool-cases (is_negative nread)) [
      | inl f ↦
          rw (e, f)
            (silent-EndsFrom bytes _
              (deliver-IsSilent _ c (lost-IsLine (find_tcp_client h c.net) c.net)))
      | inr f ↦
          rw (e, f)
            (silent-EndsFrom bytes (deliver pb now answer (ok (c.net, freed ∷ [])) c)
              (deliver-IsSilent (ok (c.net, freed ∷ [])) c (tt, tt)))
    ]
  ]
