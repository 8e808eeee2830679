-- ===== src/System.antt =====
-- The client on its connection: what the handlers of mac/chatkit/cim/base/tcp_client.cpp call back,
-- as `Client::login` of mac/chatkit/cim/core/client.cpp binds it.
pub mod Wiring
pub mod Login
pub mod Loss
pub mod Answers
pub mod Invariant
pub mod Steps
use coffee_chat_desktop.Prelude.{ℕ, List, [], ◌∷◌, ◌++◌, Option, none, some, Outcome, ok, abort}
use coffee_chat_desktop.Prelude.Int.{ℤ}
use coffee_chat_desktop.Tcp.{
  Net, Effect, connection_callback, message_callback, StreamHandle, on_connect, on_read,
}
use coffee_chat_desktop.Client.{Client, Event, tcp, Protobuf}
use coffee_chat_desktop.Client.Session.{on_connection_status_changed}
use coffee_chat_desktop.Client.Receive.{on_message}

abbrev pub Run : Type 0
Run = Option (Outcome (Client × List Event))

-- One piece of code behind another, with the events of both.
unfoldable pub with_events : List Event → Run → Run
with_events events none = none
with_events events (some abort) = some abort
with_events events (some (ok (c, more))) = some (ok (c, events ++ more))

unfoldable pub and_then : Run → (Client → Run) → Run
unfolding with_events
and_then none f = none
and_then (some abort) f = some abort
and_then (some (ok (c, events))) f = with_events events (f c)

module _ (pb : Protobuf) (now : ℕ) (answer : ℤ) where
  -- The two callbacks go to the client. The handlers of the connection have changed their own state
  -- before they call back, and change nothing after it.
  unfoldable pub notify : Effect → Client → Run
  notify (connection_callback i status) c =
      some (on_connection_status_changed pb i status now answer c)
  notify (message_callback i bytes) c = on_message pb bytes now answer c
  notify effect c = some (ok (c, tcp effect ∷ []))

  unfoldable pub dispatch : List Effect → Client → Run
  unfolding notify and_then
  dispatch [] c = some (ok (c, []))
  dispatch (effect ∷ effects) c = and_then (notify effect c) (dispatch effects)

  -- What a handler of the connection does reaches the client.
  unfoldable pub deliver : Outcome (Net × List Effect) → Client → Run
  unfolding dispatch
  deliver abort c = some abort
  deliver (ok (net, effects)) c = dispatch effects (record c { net = net })

  -- A connect event of libuv, and a read event.
  unfoldable pub on_connect_event : StreamHandle → ℤ → Client → Run
  unfolding deliver
  on_connect_event h status c = deliver (on_connect h status c.net) c

  unfoldable pub on_read_event : StreamHandle → ℤ → List ℕ → Client → Run
  unfolding deliver
  on_read_event h nread bytes c = deliver (on_read h nread bytes c.net) c
