-- ===== src/Client/Origin/Loop.antt =====
-- The responses that the loop of `Client::onMessage` of mac/chatkit/cim/core/client.cpp passes on.
use coffee_chat_desktop.Prelude.{
  ℕ, zero, suc, ◌+◌, ◌-◌, ◌*◌, ◌≤◌, ap, ◌∙◌, List, [], ◌++◌, All, All-append, length, arith, Option,
  none, some, Outcome, ok, abort, Returns-eq, Safely, Safely-bind, true, false, add_size, sub_size,
  leb, if◌then◌else◌,
}
use coffee_chat_desktop.Prelude.Int.{ℤ}
use coffee_chat_desktop.Buffer
use coffee_chat_desktop.Buffer.{Buffer}
use coffee_chat_desktop.Buffer.Read.{read_int32}
use coffee_chat_desktop.Buffer.Valid.{contents, length_of_lem}
use coffee_chat_desktop.Buffer.Contents.{Holds, write_lem}
use coffee_chat_desktop.Client.{Client, Event, Protobuf, header_size}
use coffee_chat_desktop.Client.Receive.{
  Round, stop, go_on, round, rounds, finish, receive, on_message, through_int,
}
use coffee_chat_desktop.Client.Delivery.{IsReady}
use coffee_chat_desktop.Client.Places.{At, Rest, read_int32-At}
use coffee_chat_desktop.Client.Origin.{IsFrom, RoundHandled, handle_packet-Handled}

-- If the code ends, all its events are as `P` says.
abbrev pub EndsAll : (Event → Type 0) → Option (Outcome (Client × List Event)) → Type 0
EndsAll P none = Unit {0}
EndsAll P (some r) = Safely r (λ q. All P q.1)

abbrev pub EndsFrom : Protobuf → List ℕ → Option (Outcome (Client × List Event)) → Type 0
EndsFrom pb bytes = EndsAll (IsFrom pb bytes)

module _ (pb : Protobuf) (bytes : List ℕ) (now : ℕ) (answer : ℤ) where
  round-Handled :
      (c : Client)
      → Rest bytes c.recv_buffer
      → Safely (round pb now answer c) (RoundHandled pb bytes now answer)
  unfolding round
  round-Handled c (n, r) =
      Safely-bind (λ q. At bytes (n + 4) q.1) (RoundHandled pb bytes now answer)
        (read_int32 c.recv_buffer) _ (read_int32-At bytes n c.recv_buffer r)
        (λ q s.
          let size = length (contents q.1) in
          let rest : Rest bytes q.1 = (n + 4, s) in
          rw (length_of_lem q.1 s.valid) (
            ground (
              arith,
              rest,
              handle_packet-Handled pb bytes now answer q.0
                  (through_int (add_size (sub_size size q.0) 4)) n (record c { recv_buffer = q.1 })
                  s,
            )))

  after_round-EndsFrom :
      (fuel : ℕ) (events : List Event) (m : Outcome Round)
      → All (IsFrom pb bytes) events
      → Safely m (RoundHandled pb bytes now answer)
      → ((c' : Client) (more : List Event)
          → Rest bytes c'.recv_buffer
          → All (IsFrom pb bytes) more
          → EndsFrom pb bytes (rounds pb fuel now answer c' more))
      → EndsFrom pb bytes (elim m [
        | abort ↦ some abort
        | ok r ↦ elim r [
          | stop c' more ↦ some (ok (c', events ++ more))
          | go_on c' more ↦ rounds pb fuel now answer c' (events ++ more)
        ]
      ])
  after_round-EndsFrom fuel events abort h s go = tt
  after_round-EndsFrom fuel events (ok (stop c' more)) h s go =
      All-append (IsFrom pb bytes) events more h s.1
  after_round-EndsFrom fuel events (ok (go_on c' more)) h s go =
      go c' (events ++ more) s.0 (All-append (IsFrom pb bytes) events more h s.1)

  rounds-EndsFrom :
      (fuel : ℕ) (c : Client) (events : List Event)
      → Rest bytes c.recv_buffer
      → All (IsFrom pb bytes) events
      → EndsFrom pb bytes (rounds pb fuel now answer c events)
  unfolding rounds
  rounds-EndsFrom zero c events r h = tt
  rounds-EndsFrom (suc fuel) c events r h =
      after_round-EndsFrom fuel events (round pb now answer c) h (round-Handled c r)
        (λ c' more r' h'. rounds-EndsFrom fuel c' more r' h')

  finish-EndsFrom :
      (m : Option (Outcome (Client × List Event)))
      → EndsFrom pb bytes m
      → EndsFrom pb bytes (finish pb m)
  unfolding finish
  finish-EndsFrom none h = tt
  finish-EndsFrom (some abort) h = tt
  finish-EndsFrom (some (ok (c, events))) h = h

  -- With an empty buffer with room: each response that `onMessage` passes on comes from the bytes
  -- that arrived.
  pub on_message-EndsFrom :
      (c : Client) → IsReady (length bytes) c → EndsFrom pb bytes (on_message pb bytes now answer c)
  unfolding on_message receive
  on_message-EndsFrom c ready =
      let (b, e, w) =
        Returns-eq
          (λ b'.
            Holds (contents c.recv_buffer ++ bytes) b'
            × (b'.capacity ≤ c.recv_buffer.capacity * 2 + length bytes))
          _ (write_lem c.recv_buffer bytes ready.empty.valid ready.room) in
      let all : At bytes 0 b = record {
        valid = w.0.valid;
        left = w.0.held ∙ ap (λ l. l ++ bytes) ready.empty.held;
      } in
      let ends = finish-EndsFrom _ (
        rounds-EndsFrom (suc (b.write_index - b.read_index)) (record c { recv_buffer = b }) []
          (0, all) tt) in
      elim (leb (length bytes) header_size)
        as (λ t. EndsFrom pb bytes (
          if t
          then some (ok (c, []))
          else receive pb (Buffer.write c.recv_buffer bytes) now answer c)) [
            | true ↦ tt
            | false ↦ rw e ends
          ]
