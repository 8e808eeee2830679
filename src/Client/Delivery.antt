-- ===== src/Client/Delivery.antt =====
-- `Client::onMessage` of mac/chatkit/cim/core/client.cpp on bytes that begin with a whole packet.
use coffee_chat_desktop.Prelude.{
  ℕ, suc, ◌+◌, ◌-◌, ◌*◌, ◌^◌, ◌≤◌, ◌<◌, ◌≡◌, sym, ap, ◌∙◌, List, [], ◌++◌, length, arith, Option,
  some, Outcome, ok, abort, Returns-eq, ◌>>=◌, size_mod, length-append,
}
use coffee_chat_desktop.Prelude.Int.{ℤ}
use coffee_chat_desktop.Buffer
use coffee_chat_desktop.Buffer.{Buffer}
use coffee_chat_desktop.Buffer.Valid.{contents, length-contents}
use coffee_chat_desktop.Buffer.Contents.{Holds, write_lem}
use coffee_chat_desktop.Client.{Client, Event, Protobuf, header_size, max_buffer_len}
use coffee_chat_desktop.Client.Packets.{packet}
use coffee_chat_desktop.Client.Parsing.{header_of, settle, round_lem}
use coffee_chat_desktop.Client.Receive.{
  Round, stop, go_on, round, rounds, finish, receive, on_message, on_handle_data,
}

-- A client between two messages, with room for `size` more bytes.
pub record IsReady (size : ℕ) (c : Client) : Type 0 where
  pub empty : Holds [] c.recv_buffer
  pub room : c.recv_buffer.capacity * 2 + size < size_mod

-- What `onMessage` makes of the first round.
abbrev pub after_round :
    Protobuf → ℕ → ℕ → ℤ → Outcome Round → Option (Outcome (Client × List Event))
after_round pb fuel now answer abort = some abort
after_round pb fuel now answer (ok (stop c events)) =
    some (ok (record c { recv_buffer = Buffer.reset c.recv_buffer }, events))
after_round pb fuel now answer (ok (go_on c events)) =
    finish pb (rounds pb fuel now answer c events)

finish-rounds :
    (pb : Protobuf) (fuel now : ℕ) (answer : ℤ) (c : Client)
    → finish pb (rounds pb (suc fuel) now answer c [])
      ≡ after_round pb fuel now answer (round pb now answer c)
unfolding rounds finish
finish-rounds pb fuel now answer c = ground arith

-- The bytes that arrive are in the buffer when the first round begins.
pub on_message_lem :
    (pb : Protobuf) (bytes : List ℕ) (now : ℕ) (answer : ℤ) (c : Client)
    → IsReady (length bytes) c
    → header_size < length bytes
    → (b : Buffer) × Holds bytes b
      × (on_message pb bytes now answer c
          ≡ after_round pb
              (length bytes)
              now
              answer
              (round pb now answer (record c { recv_buffer = b })))
unfolding on_message receive
on_message_lem pb bytes now answer c ready long =
    let (b, e, h) =
      Returns-eq
        (λ b'.
          Holds (contents c.recv_buffer ++ bytes) b'
          × (b'.capacity ≤ c.recv_buffer.capacity * 2 + length bytes))
        _ (write_lem c.recv_buffer bytes ready.empty.valid ready.room) in
    let held : contents b ≡ bytes = h.0.held ∙ ap (λ l. l ++ bytes) ready.empty.held in
    let fuel : b.write_index - b.read_index ≡ length bytes =
      sym (length-contents b h.0.valid) ∙ ap length held in
    (
      b,
      record { valid = h.0.valid; held = held },
      rw (e, fuel, finish-rounds pb (length bytes) now answer (record c { recv_buffer = b }))
          (ground arith),
    )

-- A packet that the client takes: its fields fit, and it is smaller than `kMaxBufferLen`.
pub record IsSendable (cmd seq : ℕ) (body rest : List ℕ) : Type 0 where
  pub cmd_fits : cmd < 2 ^ 16
  pub seq_fits : seq < 2 ^ 16
  pub body_fits : header_size + length body < max_buffer_len
  pub rest_fits : length rest < 2 ^ 30
  pub long_enough : 0 < length body + length rest

-- The first packet of what arrives is handled with its own header.
pub packet_lem :
    (pb : Protobuf) (now : ℕ) (answer : ℤ) (c : Client) (cmd seq : ℕ) (body rest : List ℕ)
    → IsReady (header_size + length body + length rest) c
    → IsSendable cmd seq body rest
    → (b : Buffer) × Holds (body ++ rest) b
      × (on_message pb (packet cmd seq body ++ rest) now answer c
          ≡ after_round pb (header_size + length body + length rest) now answer (
              on_handle_data pb
                (header_of (header_size + length body) cmd seq)
                now
                answer
                (record c { recv_buffer = b })
              >>= settle (length rest)))
packet_lem pb now answer c cmd seq body rest ready s =
    let bytes = packet cmd seq body ++ rest in
    let size : length bytes ≡ header_size + length body + length rest =
      omega (arith, length-append body rest) in
    let (b, h, e) =
      on_message_lem pb bytes now answer c
        (record { empty = ready.empty; room = omega (arith, size, ready.room) })
        (omega (arith, size, s.long_enough)) in
    let (b', h', e') =
      round_lem pb now answer (record c { recv_buffer = b }) cmd seq body rest h s.cmd_fits
        s.seq_fits s.body_fits s.rest_fits in
    (
      b',
      h',
      e
          ∙ ap
              (λ k.
                after_round pb k now answer (round pb now answer (record c { recv_buffer = b })))
              size
          ∙ ap (after_round pb (header_size + length body + length rest) now answer) e',
    )
