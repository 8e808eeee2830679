-- ===== src/Client/Parsing.antt =====
-- One round of the loop in `Client::onMessage` of mac/chatkit/cim/core/client.cpp on a whole
-- packet.
use coffee_chat_desktop.Prelude.{
  ℕ, ◌+◌, ◌^◌, ◌<◌, ◌≡◌, subst, refl, sym, ap, ◌∙◌, List, ◌++◌, length, arith, Outcome, ok, abort,
  Returns, Returns-eq, Returns-bind, ◌>>=◌, if◌then◌else◌, ltb, ◌==◌, length-append, add_size,
  sub_size, assert, ◌>>◌,
}
use coffee_chat_desktop.Prelude.Int.{ℤ}
use coffee_chat_desktop.Buffer.{Buffer, length_of}
use coffee_chat_desktop.Buffer.Bytes.{be_bytes}
use coffee_chat_desktop.Buffer.Read.{read_int32, read_int16}
use coffee_chat_desktop.Buffer.Valid.{length_of_lem}
use coffee_chat_desktop.Buffer.Contents.{Holds}
use coffee_chat_desktop.Buffer.Integers.{Reads, read_int32_lem, read_int16_lem}
use coffee_chat_desktop.Client.{
  Client, Event, ImHeader, Protobuf, header_size, protocol_version, max_buffer_len,
}
use coffee_chat_desktop.Client.Packets.{packet}
use coffee_chat_desktop.Client.Receive.{
  Round, stop, go_on, read_fields, handle_packet, round, on_handle_data, through_int,
}

-- The header of a packet, as the receiver reads it.
abbrev pub header_of : ℕ → ℕ → ℕ → ImHeader
header_of len cmd seq = record {
  len = len;
  version = protocol_version;
  flag = 0;
  service_id = 0;
  cmd = cmd;
  seq = seq;
  reserved = 0;
}

abbrev fields_bytes : ℕ → ℕ → List ℕ
fields_bytes cmd seq =
    be_bytes 2 protocol_version
    ++ (be_bytes 2 0 ++ (be_bytes 2 0 ++ (be_bytes 2 cmd ++ (be_bytes 2 seq ++ be_bytes 2 0))))

-- Code that goes on with the next 16-bit field of a buffer that holds it.
next_field {ℓ} :
    {B : Type ℓ} (Q : B → Type 0) (f : ℕ × Buffer → Outcome B) (x : ℕ) (rest : List ℕ) (b : Buffer)
    → x < 2 ^ 16
    → Holds (be_bytes 2 x ++ rest) b
    → ((b' : Buffer) → Holds rest b' → Returns (f (x, b')) Q)
    → Returns (read_int16 b >>= f) Q
next_field Q f x rest b small h k =
    Returns-bind _ Q (read_int16 b) f (read_int16_lem b h.valid x rest small h.held)
      (λ r q. subst (λ y. Returns (f (y, r.1)) Q) (sym q.0.0) (k r.1 q.0.1))

read_fields_lem :
    (len cmd seq : ℕ) (rest : List ℕ) (b : Buffer)
    → cmd < 2 ^ 16
    → seq < 2 ^ 16
    → Holds (fields_bytes cmd seq ++ rest) b
    → Returns (read_fields len b) (λ r. (r.0 ≡ header_of len cmd seq) × Holds rest r.1)
unfolding read_fields
read_fields_lem len cmd seq rest b hc hs e =
    let d : ℕ → List ℕ = be_bytes 2 in
    let goal : ImHeader × Buffer → Type 0 = λ r. (r.0 ≡ header_of len cmd seq) × Holds rest r.1 in
    next_field goal _ 1 (d 0 ++ (d 0 ++ (d cmd ++ (d seq ++ (d 0 ++ rest))))) b (omega arith) e
      (λ b1 h1.
        next_field goal _ 0 (d 0 ++ (d cmd ++ (d seq ++ (d 0 ++ rest)))) b1 (omega arith) h1
          (λ b2 h2.
            next_field goal _ 0 (d cmd ++ (d seq ++ (d 0 ++ rest))) b2 (omega arith) h2 (λ b3 h3.
              next_field goal _ cmd (d seq ++ (d 0 ++ rest)) b3 hc h3 (λ b4 h4.
                next_field goal _ seq (d 0 ++ rest) b4 hs h4
                  (λ b5 h5. next_field goal _ 0 rest b5 (omega arith) h5 (λ b6 h6. (refl, h6)))))))

-- How a round ends after the handler, which has to leave `reset_len` bytes.
abbrev pub settle : ℕ → Client × List Event → Outcome Round
settle reset_len r = do
  left ← length_of r.0.recv_buffer
  assert (reset_len == left)
  ok (if ltb left header_size then stop r.0 r.1 else go_on r.0 r.1)

pub settle_lem :
    (c : Client) (events : List Event) (reset_len : ℕ) (bytes : List ℕ)
    → Holds bytes c.recv_buffer
    → settle reset_len (c, events) ≡ (
        if reset_len == length bytes
        then ok (if ltb (length bytes) header_size then stop c events else go_on c events)
        else abort)
settle_lem c events reset_len bytes h =
    rw (length_of_lem c.recv_buffer h.valid, h.held) (ground arith)

-- The `int` that `reset_len` goes through keeps a small number.
reset_len-through_int :
    (body rest : List ℕ) (n size : ℕ)
    → n ≡ header_size + length body
    → size ≡ length (body ++ rest) + 12
    → size < 2 ^ 31
    → through_int (add_size (sub_size size n) 4) ≡ length rest
unfolding through_int
reset_len-through_int body rest n size e es h =
    let inner : add_size (sub_size size n) 4 ≡ length rest =
      omega (arith, e, es, length-append body rest) in
    rw inner (ground (arith, length-append body rest))

handle_packet_lem :
    (pb : Protobuf) (now : ℕ) (answer : ℤ) (c : Client) (len reset_len cmd seq : ℕ) (bytes : List ℕ)
    → Holds (fields_bytes cmd seq ++ bytes) c.recv_buffer
    → cmd < 2 ^ 16
    → seq < 2 ^ 16
    → (b : Buffer) × Holds bytes b
      × (handle_packet pb len reset_len now answer c ≡ (
          on_handle_data pb (header_of len cmd seq) now answer (record c { recv_buffer = b })
          >>= settle reset_len))
unfolding handle_packet
handle_packet_lem pb now answer c len reset_len cmd seq bytes h hc hs =
    let (q, e, hq) =
      Returns-eq (λ r. (r.0 ≡ header_of len cmd seq) × Holds bytes r.1) _
        (read_fields_lem len cmd seq bytes c.recv_buffer hc hs h) in
    (q.1, hq.1, rw (e, hq.0) refl)

-- The guards of a round let a packet through that is whole and small enough.
round-handle_packet :
    (pb : Protobuf) (now : ℕ) (answer : ℤ) (c : Client) (n cmd seq : ℕ) (body rest : List ℕ)
    (b : Buffer)
    → n ≡ header_size + length body
    → n < max_buffer_len
    → length rest < 2 ^ 30
    → read_int32 c.recv_buffer ≡ ok (n, b)
    → Holds (fields_bytes cmd seq ++ (body ++ rest)) b
    → round pb now answer c
      ≡ handle_packet pb n (length rest) now answer (record c { recv_buffer = b })
unfolding round
round-handle_packet pb now answer c n cmd seq body rest b en small few e h =
    rw
      (
        e,
        length_of_lem b h.valid,
        h.held,
        reset_len-through_int body rest n (length (fields_bytes cmd seq ++ (body ++ rest))) en
            (omega arith) (omega (arith, length-append body rest)),
      )
      (ground (arith, length-append body rest))

-- A whole packet smaller than `kMaxBufferLen` in front of the buffer, with fewer than 2^30 bytes
-- behind it, goes to the handler with the fields of its header, and with the buffer at the first
-- byte of its body; the handler then has to leave just the bytes behind it.
pub round_lem :
    (pb : Protobuf) (now : ℕ) (answer : ℤ) (c : Client) (cmd seq : ℕ) (body rest : List ℕ)
    → Holds (packet cmd seq body ++ rest) c.recv_buffer
    → cmd < 2 ^ 16
    → seq < 2 ^ 16
    → header_size + length body < max_buffer_len
    → length rest < 2 ^ 30
    → (b : Buffer) × Holds (body ++ rest) b
      × (round pb now answer c ≡ (
          on_handle_data pb
            (header_of (header_size + length body) cmd seq)
            now
            answer
            (record c { recv_buffer = b })
          >>= settle (length rest)))
round_lem pb now answer c cmd seq body rest h hc hs small few =
    let n = header_size + length body in
    let fields = fields_bytes cmd seq ++ (body ++ rest) in
    let (r, e, hr) =
      Returns-eq (λ r. Reads n fields r × (r.1.capacity ≡ c.recv_buffer.capacity)) _
        (read_int32_lem c.recv_buffer h.valid n fields (omega arith) h.held) in
    let (b, hb, eb) =
      handle_packet_lem pb now answer (record c { recv_buffer = r.1 }) n (length rest) cmd seq
        (body ++ rest) hr.0.1 hc hs in
    (
      b,
      hb,
      round-handle_packet pb now answer c n cmd seq body rest r.1 refl small few
            (e ∙ ap (λ x. ok (x, r.1)) hr.0.0) hr.0.1
          ∙ eb,
    )
