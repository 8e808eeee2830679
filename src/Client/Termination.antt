-- ===== src/Client/Termination.antt =====
-- The loop of `Client::onMessage` of mac/chatkit/cim/core/client.cpp ends: every round takes a
-- header at least out of the buffer.
use coffee_chat_desktop.Prelude.{
  ℕ, zero, suc, ◌+◌, ◌-◌, ◌*◌, ◌≤◌, ◌<◌, ◌≡◌, refl, sym, ◌∙◌, List, [], ◌++◌, length, arith, Option,
  none, some, Outcome, ok, abort, Returns-eq, Safely, Safely-bind, size_mod, ◌==◌, if◌then◌else◌,
  true, false, Bool, subst, add_size, sub_size, leb,
}
use coffee_chat_desktop.Prelude.Int.{ℤ}
use coffee_chat_desktop.Buffer
use coffee_chat_desktop.Buffer.{Buffer, skip}
use coffee_chat_desktop.Buffer.Read.{read_int32}
use coffee_chat_desktop.Buffer.Valid.{IsValid, contents, length-contents, length_of_lem}
use coffee_chat_desktop.Buffer.Contents.{Holds, reset_lem, to_slice_lem, write_lem}
use coffee_chat_desktop.Client.{
  default, Client, Event, ImHeader, Protobuf, header_size, AuthRsp, cmd_logout_req, err_success,
}
use coffee_chat_desktop.Client.Frame.{send, send_raw, conn_status}
use coffee_chat_desktop.Client.Session.{on_auth_rsp, logout, send_logout, drop_client}
use coffee_chat_desktop.Client.Receive.{
  Round, stop, go_on, round, rounds, finish, receive, on_message, on_handle_data, handle_packet,
  read_fields, through_int, chat_manager_on_handle_data,
}
use coffee_chat_desktop.Client.Consumption.{
  Shrinks, skip_safely, read_int32-Shrinks, Shrinks-0, read_fields-Shrinks,
}

send_keeps :
    (cmd : ℕ) (body : List ℕ) (now : ℕ) (answer : ℤ) (c : Client)
    → Safely (send cmd body now answer c) (λ r. r.1.recv_buffer ≡ c.recv_buffer)
unfolding send send_raw conn_status
send_keeps cmd body now answer c = ground arith

drop_client_keeps : (t : Option ℕ) (c : Client) → (drop_client t c).0.recv_buffer ≡ c.recv_buffer
unfolding drop_client
drop_client_keeps none c = refl
drop_client_keeps (some i) c = refl

-- The code ends, and leaves a buffer as `P` says unless an assert fails.
abbrev pub Ends : (Buffer → Type 0) → Option (Outcome (Client × List Event)) → Type 0
Ends P none = ⊥
Ends P (some r) = Safely r (λ q. P q.0.recv_buffer)

module _ (pb : Protobuf) (now : ℕ) (answer : ℤ) where
  send_logout_keeps :
      (c : Client) → Safely (send_logout pb now answer c) (λ r. r.0.recv_buffer ≡ c.recv_buffer)
  unfolding send_logout
  send_logout_keeps c = ground (
    arith,
    send_keeps cmd_logout_req (pb.logout_req c.user_id) now answer
        (record c { login_status = default }),
  )

  logout_keeps :
      (c : Client) → Safely (logout pb now answer c) (λ r. r.0.recv_buffer ≡ c.recv_buffer)
  unfolding logout
  logout_keeps c =
      Safely-bind (λ r. r.0.recv_buffer ≡ c.recv_buffer) _ (send_logout pb now answer c) _
        (send_logout_keeps c)
        (λ r e. drop_client_keeps r.0.tcp_client (record r.0 { login_status = default }) ∙ e)

  logout_unless_keeps :
      (t : Bool) (c : Client)
      → Safely
          (if t then ok (c, []) else logout pb now answer c)
          (λ r. r.0.recv_buffer ≡ c.recv_buffer)
  logout_unless_keeps true c = refl
  logout_unless_keeps false c = logout_keeps c

  on_auth_rsp-Shrinks :
      (rsp : Option AuthRsp) (c : Client)
      → IsValid c.recv_buffer
      → Safely (on_auth_rsp pb rsp now answer c) (λ r. Shrinks 0 c.recv_buffer r.0.recv_buffer)
  unfolding on_auth_rsp
  on_auth_rsp-Shrinks none c v = Shrinks-0 c.recv_buffer v
  on_auth_rsp-Shrinks (some rsp) c v =
      let goal : Client × List Event → Type 0 = λ r. Shrinks 0 c.recv_buffer r.0.recv_buffer in
      Safely-bind (Shrinks 0 c.recv_buffer) goal (skip c.recv_buffer rsp.byte_size) _
        (skip_safely c.recv_buffer rsp.byte_size v)
        (λ b s.
          Safely-bind (λ r. r.0.recv_buffer ≡ b) goal _ _
            (logout_unless_keeps (rsp.result_code == err_success) (record c { recv_buffer = b }))
            (λ r e. subst (Shrinks 0 c.recv_buffer) (sym e) s))

  on_handle_data-Shrinks :
      (header : ImHeader) (c : Client)
      → IsValid c.recv_buffer
      → Safely
          (on_handle_data pb header now answer c)
          (λ r. Shrinks 0 c.recv_buffer r.0.recv_buffer)
  unfolding on_handle_data chat_manager_on_handle_data
  on_handle_data-Shrinks header c v =
      let bytes = contents c.recv_buffer in
      rw (to_slice_lem c.recv_buffer v) (
        ground (
          arith,
          Shrinks-0 c.recv_buffer v,
          on_auth_rsp-Shrinks (pb.parse_auth_rsp bytes) c v,
          skip_safely c.recv_buffer header.len v,
        ))

  -- How a round may end: with a valid buffer, and shorter by a header if the loop goes on.
  abbrev Shorter : Buffer → Round → Type 0
  Shorter b (stop c events) = IsValid c.recv_buffer
  Shorter b (go_on c events) = Shrinks 16 b c.recv_buffer

  handle_packet-Shrinks :
      (b : Buffer) (len reset_len : ℕ) (c : Client)
      → Shrinks 4 b c.recv_buffer
      → Safely (handle_packet pb len reset_len now answer c) (Shorter b)
  unfolding handle_packet
  handle_packet-Shrinks b len reset_len c s =
      Safely-bind (λ r. Shrinks 12 c.recv_buffer r.1) (Shorter b) (read_fields len c.recv_buffer) _
        (read_fields-Shrinks len c.recv_buffer s.valid)
        (λ r f.
          Safely-bind (λ q. Shrinks 0 r.1 q.0.recv_buffer) (Shorter b) _ _
            (on_handle_data-Shrinks r.0 (record c { recv_buffer = r.1 }) f.valid)
            (λ q h.
              let shorter : Shrinks 16 b q.0.recv_buffer = record {
                valid = h.valid;
                less = omega (arith, s.less, f.less, h.less);
              } in
              ground (arith, length_of_lem q.0.recv_buffer h.valid, shorter, h.valid)))

  round-Shorter :
      (c : Client) → IsValid c.recv_buffer → Safely (round pb now answer c) (Shorter c.recv_buffer)
  unfolding round
  round-Shorter c v =
      Safely-bind (λ r. Shrinks 4 c.recv_buffer r.1) (Shorter c.recv_buffer)
        (read_int32 c.recv_buffer) _ (read_int32-Shrinks c.recv_buffer v)
        (λ r s.
          let size = length (contents r.1) in
          rw (length_of_lem r.1 s.valid) (
            ground (
              arith,
              s.valid,
              handle_packet-Shrinks c.recv_buffer r.0 (through_int (add_size (sub_size size r.0) 4))
                  (record c { recv_buffer = r.1 }) s,
            )))

  after_round-Ends :
      (fuel : ℕ) (c : Client) (events : List Event) (m : Outcome Round)
      → Safely m (Shorter c.recv_buffer)
      → length (contents c.recv_buffer) < suc fuel
      → ((c' : Client) (more : List Event)
          → IsValid c'.recv_buffer
          → length (contents c'.recv_buffer) < fuel
          → Ends IsValid (rounds pb fuel now answer c' more))
      → Ends IsValid (elim m [
        | abort ↦ some abort
        | ok r ↦ elim r [
          | stop c' more ↦ some (ok (c', events ++ more))
          | go_on c' more ↦ rounds pb fuel now answer c' (events ++ more)
        ]
      ])
  after_round-Ends fuel c events abort s h go = tt
  after_round-Ends fuel c events (ok (stop c' more)) s h go = s
  after_round-Ends fuel c events (ok (go_on c' more)) s h go =
      go c' (events ++ more) s.valid (omega (arith, s.less, h))

  -- Fuel beyond the length of the buffer is enough.
  rounds-Ends :
      (fuel : ℕ) (c : Client) (events : List Event)
      → IsValid c.recv_buffer
      → length (contents c.recv_buffer) < fuel
      → Ends IsValid (rounds pb fuel now answer c events)
  unfolding rounds
  rounds-Ends zero c events v h = absurd (omega (arith, h))
  rounds-Ends (suc fuel) c events v h =
      after_round-Ends fuel c events (round pb now answer c) (round-Shorter c v) h
        (λ c' more v' h'. rounds-Ends fuel c' more v' h')

  finish-Ends :
      (m : Option (Outcome (Client × List Event))) → Ends IsValid m → Ends (Holds []) (finish pb m)
  unfolding finish
  finish-Ends none h = absurd h
  finish-Ends (some abort) h = tt
  finish-Ends (some (ok (c, events))) v = reset_lem c.recv_buffer v

-- `onMessage` with an empty buffer ends on whatever arrives, if the size of the buffer stays a
-- `size_t`: the loop does not run out of fuel, and unless an assert fails the client has an
-- empty buffer again.
pub on_message-Ends :
    (pb : Protobuf) (bytes : List ℕ) (now : ℕ) (answer : ℤ) (c : Client)
    → Holds [] c.recv_buffer
    → c.recv_buffer.capacity * 2 + length bytes < size_mod
    → Ends (Holds []) (on_message pb bytes now answer c)
unfolding on_message receive
on_message-Ends pb bytes now answer c h room =
    let (b, e, w) =
      Returns-eq
        (λ b'.
          Holds (contents c.recv_buffer ++ bytes) b'
          × (b'.capacity ≤ c.recv_buffer.capacity * 2 + length bytes))
        _ (write_lem c.recv_buffer bytes h.valid room) in
    let c' : Client = record c { recv_buffer = b } in
    let fuel : length (contents b) < suc (b.write_index - b.read_index) =
      omega (arith, length-contents b w.0.valid) in
    let ends =
      finish-Ends pb now answer _
        (rounds-Ends pb now answer (suc (b.write_index - b.read_index)) c' [] w.0.valid fuel) in
    elim (leb (length bytes) header_size)
      as (λ t. Ends (Holds []) (
        if t
        then some (ok (c, []))
        else receive pb (Buffer.write c.recv_buffer bytes) now answer c)) [
          | true ↦ h
          | false ↦ rw e ends
        ]
