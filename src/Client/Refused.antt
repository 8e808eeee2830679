-- ===== src/Client/Refused.antt =====
-- What `Client::onMessage` of mac/chatkit/cim/core/client.cpp does with packets that it cannot
-- take: those that are cut short, those of an unknown command, and chat messages.
use coffee_chat_desktop.Prelude.{
  ℕ, ◌+◌, ◌^◌, ◌≤◌, ◌<◌, ◌≡◌, ◌≢◌, refl, ap, ◌∙◌, List, [], ◌∷◌, ◌++◌, length, arith, some, ok,
  abort, Returns-eq, length-append, ◌==◌, drop, length-drop, if◌then◌else◌, ◌⊎◌,
}
use coffee_chat_desktop.Prelude.Int.{ℤ}
use coffee_chat_desktop.Buffer
use coffee_chat_desktop.Buffer.{Buffer, length_of}
use coffee_chat_desktop.Buffer.Bytes.{be_bytes}
use coffee_chat_desktop.Buffer.Valid.{contents, length_of_lem}
use coffee_chat_desktop.Buffer.Integers.{Reads, read_int32_lem}
use coffee_chat_desktop.Buffer.Contents.{Holds, skip_lem, reset_lem, to_slice_lem}
use coffee_chat_desktop.Client.{
  Client, Event, Protobuf, header_size, max_buffer_len, cmd_msg_data, cmd_auth_rsp,
}
use coffee_chat_desktop.Client.Packets.{packet}
use coffee_chat_desktop.Client.Parsing.{header_of, settle_lem}
use coffee_chat_desktop.Client.Receive.{
  round, on_message, on_handle_data, chat_manager_on_handle_data,
}
use coffee_chat_desktop.Client.Delivery.{IsReady, IsSendable, packet_lem, on_message_lem}

-- `onHandleData` takes nothing of a chat message out of the buffer.
chat_leaves_buffer :
    (pb : Protobuf) (now : ℕ) (answer : ℤ) (c : Client) (len seq : ℕ) (bytes : List ℕ)
    → Holds bytes c.recv_buffer
    → (events : List Event) × (on_handle_data pb (header_of len cmd_msg_data seq) now answer c
        ≡ ok (c, events))
unfolding on_handle_data chat_manager_on_handle_data
chat_leaves_buffer pb now answer c len seq bytes h =
    rw (to_slice_lem c.recv_buffer h.valid) (_, refl)

-- A chat message with a body, smaller than `kMaxBufferLen`, arrives at a client that has an
-- empty buffer with room: `onMessage` stops at its assert, whatever the message says and
-- whatever up to 2^30 bytes are behind it. The handler of `ChatManager` leaves the body in the
-- buffer.
pub chat_message_aborts :
    (pb : Protobuf) (now : ℕ) (answer : ℤ) (c : Client) (seq x : ℕ) (body rest : List ℕ)
    → IsReady (header_size + length (x ∷ body) + length rest) c
    → IsSendable cmd_msg_data seq (x ∷ body) rest
    → on_message pb (packet cmd_msg_data seq (x ∷ body) ++ rest) now answer c ≡ some abort
chat_message_aborts pb now answer c seq x body rest ready s =
    let (b, h, e) = packet_lem pb now answer c cmd_msg_data seq (x ∷ body) rest ready s in
    let (events, e') =
      chat_leaves_buffer pb now answer (record c { recv_buffer = b })
        (header_size + length (x ∷ body)) seq ((x ∷ body) ++ rest) h in
    e
    ∙ rw (e', settle_lem (record c { recv_buffer = b }) events (length rest) ((x ∷ body) ++ rest) h)
        (ground (arith, length-append body rest))

-- `onHandleData` drops the length of the whole packet, of which the header is read already.
unknown_skips :
    (pb : Protobuf) (now : ℕ) (answer : ℤ) (c : Client) (len cmd seq : ℕ) (bytes : List ℕ)
    → Holds bytes c.recv_buffer
    → cmd ≢ cmd_auth_rsp
    → cmd ≢ cmd_msg_data
    → (b : Buffer) × Holds (drop len bytes) b
      × (on_handle_data pb (header_of len cmd seq) now answer c
          ≡ ok (record c { recv_buffer = b }, []))
unfolding on_handle_data
unknown_skips pb now answer c len cmd seq bytes h na nm =
    let (b, e, hb) =
      Returns-eq
        (λ b'.
          Holds (drop len (contents c.recv_buffer)) b' × (b'.capacity ≡ c.recv_buffer.capacity))
        _ (skip_lem c.recv_buffer len h.valid) in
    (
      b,
      record { valid = hb.0.valid; held = hb.0.held ∙ ap (drop len) h.held },
      rw e (ground (arith, na, nm)),
    )

-- A packet of an unknown command, smaller than `kMaxBufferLen` and no bare header alone, arrives
-- at a client that has an empty buffer with room. It is passed over if it is the last of what
-- arrives; any byte behind it makes `onMessage` stop at its assert, since sixteen bytes too many
-- are dropped.
pub unknown_command_lem :
    (pb : Protobuf) (now : ℕ) (answer : ℤ) (c : Client) (cmd seq : ℕ) (body rest : List ℕ)
    → IsReady (header_size + length body + length rest) c
    → IsSendable cmd seq body rest
    → cmd ≢ cmd_auth_rsp
    → cmd ≢ cmd_msg_data
    → (b : Buffer) × Holds [] b
      × (on_message pb (packet cmd seq body ++ rest) now answer c
          ≡ (if length rest == 0 then some (ok (record c { recv_buffer = b }, [])) else some abort))
unknown_command_lem pb now answer c cmd seq body rest ready s na nm =
    let len = header_size + length body in
    let (b, h, e) = packet_lem pb now answer c cmd seq body rest ready s in
    let (q, hq, eq) =
      unknown_skips pb now answer (record c { recv_buffer = b }) len cmd seq (body ++ rest) h na
        nm in
    (
      Buffer.reset q,
      reset_lem q hq.valid,
      e
          ∙ rw
              (
                eq,
                settle_lem (record c { recv_buffer = q }) [] (length rest) (drop len (body ++ rest))
                    hq,
              )
              (ground (arith, length-append body rest, length-drop len (body ++ rest))),
    )

-- More than sixteen bytes arrive at a client that has an empty buffer with room. If the first
-- packet is longer than what arrives, not smaller than `kMaxBufferLen`, or of a length below
-- four, all of them are dropped: no handler runs, and the client is as before, with an empty
-- buffer.
pub dropped_lem :
    (pb : Protobuf) (now : ℕ) (answer : ℤ) (c : Client) (len : ℕ) (tail : List ℕ)
    → IsReady (length (be_bytes 4 len ++ tail)) c
    → 12 < length tail
    → len < 2 ^ 32
    → (len < 4) ⊎ (4 + length tail < len) ⊎ (max_buffer_len ≤ len)
    → (b : Buffer) × Holds [] b
      × (on_message pb (be_bytes 4 len ++ tail) now answer c
          ≡ some (ok (record c { recv_buffer = b }, [])))
unfolding round
dropped_lem pb now answer c len tail ready long small bad =
    let (b, h, e) = on_message_lem pb (be_bytes 4 len ++ tail) now answer c ready (omega arith) in
    let (r, er, hr) =
      Returns-eq (λ r. Reads len tail r × (r.1.capacity ≡ b.capacity)) _
        (read_int32_lem b h.valid len tail small h.held) in
    (
      Buffer.reset r.1,
      reset_lem r.1 hr.0.1.valid,
      e ∙ rw (er, hr.0.0, length_of_lem r.1 hr.0.1.valid, hr.0.1.held) (ground (arith, bad)),
    )
