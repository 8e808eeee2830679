-- ===== src/Client/Sending.antt =====
-- What `Client::send` of mac/chatkit/cim/core/client.cpp puts on the wire.
use coffee_chat_desktop.Prelude.{
  ℕ, ◌+◌, ◌%◌, ◌^◌, ◌<◌, ◌≡◌, ap, ◌∙◌, List, [], ◌∷◌, length, arith, some, ok, Returns-eq,
  if◌then◌else◌,
}
use coffee_chat_desktop.Prelude.Int.{ℤ, minus_one}
use coffee_chat_desktop.Buffer.{Buffer}
use coffee_chat_desktop.Buffer.Read.{to_slice}
use coffee_chat_desktop.Buffer.Contents.{Holds, to_slice_lem}
use coffee_chat_desktop.Tcp.{is_connect_ok}
use coffee_chat_desktop.Client.{Client, sent, header_size}
use coffee_chat_desktop.Client.Frame.{build_frame, send, send_raw, conn_status, next_seq}
use coffee_chat_desktop.Client.Packets.{packet, build_frame_lem}

framed :
    (cmd seq : ℕ) (body : List ℕ)
    → header_size + length body < 2 ^ 31
    → (b : Buffer) × (build_frame cmd seq body ≡ ok b) × (to_slice b ≡ ok (packet cmd seq body))
framed cmd seq body small =
    let (b, e, h) =
      Returns-eq (Holds (packet cmd seq body)) _ (build_frame_lem cmd seq body small) in
    (b, e, to_slice_lem b h.valid ∙ ap ok h.held)

-- `send` with a `TcpClient` and a body that fits into 2^31 bytes with its header: on a connected
-- line it writes exactly the packet with the next sequence number, and returns what the system
-- call returns; on any other line it uses up the sequence number, writes nothing, and returns
-- -1.
pub send_lem :
    (cmd : ℕ) (body : List ℕ) (now : ℕ) (answer : ℤ) (c : Client) (i : ℕ)
    → header_size + length body < 2 ^ 31
    → c.tcp_client ≡ some i
    → send cmd body now answer c ≡ (
        if is_connect_ok (c.net.clients i).connect_status
        then ok (
          answer,
          record c { seq = next_seq c.seq; last_send_time = now },
          sent (packet (cmd % 2 ^ 16) (next_seq c.seq) body) ∷ [],
        )
        else ok (minus_one, record c { seq = next_seq c.seq }, []))
unfolding send send_raw conn_status
send_lem cmd body now answer c i small here =
    let (b, e, t) = framed (cmd % 2 ^ 16) (next_seq c.seq) body small in
    rw (e, t, here) (ground (arith, here))
