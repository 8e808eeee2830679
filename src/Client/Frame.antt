-- ===== src/Client/Frame.antt =====
-- `Client::send` of mac/chatkit/cim/core/client.cpp: the frame of a message.
use coffee_chat_desktop.Prelude.{
  ℕ, ◌+◌, ◌%◌, ◌^◌, List, [], ◌∷◌, Option, none, some, length, if◌then◌else◌, Outcome, ok, abort,
  ◌>>=◌,
}
use coffee_chat_desktop.Prelude.Int.{ℤ, minus_one}
use coffee_chat_desktop.Buffer.{
  Buffer, create, cheap_prepend_size, append_int32, append_int16, fill_at_write_begin, write_bytes,
}
use coffee_chat_desktop.Buffer.Read.{to_slice}
use coffee_chat_desktop.Tcp
use coffee_chat_desktop.Tcp.{ConnectionStatus, is_connect_ok}
use coffee_chat_desktop.Client.{Client, Event, sent, header_size, protocol_version}

-- `header.len`, a `uint32_t`.
abbrev pub frame_len : List ℕ → ℕ
frame_len body = (header_size + length body) % 2 ^ 32

-- The frame that `send` builds, for the command, the sequence number and the serialised message.
unfoldable pub build_frame : ℕ → ℕ → List ℕ → Outcome Buffer
build_frame cmd seq body = do
  b0 ← create (frame_len body) cheap_prepend_size
  b1 ← append_int32 b0 (frame_len body)
  b2 ← append_int16 b1 protocol_version
  b3 ← append_int16 b2 0
  b4 ← append_int16 b3 0
  b5 ← append_int16 b4 cmd
  b6 ← append_int16 b5 seq
  b7 ← append_int16 b6 0
  write_bytes (fill_at_write_begin b7 body) (length body)

-- A null `tcp_client_` is dereferenced.
unfoldable pub deref : Option ℕ → Outcome ℕ
deref none = abort
deref (some i) = ok i

-- `connStatus()`
unfoldable pub conn_status : Client → Outcome ConnectionStatus
unfolding deref
conn_status c = do i ← deref c.tcp_client; ok (c.net.clients i).connect_status

-- `send(data, len)`; `answer` is what the system call returns.
unfoldable pub send_raw : List ℕ → ℕ → ℤ → Client → Outcome (ℤ × Client × List Event)
unfolding deref Tcp.send
send_raw bytes now answer c = do
  i ← deref c.tcp_client
  r ← Tcp.send i answer c.net
  ok (r, record c { last_send_time = now }, sent bytes ∷ [])

-- `getSeq()` counts in a `uint16_t`.
abbrev pub next_seq : ℕ → ℕ
next_seq seq = (seq + 1) % 2 ^ 16

-- `send(cmd_id, msg)`; `kError` is -1.
unfoldable pub send : ℕ → List ℕ → ℕ → ℤ → Client → Outcome (ℤ × Client × List Event)
send cmd body now answer c = do
  let c' : Client = record c { seq = next_seq c.seq }
  frame ← build_frame (cmd % 2 ^ 16) c'.seq body
  bytes ← to_slice frame
  status ← conn_status c'
  if is_connect_ok status then send_raw bytes now answer c' else ok (minus_one, c', [])
