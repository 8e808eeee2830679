-- ===== src/Client/Receive.antt =====
-- `onMessage` and `onHandleData` of mac/chatkit/cim/core/client.cpp, and
-- `ChatManager::onHandleData` of mac/chatkit/cim/core/chat_manager.cpp: the packets in the bytes
-- that arrive.
use coffee_chat_desktop.Prelude.{
  ℕ, zero, suc, ◌+◌, ◌-◌, ◌%◌, ◌^◌, List, [], ◌∷◌, ◌++◌, Option, none, some, length, if◌then◌else◌,
  ltb, leb, ◌==◌, add_size, sub_size, size_mod, Outcome, ok, abort, ◌>>=◌, ◌>>◌, assert,
}
use coffee_chat_desktop.Prelude.Int.{ℤ}
use coffee_chat_desktop.Buffer
use coffee_chat_desktop.Buffer.{Buffer, length_of, bytes_at_data}
use coffee_chat_desktop.Buffer.Read.{read_int32, read_int16, to_slice}
use coffee_chat_desktop.Client.{
  Client, Event, message_received, ImHeader, Protobuf, cmd_auth_rsp, cmd_msg_data, header_size,
  max_buffer_len,
}
use coffee_chat_desktop.Client.Session.{on_auth_rsp}

-- The `int` that a `size_t` is cut to, widened again when it is compared with a `size_t`.
unfoldable pub through_int : ℕ → ℕ
through_int x = let w = x % 2 ^ 32 in if ltb w (2 ^ 31) then w else w + (size_mod - 2 ^ 32)

-- The six 16-bit fields of the header, read behind the length.
unfoldable pub read_fields : ℕ → Buffer → Outcome (ImHeader × Buffer)
read_fields len b = do
  (version, b1) ← read_int16 b
  (flag, b2) ← read_int16 b1
  (service_id, b3) ← read_int16 b2
  (cmd, b4) ← read_int16 b3
  (seq, b5) ← read_int16 b4
  (reserved, b6) ← read_int16 b5
  ok (
    record {
      len = len;
      version = version;
      flag = flag;
      service_id = service_id;
      cmd = cmd;
      seq = seq;
      reserved = reserved;
    },
    b6,
  )

-- How a round of the loop in `onMessage` ends.
pub data Round : Type 0 where
  stop go_on : Client → List Event → Round

module _ (pb : Protobuf) where
  -- `ChatManager::onHandleData` for a parsed message; it leaves the buffer as it is.
  unfoldable pub on_msg_data : Option (List ℕ) → Client → List Event
  on_msg_data none c = []
  on_msg_data (some data_) c = message_received data_ ∷ []

  unfoldable pub chat_manager_on_handle_data : ImHeader → Client → Outcome (Client × List Event)
  chat_manager_on_handle_data header c = do
    bytes ← to_slice c.recv_buffer
    ok (
      c,
      if header.cmd == cmd_msg_data
          then (if c.recv_cb then on_msg_data (pb.parse_msg_data bytes) c else [])
          else [],
    )

  -- `onHandleData(header, buffer)`, on the client's own buffer.
  unfoldable pub on_handle_data : ImHeader → ℕ → ℤ → Client → Outcome (Client × List Event)
  on_handle_data header now answer c =
      if header.cmd == cmd_auth_rsp
      then (do
        bytes ← to_slice c.recv_buffer
        on_auth_rsp pb (pb.parse_auth_rsp bytes) now answer c)
      else (if header.cmd == cmd_msg_data then chat_manager_on_handle_data header c else (do
        buffer ← Buffer.skip c.recv_buffer header.len
        ok (record c { recv_buffer = buffer }, [])))

  -- A packet of the length `len` that is in the buffer, with its length already read.
  unfoldable pub handle_packet : ℕ → ℕ → ℕ → ℤ → Client → Outcome Round
  handle_packet len reset_len now answer c = do
    (header, buffer) ← read_fields len c.recv_buffer
    (c', events) ← on_handle_data header now answer (record c { recv_buffer = buffer })
    left ← length_of c'.recv_buffer
    assert (reset_len == left)
    ok (if ltb left header_size then stop c' events else go_on c' events)

  -- One round of `while (true)`.
  unfoldable pub round : ℕ → ℤ → Client → Outcome Round
  round now answer c = do
    (len, buffer) ← read_int32 c.recv_buffer
    let c' : Client = record c { recv_buffer = buffer }
    size ← length_of buffer
    let reset_len = through_int (add_size (sub_size size len) 4)
    if ltb size (sub_size len 4)
        then ok (stop c' [])
        else (if ltb len max_buffer_len
            then handle_packet len reset_len now answer c'
            else ok (stop c' []))

  -- The loop on fuel; `none` is no result of the code, but the end of the fuel.
  unfoldable pub rounds : ℕ → ℕ → ℤ → Client → List Event → Option (Outcome (Client × List Event))
  rounds zero now answer c events = none
  rounds (suc fuel) now answer c events = elim (round now answer c) [
    | abort ↦ some abort
    | ok r ↦ elim r [
      | stop c' more ↦ some (ok (c', events ++ more))
      | go_on c' more ↦ rounds fuel now answer c' (events ++ more)
    ]
  ]

  -- `recv_buffer_->Reset()` behind the loop.
  unfoldable pub finish :
      Option (Outcome (Client × List Event)) → Option (Outcome (Client × List Event))
  finish none = none
  finish (some abort) = some abort
  finish (some (ok (c, events))) =
      some (ok (record c { recv_buffer = Buffer.reset c.recv_buffer }, events))

  -- The loop on the bytes that `Write` has put behind those that are there.
  unfoldable pub receive : Outcome Buffer → ℕ → ℤ → Client → Option (Outcome (Client × List Event))
  receive abort now answer c = some abort
  receive (ok b) now answer c =
      finish
        (rounds (suc (b.write_index - b.read_index)) now answer (record c { recv_buffer = b }) [])

  -- `onMessage(conn, buf, len)` with the `len` bytes of `buf`. Each round that goes on takes a
  -- header at least, so the length of the buffer is fuel enough.
  unfoldable pub on_message : List ℕ → ℕ → ℤ → Client → Option (Outcome (Client × List Event))
  on_message bytes now answer c =
      if leb (length bytes) header_size
      then some (ok (c, []))
      else receive (Buffer.write c.recv_buffer bytes) now answer c
