-- ===== src/Client/Invariant.antt =====
-- What holds of the client of mac/chatkit/cim/core/client.cpp behind each of its handlers: a
-- property that its sends, its logout and a change of its buffer keep.
use coffee_chat_desktop.Prelude.{
  ℕ, zero, suc, ◌-◌, List, [], ◌++◌, arith, Option, none, some, Outcome, ok, abort, Safely,
  Safely-bind, ◌>>=◌, ◌==◌, if◌then◌else◌, true, false, Bool, add_size, sub_size,
}
use coffee_chat_desktop.Prelude.Int.{ℤ}
use coffee_chat_desktop.Buffer
use coffee_chat_desktop.Buffer.{Buffer, length_of}
use coffee_chat_desktop.Buffer.Read.{to_slice, read_int32}
use coffee_chat_desktop.Tcp.{ConnectionStatus, is_connect_ok}
use coffee_chat_desktop.Client.{
  Client, Event, ImHeader, Protobuf, AuthRsp, cmd_auth_req, err_success,
}
use coffee_chat_desktop.Client.Frame.{send}
use coffee_chat_desktop.Client.Session.{
  on_auth_rsp, logout, on_connected, on_disconnected, on_connection_status_changed,
}
use coffee_chat_desktop.Client.Receive.{
  Round, stop, go_on, round, rounds, finish, receive, on_message, on_handle_data, handle_packet,
  read_fields, chat_manager_on_handle_data, through_int,
}

-- The property that is kept.
pub record IsKept (pb : Protobuf) (P : Client → Type 0) : Type 0 where
  pub keeps_buffer : (c : Client) (b : Buffer) → P c → P (record c { recv_buffer = b })
  pub keeps_send :
      (cmd : ℕ) (body : List ℕ) (now : ℕ) (answer : ℤ) (c : Client)
      → P c
      → Safely (send cmd body now answer c) (λ r. P r.1)
  pub keeps_logout :
      (now : ℕ) (answer : ℤ) (c : Client) → P c → Safely (logout pb now answer c) (λ r. P r.0)

-- Whatever the code does, if it ends.
pub anyhow {ℓ} : {A : Type ℓ} (m : Outcome A) → Safely m (λ a. Unit {0})
anyhow (ok a) = tt
anyhow abort = tt

module _ (pb : Protobuf) (P : Client → Type 0) (k : IsKept pb P) (now : ℕ) (answer : ℤ) where
  logout_if-Keeps :
      (t : Bool) (c : Client)
      → P c
      → Safely (if t then ok (c, []) else logout pb now answer c) (λ r. P r.0)
  logout_if-Keeps true c out = out
  logout_if-Keeps false c out = k.keeps_logout now answer c out

  changed-Keeps :
      (status : ConnectionStatus) (c : Client)
      → P c
      → Safely
          (if is_connect_ok status
            then on_connected pb now answer c
            else on_disconnected pb now answer c)
          (λ r. P r.0)
  unfolding on_connected on_disconnected
  changed-Keeps status c out = ground (
    arith,
    k.keeps_send cmd_auth_req (pb.auth_req c.user_name c.user_pwd) now answer c out,
    k.keeps_logout now answer c out,
  )

  pub status_changed-Keeps :
      (conn : ℕ) (status : ConnectionStatus) (c : Client)
      → P c
      → Safely (on_connection_status_changed pb conn status now answer c) (λ r. P r.0)
  unfolding on_connection_status_changed
  status_changed-Keeps conn status c out =
      Safely-bind (λ r. P r.0) (λ r. P r.0)
        (if is_connect_ok status
          then on_connected pb now answer c
          else on_disconnected pb now answer c)
        _ (changed-Keeps status c out) (λ r o. o)

  on_auth_rsp-Keeps :
      (rsp : Option AuthRsp) (c : Client)
      → P c
      → Safely (on_auth_rsp pb rsp now answer c) (λ r. P r.0)
  unfolding on_auth_rsp
  on_auth_rsp-Keeps none c out = out
  on_auth_rsp-Keeps (some rsp) c out =
      let goal : Client × List Event → Type 0 = λ r. P r.0 in
      let skipped = Buffer.skip c.recv_buffer rsp.byte_size in
      Safely-bind (λ b. Unit {0}) goal skipped _ (anyhow skipped)
        (λ b u.
          Safely-bind goal goal _ _
            (logout_if-Keeps (rsp.result_code == err_success) (record c { recv_buffer = b })
              (k.keeps_buffer c b out))
            (λ r o. o))

  chat-Keeps :
      (header : ImHeader) (c : Client)
      → P c
      → Safely (chat_manager_on_handle_data pb header c) (λ r. P r.0)
  unfolding chat_manager_on_handle_data
  chat-Keeps header c out = ground arith

  auth_parsed-Keeps :
      (c : Client)
      → P c
      → Safely
          (do bytes ← to_slice c.recv_buffer; on_auth_rsp pb (pb.parse_auth_rsp bytes) now answer c)
          (λ r. P r.0)
  auth_parsed-Keeps c out =
      elim (to_slice c.recv_buffer)
        as (λ m.
          Safely (do bytes ← m; on_auth_rsp pb (pb.parse_auth_rsp bytes) now answer c)
            (λ r. P r.0)) [
              | ok bytes ↦ on_auth_rsp-Keeps (pb.parse_auth_rsp bytes) c out
              | abort ↦ tt
            ]

  skipped-Keeps :
      (n : ℕ) (c : Client)
      → P c
      → Safely
          (do buffer ← Buffer.skip c.recv_buffer n; ok (record c { recv_buffer = buffer }, []))
          (λ (r : Client × List Event). P r.0)
  skipped-Keeps n c out =
      Safely-bind (λ b. Unit {0}) (λ r. P r.0) (Buffer.skip c.recv_buffer n) _
        (anyhow (Buffer.skip c.recv_buffer n)) (λ b u. k.keeps_buffer c b out)

  on_handle_data-Keeps :
      (header : ImHeader) (c : Client)
      → P c
      → Safely (on_handle_data pb header now answer c) (λ r. P r.0)
  unfolding on_handle_data
  on_handle_data-Keeps header c out =
      ground
        (arith, auth_parsed-Keeps c out, chat-Keeps header c out, skipped-Keeps header.len c out)

  abbrev RoundKeeps : Round → Type 0
  RoundKeeps (stop c events) = P c
  RoundKeeps (go_on c events) = P c

  handle_packet-Keeps :
      (len reset_len : ℕ) (c : Client)
      → P c
      → Safely (handle_packet pb len reset_len now answer c) RoundKeeps
  unfolding handle_packet
  handle_packet-Keeps len reset_len c out =
      let fields = read_fields len c.recv_buffer in
      Safely-bind (λ r. Unit {0}) RoundKeeps fields _ (anyhow fields)
        (λ r u.
          Safely-bind (λ q. P q.0) RoundKeeps _ _
            (on_handle_data-Keeps r.0 (record c { recv_buffer = r.1 }) (k.keeps_buffer c r.1 out))
            (λ q o. ground (arith, o)))

  round-Keeps : (c : Client) → P c → Safely (round pb now answer c) RoundKeeps
  unfolding round
  round-Keeps c out =
      let len = read_int32 c.recv_buffer in
      Safely-bind (λ r. Unit {0}) RoundKeeps len _ (anyhow len)
        (λ r u.
          let size = length_of r.1 in
          Safely-bind (λ n. Unit {0}) RoundKeeps size _ (anyhow size)
            (λ n u'. ground (
              arith,
              k.keeps_buffer c r.1 out,
              handle_packet-Keeps r.0 (through_int (add_size (sub_size n r.0) 4))
                  (record c { recv_buffer = r.1 }) (k.keeps_buffer c r.1 out),
            )))

  -- What holds of the client whenever `onMessage` ends.
  abbrev pub Keeps : Option (Outcome (Client × List Event)) → Type 0
  Keeps none = Unit {0}
  Keeps (some r) = Safely r (λ q. P q.0)

  after_round-Keeps :
      (fuel : ℕ) (events : List Event) (m : Outcome Round)
      → Safely m RoundKeeps
      → ((c' : Client) (more : List Event) → P c' → Keeps (rounds pb fuel now answer c' more))
      → Keeps (elim m [
        | abort ↦ some abort
        | ok r ↦ elim r [
          | stop c' more ↦ some (ok (c', events ++ more))
          | go_on c' more ↦ rounds pb fuel now answer c' (events ++ more)
        ]
      ])
  after_round-Keeps fuel events abort s go = tt
  after_round-Keeps fuel events (ok (stop c' more)) s go = s
  after_round-Keeps fuel events (ok (go_on c' more)) s go = go c' (events ++ more) s

  rounds-Keeps :
      (fuel : ℕ) (c : Client) (events : List Event)
      → P c
      → Keeps (rounds pb fuel now answer c events)
  unfolding rounds
  rounds-Keeps zero c events out = tt
  rounds-Keeps (suc fuel) c events out =
      after_round-Keeps fuel events (round pb now answer c) (round-Keeps c out)
        (λ c' more o. rounds-Keeps fuel c' more o)

  finish-Keeps : (m : Option (Outcome (Client × List Event))) → Keeps m → Keeps (finish pb m)
  unfolding finish
  finish-Keeps none h = tt
  finish-Keeps (some abort) h = tt
  finish-Keeps (some (ok (c, events))) h = k.keeps_buffer c (Buffer.reset c.recv_buffer) h

  receive-Keeps : (m : Outcome Buffer) (c : Client) → P c → Keeps (receive pb m now answer c)
  unfolding receive
  receive-Keeps abort c out = tt
  receive-Keeps (ok b) c out = finish-Keeps _ (
      rounds-Keeps (suc (b.write_index - b.read_index)) (record c { recv_buffer = b }) []
        (k.keeps_buffer c b out))

  pub on_message-Keeps :
      (bytes : List ℕ) (c : Client) → P c → Keeps (on_message pb bytes now answer c)
  unfolding on_message
  on_message-Keeps bytes c out =
      ground (arith, receive-Keeps (Buffer.write c.recv_buffer bytes) c out)
