-- ===== src/Client/Origin.antt =====
-- Where the responses that `Client::onMessage` of mac/chatkit/cim/core/client.cpp hands to the
-- login callback come from.
pub mod Loop
use coffee_chat_desktop.Prelude.{
  ℕ, zero, suc, ◌+◌, ◌-◌, ◌*◌, ◌≤◌, ◌<◌, ◌≡◌, refl, sym, ap, ◌∙◌, List, [], ◌∷◌, ◌++◌, All,
  All-append, length, take, drop, take-append-drop, length-take, Bool-cases, inl, inr, ==_iff,
  drop-drop, arith, Option, none, some, Outcome, ok, abort, Returns, Returns-eq, Safely,
  Safely-bind, ◌>>=◌, ◌==◌, if◌then◌else◌, true, false, Bool, subst, add_size, sub_size, size_mod,
  leb,
}
use coffee_chat_desktop.Prelude.Int.{ℤ}
use coffee_chat_desktop.Buffer
use coffee_chat_desktop.Buffer.{Buffer, skip, bytes_at_data}
use coffee_chat_desktop.Buffer.Bytes.{of_be}
use coffee_chat_desktop.Buffer.Integers.{bytes_at_data-contents}
use coffee_chat_desktop.Buffer.Read.{read_int16, read_int32, peek_int16, peek_int32}
use coffee_chat_desktop.Buffer.Valid.{IsValid, contents, length_of_lem}
use coffee_chat_desktop.Buffer.Contents.{Holds, skip_lem, to_slice_lem, write_lem, reset_lem}
use coffee_chat_desktop.Client.{
  Client, Event, tcp, sent, login_result, login_failed, login_timeout, connection_changed,
  message_received, Protobuf, AuthRsp, ImHeader, header_size, cmd_auth_rsp, cmd_msg_data,
  err_success, err_internal_error,
}
use coffee_chat_desktop.Client.Session.{on_auth_rsp, logout}
use coffee_chat_desktop.Client.Receive.{
  Round, stop, go_on, round, rounds, finish, receive, on_message, on_handle_data, handle_packet,
  read_fields, through_int, chat_manager_on_handle_data, on_msg_data,
}
use coffee_chat_desktop.Client.Silence.{IsSilent, Silent, logout-Silent}
use coffee_chat_desktop.Client.Places.{At, Rest, skip-At, HeaderAt, read_fields-HeaderAt}

-- A response that is passed on comes from a message of which `bytes` are all: at some place the
-- header of a packet has the command of a login response, and what is behind that header is
-- what the parser took the response from.
abbrev pub IsFrom : Protobuf → List ℕ → Event → Type 0
IsFrom pb bytes (login_result rsp) =
    (n : ℕ) × (of_be (take 2 (drop (n + 10) bytes)) ≡ cmd_auth_rsp)
    × (pb.parse_auth_rsp (drop (n + header_size) bytes) ≡ some rsp)
IsFrom pb bytes (tcp effect) = Unit {0}
IsFrom pb bytes (sent packet) = Unit {0}
IsFrom pb bytes (login_failed code) = code ≡ err_internal_error
IsFrom pb bytes login_timeout = Unit {0}
IsFrom pb bytes (connection_changed conn status) = Unit {0}
IsFrom pb bytes (message_received text) = Unit {0}

pub silent-IsFrom :
    (pb : Protobuf) (bytes : List ℕ) (events : List Event)
    → All IsSilent events
    → All (IsFrom pb bytes) events
silent-IsFrom pb bytes [] h = tt
silent-IsFrom pb bytes (login_result rsp ∷ events) h = absurd h.0
silent-IsFrom pb bytes (tcp effect ∷ events) h = (tt, silent-IsFrom pb bytes events h.1)
silent-IsFrom pb bytes (sent packet ∷ events) h = (tt, silent-IsFrom pb bytes events h.1)
silent-IsFrom pb bytes (login_failed code ∷ events) h = (h.0, silent-IsFrom pb bytes events h.1)
silent-IsFrom pb bytes (login_timeout ∷ events) h = (tt, silent-IsFrom pb bytes events h.1)
silent-IsFrom pb bytes (connection_changed conn status ∷ events) h =
    (tt, silent-IsFrom pb bytes events h.1)
silent-IsFrom pb bytes (message_received text ∷ events) h = (tt, silent-IsFrom pb bytes events h.1)

module _ (pb : Protobuf) (bytes : List ℕ) (now : ℕ) (answer : ℤ) where
  -- What a handler leaves: the rest of the bytes, and responses that come from them.
  abbrev pub Handled : Client × List Event → Type 0
  Handled r = Rest bytes r.0.recv_buffer × All (IsFrom pb bytes) r.1

  logout_unless :
      (t : Bool) (c : Client) → Safely (if t then ok (c, []) else logout pb now answer c) (Silent c)
  logout_unless true c = (refl, tt)
  logout_unless false c = logout-Silent pb now answer c

  passed_on :
      (t : Bool) (rsp : AuthRsp)
      → IsFrom pb bytes (login_result rsp)
      → All (IsFrom pb bytes) (if t then login_result rsp ∷ [] else [])
  passed_on true rsp h = (h, tt)
  passed_on false rsp h = tt

  on_auth_rsp-Handled :
      (parsed : Option AuthRsp) (n : ℕ) (c : Client)
      → pb.parse_auth_rsp (contents c.recv_buffer) ≡ parsed
      → of_be (take 2 (drop (n + 10) bytes)) ≡ cmd_auth_rsp
      → At bytes (n + header_size) c.recv_buffer
      → Safely (on_auth_rsp pb parsed now answer c) Handled
  unfolding on_auth_rsp
  on_auth_rsp-Handled none n c e cmd r = ((n + header_size, r), tt)
  on_auth_rsp-Handled (some rsp) n c e cmd r =
      let origin : IsFrom pb bytes (login_result rsp) =
        (n, cmd, ap pb.parse_auth_rsp (sym r.left) ∙ e) in
      Safely-bind (At bytes (n + header_size + rsp.byte_size)) Handled
        (skip c.recv_buffer rsp.byte_size) _
        (skip-At bytes (n + header_size) rsp.byte_size c.recv_buffer r)
        (λ b s.
          let c0 : Client = record c { recv_buffer = b } in
          Safely-bind (Silent c0) Handled _ _ (logout_unless (rsp.result_code == err_success) c0)
            (λ q h. (
              subst (Rest bytes) (sym h.0) (n + header_size + rsp.byte_size, s),
              All-append (IsFrom pb bytes) q.1 _ (silent-IsFrom pb bytes q.1 h.1)
                  (passed_on q.0.login_cb rsp origin),
            )))

  skipped-Handled :
      (k n : ℕ) (c : Client)
      → At bytes n c.recv_buffer
      → Safely
          (do buffer ← skip c.recv_buffer k; ok (record c { recv_buffer = buffer }, []))
          Handled
  skipped-Handled k n c r =
      Safely-bind (At bytes (n + k)) Handled (skip c.recv_buffer k) _
        (skip-At bytes n k c.recv_buffer r) (λ b s. ((n + k, s), tt))

  message-IsFrom :
      (parsed : Option (List ℕ)) (c : Client) → All (IsFrom pb bytes) (on_msg_data pb parsed c)
  unfolding on_msg_data
  message-IsFrom none c = tt
  message-IsFrom (some text) c = (tt, tt)

  chat-Handled :
      (header : ImHeader) (n : ℕ) (c : Client)
      → At bytes n c.recv_buffer
      → Safely (chat_manager_on_handle_data pb header c) Handled
  unfolding chat_manager_on_handle_data
  chat-Handled header n c r =
      let rest : Rest bytes c.recv_buffer = (n, r) in
      rw (to_slice_lem c.recv_buffer r.valid)
        (ground (arith, rest, message-IsFrom (pb.parse_msg_data (contents c.recv_buffer)) c))

  on_handle_data-Handled :
      (header : ImHeader) (n : ℕ) (c : Client)
      → header.cmd ≡ of_be (take 2 (drop (n + 10) bytes))
      → At bytes (n + header_size) c.recv_buffer
      → Safely (on_handle_data pb header now answer c) Handled
  unfolding on_handle_data
  on_handle_data-Handled header n c cmd r = elim (Bool-cases (header.cmd == cmd_auth_rsp)) [
    | inl e ↦
        rw (e, to_slice_lem c.recv_buffer r.valid)
          (on_auth_rsp-Handled (pb.parse_auth_rsp (contents c.recv_buffer)) n c refl
            (sym cmd ∙ (==_iff header.cmd cmd_auth_rsp).0 e) r)
    | inr e ↦ elim (Bool-cases (header.cmd == cmd_msg_data)) [
      | inl f ↦ rw (e, f) (chat-Handled header (n + header_size) c r)
      | inr f ↦ rw (e, f) (skipped-Handled header.len (n + header_size) c r)
    ]
  ]

  abbrev pub RoundHandled : Round → Type 0
  RoundHandled (stop c events) = Handled (c, events)
  RoundHandled (go_on c events) = Handled (c, events)

  pub handle_packet-Handled :
      (len reset_len n : ℕ) (c : Client)
      → At bytes (n + 4) c.recv_buffer
      → Safely (handle_packet pb len reset_len now answer c) RoundHandled
  unfolding handle_packet
  handle_packet-Handled len reset_len n c r =
      Safely-bind (HeaderAt bytes n) RoundHandled (read_fields len c.recv_buffer) _
        (read_fields-HeaderAt bytes len n c.recv_buffer r)
        (λ q s.
          Safely-bind Handled RoundHandled _ _
            (on_handle_data-Handled q.0 n (record c { recv_buffer = q.1 }) s.1 s.0)
            (λ p h. ground (arith, length_of_lem p.0.recv_buffer h.0.1.valid, h.0, h.1)))
