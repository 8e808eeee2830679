-- ===== src/Client/Answers.antt =====
-- The answer to a login, from the wire to the login callback: `Client::onMessage` and
-- `Client::onHandleAuthRsp` of mac/chatkit/cim/core/client.cpp.
use coffee_chat_desktop.Prelude.{
  ℕ, ◌+◌, ◌≡◌, refl, sym, ap, ◌∙◌, List, [], ◌∷◌, ◌++◌, length, arith, Option, none, some, ok,
  abort, Returns-eq, length-append, ◌==◌, true, false, drop, drop_all, if◌then◌else◌, append-nil,
  subst,
}
use coffee_chat_desktop.Prelude.Int.{ℤ}
use coffee_chat_desktop.Buffer
use coffee_chat_desktop.Buffer.{Buffer}
use coffee_chat_desktop.Buffer.Valid.{contents}
use coffee_chat_desktop.Buffer.Contents.{Holds, skip_lem, reset_lem, to_slice_lem}
use coffee_chat_desktop.Client.{
  default, Client, Event, Protobuf, AuthRsp, login_result, header_size, cmd_auth_rsp, err_success,
}
use coffee_chat_desktop.Client.Session.{on_auth_rsp, logout, send_logout, drop_client, is_login_ok}
use coffee_chat_desktop.Client.Packets.{packet}
use coffee_chat_desktop.Client.Parsing.{header_of, settle, settle_lem}
use coffee_chat_desktop.Client.Receive.{stop, on_message, on_handle_data}
use coffee_chat_desktop.Client.Delivery.{IsReady, IsSendable, packet_lem}

-- A client that is not logged in closes its line and forgets it on `logout`.
unfoldable pub logged_out : Client → Client × List Event
logged_out c = drop_client c.tcp_client (record c { login_status = default })

pub logout_lem :
    (pb : Protobuf) (now : ℕ) (answer : ℤ) (c : Client)
    → is_login_ok c.login_status ≡ false
    → logout pb now answer c ≡ ok (logged_out c)
unfolding logout send_logout logged_out drop_client
logout_lem pb now answer c e = rw e (ground arith)

-- What a login response does to the client, before the callback.
abbrev pub answered : AuthRsp → Client → Client × List Event
answered rsp c = if rsp.result_code == err_success then (c, []) else logged_out c

abbrev pub told : AuthRsp → Client → List Event
told rsp c = if c.login_cb then login_result rsp ∷ [] else []

drop_client-keeps :
    (t : Option ℕ) (c : Client)
    → ((drop_client t c).0.recv_buffer ≡ c.recv_buffer)
      × ((drop_client t c).0.login_cb ≡ c.login_cb)
unfolding drop_client
drop_client-keeps none c = (refl, refl)
drop_client-keeps (some i) c = (refl, refl)

-- The client's buffer and callback stay as they are.
answered-keeps :
    (rsp : AuthRsp) (c : Client)
    → ((answered rsp c).0.recv_buffer ≡ c.recv_buffer) × ((answered rsp c).0.login_cb ≡ c.login_cb)
unfolding logged_out
answered-keeps rsp c =
    elim (rsp.result_code == err_success)
      as (λ t.
        ((if t then (c, []) else logged_out c).0.recv_buffer ≡ c.recv_buffer)
        × ((if t then (c, []) else logged_out c).0.login_cb ≡ c.login_cb)) [
          | true ↦ (refl, refl)
          | false ↦ drop_client-keeps c.tcp_client (record c { login_status = default })
        ]

-- The client with another buffer.
abbrev with_buffer : Buffer → Client × List Event → Client × List Event
with_buffer b r = (record r.0 { recv_buffer = b }, r.1)

drop_client-with_buffer :
    (t : Option ℕ) (c : Client) (b : Buffer)
    → with_buffer b (drop_client t c) ≡ drop_client t (record c { recv_buffer = b })
unfolding drop_client
drop_client-with_buffer none c b = refl
drop_client-with_buffer (some i) c b = refl

answered-with_buffer :
    (rsp : AuthRsp) (c : Client) (b : Buffer)
    → with_buffer b (answered rsp c) ≡ answered rsp (record c { recv_buffer = b })
unfolding logged_out
answered-with_buffer rsp c b =
    elim (rsp.result_code == err_success)
      as (λ t. with_buffer b (if t then (c, []) else logged_out c) ≡ (
        if t
        then (record c { recv_buffer = b }, [])
        else logged_out (record c { recv_buffer = b }))) [
          | true ↦ refl
          | false ↦ drop_client-with_buffer c.tcp_client (record c { login_status = default }) b
        ]

on_auth_rsp_lem :
    (pb : Protobuf) (rsp : AuthRsp) (now : ℕ) (answer : ℤ) (c : Client) (len seq : ℕ)
    (bytes : List ℕ)
    → Holds bytes c.recv_buffer
    → pb.parse_auth_rsp bytes ≡ some rsp
    → is_login_ok c.login_status ≡ false
    → (b : Buffer) × Holds (drop rsp.byte_size bytes) b
      × (on_handle_data pb (header_of len cmd_auth_rsp seq) now answer c
          ≡ ok (
            (answered rsp (record c { recv_buffer = b })).0,
            (answered rsp (record c { recv_buffer = b })).1 ++ told rsp c,
          ))
unfolding on_handle_data on_auth_rsp
on_auth_rsp_lem pb rsp now answer c len seq bytes h p out =
    let (b, e, hb) =
      Returns-eq
        (λ b'.
          Holds (drop rsp.byte_size (contents c.recv_buffer)) b'
          × (b'.capacity ≡ c.recv_buffer.capacity))
        _ (skip_lem c.recv_buffer rsp.byte_size h.valid) in
    let c0 : Client = record c { recv_buffer = b } in
    (
      b,
      record { valid = hb.0.valid; held = hb.0.held ∙ ap (drop rsp.byte_size) h.held },
      rw (to_slice_lem c.recv_buffer h.valid, h.held, p, e)
          (rw (logout_lem pb now answer c0 out) (ground (arith, answered-keeps rsp c0))),
    )

-- A login response smaller than `kMaxBufferLen` arrives alone at a client that has an empty
-- buffer with room, and is not logged in. If the parser takes its whole body, it is parsed from
-- exactly that body: the client closes its line if the response is not a success, then reports
-- the response to the login callback, and has nothing left in its buffer. The login status is
-- not set to logged in.
pub answer_lem :
    (pb : Protobuf) (rsp : AuthRsp) (now : ℕ) (answer : ℤ) (c : Client) (seq : ℕ) (body : List ℕ)
    → IsReady (header_size + length body + 0) c
    → IsSendable cmd_auth_rsp seq body []
    → pb.parse_auth_rsp body ≡ some rsp
    → rsp.byte_size ≡ length body
    → is_login_ok c.login_status ≡ false
    → (b : Buffer) × Holds [] b
      × (on_message pb (packet cmd_auth_rsp seq body) now answer c
          ≡ some (
              ok (
                (answered rsp (record c { recv_buffer = b })).0,
                (answered rsp (record c { recv_buffer = b })).1 ++ told rsp c,
              )))
answer_lem pb rsp now answer c seq body ready s p size out =
    let (b, h, e) = packet_lem pb now answer c cmd_auth_rsp seq body [] ready s in
    let (q, hq, eq) =
      on_auth_rsp_lem pb rsp now answer (record c { recv_buffer = b }) (header_size + length body)
        seq body (record { valid = h.valid; held = h.held ∙ append-nil body }) p out in
    let none_left : drop rsp.byte_size body ≡ [] =
      drop_all rsp.byte_size body (omega (arith, size)) in
    let keeps = answered-keeps rsp (record c { recv_buffer = q }) in
    let final = answered rsp (record c { recv_buffer = q }) in
    let settled : settle 0 (final.0, final.1 ++ told rsp c)
        ≡ ok (stop final.0 (final.1 ++ told rsp c)) =
      settle_lem final.0 (final.1 ++ told rsp c) 0 [] (
        subst (Holds []) (sym keeps.0) (record { valid = hq.valid; held = hq.held ∙ none_left })) in
    (
      Buffer.reset q,
      reset_lem q hq.valid,
      ap (λ l. on_message pb l now answer c) (sym (append-nil (packet cmd_auth_rsp seq body)))
          ∙ e
          ∙ rw (eq, settled, keeps.0)
              (ap (λ r. some (ok (r.0, r.1 ++ told rsp c)))
                (answered-with_buffer rsp (record c { recv_buffer = q }) (Buffer.reset q))),
    )

-- A login response with a body, smaller than `kMaxBufferLen`, arrives at a client that has an
-- empty buffer with room. If its body does not parse together with all that is behind it,
-- `onMessage` stops at its assert.
pub answer_unparsed :
    (pb : Protobuf) (now : ℕ) (answer : ℤ) (c : Client) (seq x : ℕ) (body rest : List ℕ)
    → IsReady (header_size + length (x ∷ body) + length rest) c
    → IsSendable cmd_auth_rsp seq (x ∷ body) rest
    → pb.parse_auth_rsp ((x ∷ body) ++ rest) ≡ none
    → on_message pb (packet cmd_auth_rsp seq (x ∷ body) ++ rest) now answer c ≡ some abort
unfolding on_handle_data on_auth_rsp
answer_unparsed pb now answer c seq x body rest ready s p =
    let (b, h, e) = packet_lem pb now answer c cmd_auth_rsp seq (x ∷ body) rest ready s in
    e
    ∙ rw
        (
          to_slice_lem b h.valid,
          h.held,
          p,
          settle_lem (record c { recv_buffer = b }) [] (length rest) ((x ∷ body) ++ rest) h,
        )
        (ground (arith, length-append body rest))
