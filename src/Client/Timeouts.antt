-- ===== src/Client/Timeouts.antt =====
-- The login time-out of `Client::onTimer` of mac/chatkit/cim/core/client.cpp.
use coffee_chat_desktop.Prelude.{
  ℕ, ◌+◌, ◌-◌, ◌%◌, ◌^◌, ◌<◌, ◌≤◌, ◌≡◌, refl, List, [], ◌∷◌, length, arith, some, ok, ap, ltb, ◌++◌,
  ◌&&◌, Bool, All, map, if◌then◌else◌, Outcome, ◌>>=◌, size_mod, sub_size,
}
use coffee_chat_desktop.Prelude.Int.{ℤ}
use coffee_chat_desktop.Client.{
  logining, Client, Protobuf, AuthRsp, Event, login_timeout, header_size, cmd_auth_rsp, err_success,
}
use coffee_chat_desktop.Client.Session.{on_timer, login_timeout_events}
use coffee_chat_desktop.Client.Packets.{packet}
use coffee_chat_desktop.Client.Receive.{on_message}
use coffee_chat_desktop.Client.Delivery.{IsReady, IsSendable}
use coffee_chat_desktop.Client.Answers.{told, answer_lem}

-- Between two clocks of a `size_t`, the later one first, there is what there is.
sub_size-later : (t last : ℕ) → last ≤ t → t < size_mod → sub_size t last ≡ t - last
sub_size-later t last le small = omega (arith, le, small)

-- What the timer ought to say at each of some ticks, when a login is waited for: a time-out at
-- those that are later than the deadline, if someone listens.
pub reports : ℕ → Bool → List ℕ → List Event
reports deadline listens [] = []
reports deadline listens (t ∷ ts) =
    let rest = reports deadline listens ts in
    if ltb deadline t && listens then login_timeout ∷ rest else rest

-- Ticks of the timer one after the other, each at a time and with an answer of the socket.
pub on_ticks : Protobuf → List (ℕ × ℤ) → Client → Outcome (Client × List Event)
on_ticks pb [] c = ok (c, [])
on_ticks pb ((t, answer) ∷ ticks) c = do
  (c1, events) ← on_timer pb t answer c
  (c2, later) ← on_ticks pb ticks c1
  ok (c2, events ++ later)

-- The last time at which the answer to a login is in time, its limit cut to 16 bits.
abbrev pub login_deadline : Client → ℕ
login_deadline c = c.last_login_time + c.login_time_out % 2 ^ 16

-- Not before the login, and a clock of a `size_t`.
abbrev pub IsAfterLogin : Client → ℕ × ℤ → Type 0
IsAfterLogin c tick = (c.last_login_time ≤ tick.0) × (tick.0 < size_mod)

on_timer_waiting :
    (pb : Protobuf) (t : ℕ) (answer : ℤ) (c : Client)
    → c.login_status ≡ logining
    → IsAfterLogin c (t, answer)
    → on_timer pb t answer c ≡ ok (c, reports (login_deadline c) c.login_timeout_cb (t ∷ []))
unfolding on_timer login_timeout_events reports
on_timer_waiting pb t answer c waits after =
    let span = sub_size-later t c.last_login_time after.0 after.1 in
    let over : ltb (c.login_time_out % 2 ^ 16) (t - c.last_login_time) ≡ ltb (login_deadline c) t =
      ground (arith, after.0) in
    rw (waits, span, over) ground arith

reports-append :
    (deadline : ℕ) (listens : Bool) (t : ℕ) (ts : List ℕ)
    → reports deadline listens (t ∷ []) ++ reports deadline listens ts
      ≡ reports deadline listens (t ∷ ts)
unfolding reports
reports-append deadline listens t ts = ground arith

on_ticks_waiting :
    (pb : Protobuf) (ticks : List (ℕ × ℤ)) (c : Client)
    → c.login_status ≡ logining
    → All (IsAfterLogin c) ticks
    → on_ticks pb ticks c
      ≡ ok (c, reports (login_deadline c) c.login_timeout_cb (map (λ tick. tick.0) ticks))
unfolding on_ticks reports
on_ticks_waiting pb [] c waits after = refl
on_ticks_waiting pb ((t, answer) ∷ ticks) c waits after =
    rw (on_timer_waiting pb t answer c waits after.0, on_ticks_waiting pb ticks c waits after.1)
      (ap (λ events. ok (c, events))
        (reports-append (login_deadline c) c.login_timeout_cb t (map (λ tick. tick.0) ticks)))

-- A successful answer to a login, smaller than `kMaxBufferLen`, comes to a client that waits for it
-- and has an empty buffer with room. It reaches the login callback, if there is one. But the timer
-- goes on as if it had not come: whatever ticks follow, at times from the login on that a `size_t`
-- holds, each one past the limit for the login, in the 16 bits that it is cut to, reports a login
-- time-out, if there is a callback for it, the others report nothing, and none changes the client.
pub answered_late :
    (pb : Protobuf) (rsp : AuthRsp) (now : ℕ) (answer : ℤ) (c : Client) (seq : ℕ) (body : List ℕ)
    (ticks : List (ℕ × ℤ))
    → IsReady (header_size + length body + 0) c
    → IsSendable cmd_auth_rsp seq body []
    → pb.parse_auth_rsp body ≡ some rsp
    → rsp.byte_size ≡ length body
    → rsp.result_code ≡ err_success
    → c.login_status ≡ logining
    → All (IsAfterLogin c) ticks
    → (c' : Client) × (on_message pb (packet cmd_auth_rsp seq body) now answer c
        ≡ some (ok (c', told rsp c)))
      × (on_ticks pb ticks c'
          ≡ ok (c', reports (login_deadline c) c.login_timeout_cb (map (λ tick. tick.0) ticks)))
answered_late pb rsp now answer c seq body ticks ready s parses size good waits after =
    let (b, empty, e) =
      answer_lem pb rsp now answer c seq body ready s parses size (rw waits refl) in
    let c' : Client = record c { recv_buffer = b } in
    (c', rw (e, good) refl, on_ticks_waiting pb ticks c' waits after)
