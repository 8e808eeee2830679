-- ===== src/Dialogs/Acceptance.antt =====
-- The login dialog (mac/hellochat/gui/logindialog.cpp) on the client: what its two callbacks make
-- of the events of mac/chatkit/cim/core/client.cpp, and when it accepts.
use coffee_chat_desktop.Prelude.{
  ℕ, ◌+◌, ◌≡◌, refl, Bool, true, false, List, [], ◌∷◌, All, length, take, drop, arith, Option, none,
  some, ok, Safely-ok, Bool-cases, inl, inr, ◌==◌, ==_iff, subst, ◌||◌,
}
use coffee_chat_desktop.Prelude.Int.{ℤ}
use coffee_chat_desktop.Prelude.Text.{codes}
use coffee_chat_desktop.Buffer.Bytes.{of_be}
use coffee_chat_desktop.Tcp.{StreamHandle, ConnectAnswers}
use coffee_chat_desktop.Client.{
  Client, Event, tcp, sent, login_result, login_failed, login_timeout, connection_changed,
  message_received, Protobuf, AuthRsp, header_size, err_success, cmd_auth_rsp,
}
use coffee_chat_desktop.Client.Frame.{send}
use coffee_chat_desktop.Client.Session.{login, logout, on_timer}
use coffee_chat_desktop.Client.Silence.{
  IsSilent, Silent, send-IsSilent, login-Silent, logout-Silent, on_timer-Silent,
}
use coffee_chat_desktop.Client.Delivery.{IsReady}
use coffee_chat_desktop.Client.Origin.{IsFrom, silent-IsFrom}
use coffee_chat_desktop.Client.Origin.Loop.{EndsAll, EndsFrom}
use coffee_chat_desktop.System.{on_connect_event, on_read_event}
use coffee_chat_desktop.System.Answers.{on_connect_event-IsSilent, on_read_event-EndsFrom}
use coffee_chat_desktop.Dialogs.{Action, on_login_result, on_login_timeout}
use coffee_chat_desktop.Dialogs.Clicks.{accepts}

-- The text of the response that the client makes up when the line is lost.
abbrev pub lost_text : List ℕ
lost_text = codes "连接服务器失败，网络异常或者服务器异常"

-- What the callbacks that `on_pushButton_clicked` binds do for an event of the client.
unfoldable pub shown : Event → List Action
unfolding on_login_result on_login_timeout
shown (login_result rsp) = on_login_result rsp
shown (login_failed code) =
    on_login_result (record { result_code = code; result_string = lost_text; byte_size = 0 })
shown login_timeout = on_login_timeout
shown (tcp effect) = []
shown (sent bytes) = []
shown (connection_changed conn status) = []
shown (message_received text) = []

-- Whether the dialog accepts at one of the events.
unfoldable pub accepted : List Event → Bool
unfolding shown accepts
accepted [] = false
accepted (event ∷ events) = accepts (shown event) || accepted events

-- A response of the server that says success: from some place of `bytes` on there is the header of
-- a packet with the command of a login response, and the parser makes it of what is behind this
-- header.
pub record Answered (pb : Protobuf) (bytes : List ℕ) : Type 0 where
  pub rsp : AuthRsp
  pub at : ℕ
  pub command : of_be (take 2 (drop (at + 10) bytes)) ≡ cmd_auth_rsp
  pub parsed : pb.parse_auth_rsp (drop (at + header_size) bytes) ≡ some rsp
  pub success : rsp.result_code ≡ err_success

accepted-IsFrom :
    (pb : Protobuf) (bytes : List ℕ) (events : List Event)
    → All (IsFrom pb bytes) events
    → accepted events ≡ true
    → Answered pb bytes
unfolding accepted shown on_login_result on_login_timeout accepts
accepted-IsFrom pb bytes [] h e = absurd (cc e)
accepted-IsFrom pb bytes (login_result rsp ∷ events) h e =
    elim (Bool-cases (rsp.result_code == err_success)) [
      | inl good ↦ record {
        rsp = rsp;
        at = h.0.0;
        command = h.0.1;
        parsed = h.0.2;
        success = (==_iff rsp.result_code err_success).0 good;
      }
      | inr bad ↦ accepted-IsFrom pb bytes events h.1 (ground (arith, e, bad))
    ]
accepted-IsFrom pb bytes (login_failed code ∷ events) h e =
    let other : (code == err_success) ≡ false = ground (arith, h.0) in
    accepted-IsFrom pb bytes events h.1 (ground (arith, e, other))
accepted-IsFrom pb bytes (login_timeout ∷ events) h e = accepted-IsFrom pb bytes events h.1 e
accepted-IsFrom pb bytes (tcp effect ∷ events) h e = accepted-IsFrom pb bytes events h.1 e
accepted-IsFrom pb bytes (sent packet ∷ events) h e = accepted-IsFrom pb bytes events h.1 e
accepted-IsFrom pb bytes (connection_changed conn status ∷ events) h e =
    accepted-IsFrom pb bytes events h.1 e
accepted-IsFrom pb bytes (message_received text ∷ events) h e =
    accepted-IsFrom pb bytes events h.1 e

silent_refused :
    (pb : Protobuf) (events : List Event) → All IsSilent events → accepted events ≡ true → ⊥
silent_refused pb events h e =
    let deaf : Protobuf = record pb { parse_auth_rsp = λ bytes. none } in
    let q = accepted-IsFrom deaf [] events (silent-IsFrom deaf [] events h) e in cc q.parsed

-- A call of the program or an event of libuv that ends, with what the client tells meanwhile, and
-- the bytes that the event brings if it is a read event.
pub data Happens (pb : Protobuf) (c c' : Client) (events : List Event)
    : Option (List ℕ) → Type 0 where
  logs_in :
      (name pwd : List ℕ) (cb timeout_cb : Bool) (now : ℕ) (answer : ℤ) (fresh : ℕ)
      (a : ConnectAnswers)
      → login pb name pwd cb timeout_cb now answer fresh a c ≡ ok (c', events)
      → Happens pb c c' events none
  logs_out :
      (now : ℕ) (answer : ℤ)
      → logout pb now answer c ≡ ok (c', events)
      → Happens pb c c' events none
  sends :
      (cmd : ℕ) (body : List ℕ) (now : ℕ) (answer r : ℤ)
      → send cmd body now answer c ≡ ok (r, c', events)
      → Happens pb c c' events none
  ticks :
      (now : ℕ) (answer : ℤ)
      → on_timer pb now answer c ≡ ok (c', events)
      → Happens pb c c' events none
  uv_connects :
      (now : ℕ) (answer : ℤ) (h : StreamHandle) (status : ℤ)
      → on_connect_event pb now answer h status c ≡ some (ok (c', events))
      → Happens pb c c' events none
  uv_reads :
      (now : ℕ) (answer : ℤ) (h : StreamHandle) (nread : ℤ) (bytes : List ℕ)
      → on_read_event pb now answer h nread bytes c ≡ some (ok (c', events))
      → Happens pb c c' events (some bytes)

abbrev pub arrived_size : Option (List ℕ) → ℕ
arrived_size none = 0
arrived_size (some bytes) = length bytes

-- The login dialog accepts only when the server says so: of all that happens to a client with an
-- empty buffer with room for what arrives, only a read event makes the dialog accept, and from some
-- place of its bytes on there is a header with the command of a login response, behind which the
-- parser finds a response that says success. A response that the client makes up itself never does.
pub accepted-Answered :
    (pb : Protobuf) (c c' : Client) (events : List Event) (arrived : Option (List ℕ))
    → Happens pb c c' events arrived
    → IsReady (arrived_size arrived) c
    → accepted events ≡ true
    → (bytes : List ℕ) × (arrived ≡ some bytes) × Answered pb bytes
accepted-Answered pb c c' events arrived (logs_in name pwd cb timeout_cb now answer fresh a e) ready
      said =
    absurd (
      silent_refused pb events
        (Safely-ok (Silent c) (c', events)
          (login-Silent pb now answer name pwd cb timeout_cb fresh a c) e).1
        said)
accepted-Answered pb c c' events arrived (logs_out now answer e) ready said = absurd (
    silent_refused pb events (Safely-ok (Silent c) (c', events) (logout-Silent pb now answer c) e).1
      said)
accepted-Answered pb c c' events arrived (sends cmd body now answer r e) ready said =
    let s =
      Safely-ok (λ (q, d, told). Silent c (d, told)) (r, c', events)
        (send-IsSilent cmd body now answer c) e in
    absurd (silent_refused pb events s.1 said)
accepted-Answered pb c c' events arrived (ticks now answer e) ready said = absurd (
    silent_refused pb events
      (Safely-ok (Silent c) (c', events) (on_timer-Silent pb now answer c) e).1 said)
accepted-Answered pb c c' events arrived (uv_connects now answer h status e) ready said = absurd (
    silent_refused pb events
      (subst (EndsAll IsSilent) e (on_connect_event-IsSilent pb now answer h status c)) said)
accepted-Answered pb c c' events arrived (uv_reads now answer h nread bytes e) ready said = (
  bytes,
  refl,
  accepted-IsFrom pb bytes events
      (subst (EndsFrom pb bytes) e (on_read_event-EndsFrom pb now answer h nread bytes c ready))
      said,
)
