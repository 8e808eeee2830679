-- ===== src/Tests/Accepted.antt =====
-- A run in which the login dialog accepts.
use coffee_chat_desktop.Prelude.{ℕ, ◌≡◌, refl, List, [], ◌∷◌, length, some, ok, arith}
use coffee_chat_desktop.Prelude.Int.{pos}
use coffee_chat_desktop.Tcp.{StreamHandle}
use coffee_chat_desktop.Client.{Client, login_result, cmd_auth_rsp}
use coffee_chat_desktop.Client.Packets.{packet}
use coffee_chat_desktop.Client.Delivery.{IsReady}
use coffee_chat_desktop.System.{on_read_event}
use coffee_chat_desktop.System.Login.{answer_event_lem}
use coffee_chat_desktop.Dialogs.Acceptance.{Answered, uv_reads, accepted, shown, accepted-Answered}
use coffee_chat_desktop.Tests.Messages.{
  parse_auth, parsers, success, body, sendable, waiting-IsReady,
}
use coffee_chat_desktop.Tests.Programs.{on_line, on_line-IsWired}

abbrev line : StreamHandle
line = record { handle = 4; fileno_ret = pos 0; fd = pos 5 }

abbrev arrived : List ℕ
arrived = packet cmd_auth_rsp 1 body

on_line-IsReady : IsReady 18 on_line
on_line-IsReady =
    let r = waiting-IsReady 18 (omega arith) in record { empty = r.empty; room = r.room }

-- The answer arrives.
read_success :
    (c' : Client) × (on_read_event parsers 3 (pos 0) line (pos (length arrived)) arrived on_line
      ≡ some (ok (c', login_result success ∷ [])))
unfolding parse_auth
read_success =
    let (b, empty, e) =
      answer_event_lem parsers body success 1 1 3 (pos 0) line on_line refl on_line-IsWired
        on_line-IsReady (sendable cmd_auth_rsp [] (omega arith) (omega arith)) refl refl refl refl
        refl in
    (record on_line { recv_buffer = b }, e)

accepted-Answered_example : (bytes : List ℕ) × (some arrived ≡ some bytes) × Answered parsers bytes
unfolding accepted shown
accepted-Answered_example =
    accepted-Answered parsers on_line read_success.0 (login_result success ∷ []) (some arrived)
      (uv_reads 3 (pos 0) line (pos (length arrived)) arrived read_success.1) on_line-IsReady refl
