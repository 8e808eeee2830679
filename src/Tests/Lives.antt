-- ===== src/Tests/Lives.antt =====
-- A life of the client on its connection, from its creation on.
use coffee_chat_desktop.Prelude.{refl, true, []}
use coffee_chat_desktop.Prelude.Int.{pos}
use coffee_chat_desktop.Buffer
use coffee_chat_desktop.Client.{Client}
use coffee_chat_desktop.Client.Session.{create, logout, send_logout, drop_client}
use coffee_chat_desktop.System.Invariant.{IsSound}
use coffee_chat_desktop.System.Steps.{Reach, created, next, loops, logs_out, Reach-IsSound}
use coffee_chat_desktop.Tests.Messages.{parsers}
use coffee_chat_desktop.Tests.Created.{new_client_state}

-- Created, with the loop started, and logged out once.
abbrev running : Client
running = record new_client_state { net = record (new_client_state.net) { loop_is_run = true } }

running-Reach : Reach parsers running
unfolding create Buffer.create logout send_logout drop_client
running-Reach =
    next {c = running} (next {c = new_client_state} (created [] 8000 15 90 refl) (loops true refl))
      (logs_out 7 (pos 0) [] refl)

Reach-IsSound_example : IsSound running
Reach-IsSound_example = Reach-IsSound parsers running-Reach
