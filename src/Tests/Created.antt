-- ===== src/Tests/Created.antt =====
-- A client that was only created.
use coffee_chat_desktop.Prelude.{◌≡◌, refl, true, false, [], none, ok, replicate}
use coffee_chat_desktop.Prelude.Int.{pos}
use coffee_chat_desktop.Buffer
use coffee_chat_desktop.Buffer.{Buffer}
use coffee_chat_desktop.Tcp.Lifecycle.{empty_net}
use coffee_chat_desktop.Client.{default, Client}
use coffee_chat_desktop.Client.Session.{
  create, on_timer, set_recv_msg_callback, login_timeout_events,
}
use coffee_chat_desktop.Client.Reachable.{Reach, created, next, sets_recv_cb, never_logged_in}
use coffee_chat_desktop.Tests.Messages.{parsers, waiting}

abbrev pub new_client_state : Client
new_client_state = record waiting {
  net = empty_net;
  tcp_client = none;
  recv_buffer = record {
    buffer = replicate 1032 0;
    capacity = 1032;
    read_index = 8;
    write_index = 8;
    reserved_prepend_size = 8;
  };
  login_status = default;
  login_cb = false;
  login_timeout_cb = false;
  recv_cb = false;
  seq = 0;
}

new_client-Reach : Reach parsers (record new_client_state { recv_cb = true })
unfolding create set_recv_msg_callback Buffer.create
new_client-Reach =
    next {c = new_client_state} (created empty_net [] 8000 15 90 refl) (sets_recv_cb true refl)

never_logged_in_example :
    (false ≡ false)
    × (on_timer parsers 20 (pos 0) (record new_client_state { recv_cb = true })
        ≡ ok (record new_client_state { recv_cb = true }, []))
unfolding login_timeout_events
never_logged_in_example =
    never_logged_in parsers (record new_client_state { recv_cb = true }) 20 (pos 0) new_client-Reach
