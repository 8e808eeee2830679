-- ===== src/Tests/Programs.antt =====
-- Runs of a whole login, and of its end.
use coffee_chat_desktop.Prelude.{
  ℕ, ◌≡◌, ◌≢◌, refl, true, false, List, [], ◌∷◌, ◌++◌, length, none, some, ok, Returns, arith,
}
use coffee_chat_desktop.Prelude.Int.{pos, negsuc, minus_one}
use coffee_chat_desktop.Prelude.Text.{codes}
use coffee_chat_desktop.Buffer.Contents.{Holds}
use coffee_chat_desktop.Tcp.{
  ConnectAnswers, StreamHandle, connect_ok, uv_read_start, uv_close, freed, find_conn, new_client,
}
use coffee_chat_desktop.Tcp.Lifecycle.{empty_net}
use coffee_chat_desktop.Client.{
  default, Client, Protobuf, tcp, sent, login_result, login_failed, err_internal_error,
  cmd_auth_req, cmd_auth_rsp,
}
use coffee_chat_desktop.Client.Session.{login, is_login_ok}
use coffee_chat_desktop.Client.Packets.{packet}
use coffee_chat_desktop.Client.Delivery.{IsReady}
use coffee_chat_desktop.Client.Callbacks.{reported}
use coffee_chat_desktop.System.{on_connect_event, on_read_event}
use coffee_chat_desktop.System.Login.{login_lem}
use coffee_chat_desktop.System.Wiring.{IsWired}
use coffee_chat_desktop.System.Loss.{login_lost_lem}
use coffee_chat_desktop.Tests.Messages.{
  parse_auth, parsers, waiting, success, body, sendable, waiting-IsReady,
}

-- A client without a connection, whose login request is the name.
abbrev offline : Client
offline = record waiting {
  net = record empty_net { loop_is_run = true };
  tcp_client = none;
  login_status = default;
}

abbrev named_only : Protobuf
named_only = record parsers { auth_req = λ name pwd. name }

abbrev granted : ConnectAnswers
granted = record {
  handle = 4;
  tcp_init = pos 0;
  ip4_addr = pos 0;
  tcp_connect = pos 0;
  fileno = pos 5;
}

offline-IsReady : IsReady 18 offline
offline-IsReady =
    let r = waiting-IsReady 18 (omega arith) in record { empty = r.empty; room = r.room }

not_failed : pos 0 ≢ minus_one
not_failed e = absurd (cc e)

login_lem_example :
    let h : StreamHandle = record { handle = 4; fileno_ret = pos 0; fd = pos 5 } in
    let p : List ℕ = packet cmd_auth_rsp 1 body in
    Returns
      (login named_only (codes "a@b.c") (codes "pass") true true 1 (pos 0) 1 granted offline)
      (λ r.
        (c2 : Client) × (c3 : Client) × (on_connect_event named_only 2 (pos 0) h (pos 0) r.0
          ≡ some (
              ok (
                c2,
                (sent (packet cmd_auth_req 0 (codes "a@b.c")) ∷ reported 1 connect_ok r.0)
                    ++ (tcp (uv_read_start 4) ∷ []),
              )))
        × (on_read_event named_only 3 (pos 0) h (pos (length p)) p c2
            ≡ some (ok (c3, login_result success ∷ [])))
        × (c3.tcp_client ≡ some 1)
        × ((c3.net.clients 1).connect_status ≡ connect_ok)
        × Holds [] c3.recv_buffer)
unfolding parse_auth
login_lem_example =
    login_lem named_only (codes "a@b.c") (codes "pass") body success 1 2 3 (pos 0) (pos 0) (pos 0) 1
      1 granted offline refl refl refl not_failed not_failed refl (omega arith) offline-IsReady
      (sendable cmd_auth_rsp [] (omega arith) (omega arith)) refl refl refl

-- The client that waits, on an object that libuv knows under 5.
abbrev pub on_line : Client
on_line = record waiting {
  net = record empty_net {
    clients = λ i. record new_client {
      tcp_handle = some 4;
      sock_fd = pos 5;
      connect_status = connect_ok;
      connection_cb = true;
      message_cb = true;
    };
    conn_map = (pos 5, 1) ∷ [];
    loop_is_run = true;
  };
}

pub on_line-IsWired : IsWired 1 (pos 5) connect_ok on_line.net
unfolding find_conn
on_line-IsWired = record {
  live = record { holds = refl; state = refl; found = refl };
  tells_status = refl;
  tells_bytes = refl;
}

five_is_valid : pos 5 ≢ minus_one
five_is_valid e = absurd (cc e)

login_lost_lem_example :
    let h : StreamHandle = record { handle = 4; fileno_ret = pos 0; fd = pos 5 } in
    (c' : Client) × (on_read_event parsers 9 (pos 0) h (negsuc 53) [] on_line
      ≡ some (
          ok (
            c',
            (tcp (uv_close 4) ∷ []) ++ ((login_failed err_internal_error ∷ []) ++ (tcp freed ∷ [])),
          )))
    × (c'.tcp_client ≡ none)
    × (is_login_ok c'.login_status ≡ false)
    × (find_conn (pos 5) c'.net.conn_map ≡ none)
    × (c'.net.loop_is_run ≡ true)
login_lost_lem_example =
    login_lost_lem parsers 9 53 1 (pos 0) (record { handle = 4; fileno_ret = pos 0; fd = pos 5 })
      on_line refl five_is_valid on_line-IsWired refl refl refl
