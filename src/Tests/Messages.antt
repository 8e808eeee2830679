-- ===== src/Tests/Messages.antt =====
-- Runs of mac/chatkit/cim/core/client.cpp, with a small stand-in for the generated parsers.
use coffee_chat_desktop.Prelude.{
  ℕ, zero, suc, ◌^◌, ◌<◌, ◌≡◌, ◌≢◌, inl, inr, refl, true, false, List, [], ◌∷◌, ◌++◌, length,
  Option, none, some, arith, ok, abort, replicate,
}
use coffee_chat_desktop.Prelude.Int.{pos}
use coffee_chat_desktop.Buffer.{Buffer}
use coffee_chat_desktop.Buffer.Bytes.{be_bytes}
use coffee_chat_desktop.Buffer.Valid.{IsValid}
use coffee_chat_desktop.Buffer.Contents.{Holds}
use coffee_chat_desktop.Tcp.{connect_ok, new_client}
use coffee_chat_desktop.Tcp.Lifecycle.{empty_net}
use coffee_chat_desktop.Client.{
  Client, AuthRsp, Protobuf, logining, sent, login_result, cmd_msg_data, cmd_auth_rsp,
}
use coffee_chat_desktop.Client.Frame.{send}
use coffee_chat_desktop.Client.Packets.{packet}
use coffee_chat_desktop.Client.Sending.{send_lem}
use coffee_chat_desktop.Client.Receive.{on_message}
use coffee_chat_desktop.Client.Delivery.{IsReady, IsSendable}
use coffee_chat_desktop.Client.Timeouts.{answered_late, on_ticks, reports}
use coffee_chat_desktop.Client.Answers.{answer_lem}
use coffee_chat_desktop.Client.Refused.{chat_message_aborts, dropped_lem}
use coffee_chat_desktop.Client.Termination.{Ends, on_message-Ends}

unfoldable pub parse_auth : List ℕ → Option AuthRsp
parse_auth [] = none
parse_auth (zero ∷ rest) = none
parse_auth (suc code ∷ rest) =
    some (record { result_code = suc code; result_string = rest; byte_size = suc (length rest) })

abbrev pub parsers : Protobuf
parsers = record {
  auth_req = λ name pwd. name ++ pwd;
  logout_req = λ id. id ∷ [];
  msg_data = λ from nick kind to text. from ∷ kind ∷ to ∷ text;
  parse_auth_rsp = parse_auth;
  parse_msg_data = some;
}

abbrev pub empty_buffer : Buffer
empty_buffer = record {
  buffer = 0 ∷ 0 ∷ 0 ∷ 0 ∷ [];
  capacity = 4;
  read_index = 2;
  write_index = 2;
  reserved_prepend_size = 2;
}

-- A client that waits for the answer to its login, on the connected object 1.
abbrev pub waiting : Client
waiting = record {
  net = record empty_net { clients = λ i. record new_client { connect_status = connect_ok } };
  tcp_client = some 1;
  recv_buffer = empty_buffer;
  login_status = logining;
  last_login_time = 0;
  last_send_time = 0;
  last_recv_time = 0;
  login_cb = true;
  login_timeout_cb = true;
  connection_cb = false;
  recv_cb = true;
  user_name = [];
  user_pwd = [];
  user_id = 0;
  seq = 65535;
  server_ip = [];
  gate_port = 8000;
  login_time_out = 15;
  keep_alive_time_out = 90;
}

empty_buffer-IsValid : IsValid empty_buffer
empty_buffer-IsValid = record {
  storage = refl;
  order = omega arith;
  fits = omega arith;
  prepend_fits = omega arith;
  small = omega arith;
}

empty_buffer-Holds : Holds [] empty_buffer
empty_buffer-Holds = record { valid = empty_buffer-IsValid; held = refl }

pub waiting-IsReady : (n : ℕ) → n < 2 ^ 20 → IsReady n waiting
waiting-IsReady n h = record { empty = empty_buffer-Holds; room = omega (arith, h) }

abbrev pub success : AuthRsp
success = record { result_code = 200; result_string = 1 ∷ []; byte_size = 2 }

abbrev pub body : List ℕ
body = 200 ∷ 1 ∷ []

pub sendable :
    (cmd : ℕ) (rest : List ℕ) → cmd < 2 ^ 16 → length rest < 2 ^ 30 → IsSendable cmd 1 body rest
sendable cmd rest hc hr = record {
  cmd_fits = hc;
  seq_fits = omega arith;
  body_fits = omega arith;
  rest_fits = hr;
  long_enough = omega arith;
}

send_lem_example :
    send 263 body 9 (pos 18) waiting
    ≡ ok (pos 18, record waiting { seq = 0; last_send_time = 9 }, sent (packet 263 0 body) ∷ [])
send_lem_example = send_lem 263 body 9 (pos 18) waiting 1 (omega arith) refl

on_message-Ends_example : Ends (Holds []) (on_message parsers (replicate 40 0) 9 (pos 0) waiting)
on_message-Ends_example =
    on_message-Ends parsers (replicate 40 0) 9 (pos 0) waiting empty_buffer-Holds (omega arith)

answer_lem_example :
    (b : Buffer) × Holds [] b
    × (on_message parsers (packet cmd_auth_rsp 1 body) 9 (pos 0) waiting
        ≡ some (ok (record waiting { recv_buffer = b }, login_result success ∷ [])))
unfolding parse_auth
answer_lem_example =
    answer_lem parsers success 9 (pos 0) waiting 1 body (waiting-IsReady 18 (omega arith))
      (sendable cmd_auth_rsp [] (omega arith) (omega arith)) refl refl refl

answered_late_example :
    (c' : Client) × (on_message parsers (packet cmd_auth_rsp 1 body) 9 (pos 0) waiting
      ≡ some (ok (c', login_result success ∷ [])))
    × (on_ticks parsers ((10, pos 0) ∷ (15000, pos 0) ∷ (20000, pos 0) ∷ []) c'
        ≡ ok (c', reports 15 true (10 ∷ 15000 ∷ 20000 ∷ [])))
unfolding parse_auth
answered_late_example =
    answered_late parsers success 9 (pos 0) waiting 1 body
      ((10, pos 0) ∷ (15000, pos 0) ∷ (20000, pos 0) ∷ []) (waiting-IsReady 18 (omega arith))
      (sendable cmd_auth_rsp [] (omega arith) (omega arith)) refl refl refl refl
      ((omega arith, omega arith), ((omega arith, omega arith), ((omega arith, omega arith), tt)))

chat_message_aborts_example :
    on_message parsers (packet cmd_msg_data 1 body ++ []) 9 (pos 0) waiting ≡ some abort
chat_message_aborts_example =
    chat_message_aborts parsers 9 (pos 0) waiting 1 200 (1 ∷ []) []
      (waiting-IsReady 18 (omega arith)) (sendable cmd_msg_data [] (omega arith) (omega arith))

not_auth_rsp : ◌≢◌ {A = ℕ} 999 cmd_auth_rsp
not_auth_rsp e = absurd (omega (arith, e))

not_msg_data : ◌≢◌ {A = ℕ} 999 cmd_msg_data
not_msg_data e = absurd (omega (arith, e))

dropped_lem_example :
    (b : Buffer) × Holds [] b
    × (on_message parsers (be_bytes 4 100 ++ replicate 20 0) 9 (pos 0) waiting
        ≡ some (ok (record waiting { recv_buffer = b }, [])))
dropped_lem_example =
    dropped_lem parsers 9 (pos 0) waiting 100 (replicate 20 0) (waiting-IsReady 24 (omega arith))
      (omega arith) (omega arith) (inr (inl (omega arith)))

-- A client with a packet in its buffer, and one byte of the next one.
abbrev filled : Client
filled = record waiting {
  recv_buffer = record {
    buffer = packet 999 1 body ++ (7 ∷ []);
    capacity = 19;
    read_index = 0;
    write_index = 19;
    reserved_prepend_size = 0;
  };
}

filled-Holds : Holds (packet 999 1 body ++ (7 ∷ [])) filled.recv_buffer
filled-Holds = record {
  valid = record {
    storage = refl;
    order = omega arith;
    fits = omega arith;
    prepend_fits = omega arith;
    small = omega arith;
  };
  held = refl;
}
