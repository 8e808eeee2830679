-- ===== src/Client.antt =====
-- mac/chatkit/cim/core/client.h and client.cpp, with the receiving half of
-- mac/chatkit/cim/core/chat_manager.cpp: the state of the client, and what it is built from.
pub mod Frame
pub mod Session
pub mod Receive
pub mod Sending
pub mod Packets
pub mod Parsing
pub mod Delivery
pub mod Answers
pub mod Refused
pub mod Consumption
pub mod Termination
pub mod Callbacks
pub mod Timeouts
pub mod Silence
pub mod Places
pub mod Origin
pub mod Invariant
pub mod LoggedOut
pub mod Reachable
use coffee_chat_desktop.Prelude.{ℕ, Bool, false, List, [], Option, none, ◌+◌, ◌*◌}
use coffee_chat_desktop.Buffer.{Buffer}
use coffee_chat_desktop.Tcp.{Net, Effect, ConnectionStatus}

pub data LoginStatus : Type 0 where
  default logining login_ok : LoginStatus

-- `CIMCmdID` and `CIMErrorCode` values of the protocol that the client uses.
abbrev pub cmd_logout_req : ℕ
cmd_logout_req = 259

abbrev pub cmd_auth_req : ℕ
cmd_auth_req = 263

abbrev pub cmd_auth_rsp : ℕ
cmd_auth_rsp = 264

abbrev pub cmd_msg_data : ℕ
cmd_msg_data = 769

abbrev pub err_success : ℕ
err_success = 200

abbrev pub err_internal_error : ℕ
err_internal_error = 201

abbrev pub max_buffer_len : ℕ
max_buffer_len = 1024 * 10

abbrev pub protocol_version : ℕ
protocol_version = 1

-- `sizeof(IMHeader)`
abbrev pub header_size : ℕ
header_size = 16

pub record ImHeader : Type 0 where
  pub len : ℕ
  pub version : ℕ
  pub flag : ℕ
  pub service_id : ℕ
  pub cmd : ℕ
  pub seq : ℕ
  pub reserved : ℕ

-- What the client reads of a parsed login response.
pub record AuthRsp : Type 0 where
  pub result_code : ℕ
  pub result_string : List ℕ
  pub byte_size : ℕ

-- The generated protobuf code: the bytes of what is sent, made of the fields that the client sets,
-- and the parsers. A chat message has the sender, its nickname, the type, the session and the text.
pub record Protobuf : Type 0 where
  pub auth_req : List ℕ → List ℕ → List ℕ
  pub logout_req : ℕ → List ℕ
  pub msg_data : ℕ → List ℕ → ℕ → ℕ → List ℕ → List ℕ
  pub parse_auth_rsp : List ℕ → Option AuthRsp
  pub parse_msg_data : List ℕ → Option (List ℕ)

-- What the client tells the outside. `login_failed` is the response that it makes up itself when
-- the line is lost.
pub data Event : Type 0 where
  tcp : Effect → Event
  sent : List ℕ → Event
  login_result : AuthRsp → Event
  login_failed : ℕ → Event
  login_timeout : Event
  connection_changed : Option ℕ → ConnectionStatus → Event
  message_received : List ℕ → Event

-- The singleton, with the settings of `g_config` that it reads and the callback of `ChatManager`.
-- A callback is a flag that says whether it is set; what it does is not part of the model, and it
-- does not call back into the client.
pub record Client : Type 0 where
  pub net : Net
  pub tcp_client : Option ℕ
  pub recv_buffer : Buffer
  pub login_status : LoginStatus
  pub last_login_time : ℕ
  pub last_send_time : ℕ
  pub last_recv_time : ℕ
  pub login_cb : Bool
  pub login_timeout_cb : Bool
  pub connection_cb : Bool
  pub recv_cb : Bool
  pub user_name : List ℕ
  pub user_pwd : List ℕ
  pub user_id : ℕ
  pub seq : ℕ
  pub server_ip : List ℕ
  pub gate_port : ℕ
  pub login_time_out : ℕ
  pub keep_alive_time_out : ℕ
