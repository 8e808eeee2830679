-- ===== src/MessageModel.antt =====
-- `MessageModel` of mac/chatkit/cim/cim_def.h and cim_def.cpp.
use coffee_chat_desktop.Prelude.{ℕ, Bool, List, [], ◌||◌, ◌==◌}
use coffee_chat_desktop.Client.{Client}

-- The generated `CIMMsgInfo`, by what its fields give.
pub record MsgInfo : Type 0 where
  pub client_msg_id : List ℕ
  pub server_msg_id : ℕ
  pub msg_res_code : ℕ
  pub msg_feature : ℕ
  pub session_type : ℕ
  pub from_user_id : ℕ
  pub to_session_id : ℕ
  pub create_time : ℕ
  pub msg_type : ℕ
  pub msg_status : ℕ
  pub msg_data : List ℕ
  pub attach : List ℕ
  pub sender_client_type : ℕ

pub record MessageModel : Type 0 where
  pub client_msg_id : List ℕ
  pub server_msg_id : ℕ
  pub msg_res_code : ℕ
  pub msg_feature : ℕ
  pub session_type : ℕ
  pub from_user_id : ℕ
  pub to_session_id : ℕ
  pub create_time : ℕ
  pub msg_type : ℕ
  pub msg_status : ℕ
  pub msg_data : List ℕ
  pub attach : List ℕ
  pub sender_client_type : ℕ

-- `MessageModel()`; the first value of each enumeration is 0.
abbrev pub new_message : MessageModel
new_message = record {
  client_msg_id = [];
  server_msg_id = 0;
  msg_res_code = 0;
  msg_feature = 0;
  session_type = 0;
  from_user_id = 0;
  to_session_id = 0;
  create_time = 0;
  msg_type = 0;
  msg_status = 0;
  msg_data = [];
  attach = [];
  sender_client_type = 0;
}

-- `MessageModel(info)`. The session is read from the result code, as in the source.
unfoldable pub of_info : MsgInfo → MessageModel
of_info info = record {
  client_msg_id = info.client_msg_id;
  server_msg_id = info.server_msg_id;
  msg_res_code = info.msg_res_code;
  msg_feature = info.msg_feature;
  session_type = info.session_type;
  from_user_id = info.from_user_id;
  to_session_id = info.msg_res_code;
  create_time = info.create_time;
  msg_type = info.msg_type;
  msg_status = info.msg_status;
  msg_data = info.msg_data;
  attach = info.attach;
  sender_client_type = info.sender_client_type;
}

-- `IsMyMsg()`, with the client that `getInstance` gives.
unfoldable pub is_my_msg : Client → MessageModel → Bool
is_my_msg c m = m.from_user_id == c.user_id

abbrev pub msg_type_tips : ℕ
msg_type_tips = 8

abbrev pub msg_type_notifacation : ℕ
msg_type_notifacation = 9

-- `IsSystemMsg()`
unfoldable pub is_system_msg : MessageModel → Bool
is_system_msg m = m.msg_type == msg_type_tips || m.msg_type == msg_type_notifacation
