-- ===== src/Dialogs.antt =====
-- mac/hellochat/gui/logindialog.cpp, user_register_dialog.cpp and server_setting_dialog.cpp: what
-- the buttons of the dialogs do. The widgets give their texts, as lists of UTF-16 units; Qt's
-- validator, `toStdString` and `toInt` are parameters, and so is what a ping answers.
pub mod Clicks
pub mod Email
pub mod Acceptance
use coffee_chat_desktop.Prelude.{
  ℕ, Bool, true, false, List, [], ◌∷◌, ◌++◌, if◌then◌else◌, leb, not, length, ◌==◌,
}
use coffee_chat_desktop.Prelude.Int.{ℤ}
use coffee_chat_desktop.Prelude.Text.{codes}
use coffee_chat_desktop.Prelude.Decimal.{to_uint16, decimal}
use coffee_chat_desktop.Client.{AuthRsp, err_success}
use coffee_chat_desktop.Config.{ServerInfoConfig}
use coffee_chat_desktop.UserManager.{HttpResponseBase, Reply, returns, throws, no_value}

-- What a dialog does: a message box with its title and text, calls of the kit, and what it does to
-- itself.
pub data Action : Type 0 where
  information : List ℕ → List ℕ → Action
  login : List ℕ → List ℕ → Action
  register_user : List ℕ → List ℕ → List ℕ → Action
  ping : List ℕ → ℕ → Action
  set_server_info : ServerInfoConfig → Action
  set_nick : List ℕ → Action
  accept close exec_server_setting exec_user_register : Action

abbrev pub tips : List ℕ → Action
tips text = information (codes "Tips") text

abbrev pub bad_email : List ℕ
bad_email = codes "邮箱格式不正确"

abbrev pub short_password : List ℕ
short_password = codes "请输入至少3位密码"

abbrev pub timed_out : List ℕ
timed_out = codes "登录超时，服务器无响应"

-- The text of a setting, and what is shown of the settings: the constructor of
-- `ServerSettingDialog`.
unfoldable pub shown_settings : ServerInfoConfig → List ℕ × List ℕ × List ℕ
shown_settings config = (config.ip, decimal config.gate_port, decimal config.http_port)

module _ (acceptable : List ℕ → Bool) (to_std_string : List ℕ → List ℕ) where
  -- `LoginDialog::on_pushButton_clicked`
  unfoldable pub login_clicked : List ℕ → List ℕ → List Action
  login_clicked user_name pwd =
      if not (acceptable user_name)
      then tips bad_email ∷ []
      else (if leb (length pwd) 3
          then tips short_password ∷ []
          else login (to_std_string user_name) (to_std_string pwd) ∷ [])

-- `LoginDialog::on_pushButton_2_clicked` and `on_pushButton_3_clicked` open another dialog.
abbrev pub settings_button_clicked : List Action
settings_button_clicked = exec_server_setting ∷ []

abbrev pub register_button_clicked : List Action
register_button_clicked = exec_user_register ∷ []

-- An exception of the call leaves the handler.
unfoldable pub register_answered : Reply HttpResponseBase → List Action
register_answered (returns true res) = tips (codes "注册成功") ∷ accept ∷ []
register_answered (returns false res) = tips (codes "注册失败：" ++ res.msg) ∷ []
register_answered (throws res) = []
register_answered (no_value res) = []

-- `UserRegisterDialog::on_pbOk_clicked`, with `registerUser` as it answers when it is called.
unfoldable pub register_clicked :
    (List ℕ → Bool)
    → (List ℕ → List ℕ)
    → (List ℕ → List ℕ → List ℕ → Reply HttpResponseBase)
    → List ℕ
    → List ℕ
    → List ℕ
    → List Action
unfolding register_answered
register_clicked acceptable to_std_string call email pwd nick =
    let name = to_std_string email in
    let word = to_std_string pwd in
    let shown = to_std_string nick in
    if not (acceptable email)
    then tips bad_email ∷ []
    else (if leb (length pwd) 3
        then tips short_password ∷ []
        else register_user name word shown ∷ register_answered (call name word shown))

-- `UserRegisterDialog::on_pbOk_2_clicked` behind the call of `generateNickName`.
unfoldable pub nick_answered : Reply (List ℕ × HttpResponseBase) → List Action
nick_answered (returns true (nick, res)) = set_nick nick ∷ []
nick_answered (returns false left) = tips (codes "获取昵称失败，请稍候重试") ∷ []
nick_answered (throws left) = []
nick_answered (no_value left) = []

-- `LoginDialog::onLoginResult` and `onLoginTimeout`
unfoldable pub on_login_result : AuthRsp → List Action
on_login_result rsp =
    if rsp.result_code == err_success then accept ∷ [] else tips rsp.result_string ∷ []

unfoldable pub on_login_timeout : List Action
on_login_timeout = tips timed_out ∷ []

-- `ServerSettingDialog::on_pushButton_clicked`, with the address as a `std::string`; the two
-- numbers are cut to an `int16_t`, here by its bit pattern, which the settings then take as a
-- `uint16_t`.
module _ (to_int : List ℕ → ℤ) (answers : List ℕ → ℕ → Bool) where
  unfoldable pub settings_clicked : List ℕ → List ℕ → List ℕ → List Action
  settings_clicked ip gate http =
      let port = to_uint16 (to_int gate) in
      let http_port = to_uint16 (to_int http) in
      if not (answers ip port)
      then ping ip port ∷ information (codes "Ping") (codes "gate端口ping失败") ∷ []
      else (if not (answers ip http_port)
          then ping ip port
            ∷ ping ip http_port
            ∷ information (codes "Ping") (codes "http端口ping失败")
            ∷ []
          else ping ip port
            ∷ ping ip http_port
            ∷ information (codes "Ping") (codes "all is success")
            ∷ set_server_info (record { ip = ip; gate_port = port; http_port = http_port })
            ∷ close
            ∷ [])
