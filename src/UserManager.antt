-- ===== src/UserManager.antt =====
-- mac/chatkit/cim/core/user_manager.cpp: the two requests to the HTTP server. The HTTP client and
-- the JSON library are parameters.
pub mod Replies
use coffee_chat_desktop.Prelude.{ℕ, Bool, true, false, List, [], ◌∷◌, ◌++◌, Option, none, some}
use coffee_chat_desktop.Prelude.Int.{ℤ, pos, ◌==ℤ◌}
use coffee_chat_desktop.Prelude.Text.{codes}
use coffee_chat_desktop.Prelude.Decimal.{decimal}
use coffee_chat_desktop.Md5.{md5_of}
use coffee_chat_desktop.Client.{err_success, err_internal_error}
use coffee_chat_desktop.Config.{ServerInfoConfig}

-- `RestClient::Response`, as far as it is read.
pub record Response : Type 0 where
  pub code : ℤ
  pub body : List ℕ

-- `nlohmann::json`: `parse`, `is_null`, reading a member as a number or a text, and `dump` of an
-- object of texts; `none` is an exception.
pub record Json : Type 1 where
  pub Value : Type 0
  pub parse : List ℕ → Option Value
  pub is_null : Value → Bool
  pub get_int : Value → List ℕ → Option ℤ
  pub get_string : Value → List ℕ → Option (List ℕ)
  pub dump : List (List ℕ × List ℕ) → Option (List ℕ)

-- `HttpResponseBase`
pub record HttpResponseBase : Type 0 where
  pub code : ℤ
  pub msg : List ℕ

-- How a call ends, with what it leaves in its output arguments: it returns, it throws what the JSON
-- library throws, or it ends without a `return` though it has a value to give.
pub data Reply (A : Type 0) : Type 0 where
  returns : Bool → A → Reply A
  throws : A → Reply A
  no_value : A → Reply A

abbrev pub key_error_code : List ℕ
key_error_code = codes "error_code"

abbrev pub key_error_msg : List ℕ
key_error_msg = codes "error_msg"

abbrev pub key_nick_name : List ℕ
key_nick_name = codes "nick_name"

abbrev pub unavailable : HttpResponseBase
unavailable = record { code = pos err_internal_error; msg = codes "server unavailable" }

abbrev pub json_type : List ℕ
json_type = codes "application/json; charset=utf-8"

-- `"http://" + ip + ":" + std::to_string(httpPort) + path`
unfoldable pub server_url : ServerInfoConfig → List ℕ → List ℕ
server_url info path =
    codes "http://" ++ (info.ip ++ (codes ":" ++ (decimal info.http_port ++ path)))

unfoldable pub register_url : ServerInfoConfig → List ℕ
register_url info = server_url info (codes "/user/register")

unfoldable pub nick_name_url : ServerInfoConfig → List ℕ
nick_name_url info = server_url info (codes "/user/nickname/generate" ++ codes "?version=1")

module _ (json : Json) where
  unfoldable pub register_body : List ℕ → List ℕ → List ℕ → Option (List ℕ)
  register_body name pwd nick =
      json.dump (
        (codes "userName", name)
        ∷ (codes "userNickName", nick)
        ∷ (codes "userPwd", md5_of pwd)
        ∷ [])

  -- `value["error_code"].get<int>()` and the message, each with what is in `out` when it throws.
  unfoldable pub read_code :
      json.Value → HttpResponseBase → Option HttpResponseBase × HttpResponseBase
  read_code v out = elim (json.get_int v key_error_code) [
    | none ↦ (none, out)
    | some code ↦ elim (json.get_string v key_error_msg) [
      | none ↦ (none, record out { code = code })
      | some msg ↦ (some (record { code = code; msg = msg }), record { code = code; msg = msg })
    ]
  ]

  -- The JSON answer of `registerUser`.
  unfoldable pub registered : HttpResponseBase → Option json.Value → Reply HttpResponseBase
  registered out none = throws out
  registered out (some v) = elim (json.is_null v) [
    | true ↦ returns false out
    | false ↦ elim (read_code v out).0 [
      | none ↦ throws (read_code v out).1
      | some read ↦ returns (read.code ==ℤ pos err_success) read
    ]
  ]

  -- Behind the POST request.
  unfoldable pub register_replied : HttpResponseBase → Response → Reply HttpResponseBase
  register_replied out res = elim (res.code ==ℤ pos 200) [
    | false ↦ returns false unavailable
    | true ↦ registered out (json.parse res.body)
  ]

  -- `registerUser(userName, userPwd, nickName, out)`
  unfoldable pub register_user :
      (List ℕ → List ℕ → List ℕ → Response)
      → ServerInfoConfig
      → List ℕ
      → List ℕ
      → List ℕ
      → HttpResponseBase
      → Reply HttpResponseBase
  register_user post info name pwd nick out = elim (register_body name pwd nick) [
    | none ↦ throws out
    | some request ↦ register_replied out (post (register_url info) json_type request)
  ]

  -- The nickname of a successful answer of `generateNickName`.
  unfoldable pub named : json.Value → List ℕ → HttpResponseBase → Reply (List ℕ × HttpResponseBase)
  named v nick read = elim (read.code ==ℤ pos err_success) [
    | false ↦ returns false (nick, read)
    | true ↦ elim (json.get_string v key_nick_name) [
      | none ↦ throws (nick, read)
      | some new ↦ returns true (new, read)
    ]
  ]

  unfoldable pub generated :
      List ℕ → HttpResponseBase → Option json.Value → Reply (List ℕ × HttpResponseBase)
  generated nick out none = throws (nick, out)
  generated nick out (some v) = elim (json.is_null v) [
    | true ↦ no_value (nick, out)
    | false ↦ elim (read_code v out).0 [
      | none ↦ throws (nick, (read_code v out).1)
      | some read ↦ named v nick read
    ]
  ]

  -- `generateNickName(random_nick, out)`
  unfoldable pub generate_nick_name :
      (List ℕ → Response)
      → ServerInfoConfig
      → List ℕ
      → HttpResponseBase
      → Reply (List ℕ × HttpResponseBase)
  generate_nick_name get info nick out =
      let res = get (nick_name_url info) in
      elim (res.code ==ℤ pos 200) [
        | false ↦ returns false (nick, unavailable)
        | true ↦ generated nick out (json.parse res.body)
      ]
