-- ===== src/Tests/Requests.antt =====
-- What the dialogs ask for and show: the conditions of the theorems on Dialogs, UserManager and
-- MsgTime, on concrete runs.
use coffee_chat_desktop.Prelude.{
  ℕ, ◌≤◌, ◌<◌, ◌⊎◌, ◌≡◌, ◌↔◌, Bool, true, false, List, [], ◌∷◌, length, Option, some, ◌+◌, ◌/◌, ◌%◌,
}
use coffee_chat_desktop.Prelude.Int.{pos}
use coffee_chat_desktop.Prelude.Text.{codes}
use coffee_chat_desktop.Client.{err_success}
use coffee_chat_desktop.UserManager.{
  Response, Json, HttpResponseBase, no_value, register_user, generate_nick_name,
}
use coffee_chat_desktop.UserManager.Replies.{Registers, generate_nick_name_iff}
use coffee_chat_desktop.Config.{ServerInfoConfig}
use coffee_chat_desktop.MsgTime.{Tm, distance, format_msg_time}
use coffee_chat_desktop.MsgTime.Shown.{has, format_msg_time_lem}
use coffee_chat_desktop.Dialogs.{register_clicked}
use coffee_chat_desktop.Dialogs.Clicks.{accepts, register_clicked_iff}

abbrev is_empty : List ℕ → Bool
is_empty [] = true
is_empty (x ∷ xs) = false

-- JSON of a toy: a value is a code with a text, and nothing is null but the empty text.
abbrev toy_json : Json
toy_json = record {
  Value = List ℕ;
  parse = some;
  is_null = is_empty;
  get_int = λ v key. some (pos err_success);
  get_string = λ v key. some v;
  dump = λ members. some [];
}

abbrev local_server : ServerInfoConfig
local_server = record { ip = codes "::1"; gate_port = 8000; http_port = 18080 }

abbrev blank : HttpResponseBase
blank = record { code = pos 0; msg = [] }

abbrev answers_ok : List ℕ → List ℕ → List ℕ → Response
answers_ok url kind request = record { code = pos 200; body = codes "ok" }

register_clicked_iff_example :
    (accepts (
        register_clicked
          (λ name. true)
          (λ text. text)
          (λ name word shown. register_user toy_json answers_ok local_server name word shown blank)
          (codes "a@b.c")
          (codes "pass")
          (codes "a"))
      ≡ true)
    ↔ ((true ≡ true)
        × (4 ≤ length (codes "pass"))
        × ((msg : List ℕ) × Registers toy_json answers_ok local_server
              (codes "a@b.c")
              (codes "pass")
              (codes "a")
              msg))
register_clicked_iff_example =
    register_clicked_iff (λ name. true) (λ text. text) toy_json answers_ok local_server
      (codes "a@b.c") (codes "pass") (codes "a") blank

generate_nick_name_iff_example :
    (((left : List ℕ × HttpResponseBase) × (generate_nick_name toy_json
            (λ url. record { code = pos 200; body = [] })
            local_server
            (codes "a")
            blank
          ≡ no_value left))
      ↔ ((pos 200 ≡ pos 200)
          × ((v : List ℕ) × (◌≡◌ {A = Option (List ℕ)} (some []) (some v)) × (is_empty v ≡ true))))
    × ((left : List ℕ × HttpResponseBase)
        → generate_nick_name toy_json
            (λ url. record { code = pos 200; body = [] })
            local_server
            (codes "a")
            blank
          ≡ no_value left
        → left ≡ (codes "a", blank))
generate_nick_name_iff_example =
    generate_nick_name_iff toy_json (λ url. record { code = pos 200; body = [] }) local_server
      (codes "a") blank

-- A calendar of thirty days in each month, in which the first of January is a Thursday.
abbrev calendar : ℕ → Tm
calendar t = record {
  tm_min = t / 60 % 60;
  tm_hour = t / 3600 % 24;
  tm_mday = t / 86400 % 30 + 1;
  tm_mon = t / 2592000 % 12;
  tm_year = t / 31104000 + 70;
  tm_wday = (t / 86400 + 4) % 7;
}

-- A message of the month before, on the same day of the month.
format_msg_time_lem_example :
    ((has b':' (format_msg_time calendar 5184000 2592000) ≡ true) ↔ (
      (3600 < 2592000)
      × ((calendar 5184000).tm_year ≡ (calendar 2592000).tm_year)
      × ((calendar 5184000).tm_mday ≡ (calendar 2592000).tm_mday)))
    × ((has b'/' (format_msg_time calendar 5184000 2592000) ≡ true) ↔ (
        (3600 < 2592000)
        × ((((calendar 5184000).tm_year ≡ (calendar 2592000).tm_year)
              × ¬ ((calendar 5184000).tm_mday / 7 ≡ (calendar 2592000).tm_mday / 7))
            ⊎ (distance (calendar 2592000).tm_year (calendar 5184000).tm_year ≡ 1))))
format_msg_time_lem_example = format_msg_time_lem calendar 5184000 2592000
