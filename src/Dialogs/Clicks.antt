-- ===== src/Dialogs/Clicks.antt =====
-- What the buttons of mac/hellochat/gui let through.
use coffee_chat_desktop.Prelude.{
  ℕ, ◌%◌, ◌^◌, ◌≤◌, ◌<◌, ◌≡◌, ◌↔◌, refl, Bool, true, false, List, [], ◌∷◌, length, arith,
}
use coffee_chat_desktop.Prelude.Int.{ℤ, pos}
use coffee_chat_desktop.Prelude.Text.{codes}
use coffee_chat_desktop.Prelude.Decimal.{decimal}
use coffee_chat_desktop.Config.{ServerInfoConfig}
use coffee_chat_desktop.UserManager
use coffee_chat_desktop.UserManager.{
  Response, Json, HttpResponseBase, Reply, returns, throws, no_value,
}
use coffee_chat_desktop.UserManager.Replies.{Registers, register_user_iff, register_user_done}
use coffee_chat_desktop.Dialogs.{
  Action, ping, information, login, register_user, set_nick, accept, set_server_info, close,
  exec_server_setting, exec_user_register, register_answered, register_clicked, login_clicked,
  settings_clicked, shown_settings,
}

-- The login button logs in exactly when the validator accepts the name and the password has four
-- units or more; what it passes on is both as `std::string`.
pub login_clicked_iff :
    (acceptable : List ℕ → Bool) (to_std_string : List ℕ → List ℕ) (name pwd : List ℕ)
    → (login_clicked acceptable to_std_string name pwd
        ≡ login (to_std_string name) (to_std_string pwd) ∷ [])
      ↔ ((acceptable name ≡ true) × (4 ≤ length pwd))
unfolding login_clicked
login_clicked_iff acceptable to_std_string name pwd =
    (λ h. ground (arith, h), λ h. ground (arith, h.0, h.1))

-- The `accept` of a dialog is among its actions.
unfoldable pub accepts : List Action → Bool
accepts [] = false
accepts (accept ∷ rest) = true
accepts (information title text ∷ rest) = accepts rest
accepts (login name pwd ∷ rest) = accepts rest
accepts (register_user name pwd nick ∷ rest) = accepts rest
accepts (ping ip port ∷ rest) = accepts rest
accepts (set_server_info info ∷ rest) = accepts rest
accepts (set_nick nick ∷ rest) = accepts rest
accepts (close ∷ rest) = accepts rest
accepts (exec_server_setting ∷ rest) = accepts rest
accepts (exec_user_register ∷ rest) = accepts rest

register_answered-accepts :
    (reply : Reply HttpResponseBase)
    → accepts (register_answered reply) ≡ true
    → (r : HttpResponseBase) × (reply ≡ returns true r)
unfolding accepts register_answered
register_answered-accepts (returns true r) h = (r, refl)
register_answered-accepts (returns false r) h = absurd (ground (arith, h))
register_answered-accepts (throws r) h = absurd (ground (arith, h))
register_answered-accepts (no_value r) h = absurd (ground (arith, h))

-- The registration dialog closes with success exactly when the validator accepts the address, the
-- password has four units or more, the JSON library writes the request, with the name, the nickname
-- and the MD5 digest of the password, and the server's answer to it has the status 200 and the
-- success code, with a message.
pub register_clicked_iff :
    (acceptable : List ℕ → Bool) (to_std_string : List ℕ → List ℕ) (json : Json)
    (post : List ℕ → List ℕ → List ℕ → Response) (info : ServerInfoConfig) (email pwd nick : List ℕ)
    (out : HttpResponseBase)
    → (accepts (
          register_clicked acceptable to_std_string
            (λ name word shown. UserManager.register_user json post info name word shown out)
            email
            pwd
            nick)
        ≡ true)
      ↔ ((acceptable email ≡ true)
          × (4 ≤ length pwd)
          × ((msg : List ℕ) × Registers json post info
                (to_std_string email)
                (to_std_string pwd)
                (to_std_string nick)
                msg))
unfolding accepts register_clicked register_answered
register_clicked_iff acceptable to_std_string json post info email pwd nick out =
    let name = to_std_string email in
    let word = to_std_string pwd in
    let shown = to_std_string nick in
    let reply : Reply HttpResponseBase =
      UserManager.register_user json post info name word shown out in
    let done = register_user_iff json post info name word shown out in
    (
      λ h.
          let ok_email : acceptable email ≡ true = ground (arith, h) in
          let long : 4 ≤ length pwd = ground (arith, h, ok_email) in
          let (msg, right) =
            done.0 (register_answered-accepts reply (ground (arith, h, ok_email, long))) in
          (ok_email, long, (msg, right)),
      λ (a, l, (msg, right)).
          let e = register_user_done json post info name word shown msg out right in
          ground (arith, a, l, e),
    )

-- Opening the server settings and confirming them as they are shown, with both ports answering,
-- pings both and stores the same settings again, for ports of 16 bits and a `toInt` that reads what
-- `std::to_string` writes.
pub settings_unchanged :
    (to_int : List ℕ → ℤ) (answers : List ℕ → ℕ → Bool) (config : ServerInfoConfig)
    → ((n : ℕ) → to_int (decimal n) ≡ pos n)
    → config.gate_port < 2 ^ 16
    → config.http_port < 2 ^ 16
    → answers config.ip config.gate_port ≡ true
    → answers config.ip config.http_port ≡ true
    → (let shown : List ℕ × List ℕ × List ℕ = shown_settings config in
        settings_clicked to_int answers shown.0 shown.1 shown.2)
      ≡ ping config.ip config.gate_port
        ∷ ping config.ip config.http_port
        ∷ information (codes "Ping") (codes "all is success")
        ∷ set_server_info config
        ∷ close
        ∷ []
unfolding settings_clicked shown_settings
settings_unchanged to_int answers config reads g h a b =
    let eg : config.gate_port % 2 ^ 16 ≡ config.gate_port = omega (arith, g) in
    let eh : config.http_port % 2 ^ 16 ≡ config.http_port = omega (arith, h) in
    rw (reads config.gate_port, reads config.http_port, eg, eh, a, b) refl
