-- ===== src/Client/LoggedOut.antt =====
-- What each operation of mac/chatkit/cim/core/client.cpp does to the login status.
use coffee_chat_desktop.Prelude.{
  ℕ, ◌≡◌, refl, List, arith, Option, none, some, ok, Safely, Safely-bind, false, Bool,
}
use coffee_chat_desktop.Prelude.Int.{ℤ}
use coffee_chat_desktop.Tcp.{ConnectAnswers}
use coffee_chat_desktop.Client.{default, Client, Protobuf}
use coffee_chat_desktop.Client.Invariant.{IsKept}
use coffee_chat_desktop.Client.Frame.{send, send_raw, conn_status}
use coffee_chat_desktop.Client.Session.{
  is_login_ok, logout, send_logout, drop_client, login, on_timer, login_timeout_events,
}

-- The client is not logged in.
abbrev pub IsOut : Client → Type 0
IsOut c = is_login_ok c.login_status ≡ false

pub send-IsOut :
    (cmd : ℕ) (body : List ℕ) (now : ℕ) (answer : ℤ) (c : Client)
    → IsOut c
    → Safely (send cmd body now answer c) (λ r. IsOut r.1)
unfolding send send_raw conn_status
send-IsOut cmd body now answer c out = ground arith

pub drop_client-IsOut : (t : Option ℕ) (c : Client) → IsOut c → IsOut (drop_client t c).0
unfolding drop_client
drop_client-IsOut none c out = out
drop_client-IsOut (some i) c out = out

module _ (pb : Protobuf) (now : ℕ) (answer : ℤ) where
  send_logout-IsOut : (c : Client) → IsOut c → Safely (send_logout pb now answer c) (λ r. IsOut r.0)
  unfolding send_logout
  send_logout-IsOut c out = rw out out

  pub logout-IsOut : (c : Client) → IsOut c → Safely (logout pb now answer c) (λ r. IsOut r.0)
  unfolding logout
  logout-IsOut c out =
      Safely-bind (λ r. IsOut r.0) _ (send_logout pb now answer c) _ (send_logout-IsOut c out)
        (λ r o. drop_client-IsOut r.0.tcp_client (record r.0 { login_status = default }) refl)

  pub login-IsOut :
      (name pwd : List ℕ) (cb timeout_cb : Bool) (fresh : ℕ) (a : ConnectAnswers) (c : Client)
      → IsOut c
      → Safely (login pb name pwd cb timeout_cb now answer fresh a c) (λ r. IsOut r.0)
  unfolding login
  login-IsOut name pwd cb timeout_cb fresh a c out =
      Safely-bind (λ r. IsOut r.0) _ (logout pb now answer c) _ (logout-IsOut c out)
        (λ r o. ground arith)

  -- A client that is not logged in is not logged out by its timer.
  pub on_timer_eq :
      (c : Client) → IsOut c → on_timer pb now answer c ≡ ok (c, login_timeout_events pb now c)
  unfolding on_timer
  on_timer_eq c out = rw out refl

-- So whatever comes in leaves it so.
pub IsOut-IsKept : (pb : Protobuf) → IsKept pb IsOut
IsOut-IsKept pb = record {
  keeps_buffer = λ c b out. out;
  keeps_send = send-IsOut;
  keeps_logout = logout-IsOut pb;
}
