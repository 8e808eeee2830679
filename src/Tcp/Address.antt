-- ===== src/Tcp/Address.antt =====
-- `TcpClient::remoteAddr` of mac/chatkit/cim/base/tcp_client.cpp.
use coffee_chat_desktop.Prelude.{
  ℕ, ◌-◌, ◌%◌, ◌^◌, ◌<◌, ◌≡◌, true, List, ◌∷◌, ◌++◌, ltb, if◌then◌else◌, arith, ==_iff, Returns,
}
use coffee_chat_desktop.Prelude.Text.{codes}
use coffee_chat_desktop.Prelude.Decimal.{decimal}
use coffee_chat_desktop.Tcp.{
  TcpClient, Net, ConnectAnswers, set_client, close, prepare, start_connect, connect,
}

-- `std::to_string` of an `int16_t` with this bit pattern.
unfoldable pub int16_text : ℕ → List ℕ
int16_text n = if ltb n (2 ^ 15) then decimal n else b'-' ∷ decimal (2 ^ 16 - n)

unfoldable pub remote_addr : TcpClient → List ℕ
remote_addr c = c.server_ip ++ (codes ":" ++ int16_text c.server_port)

prepare_addr :
    (this : ℕ) (ip : List ℕ) (port handle : ℕ) (net : Net)
    → remote_addr ((prepare this ip port handle net).clients this)
      ≡ ip ++ (codes ":" ++ int16_text (port % 2 ^ 16))
unfolding prepare remote_addr set_client
prepare_addr this ip port handle net = ground (arith, ==_iff this this)

start_connect_addr :
    (this : ℕ) (a : ConnectAnswers) (net : Net)
    → remote_addr ((start_connect this a net).1.clients this) ≡ remote_addr (net.clients this)
unfolding start_connect remote_addr close set_client
start_connect_addr this a net = ground (arith, ==_iff this this)

-- Behind a call of `connect` with a running loop, whether it succeeds or fails, `remoteAddr` gives
-- the address and the port: a port below 2^15 as it is, but a larger port of 16 bits as a negative
-- number, as far below 0 as the port is below 2^16.
pub remote_addr-connect :
    (this : ℕ) (ip : List ℕ) (port : ℕ) (a : ConnectAnswers) (net : Net)
    → net.loop_is_run ≡ true
    → port < 2 ^ 16
    → Returns (connect this ip port a net) (λ r.
      remote_addr (r.1.clients this)
      ≡ ip
        ++ (codes ":"
            ++ (if ltb port (2 ^ 15) then decimal port else b'-' ∷ decimal (2 ^ 16 - port))))
unfolding connect int16_text
remote_addr-connect this ip port a net run small =
    let e : port % 2 ^ 16 ≡ port = omega (arith, small) in
    ground (
      arith,
      e,
      prepare_addr this ip port a.handle net,
      start_connect_addr this a (prepare this ip port a.handle net),
    )
