-- ===== src/Tests/Connections.antt =====
-- Runs of mac/chatkit/cim/base/tcp_client.cpp.
use coffee_chat_desktop.Prelude.{ℕ, ◌≡◌, ◌≢◌, refl, true, [], ◌∷◌, none, abort, Returns}
use coffee_chat_desktop.Prelude.Int.{pos, negsuc, minus_one}
use coffee_chat_desktop.Tcp.{
  Net, ConnectAnswers, StreamHandle, connecting, connect_ok, find_conn, close, start_connect,
  prepare, connect, on_connect, on_read, new_client,
}
use coffee_chat_desktop.Tcp.Registry.{IsConsistent}
use coffee_chat_desktop.Tcp.Lifecycle.{
  connects, loops, Reach, here, next, empty_net, Reach-IsConsistent, IsLive, IsLost, connect-IsLost,
}
use coffee_chat_desktop.Tcp.Stale.{stale_close}

abbrev running : Net
running = record empty_net { loop_is_run = true }

abbrev answers : ConnectAnswers
answers = record {
  handle = 40;
  tcp_init = pos 0;
  ip4_addr = pos 0;
  tcp_connect = pos 0;
  fileno = pos 7;
}

seven_is_valid : pos 7 ≢ minus_one
seven_is_valid e = absurd (cc e)

zero_is_valid : pos 0 ≢ minus_one
zero_is_valid e = absurd (cc e)

-- The state in which the object 1 is connecting on the descriptor 7.
abbrev waiting : Net
waiting = (start_connect 1 answers (prepare 1 (49 ∷ []) 8000 40 running)).1

waiting-Reach : Reach empty_net waiting
unfolding connect start_connect prepare close
waiting-Reach =
    next (next here (loops true refl))
      (connects 1 (49 ∷ []) 8000 answers true [] seven_is_valid refl)

Reach-IsConsistent_example : IsConsistent waiting
Reach-IsConsistent_example = Reach-IsConsistent waiting-Reach

connect-IsLost_example :
    let h : StreamHandle = record { handle = 40; fileno_ret = pos 0; fd = pos 7 } in
    Returns (connect 1 (49 ∷ []) 8000 answers running) (λ r.
      (r.0 ≡ true)
      × IsLive 1 (pos 7) connecting r.1
      × Returns (on_connect h (pos 0) r.1) (λ s.
        IsLive 1 (pos 7) connect_ok s.0
        × Returns (on_read h (negsuc 4094) [] s.0) (λ t. IsLost 1 (pos 7) t.0)))
connect-IsLost_example =
    connect-IsLost 1 (49 ∷ []) 8000 answers running 4094 refl zero_is_valid zero_is_valid refl
      seven_is_valid

-- The object 2 is on the descriptor 0, which the new object 1 carries from its constructor.
abbrev on_zero : Net
on_zero = record running { clients = λ i. new_client; conn_map = (pos 0, 2) ∷ [] }

zero_handle : StreamHandle
zero_handle = record { handle = 41; fileno_ret = pos 0; fd = pos 0 }

two_is_not_one : ◌≢◌ {A = ℕ} 2 1
two_is_not_one e = absurd (cc e)

stale_close_example :
    ((close 1 on_zero).0.clients 2 ≡ on_zero.clients 2)
    × (find_conn (pos 0) (close 1 on_zero).0.conn_map ≡ none)
    × (on_connect zero_handle (pos 0) (close 1 on_zero).0 ≡ abort)
unfolding find_conn zero_handle
stale_close_example = stale_close 1 2 zero_handle on_zero two_is_not_one refl zero_is_valid refl
