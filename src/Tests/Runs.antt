-- ===== src/Tests/Runs.antt =====
-- A run of mac/hellochat/main.cpp.
use coffee_chat_desktop.Prelude.{ℕ, ◌≡◌, refl, true, false, not, ◌&&◌, none, some, Returns, arith}
use coffee_chat_desktop.Prelude.Int.{pos}
use coffee_chat_desktop.Buffer
use coffee_chat_desktop.EventLoop.{contains, new_loop, register_timer}
use coffee_chat_desktop.EventLoop.Timers.{is_default}
use coffee_chat_desktop.Client.{default, Client}
use coffee_chat_desktop.Client.Session.{create}
use coffee_chat_desktop.Client.Answers.{logged_out}
use coffee_chat_desktop.Config.{create_table, default_server_ip}
use coffee_chat_desktop.Config.Memory.{memory_database, is_distinct}
use coffee_chat_desktop.Config.Connection
use coffee_chat_desktop.Kit.{Kit, new_kit, init_chat_kit, get_instance, thread_runs}
use coffee_chat_desktop.Program.{main_begin, main_end, Lives, begins, goes_on, enters}
use coffee_chat_desktop.Program.Life.{main_end_lem}
use coffee_chat_desktop.Tests.Messages.{parsers}
use coffee_chat_desktop.Tests.Created.{new_client_state}
use coffee_chat_desktop.Tests.Paths.{willing}
use coffee_chat_desktop.Tests.Loops.{refuses}

-- The kit behind the first call, with a database that does not open, and then with the thread in
-- the loop.
abbrev begun : Kit memory_database
begun = record (new_kit memory_database) {
  threads = 1;
  loop = (register_timer new_loop).1;
  client = some (record new_client_state {
    server_ip = default_server_ip;
    login_time_out = 10000;
    keep_alive_time_out = 90000;
  });
  client_timer = some 1;
  helper = record { conn = none; is_open = false };
  level = none;
}

begun-Lives : Lives willing memory_database refuses parsers begun
unfolding main_begin init_chat_kit get_instance create Buffer.create Connection.init register_timer
    is_distinct create_table Connection.prepare_directory Connection.open_database
begun-Lives = begins true true refl

running-Lives : Lives willing memory_database refuses parsers (thread_runs memory_database begun)
running-Lives = goes_on begun-Lives (enters (omega arith) refl)

main_end_lem_example :
    (false ≡ false)
    × Returns
        (main_end willing memory_database refuses parsers true
          (pos 3)
          7
          (pos 0)
          (thread_runs memory_database begun))
        (λ r.
          (r.0 ≡ pos 3)
          × ((c : Client) × ((thread_runs memory_database begun).client ≡ some c)
              × (r.1.client ≡ some (logged_out c).0)
              × (r.2 ≡ (logged_out c).1)
              × ((logged_out c).0.login_status ≡ default)
              × ((logged_out c).0.tcp_client ≡ none))
          × (r.1.helper ≡ (thread_runs memory_database begun).helper)
          × (r.1.loop.stop_flag ≡ true)
          × ((t : ℕ)
              → contains t r.1.loop.live ≡ (
                  contains t (thread_runs memory_database begun).loop.live
                  && not (is_default t (thread_runs memory_database begun).loop.default_timer))))
unfolding thread_runs
main_end_lem_example =
    main_end_lem willing memory_database refuses parsers true (pos 3) 7 (pos 0)
      (thread_runs memory_database begun) running-Lives
