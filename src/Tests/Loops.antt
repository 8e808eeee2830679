-- ===== src/Tests/Loops.antt =====
-- Runs of mac/chatkit/cim/base/event_loop.cpp and mac/chatkit/cim/cim_helper.cpp.
use coffee_chat_desktop.Prelude.{
  ℕ, ◌≡◌, refl, true, false, not, ◌&&◌, [], ◌∷◌, none, some, ok, abort, Returns,
}
use coffee_chat_desktop.EventLoop.{
  Loop, contains, new_timer, run_begin, register_timer, stop, new_loop,
}
use coffee_chat_desktop.EventLoop.Timers.{
  Reach, here, next, begins, registers, is_default, stop_lem,
}
use coffee_chat_desktop.Config.Memory.{memory_database}
use coffee_chat_desktop.Config.Connection.{Opening, get_conn}
use coffee_chat_desktop.Kit.{
  Kit, default_config, new_kit, k_error, k_success, set_config, init_chat_kit, init_chat_kit_with,
}
use coffee_chat_desktop.Kit.Lifetime.{init_chat_kit_failure}
use coffee_chat_desktop.Tests.Messages.{waiting}
use coffee_chat_desktop.Tests.Paths.{willing}
use coffee_chat_desktop.Tests.Settings.{no_table}

-- The loop that runs, with one timer of the client.
abbrev busy : Loop
busy = record {
  is_run = true;
  default_timer = some 1;
  live = 2 ∷ 1 ∷ [];
  handles = 2 ∷ 1 ∷ [];
  next_address = 3;
  stop_flag = false;
}

busy-Reach : Reach busy
unfolding run_begin new_timer register_timer
busy-Reach = next (next {l' = run_begin new_loop} here (begins refl)) (registers refl)

stop_lem_example : Returns (stop busy) (λ l'.
    (l'.stop_flag ≡ true)
    × ((t : ℕ)
        → contains t l'.live ≡ (contains t busy.live && not (is_default t busy.default_timer))))
stop_lem_example = stop_lem busy busy-Reach

-- A kit that was started, with a client that waits.
abbrev started : Kit memory_database
started = record (new_kit memory_database) {
  loop = busy;
  client = some waiting;
  client_timer = some 2;
  helper = record { conn = some no_table; is_open = true };
}

-- A file that does not open.
abbrev pub refuses : Opening willing memory_database
refuses = record { open_file = λ w p new. none }

init_chat_kit_failure_example :
    (k' : Kit memory_database) × (init_chat_kit willing memory_database refuses
        (set_config memory_database default_config (new_kit memory_database))
        true
      ≡ some (ok (some k_error, true, k')))
    × (init_chat_kit_with willing memory_database refuses default_config
          (new_kit memory_database)
          true
        ≡ some (ok (some k_success, true, k')))
    × (get_conn memory_database k'.helper ≡ abort)
init_chat_kit_failure_example =
    init_chat_kit_failure willing memory_database refuses default_config (new_kit memory_database)
      true refl refl refl
