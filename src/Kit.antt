-- ===== src/Kit.antt =====
-- mac/chatkit/cim/cim_helper.cpp: the start and the end of the kit, over all its parts, with the
-- settings of mac/chatkit/cim/cim_def.h.
pub mod Lifetime
use coffee_chat_desktop.Prelude.{
  ℕ, ◌+◌, ◌-◌, ◌*◌, Bool, true, false, List, [], ◌∷◌, ◌++◌, Option, none, some, Outcome, ok, abort,
  ◌>>=◌, ◌==◌,
}
use coffee_chat_desktop.Prelude.Int.{ℤ, pos, minus_one}
use coffee_chat_desktop.Prelude.Text.{codes}
use coffee_chat_desktop.Log.{spdlog_level}
use coffee_chat_desktop.EventLoop
use coffee_chat_desktop.EventLoop.{Loop, register_timer}
use coffee_chat_desktop.Tcp.Lifecycle.{empty_net}
use coffee_chat_desktop.Client.{Client, Event, Protobuf}
use coffee_chat_desktop.Client.Session
use coffee_chat_desktop.Client.Session.{logout}
use coffee_chat_desktop.Files.Directories.{FileSystem}
use coffee_chat_desktop.Config.{Database, ServerInfoConfig, default_server_ip}
use coffee_chat_desktop.Config.Connection
use coffee_chat_desktop.Config.Connection.{Opening, SqliteHelper}

-- `enum Result`
abbrev pub k_success : ℤ
k_success = pos 1

abbrev pub k_error : ℤ
k_error = minus_one

-- `ChatKitConfig`, its four parts laid out flat; a log level is not negative.
pub record ChatKitConfig : Type 0 where
  pub server_info : ServerInfoConfig
  pub app_data_dir : List ℕ
  pub login_time_out : ℕ
  pub keep_alive_span : ℕ
  pub keep_alive_time_out : ℕ
  pub log_level : ℕ

-- `ChatKitConfig{}`
abbrev pub default_config : ChatKitConfig
default_config = record {
  server_info = record { ip = default_server_ip; gate_port = 8000; http_port = 18080 };
  app_data_dir = codes "data";
  login_time_out = 10 * 1000;
  keep_alive_span = 30 * 1000;
  keep_alive_time_out = 90 * 1000;
  log_level = 2;
}

-- `g_config`, and the parts: threads that wait to enter `EventLoop::run`, the loop, the client if
-- it was made, the timer that it has, the database helper, and the level that the log was set to.
pub record Kit (db : Database) : Type 0 where
  pub config : ChatKitConfig
  pub threads : ℕ
  pub loop : Loop
  pub client : Option Client
  pub client_timer : Option ℕ
  pub helper : SqliteHelper db
  pub level : Option ℕ

module _ (db : Database) where
  abbrev pub new_kit : Kit db
  new_kit = record {
    config = default_config;
    threads = 0;
    loop = EventLoop.new_loop;
    client = none;
    client_timer = none;
    helper = record { conn = none; is_open = false };
    level = none;
  }

  -- The first use of `Client::getInstance()` makes the client, with a timer.
  unfoldable pub make_instance : Option Client → Kit db → Outcome (Client × Kit db)
  make_instance (some c) k = ok (c, k)
  make_instance none k = do
    c ←
        Session.create empty_net k.config.server_info.ip k.config.server_info.gate_port
          k.config.login_time_out k.config.keep_alive_time_out
    let (t, loop) = register_timer k.loop
    ok (c, record k { loop = loop; client = some c; client_timer = some t })

  unfoldable pub get_instance : Kit db → Outcome (Client × Kit db)
  unfolding make_instance
  get_instance k = make_instance k.client k

  -- `g_config = config`; the client reads the settings where they are.
  abbrev pub told : ChatKitConfig → Client → Client
  told config c = record c {
    server_ip = config.server_info.ip;
    gate_port = config.server_info.gate_port;
    login_time_out = config.login_time_out;
    keep_alive_time_out = config.keep_alive_time_out;
  }

  unfoldable pub set_config : ChatKitConfig → Kit db → Kit db
  set_config config k = record k {
    config = config;
    client = elim k.client [ none ↦ none | some c ↦ some (told config c) ];
  }

  -- `setChatKitServerInfo(info)`
  unfoldable pub set_server_info : ServerInfoConfig → Kit db → Kit db
  unfolding set_config
  set_server_info info k = set_config (record (k.config) { server_info = info }) k

  -- A thread that was started enters `run`.
  unfoldable pub thread_runs : Kit db → Kit db
  thread_runs k = record k { threads = k.threads - 1; loop = EventLoop.run_begin k.loop }

module _ (fs : FileSystem) (db : Database) (os : Opening fs db) where
  abbrev pub Started : Type 0
  Started = Option (Outcome (Option ℤ × fs.World × Kit db))

  -- Behind `SqliteHelper::init`. `initChatKit()` ends without `return` when the database is open:
  -- no value, `none`.
  unfoldable pub after_database :
      Kit db → Option (Outcome (Bool × fs.World × SqliteHelper db)) → Started
  unfolding spdlog_level
  after_database k none = none
  after_database k (some abort) = some abort
  after_database k (some (ok (false, w, h))) = some (ok (some k_error, w, record k { helper = h }))
  after_database k (some (ok (true, w, h))) =
      some (ok (none, w, record k { helper = h; level = some (spdlog_level k.config.log_level) }))

  unfoldable pub start_database : Outcome (Client × Kit db) → fs.World → Started
  unfolding after_database
  start_database abort w = some abort
  start_database (ok (c, k)) w =
      after_database k (Connection.init fs db os k.config.app_data_dir w k.helper)

  -- `initChatKit()`
  unfoldable pub init_chat_kit : Kit db → fs.World → Started
  unfolding start_database
  init_chat_kit k w = start_database (get_instance db (record k { threads = k.threads + 1 })) w

  -- What `initChatKit(config)` makes of the other's value. It drops it; but where the other ran off
  -- its end, its call already is undefined behaviour, which is a stop.
  unfoldable pub say_success : Started → Started
  say_success none = none
  say_success (some abort) = some abort
  say_success (some (ok (none, w, k))) = some abort
  say_success (some (ok (some value, w, k))) = some (ok (some k_success, w, k))

  -- `initChatKit(config)`
  unfoldable pub init_chat_kit_with : ChatKitConfig → Kit db → fs.World → Started
  unfolding say_success
  init_chat_kit_with config k w = say_success (init_chat_kit (set_config db config k) w)

module _ (db : Database) (pb : Protobuf) where
  -- `cleanup()`
  unfoldable pub cleanup : ℕ → ℤ → Kit db → Outcome (Kit db × List Event)
  cleanup now answer k = do
    (c, k1) ← get_instance db (record k { helper = Connection.cleanup db k.helper })
    (c', events) ← logout pb now answer c
    loop ← EventLoop.stop k1.loop
    ok (record k1 { client = some c'; loop = loop }, events)
