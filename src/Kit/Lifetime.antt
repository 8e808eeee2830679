-- ===== src/Kit/Lifetime.antt =====
-- The kit of mac/chatkit/cim/cim_helper.cpp from its start to its end.
use coffee_chat_desktop.Prelude.{
  ℕ, ◌+◌, ◌≡◌, refl, ap, ◌∙◌, true, false, not, ◌&&◌, List, Option, none, some, ok, abort, arith,
  Returns, Returns-eq, Returns-bind,
}
use coffee_chat_desktop.Prelude.Int.{ℤ}
use coffee_chat_desktop.Buffer
use coffee_chat_desktop.Buffer.{initial_size, cheap_prepend_size}
use coffee_chat_desktop.Buffer.Valid.{create_lem}
use coffee_chat_desktop.EventLoop
use coffee_chat_desktop.EventLoop.{Loop, contains}
use coffee_chat_desktop.EventLoop.Timers.{Reach, is_default, stop_lem}
use coffee_chat_desktop.Tcp.{Net}
use coffee_chat_desktop.Tcp.Lifecycle.{empty_net}
use coffee_chat_desktop.Client.{default, Client, Protobuf}
use coffee_chat_desktop.Client.Session.{create, is_login_ok, drop_client}
use coffee_chat_desktop.Client.Answers.{logged_out, logout_lem}
use coffee_chat_desktop.Files.Directories.{FileSystem, file_path_is_exist}
use coffee_chat_desktop.Config.{Database}
use coffee_chat_desktop.Config.Connection
use coffee_chat_desktop.Config.Connection.{
  Opening, SqliteHelper, database_filename, get_conn, init_fails,
}
use coffee_chat_desktop.Kit.{
  Kit, ChatKitConfig, k_success, k_error, make_instance, get_instance, set_config, after_database,
  start_database, init_chat_kit, say_success, init_chat_kit_with, cleanup,
}

drop_client-forgets :
    (t : Option ℕ) (c : Client)
    → c.tcp_client ≡ t
    → ((drop_client t c).0.login_status ≡ c.login_status) × ((drop_client t c).0.tcp_client ≡ none)
unfolding drop_client
drop_client-forgets none c h = (refl, h)
drop_client-forgets (some i) c h = (refl, refl)

logged_out_lem :
    (c : Client) → ((logged_out c).0.login_status ≡ default) × ((logged_out c).0.tcp_client ≡ none)
unfolding logged_out
logged_out_lem c = drop_client-forgets c.tcp_client (record c { login_status = default }) refl

pub create_returns :
    (net : Net) (ip : List ℕ) (port lt kt : ℕ)
    → Returns (create net ip port lt kt) (λ c. is_login_ok c.login_status ≡ false)
unfolding create
create_returns net ip port lt kt =
    Returns-bind _ (λ c. is_login_ok c.login_status ≡ false)
      (Buffer.create initial_size cheap_prepend_size) _
      (create_lem initial_size cheap_prepend_size (omega arith)) (λ b h. refl)

module _ (db : Database) (pb : Protobuf) where
  -- `cleanup` of a kit whose client was made and is not logged in, and whose loop was only used as
  -- `EventLoop` says: it returns, with the database helper as its own `cleanup` leaves it, the
  -- client without a line, and the loop told to stop, its own timer freed and no other.
  pub cleanup_lem :
      (now : ℕ) (answer : ℤ) (k : Kit db) (c : Client)
      → k.client ≡ some c
      → is_login_ok c.login_status ≡ false
      → Reach k.loop
      → Returns (cleanup db pb now answer k) (λ r.
        (r.0.client ≡ some (logged_out c).0)
        × ((logged_out c).0.login_status ≡ default)
        × ((logged_out c).0.tcp_client ≡ none)
        × (r.1 ≡ (logged_out c).1)
        × (r.0.helper ≡ Connection.cleanup db k.helper)
        × (r.0.loop.stop_flag ≡ true)
        × ((t : ℕ)
            → contains t r.0.loop.live
              ≡ (contains t k.loop.live && not (is_default t k.loop.default_timer))))
  unfolding cleanup get_instance make_instance
  cleanup_lem now answer k c made out reach =
      let (loop, e, stopped) = Returns-eq _ (EventLoop.stop k.loop) (stop_lem k.loop reach) in
      let gone = logged_out_lem c in
      rw (made, logout_lem pb now answer c out, e)
        (refl, gone.0, gone.1, refl, refl, stopped.0, stopped.1)

module _ (fs : FileSystem) (db : Database) (os : Opening fs db) where
  open os use {open_file}

  abbrev pub IsKept : Kit db → Client × Kit db → Type 0
  IsKept k r = (r.1.config ≡ k.config) × (r.1.helper ≡ k.helper)

  make_instance_returns :
      (o : Option Client) (k : Kit db) → Returns (make_instance db o k) (IsKept k)
  unfolding make_instance
  make_instance_returns (some c) k = (refl, refl)
  make_instance_returns none k =
      Returns-bind (λ c. is_login_ok c.login_status ≡ false) (IsKept k) _ _
        (create_returns empty_net k.config.server_info.ip k.config.server_info.gate_port
          k.config.login_time_out k.config.keep_alive_time_out)
        (λ c h. (refl, refl))

  pub get_instance_returns : (k : Kit db) → Returns (get_instance db k) (IsKept k)
  unfolding get_instance
  get_instance_returns k = make_instance_returns k.client k

  -- With a directory that is there and a database file that does not open, `initChatKit()`
  -- answers `kError`, but `initChatKit(config)` answers `kSuccess`, and the first use of the
  -- connection stops at its assert, if there was none before.
  pub init_chat_kit_failure :
      (config : ChatKitConfig) (k : Kit db) (w : fs.World)
      → fs.is_dir w config.app_data_dir ≡ true
      → (let file : List ℕ = database_filename config.app_data_dir in
          open_file w file (not (file_path_is_exist fs w file false)) ≡ none)
      → k.helper.conn ≡ none
      → (k' : Kit db) × (init_chat_kit fs db os (set_config db config k) w
          ≡ some (ok (some k_error, w, k')))
        × (init_chat_kit_with fs db os config k w ≡ some (ok (some k_success, w, k')))
        × (get_conn db k'.helper ≡ abort)
  unfolding init_chat_kit init_chat_kit_with start_database after_database say_success get_conn
      set_config
  init_chat_kit_failure config k w there fails unset =
      let k0 : Kit db = record (set_config db config k) { threads = k.threads + 1 } in
      let ((c, k1), e, kept) =
        Returns-eq (λ r. (r.1.config ≡ config) × (r.1.helper ≡ k.helper)) (get_instance db k0)
          (get_instance_returns k0) in
      let no_file =
        init_fails fs db os k1.config.app_data_dir w k1.helper (rw kept.0 there)
          (rw kept.0 fails) in
      let started : init_chat_kit fs db os (set_config db config k) w
          ≡ some (ok (some k_error, w, k1)) =
        ap (λ r. start_database fs db os r w) e ∙ ap (after_database fs db os k1) no_file in
      (k1, started, ap (say_success fs db os) started, rw (kept.1, unset) refl)
