-- ===== src/Program/Life.antt =====
-- How a run of mac/hellochat/main.cpp ends, whatever happened in it.
use coffee_chat_desktop.Prelude.{
  ℕ, ◌≡◌, refl, sym, ap, ◌∙◌, subst, Bool, true, false, not, ◌&&◌, Option, none, some, Outcome, ok,
  abort, Returns, Returns-eq, Returns-bind, if◌then◌else◌,
}
use coffee_chat_desktop.Prelude.Int.{ℤ, pos}
use coffee_chat_desktop.EventLoop.{contains, new_loop}
use coffee_chat_desktop.EventLoop.Timers
use coffee_chat_desktop.EventLoop.Timers.{is_default, here, next, begins, registers}
use coffee_chat_desktop.Tcp.Lifecycle.{empty_net}
use coffee_chat_desktop.Client.{default, Client, Protobuf}
use coffee_chat_desktop.Client.Session
use coffee_chat_desktop.Client.Answers.{logged_out}
use coffee_chat_desktop.Files.Directories.{FileSystem}
use coffee_chat_desktop.Config.{Database, ServerInfoConfig}
use coffee_chat_desktop.Config.Connection
use coffee_chat_desktop.Config.Connection.{Opening, SqliteHelper, get_conn}
use coffee_chat_desktop.System.Invariant.{IsSound}
use coffee_chat_desktop.System.Steps
use coffee_chat_desktop.Kit.{
  Kit, new_kit, set_config, set_server_info, thread_runs, make_instance, get_instance,
  after_database, start_database, init_chat_kit, cleanup,
}
use coffee_chat_desktop.Kit.Lifetime.{create_returns, cleanup_lem}
use coffee_chat_desktop.Program.{
  forget_value, main_begin, main_end, Step, enters, loops, client_moves, settings, Lives,
  begins as begins_life, goes_on,
}

-- The client was made and is sound, the loop was only used as `EventLoop` says, and the database is
-- not marked as open.
pub record IsAlive (db : Database) (k : Kit db) : Type 0 where
  pub client : Client
  pub made : k.client ≡ some client
  pub sound : IsSound client
  pub loop : Timers.Reach k.loop
  pub shut : k.helper.is_open ≡ false

-- A database that is not marked as open is left as it is.
cleanup-Shut :
    (db : Database) (h : SqliteHelper db) → h.is_open ≡ false → Connection.cleanup db h ≡ h
unfolding Connection.cleanup
cleanup-Shut db h shut = rw shut refl

module _ (db : Database) (pb : Protobuf) where
  -- The client of a new kit.
  get_instance-IsAlive :
      (k : Kit db)
      → k.client ≡ none
      → k.loop ≡ new_loop
      → k.helper.is_open ≡ false
      → Returns (get_instance db k) (λ r. IsAlive db r.1)
  unfolding get_instance make_instance
  get_instance-IsAlive k no_client unused shut =
      let info = k.config.server_info in
      let lt = k.config.login_time_out in
      let kt = k.config.keep_alive_time_out in
      let (c, e, out) =
        Returns-eq _ (Session.create empty_net info.ip info.gate_port lt kt)
          (create_returns empty_net info.ip info.gate_port lt kt) in
      rw (no_client, e)
        (record {
          client = c;
          made = refl;
          sound = Steps.Reach-IsSound pb (Steps.created info.ip info.gate_port lt kt e);
          loop = next (subst Timers.Reach (sym unused) here) (registers refl);
          shut = shut;
        })

  set_server_info-IsAlive :
      (k : Kit db) (info : ServerInfoConfig) → IsAlive db k → IsAlive db (set_server_info db info k)
  unfolding set_server_info set_config
  set_server_info-IsAlive k info a = rw a.made (record {
    client = record (a.client) {
      server_ip = info.ip;
      gate_port = info.gate_port;
      login_time_out = k.config.login_time_out;
      keep_alive_time_out = k.config.keep_alive_time_out;
    };
    made = refl;
    sound = a.sound;
    loop = a.loop;
    shut = a.shut;
  })

  Step-IsAlive : (k k' : Kit db) → Step db pb k k' → IsAlive db k → IsAlive db k'
  unfolding thread_runs
  Step-IsAlive k k' (enters more e) a = subst (IsAlive db) (sym e) (record {
    client = a.client;
    made = a.made;
    sound = a.sound;
    loop = next a.loop (begins refl);
    shut = a.shut;
  })
  Step-IsAlive k k' (loops l s e) a = subst (IsAlive db) (sym e) (record {
    client = a.client;
    made = a.made;
    sound = a.sound;
    loop = next a.loop s;
    shut = a.shut;
  })
  Step-IsAlive k k' (client_moves c c' made s e) a =
      let same : a.client ≡ c = cc (made, a.made) in
      subst (IsAlive db) (sym e) (record {
        client = c';
        made = refl;
        sound = Steps.Step-IsSound pb c c' s (subst IsSound same a.sound);
        loop = a.loop;
        shut = a.shut;
      })
  Step-IsAlive k k' (settings info e) a =
      subst (IsAlive db) (sym e) (set_server_info-IsAlive k info a)

module _ (fs : FileSystem) (db : Database) (os : Opening fs db) (pb : Protobuf) where
  after_database-IsAlive :
      (k k' : Kit db) (w' : fs.World) (m : Option (Outcome (Bool × fs.World × SqliteHelper db)))
      → IsAlive db k
      → Connection.StaysShut fs db os m
      → forget_value fs db os pb (after_database fs db os k m) ≡ some (ok (w', k'))
      → IsAlive db k'
  unfolding forget_value after_database
  after_database-IsAlive k k' w' none a s e = absurd (cc e)
  after_database-IsAlive k k' w' (some abort) a s e = absurd (cc e)
  after_database-IsAlive k k' w' (some (ok (false, w, h))) a s e =
      let same : record k { helper = h } ≡ k' = cc e in
      subst (IsAlive db) same (record {
        client = a.client;
        made = a.made;
        sound = a.sound;
        loop = a.loop;
        shut = s w h refl;
      })
  after_database-IsAlive k k' w' (some (ok (true, w, h))) a s e = absurd (cc e)

  main_begin-IsAlive :
      (w w' : fs.World) (k : Kit db) → main_begin fs db os pb w ≡ some (ok (w', k)) → IsAlive db k
  unfolding main_begin init_chat_kit start_database
  main_begin-IsAlive w w' k e =
      let k0 : Kit db = record (new_kit db) { threads = 1 } in
      let ((c, k1), made, a) =
        Returns-eq (λ r. IsAlive db r.1) (get_instance db k0)
          (get_instance-IsAlive db pb k0 refl refl refl) in
      after_database-IsAlive k1 k w' (Connection.init fs db os k1.config.app_data_dir w k1.helper) a
        (Connection.init-Shut fs db os k1.config.app_data_dir w k1.helper a.shut)
        (ap (λ r. forget_value fs db os pb (start_database fs db os r w)) (sym made) ∙ e)

  Lives-IsAlive : (k : Kit db) → Lives fs db os pb k → IsAlive db k
  Lives-IsAlive k (begins_life w w' e) = main_begin-IsAlive w w' k e
  Lives-IsAlive k' (goes_on {k} l s) = Step-IsAlive db pb k k' s (Lives-IsAlive k l)

  -- However `main` got to its end, the dialog accepted or not, and whatever the user, libuv and the
  -- loop did since the first call, as long as `System` and `EventLoop` allow it: the database did
  -- not open, since the first call otherwise runs off its end; `cleanup` returns, and `main` with
  -- the value of the event loop of Qt if the dialog was accepted and 0 if not. The client is then
  -- logged out and without a line; the database helper, a connection that it has included, is as it
  -- was; and the loop is told to stop, its own timer freed and no other memory.
  pub main_end_lem :
      (accepted : Bool) (ret : ℤ) (now : ℕ) (answer : ℤ) (k : Kit db)
      → Lives fs db os pb k
      → (k.helper.is_open ≡ false)
        × Returns (main_end fs db os pb accepted ret now answer k) (λ r.
          (r.0 ≡ (if accepted then ret else pos 0))
          × ((c : Client) × (k.client ≡ some c)
              × (r.1.client ≡ some (logged_out c).0)
              × (r.2 ≡ (logged_out c).1)
              × ((logged_out c).0.login_status ≡ default)
              × ((logged_out c).0.tcp_client ≡ none))
          × (r.1.helper ≡ k.helper)
          × (r.1.loop.stop_flag ≡ true)
          × ((t : ℕ)
              → contains t r.1.loop.live
                ≡ (contains t k.loop.live && not (is_default t k.loop.default_timer))))
  unfolding main_end
  main_end_lem accepted ret now answer k l =
      let a = Lives-IsAlive k l in
      (
        a.shut,
        Returns-bind _ _ (cleanup db pb now answer k) _
            (cleanup_lem db pb now answer k a.client a.made a.sound.0 a.loop)
            (λ r h. (
              refl,
              (a.client, a.made, h.0, h.3, h.1, h.2),
              h.4 ∙ cleanup-Shut db k.helper a.shut,
              h.5,
              h.6,
            )),
      )
