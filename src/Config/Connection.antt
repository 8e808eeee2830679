-- ===== src/Config/Connection.antt =====
-- mac/chatkit/cim/db/sqlite3_helper.cpp: opening the database, and the connection that the
-- operations of `ConfigDao` ask for.
use coffee_chat_desktop.Prelude.{
  ℕ, ◌≡◌, refl, sym, ap, ◌∙◌, Bool, true, false, not, List, [], ◌∷◌, ◌++◌, Option, none, some,
  if◌then◌else◌, Outcome, ok, abort, arith, subst, append_assoc, Option-cases, inl, inr,
}
use coffee_chat_desktop.Prelude.Text.{codes}
use coffee_chat_desktop.Files.{parse_path_components, parse_from}
use coffee_chat_desktop.Files.Directories.{
  FileSystem, file_path_is_exist, create_components, create_directory,
}
use coffee_chat_desktop.Files.Paths.{Name, path_of, text, parse_path_components_overrun}
use coffee_chat_desktop.Config.{Database, ServerInfoConfig, default_server_ip, create_table, query}
use coffee_chat_desktop.Config.Laws.{IsLawful, IsWorking}
use coffee_chat_desktop.Config.Create.{query-create_table}

-- What opening a database asks of the system: the constructor of `SQLite::Database`, with or
-- without `OPEN_CREATE`; `none` is an exception.
pub record Opening (fs : FileSystem) (db : Database) : Type 0 where
  pub open_file : fs.World → List ℕ → Bool → Option db.State

-- `db_` and `db_is_open_`
pub record SqliteHelper (db : Database) : Type 0 where
  pub conn : Option db.State
  pub is_open : Bool

-- `kDefaultAppDataFilename`
abbrev pub default_filename : List ℕ
default_filename = codes "msg.db"

unfoldable pub database_filename : List ℕ → List ℕ
database_filename [] = default_filename
database_filename (c ∷ dir) = (c ∷ dir) ++ (b'/' ∷ default_filename)

module _ (db : Database) where
  unfoldable pub cleanup : SqliteHelper db → SqliteHelper db
  cleanup h = if h.is_open then record { conn = none; is_open = false } else h

  -- `getConn()`, with its assert.
  unfoldable pub get_conn : SqliteHelper db → Outcome db.State
  get_conn h = elim h.conn [ none ↦ abort | some s ↦ ok s ]

module _ (fs : FileSystem) (db : Database) (os : Opening fs db) where
  open os use {open_file}

  -- `createTable` on what was opened; its failure leaves the connection set.
  unfoldable pub init_table : Bool × db.State → SqliteHelper db → Bool × SqliteHelper db
  init_table (true, s) h = (true, record { conn = some s; is_open = true })
  init_table (false, s) h = (false, record h { conn = some s })

  unfoldable pub open_database : List ℕ → fs.World → SqliteHelper db → Bool × SqliteHelper db
  unfolding init_table
  open_database filename w h =
      elim (open_file w filename (not (file_path_is_exist fs w filename false))) [
        | none ↦ (false, h)
        | some s ↦ init_table (create_table db s) h
      ]

  -- The result of `CreateDirectory` is not looked at.
  unfoldable pub open_behind :
      List ℕ
      → Option (Outcome (Bool × fs.World))
      → SqliteHelper db
      → Option (Outcome (Bool × fs.World × SqliteHelper db))
  open_behind filename none h = none
  open_behind filename (some abort) h = some abort
  open_behind filename (some (ok (made, w))) h =
      let (done, h') = open_database filename w h in some (ok (done, w, h'))

  -- The directory of the settings; an empty name is no directory.
  unfoldable pub prepare_directory : List ℕ → fs.World → Option (Outcome (Bool × fs.World))
  prepare_directory [] w = some (ok (true, w))
  prepare_directory (c ∷ dir) w =
      if file_path_is_exist fs w (c ∷ dir) true
      then some (ok (true, w))
      else create_directory fs (some ((c ∷ dir) ++ (0 ∷ []))) w

  -- `init()`, with `app_data_dir` of the settings.
  unfoldable pub init :
      List ℕ → fs.World → SqliteHelper db → Option (Outcome (Bool × fs.World × SqliteHelper db))
  unfolding open_behind
  init dir w h = open_behind (database_filename dir) (prepare_directory dir w) h

  prepare_there :
      (dir : List ℕ) (w : fs.World)
      → fs.is_dir w dir ≡ true
      → prepare_directory dir w ≡ some (ok (true, w))
  unfolding prepare_directory
  prepare_there [] w h = refl
  prepare_there (c ∷ dir) w h = ground (arith, h)

  open_behind_lem :
      (filename : List ℕ) (w : fs.World) (h : SqliteHelper db) (s : db.State)
      → open_file w filename (not (file_path_is_exist fs w filename false)) ≡ some s
      → (create_table db s).0 ≡ true
      → open_behind filename (some (ok (true, w))) h
        ≡ some (ok (true, w, record { conn = some (create_table db s).1; is_open = true }))
  unfolding open_behind open_database
  open_behind_lem filename w h s opens done = ground (arith, opens, done)

  -- A helper that was not marked as open is not marked when opening says no.
  abbrev pub StaysShut : Option (Outcome (Bool × fs.World × SqliteHelper db)) → Type 0
  StaysShut m =
      (w' : fs.World) (h' : SqliteHelper db) → m ≡ some (ok (false, w', h')) → h'.is_open ≡ false

  init_table-Shut :
      (r : Bool × db.State) (h : SqliteHelper db)
      → h.is_open ≡ false
      → (init_table r h).0 ≡ false
      → (init_table r h).1.is_open ≡ false
  unfolding init_table
  init_table-Shut (true, s) h shut e = absurd (cc e)
  init_table-Shut (false, s) h shut e = shut

  open_database-Shut :
      (filename : List ℕ) (w : fs.World) (h : SqliteHelper db)
      → h.is_open ≡ false
      → (open_database filename w h).0 ≡ false
      → (open_database filename w h).1.is_open ≡ false
  unfolding open_database
  open_database-Shut filename w h shut =
      elim (Option-cases (open_file w filename (not (file_path_is_exist fs w filename false)))) [
        | inl missing ↦ rw (missing, open_database) (λ e. shut)
        | inr (s, found) ↦ rw (found, open_database) (init_table-Shut (create_table db s) h shut)
      ]

  open_behind-Shut :
      (filename : List ℕ) (m : Option (Outcome (Bool × fs.World))) (h : SqliteHelper db)
      → h.is_open ≡ false
      → StaysShut (open_behind filename m h)
  unfolding open_behind
  open_behind-Shut filename none h shut = λ w' h' e. absurd (cc e)
  open_behind-Shut filename (some abort) h shut = λ w' h' e. absurd (cc e)
  open_behind-Shut filename (some (ok (made, w))) h shut = λ w' h' e.
      let refused : (open_database filename w h).0 ≡ false = cc e in
      let same : (open_database filename w h).1 ≡ h' = cc e in
      subst (λ x. x.is_open ≡ false) same (open_database-Shut filename w h shut refused)

  pub init-Shut :
      (dir : List ℕ) (w : fs.World) (h : SqliteHelper db)
      → h.is_open ≡ false
      → StaysShut (init dir w h)
  unfolding init
  init-Shut dir w h shut = open_behind-Shut (database_filename dir) (prepare_directory dir w) h shut

  pub init_fails :
      (dir : List ℕ) (w : fs.World) (h : SqliteHelper db)
      → fs.is_dir w dir ≡ true
      → open_file w
          (database_filename dir)
          (not (file_path_is_exist fs w (database_filename dir) false))
        ≡ none
      → init dir w h ≡ some (ok (false, w, h))
  unfolding init open_behind open_database
  init_fails dir w h there fails =
      ap (λ r. open_behind (database_filename dir) r h) (prepare_there dir w there)
      ∙ ground (arith, fails)

  init_stops :
      (dir : List ℕ) (w : fs.World) (h : SqliteHelper db)
      → fs.is_dir w dir ≡ false
      → create_directory fs (some (dir ++ (0 ∷ []))) w ≡ some abort
      → init dir w h ≡ some abort
  unfolding init prepare_directory create_directory create_components parse_path_components
      parse_from
  init_stops [] w h missing e = absurd (cc e)
  init_stops (c ∷ dir) w h missing e =
      subst
        (λ b.
          open_behind (database_filename (c ∷ dir))
            (if b
              then some (ok (true, w))
              else create_directory fs (some ((c ∷ dir) ++ (0 ∷ []))) w)
            h
          ≡ some abort)
        (sym missing) (ap (λ r. open_behind (database_filename (c ∷ dir)) r h) e)

  -- A directory that is not there and whose name has no separator at its end, as the default "data"
  -- has none, stops `init`: `CreateDirectory` reads behind the name.
  pub init_overrun :
      (ns : List Name) (n : Name) (w : fs.World) (h : SqliteHelper db)
      → fs.is_dir w (path_of ns ++ text n) ≡ false
      → init (path_of ns ++ text n) w h ≡ some abort
  unfolding create_directory create_components
  init_overrun ns n w h missing = init_stops (path_of ns ++ text n) w h missing (
      ap (λ p. create_components fs (parse_path_components p) w)
        (append_assoc (path_of ns) (text n) (0 ∷ []))
      ∙ ap (λ r. create_components fs r w) (parse_path_components_overrun ns n))

  -- With its directory there, and a file that opens on a database with no table whose table and
  -- index can be made, `init` says yes, and the connection reads the default settings.
  pub init_fresh :
      (laws : IsLawful db) (works : IsWorking db laws) (dir : List ℕ) (w : fs.World)
      (h : SqliteHelper db) (s s1 s2 : db.State) (out : ServerInfoConfig)
      → fs.is_dir w dir ≡ true
      → open_file w
          (database_filename dir)
          (not (file_path_is_exist fs w (database_filename dir) false))
        ≡ some s
      → db.table_exists s ≡ false
      → db.create_table s ≡ some s1
      → db.create_index s1 ≡ some s2
      → (h' : SqliteHelper db) × (t : db.State) × (init dir w h ≡ some (ok (true, w, h')))
        × (h'.is_open ≡ true)
        × (get_conn db h' ≡ ok t)
        × (query db t out
            ≡ (true, record { ip = default_server_ip; gate_port = 8000; http_port = 18080 }))
  unfolding init get_conn
  init_fresh laws works dir w h s s1 s2 out there opens fresh made indexed =
      let (done, e) = query-create_table db laws works s s1 s2 out fresh made indexed in
      (
        record { conn = some (create_table db s).1; is_open = true },
        (create_table db s).1,
        rw (prepare_there dir w there) (open_behind_lem (database_filename dir) w h s opens done),
        refl,
        refl,
        e,
      )
