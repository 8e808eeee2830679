-- ===== src/Program/Start.antt =====
-- When mac/hellochat/main.cpp gets behind its first call, of `initChatKit()`.
use coffee_chat_desktop.Prelude.{
  ◌≡◌, Bool, true, false, Option, none, some, Outcome, ok, abort, ◌⊎◌,
}
use coffee_chat_desktop.Files.Directories.{FileSystem}
use coffee_chat_desktop.Config.{Database}
use coffee_chat_desktop.Config.Connection
use coffee_chat_desktop.Config.Connection.{Opening, SqliteHelper}
use coffee_chat_desktop.Client.{Protobuf}
use coffee_chat_desktop.Kit.{Kit, default_config}

module _ (fs : FileSystem) (db : Database) (os : Opening fs db) (pb : Protobuf) where
  -- Opening the database with the settings and the helper that the program starts with.
  abbrev pub first_init : fs.World → Option (Outcome (Bool × fs.World × SqliteHelper db))
  first_init w =
      Connection.init fs db os default_config.app_data_dir w
        (record { conn = none; is_open = false })

  -- Opening the database stops, or says yes.
  abbrev pub IsNotRefused : Option (Outcome (Bool × fs.World × SqliteHelper db)) → Type 0
  IsNotRefused m =
      (m ≡ some abort) ⊎ ((w : fs.World) × ((h : SqliteHelper db) × (m ≡ some (ok (true, w, h)))))
