-- ===== src/Tests/Settings.antt =====
-- Runs of mac/chatkit/cim/db/config_dao.cpp and sqlite3_helper.cpp on a database in memory.
use coffee_chat_desktop.Prelude.{ℕ, List, ◌≡◌, refl, true, false, [], ◌∷◌, none, some, ok, arith}
use coffee_chat_desktop.Prelude.Text.{codes}
use coffee_chat_desktop.Config.{
  ServerInfoConfig, key_gate_port, default_server_ip, create_table, update_key, query,
  update_server_ip, update_msg_port, update_http_port,
}
use coffee_chat_desktop.Config.Laws.{lookup}
use coffee_chat_desktop.Config.Memory.{
  Table, memory_database, memory_database-IsLawful, memory_database-IsWorking, memory_has_index,
  is_distinct,
}
use coffee_chat_desktop.Config.Update.{IsPut, update_key_lem, query-update}
use coffee_chat_desktop.Config.Create.{create_table_half, query-create_table}
use coffee_chat_desktop.Config.Connection.{Opening, SqliteHelper, get_conn, init, init_fresh}
use coffee_chat_desktop.Tests.Paths.{willing}

-- A table with its index, and one setting.
abbrev pub one_setting : Table
one_setting = record {
  exists = true;
  indexed = true;
  rows = (key_gate_port, codes "8000") ∷ [];
  index_fits = true;
}

abbrev pub no_table : Table
no_table = record { exists = false; indexed = false; rows = []; index_fits = true }

abbrev pub made_table : Table
made_table = record { exists = true; indexed = false; rows = []; index_fits = true }

abbrev pub somewhere : ServerInfoConfig
somewhere = record { ip = codes "10.0.0.1"; gate_port = 1; http_port = 2 }

update_key_lem_example :
    IsPut memory_database memory_database-IsLawful key_gate_port
      (codes "81")
      one_setting
      (update_key memory_database key_gate_port (codes "81") one_setting)
unfolding is_distinct lookup
update_key_lem_example =
    update_key_lem memory_database memory_database-IsLawful key_gate_port (codes "81") one_setting
      (memory_has_index one_setting refl refl)

query-update_example :
    (query memory_database (update_server_ip memory_database (codes "::1") one_setting) somewhere
      ≡ (true, record ((query memory_database one_setting somewhere).1) { ip = codes "::1" }))
    × (query memory_database (update_msg_port memory_database 65535 one_setting) somewhere
        ≡ (true, record ((query memory_database one_setting somewhere).1) { gate_port = 65535 }))
    × (query memory_database (update_http_port memory_database 65535 one_setting) somewhere
        ≡ (true, record ((query memory_database one_setting somewhere).1) { http_port = 65535 }))
unfolding is_distinct lookup
query-update_example =
    query-update memory_database memory_database-IsLawful memory_database-IsWorking (codes "::1")
      65535 one_setting somewhere (memory_has_index one_setting refl refl) (omega arith)

query-create_table_example :
    ((create_table memory_database no_table).0 ≡ true)
    × (query memory_database (create_table memory_database no_table).1 somewhere
        ≡ (true, record { ip = default_server_ip; gate_port = 8000; http_port = 18080 }))
unfolding is_distinct
query-create_table_example =
    query-create_table memory_database memory_database-IsLawful memory_database-IsWorking no_table
      made_table (record made_table { indexed = true }) somewhere refl refl refl

-- The same without room for the index.
abbrev pub no_room : Table
no_room = record no_table { index_fits = false }

-- The table without its index.
abbrev half_made : Table
half_made = record no_room { exists = true }

create_table_half_example :
    (create_table memory_database no_room ≡ (false, half_made))
    × (create_table memory_database half_made ≡ (true, half_made))
    × ((key : List ℕ) → memory_database-IsLawful.value half_made key ≡ none)
    × ((query memory_database half_made somewhere).1 ≡ somewhere)
create_table_half_example =
    create_table_half memory_database memory_database-IsLawful no_room half_made somewhere refl refl
      refl refl

-- A file that opens on a database with no table, on a system whose world says whether directories
-- are there.
abbrev pub opens : Opening willing memory_database
opens = record { open_file = λ w p new. some no_table }

abbrev pub closed : SqliteHelper memory_database
closed = record { conn = none; is_open = false }

init_fresh_example :
    (h' : SqliteHelper memory_database) × (t : Table) × (init willing memory_database opens
        (codes "data")
        true
        closed
      ≡ some (ok (true, true, h')))
    × (h'.is_open ≡ true)
    × (get_conn memory_database h' ≡ ok t)
    × (query memory_database t somewhere
        ≡ (true, record { ip = default_server_ip; gate_port = 8000; http_port = 18080 }))
unfolding is_distinct
init_fresh_example =
    init_fresh willing memory_database opens memory_database-IsLawful memory_database-IsWorking
      (codes "data") true closed no_table made_table (record made_table { indexed = true })
      somewhere refl refl refl refl refl
