-- ===== src/Config.antt =====
-- mac/chatkit/cim/db/config_dao.cpp: the table of settings, over the SQL statements that it runs.
pub mod Laws
pub mod Query
pub mod Update
pub mod Create
pub mod Memory
pub mod Connection
use coffee_chat_desktop.Prelude.{
  ℕ, Bool, true, false, List, [], ◌∷◌, Option, none, some, if◌then◌else◌, ◌==◌,
}
use coffee_chat_desktop.Prelude.Text.{codes, text_eq}
use coffee_chat_desktop.Prelude.Decimal.{decimal, atoi, to_uint16}

-- The statements on one open database, each with `none` where SQLiteCpp throws. A statement that
-- throws changes nothing. `exec` of an insert or an update also counts the rows that it changed;
-- the select of all settings hands out rows, and says whether it came to the end of them or threw.
pub record Database : Type 1 where
  pub State : Type 0
  pub table_exists : State → Bool
  pub create_table : State → Option State
  pub create_index : State → Option State
  pub insert : State → List ℕ → List ℕ → Option (ℕ × State)
  pub update : State → List ℕ → List ℕ → Option (ℕ × State)
  pub select_key : State → List ℕ → Option (Option (List ℕ))
  pub column_count : State → Option ℕ
  pub select_all : State → List (List ℕ × List ℕ) × Bool

-- `ServerInfoConfig` of mac/chatkit/cim/cim_def.h
pub record ServerInfoConfig : Type 0 where
  pub ip : List ℕ
  pub gate_port : ℕ
  pub http_port : ℕ

abbrev pub key_server_ip : List ℕ
key_server_ip = codes "serverIp"

abbrev pub key_gate_port : List ℕ
key_gate_port = codes "gatePort"

abbrev pub key_http_port : List ℕ
key_http_port = codes "httpPort"

abbrev pub default_server_ip : List ℕ
default_server_ip = codes "127.0.0.1"

-- The body of the loop of `query`.
unfoldable pub read_row : List ℕ × List ℕ → ServerInfoConfig → ServerInfoConfig
read_row (key, value) out =
    if text_eq key key_server_ip
    then record out { ip = value }
    else (if text_eq key key_gate_port
        then record out { gate_port = to_uint16 (atoi value) }
        else (if text_eq key key_http_port
            then record out { http_port = to_uint16 (atoi value) }
            else out))

unfoldable pub read_rows : List (List ℕ × List ℕ) → ServerInfoConfig → ServerInfoConfig
read_rows [] out = out
read_rows (row ∷ rows) out = read_rows rows (read_row row out)

abbrev pub default_rows : List (List ℕ × List ℕ)
default_rows =
    (key_server_ip, default_server_ip)
    ∷ (key_gate_port, codes "8000")
    ∷ (key_http_port, codes "18080")
    ∷ []

-- The operations, on the connection that `getConn` gives.
module _ (db : Database) where
  -- The statements of the `try` of `insertDefaultData`; the first that throws ends it.
  unfoldable pub insert_rows : List (List ℕ × List ℕ) → db.State → db.State
  insert_rows [] s = s
  insert_rows ((key, value) ∷ rows) s = elim (db.insert s key value) [
    | none ↦ s
    | some (n, s') ↦ insert_rows rows s'
  ]

  unfoldable pub insert_default_data : db.State → db.State
  unfolding insert_rows
  insert_default_data s = insert_rows default_rows s

  -- `createTable()`
  unfoldable pub create_table : db.State → Bool × db.State
  create_table s = elim (db.table_exists s) [
    | true ↦ (true, s)
    | false ↦ elim (db.create_table s) [
      | none ↦ (false, s)
      | some s1 ↦ elim (db.create_index s1) [
        | none ↦ (false, s1)
        | some s2 ↦ (true, insert_default_data s2)
      ]
    ]
  ]

  -- `queryKey(key, outValue)`: the value, or `none` for false.
  unfoldable pub query_key : db.State → List ℕ → Option (List ℕ)
  query_key s key = elim (db.select_key s key) [ none ↦ none | some row ↦ row ]

  -- A statement that throws or changes no row only leaves a line in the log.
  abbrev pub after_exec : db.State → Option (ℕ × db.State) → db.State
  after_exec s none = s
  after_exec s (some (n, s')) = s'

  -- The two branches of `updateKey`, on what `queryKey` found.
  unfoldable pub put_setting : Option (List ℕ) → List ℕ → List ℕ → db.State → db.State
  put_setting (some old) key value s = after_exec s (db.update s key value)
  put_setting none key value s = after_exec s (db.insert s key value)

  -- `updateKey(key, newValue)`
  unfoldable pub update_key : List ℕ → List ℕ → db.State → db.State
  unfolding put_setting
  update_key key value s = put_setting (query_key s key) key value s

  -- `query(out)`
  unfoldable pub query : db.State → ServerInfoConfig → Bool × ServerInfoConfig
  query s out = elim (db.column_count s) [
    | none ↦ (false, out)
    | some n ↦
        if n == 3 then ((db.select_all s).1, read_rows (db.select_all s).0 out) else (false, out)
  ]

  unfoldable pub update_server_ip : List ℕ → db.State → db.State
  update_server_ip ip s = update_key key_server_ip ip s

  unfoldable pub update_msg_port : ℕ → db.State → db.State
  update_msg_port port s = update_key key_gate_port (decimal port) s

  unfoldable pub update_http_port : ℕ → db.State → db.State
  update_http_port port s = update_key key_http_port (decimal port) s
