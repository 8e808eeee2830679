-- ===== src/Config/Laws.antt =====
-- What mac/chatkit/cim/db/config_dao.cpp relies on of SQLite: the settings that a database holds,
-- and what the statements do to them.
use coffee_chat_desktop.Prelude.{
  ℕ, ◌≡◌, Bool, true, List, [], ◌∷◌, Option, none, some, if◌then◌else◌,
}
use coffee_chat_desktop.Prelude.Text.{text_eq}
use coffee_chat_desktop.Config.{Database}

abbrev pub Row : Type 0
Row = List ℕ × List ℕ

unfoldable pub lookup : List ℕ → List Row → Option (List ℕ)
lookup key [] = none
lookup key ((j, value) ∷ rows) = if text_eq j key then some value else lookup key rows

-- No two rows have the same key.
abbrev pub IsDistinct : List Row → Type 0
IsDistinct [] = Unit {0}
IsDistinct ((key, value) ∷ rows) = (lookup key rows ≡ none) × IsDistinct rows

-- The settings with one of them replaced or added.
abbrev pub put : List ℕ → List ℕ → (List ℕ → Option (List ℕ)) → List ℕ → Option (List ℕ)
put key value f j = if text_eq key j then some value else f j

-- The statements that do not throw do what SQL says. `value s key` is the setting in the table, if
-- there is one, and `has_index s` says that the unique index on the keys is there: then no key has
-- two rows, and an insert of a key that is there throws. The rows come in any order.
pub record IsLawful (db : Database) : Type 0 where
  pub value : db.State → List ℕ → Option (List ℕ)
  pub has_index : db.State → Bool
  pub select_key-value :
      (s : db.State) (key : List ℕ) (o : Option (List ℕ))
      → db.select_key s key ≡ some o
      → o ≡ value s key
  pub select_all-value :
      (s : db.State) (key : List ℕ)
      → (db.select_all s).1 ≡ true
      → lookup key (db.select_all s).0 ≡ value s key
  pub select_all-IsDistinct : (s : db.State) → has_index s ≡ true → IsDistinct (db.select_all s).0
  pub update-value :
      (s s' : db.State) (key new old : List ℕ) (n : ℕ)
      → value s key ≡ some old
      → db.update s key new ≡ some (n, s')
      → (j : List ℕ) → value s' j ≡ put key new (value s) j
  pub update-index :
      (s s' : db.State) (key new : List ℕ) (n : ℕ)
      → db.update s key new ≡ some (n, s')
      → has_index s' ≡ has_index s
  pub insert-value :
      (s s' : db.State) (key new : List ℕ) (n : ℕ)
      → value s key ≡ none
      → db.insert s key new ≡ some (n, s')
      → (j : List ℕ) → value s' j ≡ put key new (value s) j
  pub insert-index :
      (s s' : db.State) (key new : List ℕ) (n : ℕ)
      → db.insert s key new ≡ some (n, s')
      → has_index s' ≡ has_index s
  pub insert-unique :
      (s : db.State) (key new old : List ℕ)
      → has_index s ≡ true
      → value s key ≡ some old
      → db.insert s key new ≡ none
  pub create_table-value :
      (s s' : db.State) (key : List ℕ) → db.create_table s ≡ some s' → value s' key ≡ none
  pub create_table-exists :
      (s s' : db.State) → db.create_table s ≡ some s' → db.table_exists s' ≡ true
  pub create_index-value :
      (s s' : db.State) (key : List ℕ) → db.create_index s ≡ some s' → value s' key ≡ value s key
  pub create_index-index : (s s' : db.State) → db.create_index s ≡ some s' → has_index s' ≡ true

-- A database whose disk neither fills nor fails: on a table with its index, no statement throws
-- but an insert of a key that is there, and the select comes to its end.
pub record IsWorking (db : Database) (laws : IsLawful db) : Type 0 where
  pub counts : (s : db.State) → laws.has_index s ≡ true → db.column_count s ≡ some 3
  pub reads : (s : db.State) → laws.has_index s ≡ true → (db.select_all s).1 ≡ true
  pub selects :
      (s : db.State) (key : List ℕ)
      → laws.has_index s ≡ true
      → (o : Option (List ℕ)) × (db.select_key s key ≡ some o)
  pub updates :
      (s : db.State) (key new : List ℕ)
      → laws.has_index s ≡ true
      → (r : ℕ × db.State) × (db.update s key new ≡ some r)
  pub inserts :
      (s : db.State) (key new : List ℕ)
      → laws.has_index s ≡ true
      → laws.value s key ≡ none
      → (r : ℕ × db.State) × (db.insert s key new ≡ some r)
