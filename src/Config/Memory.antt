-- ===== src/Config/Memory.antt =====
-- A database of one table in memory: it does what is asked of SQLite.
use coffee_chat_desktop.Prelude.{
  ℕ, ◌≡◌, refl, Bool, true, false, ◌&&◌, List, [], ◌∷◌, none, some, if◌then◌else◌, arith,
}
use coffee_chat_desktop.Prelude.Text.{text_eq, text_eq_iff}
use coffee_chat_desktop.Config.{Database}
use coffee_chat_desktop.Config.Laws.{Row, lookup, IsDistinct, IsLawful, IsWorking}

pub record Table : Type 0 where
  pub exists : Bool
  pub indexed : Bool
  pub rows : List Row
  pub index_fits : Bool

unfoldable pub set_value : List ℕ → List ℕ → List Row → List Row
set_value key new [] = []
set_value key new ((j, old) ∷ rows) =
    (if text_eq j key then (j, new) else (j, old)) ∷ set_value key new rows

abbrev is_absent : List ℕ → List Row → Bool
is_absent key rows = elim (lookup key rows) [ none ↦ true | some value ↦ false ]

unfoldable pub is_distinct : List Row → Bool
is_distinct [] = true
is_distinct ((key, value) ∷ rows) = is_absent key rows && is_distinct rows

abbrev pub memory_database : Database
memory_database = record {
  State = Table;
  table_exists = λ t. t.exists;
  create_table =
      λ t. if t.exists then none else some (record t { exists = true; indexed = false; rows = [] });
  create_index =
      λ t. if t.index_fits && is_distinct t.rows then some (record t { indexed = true }) else none;
  insert = λ t key new.
      if is_absent key t.rows then some (1, record t { rows = (key, new) ∷ t.rows }) else none;
  update = λ t key new. some (1, record t { rows = set_value key new t.rows });
  select_key = λ t key. some (lookup key t.rows);
  column_count = λ t. some 3;
  select_all = λ t. (t.rows, true);
}

abbrev is_indexed : Table → Bool
is_indexed t = t.indexed && is_distinct t.rows

is_distinct-IsDistinct : (rows : List Row) → is_distinct rows ≡ true → IsDistinct rows
unfolding is_distinct
is_distinct-IsDistinct [] h = tt
is_distinct-IsDistinct ((key, value) ∷ rows) h = ground (arith, is_distinct-IsDistinct rows)

lookup-set_value :
    (key new : List ℕ) (rows : List Row) (j : List ℕ)
    → lookup j (set_value key new rows) ≡ (
        if text_eq key j
        then elim (lookup j rows) [ none ↦ none | some old ↦ some new ]
        else lookup j rows)
unfolding lookup set_value
lookup-set_value key new [] j = ground arith
lookup-set_value key new ((i, old) ∷ rows) j =
    ground (
      arith,
      text_eq_iff i key,
      text_eq_iff key j,
      text_eq_iff i j,
      lookup-set_value key new rows j,
    )

is_distinct-set_value :
    (key new : List ℕ) (rows : List Row) → is_distinct (set_value key new rows) ≡ is_distinct rows
unfolding is_distinct set_value
is_distinct-set_value key new [] = refl
is_distinct-set_value key new ((i, old) ∷ rows) = ground (
  arith,
  lookup-set_value key new rows i,
  is_distinct-set_value key new rows,
  text_eq_iff i key,
  text_eq_iff key i,
)

pub memory_database-IsLawful : IsLawful memory_database
unfolding is_distinct lookup
memory_database-IsLawful = record {
  value = λ t key. lookup key t.rows;
  has_index = is_indexed;
  select_key-value = λ t key o e. ground arith;
  select_all-value = λ t key e. refl;
  select_all-IsDistinct = λ t e. is_distinct-IsDistinct t.rows (ground arith);
  update-value = λ t t' key new old n there e j.
      ground (arith, e, lookup-set_value key new t.rows j, text_eq_iff key j, there);
  update-index = λ t t' key new n e. ground (arith, is_distinct-set_value key new t.rows);
  insert-value = λ t t' key new n there e j. ground (arith);
  insert-index = λ t t' key new n e. ground arith;
  insert-unique = λ t key new old ix there. ground arith;
  create_table-value = λ t t' key e. ground arith;
  create_table-exists = λ t t' e. ground arith;
  create_index-value = λ t t' key e. ground arith;
  create_index-index = λ t t' e. ground arith;
}

pub memory_database-IsWorking : IsWorking memory_database memory_database-IsLawful
unfolding memory_database-IsLawful
memory_database-IsWorking = record {
  counts = λ t ix. refl;
  reads = λ t ix. refl;
  selects = λ t key ix. (lookup key t.rows, refl);
  updates = λ t key new ix. ((1, record t { rows = set_value key new t.rows }), refl);
  inserts = λ t key new ix absent. ((1, record t { rows = (key, new) ∷ t.rows }), ground arith);
}

pub memory_has_index :
    (t : Table)
    → t.indexed ≡ true
    → is_distinct t.rows ≡ true
    → memory_database-IsLawful.has_index t ≡ true
unfolding memory_database-IsLawful
memory_has_index t h k = ground (arith, h, k)
