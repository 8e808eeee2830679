-- ===== src/Config/Create.antt =====
-- `createTable` and `insertDefaultData` of mac/chatkit/cim/db/config_dao.cpp.
use coffee_chat_desktop.Prelude.{
  ℕ, ◌≡◌, refl, sym, ap, ◌∙◌, true, false, List, [], ◌∷◌, Option, none, some, subst, arith,
}
use mathlib.Core.Path.{fun_ext}
use coffee_chat_desktop.Prelude.Text.{text_eq, text_eq_iff}
use coffee_chat_desktop.Prelude.Decimal.{atoi, skip_spaces, signed_value, digits_value}
use coffee_chat_desktop.Config.{
  Database, ServerInfoConfig, default_server_ip, insert_rows, default_rows, insert_default_data,
  create_table, query, read_rows,
}
use coffee_chat_desktop.Config.Laws.{Row, lookup, put, IsLawful, IsWorking}
use coffee_chat_desktop.Config.Query.{query_lem}

abbrev Settings : Type 0
Settings = List ℕ → Option (List ℕ)

abbrev put_rows : List Row → Settings → Settings
put_rows [] f = f
put_rows ((key, value) ∷ rows) f = put_rows rows (put key value f)

-- No row has a key that was there when its turn comes.
abbrev AreNew : List Row → Settings → Type 0
AreNew [] f = Unit {0}
AreNew ((key, value) ∷ rows) f = (f key ≡ none) × AreNew rows (put key value f)

no_rows : (rows : List Row) → ((key : List ℕ) → lookup key rows ≡ none) → rows ≡ []
unfolding lookup
no_rows [] h = refl
no_rows ((key, value) ∷ rows) h = absurd (ground (arith, h key, (text_eq_iff key key).1 refl))

module _ (db : Database) (laws : IsLawful db) where
  query_nothing :
      (s : db.State) (out : ServerInfoConfig)
      → (db.select_all s).1 ≡ true
      → ((key : List ℕ) → laws.value s key ≡ none)
      → (query db s out).1 ≡ out
  unfolding query read_rows
  query_nothing s out ends empty =
      let rows =
        no_rows (db.select_all s).0 (λ key. laws.select_all-value s key ends ∙ empty key) in
      let kept : read_rows (db.select_all s).0 out ≡ out = rw rows refl in ground (arith, kept)

  -- A failed index leaves the new table behind: `createTable` says no, but when it is called again
  -- it finds the table and says yes, with no setting in it. So a `query` whose select comes to its
  -- end then leaves its output argument as it was, without the default settings.
  pub create_table_half :
      (s s1 : db.State) (out : ServerInfoConfig)
      → db.table_exists s ≡ false
      → db.create_table s ≡ some s1
      → db.create_index s1 ≡ none
      → (db.select_all s1).1 ≡ true
      → (create_table db s ≡ (false, s1))
        × (create_table db s1 ≡ (true, s1))
        × ((key : List ℕ) → laws.value s1 key ≡ none)
        × ((query db s1 out).1 ≡ out)
  unfolding create_table
  create_table_half s s1 out h made e ends =
      let empty : (key : List ℕ) → laws.value s1 key ≡ none =
        λ key. laws.create_table-value s s1 key made in
      (
        ground (arith, h, made, e),
        ground (arith, laws.create_table-exists s s1 made),
        empty,
        query_nothing s1 out ends empty,
      )

  module _ (works : IsWorking db laws) where
    insert_rows_lem :
        (rows : List Row) (s : db.State) (f : Settings)
        → laws.has_index s ≡ true
        → ((j : List ℕ) → laws.value s j ≡ f j)
        → AreNew rows f
        → (laws.has_index (insert_rows db rows s) ≡ true)
          × ((j : List ℕ) → laws.value (insert_rows db rows s) j ≡ put_rows rows f j)
    unfolding insert_rows
    insert_rows_lem [] s f ix e new = (ix, e)
    insert_rows_lem ((key, value) ∷ rows) s f ix e new =
        let absent = e key ∙ new.0 in
        let ((n, s'), ran) = works.inserts s key value ix absent in
        subst
          (λ r.
            (laws.has_index (elim r [ none ↦ s | some (n, s') ↦ insert_rows db rows s' ]) ≡ true)
            × ((j : List ℕ)
                → laws.value (elim r [ none ↦ s | some (n, s') ↦ insert_rows db rows s' ]) j
                  ≡ put_rows rows (put key value f) j))
          (sym ran)
          (insert_rows_lem rows s' (put key value f) (laws.insert-index s s' key value n ran ∙ ix)
            (λ j.
              laws.insert-value s s' key value n absent ran j
              ∙ ap (λ g. put key value g j) (fun_ext e))
            new.1)

    -- Where there is no table and both are made, `createTable` says yes, and `query` then reads the
    -- defaults of cim_def.h, whatever it started from.
    pub query-create_table :
        (s s1 s2 : db.State) (out : ServerInfoConfig)
        → db.table_exists s ≡ false
        → db.create_table s ≡ some s1
        → db.create_index s1 ≡ some s2
        → ((create_table db s).0 ≡ true)
          × (query db (create_table db s).1 out
              ≡ (true, record { ip = default_server_ip; gate_port = 8000; http_port = 18080 }))
    unfolding insert_default_data text_eq atoi skip_spaces signed_value digits_value
    query-create_table s s1 s2 out h made e =
        let runs : create_table db s ≡ (true, insert_rows db default_rows s2) =
          (unfold create_table in ground (arith, h, made, e)) in
        let (ix, filled) =
          insert_rows_lem default_rows s2 (λ j. none) (laws.create_index-index s1 s2 e)
            (λ j. laws.create_index-value s1 s2 j e ∙ laws.create_table-value s s1 j made)
            (refl, (refl, (refl, tt))) in
        rw (runs, query_lem db laws works (insert_rows db default_rows s2) out ix, fun_ext filled)
          (refl, refl)
