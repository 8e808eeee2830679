-- ===== src/Config/Update.antt =====
-- What the updates of mac/chatkit/cim/db/config_dao.cpp do to the settings, and what `query` reads
-- then.
use coffee_chat_desktop.Prelude.{
  ℕ, ◌%◌, ◌^◌, ◌<◌, ◌≡◌, refl, sym, ap, ◌∙◌, ◌⊎◌, inl, inr, true, List, none, some, arith,
  Option-cases, subst,
}
use coffee_chat_desktop.Prelude.Text.{text_eq}
use coffee_chat_desktop.Prelude.Decimal.{decimal, atoi-decimal}
use mathlib.Core.Path.{fun_ext}
use coffee_chat_desktop.Config.{
  Database, ServerInfoConfig, key_server_ip, key_gate_port, key_http_port, query_key, after_exec,
  put_setting, update_key, query, update_server_ip, update_msg_port, update_http_port,
}
use coffee_chat_desktop.Config.Laws.{put, IsLawful, IsWorking}
use coffee_chat_desktop.Config.Query.{config_of, query_lem}

module _ (db : Database) (laws : IsLawful db) where
  open laws use {value, has_index}

  query_key-value :
      (s : db.State) (key old : List ℕ) → query_key db s key ≡ some old → value s key ≡ some old
  unfolding query_key
  query_key-value s key old h = elim (Option-cases (db.select_key s key)) [
    | inl e ↦ absurd (cc (e, h))
    | inr (o, e) ↦ cc (e, h, laws.select_key-value s key o e)
  ]

  -- What an update leaves: all as it was, or that setting replaced or added and no other changed.
  abbrev pub IsPut : List ℕ → List ℕ → db.State → db.State → Type 0
  IsPut key new s s' =
      (has_index s' ≡ has_index s)
      × ((s' ≡ s) ⊎ ((j : List ℕ) → value s' j ≡ put key new (value s) j))

  update_present :
      (s : db.State) (key new old : List ℕ)
      → value s key ≡ some old
      → IsPut key new s (after_exec db s (db.update s key new))
  update_present s key new old h = elim (Option-cases (db.update s key new)) [
    | inl e ↦ subst (λ r. IsPut key new s (after_exec db s r)) (sym e) (refl, inl refl)
    | inr ((n, s'), e) ↦
        subst (λ r. IsPut key new s (after_exec db s r)) (sym e)
          (laws.update-index s s' key new n e, inr (laws.update-value s s' key new old n h e))
  ]

  insert_absent :
      (s : db.State) (key new : List ℕ)
      → has_index s ≡ true
      → IsPut key new s (after_exec db s (db.insert s key new))
  insert_absent s key new ix = elim (Option-cases (db.insert s key new)) [
    | inl e ↦ subst (λ r. IsPut key new s (after_exec db s r)) (sym e) (refl, inl refl)
    | inr ((n, s'), e) ↦ elim (Option-cases (value s key)) [
      | inl absent ↦
          subst (λ r. IsPut key new s (after_exec db s r)) (sym e)
            (laws.insert-index s s' key new n e, inr (laws.insert-value s s' key new n absent e))
      | inr (old, there) ↦ absurd (cc (e, laws.insert-unique s key new old ix there))
    ]
  ]

  -- On a table with its index, whatever statement throws: an update of a setting leaves the table
  -- as it was, or replaces or adds that setting and changes no other; the index stays.
  pub update_key_lem :
      (key new : List ℕ) (s : db.State)
      → has_index s ≡ true
      → IsPut key new s (update_key db key new s)
  unfolding update_key
  update_key_lem key new s ix = elim (Option-cases (query_key db s key)) [
    | inl e ↦
        subst (λ r. IsPut key new s (put_setting db r key new s)) (sym e)
          (insert_absent s key new ix)
    | inr (old, e) ↦
        subst (λ r. IsPut key new s (put_setting db r key new s)) (sym e)
          (update_present s key new old (query_key-value s key old e))
  ]

  module _ (works : IsWorking db laws) where
    -- A select that runs and finds nothing.
    query_key-none :
        (s : db.State) (key : List ℕ)
        → has_index s ≡ true
        → query_key db s key ≡ none
        → value s key ≡ none
    unfolding query_key
    query_key-none s key ix h =
        let (o, e) = works.selects s key ix in
        sym (laws.select_key-value s key o e) ∙ ground (arith, h, e)

    abbrev IsWritten : List ℕ → List ℕ → db.State → db.State → Type 0
    IsWritten key new s s' =
        (has_index s' ≡ true) × ((j : List ℕ) → value s' j ≡ put key new (value s) j)

    -- No statement throws, so the setting is written.
    update_key_works :
        (key new : List ℕ) (s : db.State)
        → has_index s ≡ true
        → IsWritten key new s (update_key db key new s)
    unfolding update_key
    update_key_works key new s ix = elim (Option-cases (query_key db s key)) [
      | inl e ↦
          let absent = query_key-none s key ix e in
          let ((n, s'), f) = works.inserts s key new ix absent in
          subst (λ r. IsWritten key new s (put_setting db r key new s)) (sym e)
            (subst (λ r. IsWritten key new s (after_exec db s r)) (sym f)
              (laws.insert-index s s' key new n f ∙ ix, laws.insert-value s s' key new n absent f))
      | inr (old, e) ↦
          let ((n, s'), f) = works.updates s key new ix in
          subst (λ r. IsWritten key new s (put_setting db r key new s)) (sym e)
            (subst (λ r. IsWritten key new s (after_exec db s r)) (sym f)
              (
                laws.update-index s s' key new n f ∙ ix,
                laws.update-value s s' key new old n (query_key-value s key old e) f,
              ))
    ]

    query-update_key :
        (key new : List ℕ) (s : db.State) (out : ServerInfoConfig)
        → has_index s ≡ true
        → query db (update_key db key new s) out ≡ (true, config_of (put key new (value s)) out)
    query-update_key key new s out ix =
        let (ix', e) = update_key_works key new s ix in
        query_lem db laws works (update_key db key new s) out ix'
        ∙ ap (λ f. (true, config_of f out)) (fun_ext e)

    -- On a database that works, `query` reads back what was stored, an address or a port of 16
    -- bits, and the other two settings as before.
    pub query-update :
        (ip : List ℕ) (port : ℕ) (s : db.State) (out : ServerInfoConfig)
        → has_index s ≡ true
        → port < 2 ^ 16
        → (query db (update_server_ip db ip s) out
            ≡ (true, record ((query db s out).1) { ip = ip }))
          × (query db (update_msg_port db port s) out
              ≡ (true, record ((query db s out).1) { gate_port = port }))
          × (query db (update_http_port db port s) out
              ≡ (true, record ((query db s out).1) { http_port = port }))
    unfolding update_server_ip update_msg_port update_http_port text_eq
    query-update ip port s out ix h =
        let e : port % 2 ^ 16 ≡ port = omega (arith, h) in
        (
          rw (query_lem db laws works s out ix, query-update_key key_server_ip ip s out ix) refl,
          rw
              (
                query_lem db laws works s out ix,
                query-update_key key_gate_port (decimal port) s out ix,
                atoi-decimal port,
                e,
              )
              refl,
          rw
              (
                query_lem db laws works s out ix,
                query-update_key key_http_port (decimal port) s out ix,
                atoi-decimal port,
                e,
              )
              refl,
        )
