-- ===== src/Config/Query.antt =====
-- What `query` of mac/chatkit/cim/db/config_dao.cpp makes of the rows.
use coffee_chat_desktop.Prelude.{
  ℕ, ◌≡◌, refl, sym, ap, ◌∙◌, true, List, [], ◌∷◌, Option, none, some, inl, inr, arith, Bool-cases,
  subst,
}
use coffee_chat_desktop.Prelude.Text.{text_eq, text_eq_iff}
use coffee_chat_desktop.Prelude.Decimal.{atoi, to_uint16}
use mathlib.Core.Path.{fun_ext}
use coffee_chat_desktop.Config.{
  Database, ServerInfoConfig, key_server_ip, key_gate_port, key_http_port, read_row, read_rows,
  query,
}
use coffee_chat_desktop.Config.Laws.{Row, lookup, IsDistinct, IsLawful, IsWorking}

abbrev pub or_else {ℓ} : {A : Type ℓ} → A → Option A → A
or_else a none = a
or_else a (some b) = b

abbrev pub port_or : ℕ → Option (List ℕ) → ℕ
port_or p none = p
port_or p (some s) = to_uint16 (atoi s)

-- The settings that a table stands for; one that is missing stays as it is.
abbrev pub config_of : (List ℕ → Option (List ℕ)) → ServerInfoConfig → ServerInfoConfig
config_of f out = record {
  ip = or_else out.ip (f key_server_ip);
  gate_port = port_or out.gate_port (f key_gate_port);
  http_port = port_or out.http_port (f key_http_port);
}

abbrev RowStep : List ℕ → List ℕ → List Row → ServerInfoConfig → Type 0
RowStep key value rows out =
    lookup key rows ≡ none
    → config_of (λ k. lookup k rows) (read_row (key, value) out)
      ≡ config_of (λ k. lookup k ((key, value) ∷ rows)) out

read_row_lem :
    (key value : List ℕ) (rows : List Row) (out : ServerInfoConfig) → RowStep key value rows out
unfolding read_row lookup text_eq
read_row_lem key value rows out = elim (Bool-cases (text_eq key key_server_ip)) [
  | inl e ↦
      subst (λ k. RowStep k value rows out) (sym ((text_eq_iff key key_server_ip).0 e))
        (λ h. rw h refl)
  | inr e0 ↦ elim (Bool-cases (text_eq key key_gate_port)) [
    | inl e ↦
        subst (λ k. RowStep k value rows out) (sym ((text_eq_iff key key_gate_port).0 e))
          (λ h. rw h refl)
    | inr e1 ↦ elim (Bool-cases (text_eq key key_http_port)) [
      | inl e ↦
          subst (λ k. RowStep k value rows out) (sym ((text_eq_iff key key_http_port).0 e))
            (λ h. rw h refl)
      | inr e2 ↦ λ h. rw (e0, e1, e2) refl
    ]
  ]
]

read_rows_lem :
    (rows : List Row) (out : ServerInfoConfig)
    → IsDistinct rows
    → read_rows rows out ≡ config_of (λ k. lookup k rows) out
unfolding read_rows lookup
read_rows_lem [] out d = refl
read_rows_lem ((key, value) ∷ rows) out d =
    read_rows_lem rows (read_row (key, value) out) d.1 ∙ read_row_lem key value rows out d.0

module _ (db : Database) (laws : IsLawful db) (works : IsWorking db laws) where
  pub query_lem :
      (s : db.State) (out : ServerInfoConfig)
      → laws.has_index s ≡ true
      → query db s out ≡ (true, config_of (laws.value s) out)
  unfolding query
  query_lem s out ix =
      let all = works.reads s ix in
      let same =
        read_rows_lem (db.select_all s).0 out (laws.select_all-IsDistinct s ix)
        ∙ ap (λ f. config_of f out) (fun_ext (λ k. laws.select_all-value s k all)) in
      ground (arith, works.counts s ix, all, same)
