-- ===== src/Service/Formulas/Reading.antt =====
-- internal/service/apartment_calc.go: the configuration that `UpdateApartmentFormulaConfig` stores,
-- read again.
use review_service.Prelude.{
  ℕ, suc, ◌≡◌, refl, ◌∙◌, ap, String, true, false, Option, some, List, [], ◌∷◌, ◌++◌, find, exists,
  map_where, str_eq, str_eq_iff, Option-cases, Bool-cases, inl, inr, arith,
}
use review_service.Domain.Appraisal.{Time}
use review_service.Domain.Floats.{Floats}
use review_service.Domain.Apartment.{FormulaConfig}
use review_service.Domain.Errors.{RepoError, Error, driver, Result, ok}
use review_service.World.{
  Env, World, Fate, served, failed, lost, Action, ◌>>=◌, recover, Post, Ensures, bind-Ensures,
  pure-Ensures, fail-Ensures, map_err-Ensures, call-Ensures, now-Ensures, call, answer,
}
use review_service.World.Tables.{Shared, ConfigRow}
use review_service.Repository.{or_not_found}
use review_service.Repository.Formulas.{
  Documents, has_config_id, select_config, put_config, set_config, upsert_config, scan_config,
  get_formula_config, save_formula_config,
}
use review_service.Service.{raw_error}
use review_service.Service.Formulas.{default_on_missing, get_config, stamped, update_config}

-- After the upsert a row is found with the new columns.
HasColumns : ConfigRow → List ConfigRow → Type 0
HasColumns new rows =
    (row : ConfigRow) × (find (has_config_id new.id) rows ≡ some row)
    × (row.config ≡ new.config)
    × (row.updated_at ≡ new.updated_at)
    × (row.updated_by ≡ new.updated_by)

found-updated :
    (new : ConfigRow) (rows : List ConfigRow)
    → exists (has_config_id new.id) rows ≡ true
    → HasColumns new (map_where (has_config_id new.id) (set_config new) rows)
unfolding HasColumns
found-updated new [] h = absurd (ground arith)
found-updated new (x ∷ xs) h = elim (Bool-cases (str_eq x.id new.id)) [
  | inl hit ↦ (set_config new x, rw hit (rw hit refl), refl, refl, refl)
  | inr miss ↦
      let (row, e, document, at, by) = found-updated new xs (ground arith) in
      (row, rw miss (rw miss e), document, at, by)
]

found-inserted :
    (new : ConfigRow) (rows : List ConfigRow)
    → exists (has_config_id new.id) rows ≡ false
    → find (has_config_id new.id) (rows ++ new ∷ []) ≡ some new
found-inserted new [] h =
    let same : str_eq new.id new.id ≡ true = (str_eq_iff _ _).1 refl in rw same refl
found-inserted new (x ∷ xs) h = elim (Bool-cases (str_eq x.id new.id)) [
  | inl hit ↦ absurd (ground arith)
  | inr miss ↦ rw miss (found-inserted new xs (ground arith))
]

put_config-HasColumns :
    (new : ConfigRow) (rows : List ConfigRow) → HasColumns new (put_config new rows)
unfolding HasColumns
put_config-HasColumns new rows = elim (Bool-cases (exists (has_config_id new.id) rows)) [
  | inl there ↦ rw there (found-updated new rows there)
  | inr new_row ↦ rw new_row (new, found-inserted new rows new_row, refl, refl, refl)
]

module _ {F : Type 0} (env : Env) (ops : Floats F) (documents : Documents F) where
  -- What the columns of a row make of a document's configuration.
  abbrev with_columns : ConfigRow → FormulaConfig F → FormulaConfig F
  with_columns row cfg = record cfg {
    id = "apartment";
    updated_at = row.updated_at;
    updated_by = row.updated_by;
  }

  -- A reader of the tables gets `cfg`.
  pub record Holds (cfg : FormulaConfig F) (s : Shared) : Type 0 where
    pub row : ConfigRow
    pub document : FormulaConfig F
    pub found : select_config "apartment" s ≡ some row
    pub decoded : documents.config_of row.config ≡ some document
    pub same : with_columns row document ≡ cfg

  -- The encoding of a configuration that is stored, read by Postgres and decoded again, but for the
  -- columns.
  abbrev pub IsFaithful : FormulaConfig F → String → Type 0
  IsFaithful cfg by =
      (at : Time) (raw stored : String)
      → documents.of_config (stamped env ops documents cfg at by) ≡ some raw
      → env.jsonb raw ≡ some stored
      → (document : FormulaConfig F) × (documents.config_of stored ≡ some document)
        × (record document { id = "apartment"; updated_at = at; updated_by = some by }
            ≡ stamped env ops documents cfg at by)

  abbrev Any : Shared → Type 0
  Any s = Unit

  module _ (cfg : FormulaConfig F) (by : String) (faithful : IsFaithful cfg by) where
    upsert_config-Holds :
        (at : Time) (raw : String) (s : Shared)
        → documents.of_config (stamped env ops documents cfg at by) ≡ some raw
        → let out = upsert_config env "apartment" raw at (some by) s in
          Post Any (λ n. Holds (stamped env ops documents cfg at by)) out.0 out.1
    unfolding upsert_config select_config HasColumns
    upsert_config-Holds at raw s encoded = elim (Option-cases (env.jsonb raw)) [
      | inl refused ↦ rw (refused, upsert_config) tt
      | inr (stored, e) ↦
          let new : ConfigRow = record {
            id = "apartment";
            config = stored;
            updated_at = at;
            updated_by = some by;
          } in
          let (row, found, ec, ea, eb) = put_config-HasColumns new s.formula_configs in
          let (document, decoded, same) = faithful at raw stored encoded e in
          rw (e, upsert_config)
            (record {
              row = row;
              document = document;
              found = found;
              decoded = rw ec decoded;
              same = rw (ea, eb) same;
            })
    ]

    save-Holds :
        (at : Time)
        → Ensures Any Any
            (save_formula_config env documents (stamped env ops documents cfg at by))
            (λ x. Holds (stamped env ops documents cfg at by))
    unfolding save_formula_config
    save-Holds at =
        elim (Option-cases (documents.of_config (stamped env ops documents cfg at by))) [
          | inl refused ↦ rw (refused, save_formula_config) (fail-Ensures (λ s h. tt))
          | inr (raw, e) ↦
              rw (e, save_formula_config)
                (bind-Ensures
                  (call-Ensures env {Q = λ n. Holds (stamped env ops documents cfg at by)} driver
                    (upsert_config env "apartment" raw at (some by)) (λ k s h. tt) (λ s h. tt)
                    (λ s h. tt) (λ s h. upsert_config-Holds at raw s e))
                  (λ n. pure-Ensures (λ s h. h)))
        ]

    update_config-Holds : Ensures Any Any (update_config env ops documents cfg by) Holds
    unfolding update_config
    update_config-Holds = bind-Ensures (now-Ensures env) (λ at.
        bind-Ensures (map_err-Ensures raw_error (save-Holds at))
          (λ x. pure-Ensures {a = stamped env ops documents cfg at by} (λ s h. h)))

  found_config :
      (cfg : FormulaConfig F) (s : Shared) (o : Option ConfigRow) (v : World)
      → o ≡ select_config "apartment" s
      → Holds cfg s
      → let m : Action RepoError (Option ConfigRow) = λ _. (ok o, v) in
        (recover
          ((m >>= or_not_found) >>= scan_config env documents "apartment")
          (default_on_missing env ops documents)
          v).0
        ≡ ok cfg
  unfolding scan_config
  found_config cfg s o v e h =
      rw (e ∙ h.found) (rw (h.decoded, recover, scan_config) (ap ok h.same))

  -- Other processes leave the configurations alone.
  abbrev pub IsQuiet : Type 0
  IsQuiet = (k : ℕ) (s : Shared) → (env.others k s).formula_configs ≡ s.formula_configs

  Holds-quiet :
      (cfg : FormulaConfig F) (k : ℕ) (s : Shared)
      → IsQuiet
      → Holds cfg s
      → Holds cfg (env.others k s)
  unfolding select_config
  Holds-quiet cfg k s quiet h = record {
    row = h.row;
    document = h.document;
    found = ap (λ rows. find (has_config_id "apartment") rows) (quiet k s) ∙ h.found;
    decoded = h.decoded;
    same = h.same;
  }

  pub get_config-served :
      (cfg : FormulaConfig F) (v : World)
      → IsQuiet
      → env.fate v.step ≡ served
      → Holds cfg v.shared
      → (get_config env ops documents v).0 ≡ ok cfg
  unfolding get_config get_formula_config call
  get_config-served cfg v quiet working h =
      by_fate (env.fate v.step) (env.others v.step v.shared) working
        (Holds-quiet cfg v.step v.shared quiet h)
    where
      by_fate :
          (fate : Fate) (s : Shared)
          → fate ≡ served
          → Holds cfg s
          → let q = answer fate RepoError.driver (ok (select_config "apartment" s), s) s in
            let m : Action RepoError (Option ConfigRow) =
              λ _. (q.0, record { shared = q.1; step = suc v.step }) in
            (recover
              ((m >>= or_not_found) >>= scan_config env documents "apartment")
              (default_on_missing env ops documents)
              v).0
            ≡ ok cfg
      by_fate served s e h = found_config cfg s _ (record { shared = s; step = suc v.step }) refl h
      by_fate failed s e h = absurd (ground arith)
      by_fate lost s e h = absurd (ground arith)

  Holds-at :
      (r : Result Error (FormulaConfig F)) (s : Shared) (cfg : FormulaConfig F)
      → r ≡ ok cfg
      → Post Any Holds r s
      → Holds cfg s
  Holds-at r s cfg e h = let p : Post {E = Error} Any Holds (ok cfg) s = rw e at h in p

  -- While other processes leave the configurations alone, and if Postgres and JSON give back the
  -- document of the configuration that is stored: after an `UpdateApartmentFormulaConfig` that
  -- succeeded, a `GetApartmentFormulaConfig` whose query is served returns what the update has returned, but
  -- for the stamp, which the column keeps at the resolution of the database.
  pub get_config-update_config :
      (cfg stored : FormulaConfig F) (by : String) (w : World)
      → IsQuiet
      → IsFaithful cfg by
      → (update_config env ops documents cfg by w).0 ≡ ok stored
      → let v = (update_config env ops documents cfg by w).1 in
        env.fate v.step ≡ served
        → (at : Time) × ((get_config env ops documents v).0
            ≡ ok (record stored { updated_at = at }))
  get_config-update_config cfg stored by w quiet faithful updated working =
      let out = update_config env ops documents cfg by w in
      (
        stored.updated_at,
        get_config-served stored out.1 quiet working (
            Holds-at out.0 out.1.shared stored updated
              ((update_config-Holds cfg by faithful).run w tt)),
      )
