-- ===== src/Invariant/Configuring.antt =====
-- The operations on the formula configuration, against any condition that does not read it.
use review_service.Prelude.{String, Option, none, some, Option-cases, inl, inr, List}
use review_service.Domain.Appraisal.{Time}
use review_service.Domain.Floats.{Floats}
use review_service.Domain.Apartment.{FormulaConfig, default_config, CalculationInput}
use review_service.Domain.Errors.{RepoError, not_found, conflict, driver}
use review_service.World.{
  Env, IsStable, Keeps, bind-Ensures, pure-Ensures, fail-Ensures, map_err-Ensures, call-Ensures,
  now-Ensures, ignore-Keeps, recover-Keeps, if-Keeps,
}
use review_service.World.Tables.{Shared, ConfigRow}
use review_service.Repository
use review_service.Repository.Formulas.{
  Documents, select_config, upsert_config, scan_config, get_formula_config, save_formula_config,
}
use review_service.Service.{raw_error}
use review_service.Service.Formulas.{
  stamped, default_on_missing, get_config, update_config, reset_config, calculate_accepted,
  calculate,
}
use review_service.Calculation.{calculate_with_config, is_acceptable}
use review_service.Invariant.WellFormed.{IsReached}

-- A condition that does not read the configurations.
abbrev pub IgnoresConfigs : (Shared → Type 0) → Type 0
IgnoresConfigs P =
    (s : Shared) (rows : List ConfigRow) → P s → P (record s { formula_configs = rows })

pub IsReached-IgnoresConfigs : (start : Shared) → IgnoresConfigs (IsReached start)
IsReached-IgnoresConfigs start s rows r = record {
  formed = record {
    ids = r.formed.ids;
    requests = r.formed.requests;
    dated = r.formed.dated;
    agrees = r.formed.agrees;
    ascending = r.formed.ascending;
  };
  evolved = r.evolved;
}

module _ {F : Type 0} (env : Env) (ops : Floats F) (documents : Documents F) {P : Shared → Type 0}
    (stable : IsStable env P) (ignores : IgnoresConfigs P) where
  pub query-Keeps : {A : Type 0} (f : Shared → A) → Keeps P (Repository.query env f)
  query-Keeps f = call-Ensures env driver _ stable (λ s p. p) (λ s p. p) (λ s p. p)

  upsert_config-Keeps :
      (id raw : String) (at : Time) (by : Option String)
      → Keeps P (Repository.exec env (upsert_config env id raw at by))
  unfolding upsert_config
  upsert_config-Keeps id raw at by = elim (Option-cases (env.jsonb raw)) [
    | inl refused ↦
        call-Ensures env driver _ stable (λ s p. p) (λ s p. rw (refused, upsert_config) p)
          (λ s p. rw (refused, upsert_config) p)
    | inr (document, e) ↦
        call-Ensures env driver _ stable (λ s p. p) (λ s p. rw (e, upsert_config) (ignores s _ p))
          (λ s p. rw (e, upsert_config) (ignores s _ p))
  ]

  save_formula_config-Keeps :
      (cfg : FormulaConfig F) → Keeps P (save_formula_config env documents cfg)
  unfolding save_formula_config
  save_formula_config-Keeps cfg = elim (Option-cases (documents.of_config cfg)) [
    | inl refused ↦ rw (refused, save_formula_config) (fail-Ensures (λ s p. p))
    | inr (raw, e) ↦
        rw (e, save_formula_config)
          (bind-Ensures (upsert_config-Keeps cfg.id raw cfg.updated_at cfg.updated_by)
            (λ n. pure-Ensures (λ s p. p)))
  ]

  pub found-Keeps : {A : Type 0} (o : Option A) → Keeps P (Repository.or_not_found o)
  found-Keeps none = fail-Ensures (λ s p. p)
  found-Keeps (some a) = pure-Ensures (λ s p. p)

  scan_config-Keeps : (id : String) (row : ConfigRow) → Keeps P (scan_config env documents id row)
  unfolding scan_config
  scan_config-Keeps id row = elim (Option-cases (documents.config_of row.config)) [
    | inl refused ↦ rw (refused, scan_config) (fail-Ensures (λ s p. p))
    | inr (cfg, e) ↦ rw (e, scan_config) (pure-Ensures (λ s p. p))
  ]

  default_on_missing-Keeps : (e : RepoError) → Keeps P (default_on_missing env ops documents e)
  unfolding default_on_missing
  default_on_missing-Keeps not_found = bind-Ensures (now-Ensures env) (λ at.
      bind-Ensures (ignore-Keeps (save_formula_config-Keeps (default_config ops at)))
        (λ x. pure-Ensures {a = default_config ops at} (λ s p. p)))
  default_on_missing-Keeps conflict = fail-Ensures (λ s p. p)
  default_on_missing-Keeps driver = fail-Ensures (λ s p. p)

  pub get_config-Keeps : Keeps P (get_config env ops documents)
  unfolding get_config get_formula_config
  get_config-Keeps =
      recover-Keeps
        (bind-Ensures (bind-Ensures (query-Keeps (select_config "apartment")) found-Keeps)
          (scan_config-Keeps "apartment"))
        default_on_missing-Keeps

  pub update_config-Keeps :
      (cfg : FormulaConfig F) (by : String) → Keeps P (update_config env ops documents cfg by)
  unfolding update_config
  update_config-Keeps cfg by = bind-Ensures (now-Ensures env) (λ at.
      bind-Ensures
        (map_err-Ensures raw_error
          (save_formula_config-Keeps (stamped env ops documents cfg at by)))
        (λ x. pure-Ensures {a = stamped env ops documents cfg at by} (λ s p. p)))

  pub reset_config-Keeps : (by : String) → Keeps P (reset_config env ops documents by)
  unfolding reset_config
  reset_config-Keeps by = bind-Ensures (now-Ensures env) (λ first.
      bind-Ensures (now-Ensures env) (λ at.
        bind-Ensures
          (map_err-Ensures raw_error (
            save_formula_config-Keeps (stamped env ops documents (default_config ops first) at by)))
          (λ x.
            pure-Ensures {a = stamped env ops documents (default_config ops first) at by}
              (λ s p. p))))

  pub calculate-Keeps : (input : CalculationInput F) → Keeps P (calculate env ops documents input)
  unfolding calculate calculate_accepted
  calculate-Keeps input =
      if-Keeps (is_acceptable ops input)
        (bind-Ensures get_config-Keeps (λ cfg.
          bind-Ensures (now-Ensures env)
            (λ at. pure-Ensures {a = calculate_with_config ops input cfg at} (λ s p. p))))
        (fail-Ensures (λ s p. p))
