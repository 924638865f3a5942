-- ===== src/Repository/Formulas.antt =====
-- internal/repository/postgres.go: `GetFormulaConfig` and `SaveFormulaConfig`. JSON is a parameter.
use review_service.Prelude.{
  String, Bool, Option, none, some, List, [], ◌∷◌, ◌++◌, if◌then◌else◌, str_eq, find, exists,
  map_where,
}
use review_service.Domain.Appraisal.{Time}
use review_service.Domain.Apartment.{FormulaConfig, CalculationResult, AnalogDocument}
use review_service.Domain.Errors.{RepoError, driver, ok, err}
use review_service.World.{Env, Action, pure, fail, ◌>>=◌}
use review_service.World.Tables.{Shared, ConfigRow}
use review_service.Repository.{query, or_not_found, exec}
use review_service.Repository.Statements.{Exec}

-- `json.Marshal` and `json.Unmarshal` on the documents that are stored, and `fmt.Sprintf("%.2f", …)`.
-- The text of a `nil` document is empty.
pub record Documents (F : Type 0) : Type 0 where
  pub config_of : String → Option (FormulaConfig F)
  pub of_config : FormulaConfig F → Option String
  pub of_result : CalculationResult F → Option String
  pub of_analog : AnalogDocument F → String
  pub money : F → String

abbrev pub has_config_id : String → ConfigRow → Bool
has_config_id id row = str_eq row.id id

-- `SELECT config, updated_at, updated_by FROM formula_configs WHERE id = $1`.
unfoldable pub select_config : String → Shared → Option ConfigRow
select_config id s = find (has_config_id id) s.formula_configs

-- `DO UPDATE SET config = EXCLUDED.config, …`.
abbrev pub set_config : ConfigRow → ConfigRow → ConfigRow
set_config new row = record row {
  config = new.config;
  updated_at = new.updated_at;
  updated_by = new.updated_by;
}

-- `INSERT … ON CONFLICT (id) DO UPDATE`.
abbrev pub put_config : ConfigRow → List ConfigRow → List ConfigRow
put_config new rows =
    if exists (has_config_id new.id) rows
    then map_where (has_config_id new.id) (set_config new) rows
    else rows ++ new ∷ []

module _ (env : Env) where
  unfoldable pub upsert_config : String → String → Time → Option String → Exec
  upsert_config id raw at by s = elim (env.jsonb raw) [
    | none ↦ (err driver, s)
    | some document ↦ (
      ok 1,
      record s {
        formula_configs =
            put_config (record { id = id; config = document; updated_at = at; updated_by = by })
              s.formula_configs;
      },
    )
  ]

  module _ {F : Type 0} (documents : Documents F) where
    -- The row's document, with the columns written over it.
    unfoldable pub scan_config : String → ConfigRow → Action RepoError (FormulaConfig F)
    scan_config id row = elim (documents.config_of row.config) [
      | none ↦ fail driver
      | some cfg ↦
          pure (record cfg { id = id; updated_at = row.updated_at; updated_by = row.updated_by })
    ]

    unfoldable pub get_formula_config : String → Action RepoError (FormulaConfig F)
    get_formula_config id = do
      row ← query env (select_config id) >>= or_not_found
      scan_config id row

    unfoldable pub save_formula_config : FormulaConfig F → Action RepoError (Unit {0})
    save_formula_config cfg = elim (documents.of_config cfg) [
      | none ↦ fail driver
      | some raw ↦ do
        affected ← exec env (upsert_config cfg.id raw cfg.updated_at cfg.updated_by)
        pure tt
    ]
