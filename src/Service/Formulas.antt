-- ===== src/Service/Formulas.antt =====
-- internal/service/apartment_calc.go: the methods of `appraisalService` on the formula configuration, and
-- `CalculateApartment`.
pub mod Reading
use review_service.Prelude.{String, some, if◌then◌else◌}
use review_service.Domain.Appraisal.{Time}
use review_service.Domain.Floats.{Floats}
use review_service.Domain.Apartment.{
  FormulaConfig, default_config, CalculationInput, CalculationResult,
}
use review_service.Domain.Errors.{RepoError, not_found, Error}
use review_service.World.{Env, Action, pure, fail, ◌>>=◌, ◌>>◌, map_err, recover, ignore, now}
use review_service.Repository.Formulas.{Documents, get_formula_config, save_formula_config}
use review_service.Service.{raw_error}
use review_service.Calculation.{calculate_with_config, is_acceptable}

module _ {F : Type 0} (env : Env) (ops : Floats F) (documents : Documents F) where
  -- A configuration that is not stored is the default, which is stored then if that succeeds.
  unfoldable pub default_on_missing : RepoError → Action Error (FormulaConfig F)
  default_on_missing not_found = do
    at ← now env
    ignore (save_formula_config env documents (default_config ops at))
    pure (default_config ops at)
  default_on_missing e = fail (raw_error e)

  unfoldable pub get_config : Action Error (FormulaConfig F)
  get_config = recover (get_formula_config env documents "apartment") default_on_missing

  abbrev pub stamped : FormulaConfig F → Time → String → FormulaConfig F
  stamped cfg at by = record cfg { id = "apartment"; updated_at = at; updated_by = some by }

  unfoldable pub update_config : FormulaConfig F → String → Action Error (FormulaConfig F)
  update_config cfg by = do
    at ← now env
    map_err raw_error (save_formula_config env documents (stamped cfg at by))
    pure (stamped cfg at by)

  -- The clock is read twice: once by the default's constructor.
  unfoldable pub reset_config : String → Action Error (FormulaConfig F)
  reset_config by = do
    first ← now env
    at ← now env
    map_err raw_error (save_formula_config env documents (stamped (default_config ops first) at by))
    pure (stamped (default_config ops first) at by)

  -- What follows the tests.
  unfoldable pub calculate_accepted : CalculationInput F → Action Error (CalculationResult F)
  calculate_accepted input = do
    cfg ← get_config
    at ← now env
    pure (calculate_with_config ops input cfg at)

  unfoldable pub calculate : CalculationInput F → Action Error (CalculationResult F)
  calculate input =
      if is_acceptable ops input then calculate_accepted input else fail Error.invalid_input
