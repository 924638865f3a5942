-- ===== src/Service/Apply.antt =====
-- internal/service/appraisal.go: `ApplyApartmentCalculation`.
use review_service.Prelude.{ℕ, suc, ◌+◌, String, none, some, List, [], ◌∷◌}
use review_service.Domain.Appraisal.{Uuid, Time, Comparable, Appraisal}
use review_service.Domain.Floats.{Floats}
use review_service.Domain.Apartment.{
  CalculationInput, Analog, AnalogResult, AnalogDocument, CalculationResult,
}
use review_service.Domain.Errors.{Error}
use review_service.World.{Env, Action, pure, fail, ◌>>=◌, ◌>>◌, ignore, now}
use review_service.Repository
use review_service.Repository.Formulas.{Documents}
use review_service.Service.{read, require_in_progress, store, add_comparable}
use review_service.Service.Formulas.{calculate}

-- `map[string]any{…}` of the analog at an index and its result.
abbrev pub analog_document : {F : Type 0} → ℕ → Analog F → AnalogResult F → AnalogDocument F
analog_document i a r = record {
  analog_no = i + 1;
  price_per_sqm = a.price_per_sqm;
  bargaining_percent = a.bargaining_percent;
  area = a.area;
  district = a.district;
  condition = a.condition;
  repair_class_id = a.repair_class_id;
  floor = a.floor;
  adjusted_price = r.price_after_floor;
  weight = r.weight;
}

module _ {F : Type 0} (env : Env) (ops : Floats F) (documents : Documents F) where
  -- `_ = s.repo.DeleteComparable(…)` for each.
  unfoldable pub delete_comparables : Uuid → List Comparable → Action Error (Unit {0})
  delete_comparables id [] = pure tt
  delete_comparables id (c ∷ cs) =
      ignore (Repository.delete_comparable env id c.id) >> delete_comparables id cs

  -- `_, _ = s.AddComparable(…)` for each analog of the input, with the result at its index. Without one the
  -- index is out of range: the panic ends the call, and the router's middleware answers 500.
  unfoldable pub add_comparables :
      Uuid → ℕ → List (Analog F) → List (AnalogResult F) → Action Error (Unit {0})
  add_comparables id i [] rs = pure tt
  add_comparables id i (a ∷ analogs) [] = fail Error.driver
  add_comparables id i (a ∷ analogs) (r ∷ rs) =
      ignore (add_comparable env id (documents.of_analog (analog_document i a r)))
      >> add_comparables id (suc i) analogs rs

  abbrev pub applied : CalculationResult F → String → Time → Appraisal → Appraisal
  applied result bytes at a = record a {
    market_value = some (documents.money result.total_market_value);
    calculation_data = some bytes;
    updated_at = at;
  }

  unfoldable pub marshal_result : CalculationResult F → Action Error String
  marshal_result result = elim (documents.of_result result) [
    | none ↦ fail Error.driver
    | some bytes ↦ pure bytes
  ]

  -- What follows the optimistic write.
  unfoldable pub replace_comparables :
      Uuid → List Comparable → CalculationInput F → CalculationResult F → Action Error Appraisal
  replace_comparables id old input result =
      delete_comparables id old
      >> (add_comparables id 0 input.analogs result.analogs >> read env id)

  unfoldable pub store_result :
      Uuid → Appraisal → CalculationInput F → CalculationResult F → String → Action Error Appraisal
  store_result id a input result bytes = do
    at ← now env
    store env a.updated_at (applied result bytes at a)
    replace_comparables id a.comparables input result

  -- What follows the status check.
  unfoldable pub apply_checked : Uuid → CalculationInput F → Appraisal → Action Error Appraisal
  apply_checked id input a = do
    result ← calculate env ops documents input
    bytes ← marshal_result result
    store_result id a input result bytes

  unfoldable pub apply_calculation : Uuid → CalculationInput F → Action Error Appraisal
  apply_calculation id input = do
    a ← read env id
    require_in_progress a.status
    apply_checked id input a
