-- ===== src/Tests/Applying.antt =====
-- `ApplyApartmentCalculation` in a race with a completion.
use review_service.Prelude.{◌≡◌, refl, Bool, true, false, [], ◌∷◌, map, ◌==◌, if◌then◌else◌}
use review_service.Domain.Appraisal.{Comparable, completed}
use review_service.Domain.Errors.{Result, ok, err}
use review_service.World.{Env, World, call}
use review_service.Repository
use review_service.Repository.Statements.{
  complete_row, select_by_id, select_comparables, update_appraisal, bind_columns,
  delete_comparable_row,
}
use review_service.Repository.Formulas.{
  select_config, get_formula_config, save_formula_config, upsert_config,
}
use review_service.Service
use review_service.Service.Formulas.{default_on_missing, get_config, calculate, calculate_accepted}
use review_service.Service.Apply.{
  delete_comparables, add_comparables, marshal_result, replace_comparables, store_result,
  apply_checked, apply_calculation,
}
use review_service.Calculation.{is_acceptable, calculate_with_config, weigh, analog_results}
use review_service.Tests.Numbers.{fixed, documents, calculation}
use review_service.Tests.Setup.{env, tables}

-- Another process completes the appraisal after the write and before the deletion.
abbrev late : Env
late = record env { others = λ k s. if k == 8 then (complete_row 7 k s).1 else s }

abbrev old_comparable : Comparable
old_comparable = record { id = 8; appraisal_id = 7; content = "{}"; created_at = 50 }

abbrev before : World
before = record { shared = record tables { comparables = old_comparable ∷ [] }; step = 0 }

abbrev is_ok : {E A : Type 0} → Result E A → Bool
is_ok (ok a) = true
is_ok (err e) = false

-- The call succeeds, and the completed appraisal has lost its comparable and got none.
comparables_lost :
    let out = apply_calculation late fixed documents 7 calculation before in
    (is_ok out.0 ≡ true)
    × (out.1.shared.comparables ≡ [])
    × (map (λ r. r.status) out.1.shared.appraisals ≡ completed ∷ [])
unfolding apply_calculation apply_checked calculate calculate_accepted get_config get_formula_config
    select_config default_on_missing save_formula_config upsert_config call Repository.get_by_id
    select_by_id Repository.list_comparables select_comparables marshal_result store_result
    replace_comparables Repository.update update_appraisal bind_columns delete_comparables
    Repository.delete_comparable delete_comparable_row add_comparables Service.add_comparable
    complete_row is_acceptable calculate_with_config weigh analog_results
comparables_lost = (refl, refl, refl)
