-- ===== src/Invariant/Applying.antt =====
-- `ApplyApartmentCalculation` against the invariant and the history of the rows, under any schedule.
use review_service.Prelude.{ℕ, suc, ◌≡◌, String, List, [], ◌∷◌, Option-cases, inl, inr}
use review_service.Domain.Appraisal.{Uuid, Comparable, Appraisal}
use review_service.Domain.Floats.{Floats}
use review_service.Domain.Apartment.{CalculationInput, Analog, AnalogResult, CalculationResult}
use review_service.World.Tables.{Shared}
use review_service.World.{
  Env, World, IsStable, Ensures, Keeps, Keeps-Ensures, bind-Ensures, pure-Ensures, fail-Ensures,
  weaken-Ensures, mono-Ensures, now-Ensures, ignore-Keeps,
}
use review_service.Repository.Formulas.{Documents}
use review_service.Service
use review_service.Service.Apply.{
  analog_document, delete_comparables, add_comparables, applied, marshal_result,
  replace_comparables, store_result, apply_checked, apply_calculation,
}
use review_service.Invariant.WellFormed.{IsWellFormed, IsCivil, IsReached}
use review_service.Invariant.Statements.{IsOpenStamp, AvoidsStamp}
use review_service.Invariant.Reading.{Reached-IsStable}
use review_service.Invariant.Operations.{delete_comparable-Ensures}
use review_service.Invariant.Guarded.{reading-Ensures, seen-Ensures}
use review_service.Invariant.Methods.{
  guarded_at, store-Ensures, new_comparable-Ensures, AvoidsReadStamp,
}
use review_service.Invariant.Configuring.{IsReached-IgnoresConfigs, calculate-Keeps}

module _ {F : Type 0} (env : Env) (ops : Floats F) (documents : Documents F) (civil : IsCivil env)
    (w : World) (v : IsWellFormed w.shared) where
  abbrev Start : Shared → Type 0
  Start = IsReached w.shared

  delete_comparables-Keeps :
      (id : Uuid) (cs : List Comparable) → Keeps Start (delete_comparables env ops documents id cs)
  unfolding delete_comparables
  delete_comparables-Keeps id [] = pure-Ensures (λ s r. r)
  delete_comparables-Keeps id (c ∷ cs) =
      bind-Ensures (ignore-Keeps (delete_comparable-Ensures env civil w.shared id c.id))
        (λ x. delete_comparables-Keeps id cs)

  add_comparable-Keeps :
      (id : Uuid) (content : String) → Keeps Start (Service.add_comparable env id content)
  unfolding Service.add_comparable
  add_comparable-Keeps id content =
      seen-Ensures env civil w.shared id _
        (λ a. weaken-Ensures (λ s (r, h). r) (new_comparable-Ensures env civil w v id content))

  add_comparables-Keeps :
      (id : Uuid) (i : ℕ) (analogs : List (Analog F)) (rs : List (AnalogResult F))
      → Keeps Start (add_comparables env ops documents id i analogs rs)
  unfolding add_comparables
  add_comparables-Keeps id i [] rs = pure-Ensures (λ s r. r)
  add_comparables-Keeps id i (a ∷ analogs) [] = fail-Ensures (λ s r. r)
  add_comparables-Keeps id i (a ∷ analogs) (r ∷ rs) =
      bind-Ensures
        (ignore-Keeps (add_comparable-Keeps id (documents.of_analog (analog_document i a r))))
        (λ x. add_comparables-Keeps id (suc i) analogs rs)

  replace_comparables-Keeps :
      (id : Uuid) (old : List Comparable) (input : CalculationInput F)
      (result : CalculationResult F)
      → Keeps Start (replace_comparables env ops documents id old input result)
  unfolding replace_comparables
  replace_comparables-Keeps id old input result =
      bind-Ensures (delete_comparables-Keeps id old) (λ x.
        bind-Ensures (add_comparables-Keeps id 0 input.analogs result.analogs)
          (λ y. mono-Ensures (λ a s (r, h). r) (reading-Ensures env civil w.shared id)))

  -- From the status check to the write: nobody completes the appraisal with the stamp that was read.
  module _ (id : Uuid) (a : Appraisal) (same : a.id ≡ id)
      (clear : AvoidsStamp env id a.updated_at) where
    abbrev Guarded : Shared → Type 0
    Guarded s = Start s × IsOpenStamp env id a.updated_at s

    Guarded-IsStable : IsStable env Guarded
    Guarded-IsStable k s (r, o) = (Reached-IsStable env civil w.shared k s r, clear k s o)

    store_result-Ensures :
        (input : CalculationInput F) (result : CalculationResult F) (bytes : String)
        → Ensures Start Guarded
            (store_result env ops documents id a input result bytes)
            (λ _. Start)
    unfolding store_result
    store_result-Ensures input result bytes = bind-Ensures (now-Ensures env) (λ at.
        bind-Ensures
          (store-Ensures env civil w v id (applied env ops documents result bytes at a) a.updated_at
            same clear)
          (λ x. replace_comparables-Keeps id a.comparables input result))

    marshal_result-Keeps :
        (result : CalculationResult F) → Keeps Guarded (marshal_result env ops documents result)
    unfolding marshal_result
    marshal_result-Keeps result = elim (Option-cases (documents.of_result result)) [
      | inl refused ↦ rw (refused, marshal_result) (fail-Ensures (λ s h. h))
      | inr (bytes, e) ↦ rw (e, marshal_result) (pure-Ensures (λ s h. h))
    ]

    apply_checked-Ensures :
        (input : CalculationInput F)
        → Ensures Start Guarded (apply_checked env ops documents id input a) (λ _. Start)
    unfolding apply_checked
    apply_checked-Ensures input =
        bind-Ensures
          (Keeps-Ensures (λ s (r, o). r)
            (calculate-Keeps env ops documents Guarded-IsStable
              (λ s rows (r, o). (IsReached-IgnoresConfigs w.shared s rows r, o)) input))
          (λ result.
            bind-Ensures (Keeps-Ensures (λ s (r, o). r) (marshal_result-Keeps result))
              (λ bytes. store_result-Ensures input result bytes))

  pub apply_calculation-Reached :
      (id : Uuid) (input : CalculationInput F)
      → AvoidsReadStamp env civil w v id
      → Start (apply_calculation env ops documents id input w).1.shared
  unfolding apply_calculation
  apply_calculation-Reached id input avoids =
      guarded_at env civil w v id (apply_checked env ops documents id input) avoids
        (λ a same clear. apply_checked-Ensures id a same clear input)
