-- ===== src/Invariant/Framing/Methods.antt =====
-- The service methods that neither create nor complete an appraisal, against any condition that their
-- writes leave alone: the methods.
use review_service.Prelude.{ℕ, suc, String, some, List, [], ◌∷◌, Option-cases, inl, inr}
use review_service.Domain.Appraisal.{Uuid, Comparable, Appraisal}
use review_service.Domain.Floats.{Floats}
use review_service.Domain.Apartment.{CalculationInput, Analog, AnalogResult, CalculationResult}
use review_service.World.{
  Env, Keeps, bind-Ensures, pure-Ensures, fail-Ensures, map_err-Ensures, now-Ensures,
  new_uuid-Ensures, ignore-Keeps,
}
use review_service.World.Tables.{Shared}
use review_service.Repository.Formulas.{Documents}
use review_service.Service
use review_service.Service.{UpdateInput, require_in_progress}
use review_service.Service.Apply.{
  analog_document, delete_comparables, add_comparables, applied, marshal_result,
  replace_comparables, store_result, apply_checked, apply_calculation,
}
use review_service.Storage.{StubStorage, report_key, key_for, presign_upload}
use review_service.Invariant.Configuring.{calculate-Keeps}
use review_service.Invariant.Framing.{
  IsFramed, read-Keeps, checked-Keeps, new_comparable-Keeps, row_deleted-Keeps, store-Keeps,
}

module _ {F : Type 0} (env : Env) (ops : Floats F) (documents : Documents F)
    {Allowed : Uuid → Type 0} {P : Shared → Type 0} (framed : IsFramed env Allowed P) where
  pub add_comparable-Keeps :
      (id : Uuid) (content : String) → Keeps P (Service.add_comparable env id content)
  unfolding Service.add_comparable
  add_comparable-Keeps id content =
      checked-Keeps env ops documents framed id _
        (λ a allowed. new_comparable-Keeps env ops documents framed id content)

  pub delete_comparable-Keeps :
      (id comparable_id : Uuid) → Keeps P (Service.delete_comparable env id comparable_id)
  unfolding Service.delete_comparable
  delete_comparable-Keeps id comparable_id =
      checked-Keeps env ops documents framed id _ (λ a allowed.
        map_err-Ensures Service.read_error
          (row_deleted-Keeps env ops documents framed id comparable_id allowed))

  pub update-Keeps : (id : Uuid) (input : UpdateInput) → Keeps P (Service.update env id input)
  unfolding Service.update Service.patch_appraisal
  update-Keeps id input = checked-Keeps env ops documents framed id _ (λ a allowed.
      bind-Ensures (now-Ensures env) (λ at.
        bind-Ensures
          (store-Keeps env ops documents framed a.updated_at (Service.apply_input input at a))
          (λ x. pure-Ensures {a = Service.apply_input input at a} (λ s p. p))))

  pub upload_report-Keeps :
      (storage : StubStorage) (id : Uuid) (filename : String)
      → Keeps P (Service.upload_report env storage id filename)
  unfolding Service.upload_report Service.register_report key_for
  upload_report-Keeps storage id filename =
      checked-Keeps env ops documents framed id _ (λ a allowed.
        bind-Ensures
          (bind-Ensures (new_uuid-Ensures env) (λ random.
            pure-Ensures {a = report_key (env.uuid_text id) (env.uuid_text random) filename}
              (λ s p. p)))
          (λ key. bind-Ensures (now-Ensures env) (λ at.
            bind-Ensures
              (store-Keeps env ops documents framed a.updated_at
                (record a { report_s3_key = some key; updated_at = at }))
              (λ x.
                pure-Ensures {a = record { s3_key = key; upload_url = presign_upload storage key }}
                  (λ s p. p)))))

  delete_comparables-Keeps :
      (id : Uuid) (cs : List Comparable)
      → Allowed id
      → Keeps P (delete_comparables env ops documents id cs)
  unfolding delete_comparables
  delete_comparables-Keeps id [] allowed = pure-Ensures (λ s p. p)
  delete_comparables-Keeps id (c ∷ cs) allowed =
      bind-Ensures (ignore-Keeps (row_deleted-Keeps env ops documents framed id c.id allowed))
        (λ x. delete_comparables-Keeps id cs allowed)

  add_comparables-Keeps :
      (id : Uuid) (i : ℕ) (analogs : List (Analog F)) (rs : List (AnalogResult F))
      → Keeps P (add_comparables env ops documents id i analogs rs)
  unfolding add_comparables
  add_comparables-Keeps id i [] rs = pure-Ensures (λ s p. p)
  add_comparables-Keeps id i (a ∷ analogs) [] = fail-Ensures (λ s p. p)
  add_comparables-Keeps id i (a ∷ analogs) (r ∷ rs) =
      bind-Ensures
        (ignore-Keeps (add_comparable-Keeps id (documents.of_analog (analog_document i a r))))
        (λ x. add_comparables-Keeps id (suc i) analogs rs)

  store_result-Keeps :
      (id : Uuid) (a : Appraisal) (input : CalculationInput F) (result : CalculationResult F)
      (bytes : String)
      → Allowed id
      → Keeps P (store_result env ops documents id a input result bytes)
  unfolding store_result replace_comparables
  store_result-Keeps id a input result bytes allowed = bind-Ensures (now-Ensures env) (λ at.
      bind-Ensures
        (store-Keeps env ops documents framed a.updated_at
          (applied env ops documents result bytes at a))
        (λ x. bind-Ensures (delete_comparables-Keeps id a.comparables allowed) (λ y.
          bind-Ensures (add_comparables-Keeps id 0 input.analogs result.analogs)
            (λ z. read-Keeps env ops documents framed id))))

  marshal_result-Keeps :
      (result : CalculationResult F) → Keeps P (marshal_result env ops documents result)
  unfolding marshal_result
  marshal_result-Keeps result = elim (Option-cases (documents.of_result result)) [
    | inl refused ↦ rw (refused, marshal_result) (fail-Ensures (λ s p. p))
    | inr (bytes, e) ↦ rw (e, marshal_result) (pure-Ensures (λ s p. p))
  ]

  pub apply_calculation-Keeps :
      (id : Uuid) (input : CalculationInput F)
      → Keeps P (apply_calculation env ops documents id input)
  unfolding apply_calculation apply_checked
  apply_calculation-Keeps id input = checked-Keeps env ops documents framed id _ (λ a allowed.
      bind-Ensures (calculate-Keeps env ops documents framed.stable framed.configs input) (λ result.
        bind-Ensures (marshal_result-Keeps result)
          (λ bytes. store_result-Keeps id a input result bytes allowed)))
