-- ===== src/Handler/Apartments/Calculating.antt =====
-- `Calculate` of internal/handler/apartment.go while a configuration is stored.
use review_service.Prelude.{◌≡◌, refl, ◌⊎◌, true, false, Bool-cases, inl, inr}
use review_service.Domain.Floats.{Floats}
use review_service.Domain.Apartment.{FormulaConfig, CalculationInput, CalculationResult}
use review_service.Domain.Errors.{Error, Result, ok}
use review_service.World.{Env, World, served, Action, ◌>>=◌, pure, now}
use review_service.Repository.Formulas.{Documents}
use review_service.Calculation.{calculate_with_config, is_acceptable}
use review_service.Service.Formulas.{get_config, calculate, calculate_accepted}
use review_service.Service.Formulas.Reading.{Holds, IsQuiet, get_config-served}
use review_service.Http.{Response, respond_error, respond_json}
use review_service.Middleware.{Context}
use review_service.Handler.{Request, serve, with_body}
use review_service.Handler.Bodies.{Decoded, rejected, accepted, decode_body}
use review_service.Handler.Apartments.{
  Reply, Decoders, invalid_input_text, input_error, internal_error, calculate_apartment,
}

module _ {F : Type 0} (env : Env) (ops : Floats F) (documents : Documents F) (cfg : FormulaConfig F)
    (w : World) where
  -- The report at the time at which the configuration has been read.
  abbrev pub report : CalculationInput F → CalculationResult F
  report input =
      calculate_with_config ops input cfg (env.ticks (get_config env ops documents w).1.step)

  -- The answer to a body: what is wrong with it, with nothing changed, or the report.
  abbrev pub IsAnswer : Decoded (CalculationInput F) → Response (Reply F) × World → Type 0
  IsAnswer (rejected text) out = out ≡ (respond_error 400 text, w)
  IsAnswer (accepted input) out =
      ((is_acceptable ops input ≡ false) × (out ≡ (respond_error 400 invalid_input_text, w)))
      ⊎ ((is_acceptable ops input ≡ true)
          × (out.0 ≡ respond_json 200 (Reply.calculation (report input))))

  module _ (quiet : IsQuiet env ops documents) (working : env.fate w.step ≡ served)
      (held : Holds env ops documents cfg w.shared) where
    calculated :
        (input : CalculationInput F) (r : Result Error (FormulaConfig F)) (v : World)
        → r ≡ ok cfg
        → let m : Action Error (FormulaConfig F) = λ _. (r, v) in
          ((m >>= λ c. now env >>= λ at. pure (calculate_with_config ops input c at)) v).0
          ≡ ok (calculate_with_config ops input cfg (env.ticks v.step))
    calculated input r v e = rw e refl

    calculate_accepted-held :
        (input : CalculationInput F)
        → (calculate_accepted env ops documents input w).0 ≡ ok (report input)
    unfolding calculate_accepted
    calculate_accepted-held input =
        calculated input _ (get_config env ops documents w).1
          (get_config-served env ops documents cfg w quiet working held)

    answered :
        (r : Result Error (CalculationResult F)) (v : World) (out : CalculationResult F)
        → r ≡ ok out
        → let m : Action Error (CalculationResult F) = λ _. (r, v) in
          (serve m
            (input_error (internal_error "failed to perform calculation"))
            (λ result. respond_json 200 (Reply.calculation result))
            v).0
          ≡ respond_json 200 (Reply.calculation out)
    answered r v out e = rw e refl

    -- While a configuration is stored that other processes leave alone, and the query for it is served:
    -- `Calculate` answers a body that it cannot decode, and one without four analogs or with a price or
    -- an area that is not positive, with 400 and changes nothing; any other with 200 and the
    -- calculation by the stored configuration.
    pub calculate_apartment-IsAnswer :
        (decoders : Decoders F) (r : Request) (ctx : Context)
        → IsAnswer
            (decode_body decoders.input r.body)
            (calculate_apartment env ops documents decoders r ctx w)
    unfolding calculate_apartment calculate
    calculate_apartment-IsAnswer decoders r ctx = by_body (decode_body decoders.input r.body)
      where
        by_body :
            (body : Decoded (CalculationInput F))
            → IsAnswer body (
                with_body body
                  (λ input.
                    serve
                      (calculate env ops documents input)
                      (input_error (internal_error "failed to perform calculation"))
                      (λ result. respond_json 200 (Reply.calculation result)))
                  w)
        by_body (rejected text) = refl
        by_body (accepted input) = elim (Bool-cases (is_acceptable ops input)) [
          | inl fit ↦ inr (fit, rw fit (answered _ _ _ (calculate_accepted-held input)))
          | inr unfit ↦ inl (unfit, rw unfit refl)
        ]
