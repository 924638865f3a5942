-- ===== src/Handler/Apartments.antt =====
-- internal/handler/apartment.go: the methods of `apartmentHandler`. The decoding of bodies is a parameter.
pub mod Calculating
use review_service.Prelude.{ℕ, String, Option, none, some}
use review_service.Domain.Appraisal.{Uuid, Appraisal}
use review_service.Domain.Floats.{Floats}
use review_service.Domain.Apartment.{FormulaConfig, CalculationInput, CalculationResult}
use review_service.Domain.Errors.{Error, invalid_input}
use review_service.World.{Env}
use review_service.Repository.Formulas.{Documents}
use review_service.Service.Formulas.{get_config, update_config, reset_config, calculate}
use review_service.Service.Apply.{apply_calculation}
use review_service.Handler.Bodies.{decode_body}
use review_service.Http.{Response, respond_error, respond_json}
use review_service.Middleware.{Context, Handler}
use review_service.Handler.{Request, write_service_error, serve, with_body, with_id}

pub data Reply (F : Type 0) : Type 0 where
  config : FormulaConfig F → Reply F
  calculation : CalculationResult F → Reply F
  appraisal : Appraisal → Reply F

-- `json.Decode` under a limit of the body's size.
pub record Decoders (F : Type 0) : Type 0 where
  pub parse_uuid : String → Option Uuid
  pub config : ℕ → String → Option (FormulaConfig F)
  pub input : ℕ → String → Option (CalculationInput F)

-- `ErrInvalidCalculationInput.Error()`.
abbrev pub invalid_input_text : String
invalid_input_text = "invalid calculation input: must provide subject and exactly 4 analogs"

-- `updatedBy`.
abbrev pub editor : Env → Context → String
editor env ctx = elim ctx.user_id [ none ↦ "admin" | some id ↦ env.uuid_text id ]

module _ {F : Type 0} where
  abbrev pub internal_error : String → Error → Response (Reply F)
  internal_error text e = respond_error 500 text

  -- The error of a calculation that is an answer of its own; the others go on.
  abbrev pub input_error : (Error → Response (Reply F)) → Error → Response (Reply F)
  input_error other invalid_input = respond_error 400 invalid_input_text
  input_error other e = other e

module _ {F : Type 0} (env : Env) (ops : Floats F) (documents : Documents F)
    (decoders : Decoders F) where
  unfoldable pub get_formula_config : Handler (Reply F)
  get_formula_config ctx =
      serve (get_config env ops documents) (internal_error "failed to get formula config")
        (λ cfg. respond_json 200 (Reply.config cfg))

  unfoldable pub update_formula_config : Request → Handler (Reply F)
  update_formula_config r ctx = with_body (decode_body decoders.config r.body) (λ cfg.
      serve (update_config env ops documents cfg (editor env ctx))
        (internal_error "failed to update formula config")
        (λ updated. respond_json 200 (Reply.config updated)))

  unfoldable pub reset_formula_config : Handler (Reply F)
  reset_formula_config ctx =
      serve (reset_config env ops documents (editor env ctx))
        (internal_error "failed to reset formula config")
        (λ cfg. respond_json 200 (Reply.config cfg))

  unfoldable pub calculate_apartment : Request → Handler (Reply F)
  calculate_apartment r ctx = with_body (decode_body decoders.input r.body) (λ input.
      serve (calculate env ops documents input)
        (input_error (internal_error "failed to perform calculation"))
        (λ result. respond_json 200 (Reply.calculation result)))

  unfoldable pub apply_to_appraisal : Request → Handler (Reply F)
  apply_to_appraisal r ctx = with_id (decoders.parse_uuid (r.url_param "id")) "invalid id" (λ id.
      with_body (decode_body decoders.input r.body) (λ input.
        serve (apply_calculation env ops documents id input)
          (input_error (λ e. write_service_error e "failed to apply calculation to appraisal"))
          (λ a. respond_json 200 (Reply.appraisal a))))
