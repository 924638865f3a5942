-- ===== src/Handler/Bodies.antt =====
-- internal/handler/dto.go and validate.go: the bodies of the requests, from JSON to what the service is
-- given, or to the message of the 400. `json.Decode`, `json.Valid` and the validator are parameters.
use Prim.Native.String.{◌++◌}
use review_service.Prelude.{
  ℕ, String, Bool, Option, none, some, List, [], ◌∷◌, str_eq, if◌then◌else◌,
}
use review_service.Domain.Appraisal.{Uuid}
use review_service.Service.{UpdateInput}

pub record UpdateAppraisalDto : Type 0 where
  pub appraiser_id : Option Uuid
  pub notes : Option String
  pub market_value : Option String

-- `content` is the field `Data`, with none where the body has no such key.
pub record AddComparableDto : Type 0 where
  pub content : Option String

pub record UploadReportDto : Type 0 where
  pub filename : String

-- A field with its tags `json` and `validate`, as the validator finds them by reflection.
pub record Field : Type 0 where
  pub json : String
  pub rules : String
  pub content : Option String

abbrev pub update_fields : UpdateAppraisalDto → List Field
update_fields dto =
    record { json = "notes"; rules = "omitempty,max=10000"; content = dto.notes }
    ∷ record { json = "market_value"; rules = "omitempty,numeric"; content = dto.market_value }
    ∷ []

abbrev pub comparable_fields : AddComparableDto → List Field
comparable_fields dto = record { json = "data"; rules = "required"; content = dto.content } ∷ []

abbrev pub report_fields : UploadReportDto → List Field
report_fields dto =
    record { json = "filename"; rules = "required,min=1,max=255"; content = some dto.filename } ∷ []

-- `validator.FieldError`: the name that was registered for the field, and the rule it fails.
pub record FieldError : Type 0 where
  pub field : String
  pub tag : String
  pub param : String

-- The error of `validate.Struct`: its text, and its failures where it is a `validator.ValidationErrors`.
pub record ValidationError : Type 0 where
  pub text : String
  pub failures : Option (List FieldError)

-- `strings.SplitN(_, ",", 2)[0]`, and `validate.Struct` under the names of the fields that are registered.
pub record Validator : Type 0 where
  pub before_comma : String → String
  pub struct : (String → String) → List Field → Option ValidationError

-- The function of `RegisterTagNameFunc`.
abbrev pub tag_name : Validator → String → String
tag_name validator json =
    let name = validator.before_comma json in if str_eq name "-" then "" else name

abbrev pub failure_text : FieldError → String
failure_text fe =
    if str_eq fe.tag "oneof"
    then (fe.field ++ " must be one of: ") ++ fe.param
    else if str_eq fe.tag "min"
    then ((fe.field ++ " must be at least ") ++ fe.param) ++ " character(s)"
    else if str_eq fe.tag "max"
    then ((fe.field ++ " must be at most ") ++ fe.param) ++ " character(s)"
    else if str_eq fe.tag "required"
    then fe.field ++ " is required"
    else (fe.field ++ " failed validation: ") ++ fe.tag

abbrev pub first_validation_error : ValidationError → String
first_validation_error e = elim e.failures [
  | none ↦ e.text
  | some failures ↦ elim failures [ [] ↦ e.text | fe ∷ rest ↦ failure_text fe ]
]

-- What a body gives: the message of the 400, or the value that is passed on.
pub data Decoded (A : Type 0) : Type 0 where
  rejected : String → Decoded A
  accepted : A → Decoded A

-- The parsing of a body is given the limit of its size, of `http.MaxBytesReader`.
pub record Decoders : Type 0 where
  pub parse_uuid : String → Option Uuid
  pub validator : Validator
  pub update_dto : ℕ → String → Option UpdateAppraisalDto
  pub report_dto : ℕ → String → Option UploadReportDto
  pub comparable_dto : ℕ → String → Option AddComparableDto
  pub valid_json : String → Bool

abbrev pub max_body : ℕ
max_body = 1048576

module _ {A : Type 0} where
  abbrev pub decode_body : (ℕ → String → Option A) → String → Decoded A
  decode_body decode body = elim (decode max_body body) [
    | none ↦ rejected "invalid request body"
    | some a ↦ accepted a
  ]

  -- `validate.Struct` on a value with these fields.
  abbrev pub validated : Validator → (A → List Field) → Decoded A → Decoded A
  validated validator fields (rejected text) = rejected text
  validated validator fields (accepted a) =
      elim (validator.struct (tag_name validator) (fields a)) [
        | none ↦ accepted a
        | some e ↦ rejected (first_validation_error e)
      ]

abbrev pub update_input : UpdateAppraisalDto → UpdateInput
update_input dto = record {
  appraiser_id = dto.appraiser_id;
  notes = dto.notes;
  market_value = dto.market_value;
}

abbrev pub not_json : Decoded String
not_json = rejected "data must be valid JSON"

-- `json.Valid`, which an absent value is not.
abbrev pub json_checked : (String → Bool) → Option String → Decoded String
json_checked valid none = not_json
json_checked valid (some content) = if valid content then accepted content else not_json

module _ {A B : Type 0} where
  -- What follows the validation.
  abbrev pub passed_on : (A → Decoded B) → Decoded A → Decoded B
  passed_on next (rejected text) = rejected text
  passed_on next (accepted a) = next a

module _ (decoders : Decoders) where
  abbrev pub update_body : String → Decoded UpdateInput
  update_body body =
      passed_on (λ dto. accepted (update_input dto))
        (validated decoders.validator update_fields (decode_body decoders.update_dto body))

  abbrev pub report_body : String → Decoded String
  report_body body =
      passed_on (λ dto. accepted dto.filename)
        (validated decoders.validator report_fields (decode_body decoders.report_dto body))

  abbrev pub comparable_body : String → Decoded String
  comparable_body body =
      passed_on (λ dto. json_checked decoders.valid_json dto.content)
        (validated decoders.validator comparable_fields (decode_body decoders.comparable_dto body))
