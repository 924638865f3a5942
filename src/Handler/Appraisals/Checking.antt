-- ===== src/Handler/Appraisals/Checking.antt =====
-- The handlers that take a body: what they let through to the service, and what they answer themselves.
use mathlib.Core.Path.{subst}
use review_service.Prelude.{
  sym, ℕ, ◌≡◌, ◌≢◌, refl, String, Bool, true, Option, none, some, some-injective, List, ◌⊎◌, inl,
  inr, arith, ℤ, Bool-cases,
}
use review_service.Domain.Appraisal.{Uuid}
use review_service.Domain.Errors.{
  Error, Result, ok, err, not_found, conflict, driver, forbidden, invalid_status, invalid_input,
}
use review_service.World.{Env, World, Action}
use review_service.Storage.{StubStorage}
use review_service.Service
use review_service.Service.{UpdateInput}
use review_service.Http.{Response}
use review_service.Handler.{Request, Reply, write_service_error, serve, with_body, with_id}
use review_service.Handler.Bodies.{
  first_validation_error, ValidationError, Field, Validator, tag_name, Decoded, rejected, accepted,
  Decoders, max_body, decode_body, validated, passed_on, json_checked, UpdateAppraisalDto,
  UploadReportDto, AddComparableDto, update_fields, report_fields, comparable_fields, update_input,
  update_body, report_body, comparable_body,
}
use review_service.Handler.Appraisals.{update, upload_report, add_comparable}

-- A body that can be decoded to `dto`, which passes the validation.
abbrev pub IsValid :
    {A : Type 0} → Validator → (A → List Field) → (ℕ → String → Option A) → String → A → Type 0
IsValid validator fields decode body dto =
    (decode max_body body ≡ some dto) × (validator.struct (tag_name validator) (fields dto) ≡ none)

abbrev pub IsContent : (String → Bool) → Option String → String → Type 0
IsContent valid parsed content = (parsed ≡ some content) × (valid content ≡ true)

module _ (decoders : Decoders) where
  -- What each handler takes from a body.
  abbrev pub TakesInput : String → UpdateInput → Type 0
  TakesInput body input =
      (dto : UpdateAppraisalDto) × IsValid decoders.validator update_fields decoders.update_dto body
        dto
      × (input ≡ update_input dto)

  abbrev pub TakesFilename : String → String → Type 0
  TakesFilename body filename =
      (dto : UploadReportDto) × IsValid decoders.validator report_fields decoders.report_dto body
        dto
      × (filename ≡ dto.filename)

  abbrev pub TakesContent : String → String → Type 0
  TakesContent body content =
      (dto : AddComparableDto) × IsValid decoders.validator comparable_fields
        decoders.comparable_dto body dto
      × IsContent decoders.valid_json dto.content content

-- A decoded body that decides what is taken.
abbrev Decides : {A : Type 0} → Decoded A → (A → Type 0) → Type 0
Decides {A} (rejected text) Takes = (a : A) → Takes a → ⊥
Decides (accepted a) Takes = Takes a

-- Either the handler answers 400 and changes nothing, for a bad id or a body of which it takes nothing;
-- or it calls the service on what it takes, and answers something else.
abbrev pub IsChecked :
    {A : Type 0}
    → Option Uuid
    → (A → Type 0)
    → World
    → (Uuid → A → World)
    → Response Reply × World
    → Type 0
IsChecked {A} parsed Takes w effect out =
    ((out.0.status ≡ 400) × (out.1 ≡ w) × ((id : Uuid) (a : A) → parsed ≡ some id → Takes a → ⊥))
    ⊎ ((id : Uuid) × (a : A) × (parsed ≡ some id)
        × Takes a
        × (out.0.status ≢ 400)
        × (out.1 ≡ effect id a))

-- A body up to what follows its validation, where `Next` is what that takes.
module _ {A B : Type 0} (validator : Validator) (fields : A → List Field) (next : A → Decoded B)
    (Next : A → B → Type 0) (decides : (a : A) → Decides (next a) (Next a)) where
  abbrev refusal : A → Option ValidationError
  refusal a = validator.struct (tag_name validator) (fields a)

  abbrev Taken : Option A → B → Type 0
  Taken parsed b = (a : A) × ((parsed ≡ some a) × (refusal a ≡ none)) × Next a b

  by_next :
      (a : A) (d : Decoded B) → refusal a ≡ none → Decides d (Next a) → Decides d (Taken (some a))
  by_next a (rejected text) fine h =
      λ b (other, (e, v), n). h b (subst (λ x. Next x b) (sym (some-injective _ _ e)) n)
  by_next a (accepted b) fine h = (a, (refl, fine), h)

  by_refusal :
      (a : A) (r : Option ValidationError)
      → refusal a ≡ r
      → Decides
          (passed_on next
            (elim r [ none ↦ accepted a | some e ↦ rejected (first_validation_error e) ]))
          (Taken (some a))
  by_refusal a none e = by_next a (next a) e (decides a)
  by_refusal a (some failure) e = λ b (other, (same, v), n).
      let clash : refusal a ≡ none = rw (sym (some-injective _ _ same)) at v in cc

  body-Decides :
      (parsed : Option A)
      → Decides
          (passed_on next (validated validator fields (decode_body (λ limit body. parsed) "")))
          (Taken parsed)
  body-Decides none = λ b (a, (e, v), n). cc
  body-Decides (some a) = by_refusal a (refusal a) refl

json_checked-Decides :
    (valid : String → Bool) (parsed : Option String)
    → Decides (json_checked valid parsed) (IsContent valid parsed)
json_checked-Decides valid none = λ content (e, v). cc
json_checked-Decides valid (some content) = elim (Bool-cases (valid content)) [
  | inl fine ↦ rw fine (refl, fine)
  | inr broken ↦ rw broken (λ other (e, v). cc)
]

module _ {A B : Type 0} (call : Uuid → A → Action Error B) (text : String)
    (on_ok : B → Response Reply) (success : (b : B) → (on_ok b).status ≢ 400) where
  abbrev called : Uuid → A → World → Response Reply × World
  called id a = serve (call id a) (λ e. write_service_error e text) on_ok

  answered :
      (r : Result Error B) (v : World)
      → let m : Action Error B = λ _. (r, v) in
        let out = serve m (λ e. write_service_error e text) on_ok v in
        (out.0.status ≢ 400) × (out.1 ≡ v)
  unfolding write_service_error
  answered (ok b) v = (success b, refl)
  answered (err not_found) v = (λ e. absurd (ground arith), refl)
  answered (err conflict) v = (λ e. absurd (ground arith), refl)
  answered (err driver) v = (λ e. absurd (ground arith), refl)
  answered (err forbidden) v = (λ e. absurd (ground arith), refl)
  answered (err invalid_status) v = (λ e. absurd (ground arith), refl)
  answered (err invalid_input) v = (λ e. absurd (ground arith), refl)

  checked :
      (Takes : A → Type 0) (w : World) (parsed : Option Uuid) (body : Decoded A)
      → Decides body Takes
      → IsChecked parsed Takes w
          (λ id a. (call id a w).1)
          (with_id parsed "invalid id" (λ id. with_body body (called id)) w)
  checked Takes w none body h = inl (refl, refl, λ id a e t. cc)
  checked Takes w (some id) (rejected why) h = inl (refl, refl, λ id a e t. h a t)
  checked Takes w (some id) (accepted a) h =
      let out = call id a w in
      let (code, same) = answered out.0 out.1 in inr (id, a, refl, h, code, same)

module _ (env : Env) (storage : StubStorage) (decoders : Decoders) (atoi : String → Option ℤ)
    (r : Request) (w : World) where
  abbrev id : Option Uuid
  id = decoders.parse_uuid (r.url_param "id")

  -- `Update`, `UploadReport` and `AddComparable` answer 400 and change nothing exactly when the id is
  -- no UUID, or the body cannot be decoded, fails the validation or holds data that is not valid JSON;
  -- otherwise they call the service on the decoded fields, whose answer is never 400.
  pub body-IsChecked :
      IsChecked id
        (TakesInput decoders r.body)
        w
        (λ i input. (Service.update env i input w).1)
        (update env storage decoders atoi r w)
      × IsChecked id
          (TakesFilename decoders r.body)
          w
          (λ i filename. (Service.upload_report env storage i filename w).1)
          (upload_report env storage decoders atoi r w)
      × IsChecked id
          (TakesContent decoders r.body)
          w
          (λ i content. (Service.add_comparable env i content w).1)
          (add_comparable env storage decoders atoi r w)
  unfolding update upload_report add_comparable
  body-IsChecked = (
    checked (Service.update env) _ _ (λ b. ground arith) (TakesInput decoders r.body) w id
        (update_body decoders r.body)
        (body-Decides decoders.validator update_fields _ _ (λ dto. refl)
          (decoders.update_dto max_body r.body)),
    checked (Service.upload_report env storage) _ _ (λ b. ground arith)
        (TakesFilename decoders r.body) w id (report_body decoders r.body)
        (body-Decides decoders.validator report_fields _ _ (λ dto. refl)
          (decoders.report_dto max_body r.body)),
    checked (Service.add_comparable env) _ _ (λ b. ground arith) (TakesContent decoders r.body) w id
        (comparable_body decoders r.body)
        (body-Decides decoders.validator comparable_fields _ _
          (λ dto. json_checked-Decides decoders.valid_json dto.content)
          (decoders.comparable_dto max_body r.body)),
  )
