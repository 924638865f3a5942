-- ===== src/Handler.antt =====
-- internal/handler/appraisal.go: the request, the answers, and what the handlers share. A handler is a
-- function of the request's parts that it reads.
pub mod Bodies
pub mod Paging
pub mod Appraisals
pub mod Apartments
use review_service.Prelude.{ℕ, String, Option, none, some, List}
use review_service.Domain.Appraisal.{Uuid, Comparable, Appraisal}
use review_service.Domain.Errors.{
  Error, not_found, conflict, invalid_status, forbidden, invalid_input, driver, ok, err,
}
use review_service.World.{World, Action}
use review_service.Service.{ReportUploadResult}
use review_service.Handler.Bodies.{Decoded, rejected, accepted}
use review_service.Http.{Response, empty, respond_error, respond_json}

-- `chi.URLParam`, `r.URL.Query().Get` and the body.
pub record Request : Type 0 where
  pub url_param : String → String
  pub query : String → String
  pub body : String

-- The values that the handlers encode. `listing` is a bare array, `page` the envelope `listAllResponse`.
pub data Reply : Type 0 where
  appraisal : Appraisal → Reply
  listing : List Appraisal → Reply
  page : List Appraisal → ℕ → ℕ → Reply
  report : ReportUploadResult → Reply
  comparable : Comparable → Reply

-- The answers of a handler that encodes values of type `D`.
module _ {D : Type 0} where
  abbrev pub bad_request : String → World → Response D × World
  bad_request text w = (respond_error 400 text, w)

  -- `writeServiceError`.
  unfoldable pub write_service_error : Error → String → Response D
  write_service_error not_found fallback = respond_error 404 "not found"
  write_service_error conflict fallback =
      respond_error 409 "appraisal was modified concurrently, please retry"
  write_service_error invalid_status fallback =
      respond_error 422 "appraisal is completed and frozen"
  write_service_error _ fallback = respond_error 500 fallback

  -- A call of the service, and an answer for its error and its result.
  abbrev pub serve :
      {A : Type 0}
      → Action Error A
      → (Error → Response D)
      → (A → Response D)
      → World
      → Response D × World
  serve m on_error on_ok w =
      let (r, w') = m w in elim r [ ok a ↦ (on_ok a, w') | err e ↦ (on_error e, w') ]

  -- `if !ok { return }` after a body has been decoded.
  abbrev pub with_body :
      {A : Type 0} → Decoded A → (A → World → Response D × World) → World → Response D × World
  with_body (rejected text) next w = bad_request text w
  with_body (accepted a) next w = next a w

  -- `parseID`, and the same for the other id of a path.
  abbrev pub with_id :
      Option Uuid → String → (Uuid → World → Response D × World) → World → Response D × World
  with_id none text next w = bad_request text w
  with_id (some id) text next w = next id w

  abbrev pub no_content : Response D
  no_content = record { status = 204; body = empty }
