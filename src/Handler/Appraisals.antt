-- ===== src/Handler/Appraisals.antt =====
-- internal/handler/appraisal.go: the methods of `appraisalHandler`.
pub mod Completing
pub mod Checking
use review_service.Prelude.{
  ℕ, String, Bool, true, false, Option, none, some, List, [], ◌∷◌, ℤ, pos, if◌then◌else◌, str_eq,
}
use review_service.Domain.Appraisal.{Uuid}
use review_service.Domain.Errors.{Error, not_found}
use review_service.World.{Env, World}
use review_service.Storage.{StubStorage}
use review_service.Service
use review_service.Service.{UpdateInput}
use review_service.Handler.Bodies.{Decoders, update_body, report_body, comparable_body}
use review_service.Http.{Response, respond_error, respond_json}
use review_service.Handler.{
  Request, Reply, bad_request, write_service_error, serve, with_body, with_id, no_content,
}
use review_service.Handler.Paging.{parse_int_param, clamp_page, clamp_limit, page_offset}

abbrev pub failed_to_list : Error → Response Reply
failed_to_list e = respond_error 500 "failed to list appraisals"

module _ (env : Env) (storage : StubStorage) (decoders : Decoders) (atoi : String → Option ℤ) where
  -- An unknown request is an empty list.
  abbrev none_yet : Error → Response Reply
  none_yet not_found = respond_json 200 (Reply.listing [])
  none_yet e = failed_to_list e

  unfoldable pub list_request : String → World → Response Reply × World
  list_request raw =
      with_id (decoders.parse_uuid raw) "invalid request_id query param" (λ request_id.
        serve (Service.get_by_request_id env request_id) none_yet
          (λ a. respond_json 200 (Reply.listing (a ∷ []))))

  unfoldable pub list_appraiser : String → World → Response Reply × World
  list_appraiser raw =
      with_id (decoders.parse_uuid raw) "invalid appraiser_id query param" (λ appraiser_id.
        serve (Service.list_by_appraiser_id env appraiser_id) failed_to_list
          (λ found. respond_json 200 (Reply.listing found)))

  unfoldable pub list_page : ℕ → ℕ → World → Response Reply × World
  list_page page limit =
      serve (Service.list_all env (pos limit) (page_offset page limit)) failed_to_list
        (λ found. respond_json 200 (Reply.page found page limit))

  unfoldable pub list : Request → World → Response Reply × World
  list r =
      if str_eq (r.query "request_id") ""
      then if str_eq (r.query "appraiser_id") ""
        then list_page (clamp_page (parse_int_param atoi (r.query "page") (pos 1)))
            (clamp_limit (parse_int_param atoi (r.query "limit") (pos 20)))
        else list_appraiser (r.query "appraiser_id")
      else list_request (r.query "request_id")

  -- `parseID`.
  abbrev id_of : Request → Option Uuid
  id_of r = decoders.parse_uuid (r.url_param "id")

  unfoldable pub get_by_id : Request → World → Response Reply × World
  get_by_id r = with_id (id_of r) "invalid id" (λ id.
      serve (Service.get_by_id env id) (λ e. write_service_error e "failed to get appraisal")
        (λ a. respond_json 200 (Reply.appraisal a)))

  unfoldable pub update : Request → World → Response Reply × World
  update r = with_id (id_of r) "invalid id" (λ id. with_body (update_body decoders r.body) (λ input.
      serve (Service.update env id input) (λ e. write_service_error e "failed to update appraisal")
        (λ a. respond_json 200 (Reply.appraisal a))))

  unfoldable pub complete : Request → World → Response Reply × World
  complete r = with_id (id_of r) "invalid id" (λ id.
      serve (Service.complete env id) (λ e. write_service_error e "failed to complete appraisal")
        (λ a. respond_json 200 (Reply.appraisal a)))

  unfoldable pub upload_report : Request → World → Response Reply × World
  upload_report r = with_id (id_of r) "invalid id" (λ id.
      with_body (report_body decoders r.body) (λ filename.
        serve (Service.upload_report env storage id filename)
          (λ e. write_service_error e "failed to register report")
          (λ result. respond_json 201 (Reply.report result))))

  unfoldable pub add_comparable : Request → World → Response Reply × World
  add_comparable r = with_id (id_of r) "invalid id" (λ id.
      with_body (comparable_body decoders r.body) (λ content.
        serve (Service.add_comparable env id content)
          (λ e. write_service_error e "failed to add comparable")
          (λ c. respond_json 201 (Reply.comparable c))))

  unfoldable pub delete_comparable : Request → World → Response Reply × World
  delete_comparable r = with_id (id_of r) "invalid id" (λ id.
      with_id (decoders.parse_uuid (r.url_param "comparableID")) "invalid comparable id"
        (λ comparable_id.
          serve (Service.delete_comparable env id comparable_id)
            (λ e. write_service_error e "failed to delete comparable") (λ x. no_content)))
