-- ===== src/Service.antt =====
-- internal/service/appraisal.go: the methods of `appraisalService`, and internal/service/service.go.
-- Log lines are left out. Where Go passes on an error that it did not recognise the model says
-- `driver`; the handlers answer 500 to each of those.
pub mod Formulas
pub mod Apply
pub mod Serving
pub mod Patching
pub mod Completing
pub mod Replacing
use review_service.Prelude.{ℤ, String, Bool, Option, none, some, List}
use review_service.Domain.Appraisal.{
  Uuid, Time, Status, in_progress, completed, Comparable, Appraisal,
}
use review_service.Domain.Events.{new_report_ready_event}
use review_service.Domain.Errors.{RepoError, not_found, conflict, driver, Error}
use review_service.World.{Env, Action, pure, fail, ◌>>=◌, ◌>>◌, map_err, now, new_uuid}
use review_service.Storage.{StubStorage, key_for, presign_upload}
use review_service.Repository

-- Nil pointers mean "leave as is".
pub record UpdateInput : Type 0 where
  pub appraiser_id : Option Uuid
  pub notes : Option String
  pub market_value : Option String

pub record ReportUploadResult : Type 0 where
  pub s3_key : String
  pub upload_url : String

-- `if errors.Is(err, repository.ErrNotFound) { return domain.ErrNotFound }; return err`.
abbrev pub read_error : RepoError → Error
read_error not_found = Error.not_found
read_error _ = Error.driver

-- An error passed on unread: a value of the repository is none of the domain's.
abbrev pub raw_error : RepoError → Error
raw_error _ = Error.driver

-- `read_error` with `ErrConflict`.
abbrev pub write_error : RepoError → Error
write_error not_found = Error.not_found
write_error conflict = Error.conflict
write_error driver = Error.driver

-- In `AddComparable` a conflict means that the appraisal was completed in between.
abbrev pub comparable_error : RepoError → Error
comparable_error not_found = Error.not_found
comparable_error conflict = Error.invalid_status
comparable_error driver = Error.driver

-- `if a.Status != domain.StatusInProgress { return domain.ErrInvalidStatus }`.
abbrev pub require_in_progress : Status → Action Error (Unit {0})
require_in_progress in_progress = pure tt
require_in_progress completed = fail Error.invalid_status

-- `if in.X != nil { a.X = in.X }`.
abbrev pub patch : {A : Type 0} → Option A → Option A → Option A
patch none old = old
patch (some new) old = some new

-- The new appraisal of `CreateFromRequest`.
abbrev pub new_appraisal : Uuid → Uuid → Time → Appraisal
new_appraisal id request_id at = record {
  id = id;
  request_id = request_id;
  appraiser_id = none;
  status = in_progress;
  notes = none;
  market_value = none;
  report_s3_key = none;
  comparables = List.[];
  calculation_data = none;
  completed_at = none;
  created_at = at;
  updated_at = at;
}

-- The fields that `Update` writes.
abbrev pub apply_input : UpdateInput → Time → Appraisal → Appraisal
apply_input input at a = record a {
  appraiser_id = patch input.appraiser_id a.appraiser_id;
  notes = patch input.notes a.notes;
  market_value = patch input.market_value a.market_value;
  updated_at = at;
}

-- `a.Status = …; a.CompletedAt = &completedAt; a.UpdatedAt = completedAt`.
abbrev pub mark_completed : Time → Appraisal → Appraisal
mark_completed at a = record a { status = completed; completed_at = some at; updated_at = at }

abbrev pub comparable : Uuid → Uuid → String → Time → Comparable
comparable id appraisal_id content at = record {
  id = id;
  appraisal_id = appraisal_id;
  content = content;
  created_at = at;
}

module _ (env : Env) where
  unfoldable pub create_from_request : Uuid → Action Error Bool
  create_from_request request_id = do
    at ← now env
    id ← new_uuid env
    map_err raw_error (Repository.create env (new_appraisal id request_id at))

  -- The read with which the methods begin.
  abbrev pub read : Uuid → Action Error Appraisal
  read id = map_err read_error (Repository.get_by_id env id)

  unfoldable pub get_by_id : Uuid → Action Error Appraisal
  get_by_id id = read id

  unfoldable pub get_by_request_id : Uuid → Action Error Appraisal
  get_by_request_id request_id = map_err read_error (Repository.get_by_request_id env request_id)

  -- The optimistic write of an appraisal that was read with `prev` as its `UpdatedAt`.
  abbrev pub store : Time → Appraisal → Action Error (Unit {0})
  store prev a = map_err write_error (Repository.update env a prev)

  -- What follows the status check in `Update`, `Complete`, `UploadReport`, `AddComparable`.
  unfoldable pub patch_appraisal : UpdateInput → Appraisal → Action Error Appraisal
  patch_appraisal input a = do
    at ← now env
    store a.updated_at (apply_input input at a)
    pure (apply_input input at a)

  unfoldable pub complete_appraisal : Uuid → Appraisal → Action Error Appraisal
  complete_appraisal id a = do
    completed_at ← now env
    event_id ← new_uuid env
    occurred_at ← now env
    map_err write_error (
        Repository.complete env id completed_at
          (new_report_ready_event event_id occurred_at (mark_completed completed_at a)))
    pure (mark_completed completed_at a)

  unfoldable pub register_report :
      StubStorage → Uuid → String → Appraisal → Action Error ReportUploadResult
  register_report storage id filename a = do
    key ← key_for env id filename
    at ← now env
    store a.updated_at (record a { report_s3_key = some key; updated_at = at })
    pure (record { s3_key = key; upload_url = presign_upload storage key })

  unfoldable pub new_comparable : Uuid → String → Action Error Comparable
  new_comparable id content = do
    comparable_id ← new_uuid env
    at ← now env
    map_err comparable_error
        (Repository.add_comparable env (comparable comparable_id id content at))
    pure (comparable comparable_id id content at)

  unfoldable pub update : Uuid → UpdateInput → Action Error Appraisal
  update id input = do a ← read id; require_in_progress a.status; patch_appraisal input a

  unfoldable pub complete : Uuid → Action Error Appraisal
  complete id = do a ← read id; require_in_progress a.status; complete_appraisal id a

  unfoldable pub upload_report : StubStorage → Uuid → String → Action Error ReportUploadResult
  upload_report storage id filename = do
    a ← read id
    require_in_progress a.status
    register_report storage id filename a

  unfoldable pub add_comparable : Uuid → String → Action Error Comparable
  add_comparable id content = do
    a ← read id
    require_in_progress a.status
    new_comparable id content

  unfoldable pub delete_comparable : Uuid → Uuid → Action Error (Unit {0})
  delete_comparable appraisal_id comparable_id = do
    a ← read appraisal_id
    require_in_progress a.status
    map_err read_error (Repository.delete_comparable env appraisal_id comparable_id)

  unfoldable pub list_by_appraiser_id : Uuid → Action Error (List Appraisal)
  list_by_appraiser_id appraiser_id =
      map_err raw_error (Repository.list_by_appraiser_id env appraiser_id)

  unfoldable pub list_all : ℤ → ℤ → Action Error (List Appraisal)
  list_all limit offset = map_err raw_error (Repository.list_all env limit offset)
