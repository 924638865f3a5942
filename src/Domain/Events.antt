-- ===== src/Domain/Events.antt =====
-- internal/domain/events.go: the event envelope and the `report.ready` payload.
use review_service.Prelude.{ℕ, String, Option, none, some}
use review_service.Domain.Appraisal.{Uuid, Time, Appraisal}

abbrev pub topic_review_events : String
topic_review_events = "review.events"

abbrev pub event_type_report_ready : String
event_type_report_ready = "report.ready"

abbrev pub event_version : ℕ
event_version = 1

pub record ReportReadyData : Type 0 where
  pub appraisal_id : Uuid
  pub appraiser_id : Option Uuid
  pub report_s3_key : Option String
  pub completed_at : Time

-- `Data any` only ever holds a `ReportReadyData`.
pub record EventEnvelope : Type 0 where
  pub event_id : Uuid
  pub event_type : String
  pub version : ℕ
  pub occurred_at : Time
  pub request_id : Uuid
  pub payload : ReportReadyData

-- `*a.CompletedAt`, or `a.UpdatedAt` where it is nil.
abbrev completed_or : Option Time → Time → Time
completed_or none updated = updated
completed_or (some t) updated = t

-- `uuid.New()` and `time.Now()` are arguments.
unfoldable pub new_report_ready_event : Uuid → Time → Appraisal → EventEnvelope
new_report_ready_event event_id now a = record {
  event_id = event_id;
  event_type = event_type_report_ready;
  version = event_version;
  occurred_at = now;
  request_id = a.request_id;
  payload = record {
    appraisal_id = a.id;
    appraiser_id = a.appraiser_id;
    report_s3_key = a.report_s3_key;
    completed_at = completed_or a.completed_at a.updated_at;
  };
}
