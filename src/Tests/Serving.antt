-- ===== src/Tests/Serving.antt =====
-- Operations while every call is served.
use review_service.Prelude.{ℕ, String, ◌≡◌, refl, none, some, str_eq, if◌then◌else◌, [], ◌∷◌, arith}
use review_service.Domain.Apartment.{CalculationResult, default_config}
use review_service.Calculation.{calculate_with_config}
use review_service.Tests.Numbers.{fixed, calculation}
use review_service.Domain.Appraisal.{Appraisal}
use review_service.Domain.Errors.{ok}
use review_service.World.{Env, World, IsCalm}
use review_service.Service
use review_service.Relay
use review_service.Relay.Marking.{unpublished}
use review_service.Domain.Events.{EventEnvelope, topic_review_events}
use review_service.Lifecycle.Reporting.{completion_published}
use review_service.Service.{UpdateInput}
use review_service.Invariant.Completion.{IsDocument}
use review_service.Service.Completing.{Encodes, complete-IsDone}
use review_service.Handler.Appraisals.Completing.{IsCompletion}
use review_service.Tests.Setup.{env, row, tables, start, tables-IsWellFormed}

env-IsCalm : IsCalm env
env-IsCalm = record { working = λ k. refl; alone = λ k s. refl }

env-Encodes : (event : EventEnvelope) → Encodes env event
env-Encodes event = record { payload = "{}"; document = "{}"; marshalled = refl; stored = refl }

complete-IsDone_example :
    let out = Service.complete env 7 start in
    (a : Appraisal) × (out.0 ≡ ok a) × IsCompletion env 7 a tables out.1.shared
complete-IsDone_example =
    complete-IsDone env env-IsCalm 7 row start (λ i j k. env-Encodes _) tables-IsWellFormed refl
      refl (λ k past. refl)

-- A comparable of the appraisal, which is replaced, and one of another.
abbrev compared : World
compared = record {
  shared = record tables {
    comparables =
        record { id = 8; appraisal_id = 7; content = "old"; created_at = 50 }
        ∷ record { id = 9; appraisal_id = 3; content = "other"; created_at = 51 }
        ∷ [];
  };
  step = 0;
}

abbrev report : CalculationResult ℕ
report = calculate_with_config fixed calculation (default_config fixed 0) 1

-- Postgres rounds the value to two places.
abbrev rounding : Env
rounding = record env { numeric = λ text. if str_eq text "10.005" then some "10.01" else some text }

abbrev unrounded : UpdateInput
unrounded = record { appraiser_id = none; notes = some "checked"; market_value = some "10.005" }

completion_published_example :
    let t = (Relay.run env 1 (Service.complete env 7 start).1).shared in
    (unpublished t.outbox ≡ [])
    × ((event : EventEnvelope) × (payload : String) × (event.event_type ≡ "report.ready")
        × (event.request_id ≡ 5)
        × (event.payload.appraisal_id ≡ 7)
        × (event.payload.report_s3_key ≡ none)
        × IsDocument env event payload
        × (t.log
            ≡ record { topic = topic_review_events; key = env.uuid_text 5; value = payload } ∷ []))
completion_published_example =
    completion_published env env-IsCalm 7 row 1 start (λ i j k. env-Encodes _) tables-IsWellFormed
      refl refl (λ k past. refl) (omega arith)
