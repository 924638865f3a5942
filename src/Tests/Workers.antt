-- ===== src/Tests/Workers.antt =====
-- The consumer and the relay.
use review_service.Prelude.{
  All, ◌==◌, ℕ, ◌+◌, String, ◌≡◌, refl, true, false, none, some, List, [], ◌∷◌, ◌++◌, arith, str_eq,
  if◌then◌else◌, leb,
}
use review_service.World.Tables.{OutboxRow, AppraisalRow}
use review_service.World.{World, call}
use review_service.Consumer
use review_service.Consumer.{InboundEnvelope, Codec, Cancelled, relevant}
use review_service.Consumer.Stopping.{IsStopped, run-IsStopped}
use review_service.Consumer.Trust.{IsTrusted, IsHandled}
use review_service.Consumer.Progress.{run-IsConsumed}
use review_service.Consumer.Redelivery.{IsCommitted, run-IsCommitted}
use review_service.Domain.Errors.{ok}
use review_service.Service
use review_service.Repository
use review_service.Repository.Statements.{insert_appraisal, insert_row, bind_columns}
use review_service.Invariant.Idempotence.{IsRepeat, create_from_request-IsRepeat}
use review_service.Relay
use review_service.Relay.{select_unpublished, publish_batch}
use review_service.Relay.Steps.{IsProgress}
use review_service.Relay.Progress.{publish_batch-IsProgress}
use review_service.Relay.Marking.{unpublished}
use review_service.Relay.Delivery
use review_service.Relay.Delivery.{IsDelivered, run_rows, IsFaultless, run-IsDelivered}
use review_service.Relay.Draining.{run-IsDrained}
use review_service.Invariant.WellFormed.{IsWellFormed}
use review_service.Domain.Appraisal.{completed}
use review_service.Tests.Setup.{
  env, row, inbound, unary-injective, faulty, tables, start, tables-IsWellFormed, faulty-IsCivil,
}

-- The text "event" is an event that asks for the appraisal of request 6; any other is no JSON.
abbrev codec : Codec
codec = record {
  decode_envelope = λ text. if str_eq text "event" then some inbound else none;
  decode_status = λ text. some "appraisal";
}

faulty-IsTrusted : IsTrusted faulty codec (λ event_id. 6)
faulty-IsTrusted = record {
  civil = faulty-IsCivil;
  marks = λ k s v h. h;
  commits = λ k s v h. h;
  distinct = unary-injective;
}

only_request_6 :
    (text : String) (e : InboundEnvelope) → relevant faulty codec text ≡ some e → e.request_id ≡ 6
unfolding relevant
only_request_6 text e h = ground arith

abbrev messages : List String
messages = "event" ∷ "noise" ∷ "event" ∷ []

-- Cancelled from the twentieth step on.
abbrev late : Cancelled
late step = leb 20 step

run-IsCommitted_example :
    let out = Consumer.run faulty codec late messages start in
    IsCommitted faulty codec (λ event_id. 6) tables messages out.committed out.world.shared
run-IsCommitted_example =
    run-IsCommitted faulty codec (λ event_id. 6) late faulty-IsTrusted messages start
      (only_request_6 "event", (only_request_6 "noise", (only_request_6 "event", tt)))
      tables-IsWellFormed (λ event_id marked. cc) tt

run-IsStopped_example : IsStopped late 3 (Consumer.run faulty codec late messages start)
run-IsStopped_example = run-IsStopped faulty codec late messages start

env_request_6 :
    (text : String) (e : InboundEnvelope) → relevant env codec text ≡ some e → e.request_id ≡ 6
unfolding relevant
env_request_6 text e h = ground arith

no_thousand : (k : ℕ) → (7 == (1000 + k)) ≡ false
no_thousand k = ground arith

run-IsConsumed_example :
    let out = Consumer.run env codec late messages start in
    (out.world.shared.commits ≡ messages)
    × (out.committed ≡ 3)
    × All (λ value. IsHandled env codec value out.world.shared) messages
run-IsConsumed_example =
    run-IsConsumed env (record { working = λ k. refl; alone = λ k s. refl }) codec late
      (λ event_id. 6) messages start
      (record {
        unused = λ k past. rw (no_thousand k) refl;
        distinct = λ j k same. omega (arith, same);
      })
      unary-injective (env_request_6 "event", (env_request_6 "noise", (env_request_6 "event", tt)))
      tables-IsWellFormed (λ event_id marked. cc) tt

abbrev unsent : ℕ → OutboxRow
unsent id = record {
  id = id;
  event_id = 20 + id;
  topic = "review.events";
  event_type = "report.ready";
  aggregate_id = 5;
  payload = "{}";
  published = false;
}

abbrev full : World
full = record { shared = record tables { outbox = unsent 1 ∷ unsent 2 ∷ [] }; step = 0 }

-- The first row is published and its mark fails, so it is sent again by the next batch.
publish_batch-IsProgress_example :
    let out = publish_batch faulty full in
    IsProgress faulty (select_unpublished full.shared) full.shared out.0 out.1.shared
publish_batch-IsProgress_example = publish_batch-IsProgress faulty (λ k s. refl) full

-- Two completed appraisals whose events wait.
abbrev closed_row : ℕ → AppraisalRow
closed_row request_id = record row {
  id = 10 + request_id;
  request_id = request_id;
  status = completed;
  completed_at = some 4;
}

abbrev waiting : World
waiting = record {
  shared = record tables {
    appraisals = closed_row 5 ∷ closed_row 6 ∷ [];
    outbox = unsent 1 ∷ record (unsent 2) { aggregate_id = 6 } ∷ [];
    next_outbox_id = 3;
  };
  step = 0;
}

waiting-IsWellFormed : IsWellFormed waiting.shared
waiting-IsWellFormed = record {
  ids = (((λ e. ground arith), tt), (tt, tt));
  requests = (((λ e. ground arith), tt), (tt, tt));
  dated = (tt, (tt, tt));
  agrees = λ request_id. ground arith;
  ascending = (omega arith, (omega arith, tt), (omega arith, tt, tt));
}

run-IsDelivered_example :
    IsDelivered faulty
      (run_rows faulty 2 waiting)
      (IsFaultless faulty 2 waiting)
      waiting.shared
      (Relay.run faulty 2 waiting).shared
run-IsDelivered_example = run-IsDelivered faulty (λ k s. refl) 2 waiting waiting-IsWellFormed

run-IsDrained_example :
    let t = (Relay.run env 1 waiting).shared in
    (unpublished t.outbox ≡ [])
    × (t.log ≡ waiting.shared.log ++ Delivery.messages env (unpublished waiting.shared.outbox))
run-IsDrained_example =
    run-IsDrained env (λ k. refl) (λ k s. refl) 1 waiting waiting-IsWellFormed (omega arith)

created_once : (Service.create_from_request env 6 start).0 ≡ ok true
unfolding Service.create_from_request Repository.create call insert_appraisal insert_row
    bind_columns
created_once = refl

create_from_request-IsRepeat_example :
    let v = (Service.create_from_request env 6 start).1 in
    let out = Service.create_from_request env 6 v in IsRepeat env v.shared out.0 out.1.shared
create_from_request-IsRepeat_example =
    create_from_request-IsRepeat env (λ k s. refl) 6 true start created_once
