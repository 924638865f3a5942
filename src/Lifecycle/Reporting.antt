-- ===== src/Lifecycle/Reporting.antt =====
-- From `Complete` to Kafka: the completion, its event in the outbox, and the relay.
use mathlib.Core.Path.{subst}
use mathlib.Core.List.{map-append}
use review_service.Prelude.{
  some-injective, sym, ℕ, ◌*◌, ◌<◌, ◌≤◌, ◌≡◌, ◌∙◌, refl, ap, String, true, false, some, List, [],
  ◌∷◌, ◌++◌, ◌==◌, find, exists, count-append, length, length-append, arith, if◌then◌else◌,
  Bool-cases, inl, inr,
}
use review_service.Domain.Appraisal.{Uuid, Time, in_progress, is_in_progress}
use review_service.Domain.Events.{EventEnvelope, topic_review_events}
use review_service.World.{Env, World, IsCalm}
use review_service.World.Tables.{Shared, AppraisalRow, OutboxRow}
use review_service.Repository.Statements.{has_id, is_open, set_completed}
use review_service.Service
use review_service.Service.Serving.{whole}
use review_service.Service.Completing.{EventEncodes, complete-IsDone}
use review_service.Relay
use review_service.Relay.{batch_size, to_message}
use review_service.Relay.Marking.{unpublished}
use review_service.Relay.Delivery.{messages}
use review_service.Relay.Draining.{run-IsDrained}
use review_service.Invariant.Rows.{find-id, find-map_where, count-is_closed_of}
use review_service.Invariant.History.{Evolves-refl}
use review_service.Invariant.WellFormed.{is_report_of, IsWellFormed, IsCivil}
use review_service.Invariant.Completion.{IsDocument, outbox_row, with_completed, with_event}
use review_service.Invariant.Methods.{complete-Reached}

unpublished-append :
    (rows : List OutboxRow) (new : OutboxRow)
    → new.published ≡ false
    → unpublished (rows ++ new ∷ []) ≡ unpublished rows ++ new ∷ []
unpublished-append [] new fresh = ground arith
unpublished-append (x ∷ xs) new fresh = ground (arith, unpublished-append xs new)

-- In well-formed tables after the completion of an open appraisal, its event is that of its request.
event-request :
    (id : Uuid) (at : Time) (event : EventEnvelope) (document : String) (row : AppraisalRow)
    (s : Shared)
    → IsWellFormed s
    → IsWellFormed (with_event event document (with_completed id at s))
    → find (has_id id) s.appraisals ≡ some row
    → row.status ≡ in_progress
    → event.request_id ≡ row.request_id
event-request id at event document row s v v' found pending =
    let own : row.id ≡ id = find-id id s.appraisals row found in
    let opened : is_open id row ≡ true = ground (arith, own, pending) in
    let found' =
      find-map_where (is_open id) (set_completed at) id s.appraisals row (λ x. refl) found
      ∙ ap (λ b. some (if b then set_completed at row else row)) opened in
    let before =
      v.agrees row.request_id
      ∙ count-is_closed_of id s.appraisals row v.requests found
      ∙ ap (λ x. if is_in_progress x then 0 else 1) pending in
    let after =
      v'.agrees row.request_id
      ∙ count-is_closed_of id _ (set_completed at row) v'.requests found' in
    let split =
      count-append (is_report_of row.request_id) s.outbox
        (outbox_row s.next_outbox_id event document ∷ []) in
    elim (Bool-cases (event.request_id == row.request_id)) [
      | inl same ↦ ground arith
      | inr other ↦ absurd (ground (arith, before, after, split, other))
    ]

-- While every call is served and no other process is at work, the events can be encoded and the UUIDs to come are not yet ids of
-- events: `Complete` of an appraisal in progress, and then enough ticks of the relay for what is unpublished, a hundred rows each, leave
-- nothing unpublished, and the log has first the events that waited and then, as the last message, one on the topic
-- of the reviews under the id of the appraisal's request: the stored JSON of a report.ready event with
-- that request, the id of the appraisal and the key of its report.
pub completion_published :
    (env : Env) (calm : IsCalm env) (id : Uuid) (row : AppraisalRow) (ticks : ℕ) (w : World)
    → EventEncodes env (whole id row w.shared)
    → IsWellFormed w.shared
    → find (has_id id) w.shared.appraisals ≡ some row
    → row.status ≡ in_progress
    → ((k : ℕ) → w.step ≤ k → exists (λ r. r.event_id == env.ids k) w.shared.outbox ≡ false)
    → length (unpublished w.shared.outbox) < ticks * batch_size
    → let t = (Relay.run env ticks (Service.complete env id w).1).shared in
      (unpublished t.outbox ≡ [])
      × ((event : EventEnvelope) × (payload : String) × (event.event_type ≡ "report.ready")
          × (event.request_id ≡ row.request_id)
          × (event.payload.appraisal_id ≡ row.id)
          × (event.payload.report_s3_key ≡ row.report_s3_key)
          × IsDocument env event payload
          × (t.log
              ≡ w.shared.log
                ++ (messages env (unpublished w.shared.outbox)
                    ++ record {
                      topic = topic_review_events;
                      key = env.uuid_text row.request_id;
                      value = payload;
                    }
                      ∷ [])))
completion_published env calm id row ticks w encodes v found pending unused few =
    let civil : IsCivil env = record {
      keeps = λ k s h. rw (calm.alone k s) h;
      evolves = λ k s h. rw (calm.alone k s) (Evolves-refl s.appraisals);
    } in
    let (a, ok_a, done) = complete-IsDone env calm id row w encodes v found pending unused in
    let own : done.row ≡ row = some-injective _ _ (sym done.found ∙ found) in
    let (document, open_one, e, kept) = done.committed in
    let left = (Service.complete env id w).1 in
    let v' = (complete-Reached env civil w v id).formed in
    let new = outbox_row w.shared.next_outbox_id done.event document in
    let same =
      event-request id done.at done.event document row w.shared v (subst IsWellFormed e v') found
        pending in
    let waiting = ap (λ s. unpublished s.outbox) e ∙ unpublished-append w.shared.outbox new refl in
    let (nothing, log) = run-IsDrained env calm.working calm.alone ticks left v' (
      omega
        (arith, few, ap length waiting, length-append (unpublished w.shared.outbox) (new ∷ []))) in
    (
      nothing,
      (
        done.event,
        document,
        done.event_type,
        done.request_id ∙ ap (λ r. r.request_id) own,
        ap (λ p. p.appraisal_id) done.payload ∙ ap (λ r. r.id) own,
        ap (λ p. p.report_s3_key) done.payload ∙ ap (λ r. r.report_s3_key) own,
        kept,
        log
            ∙ ap (λ s. s.log ++ messages env (unpublished left.shared.outbox)) e
            ∙ ap (λ rows. w.shared.log ++ messages env rows) waiting
            ∙ ap (λ l. w.shared.log ++ l)
                (map-append (to_message env) (unpublished w.shared.outbox) (new ∷ [])
                  ∙ ap
                      (λ request_id.
                        messages env (unpublished w.shared.outbox)
                        ++ record {
                          topic = topic_review_events;
                          key = env.uuid_text request_id;
                          value = document;
                        }
                          ∷ [])
                      same),
      ),
    )
