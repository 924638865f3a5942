-- ===== src/Service/Completing.antt =====
-- `Complete` of internal/service/appraisal.go while every call is served.
use mathlib.Core.Path.{subst}
use review_service.Prelude.{
  ℕ, sym, suc, ◌≤◌, ◌≡◌, ◌∙◌, refl, ap, false, String, some, find, exists, count, arith, ◌==◌,
  if◌then◌else◌,
}
use review_service.Domain.Appraisal.{
  Uuid, Time, Status, in_progress, completed, Appraisal, is_in_progress,
}
use review_service.Domain.Events.{EventEnvelope, topic_review_events, new_report_ready_event}
use review_service.Domain.Errors.{RepoError, Result, ok}
use review_service.World.{
  Env, World, map_err, pure, ◌>>◌, IsCalm, Yields, pure-Yields, before-Yields, map_err-Yields,
  bind-Yields, now-Yields, new_uuid-Yields, in_tx, end_tx, tx_call, tx_pure, tx_call-eq, tx_bind-eq,
}
use review_service.World.Tables.{Shared, AppraisalRow}
use review_service.Repository
use review_service.Repository.{complete_body, complete_rest, insert_outbox}
use review_service.Repository.Statements.{has_id, is_open, complete_row, insert_outbox_row}
use review_service.Service
use review_service.Service.Serving.{whole, read-whole-Yields}
use review_service.Service.{require_in_progress, mark_completed}
use review_service.Invariant.Rows.{count-is_open}
use review_service.Invariant.WellFormed.{IsWellFormed}
use review_service.Handler.Appraisals.Completing.{IsSettled, IsCompletion, complete-IsSettled}

-- `json.Marshal` of the event succeeds, and Postgres takes what it gives.
pub record Encodes (env : Env) (event : EventEnvelope) : Type 0 where
  pub payload : String
  pub document : String
  pub marshalled : env.marshal_event event ≡ some payload
  pub stored : env.jsonb payload ≡ some document

-- The event of an appraisal as completed can be encoded, with the UUIDs and times of the environment.
abbrev pub EventEncodes : Env → Appraisal → Type 0
EventEncodes env a =
    (i j k : ℕ)
    → Encodes env
        (new_report_ready_event (env.ids i) (env.ticks k) (mark_completed (env.ticks j) a))

module _ (env : Env) (calm : IsCalm env) (id : Uuid) where
  inserted :
      (event : EventEnvelope) (payload document : String) (s : Shared)
      → env.jsonb payload ≡ some document
      → exists (λ r. r.event_id == event.event_id) s.outbox ≡ false
      → (insert_outbox_row env event.event_id topic_review_events event.event_type event.request_id
          payload s).0
        ≡ ok 1
  unfolding insert_outbox_row
  inserted event payload document s stored unused = rw (stored, unused, insert_outbox_row) refl

  insert_outbox-ok :
      (event : EventEnvelope) (s : Shared) (k : ℕ)
      → Encodes env event
      → exists (λ r. r.event_id == event.event_id) s.outbox ≡ false
      → (insert_outbox env event s k).0 ≡ ok tt
  unfolding insert_outbox
  insert_outbox-ok event s k encodes unused =
      let row =
        insert_outbox_row env event.event_id topic_review_events event.event_type event.request_id
          encodes.payload in
      rw (encodes.marshalled, insert_outbox)
        (ap (λ out. out.0)
          (tx_bind-eq (λ _. tx_pure tt) (tx_call env RepoError.driver row s k) 1 s (row s).1 (suc k)
            (tx_call-eq env calm RepoError.driver row s k
              ∙ ap (λ r. (r, (row s).1, suc k))
                  (inserted event encodes.payload encodes.document s encodes.stored unused))))

  complete_body-ok :
      (at : Time) (event : EventEnvelope) (s : Shared) (k : ℕ)
      → Encodes env event
      → count (is_open id) s.appraisals ≡ 1
      → exists (λ r. r.event_id == event.event_id) s.outbox ≡ false
      → (complete_body env id at event s k).0 ≡ ok tt
  unfolding complete_body complete_rest complete_row
  complete_body-ok at event s k encodes opened unused =
      let row = complete_row id at in
      ap (λ out. out.0)
        (tx_bind-eq (complete_rest env id event) (tx_call env RepoError.driver row s k) 1 s
          (row s).1 (suc k)
          (tx_call-eq env calm RepoError.driver row s k
            ∙ ap (λ n. (ok n, (row s).1, suc k)) opened))
      ∙ insert_outbox-ok event (row s).1 (suc k) encodes unused

  end_tx-ok :
      (r : Result RepoError (Unit {0})) (s t : Shared) (k : ℕ)
      → r ≡ ok tt
      → (end_tx env RepoError.driver r s t k).0 ≡ ok tt
  end_tx-ok r s t k e = rw (e, calm.working k) refl

  complete-ok :
      (at : Time) (event : EventEnvelope) (w : World)
      → Encodes env event
      → count (is_open id) w.shared.appraisals ≡ 1
      → exists (λ r. r.event_id == event.event_id) w.shared.outbox ≡ false
      → (Repository.complete env id at event w).0 ≡ ok tt
  unfolding Repository.complete in_tx
  complete-ok at event w encodes opened unused =
      let body = complete_body env id at event w.shared (suc w.step) in
      rw (calm.working w.step, calm.alone w.step w.shared)
        (end_tx-ok body.0 w.shared body.1 body.2
          (complete_body-ok at event w.shared (suc w.step) encodes opened unused))

  -- The appraisal is open, and the UUIDs to come are unused in the outbox.
  abbrev Open : World → Type 0
  Open w =
      (count (is_open id) w.shared.appraisals ≡ 1)
      × ((k : ℕ) → w.step ≤ k → exists (λ r. r.event_id == env.ids k) w.shared.outbox ≡ false)

  abbrev OpenFor : Uuid → World → Type 0
  OpenFor event_id w =
      (count (is_open id) w.shared.appraisals ≡ 1)
      × (exists (λ r. r.event_id == event_id) w.shared.outbox ≡ false)

  later : (w : World) → Open w → Open (record w { step = suc w.step })
  later w (opened, unused) = (opened, λ k past. unused k (omega (arith, past)))

  committed :
      (at : Time) (event : EventEnvelope)
      → Yields
          (λ w. Encodes env event × OpenFor event.event_id w)
          (Repository.complete env id at event)
          (λ x w. Unit {0})
  committed at event = record {
    run = λ w (encodes, (opened, unused)). (tt, complete-ok at event w encodes opened unused, tt);
  }

  -- The write of the event that is to be sent, and the answer.
  written :
      (at occurred_at : Time) (event_id : Uuid) (a : Appraisal)
      → let event = new_report_ready_event event_id occurred_at (mark_completed at a) in
        Yields
          (λ w. Encodes env event × OpenFor event_id w)
          (map_err Service.write_error (Repository.complete env id at event)
            >> pure (mark_completed at a))
          (λ b w. Unit {0})
  unfolding new_report_ready_event
  written at occurred_at event_id a =
      bind-Yields
        (map_err-Yields Service.write_error
          (committed at (new_report_ready_event event_id occurred_at (mark_completed at a))))
        (λ x. pure-Yields {a = mark_completed at a} (λ w h. h))

  complete_appraisal-Yields :
      (a : Appraisal)
      → Yields
          (λ w. EventEncodes env a × Open w)
          (Service.complete_appraisal env id a)
          (λ b w. Unit {0})
  unfolding Service.complete_appraisal
  complete_appraisal-Yields a =
      bind-Yields
        (now-Yields env
          {Q = λ at w.
            ((i k : ℕ)
              → Encodes env
                  (new_report_ready_event (env.ids i) (env.ticks k) (mark_completed at a)))
            × Open w}
          (λ w (encodes, h). (λ i k. encodes i w.step k, later w h)))
        (λ at.
          bind-Yields
            (new_uuid-Yields env
              {Q = λ event_id w.
                ((k : ℕ)
                  → Encodes env
                      (new_report_ready_event event_id (env.ticks k) (mark_completed at a)))
                × OpenFor event_id w}
              (λ w (encodes, (opened, unused)).
                (λ k. encodes w.step k, (opened, unused w.step (omega arith)))))
            (λ event_id.
              bind-Yields
                (now-Yields env
                  {Q = λ occurred_at w.
                    Encodes env (new_report_ready_event event_id occurred_at (mark_completed at a))
                    × OpenFor event_id w}
                  (λ w (encodes, h). (encodes w.step, h)))
                (λ occurred_at. written at occurred_at event_id a)))

  checked-Yields :
      (status : Status) (a : Appraisal)
      → Yields
          (λ w. (status ≡ in_progress) × (EventEncodes env a × Open w))
          (require_in_progress status >> Service.complete_appraisal env id a)
          (λ b w. Unit {0})
  checked-Yields in_progress a = before-Yields (λ w (e, h). h) (complete_appraisal-Yields a)
  checked-Yields completed a = record { run = λ w (e, h). absurd (ground arith) }

  service-Yields :
      (row : AppraisalRow) (s : Shared)
      → row.status ≡ in_progress
      → find (has_id id) s.appraisals ≡ some row
      → EventEncodes env (whole id row s)
      → Yields (λ w. (w.shared ≡ s) × Open w) (Service.complete env id) (λ b w. Unit {0})
  unfolding Service.complete
  service-Yields row s pending found encodes =
      bind-Yields
        (read-whole-Yields env calm id row {P = λ w. (w.shared ≡ s) × Open w}
          (λ w (same, h). (same, later w h)) (λ w (same, h). rw same found))
        (λ a.
          before-Yields
            (λ w (e, (same, h)).
              let there : a ≡ whole id row s = e ∙ ap (whole id row) same in
              (
                ap (λ x. x.status) there ∙ pending,
                (subst (EventEncodes env) (sym there) encodes, h),
              ))
            (checked-Yields a.status a))

-- While every call is served and no other process is at work, the report.ready event of this appraisal can
-- be encoded with the UUIDs and the times of the environment, and the UUIDs to come are not yet ids of
-- events: `Complete` of an appraisal in progress returns no error, but the appraisal as completed, with its
-- comparables, and has committed the new status with the report.ready event of this appraisal: with its
-- request, its id, appraiser and report, and the time of completion, and its stored JSON as the payload.
pub complete-IsDone :
    (env : Env) (calm : IsCalm env) (id : Uuid) (row : AppraisalRow) (w : World)
    → EventEncodes env (whole id row w.shared)
    → IsWellFormed w.shared
    → find (has_id id) w.shared.appraisals ≡ some row
    → row.status ≡ in_progress
    → ((k : ℕ) → w.step ≤ k → exists (λ r. r.event_id == env.ids k) w.shared.outbox ≡ false)
    → let out = Service.complete env id w in
      (a : Appraisal) × (out.0 ≡ ok a) × IsCompletion env id a w.shared out.1.shared
complete-IsDone env calm id row w encodes v found pending unused =
    let opened =
      count-is_open id w.shared.appraisals row v.ids found
      ∙ ap (λ s. if is_in_progress s then 1 else 0) pending in
    let (a, e, _) =
      (service-Yields env calm id row w.shared pending found encodes).run w
        (refl, (opened, unused)) in
    let out = Service.complete env id w in
    (
      a,
      e,
      subst (λ r. IsSettled env id w.shared r out.1.shared) e
          (complete-IsSettled env calm.alone id w),
    )
