-- ===== src/Invariant/Completion.antt =====
-- The body of the transaction of `Complete` in internal/repository/postgres.go, and the invariant.
use review_service.Prelude.{
  ℕ, suc, zero, ◌+◌, ◌<◌, ◌≡◌, refl, ◌≢◌, false, some, List, [], ◌∷◌, ◌++◌, ◌==◌, String, exists,
  find, count, count-append, map_where, All, arith, Bool-cases, Option-cases, inl, inr,
}
use review_service.Domain.Appraisal.{Uuid, Time, in_progress}
use review_service.Domain.Events.{EventEnvelope, topic_review_events, event_type_report_ready}
use review_service.Domain.Errors.{driver}
use review_service.World.Tables.{Shared, AppraisalRow, OutboxRow}
use review_service.World.{
  Env, TxPost, TxEnsures, TxEnsures-mono, tx_bind-Ensures, tx_call-Ensures, tx_pure-Ensures,
  tx_fail-Ensures,
}
use review_service.Repository.{insert_outbox, complete_rest, complete_body}
use review_service.Repository.Statements.{
  has_id, is_open, set_completed, complete_row, insert_outbox_row,
}
use review_service.Invariant.Rows.{map_where-IsUnique, count-set_completed, count-is_open}
use review_service.Invariant.History.{map_where-Evolves}
use review_service.Invariant.WellFormed.{is_report_of, IsAscending, IsWellFormed}
use review_service.Invariant.Statements.{IsSound, map_where-IsDated}

-- The outbox row of an event.
abbrev pub outbox_row : ℕ → EventEnvelope → String → OutboxRow
outbox_row id event document = record {
  id = id;
  event_id = event.event_id;
  topic = topic_review_events;
  event_type = event.event_type;
  aggregate_id = event.request_id;
  payload = document;
  published = false;
}

-- The tables after the CAS, and after the insert too.
abbrev pub with_completed : Uuid → Time → Shared → Shared
with_completed id at s = record s {
  appraisals = map_where (is_open id) (set_completed at) s.appraisals;
}

abbrev pub with_event : EventEnvelope → String → Shared → Shared
with_event event document s = record s {
  outbox = s.outbox ++ outbox_row s.next_outbox_id event document ∷ [];
  next_outbox_id = s.next_outbox_id + 1;
}

-- What Postgres keeps of the JSON of an event.
pub record IsDocument (env : Env) (event : EventEnvelope) (document : String) : Type 0 where
  pub payload : String
  pub marshalled : env.marshal_event event ≡ some payload
  pub stored : env.jsonb payload ≡ some document

-- What a transaction from `s` may commit.
abbrev pub IsCommitted : Env → Uuid → Time → EventEnvelope → Shared → Shared → Type 0
IsCommitted env id at event s t =
    (document : String) × (count (is_open id) s.appraisals ≢ 0)
    × (t ≡ with_event event document (with_completed id at s))
    × IsDocument env event document

module _ (env : Env) where
  insert_outbox_row-Post :
      (event : EventEnvelope) (payload : String) (s : Shared)
      → env.marshal_event event ≡ some payload
      → let t =
          insert_outbox_row env event.event_id topic_review_events event.event_type event.request_id
            payload s in
        TxPost
          (λ _ u.
            (document : String) × (u ≡ with_event event document s) × IsDocument env event document)
          t.0
          t.1
  unfolding insert_outbox_row
  insert_outbox_row-Post event payload s encoded = elim (Option-cases (env.jsonb payload)) [
    | inl refused ↦ rw (refused, TxPost, insert_outbox_row) tt
    | inr (document, e) ↦
        elim (Bool-cases (exists (λ row. row.event_id == event.event_id) s.outbox)) [
          | inl taken ↦ rw (e, TxPost, insert_outbox_row) (rw (taken, TxPost) tt)
          | inr fresh ↦
              rw (e, TxPost, insert_outbox_row)
                (rw (fresh, TxPost)
                  (document, refl, record { payload = payload; marshalled = encoded; stored = e }))
        ]
  ]

  insert_outbox-Ensures :
      (event : EventEnvelope) (s : Shared)
      → TxEnsures
          (λ t. t ≡ s)
          (insert_outbox env event)
          (λ _ u.
            (document : String) × (u ≡ with_event event document s) × IsDocument env event document)
  unfolding insert_outbox
  insert_outbox-Ensures event s = elim (Option-cases (env.marshal_event event)) [
    | inl refused ↦ rw (refused, insert_outbox) tx_fail-Ensures
    | inr (payload, e) ↦
        rw (e, insert_outbox)
          (tx_bind-Ensures
            (tx_call-Ensures env
              {Q = λ _ u.
                (document : String) × (u ≡ with_event event document s)
                × IsDocument env event document}
              driver _ (λ t et. rw et (insert_outbox_row-Post event payload s e)))
            (λ n. tx_pure-Ensures (λ t h. h)))
  ]

  complete_rest-Ensures :
      (id : Uuid) (at : Time) (event : EventEnvelope) (s : Shared) (n : ℕ)
      → TxEnsures
          (λ t. (count (is_open id) s.appraisals ≡ n) × (t ≡ with_completed id at s))
          (complete_rest env id event n)
          (λ _ u. IsCommitted env id at event s u)
  unfolding complete_rest
  complete_rest-Ensures id at event s zero =
      tx_bind-Ensures (tx_call-Ensures env {Q = λ _ u. Unit {0}} driver _ (λ t h. tt))
        (λ found. tx_fail-Ensures)
  complete_rest-Ensures id at event s (suc n) = record {
    run = λ t k (e, et).
        (TxEnsures-mono (λ a u (document, eu, d). (document, omega arith, eu, d))
            (insert_outbox-Ensures event (with_completed id at s))).run
          t k et;
  }

  -- The body asks for a commit only with the row set and the event in the outbox.
  pub complete_body-Ensures :
      (id : Uuid) (at : Time) (event : EventEnvelope) (s : Shared)
      → TxEnsures
          (λ t. t ≡ s)
          (complete_body env id at event)
          (λ _ u. IsCommitted env id at event s u)
  unfolding complete_body complete_row
  complete_body-Ensures id at event s =
      tx_bind-Ensures
        (tx_call-Ensures env
          {Q = λ n t. (count (is_open id) s.appraisals ≡ n) × (t ≡ with_completed id at s)} driver
          (complete_row id at) (λ t et. rw et (refl, refl)))
        (complete_rest-Ensures id at event s)

All-snoc :
    (i n : ℕ) (rows : List OutboxRow) (new : OutboxRow)
    → i < n
    → new.id ≡ n
    → All (λ y. i < y.id) rows
    → All (λ y. i < y.id) (rows ++ new ∷ [])
All-snoc i n [] new h e r = (rw e h, tt)
All-snoc i n (x ∷ xs) new h e r = (r.0, All-snoc i n xs new h e r.1)

-- The next id of the identity column comes after all others.
append-IsAscending :
    (n : ℕ) (rows : List OutboxRow) (new : OutboxRow)
    → new.id ≡ n
    → IsAscending n rows
    → IsAscending (n + 1) (rows ++ new ∷ [])
append-IsAscending n [] new e h = (omega arith, tt, tt)
append-IsAscending n (x ∷ xs) new e h =
    (omega (arith, h.0), All-snoc x.id n xs new h.0 e h.1, append-IsAscending n xs new e h.2)

module _ (env : Env) (id : Uuid) (at : Time) (event : EventEnvelope) (s t : Shared) where
  -- A commit sets the one row of the appraisal, and adds the one event that the row was missing.
  pub IsCommitted-IsSound :
      (a : AppraisalRow)
      → IsWellFormed s
      → find (has_id id) s.appraisals ≡ some a
      → event.request_id ≡ a.request_id
      → event.event_type ≡ event_type_report_ready
      → IsCommitted env id at event s t
      → IsSound s t
  IsCommitted-IsSound a v e er et (document, hit, eq, _) =
      let pending : a.status ≡ in_progress =
        ground (arith, count-is_open id s.appraisals a v.ids e) in
      rw eq (record {
        formed = record {
          ids =
              map_where-IsUnique (is_open id) (set_completed at) (λ r. r.id) s.appraisals
                (λ x. refl) v.ids;
          requests =
              map_where-IsUnique (is_open id) (set_completed at) (λ r. r.request_id) s.appraisals
                (λ x. refl) v.requests;
          dated =
              map_where-IsDated (is_open id) (set_completed at) s.appraisals (λ x d. tt) v.dated;
          agrees = λ request_id.
              rw
                (
                  count-append (is_report_of request_id) s.outbox
                      (outbox_row s.next_outbox_id event document ∷ []),
                  count-set_completed request_id id at s.appraisals a v.ids e pending,
                  v.agrees request_id,
                  et,
                  er,
                )
                (ground arith);
          ascending =
              append-IsAscending s.next_outbox_id s.outbox
                (outbox_row s.next_outbox_id event document) refl v.ascending;
        };
        evolves =
            map_where-Evolves (is_open id) (set_completed at) s.appraisals (λ x. refl) (λ x. refl)
              (λ x. refl) (λ i row found p done. ground arith);
      })
