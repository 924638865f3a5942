-- ===== src/Handler/Appraisals/Completing.antt =====
-- What the answer of `Complete` says of the tables, from the transaction up to the status code.
use mathlib.Core.Path.{subst}
use review_service.Prelude.{
  ℕ, suc, arith, sym, ap, find, String, ◌≡◌, ◌∙◌, refl, ◌⊎◌, inl, inr, Option, none, some, ℤ,
}
use review_service.Domain.Appraisal.{Uuid, Time, Status, in_progress, completed, Appraisal}
use review_service.Domain.Events.{EventEnvelope, new_report_ready_event}
use review_service.Domain.Errors.{
  RepoError, Error, Result, ok, err, not_found, conflict, driver, forbidden, invalid_status,
  invalid_input,
}
use review_service.World.Tables.{Shared, AppraisalRow}
use review_service.World.{
  Env, World, Action, weaken-Ensures, pure, ◌>>=◌, ◌>>◌, map_err, IsStable, Ensures, Post,
  bind-Ensures, pure-Ensures, fail-Ensures, map_err-Ensures, call-Ensures,
}
use review_service.Storage.{StubStorage}
use review_service.Repository
use review_service.Repository.Statements.{has_id, select_by_id, select_comparables, scan_appraisal}
use review_service.Service
use review_service.Service.Serving.{whole}
use review_service.Service.{write_error, mark_completed, require_in_progress}
use review_service.Invariant.Completion.{IsCommitted}
use review_service.Invariant.Atomicity.{IsAtomic, complete-IsAtomic}
use review_service.Relay.Steps.{IsAlone}
use review_service.Handler.Bodies.{Decoders}
use review_service.Http.{Response, respond_json}
use review_service.Handler.{Request, Reply, write_service_error, serve, with_id}
use review_service.Handler.Appraisals.{complete}

-- The appraisal of this id was in progress, `a` is what it is as completed, with its comparables, and the
-- transaction has been committed, with the report.ready event of this appraisal.
pub record IsCompletion (env : Env) (id : Uuid) (a : Appraisal) (s t : Shared) : Type 0 where
  pub row : AppraisalRow
  pub at : Time
  pub event : EventEnvelope
  pub found : find (has_id id) s.appraisals ≡ some row
  pub pending : row.status ≡ in_progress
  pub returned : a ≡ record (scan_appraisal row) {
    status = completed;
    completed_at = some at;
    updated_at = at;
    comparables = select_comparables id s;
  }
  pub event_type : event.event_type ≡ "report.ready"
  pub version : event.version ≡ 1
  pub request_id : event.request_id ≡ row.request_id
  pub payload : event.payload ≡ record {
    appraisal_id = row.id;
    appraiser_id = row.appraiser_id;
    report_s3_key = row.report_s3_key;
    completed_at = at;
  }
  pub committed : IsCommitted env id at event s t

abbrev pub IsSettled : Env → Uuid → Shared → Result Error Appraisal → Shared → Type 0
IsSettled env id s (ok a) t = IsCompletion env id a s t
IsSettled env id s (err driver) t = (t ≡ s) ⊎ ((a : Appraisal) × IsCompletion env id a s t)
IsSettled env id s (err e) t = t ≡ s

err-IsSettled :
    (env : Env) (id : Uuid) (s : Shared) (e : Error) (t : Shared)
    → t ≡ s
    → IsSettled env id s (err e) t
err-IsSettled env id s not_found t h = h
err-IsSettled env id s forbidden t h = h
err-IsSettled env id s invalid_status t h = h
err-IsSettled env id s conflict t h = h
err-IsSettled env id s invalid_input t h = h
err-IsSettled env id s driver t h = inl h

module _ (env : Env) (alone : IsAlone env) (id : Uuid) (s : Shared) where
  abbrev Same : Shared → Type 0
  Same t = t ≡ s

  Same-IsStable : IsStable env Same
  Same-IsStable k t h = rw (alone k t) h

  -- A query, with what is known before it.
  query-Same :
      {A : Type 0} (F : Type 0) (f : Shared → A)
      → Ensures Same (λ t. Same t × F) (Repository.query env f) (λ a t. Same t × (a ≡ f s) × F)
  query-Same F f =
      call-Ensures env {Q = λ a t. Same t × (a ≡ f s) × F} RepoError.driver _
        (λ k t (h, x). (Same-IsStable k t h, x)) (λ t (h, x). h) (λ t (h, x). h)
        (λ t (h, x). (h, ap f h, x))

  found-Same :
      (o : Option AppraisalRow)
      → Ensures Same
          (λ t. Same t × (o ≡ find (has_id id) s.appraisals) × Unit {0})
          (Repository.or_not_found o)
          (λ row t. Same t × (find (has_id id) s.appraisals ≡ some row))
  found-Same none = fail-Ensures (λ t (h, e, _). h)
  found-Same (some row) = pure-Ensures (λ t (h, e, _). (h, sym e))

  -- What was read is the row with its comparables.
  abbrev Seen : Appraisal → Shared → Type 0
  Seen a t =
      Same t
      × ((row : AppraisalRow) × (find (has_id id) s.appraisals ≡ some row) × (a ≡ whole id row s))

  read-Same : Ensures Same Same (Service.read env id) Seen
  unfolding Repository.get_by_id Repository.list_comparables select_by_id
  read-Same = map_err-Ensures Service.read_error (
      weaken-Ensures (λ t h. (h, tt))
        (bind-Ensures
          (bind-Ensures (query-Same (Unit {0}) (λ t. find (has_id id) t.appraisals)) found-Same)
          (λ row.
            bind-Ensures
              (query-Same (find (has_id id) s.appraisals ≡ some row) (select_comparables id))
              (λ comparables.
                pure-Ensures {a = record (scan_appraisal row) { comparables = comparables }}
                  (λ t (h, e, found). (h, (row, found, rw e refl)))))))

  complete_end :
      (at : Time) (event : EventEnvelope) (a : Appraisal) (r : Result RepoError (Unit {0}))
      (t : World)
      → ((u : Shared) → IsCommitted env id at event s u → IsCompletion env id a s u)
      → IsAtomic env id at event s r t.shared
      → let m : Action RepoError (Unit {0}) = λ _. (r, t) in
        let out = (map_err write_error m >> pure a) t in IsSettled env id s out.0 out.1.shared
  complete_end at event a (ok x) t pins (inl (e, failing)) = absurd (failing refl)
  complete_end at event a (ok x) t pins (inr (c, h)) = pins t.shared c
  complete_end at event a (err not_found) t pins (inl (e, h)) = e
  complete_end at event a (err conflict) t pins (inl (e, h)) = e
  complete_end at event a (err driver) t pins (inl (e, h)) = inl e
  complete_end at event a (err not_found) t pins (inr (c, h)) = ground (arith, h)
  complete_end at event a (err conflict) t pins (inr (c, h)) = ground (arith, h)
  complete_end at event a (err driver) t pins (inr (c, h)) = inr (a, pins t.shared c)

  module _ (row : AppraisalRow) (found : find (has_id id) s.appraisals ≡ some row)
      (pending : row.status ≡ in_progress) (a : Appraisal) (same : a ≡ whole id row s) where
    -- The event of `Complete` is that of the row.
    completion :
        (event_id : Uuid) (at occurred_at : Time) (t : Shared)
        → IsCommitted env id at
            (new_report_ready_event event_id occurred_at (mark_completed at a))
            s
            t
        → IsCompletion env id (mark_completed at a) s t
    unfolding new_report_ready_event
    completion event_id at occurred_at t c = record {
      row = row;
      at = at;
      event = new_report_ready_event event_id occurred_at (mark_completed at a);
      found = found;
      pending = pending;
      returned = ap (mark_completed at) same;
      event_type = refl;
      version = refl;
      request_id = ap (λ x. x.request_id) same;
      payload =
          ap (λ x. (new_report_ready_event event_id occurred_at (mark_completed at x)).payload)
            same;
      committed = c;
    }

    complete_appraisal-IsSettled :
        (w : World)
        → w.shared ≡ s
        → let out = Service.complete_appraisal env id a w in IsSettled env id s out.0 out.1.shared
    unfolding Service.complete_appraisal
    complete_appraisal-IsSettled w e =
        let at = env.ticks w.step in
        let event_id = env.ids (suc w.step) in
        let occurred_at = env.ticks (suc (suc w.step)) in
        let event = new_report_ready_event event_id occurred_at (mark_completed at a) in
        let later : World = record { shared = w.shared; step = suc (suc (suc w.step)) } in
        let out = Repository.complete env id at event later in
        complete_end at event (mark_completed at a) out.0 out.1 (completion event_id at occurred_at)
          (subst (λ u. IsAtomic env id at event u out.0 out.1.shared)
            (alone later.step w.shared ∙ e) (complete-IsAtomic env id at event later))

  complete_checked :
      (row : AppraisalRow) (a : Appraisal) (status : Status) (w : World)
      → find (has_id id) s.appraisals ≡ some row
      → a ≡ whole id row s
      → a.status ≡ status
      → w.shared ≡ s
      → let out = (require_in_progress status >> Service.complete_appraisal env id a) w in
        IsSettled env id s out.0 out.1.shared
  complete_checked row a in_progress w found same pending e =
      complete_appraisal-IsSettled row found (sym (ap (λ x. x.status) same) ∙ pending) a same w e
  complete_checked row a completed w found same done e = e

  complete_read :
      (r : Result Error Appraisal) (w : World)
      → Post Same Seen r w.shared
      → let m : Action Error Appraisal = λ _. (r, w) in
        let out =
          (m >>= λ a. require_in_progress a.status >> Service.complete_appraisal env id a) w in
        IsSettled env id s out.0 out.1.shared
  complete_read (ok a) w (h, (row, found, same)) =
      complete_checked row a a.status w found same refl h
  complete_read (err e) w h = err-IsSettled env id s e w.shared h

module _ (env : Env) (alone : IsAlone env) where
  pub complete-IsSettled :
      (id : Uuid) (w : World)
      → let out = Service.complete env id w in IsSettled env id w.shared out.0 out.1.shared
  unfolding Service.complete
  complete-IsSettled id w =
      let first = Service.read env id w in
      complete_read env alone id w.shared first.0 first.1
        ((read-Same env alone id w.shared).run w refl)

-- What a status code of `Complete` says: 200 that the appraisal has been completed with its event, and any other code but 500 that nothing has changed.
abbrev pub IsAnswer : Env → Option Uuid → Shared → ℕ → Shared → Type 0
IsAnswer env parsed s status t =
    (status ≡ 200
      → (id : Uuid) × (parsed ≡ some id) × ((a : Appraisal) × IsCompletion env id a s t))
    × ((status ≡ 200 → ⊥) → (status ≡ 500 → ⊥) → t ≡ s)

module _ (env : Env) (parsed : Uuid) (s : Shared) where
  settled-IsAnswer :
      (r : Result Error Appraisal) (t : World)
      → IsSettled env parsed s r t.shared
      → let m : Action Error Appraisal = λ _. (r, t) in
        let out =
          serve m
            (λ e. write_service_error e "failed to complete appraisal")
            (λ a. respond_json 200 (Reply.appraisal a))
            t in
        IsAnswer env (some parsed) s out.0.status out.1.shared
  unfolding write_service_error
  settled-IsAnswer (ok a) t c = (λ e. (parsed, refl, (a, c)), λ other e. absurd (other refl))
  settled-IsAnswer (err not_found) t h = (λ e. absurd (ground arith), λ _ _. h)
  settled-IsAnswer (err conflict) t h = (λ e. absurd (ground arith), λ _ _. h)
  settled-IsAnswer (err invalid_status) t h = (λ e. absurd (ground arith), λ _ _. h)
  settled-IsAnswer (err forbidden) t h = (λ e. absurd (ground arith), λ _ _. h)
  settled-IsAnswer (err invalid_input) t h = (λ e. absurd (ground arith), λ _ _. h)
  settled-IsAnswer (err driver) t h = (λ e. absurd (ground arith), λ _ other. absurd (other refl))

module _ (env : Env) (storage : StubStorage) (decoders : Decoders) (atoi : String → Option ℤ)
    (alone : IsAlone env) (r : Request) (w : World) where
  abbrev answered : Response Reply × World
  answered = complete env storage decoders atoi r w

  -- With no other process at work, whatever calls fail or lose their answer: `Complete` answers 200 only
  -- when the appraisal of the id was in progress and has been completed, and its report.ready event is the
  -- last row of the outbox: with its request, its id, appraiser and report, and the time of completion,
  -- and its stored JSON as the payload;
  -- and any other code but 500 only when nothing has changed.
  pub complete-IsAnswer :
      IsAnswer env
        (decoders.parse_uuid (r.url_param "id"))
        w.shared
        answered.0.status
        answered.1.shared
  unfolding complete
  complete-IsAnswer = by_id (decoders.parse_uuid (r.url_param "id"))
    where
      by_id :
          (parsed : Option Uuid)
          → let out =
              with_id parsed "invalid id"
                (λ id.
                  serve
                    (Service.complete env id)
                    (λ e. write_service_error e "failed to complete appraisal")
                    (λ a. respond_json 200 (Reply.appraisal a)))
                w in
            IsAnswer env parsed w.shared out.0.status out.1.shared
      by_id none = (λ e. absurd (ground arith), λ _ _. refl)
      by_id (some id) =
          let out = Service.complete env id w in
          settled-IsAnswer env id w.shared out.0 out.1 (complete-IsSettled env alone id w)
