-- ===== src/Lifecycle/Calls.antt =====
-- What the calls that are not framed do to the phases: the creation, the completion, and the relay's batch.
use mathlib.Core.Path.{subst}
use review_service.Prelude.{
  ℕ, ◌≡◌, refl, ◌∙◌, sym, ap, exists, Option-cases, Bool-cases, ◌⊎◌, inl, inr, ◌==◌,
}
use review_service.Domain.Appraisal.{Uuid, Appraisal, in_progress}
use review_service.Domain.Errors.{
  RepoError, Error, not_found, conflict, forbidden, invalid_status, invalid_input, driver, Result,
  ok, err,
}
use review_service.World.{
  Env, IsStable, Ensures, Post, bind-Ensures, pure-Ensures, map_err-Ensures, call-Ensures,
  now-Ensures, new_uuid-Ensures,
}
use review_service.World.Tables.{Shared}
use review_service.Repository
use review_service.Repository.Statements.{
  Columns, bind_columns, has_id, has_request, insert_row, insert_appraisal, delete_comparable_row,
}
use review_service.Relay.Steps.{IsAlone}
use review_service.Service
use review_service.Handler.Appraisals.Completing.{IsSettled, IsCompletion}
use review_service.Invariant.WellFormed.{IsWellFormed}
use review_service.Invariant.Framing.{IsFramed}
use review_service.Lifecycle.{absent, open_phase, closed, Phases, Stays, Moves}
use review_service.Lifecycle.Phases.{phases, phases-set_columns, append-Moves, set_completed-Moves}

module _ (env : Env) (alone : IsAlone env) (p : Phases) where
  -- The phases of the tables are `p`.
  abbrev pub Has : Shared → Type 0
  Has s = Stays p (phases s.appraisals)

  Has-IsStable : IsStable env Has
  Has-IsStable k s h = rw (alone k s) h

  pub Has-IsFramed : IsFramed env (λ id. Unit) Has
  unfolding delete_comparable_row
  Has-IsFramed = record {
    stable = Has-IsStable;
    configs = λ s rows h. h;
    columns = λ s a c hit h id. phases-set_columns hit a c s.appraisals id ∙ h id;
    checks = λ s id row h e status. tt;
    added = λ s comp found h. h;
    deleted = λ s id comparable_id allowed h. h;
  }

  -- `p`, or one appraisal more.
  abbrev pub HasNew : Shared → Type 0
  HasNew s = Has s ⊎ ((id : Uuid) × Moves id absent open_phase p (phases s.appraisals))

  pub HasNew-IsStable : IsStable env HasNew
  HasNew-IsStable k s h = rw (alone k s) h

  Moves-from :
      (id : Uuid) (q r : Phases)
      → Stays p q
      → Moves id absent open_phase q r
      → Moves id absent open_phase p r
  Moves-from id q r h m = record {
    before = sym (h id) ∙ m.before;
    after = m.after;
    others = λ other ne. m.others other ne ∙ h other;
  }

  insert_row-HasNew :
      (a : Appraisal) (c : Columns) (s : Shared)
      → a.status ≡ in_progress
      → Has s
      → HasNew (insert_row a c s).1
  unfolding insert_row
  insert_row-HasNew a c s status h =
      elim (Bool-cases (exists (has_request a.request_id) s.appraisals)) [
        | inl there ↦ rw there (inl h)
        | inr new ↦ elim (Bool-cases (exists (has_id a.id) s.appraisals)) [
          | inl taken ↦ rw (new, taken) (inl h)
          | inr fresh ↦
              rw (new, fresh)
                (inr (a.id, Moves-from a.id _ _ h (append-Moves s.appraisals _ fresh status)))
        ]
      ]

  insert_appraisal-HasNew :
      (a : Appraisal) (s : Shared)
      → a.status ≡ in_progress
      → Has s
      → HasNew (insert_appraisal env a s).1
  unfolding insert_appraisal
  insert_appraisal-HasNew a s status h = elim (Option-cases (bind_columns env a)) [
    | inl refused ↦ rw (refused, insert_appraisal) (inl h)
    | inr (c, bound) ↦ rw (bound, insert_appraisal) (insert_row-HasNew a c s status h)
  ]

  pub create_from_request-HasNew :
      (request_id : Uuid)
      → Ensures HasNew Has (Service.create_from_request env request_id) (λ created. HasNew)
  unfolding Service.create_from_request Repository.create
  create_from_request-HasNew request_id = bind-Ensures (now-Ensures env) (λ at.
      bind-Ensures (new_uuid-Ensures env) (λ id.
        let a = Service.new_appraisal id request_id at in
        map_err-Ensures Service.raw_error (
          bind-Ensures
            (call-Ensures env {Q = λ n. HasNew} driver (insert_appraisal env a) Has-IsStable
              (λ s h. inl h) (λ s h. insert_appraisal-HasNew a s refl h)
              (λ s h.
                either (insert_appraisal env a s).0 (insert_appraisal env a s).1
                  (insert_appraisal-HasNew a s refl h)))
            (λ n. pure-Ensures {a = n == 1} (λ s h. h)))))
    where
      either : (r : Result RepoError ℕ) (s : Shared) → HasNew s → Post HasNew (λ n. HasNew) r s
      either (ok n) s h = h
      either (err e) s h = h

completion-Moves :
    (env : Env) (id : Uuid) (a : Appraisal) (s t : Shared)
    → IsWellFormed s
    → IsCompletion env id a s t
    → Moves id open_phase closed (phases s.appraisals) (phases t.appraisals)
completion-Moves env id a s t v c =
    let (document, hit, e, _) = c.committed in
    subst (λ rows. Moves id open_phase closed (phases s.appraisals) (phases rows))
      (sym (ap (λ u. u.appraisals) e)) (set_completed-Moves id c.at s.appraisals v.ids hit)

pub settled-May :
    (env : Env) (id : Uuid) (s : Shared) (r : Result Error Appraisal) (t : Shared)
    → IsWellFormed s
    → IsSettled env id s r t
    → Stays (phases s.appraisals) (phases t.appraisals)
      ⊎ Moves id open_phase closed (phases s.appraisals) (phases t.appraisals)
settled-May env id s (ok a) t v c = inr (completion-Moves env id a s t v c)
settled-May env id s (err driver) t v (inl e) = inl (λ i. ap (λ u. phases u.appraisals i) e)
settled-May env id s (err driver) t v (inr (a, c)) = inr (completion-Moves env id a s t v c)
settled-May env id s (err not_found) t v e = inl (λ i. ap (λ u. phases u.appraisals i) e)
settled-May env id s (err forbidden) t v e = inl (λ i. ap (λ u. phases u.appraisals i) e)
settled-May env id s (err invalid_status) t v e = inl (λ i. ap (λ u. phases u.appraisals i) e)
settled-May env id s (err conflict) t v e = inl (λ i. ap (λ u. phases u.appraisals i) e)
settled-May env id s (err invalid_input) t v e = inl (λ i. ap (λ u. phases u.appraisals i) e)
