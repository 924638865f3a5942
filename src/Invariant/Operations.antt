-- ===== src/Invariant/Operations.antt =====
-- The repository methods against the invariant and the history of the rows, under any schedule: which calls
-- fail, which answers are lost, and what civil processes do between the calls.
use review_service.Prelude.{ℕ, suc, zero, ◌≡◌, refl, ◌∙◌, sym}
use review_service.Domain.Appraisal.{Uuid, Time, in_progress, Comparable, Appraisal}
use review_service.Domain.Events.{EventEnvelope, event_type_report_ready}
use review_service.Domain.Errors.{RepoError, driver, Result, ok, err}
use review_service.World.Tables.{Shared}
use review_service.World.{
  Env, Action, IsStable, Ensures, Post, bind-Ensures, pure-Ensures, fail-Ensures, call-Ensures,
  in_tx-Ensures, TxEnsures-mono,
}
use review_service.Repository
use review_service.Repository.Statements.{
  insert_appraisal, update_appraisal, insert_comparable, delete_comparable_row, select_exists,
}
use review_service.Invariant.History.{Evolves-refl}
use review_service.Invariant.WellFormed.{IsWellFormed, IsCivil, IsReached}
use review_service.Invariant.Statements.{
  IsSound, IsOpenStamp, AvoidsStamp, insert_appraisal-IsSound, update_appraisal-IsSound,
  insert_comparable-IsSound, delete_comparable_row-IsSound,
}
use review_service.Invariant.Completion.{complete_body-Ensures, IsCommitted-IsSound}
use review_service.Invariant.Reading.{
  IsSeen, IsSeen-IsStable, sound-Reached, Reached-IsStable, query-Ensures,
}

pub IsReached-start : (s : Shared) → IsWellFormed s → IsReached s s
IsReached-start s v = record { formed = v; evolved = Evolves-refl s.appraisals }

module _ (env : Env) (civil : IsCivil env) (start : Shared) where
  abbrev pub Reached : Shared → Type 0
  Reached = IsReached start

  -- A statement that is sound wherever `P` holds.
  pub exec-Ensures :
      {P : Shared → Type 0} (f : Shared → Result RepoError ℕ × Shared)
      → IsStable env P
      → ((s : Shared) → P s → Reached s)
      → ((s : Shared) → P s → IsSound s (f s).1)
      → Ensures Reached P (Repository.exec env f) (λ n s. Reached s)
  exec-Ensures {P} f stable weaken sound =
      call-Ensures env driver f stable weaken after (λ s p. Post-both (f s).0 s (after s p))
    where
      after : (s : Shared) → P s → Reached (f s).1
      after s p = sound-Reached env civil start s (f s).1 (weaken s p) (sound s p)

      Post-both :
          (r : Result RepoError ℕ) (s : Shared)
          → Reached (f s).1
          → Post Reached (λ n. Reached) r (f s).1
      Post-both (ok n) s h = h
      Post-both (err e) s h = h

  pub not_found_or_conflict-Ensures :
      {A : Type 0} (id : Uuid)
      → Ensures Reached Reached (Repository.not_found_or_conflict env {A = A} id) (λ a s. Reached s)
  unfolding Repository.not_found_or_conflict
  not_found_or_conflict-Ensures id =
      bind-Ensures
        (query-Ensures env civil start (select_exists id) (Reached-IsStable env civil start)
          (λ s r. r))
        (λ found. fail-Ensures (λ s h. h.0))

  unless_zero-Ensures :
      (n : ℕ) {A : Type 0} {m k : Action RepoError A}
      → Ensures Reached Reached m (λ a s. Reached s)
      → Ensures Reached Reached k (λ a s. Reached s)
      → Ensures Reached Reached (Repository.unless_zero env n m k) (λ a s. Reached s)
  unless_zero-Ensures zero hm hk = hm
  unless_zero-Ensures (suc n) hm hk = hk

  pub create-Ensures :
      (a : Appraisal)
      → a.status ≡ in_progress
      → Ensures Reached Reached (Repository.create env a) (λ b s. Reached s)
  unfolding Repository.create
  create-Ensures a pending =
      bind-Ensures
        (exec-Ensures (insert_appraisal env a) (Reached-IsStable env civil start) (λ s r. r)
          (λ s r. insert_appraisal-IsSound env a s r.formed pending))
        (λ n. pure-Ensures (λ s r. r))

  pub add_comparable-Ensures :
      (comp : Comparable)
      → Ensures Reached Reached (Repository.add_comparable env comp) (λ x s. Reached s)
  unfolding Repository.add_comparable
  add_comparable-Ensures comp =
      bind-Ensures
        (exec-Ensures (insert_comparable env comp) (Reached-IsStable env civil start) (λ s r. r)
          (λ s r. insert_comparable-IsSound env comp s r.formed))
        (λ n.
          unless_zero-Ensures n (not_found_or_conflict-Ensures comp.appraisal_id)
            (pure-Ensures (λ s r. r)))

  pub delete_comparable-Ensures :
      (appraisal_id id : Uuid)
      → Ensures Reached Reached
          (Repository.delete_comparable env appraisal_id id)
          (λ x s. Reached s)
  unfolding Repository.delete_comparable
  delete_comparable-Ensures appraisal_id id =
      bind-Ensures
        (exec-Ensures (delete_comparable_row appraisal_id id) (Reached-IsStable env civil start)
          (λ s r. r) (λ s r. delete_comparable_row-IsSound appraisal_id id s r.formed))
        (λ n. unless_zero-Ensures n (fail-Ensures (λ s r. r)) (pure-Ensures (λ s r. r)))

  pub update-Ensures :
      (a : Appraisal) (u : Time)
      → AvoidsStamp env a.id u
      → Ensures Reached
          (λ s. Reached s × IsOpenStamp env a.id u s)
          (Repository.update env a u)
          (λ x s. Reached s)
  unfolding Repository.update
  update-Ensures a u avoids =
      bind-Ensures
        (exec-Ensures (update_appraisal env a u)
          (λ k s (r, o). (Reached-IsStable env civil start k s r, avoids k s o)) (λ s (r, o). r)
          (λ s (r, o). update_appraisal-IsSound env a u s r.formed o))
        (λ n. unless_zero-Ensures n (not_found_or_conflict-Ensures a.id) (pure-Ensures (λ s r. r)))

  pub complete-Ensures :
      (id : Uuid) (at : Time) (event : EventEnvelope) (a : Appraisal)
      → event.request_id ≡ a.request_id
      → event.event_type ≡ event_type_report_ready
      → Ensures Reached
          (λ s. Reached s × IsSeen id a s)
          (Repository.complete env id at event)
          (λ x s. Reached s)
  unfolding Repository.complete
  complete-Ensures id at event a er et =
      in_tx-Ensures env driver _ (IsSeen-IsStable env civil start id a) (λ s (r, h). r) (λ x t r. r)
        (record {
          run = λ s k (r, h).
              (TxEnsures-mono
                  (λ x t c. sound-Reached env civil start s t r (
                    IsCommitted-IsSound env id at event s t h.current r.formed h.found
                      (er ∙ (h.read_request ∙ sym h.later.same_request)) et c))
                  (complete_body-Ensures env id at event s)).run
                s k refl;
        })
