-- ===== src/Invariant/Atomicity.antt =====
-- `Complete` of internal/repository/postgres.go, commit and rollback included.
use review_service.Prelude.{ℕ, suc, ◌≡◌, refl, ◌⊎◌, inl, inr}
use review_service.Domain.Appraisal.{Uuid, Time}
use review_service.Domain.Events.{EventEnvelope}
use review_service.Domain.Errors.{RepoError, driver, Result, ok, err}
use review_service.World.Tables.{Shared}
use review_service.World.{
  Env, World, Fate, served, failed, lost, TxPost, commit, end_tx, run_tx, in_tx,
}
use review_service.Repository
use review_service.Repository.{complete_body}
use review_service.Invariant.Completion.{IsCommitted, complete_body-Ensures}

-- Nothing of the transaction, and an error; or all of it, and no error but that of a lost answer.
abbrev pub IsAtomic :
    Env → Uuid → Time → EventEnvelope → Shared → Result RepoError (Unit {0}) → Shared → Type 0
IsAtomic env id at event before r after =
    ((after ≡ before) × (r ≡ ok tt → ⊥))
    ⊎ (IsCommitted env id at event before after × ((r ≡ ok tt) ⊎ (r ≡ err RepoError.driver)))

module _ (env : Env) (id : Uuid) (at : Time) (event : EventEnvelope) where
  end_tx-IsAtomic :
      (before : Shared) (r : Result RepoError (Unit {0})) (s : Shared) (k : ℕ)
      → TxPost (λ _ u. IsCommitted env id at event before u) r s
      → let out = end_tx env driver r before s k in
        IsAtomic env id at event before out.0 out.1.shared
  end_tx-IsAtomic before (err e) s k h = inl (refl, λ x. cc)
  end_tx-IsAtomic before (ok x) s k h = by_fate (env.fate k)
    where
      by_fate :
          (fate : Fate)
          → let out = commit fate RepoError.driver x before s in
            IsAtomic env id at event before out.0 out.1
      by_fate served = inr (h, inl refl)
      by_fate failed = inl (refl, λ y. cc)
      by_fate lost = inr (h, inr refl)

  -- Whatever calls fail or lose their answer, `Complete` leaves the tables as they were, and then
  -- returns an error, or it has set the row that was in progress and added the event to the outbox, with its
  -- stored JSON, and then returns no error but that of a lost answer.
  pub complete-IsAtomic :
      (w : World)
      → let out = Repository.complete env id at event w in
        IsAtomic env id at event (env.others w.step w.shared) out.0 out.1.shared
  unfolding Repository.complete in_tx
  complete-IsAtomic w = by_fate (env.fate w.step)
    where
      before : Shared
      before = env.others w.step w.shared

      by_fate :
          (fate : Fate)
          → let out =
              run_tx env fate driver
                (complete_body env id at event)
                (record { shared = before; step = suc w.step }) in
            IsAtomic env id at event before out.0 out.1.shared
      by_fate served =
          let body = complete_body env id at event before (suc w.step) in
          end_tx-IsAtomic before body.0 body.1 body.2
            ((complete_body-Ensures env id at event before).run before (suc w.step) refl)
      by_fate failed = inl (refl, λ y. cc)
      by_fate lost = inl (refl, λ y. cc)
