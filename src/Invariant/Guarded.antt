-- ===== src/Invariant/Guarded.antt =====
-- The read and the status check with which the service methods begin, and what a later write may rely on.
use review_service.Prelude.{◌≡◌, refl, some, find, arith}
use review_service.Domain.Appraisal.{Uuid, Time, Status, in_progress, completed, Appraisal}
use review_service.Domain.Errors.{Error}
use review_service.World.Tables.{Shared, AppraisalRow}
use review_service.World.{
  Env, Action, ◌>>=◌, ◌>>◌, Ensures, bind-Ensures, pure-Ensures, fail-Ensures, weaken-Ensures,
  mono-Ensures, map_err-Ensures,
}
use review_service.Repository.Statements.{has_id, scan_appraisal}
use review_service.Service
use review_service.Service.{require_in_progress, UpdateInput}
use review_service.Invariant.Rows.{find-id}
use review_service.Invariant.WellFormed.{IsCivil, IsReached}
use review_service.Invariant.Statements.{IsOpenStamp, AvoidsStamp}
use review_service.Invariant.Reading.{
  IsSeen, IsSeen-IsStable, Reached-IsStable, IsSeen-columns, scan-IsSeen, get_by_id-Ensures,
}

module _ (env : Env) (civil : IsCivil env) (start : Shared) where
  abbrev Reached : Shared → Type 0
  Reached = IsReached start

  pub require-Ensures :
      {P : Shared → Type 0} (status : Status)
      → ((s : Shared) → P s → Reached s)
      → Ensures Reached P (require_in_progress status) (λ x s. P s × (status ≡ in_progress))
  require-Ensures in_progress weaken = pure-Ensures (λ s p. (p, refl))
  require-Ensures completed weaken = fail-Ensures weaken

  -- What has been read for an optimistic write: while the appraisal is in progress, no completed row
  -- has its stamp.
  abbrev pub IsGuarded : Uuid → Appraisal → Shared → Type 0
  IsGuarded id a s = (a.id ≡ id) × (a.status ≡ in_progress → IsOpenStamp env id a.updated_at s)

  abbrev pub IsGuardedAt : Uuid → Time → Appraisal → Shared → Type 0
  IsGuardedAt id u a s =
      (a.id ≡ id) × (a.updated_at ≡ u → a.status ≡ in_progress → IsOpenStamp env id u s)

  scan-IsGuardedAt :
      (id : Uuid) (u : Time) (s : Shared) (row : AppraisalRow)
      → find (has_id id) s.appraisals ≡ some row
      → IsGuardedAt id u (scan_appraisal row) s
  scan-IsGuardedAt id u s row e = (
    find-id id s.appraisals row e,
    λ eu pending other eo done. absurd (clash pending other eo done),
  )
    where
      clash :
          row.status ≡ in_progress
          → (other : AppraisalRow) → find (has_id id) s.appraisals ≡ some other
          → other.status ≡ completed
          → ⊥
      clash pending other eo done = ground arith

  pub guarded_get-Ensures :
      (id : Uuid) (u : Time)
      → AvoidsStamp env id u
      → Ensures Reached Reached (Service.read env id) (λ a s. Reached s × IsGuardedAt id u a s)
  guarded_get-Ensures id u avoids = map_err-Ensures Service.read_error (
      get_by_id-Ensures env civil start id (IsGuardedAt id u)
        (λ a k s (r, (ei, h)).
          (Reached-IsStable env civil start k s r, (ei, λ eu pending. avoids k s (h eu pending))))
        (scan-IsGuardedAt id u))

  pub reading-Ensures :
      (id : Uuid) → Ensures Reached Reached (Service.read env id) (λ a s. Reached s × IsSeen id a s)
  reading-Ensures id = map_err-Ensures Service.read_error (
      mono-Ensures (λ a s (r, h). (r, IsSeen-columns id a s h))
        (get_by_id-Ensures env civil start id (IsSeen id) (IsSeen-IsStable env civil start id)
          (scan-IsSeen env civil start id)))

  -- An operation that reads the appraisal `id` and goes on while it is in progress.
  pub seen-Ensures :
      {B : Type 0} (id : Uuid) (rest : Appraisal → Action Error B)
      → ((a : Appraisal) → Ensures Reached (λ s. Reached s × IsSeen id a s) (rest a) (λ _. Reached))
      → Ensures Reached Reached
          (Service.read env id >>= λ a. require_in_progress a.status >> rest a)
          (λ _. Reached)
  seen-Ensures id rest next = bind-Ensures (reading-Ensures id) (λ a.
      bind-Ensures (require-Ensures a.status (λ s (r, h). r))
        (λ x. weaken-Ensures (λ s (h, _). h) (next a)))
