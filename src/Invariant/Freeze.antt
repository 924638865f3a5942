-- ===== src/Invariant/Freeze.antt =====
-- The guard of `AddComparable` in internal/repository/postgres.go, after a completion.
use mathlib.Core.Path.{subst}
use review_service.Prelude.{
  ℕ, suc, zero, ◌≡◌, refl, ◌≢◌, ◌∙◌, ap, inl, inr, Bool, false, List, [], ◌∷◌, if◌then◌else◌,
  exists, map_where, arith, Option-cases,
}
use review_service.Domain.Appraisal.{Uuid, Time, Comparable}
use review_service.Domain.Events.{EventEnvelope}
use review_service.Domain.Errors.{RepoError, Result, ok, err}
use review_service.World.Tables.{Shared, AppraisalRow}
use review_service.World.{Env, World, Fate, served, failed, lost, Action, answer, ◌>>=◌, pure, call}
use review_service.Repository
use review_service.Repository.{unless_zero, not_found_or_conflict}
use review_service.Repository.Statements.{is_open, set_completed, insert_comparable, select_exists}
use review_service.Relay.Steps.{IsAlone}
use review_service.Invariant.Atomicity.{IsAtomic, complete-IsAtomic}

set_completed-closes :
    (id : Uuid) (at : Time) (rows : List AppraisalRow)
    → exists (is_open id) (map_where (is_open id) (set_completed at) rows) ≡ false
set_completed-closes id at [] = refl
set_completed-closes id at (x ∷ xs) = ground (arith, set_completed-closes id at xs)

-- No success, and no change.
abbrev pub IsBlocked : Shared → Result RepoError (Unit {0}) → Shared → Type 0
IsBlocked s r t = (r ≢ ok tt) × (t ≡ s)

module _ (env : Env) (alone : IsAlone env) (id : Uuid) where
  select_exists-IsBlocked :
      (fate : Fate) (s : Shared) (k : ℕ)
      → let q = answer fate RepoError.driver (ok (select_exists id s), s) s in
        let m : Action RepoError Bool = λ _. (q.0, record { shared = q.1; step = k }) in
        let w : World = record { shared = s; step = k } in
        let out =
          (m >>= λ found. λ v. (err (if found then RepoError.conflict else RepoError.not_found), v))
            w in
        IsBlocked s out.0 out.1.shared
  select_exists-IsBlocked served s k = (λ e. ground arith, refl)
  select_exists-IsBlocked failed s k = (λ e. ground arith, refl)
  select_exists-IsBlocked lost s k = (λ e. ground arith, refl)

  not_found_or_conflict-IsBlocked :
      (w : World)
      → let out = not_found_or_conflict env {A = Unit {0}} id w in
        IsBlocked w.shared out.0 out.1.shared
  unfolding not_found_or_conflict call
  not_found_or_conflict-IsBlocked w =
      let out = not_found_or_conflict env {A = Unit {0}} id w in
      subst (λ u. IsBlocked u out.0 out.1.shared) (alone w.step w.shared)
        (select_exists-IsBlocked (env.fate w.step) (env.others w.step w.shared) (suc w.step))

module _ (env : Env) (alone : IsAlone env) (comp : Comparable) where
  -- The guarded insert finds nothing to attach to.
  abbrev IsIdle : Shared → Result RepoError ℕ → Shared → Type 0
  IsIdle s (ok n) t = (n ≡ 0) × (t ≡ s)
  IsIdle s (err e) t = t ≡ s

  insert-IsIdle :
      (fate : Fate) (s : Shared)
      → exists (is_open comp.appraisal_id) s.appraisals ≡ false
      → let q = answer fate RepoError.driver (insert_comparable env comp s) s in IsIdle s q.0 q.1
  unfolding insert_comparable
  insert-IsIdle fate s closed = elim (Option-cases (env.jsonb comp.content)) [
    | inl refused ↦ rw (refused, insert_comparable) (refusal fate)
    | inr (document, e) ↦ rw (e, insert_comparable) (rw closed (idle fate))
  ]
    where
      refusal :
          (fate : Fate)
          → let q = answer fate RepoError.driver (err RepoError.driver, s) s in IsIdle s q.0 q.1
      refusal served = refl
      refusal failed = refl
      refusal lost = refl

      idle :
          (fate : Fate)
          → let q = answer {A = ℕ} fate RepoError.driver (ok 0, s) s in IsIdle s q.0 q.1
      idle served = (refl, refl)
      idle failed = refl
      idle lost = refl

  add_rest :
      (s : Shared) (r : Result RepoError ℕ) (v : World)
      → IsIdle s r v.shared
      → let m : Action RepoError ℕ = λ _. (r, v) in
        let out =
          (m >>= λ n.
          unless_zero env n (not_found_or_conflict env {A = Unit {0}} comp.appraisal_id) (pure tt))
            v in
        IsBlocked s out.0 out.1.shared
  add_rest s (ok zero) v (h, e) =
      let p = not_found_or_conflict-IsBlocked env alone comp.appraisal_id v in (p.0, p.1 ∙ e)
  add_rest s (ok (suc n)) v (h, e) = absurd (ground arith)
  add_rest s (err x) v e = (λ bad. ground arith, e)

  add_comparable-IsBlocked :
      (w : World)
      → exists (is_open comp.appraisal_id) w.shared.appraisals ≡ false
      → let out = Repository.add_comparable env comp w in IsBlocked w.shared out.0 out.1.shared
  unfolding Repository.add_comparable call
  add_comparable-IsBlocked w closed =
      let s = env.others w.step w.shared in
      let q = answer (env.fate w.step) RepoError.driver (insert_comparable env comp s) s in
      let out = Repository.add_comparable env comp w in
      subst (λ u. IsBlocked u out.0 out.1.shared) (alone w.step w.shared)
        (add_rest s q.0 (record { shared = q.1; step = suc w.step })
          (insert-IsIdle (env.fate w.step) s (rw (alone w.step w.shared) closed)))

committed-closes :
    (env : Env) (id : Uuid) (at : Time) (event : EventEnvelope) (s : Shared)
    (r : Result RepoError (Unit {0})) (t : Shared)
    → IsAtomic env id at event s r t
    → r ≡ ok tt
    → exists (is_open id) t.appraisals ≡ false
committed-closes env id at event s r t (inl (e, failing)) h = absurd (failing h)
committed-closes env id at event s r t (inr ((document, hit, e, _), x)) h =
    ap (λ u. exists (is_open id) u.appraisals) e ∙ set_completed-closes id at s.appraisals

-- With no other process at work: after a completion that succeeded, adding a comparable to the
-- appraisal fails and changes nothing, whatever calls fail or lose their answer.
pub no_late_comparable :
    (env : Env) (alone : IsAlone env) (id : Uuid) (at : Time) (event : EventEnvelope)
    (comp : Comparable) (w : World)
    → comp.appraisal_id ≡ id
    → (Repository.complete env id at event w).0 ≡ ok tt
    → let after = (Repository.complete env id at event w).1 in
      let out = Repository.add_comparable env comp after in
      (out.0 ≢ ok tt) × (out.1.shared ≡ after.shared)
no_late_comparable env alone id at event comp w same done =
    let first = Repository.complete env id at event w in
    let closed =
      committed-closes env id at event (env.others w.step w.shared) first.0 first.1.shared
        (complete-IsAtomic env id at event w) done in
    add_comparable-IsBlocked env alone comp first.1
      (ap (λ i. exists (is_open i) first.1.shared.appraisals) same ∙ closed)
