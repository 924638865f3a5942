-- ===== src/Invariant/Optimistic.antt =====
-- The optimistic lock of `Update` in internal/repository/postgres.go.
use mathlib.Core.Path.{subst}
use review_service.Prelude.{
  ℕ, suc, zero, ◌≡◌, refl, ◌≢◌, ◌∙◌, sym, ap, ◌⊎◌, inl, inr, Bool, true, false, List, [], ◌∷◌,
  if◌then◌else◌, exists, count, map_where, arith, Option-cases, Bool-cases,
}
use review_service.Domain.Appraisal.{Time, Appraisal}
use review_service.Domain.Errors.{RepoError, Result, ok, err, not_found, conflict, driver}
use review_service.World.Tables.{Shared, AppraisalRow}
use review_service.World.{Env, World, Fate, served, failed, lost, Action, answer, ◌>>=◌, pure, call}
use review_service.Repository
use review_service.Repository.{unless_zero, not_found_or_conflict}
use review_service.Repository.Statements.{
  Columns, bind_columns, has_id, set_columns, is_unmodified, update_appraisal, select_exists,
}
use review_service.Relay.Steps.{IsAlone}

-- The tables with the columns of the appraisal written to the row that is as it was read.
abbrev pub written : Appraisal → Time → Columns → Shared → Shared
written a prev c s = record s {
  appraisals = map_where (is_unmodified a.id prev) (set_columns a c) s.appraisals;
}

abbrev pub unmodified : Appraisal → Time → Shared → ℕ
unmodified a prev s = count (is_unmodified a.id prev) s.appraisals

-- What an answer says of the tables before and after.
abbrev pub IsLocked : Appraisal → Time → Shared → Result RepoError (Unit {0}) → Shared → Type 0
IsLocked a prev s (ok x) t = (unmodified a prev s ≢ 0) × (c : Columns) × (t ≡ written a prev c s)
IsLocked a prev s (err not_found) t = (t ≡ s) × (exists (has_id a.id) s.appraisals ≡ false)
IsLocked a prev s (err conflict) t =
    (t ≡ s) × (exists (has_id a.id) s.appraisals ≡ true) × (unmodified a prev s ≡ 0)
IsLocked a prev s (err driver) t = (t ≡ s) ⊎ ((c : Columns) × (t ≡ written a prev c s))

none-written :
    (a : Appraisal) (prev : Time) (c : Columns) (rows : List AppraisalRow)
    → count (is_unmodified a.id prev) rows ≡ 0
    → map_where (is_unmodified a.id prev) (set_columns a c) rows ≡ rows
none-written a prev c [] h = refl
none-written a prev c (x ∷ xs) h = ground (arith, none-written a prev c xs)

module _ (env : Env) (alone : IsAlone env) (a : Appraisal) (prev : Time) where
  -- The answer of a missed write, from the second query.
  missed_result :
      (fate : Fate) (s : Shared) (k : ℕ)
      → unmodified a prev s ≡ 0
      → let q = answer fate RepoError.driver (ok (select_exists a.id s), s) s in
        let m : Action RepoError Bool = λ _. (q.0, record { shared = q.1; step = k }) in
        let w : World = record { shared = s; step = k } in
        let out = (m >>= λ found. λ v. (err (if found then conflict else not_found), v)) w in
        IsLocked a prev s out.0 out.1.shared
  unfolding select_exists
  missed_result served s k h = elim (Bool-cases (exists (has_id a.id) s.appraisals)) [
    | inl found ↦ rw found (refl, found, h)
    | inr gone ↦ rw gone (refl, gone)
  ]
  missed_result failed s k h = inl refl
  missed_result lost s k h = inl refl

  missed :
      (w : World)
      → unmodified a prev w.shared ≡ 0
      → let out = not_found_or_conflict env {A = Unit {0}} a.id w in
        IsLocked a prev w.shared out.0 out.1.shared
  unfolding not_found_or_conflict call
  missed w h =
      let s = env.others w.step w.shared in
      let out = not_found_or_conflict env {A = Unit {0}} a.id w in
      subst (λ u. IsLocked a prev u out.0 out.1.shared) (alone w.step w.shared)
        (missed_result (env.fate w.step) s (suc w.step) (rw (alone w.step w.shared) h))

  -- What the statement itself leaves.
  abbrev IsWritten : Shared → Result RepoError ℕ → Shared → Type 0
  IsWritten s (ok n) t = (n ≡ unmodified a prev s) × (c : Columns) × (t ≡ written a prev c s)
  IsWritten s (err driver) t = (t ≡ s) ⊎ ((c : Columns) × (t ≡ written a prev c s))
  IsWritten s (err e) t = ⊥

  statement-IsWritten :
      (fate : Fate) (s : Shared)
      → let q = answer fate RepoError.driver (update_appraisal env a prev s) s in
        IsWritten s q.0 q.1
  unfolding update_appraisal
  statement-IsWritten fate s = elim (Option-cases (bind_columns env a)) [
    | inl refused ↦ rw (refused, update_appraisal) (refusal fate)
    | inr (c, bound) ↦ rw (bound, update_appraisal) (by_fate c fate)
  ]
    where
      refusal :
          (fate : Fate)
          → let q = answer fate RepoError.driver (err RepoError.driver, s) s in IsWritten s q.0 q.1
      refusal served = inl refl
      refusal failed = inl refl
      refusal lost = inl refl

      by_fate :
          (c : Columns) (fate : Fate)
          → let q = answer fate RepoError.driver (ok (unmodified a prev s), written a prev c s) s in
            IsWritten s q.0 q.1
      by_fate c served = (refl, c, refl)
      by_fate c failed = inl refl
      by_fate c lost = inr (c, refl)

  unwritten : (c : Columns) (s : Shared) → unmodified a prev s ≡ 0 → written a prev c s ≡ s
  unwritten c s h =
      ap (λ rows. record s { appraisals = rows }) (none-written a prev c s.appraisals h)

  update_rest :
      (s : Shared) (r : Result RepoError ℕ) (v : World)
      → IsWritten s r v.shared
      → let m : Action RepoError ℕ = λ _. (r, v) in
        let out =
          (m >>= λ n. unless_zero env n (not_found_or_conflict env {A = Unit {0}} a.id) (pure tt))
            v in
        IsLocked a prev s out.0 out.1.shared
  update_rest s (ok zero) v (h, c, e) =
      let same : v.shared ≡ s = e ∙ unwritten c s (sym h) in
      let out = not_found_or_conflict env {A = Unit {0}} a.id v in
      subst (λ u. IsLocked a prev u out.0 out.1.shared) same (missed v (rw same (sym h)))
  update_rest s (ok (suc n)) v (h, c, e) = (λ none_hit. ground (arith, h, none_hit), c, e)
  update_rest s (err driver) v p = p
  update_rest s (err not_found) v p = elim p [ ]
  update_rest s (err conflict) v p = elim p [ ]

  -- With no other process at work: success means that the row was as it was read and is written, a conflict
  -- that the row is there but was changed, not found that it is missing; both leave the tables alone.
  pub update-IsLocked :
      (w : World)
      → let out = Repository.update env a prev w in IsLocked a prev w.shared out.0 out.1.shared
  unfolding Repository.update call
  update-IsLocked w =
      let s = env.others w.step w.shared in
      let q = answer (env.fate w.step) RepoError.driver (update_appraisal env a prev s) s in
      let out = Repository.update env a prev w in
      subst (λ u. IsLocked a prev u out.0 out.1.shared) (alone w.step w.shared)
        (update_rest s q.0 (record { shared = q.1; step = suc w.step })
          (statement-IsWritten (env.fate w.step) s))

ok-IsLocked :
    (a : Appraisal) (prev : Time) (s : Shared) (r : Result RepoError (Unit {0})) (t : Shared)
    → IsLocked a prev s r t
    → r ≡ ok tt
    → (unmodified a prev s ≢ 0) × (c : Columns) × (t ≡ written a prev c s)
ok-IsLocked a prev s (ok x) t h e = h
ok-IsLocked a prev s (err x) t h e = absurd (ground arith)

-- A write takes its rows away from the other writers that hold the old stamp.
written-unmodified :
    (a : Appraisal) (prev : Time) (c : Columns) (rows : List AppraisalRow)
    → a.updated_at ≢ prev
    → count (is_unmodified a.id prev) (map_where (is_unmodified a.id prev) (set_columns a c) rows)
      ≡ 0
written-unmodified a prev c [] h = refl
written-unmodified a prev c (x ∷ xs) h = ground (arith, written-unmodified a prev c xs h)

-- No update is lost: with no other process at work, of two writes of one appraisal that hold the stamp
-- of the same read, the second fails if the first has succeeded with a new stamp.
pub no_lost_update :
    (env : Env) (alone : IsAlone env) (a b : Appraisal) (prev : Time) (w : World)
    → b.id ≡ a.id
    → a.updated_at ≢ prev
    → (Repository.update env a prev w).0 ≡ ok tt
    → (Repository.update env b prev (Repository.update env a prev w).1).0 ≢ ok tt
no_lost_update env alone a b prev w same fresh first second =
    let out = Repository.update env a prev w in
    let later = Repository.update env b prev out.1 in
    let p =
      ok-IsLocked a prev w.shared out.0 out.1.shared (update-IsLocked env alone a prev w) first in
    let q =
      ok-IsLocked b prev out.1.shared later.0 later.1.shared
        (update-IsLocked env alone b prev out.1) second in
    q.0 (
      ap (λ i. count (is_unmodified i prev) out.1.shared.appraisals) same
      ∙ ap (λ s. unmodified a prev s) p.2
      ∙ written-unmodified a prev p.1 w.shared.appraisals fresh)
