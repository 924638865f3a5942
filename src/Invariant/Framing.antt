-- ===== src/Invariant/Framing.antt =====
-- The service methods that neither create nor complete an appraisal, against any condition that their
-- writes leave alone: reads, checks and statements.
pub mod Methods
use review_service.Prelude.{
  ◌≡◌, refl, ◌++◌, ℕ, zero, suc, String, Bool, true, Option, none, some, List, [], ◌∷◌, find,
  exists, map_where, Option-cases, Bool-cases, inl, inr, ◌==◌,
}
use review_service.Domain.Appraisal.{
  Uuid, Time, Status, in_progress, completed, Comparable, Appraisal,
}
use review_service.Domain.Floats.{Floats}
use review_service.Domain.Apartment.{CalculationInput, AnalogResult, CalculationResult}
use review_service.Domain.Errors.{RepoError, driver, Error}
use review_service.World.{
  Env, Action, ◌>>=◌, ◌>>◌, IsStable, Keeps, Ensures, assume-Ensures, mono-Ensures, bind-Ensures,
  pure-Ensures, fail-Ensures, map_err-Ensures, call-Ensures, now-Ensures, new_uuid-Ensures,
  ignore-Keeps, call-Keeps,
}
use review_service.World.Tables.{Shared, AppraisalRow}
use review_service.Repository
use review_service.Repository.{or_not_found, query, unless_zero, not_found_or_conflict}
use review_service.Repository.Formulas.{Documents}
use review_service.Repository.Statements.{
  Columns, has_id, is_open, select_by_id, bind_columns, set_columns, update_appraisal,
  insert_comparable, delete_comparable_row,
}
use review_service.Service
use review_service.Service.{UpdateInput, require_in_progress}
use review_service.Service.Apply.{
  delete_comparables, add_comparables, applied, marshal_result, replace_comparables, store_result,
  apply_checked, apply_calculation,
}
use review_service.Storage.{StubStorage, report_key, key_for, presign_upload}
use review_service.Invariant.Configuring.{IgnoresConfigs, calculate-Keeps, query-Keeps}

-- A condition on the tables that these methods do not break. `Allowed` is what it says of an appraisal
-- that is found in progress: comparables are deleted of such appraisals only.
pub record IsFramed (env : Env) (Allowed : Uuid → Type 0) (P : Shared → Type 0) : Type 0 where
  pub stable : IsStable env P
  pub configs : IgnoresConfigs P
  pub columns :
      (s : Shared) (a : Appraisal) (c : Columns) (hit : AppraisalRow → Bool)
      → P s
      → P (record s { appraisals = map_where hit (set_columns a c) s.appraisals })
  pub checks :
      (s : Shared) (id : Uuid) (row : AppraisalRow)
      → P s
      → find (has_id id) s.appraisals ≡ some row
      → row.status ≡ in_progress
      → Allowed id
  pub added :
      (s : Shared) (comp : Comparable)
      → exists (is_open comp.appraisal_id) s.appraisals ≡ true
      → P s
      → P (record s { comparables = s.comparables ++ comp ∷ [] })
  pub deleted :
      (s : Shared) (id comparable_id : Uuid)
      → Allowed id
      → P s
      → P (delete_comparable_row id comparable_id s).1

module _ {F : Type 0} (env : Env) (ops : Floats F) (documents : Documents F)
    {Allowed : Uuid → Type 0} {P : Shared → Type 0} (framed : IsFramed env Allowed P) where
  query_kept : {A : Type 0} (f : Shared → A) → Keeps P (query env f)
  query_kept = query-Keeps env ops documents framed.stable framed.configs

  -- What a read says of the appraisal.
  abbrev IsChecked : Uuid → Status → Shared → Type 0
  IsChecked id status s = P s × (status ≡ in_progress → Allowed id)

  found-IsChecked :
      (id : Uuid) (o : Option AppraisalRow)
      → Ensures P
          (λ s. P s × ((row : AppraisalRow) → o ≡ some row → row.status ≡ in_progress → Allowed id))
          (or_not_found o)
          (λ row. IsChecked id row.status)
  found-IsChecked id none = fail-Ensures (λ s h. h.0)
  found-IsChecked id (some row) = pure-Ensures (λ s (p, h). (p, h row refl))

  read-IsChecked : (id : Uuid) → Ensures P P (Service.read env id) (λ a. IsChecked id a.status)
  unfolding Repository.get_by_id Repository.list_comparables select_by_id
  read-IsChecked id = map_err-Ensures Service.read_error (
      bind-Ensures
        (bind-Ensures
          (call-Ensures env
            {Q = λ o s.
              P s × ((row : AppraisalRow) → o ≡ some row → row.status ≡ in_progress → Allowed id)}
            driver _ framed.stable (λ s p. p) (λ s p. p)
            (λ s p. (p, λ row e. framed.checks s id row p e)))
          (found-IsChecked id))
        (λ row.
          bind-Ensures
            (call-Ensures env {Q = λ cs. IsChecked id row.status} driver _
              (λ k s (p, h). (framed.stable k s p, h)) (λ s (p, h). p) (λ s (p, h). p) (λ s h. h))
            (λ found. pure-Ensures (λ s h. h))))

  pub read-Keeps : (id : Uuid) → Keeps P (Service.read env id)
  read-Keeps id = mono-Ensures (λ a s (p, h). p) (read-IsChecked id)

  require-IsChecked :
      (id : Uuid) (status : Status)
      → Ensures P (IsChecked id status) (require_in_progress status) (λ x s. P s × Allowed id)
  require-IsChecked id in_progress = pure-Ensures (λ s (p, h). (p, h refl))
  require-IsChecked id completed = fail-Ensures (λ s (p, h). p)

  -- A read, the status check, and the rest.
  pub checked-Keeps :
      {B : Type 0} (id : Uuid) (rest : Appraisal → Action Error B)
      → ((a : Appraisal) → Allowed id → Keeps P (rest a))
      → Keeps P (Service.read env id >>= λ a. require_in_progress a.status >> rest a)
  checked-Keeps id rest next =
      bind-Ensures (read-IsChecked id)
        (λ a. bind-Ensures (require-IsChecked id a.status) (λ x. assume-Ensures (next a)))

  not_found_or_conflict-Keeps :
      {A : Type 0} (id : Uuid) → Keeps P (not_found_or_conflict env {A = A} id)
  unfolding not_found_or_conflict
  not_found_or_conflict-Keeps id = bind-Ensures (query_kept _) (λ found. fail-Ensures (λ s p. p))

  unless_zero-Keeps :
      {A : Type 0} (n : ℕ) (m k : Action RepoError A)
      → Keeps P m
      → Keeps P k
      → Keeps P (unless_zero env n m k)
  unless_zero-Keeps zero m k hm hk = hm
  unless_zero-Keeps (suc n) m k hm hk = hk

  exec-Keeps :
      (f : Repository.Statements.Exec)
      → ((s : Shared) → P s → P (f s).1)
      → Keeps P (Repository.exec env f)
  exec-Keeps f h = call-Keeps env driver f framed.stable h

  update_appraisal_kept :
      (a : Appraisal) (prev : Time) (s : Shared) → P s → P (update_appraisal env a prev s).1
  unfolding update_appraisal
  update_appraisal_kept a prev s p = elim (Option-cases (bind_columns env a)) [
    | inl refused ↦ rw (refused, update_appraisal) p
    | inr (c, bound) ↦ rw (bound, update_appraisal) (framed.columns s a c _ p)
  ]

  pub store-Keeps : (prev : Time) (a : Appraisal) → Keeps P (Service.store env prev a)
  unfolding Repository.update
  store-Keeps prev a = map_err-Ensures Service.write_error (
      bind-Ensures (exec-Keeps (update_appraisal env a prev) (update_appraisal_kept a prev))
        (λ n. unless_zero-Keeps n _ _ (not_found_or_conflict-Keeps a.id) (pure-Ensures (λ s p. p))))

  insert_comparable_kept :
      (comp : Comparable) (s : Shared) → P s → P (insert_comparable env comp s).1
  unfolding insert_comparable
  insert_comparable_kept comp s p = elim (Option-cases (env.jsonb comp.content)) [
    | inl refused ↦ rw (refused, insert_comparable) p
    | inr (document, e) ↦
        let pending = exists (is_open comp.appraisal_id) s.appraisals in
        elim (Bool-cases pending) [
          | inr closed ↦ rw (e, insert_comparable) (rw closed p)
          | inl found ↦ elim (Bool-cases (exists (λ c. c.id == comp.id) s.comparables)) [
            | inl taken ↦ rw (e, insert_comparable) (rw (found, taken) p)
            | inr fresh ↦
                rw (e, insert_comparable)
                  (rw (found, fresh) (framed.added s (record comp { content = document }) found p))
          ]
        ]
  ]

  row_added-Keeps : (comp : Comparable) → Keeps P (Repository.add_comparable env comp)
  unfolding Repository.add_comparable
  row_added-Keeps comp =
      bind-Ensures (exec-Keeps (insert_comparable env comp) (insert_comparable_kept comp)) (λ n.
        unless_zero-Keeps n _ _ (not_found_or_conflict-Keeps comp.appraisal_id)
          (pure-Ensures (λ s p. p)))

  pub new_comparable-Keeps :
      (id : Uuid) (content : String) → Keeps P (Service.new_comparable env id content)
  unfolding Service.new_comparable
  new_comparable-Keeps id content = bind-Ensures (new_uuid-Ensures env) (λ comparable_id.
      bind-Ensures (now-Ensures env) (λ at.
        let comp = Service.comparable comparable_id id content at in
        bind-Ensures (map_err-Ensures Service.comparable_error (row_added-Keeps comp))
          (λ x. pure-Ensures {a = comp} (λ s p. p))))

  pub row_deleted-Keeps :
      (id comparable_id : Uuid)
      → Allowed id
      → Keeps P (Repository.delete_comparable env id comparable_id)
  unfolding Repository.delete_comparable
  row_deleted-Keeps id comparable_id allowed =
      bind-Ensures
        (exec-Keeps (delete_comparable_row id comparable_id)
          (λ s p. framed.deleted s id comparable_id allowed p))
        (λ n. unless_zero-Keeps n _ _ (fail-Ensures (λ s p. p)) (pure-Ensures (λ s p. p)))
