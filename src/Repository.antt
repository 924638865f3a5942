-- ===== src/Repository.antt =====
-- internal/repository/postgres.go: the methods of `postgresRepository`, over the statements of a child.
pub mod Statements
pub mod Formulas
use review_service.Prelude.{
  ℤ, ℕ, suc, zero, String, Bool, true, false, Option, none, some, List, map, ◌==◌, if◌then◌else◌,
}
use review_service.Domain.Appraisal.{Uuid, Time, Comparable, Appraisal}
use review_service.Domain.Events.{EventEnvelope, topic_review_events}
use review_service.Domain.Errors.{RepoError, not_found, conflict, driver, ok, err}
use review_service.World.{
  Env, Action, pure, fail, ◌>>=◌, call, Tx, tx_bind, tx_pure, tx_fail, tx_call, in_tx,
}
use review_service.World.Tables.{Shared, AppraisalRow}
use Statements.{
  Exec, scan_appraisal, insert_appraisal, update_appraisal, insert_comparable, insert_outbox_row,
  complete_row, delete_comparable_row, select_by_id, select_by_request, select_exists,
  select_comparables, select_by_appraiser, select_page,
}

-- A query's answer.
abbrev pub query : {A : Type 0} → Env → (Shared → A) → Action RepoError A
query env f = call env driver (λ s. (ok (f s), s))

-- `pgx.ErrNoRows` becomes `ErrNotFound`.
abbrev pub or_not_found : {A : Type 0} → Option A → Action RepoError A
or_not_found none = fail not_found
or_not_found (some a) = pure a

module _ (env : Env) where
  abbrev pub exec : Exec → Action RepoError ℕ
  exec = call env driver

  unfoldable pub create : Appraisal → Action RepoError Bool
  create a = do affected ← exec (insert_appraisal env a); pure (affected == 1)

  unfoldable pub list_comparables : Uuid → Action RepoError (List Comparable)
  list_comparables appraisal_id = query env (select_comparables appraisal_id)

  unfoldable pub get_by_id : Uuid → Action RepoError Appraisal
  unfolding list_comparables
  get_by_id id = do
    row ← query env (select_by_id id) >>= or_not_found
    comparables ← list_comparables id
    pure (record (scan_appraisal row) { comparables = comparables })

  unfoldable pub get_by_request_id : Uuid → Action RepoError Appraisal
  get_by_request_id request_id = do
    row ← query env (select_by_request request_id) >>= or_not_found
    pure (scan_appraisal row)

  -- Always an error: which one depends on whether the row is there.
  unfoldable pub not_found_or_conflict : {A : Type 0} → Uuid → Action RepoError A
  not_found_or_conflict id = do
    found ← query env (select_exists id)
    fail (if found then conflict else not_found)

  -- `if tag.RowsAffected() == 0`.
  abbrev pub unless_zero :
      {A : Type 0} → ℕ → Action RepoError A → Action RepoError A → Action RepoError A
  unless_zero zero none_affected done = none_affected
  unless_zero (suc n) none_affected done = done

  unfoldable pub update : Appraisal → Time → Action RepoError (Unit {0})
  unfolding not_found_or_conflict
  update a prev_updated_at = do
    affected ← exec (update_appraisal env a prev_updated_at)
    unless_zero affected (not_found_or_conflict a.id) (pure tt)

  unfoldable pub insert_outbox : EventEnvelope → Tx RepoError (Unit {0})
  insert_outbox event = elim (env.marshal_event event) [
    | none ↦ tx_fail driver
    | some payload ↦
        tx_bind
          (tx_call env driver (
            insert_outbox_row env event.event_id topic_review_events event.event_type
              event.request_id payload))
          (λ _. tx_pure tt)
  ]

  -- The transaction of `Complete` after its CAS: `affected` is the number of rows that matched.
  unfoldable pub complete_rest : Uuid → EventEnvelope → ℕ → Tx RepoError (Unit {0})
  unfolding insert_outbox
  complete_rest id event zero =
      tx_bind (tx_call env driver (λ s. (ok (select_exists id s), s)))
        (λ found. tx_fail (if found then conflict else not_found))
  complete_rest id event (suc n) = insert_outbox event

  unfoldable pub complete_body : Uuid → Time → EventEnvelope → Tx RepoError (Unit {0})
  complete_body id completed_at event =
      tx_bind (tx_call env driver (complete_row id completed_at)) (complete_rest id event)

  unfoldable pub complete : Uuid → Time → EventEnvelope → Action RepoError (Unit {0})
  complete id completed_at event = in_tx env driver (complete_body id completed_at event)

  unfoldable pub add_comparable : Comparable → Action RepoError (Unit {0})
  unfolding not_found_or_conflict
  add_comparable comp = do
    affected ← exec (insert_comparable env comp)
    unless_zero affected (not_found_or_conflict comp.appraisal_id) (pure tt)

  unfoldable pub delete_comparable : Uuid → Uuid → Action RepoError (Unit {0})
  delete_comparable appraisal_id comparable_id = do
    affected ← exec (delete_comparable_row appraisal_id comparable_id)
    unless_zero affected (fail not_found) (pure tt)

  unfoldable pub list_by_appraiser_id : Uuid → Action RepoError (List Appraisal)
  list_by_appraiser_id appraiser_id = do
    rows ← query env (select_by_appraiser appraiser_id)
    pure (map scan_appraisal rows)

  unfoldable pub list_all : ℤ → ℤ → Action RepoError (List Appraisal)
  list_all limit offset = do
    rows ← call env driver (λ s. (select_page limit offset s, s))
    pure (map scan_appraisal rows)
