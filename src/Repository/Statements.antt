-- ===== src/Repository/Statements.antt =====
-- The SQL statements of internal/repository/postgres.go, as functions on the tables. An `Exec` answers
-- the number of rows affected. Constraints are those of migrations/*.up.sql.
use review_service.Prelude.{
  ℤ, pos, ℕ, ◌+◌, String, Bool, true, false, Option, none, some, List, [], ◌∷◌, ◌++◌, ◌&&◌, ◌==◌,
  leb, if◌then◌else◌, find, exists, filter, count, map_where, take, drop, sort_by,
}
use review_service.Domain.Appraisal.{Uuid, Time, completed, is_in_progress, Comparable, Appraisal}
use review_service.Domain.Errors.{RepoError, driver, Result, ok, err}
use review_service.World.{Env}
use review_service.World.Tables.{Shared, AppraisalRow}

abbrev pub Exec : Type 0
Exec = Shared → Result RepoError ℕ × Shared

abbrev pub has_id : Uuid → AppraisalRow → Bool
has_id id row = row.id == id

abbrev pub has_request : Uuid → AppraisalRow → Bool
has_request request_id row = row.request_id == request_id

-- `.Scan(&a.ID, …)`: the columns; the comparables stay nil.
abbrev pub scan_appraisal : AppraisalRow → Appraisal
scan_appraisal row = record {
  id = row.id;
  request_id = row.request_id;
  appraiser_id = row.appraiser_id;
  status = row.status;
  notes = row.notes;
  market_value = row.market_value;
  report_s3_key = row.report_s3_key;
  comparables = [];
  calculation_data = row.calculation_data;
  completed_at = row.completed_at;
  created_at = row.created_at;
  updated_at = row.updated_at;
}

-- A nullable parameter and its coercion to the column's type; the outer `none` is an error.
abbrev pub coerce : (String → Option String) → Option String → Option (Option String)
coerce to none = some none
coerce to (some text) = elim (to text) [ none ↦ none | some value ↦ some (some value) ]

-- The two columns whose text parameters are coerced, NUMERIC and JSONB.
pub record Columns : Type 0 where
  pub market_value : Option String
  pub calculation_data : Option String

-- `INSERT INTO appraisals … ON CONFLICT (request_id) DO NOTHING`: `completed_at` is left null, and
-- `id` is the primary key.
unfoldable pub insert_row : Appraisal → Columns → Exec
insert_row a c s =
    if exists (has_request a.request_id) s.appraisals
    then (ok 0, s)
    else if exists (has_id a.id) s.appraisals
    then (err driver, s)
    else (
      ok 1,
      record s {
        appraisals =
            s.appraisals
            ++ record {
              id = a.id;
              request_id = a.request_id;
              appraiser_id = a.appraiser_id;
              status = a.status;
              notes = a.notes;
              market_value = c.market_value;
              report_s3_key = a.report_s3_key;
              calculation_data = c.calculation_data;
              completed_at = none;
              created_at = a.created_at;
              updated_at = a.updated_at;
            }
              ∷ [];
      },
    )

-- `SET appraiser_id = $1, …, updated_at = $6`.
abbrev pub set_columns : Appraisal → Columns → AppraisalRow → AppraisalRow
set_columns a c row = record row {
  appraiser_id = a.appraiser_id;
  notes = a.notes;
  market_value = c.market_value;
  report_s3_key = a.report_s3_key;
  calculation_data = c.calculation_data;
  updated_at = a.updated_at;
}

-- `WHERE id = $7 AND updated_at = $8`.
abbrev pub is_unmodified : Uuid → Time → AppraisalRow → Bool
is_unmodified id prev_updated_at row = row.id == id && row.updated_at == prev_updated_at

module _ (env : Env) where
  unfoldable pub bind_columns : Appraisal → Option Columns
  bind_columns a = elim (coerce env.numeric a.market_value) [
    | none ↦ none
    | some value ↦ elim (coerce env.jsonb a.calculation_data) [
      | none ↦ none
      | some document ↦ some (record { market_value = value; calculation_data = document })
    ]
  ]

  unfoldable pub insert_appraisal : Appraisal → Exec
  unfolding insert_row
  insert_appraisal a s = elim (bind_columns a) [
    | none ↦ (err driver, s)
    | some c ↦ insert_row a c s
  ]

  unfoldable pub update_appraisal : Appraisal → Time → Exec
  update_appraisal a prev_updated_at s = elim (bind_columns a) [
    | none ↦ (err driver, s)
    | some c ↦
        let hit = is_unmodified a.id prev_updated_at in
        (
          ok (count hit s.appraisals),
          record s { appraisals = map_where hit (set_columns a c) s.appraisals },
        )
  ]

  -- `INSERT INTO comparables … WHERE EXISTS (… status = 'in_progress')`.
  unfoldable pub insert_comparable : Comparable → Exec
  insert_comparable comp s = elim (env.jsonb comp.content) [
    | none ↦ (err driver, s)
    | some document ↦
        if exists (λ row. row.id == comp.appraisal_id && is_in_progress row.status) s.appraisals
        then if exists (λ c. c.id == comp.id) s.comparables then (err driver, s) else (
          ok 1,
          record s { comparables = s.comparables ++ record comp { content = document } ∷ [] },
        )
        else (ok 0, s)
  ]

  -- `INSERT INTO outbox …`: `event_id` is unique, and the identity column counts up.
  unfoldable pub insert_outbox_row : Uuid → String → String → Uuid → String → Exec
  insert_outbox_row event_id topic event_type aggregate_id payload s = elim (env.jsonb payload) [
    | none ↦ (err driver, s)
    | some document ↦
        if exists (λ row. row.event_id == event_id) s.outbox then (err driver, s) else (
          ok 1,
          record s {
            outbox =
                s.outbox
                ++ record {
                  id = s.next_outbox_id;
                  event_id = event_id;
                  topic = topic;
                  event_type = event_type;
                  aggregate_id = aggregate_id;
                  payload = document;
                  published = false;
                }
                  ∷ [];
            next_outbox_id = s.next_outbox_id + 1;
          },
        )
  ]

-- `UPDATE appraisals SET status = 'completed', completed_at = $2, updated_at = $2
-- WHERE id = $3 AND status = 'in_progress'`.
abbrev pub is_open : Uuid → AppraisalRow → Bool
is_open id row = row.id == id && is_in_progress row.status

abbrev pub set_completed : Time → AppraisalRow → AppraisalRow
set_completed at row = record row { status = completed; completed_at = some at; updated_at = at }

unfoldable pub complete_row : Uuid → Time → Exec
complete_row id at s = (
  ok (count (is_open id) s.appraisals),
  record s { appraisals = map_where (is_open id) (set_completed at) s.appraisals },
)

-- `DELETE FROM comparables WHERE id = $1 AND appraisal_id = $2`.
abbrev pub is_comparable : Uuid → Uuid → Comparable → Bool
is_comparable id appraisal_id c = c.id == id && c.appraisal_id == appraisal_id

unfoldable pub delete_comparable_row : Uuid → Uuid → Exec
delete_comparable_row appraisal_id id s = (
  ok (count (is_comparable id appraisal_id) s.comparables),
  record s {
    comparables =
        filter (λ c. if is_comparable id appraisal_id c then false else true) s.comparables;
  },
)

-- The queries.
unfoldable pub select_by_id : Uuid → Shared → Option AppraisalRow
select_by_id id s = find (has_id id) s.appraisals

unfoldable pub select_by_request : Uuid → Shared → Option AppraisalRow
select_by_request request_id s = find (has_request request_id) s.appraisals

-- `SELECT EXISTS(SELECT 1 FROM appraisals WHERE id = $1)`.
unfoldable pub select_exists : Uuid → Shared → Bool
select_exists id s = exists (has_id id) s.appraisals

-- `ORDER BY created_at`; rows of one time keep their order.
unfoldable pub select_comparables : Uuid → Shared → List Comparable
select_comparables appraisal_id s =
    sort_by (λ c d. leb c.created_at d.created_at)
      (filter (λ c. c.appraisal_id == appraisal_id) s.comparables)

-- `ORDER BY created_at DESC`.
abbrev pub newer : AppraisalRow → AppraisalRow → Bool
newer row other = leb other.created_at row.created_at

abbrev pub is_taken_by : Uuid → AppraisalRow → Bool
is_taken_by appraiser_id row = elim row.appraiser_id [
  | none ↦ false
  | some other ↦ other == appraiser_id
]

unfoldable pub select_by_appraiser : Uuid → Shared → List AppraisalRow
select_by_appraiser appraiser_id s = sort_by newer (filter (is_taken_by appraiser_id) s.appraisals)

-- `ORDER BY created_at DESC LIMIT $1 OFFSET $2`: a negative count is an error.
unfoldable pub select_page : ℤ → ℤ → Shared → Result RepoError (List AppraisalRow)
select_page (pos limit) (pos offset) s = ok (take limit (drop offset (sort_by newer s.appraisals)))
select_page _ _ s = err driver
