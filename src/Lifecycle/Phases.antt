-- ===== src/Lifecycle/Phases.antt =====
-- The phase of an appraisal in the table, and what the statements of internal/repository/postgres.go do
-- to it.
use review_service.Prelude.{
  ◌≡◌, refl, ◌≢◌, Bool, true, false, Option, none, some, List, [], ◌∷◌, ◌++◌, ◌==◌, find, count,
  map_where, exists, Option-cases, Bool-cases, inl, inr, arith,
}
use review_service.Domain.Appraisal.{Uuid, Time, Status, in_progress, completed, Appraisal}
use review_service.World.Tables.{AppraisalRow}
use review_service.Repository.Statements.{Columns, has_id, set_columns, is_open, set_completed}
use review_service.Invariant.Rows.{IsUnique, find-id, find-map_where, count-is_open, count-missing}
use review_service.Lifecycle.{Phase, absent, open_phase, closed, Phases, Moves}

abbrev pub phase_of : Status → Phase
phase_of in_progress = open_phase
phase_of completed = closed

abbrev pub row_phase : Option AppraisalRow → Phase
row_phase none = absent
row_phase (some row) = phase_of row.status

abbrev pub phases : List AppraisalRow → Phases
phases rows id = row_phase (find (has_id id) rows)

pub phases-set_columns :
    (hit : AppraisalRow → Bool) (a : Appraisal) (c : Columns) (rows : List AppraisalRow) (id : Uuid)
    → phases (map_where hit (set_columns a c) rows) id ≡ phases rows id
phases-set_columns hit a c [] id = refl
phases-set_columns hit a c (x ∷ xs) id =
    let later = phases-set_columns hit a c xs id in
    elim (Bool-cases (hit x)) [
      | inl e ↦ elim (Bool-cases (x.id == id)) [
        | inl same ↦ rw e (rw same refl)
        | inr other ↦ rw e (rw other later)
      ]
      | inr e ↦ elim (Bool-cases (x.id == id)) [
        | inl same ↦ rw e (rw same refl)
        | inr other ↦ rw e (rw other later)
      ]
    ]

-- A new row, with an id that no row has.
pub append-Moves :
    (rows : List AppraisalRow) (new : AppraisalRow)
    → exists (has_id new.id) rows ≡ false
    → new.status ≡ in_progress
    → Moves new.id absent open_phase (phases rows) (phases (rows ++ new ∷ []))
append-Moves rows new fresh status = record {
  before = missing rows fresh;
  after = added rows fresh;
  others = λ other ne. kept rows other ne;
}
  where
    missing :
        (rows : List AppraisalRow)
        → exists (has_id new.id) rows ≡ false
        → phases rows new.id ≡ absent
    missing [] h = refl
    missing (x ∷ xs) h = elim (Bool-cases (x.id == new.id)) [
      | inl same ↦ absurd (ground arith)
      | inr other ↦ rw other (missing xs (ground arith))
    ]

    added :
        (rows : List AppraisalRow)
        → exists (has_id new.id) rows ≡ false
        → phases (rows ++ new ∷ []) new.id ≡ open_phase
    added [] h = let same : (new.id == new.id) ≡ true = ground arith in rw (same, status) refl
    added (x ∷ xs) h = elim (Bool-cases (x.id == new.id)) [
      | inl same ↦ absurd (ground arith)
      | inr other ↦ rw other (added xs (ground arith))
    ]

    kept :
        (rows : List AppraisalRow) (other : Uuid)
        → other ≢ new.id
        → phases (rows ++ new ∷ []) other ≡ phases rows other
    kept [] other ne = let miss : (new.id == other) ≡ false = ground arith in rw miss refl
    kept (x ∷ xs) other ne = elim (Bool-cases (x.id == other)) [
      | inl same ↦ rw same refl
      | inr miss ↦ rw miss (kept xs other ne)
    ]

phases-set_completed :
    (id other : Uuid) (at : Time) (rows : List AppraisalRow)
    → other ≢ id
    → phases (map_where (is_open id) (set_completed at) rows) other ≡ phases rows other
phases-set_completed id other at [] ne = refl
phases-set_completed id other at (x ∷ xs) ne = elim (Bool-cases (x.id == other)) [
  | inl same ↦ let miss : is_open id x ≡ false = ground arith in rw miss (rw same refl)
  | inr miss ↦ elim (Bool-cases (is_open id x)) [
    | inl e ↦ rw e (rw miss (phases-set_completed id other at xs ne))
    | inr e ↦ rw e (rw miss (phases-set_completed id other at xs ne))
  ]
]

-- The CAS of `Complete`, where it matches a row.
pub set_completed-Moves :
    (id : Uuid) (at : Time) (rows : List AppraisalRow)
    → IsUnique (λ r. r.id) rows
    → count (is_open id) rows ≢ 0
    → Moves id open_phase closed
        (phases rows)
        (phases (map_where (is_open id) (set_completed at) rows))
set_completed-Moves id at rows unique hit = elim (Option-cases (find (has_id id) rows)) [
  | inl gone ↦ absurd (hit (count-missing id rows gone))
  | inr (row, e) ↦
      let pending : row.status ≡ in_progress = ground (arith, count-is_open id rows row unique e) in
      let matches : is_open id row ≡ true = ground (arith, find-id id rows row e) in
      record {
        before = rw (e, pending) refl;
        after =
            rw (find-map_where (is_open id) (set_completed at) id rows row (λ x. refl) e, matches)
              refl;
        others = λ other ne. phases-set_completed id other at rows ne;
      }
]
