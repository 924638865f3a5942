-- ===== src/Lifecycle/Comparables.antt =====
-- The comparables of an appraisal, and the statements that could change them or complete it.
use review_service.Prelude.{
  ◌≡◌, refl, ◌≢◌, ap, Bool, true, false, some, List, [], ◌∷◌, ◌++◌, ◌==◌, exists, filter, find,
  map_where, Bool-cases, inl, inr, arith, if◌then◌else◌,
}
use review_service.Domain.Appraisal.{Uuid, Time, Comparable, in_progress}
use review_service.World.Tables.{AppraisalRow}
use review_service.Repository.Statements.{has_id, is_open, set_completed, is_comparable}

abbrev pub comparables_of : Uuid → List Comparable → List Comparable
comparables_of id cs = filter (λ c. c.appraisal_id == id) cs

pub exists-map_where :
    (p hit : AppraisalRow → Bool) (f : AppraisalRow → AppraisalRow) (rows : List AppraisalRow)
    → ((x : AppraisalRow) → p (f x) ≡ p x)
    → exists p (map_where hit f rows) ≡ exists p rows
exists-map_where p hit f [] same = refl
exists-map_where p hit f (x ∷ xs) same =
    let later = exists-map_where p hit f xs same in
    elim (Bool-cases (hit x)) [
      | inl e ↦ rw e (rw (same x, later) refl)
      | inr e ↦ rw e (rw later refl)
    ]

pub exists-append :
    {A : Type 0} (p : A → Bool) (rows : List A) (new : A)
    → p new ≡ false
    → exists p (rows ++ new ∷ []) ≡ exists p rows
exists-append p [] new h = rw h refl
exists-append p (x ∷ xs) new h = rw (exists-append p xs new h) refl

pub found-open :
    (id : Uuid) (rows : List AppraisalRow) (row : AppraisalRow)
    → find (has_id id) rows ≡ some row
    → row.status ≡ in_progress
    → exists (is_open id) rows ≡ true
found-open id [] row e status = cc
found-open id (x ∷ xs) row e status = ground (arith, found-open id xs row)

pub set_completed-shut :
    (id other : Uuid) (at : Time) (rows : List AppraisalRow)
    → exists (is_open id) rows ≡ false
    → exists (is_open id) (map_where (is_open other) (set_completed at) rows) ≡ false
set_completed-shut id other at [] h = refl
set_completed-shut id other at (x ∷ xs) h = ground (arith, set_completed-shut id other at xs)

pub comparables_of-append :
    (id : Uuid) (cs : List Comparable) (new : Comparable)
    → new.appraisal_id ≢ id
    → comparables_of id (cs ++ new ∷ []) ≡ comparables_of id cs
comparables_of-append id [] new h =
    let miss : (new.appraisal_id == id) ≡ false = ground arith in rw miss refl
comparables_of-append id (x ∷ xs) new h = rw (comparables_of-append id xs new h) refl

pub comparables_of-delete :
    (id other comparable_id : Uuid) (cs : List Comparable)
    → other ≢ id
    → comparables_of id
        (filter (λ c. if is_comparable comparable_id other c then false else true) cs)
      ≡ comparables_of id cs
comparables_of-delete id other comparable_id [] h = refl
comparables_of-delete id other comparable_id (x ∷ xs) h =
    let later = comparables_of-delete id other comparable_id xs h in
    elim (Bool-cases (x.appraisal_id == id)) [
      | inl mine ↦
          let miss : is_comparable comparable_id other x ≡ false = ground arith in
          rw miss (rw mine (ap (λ l. x ∷ l) later))
      | inr theirs ↦ elim (Bool-cases (is_comparable comparable_id other x)) [
        | inl hit ↦ rw hit (rw theirs later)
        | inr miss ↦ rw miss (rw theirs later)
      ]
    ]
