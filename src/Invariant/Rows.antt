-- ===== src/Invariant/Rows.antt =====
-- Lemmas on the rows of `appraisals` under a search by id and a conditional update.
use review_service.Prelude.{
  ℕ, ◌+◌, ◌≡◌, refl, ◌≢◌, Bool, true, false, none, some, List, [], ◌∷◌, ◌++◌, ◌&&◌, arith, ◌==◌,
  if◌then◌else◌, find, exists, count, map_where, All, inl, inr, Bool-cases,
}
use mathlib.Core.Path.{subst}
use review_service.Domain.Appraisal.{Uuid, Time, in_progress, is_in_progress}
use review_service.World.Tables.{AppraisalRow}
use review_service.Repository.Statements.{has_id, is_open, set_completed}

-- No two rows share a key.
abbrev pub IsUnique : (AppraisalRow → ℕ) → List AppraisalRow → Type 0
IsUnique key [] = Unit
IsUnique key (x ∷ xs) = All (λ y. key y ≢ key x) xs × IsUnique key xs

-- Updates that keep a key.
abbrev pub Keeps : (AppraisalRow → ℕ) → (AppraisalRow → AppraisalRow) → Type 0
Keeps key f = (x : AppraisalRow) → key (f x) ≡ key x

module _ (p : AppraisalRow → Bool) (f : AppraisalRow → AppraisalRow) where
  key-if :
      (key : AppraisalRow → ℕ)
      → Keeps key f
      → (x : AppraisalRow) → key (if p x then f x else x) ≡ key x
  key-if key keep x = elim (Bool-cases (p x)) [ inl e ↦ rw e (keep x) | inr e ↦ rw e ]

  pub find-map_where :
      (id : Uuid) (rows : List AppraisalRow) (a : AppraisalRow)
      → Keeps (λ r. r.id) f
      → find (has_id id) rows ≡ some a
      → find (has_id id) (map_where p f rows) ≡ some (if p a then f a else a)
  find-map_where id [] a keep e = cc
  find-map_where id (x ∷ xs) a keep e =
      rw (key-if (λ r. r.id) keep x) (ground (arith, find-map_where id xs a keep))

  All-map_where :
      (key : AppraisalRow → ℕ) (k : ℕ) (rows : List AppraisalRow)
      → Keeps key f
      → All (λ y. key y ≢ k) rows
      → All (λ y. key y ≢ k) (map_where p f rows)
  All-map_where key k [] keep h = tt
  All-map_where key k (x ∷ xs) keep h =
      (rw (key-if key keep x) (h.0), All-map_where key k xs keep h.1)

  pub map_where-IsUnique :
      (key : AppraisalRow → ℕ) (rows : List AppraisalRow)
      → Keeps key f
      → IsUnique key rows
      → IsUnique key (map_where p f rows)
  map_where-IsUnique key [] keep h = tt
  map_where-IsUnique key (x ∷ xs) keep h = (
    rw (key-if key keep x) (All-map_where key (key x) xs keep h.0),
    map_where-IsUnique key xs keep h.1,
  )

All-concat :
    (P : AppraisalRow → Type 0) (rows : List AppraisalRow) (new : AppraisalRow)
    → All P rows
    → P new
    → All P (rows ++ new ∷ [])
All-concat P [] new h p = (p, tt)
All-concat P (x ∷ xs) new h p = (h.0, All-concat P xs new h.1 p)

pub append-IsUnique :
    (key : AppraisalRow → ℕ) (rows : List AppraisalRow) (new : AppraisalRow)
    → IsUnique key rows
    → exists (λ r. key r == key new) rows ≡ false
    → IsUnique key (rows ++ new ∷ [])
append-IsUnique key [] new h e = (tt, tt)
append-IsUnique key (x ∷ xs) new h e = (
  All-concat (λ y. key y ≢ key x) xs new h.0 (ground arith),
  append-IsUnique key xs new h.1 (ground arith),
)

pub find-append :
    (p : AppraisalRow → Bool) (rows new : List AppraisalRow) (a : AppraisalRow)
    → find p rows ≡ some a
    → find p (rows ++ new) ≡ some a
find-append p [] new a e = cc
find-append p (x ∷ xs) new a e = ground (arith, find-append p xs new a)

pub find-id :
    (id : Uuid) (rows : List AppraisalRow) (a : AppraisalRow)
    → find (has_id id) rows ≡ some a
    → a.id ≡ id
find-id id [] a e = cc
find-id id (x ∷ xs) a e = ground (arith, find-id id xs a)

-- The update of `Complete` on a table with unique ids.
module _ (id : Uuid) where
  count-is_open_absent :
      (rows : List AppraisalRow) → All (λ y. y.id ≢ id) rows → count (is_open id) rows ≡ 0
  count-is_open_absent [] h = refl
  count-is_open_absent (x ∷ xs) h = ground (arith, count-is_open_absent xs h.1)

  map_where_absent :
      (f : AppraisalRow → AppraisalRow) (rows : List AppraisalRow)
      → All (λ y. y.id ≢ id) rows
      → map_where (is_open id) f rows ≡ rows
  map_where_absent f [] h = refl
  map_where_absent f (x ∷ xs) h = ground (arith, map_where_absent f xs h.1)

  All-has_key :
      (x : AppraisalRow) (rows : List AppraisalRow)
      → x.id ≡ id
      → All (λ y. y.id ≢ x.id) rows
      → All (λ y. y.id ≢ id) rows
  All-has_key x [] e h = tt
  All-has_key x (y ∷ ys) e h = (rw (← e) (h.0), All-has_key x ys e h.1)

  -- `RowsAffected`: one if the row is in progress, otherwise none.
  pub count-is_open :
      (rows : List AppraisalRow) (a : AppraisalRow)
      → IsUnique (λ r. r.id) rows
      → find (has_id id) rows ≡ some a
      → count (is_open id) rows ≡ (if is_in_progress a.status then 1 else 0)
  count-is_open [] a u e = cc
  count-is_open (x ∷ xs) a u e = elim (Bool-cases (x.id == id)) [
    | inl same ↦ ground (arith, count-is_open_absent xs (All-has_key x xs (ground arith) u.0))
    | inr other ↦ ground (arith, count-is_open xs a u.1)
  ]

  pub count-missing :
      (rows : List AppraisalRow) → find (has_id id) rows ≡ none → count (is_open id) rows ≡ 0
  count-missing [] e = refl
  count-missing (x ∷ xs) e = ground (arith, count-missing xs)

-- A completed appraisal of a request.
abbrev pub is_closed_of : Uuid → AppraisalRow → Bool
is_closed_of request_id row =
    row.request_id == request_id && (if is_in_progress row.status then false else true)

pub count-set_completed :
    (request_id id : Uuid) (at : Time) (rows : List AppraisalRow) (a : AppraisalRow)
    → IsUnique (λ r. r.id) rows
    → find (has_id id) rows ≡ some a
    → a.status ≡ in_progress
    → count (is_closed_of request_id) (map_where (is_open id) (set_completed at) rows)
      ≡ count (is_closed_of request_id) rows + (if a.request_id == request_id then 1 else 0)
count-set_completed request_id id at [] a u e pending = cc
count-set_completed request_id id at (x ∷ xs) a u e pending = elim (Bool-cases (x.id == id)) [
  | inl same ↦
      ground
        (arith, map_where_absent id (set_completed at) xs (All-has_key id x xs (ground arith) u.0))
  | inr other ↦ ground (arith, count-set_completed request_id id at xs a u.1)
]

-- An update that keeps requests and statuses keeps the number of completed appraisals.
pub count-map_where :
    (request_id : Uuid) (p : AppraisalRow → Bool) (f : AppraisalRow → AppraisalRow)
    (rows : List AppraisalRow)
    → ((x : AppraisalRow) → (f x).request_id ≡ x.request_id)
    → ((x : AppraisalRow) → (f x).status ≡ x.status)
    → count (is_closed_of request_id) (map_where p f rows) ≡ count (is_closed_of request_id) rows
count-map_where request_id p f [] r st = refl
count-map_where request_id p f (x ∷ xs) r st = elim (Bool-cases (p x)) [
  | inl e ↦ rw (e, r x, st x, count-map_where request_id p f xs r st)
  | inr e ↦ rw (e, count-map_where request_id p f xs r st)
]

count-is_closed_of_absent :
    (request_id : Uuid) (rows : List AppraisalRow)
    → All (λ y. y.request_id ≢ request_id) rows
    → count (is_closed_of request_id) rows ≡ 0
count-is_closed_of_absent request_id [] h = refl
count-is_closed_of_absent request_id (x ∷ xs) h =
    ground (arith, count-is_closed_of_absent request_id xs h.1)

pub exists_of_find :
    (p : AppraisalRow → Bool) (rows : List AppraisalRow) (a : AppraisalRow)
    → find p rows ≡ some a
    → exists p rows ≡ true
exists_of_find p [] a e = cc
exists_of_find p (x ∷ xs) a e = ground (arith, exists_of_find p xs a)

request_ne :
    (id : Uuid) (k : ℕ) (rows : List AppraisalRow) (a : AppraisalRow)
    → All (λ y. y.request_id ≢ k) rows
    → find (has_id id) rows ≡ some a
    → a.request_id ≢ k
request_ne id k [] a h e = cc
request_ne id k (x ∷ xs) a h e = ground (arith, request_ne id k xs a h.1)

-- With unique requests a row alone decides how many completed appraisals its request has.
pub count-is_closed_of :
    (id : Uuid) (rows : List AppraisalRow) (a : AppraisalRow)
    → IsUnique (λ r. r.request_id) rows
    → find (has_id id) rows ≡ some a
    → count (is_closed_of a.request_id) rows ≡ (if is_in_progress a.status then 0 else 1)
count-is_closed_of id [] a u e = cc
count-is_closed_of id (x ∷ xs) a u e = elim (Bool-cases (x.id == id)) [
  | inl same ↦
      let ea : x ≡ a = ground arith in
      subst
        (λ r.
          count (is_closed_of r.request_id) (x ∷ xs) ≡ (if is_in_progress r.status then 0 else 1))
        ea (ground (arith, count-is_closed_of_absent x.request_id xs u.0))
  | inr other ↦
      let found : find (has_id id) xs ≡ some a = ground arith in
      ground
        (arith, count-is_closed_of id xs a u.1 found, request_ne id x.request_id xs a u.0 found)
]
