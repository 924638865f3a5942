-- ===== src/Consumer/Presence.antt =====
-- The presence of a request's appraisal: what brings it about, and that it lasts.
use mathlib.Core.Path.{subst}
use review_service.Prelude.{
  ℕ, ◌≡◌, refl, ◌∙◌, true, some, List, [], ◌∷◌, ◌++◌, arith, ◌==◌, inl, inr, find, exists, All,
  Bool-cases, Option-cases, ◌≢◌,
}
use review_service.Domain.Appraisal.{Uuid, Appraisal}
use review_service.World.Tables.{Shared, AppraisalRow}
use review_service.World.{Env, Post}
use review_service.Repository.Statements.{
  Columns, bind_columns, insert_row, insert_appraisal, has_id, has_request,
}
use review_service.Invariant.Rows.{IsUnique}
use review_service.Invariant.History.{Evolves}

-- There is an appraisal for the request.
abbrev pub IsPresent : Uuid → Shared → Type 0
IsPresent request_id s = exists (has_request request_id) s.appraisals ≡ true

exists-last :
    (request_id : Uuid) (rows : List AppraisalRow) (new : AppraisalRow)
    → new.request_id ≡ request_id
    → exists (has_request request_id) (rows ++ new ∷ []) ≡ true
exists-last request_id [] new e = ground arith
exists-last request_id (x ∷ xs) new e = ground (arith, exists-last request_id xs new e)

id_ne :
    (id k : ℕ) (rows : List AppraisalRow) (a : AppraisalRow)
    → All (λ y. y.id ≢ k) rows
    → find (has_id id) rows ≡ some a
    → id ≢ k
id_ne id k [] a h e = cc
id_ne id k (x ∷ xs) a h e = ground (arith, id_ne id k xs a h.1)

-- A request that is present has a row that is found by its id.
row_of_present :
    (request_id : Uuid) (rows : List AppraisalRow)
    → IsUnique (λ r. r.id) rows
    → exists (has_request request_id) rows ≡ true
    → (id : Uuid) × (a : AppraisalRow) × (find (has_id id) rows ≡ some a)
      × (a.request_id ≡ request_id)
row_of_present request_id [] u e = cc
row_of_present request_id (x ∷ xs) u e = elim (Bool-cases (x.request_id == request_id)) [
  | inl here ↦ (x.id, x, ground arith, ground arith)
  | inr there ↦
      let (id, a, found, same) = row_of_present request_id xs u.1 (ground arith) in
      (id, a, ground (arith, id_ne id x.id xs a u.0 found), same)
]

present_of_row :
    (id : Uuid) (rows : List AppraisalRow) (a : AppraisalRow)
    → find (has_id id) rows ≡ some a
    → exists (has_request a.request_id) rows ≡ true
present_of_row id [] a e = cc
present_of_row id (x ∷ xs) a e = ground (arith, present_of_row id xs a)

pub IsPresent-Evolves :
    (request_id : Uuid) (s t : Shared)
    → IsUnique (λ r. r.id) s.appraisals
    → Evolves s.appraisals t.appraisals
    → IsPresent request_id s
    → IsPresent request_id t
IsPresent-Evolves request_id s t u h p =
    let (id, a, found, same) = row_of_present request_id s.appraisals u p in
    let (b, found', later) = h id a found in
    subst (λ r. exists (has_request r) t.appraisals ≡ true) (later.same_request ∙ same)
      (present_of_row id t.appraisals b found')

-- What an insert leaves: the request is there if it answers, and the marks are as before.
insert_row-IsPresent :
    (a : Appraisal) (c : Columns) (s : Shared)
    → Post
        (λ t. Unit {0})
        (λ n t. IsPresent a.request_id t)
        (insert_row a c s).0
        (insert_row a c s).1
unfolding insert_row
insert_row-IsPresent a c s = elim (Bool-cases (exists (has_request a.request_id) s.appraisals)) [
  | inl again ↦ rw (again, Post) again
  | inr new_request ↦ elim (Bool-cases (exists (has_id a.id) s.appraisals)) [
    | inl taken ↦ rw (new_request, Post) (rw (taken, Post) tt)
    | inr fresh ↦
        rw (new_request, Post) (rw (fresh, Post) (exists-last a.request_id s.appraisals _ refl))
  ]
]

pub insert_appraisal-IsPresent :
    (env : Env) (a : Appraisal) (s : Shared)
    → Post
        (λ t. Unit {0})
        (λ n t. IsPresent a.request_id t)
        (insert_appraisal env a s).0
        (insert_appraisal env a s).1
unfolding insert_appraisal
insert_appraisal-IsPresent env a s = elim (Option-cases (bind_columns env a)) [
  | inl refused ↦ rw (refused, Post, insert_appraisal) tt
  | inr (c, bound) ↦ rw (bound, Post, insert_appraisal) (insert_row-IsPresent a c s)
]

pub insert_appraisal-commits :
    (env : Env) (a : Appraisal) (s : Shared) → (insert_appraisal env a s).1.commits ≡ s.commits
unfolding insert_appraisal insert_row
insert_appraisal-commits env a s = ground arith

pub insert_appraisal-marks :
    (env : Env) (a : Appraisal) (s : Shared) → (insert_appraisal env a s).1.marks ≡ s.marks
unfolding insert_appraisal insert_row
insert_appraisal-marks env a s = ground arith
