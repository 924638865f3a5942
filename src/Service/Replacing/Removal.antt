-- ===== src/Service/Replacing/Removal.antt =====
-- Lists of comparables from which those of an appraisal are taken away one by one.
use review_service.Prelude.{
  ◌≡◌, refl, ◌∙◌, ap, Bool, true, false, List, [], ◌∷◌, ◌++◌, ◌==◌, ◌||◌, exists, all, filter,
  insert_by, sort_by, Bool-cases, inl, inr, arith, if◌then◌else◌,
}
use review_service.Domain.Appraisal.{Uuid, Comparable}
use review_service.Repository.Statements.{is_comparable}
use review_service.Lifecycle.Comparables.{comparables_of}

abbrev pub same_id : Comparable → Comparable → Bool
same_id x c = c.id == x.id

-- A comparable of the appraisal is one of `cs`.
abbrev pub is_covered : Uuid → List Comparable → Comparable → Bool
is_covered id cs x = if x.appraisal_id == id then exists (same_id x) cs else true

abbrev pub without : Uuid → Comparable → List Comparable → List Comparable
without id c xs = filter (λ d. if is_comparable c.id id d then false else true) xs

pub all-without :
    (id : Uuid) (c : Comparable) (cs xs : List Comparable)
    → all (is_covered id (c ∷ cs)) xs ≡ true
    → all (is_covered id cs) (without id c xs) ≡ true
all-without id c cs [] h = refl
all-without id c cs (x ∷ xs) h = ground (arith, all-without id c cs xs)

pub all-covered_by_none :
    (id : Uuid) (xs : List Comparable)
    → all (is_covered id []) xs ≡ true
    → comparables_of id xs ≡ []
all-covered_by_none id [] h = refl
all-covered_by_none id (x ∷ xs) h = ground (arith, all-covered_by_none id xs)

exists-insert_by :
    (p : Comparable → Bool) (comes : Comparable → Comparable → Bool) (x : Comparable)
    (xs : List Comparable)
    → exists p (insert_by comes x xs) ≡ (p x || exists p xs)
exists-insert_by p comes x [] = refl
exists-insert_by p comes x (y ∷ ys) = ground (arith, exists-insert_by p comes x ys)

exists-sort_by :
    (p : Comparable → Bool) (comes : Comparable → Comparable → Bool) (xs : List Comparable)
    → exists p (sort_by comes xs) ≡ exists p xs
exists-sort_by p comes [] = refl
exists-sort_by p comes (x ∷ xs) =
    exists-insert_by p comes x (sort_by comes xs) ∙ ap (λ b. p x || b) (exists-sort_by p comes xs)

covered_within :
    (id : Uuid) (xs all_of_them : List Comparable)
    → ((p : Comparable → Bool)
        → exists p (comparables_of id xs) ≡ true
        → exists p all_of_them ≡ true)
    → all (is_covered id all_of_them) xs ≡ true
covered_within id [] big h = refl
covered_within id (x ∷ xs) big h = elim (Bool-cases (x.appraisal_id == id)) [
  | inl mine ↦
      let here : exists (same_id x) big ≡ true = h (same_id x) (rw mine (ground arith)) in
      rw (mine, here) (covered_within id xs big (λ p e. h p (rw mine (ground arith))))
  | inr theirs ↦ rw theirs (covered_within id xs big (λ p e. h p (rw theirs e)))
]

pub all-sort_by :
    (id : Uuid) (comes : Comparable → Comparable → Bool) (xs : List Comparable)
    → all (is_covered id (sort_by comes (comparables_of id xs))) xs ≡ true
all-sort_by id comes xs =
    covered_within id xs _ (λ p e. exists-sort_by p comes (comparables_of id xs) ∙ e)

pub exists-without :
    (p : Comparable → Bool) (id : Uuid) (c : Comparable) (xs : List Comparable)
    → exists p xs ≡ false
    → exists p (without id c xs) ≡ false
exists-without p id c [] h = refl
exists-without p id c (x ∷ xs) h = ground (arith, exists-without p id c xs)

pub comparables_of-add :
    (id : Uuid) (xs : List Comparable) (new : Comparable)
    → new.appraisal_id ≡ id
    → comparables_of id (xs ++ new ∷ []) ≡ comparables_of id xs ++ new ∷ []
comparables_of-add id [] new h = ground arith
comparables_of-add id (x ∷ xs) new h = ground (arith, comparables_of-add id xs new h)
