-- ===== src/Relay/Marking.antt =====
-- The unpublished rows of the outbox in internal/outbox/relay.go, and the marks of a batch.
use mathlib.Core.List.{Sublistᴰ, Sublist}
use review_service.Prelude.{
  ℕ, zero, suc, ◌≤◌, ◌<◌, ◌≡◌, refl, ◌∙◌, sym, ap, ◌⊎◌, inl, inr, Bool, true, not, List, [], ◌∷◌,
  ◌++◌, map, map_where, filter, take, drop, length, sort_by, insert_by, leb, ◌==◌, All, Bool-cases,
  arith,
}
use review_service.World.{Env}
use review_service.World.Tables.{OutboxRow}
use review_service.Relay.{set_published}
use review_service.Relay.Steps.{mark_rows}
use review_service.Invariant.WellFormed.{IsAscending}

abbrev pub unpublished : List OutboxRow → List OutboxRow
unpublished rows = filter (λ row. not row.published) rows

All-filter :
    {A : Type 0} (P : A → Type 0) (p : A → Bool) (xs : List A) → All P xs → All P (filter p xs)
All-filter P p [] h = tt
All-filter P p (x ∷ xs) h = elim (Bool-cases (p x)) [
  | inl keep ↦ rw keep (h.0, All-filter P p xs h.1)
  | inr skip ↦ rw skip (All-filter P p xs h.1)
]

pub filter-IsAscending :
    (next : ℕ) (p : OutboxRow → Bool) (rows : List OutboxRow)
    → IsAscending next rows
    → IsAscending next (filter p rows)
filter-IsAscending next p [] h = tt
filter-IsAscending next p (x ∷ xs) h = elim (Bool-cases (p x)) [
  | inl keep ↦ rw keep (h.0, All-filter _ p xs h.1, filter-IsAscending next p xs h.2)
  | inr skip ↦ rw skip (filter-IsAscending next p xs h.2)
]

insert_by-first :
    (x : OutboxRow) (rows : List OutboxRow)
    → All (λ y. x.id < y.id) rows
    → insert_by (λ a b. leb a.id b.id) x rows ≡ x ∷ rows
insert_by-first x [] h = refl
insert_by-first x (y ∷ ys) h = ground (arith, h.0)

-- `ORDER BY id` leaves ascending rows as they are.
pub sort_by-IsAscending :
    (next : ℕ) (rows : List OutboxRow)
    → IsAscending next rows
    → sort_by (λ a b. leb a.id b.id) rows ≡ rows
sort_by-IsAscending next [] h = refl
sort_by-IsAscending next (x ∷ xs) h =
    rw (sort_by-IsAscending next xs h.2) (insert_by-first x xs h.1)

abbrev first_id : List OutboxRow → ℕ
first_id [] = 0
first_id (x ∷ xs) = x.id

module _ (env : Env) where
  abbrev pub marked : ℕ → List OutboxRow → List OutboxRow
  marked id rows = map_where (λ r. r.id == id) (set_published env) rows

  marked-missed :
      (id : ℕ) (rows : List OutboxRow) → All (λ y. id < y.id) rows → marked id rows ≡ rows
  marked-missed id [] h = refl
  marked-missed id (x ∷ xs) h = ground (arith, h.0, marked-missed id xs h.1)

  All-marked :
      (i id : ℕ) (rows : List OutboxRow)
      → All (λ y. i < y.id) rows
      → All (λ y. i < y.id) (marked id rows)
  All-marked i id [] h = tt
  All-marked i id (x ∷ xs) h = elim (Bool-cases (x.id == id)) [
    | inl hit ↦ rw hit (h.0, All-marked i id xs h.1)
    | inr miss ↦ rw miss (h.0, All-marked i id xs h.1)
  ]

  pub marked-IsAscending :
      (next id : ℕ) (rows : List OutboxRow)
      → IsAscending next rows
      → IsAscending next (marked id rows)
  marked-IsAscending next id [] h = tt
  marked-IsAscending next id (x ∷ xs) h = elim (Bool-cases (x.id == id)) [
    | inl hit ↦ rw hit (h.0, All-marked x.id id xs h.1, marked-IsAscending next id xs h.2)
    | inr miss ↦ rw miss (h.0, All-marked x.id id xs h.1, marked-IsAscending next id xs h.2)
  ]

  unpublished-marked_first :
      (x : OutboxRow) (xs : List OutboxRow)
      → All (λ y. x.id < y.id) xs
      → unpublished (marked x.id (x ∷ xs)) ≡ unpublished xs
  unpublished-marked_first x xs h =
      let hit : (x.id == x.id) ≡ true = ground arith in
      rw hit (ap unpublished (marked-missed x.id xs h))

  -- The mark of the first unpublished row.
  unpublished-marked :
      (next : ℕ) (row : OutboxRow) (rest rows : List OutboxRow)
      → IsAscending next rows
      → unpublished rows ≡ row ∷ rest
      → unpublished (marked row.id rows) ≡ rest
  unpublished-marked next row rest [] h e = absurd (ground arith)
  unpublished-marked next row rest (x ∷ xs) h e = elim (Bool-cases x.published) [
    | inl done ↦ ground (arith, unpublished-marked next row rest xs h.2)
    | inr todo ↦
        let e' = rw todo at e in
        let same : x.id ≡ row.id = ap first_id e' in
        let later : unpublished xs ≡ rest = ap (drop 1) e' in
        ap (λ i. unpublished (marked i (x ∷ xs))) (sym same)
        ∙ (unpublished-marked_first x xs h.1 ∙ later)
  ]

  -- The marks of the first unpublished rows.
  pub unpublished-mark_rows :
      (next : ℕ) (batch rest rows : List OutboxRow)
      → IsAscending next rows
      → unpublished rows ≡ batch ++ rest
      → unpublished (mark_rows env batch rows) ≡ rest
  unpublished-mark_rows next [] rest rows h e = e
  unpublished-mark_rows next (r ∷ batch) rest rows h e =
      unpublished-mark_rows next batch rest (marked r.id rows) (marked-IsAscending next r.id rows h)
        (unpublished-marked next r (batch ++ rest) rows h e)

  pub mark_rows-IsAscending :
      (next : ℕ) (batch rows : List OutboxRow)
      → IsAscending next rows
      → IsAscending next (mark_rows env batch rows)
  mark_rows-IsAscending next [] rows h = h
  mark_rows-IsAscending next (r ∷ batch) rows h =
      mark_rows-IsAscending next batch (marked r.id rows) (marked-IsAscending next r.id rows h)

module _ {A : Type 0} where
  pub take-drop : (n : ℕ) (xs : List A) → take n xs ++ drop n xs ≡ xs
  take-drop zero xs = refl
  take-drop (suc n) [] = refl
  take-drop (suc n) (x ∷ xs) = ap (λ ys. x ∷ ys) (take-drop n xs)

  -- A batch is full, or nothing is left behind it.
  pub take-full : (n : ℕ) (xs : List A) → (length (take n xs) ≡ n) ⊎ (drop n xs ≡ [])
  take-full zero xs = inl refl
  take-full (suc n) [] = inr refl
  take-full (suc n) (x ∷ xs) = elim (take-full n xs) [ inl e ↦ inl (ap suc e) | inr e ↦ inr e ]

  pub take-whole : (n : ℕ) (xs : List A) → n ≡ length xs → take n xs ≡ xs
  take-whole n [] e = rw e refl
  take-whole n (x ∷ xs) e = rw e (ap (λ ys. x ∷ ys) (take-whole (length xs) xs refl))

  pub drop-whole : (n : ℕ) (xs : List A) → n ≡ length xs → drop n xs ≡ []
  drop-whole n [] e = rw e refl
  drop-whole n (x ∷ xs) e = rw e (drop-whole (length xs) xs refl)

  pub empty-append : (xs ys : List A) → [] ≡ xs ++ ys → ys ≡ []
  empty-append [] ys e = sym e
  empty-append (x ∷ xs) ys e = absurd (ground arith)

module _ {A B : Type 0} (f : A → B) where
  take-Sublistᴰ : (m n : ℕ) (xs : List A) → m ≤ n → Sublistᴰ (map f (take m xs)) (map f (take n xs))
  take-Sublistᴰ zero zero xs h = Sublistᴰ.slnil
  take-Sublistᴰ zero (suc n) [] h = Sublistᴰ.slnil
  take-Sublistᴰ zero (suc n) (x ∷ xs) h = Sublistᴰ.cons (take-Sublistᴰ zero n xs (omega arith))
  take-Sublistᴰ (suc m) zero xs h = absurd (omega (arith, h))
  take-Sublistᴰ (suc m) (suc n) [] h = Sublistᴰ.slnil
  take-Sublistᴰ (suc m) (suc n) (x ∷ xs) h =
      Sublistᴰ.cons-cons refl (take-Sublistᴰ m n xs (omega (arith, h)))

  -- What was sent of a batch goes on where its marks end.
  pub take-Sublist :
      (m n : ℕ) (xs : List A) → m ≤ n → Sublist (map f (take m xs)) (map f (take n xs))
  take-Sublist m n xs h = ∣ take-Sublistᴰ m n xs h ∣₁
