-- ===== src/Service/Replacing/Adding.antt =====
-- The additions of `ApplyApartmentCalculation`.
use mathlib.Core.Path.{subst}
use mathlib.Core.List.{map-append, append-nil, append_assoc}
use review_service.Prelude.{
  ℕ, zero, suc, ◌≤◌, ◌≡◌, ◌∙◌, refl, sym, ap, String, false, some, List, [], ◌∷◌, ◌++◌, ◌==◌,
  exists, find, map, length, All, inl, inr, Bool-cases, arith,
}
use review_service.Domain.Appraisal.{Uuid, Status, in_progress, completed}
use review_service.Domain.Errors.{RepoError, Error, ok}
use review_service.Domain.Floats.{Floats}
use review_service.Domain.Apartment.{Analog, AnalogResult, AnalogDocument}
use review_service.World.{
  Env, World, IsCalm, Yields, pure, ◌>>◌, ignore, pure-Yields, before-Yields, after-Yields,
  map_err-Yields, bind-Yields, call-Yields, now-Yields, new_uuid-Yields, ignore-Yields,
}
use review_service.World.Tables.{Shared, AppraisalRow}
use review_service.Repository
use review_service.Repository.{unless_zero}
use review_service.Repository.Formulas.{Documents}
use review_service.Repository.Statements.{has_id, insert_comparable}
use review_service.Service
use review_service.Service.{require_in_progress, comparable}
use review_service.Service.Apply.{analog_document, add_comparables}
use review_service.Service.Serving.{read-Yields}
use review_service.Service.Replacing.Removal.{comparables_of-add}
use review_service.Lifecycle.Comparables.{
  comparables_of, comparables_of-append, exists-append, found-open,
}
use review_service.Service.Replacing.Deleting.{IsUnderway, WithDocuments, later_of}

-- Postgres takes the document of an analog.
abbrev pub IsStored :
    {F : Type 0} → Env → Documents F → (AnalogDocument F → String) → AnalogDocument F → Type 0
IsStored env documents stored r = env.jsonb (documents.of_analog r) ≡ some (stored r)

-- The documents of the analogs from an index on, with the results at their places.
abbrev pub analog_documents :
    {F : Type 0} → ℕ → List (Analog F) → List (AnalogResult F) → List (AnalogDocument F)
analog_documents i (a ∷ analogs) (r ∷ rs) =
    analog_document i a r ∷ analog_documents (suc i) analogs rs
analog_documents i (a ∷ analogs) [] = []
analog_documents i [] rs = []

module _ (env : Env) (calm : IsCalm env) (distinct : (j k : ℕ) → env.ids j ≡ env.ids k → j ≡ k)
    (id : Uuid) (row : AppraisalRow) (pending : row.status ≡ in_progress) (start : Shared)
    (found : find (has_id id) start.appraisals ≡ some row) where
  abbrev Underway : World → Type 0
  Underway = IsUnderway env id start

  module _ {F : Type 0} (ops : Floats F) (documents : Documents F)
      (stored : AnalogDocument F → String) where
    abbrev Added : List String → World → Type 0
    Added = WithDocuments env id start

    -- With a UUID that is taken out for a new comparable.
    abbrev AddedFor : List String → Uuid → World → Type 0
    AddedFor texts new w =
        Added texts w
        × (exists (λ c. c.id == new) w.shared.comparables ≡ false)
        × ((k : ℕ) → w.step ≤ k → (new == env.ids k) ≡ false)

    later : (w : World) → Underway w → Underway (record w { step = suc w.step })
    later = later_of env id start

    taken :
        (texts : List String) (w : World)
        → Added texts w
        → AddedFor texts (env.ids w.step) (record w { step = suc w.step })
    taken texts w (u, e) = (
      (later w u, e),
      u.fresh w.step (omega arith),
      λ k past. elim (Bool-cases (env.ids w.step == env.ids k)) [
        | inl equal ↦ absurd (omega (arith, past, distinct w.step k (ground arith)))
        | inr other ↦ other
      ],
    )

    added :
        (texts : List String) (document : String) (new at : ℕ) (w : World)
        → Underway w
        → map (λ c. c.content) (comparables_of id w.shared.comparables) ≡ texts
        → ((k : ℕ) → w.step ≤ k → (new == env.ids k) ≡ false)
        → Added (texts ++ document ∷ []) (record {
          shared = record w.shared {
            comparables = w.shared.comparables ++ comparable new id document at ∷ [];
          };
          step = suc w.step;
        })
    added texts document new at w u e other = (
      record {
        same = u.same;
        fresh = λ k past.
            exists-append (λ c. c.id == env.ids k) w.shared.comparables _
              (other k (omega (arith, past)))
            ∙ u.fresh k (omega (arith, past));
        kept = λ elsewhere ne.
            comparables_of-append elsewhere w.shared.comparables _ ne ∙ u.kept elsewhere ne;
      },
      ap (map (λ c. c.content))
            (comparables_of-add id w.shared.comparables (comparable new id document at) refl)
          ∙ (map-append (λ c. c.content) (comparables_of id w.shared.comparables)
                (comparable new id document at ∷ [])
              ∙ ap (λ l. l ++ document ∷ []) e),
    )

    inserted :
        (texts : List String) (r : AnalogDocument F) (new at : ℕ) (w : World)
        → IsStored env documents stored r
        → AddedFor texts new w
        → let out = insert_comparable env (comparable new id (documents.of_analog r) at) w.shared in
          (out.0 ≡ ok 1)
          × Added (texts ++ stored r ∷ []) (record { shared = out.1; step = suc w.step })
    unfolding insert_comparable
    inserted texts r new at w stores ((u, e), unused, other) =
        let opened =
          found-open id w.shared.appraisals row (ap (find (has_id id)) u.same ∙ found) pending in
        rw (stores, opened, unused, insert_comparable)
          (refl, added texts (stored r) new at w u e other)

    add_one :
        (texts : List String) (r : AnalogDocument F)
        → IsStored env documents stored r
        → Yields
            (Added texts)
            (ignore {F = Error} (Service.add_comparable env id (documents.of_analog r)))
            (λ x. Added (texts ++ stored r ∷ []))
    unfolding Service.add_comparable Service.new_comparable Repository.add_comparable
    add_one texts r stores = ignore-Yields (
        bind-Yields
          (read-Yields env calm id row {P = Added texts} (λ w (u, e). (later w u, e))
            (λ w (u, e). ap (find (has_id id)) u.same ∙ found))
          (λ a. before-Yields (λ w (e, h). (e ∙ pending, h)) (checked a.status)))
      where
        affected :
            (n : ℕ)
            → Yields
                (λ w. (n ≡ 1) × Added (texts ++ stored r ∷ []) w)
                (unless_zero env n (Repository.not_found_or_conflict env id) (pure tt))
                (λ x. Added (texts ++ stored r ∷ []))
        affected zero = record { run = λ w (e, h). absurd (ground arith) }
        affected (suc n) = pure-Yields (λ w (e, h). h)

        creation :
            Yields
              (Added texts)
              (Service.new_comparable env id (documents.of_analog r))
              (λ c. Added (texts ++ stored r ∷ []))
        creation = bind-Yields (new_uuid-Yields env {Q = AddedFor texts} (taken texts)) (λ new.
            bind-Yields
              (now-Yields env {Q = λ at. AddedFor texts new} (λ w ((u, e), unused, other).
                ((later w u, e), unused, λ k past. other k (omega (arith, past)))))
              (λ at.
                bind-Yields
                  (map_err-Yields Service.comparable_error (
                    bind-Yields
                      (call-Yields env {Q = λ n w. (n ≡ 1) × Added (texts ++ stored r ∷ []) w} calm
                        RepoError.driver
                        (insert_comparable env (comparable new id (documents.of_analog r) at))
                        (λ w h.
                          let (e, more) = inserted texts r new at w stores h in
                          (1, e, (refl, more))))
                      affected))
                  (λ x. pure-Yields {a = comparable new id (documents.of_analog r) at} (λ w h. h))))

        checked :
            (status : Status)
            → Yields
                (λ w. (status ≡ in_progress) × Added texts w)
                (require_in_progress status
                  >> Service.new_comparable env id (documents.of_analog r))
                (λ c. Added (texts ++ stored r ∷ []))
        checked in_progress = before-Yields (λ w (e, h). h) creation
        checked completed = record { run = λ w (e, h). absurd (ground arith) }

    pub add_each :
        (texts : List String) (i : ℕ) (analogs : List (Analog F)) (rs : List (AnalogResult F))
        → length rs ≡ length analogs
        → All (IsStored env documents stored) (analog_documents i analogs rs)
        → Yields
            (Added texts)
            (add_comparables env ops documents id i analogs rs)
            (λ x. Added (texts ++ map stored (analog_documents i analogs rs)))
    unfolding add_comparables
    add_each texts i (a ∷ analogs) [] same stores = absurd (omega (arith, same))
    add_each texts i [] (r ∷ rs) same stores = absurd (omega (arith, same))
    add_each texts i [] [] same stores =
        pure-Yields (λ w h. subst (λ l. Added l w) (sym (append-nil texts)) h)
    add_each texts i (a ∷ analogs) (r ∷ rs) same stores =
        bind-Yields (add_one texts (analog_document i a r) stores.0) (λ x.
          after-Yields
            (λ y w.
              subst (λ l. Added l w)
                (append_assoc texts (stored (analog_document i a r) ∷ [])
                  (map stored (analog_documents (suc i) analogs rs))))
            (add_each (texts ++ stored (analog_document i a r) ∷ []) (suc i) analogs rs
              (omega (arith, same)) stores.1))
