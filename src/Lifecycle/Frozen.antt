-- ===== src/Lifecycle/Frozen.antt =====
-- A completed appraisal and its comparables under the calls of the service.
use review_service.Prelude.{
  ◌≡◌, refl, ◌≢◌, ◌∙◌, true, false, List, ◌==◌, exists, Bool-cases, Option-cases, ◌⊎◌, inl, inr,
  arith,
}
use review_service.Domain.Appraisal.{Uuid, Appraisal, Comparable}
use review_service.Domain.Errors.{
  Error, not_found, conflict, forbidden, invalid_status, invalid_input, driver, Result, ok, err,
}
use review_service.World.{
  Env, IsStable, Keeps, call-Keeps, bind-Ensures, pure-Ensures, map_err-Ensures, now-Ensures,
  new_uuid-Ensures,
}
use review_service.World.Tables.{Shared, AppraisalRow}
use review_service.Repository
use review_service.Repository.Statements.{
  Columns, bind_columns, has_id, has_request, is_open, set_completed, set_columns, insert_row,
  insert_appraisal, delete_comparable_row,
}
use review_service.Relay.Steps.{IsAlone}
use review_service.Service
use review_service.Handler.Appraisals.Completing.{IsSettled, IsCompletion}
use review_service.Invariant.Framing.{IsFramed}
use review_service.Lifecycle.Comparables.{
  comparables_of, exists-map_where, exists-append, found-open, set_completed-shut,
  comparables_of-append, comparables_of-delete,
}

-- The appraisal is there and not in progress, and these are its comparables.
pub record IsFrozen (id : Uuid) (cs : List Comparable) (s : Shared) : Type 0 where
  pub there : exists (has_id id) s.appraisals ≡ true
  pub shut : exists (is_open id) s.appraisals ≡ false
  pub kept : comparables_of id s.comparables ≡ cs

module _ (env : Env) (alone : IsAlone env) (id : Uuid) (cs : List Comparable) where
  abbrev Frozen : Shared → Type 0
  Frozen = IsFrozen id cs

  with_rows :
      (s : Shared) (rows : List AppraisalRow)
      → exists (has_id id) rows ≡ exists (has_id id) s.appraisals
      → exists (is_open id) rows ≡ false
      → Frozen s
      → Frozen (record s { appraisals = rows })
  with_rows s rows same shut h = record { there = same ∙ h.there; shut = shut; kept = h.kept }

  Frozen-IsStable : IsStable env Frozen
  Frozen-IsStable k s h = rw (alone k s) h

  other_appraisal :
      (s : Shared) (other : Uuid)
      → exists (is_open other) s.appraisals ≡ true
      → Frozen s
      → other ≢ id
  other_appraisal s other opened h same =
      let clash : exists (is_open id) s.appraisals ≡ true = rw same at opened in
      ground (arith, h.shut, clash)

  pub Frozen-IsFramed : IsFramed env (λ other. other ≢ id) Frozen
  unfolding delete_comparable_row
  Frozen-IsFramed = record {
    stable = Frozen-IsStable;
    configs = λ s rows h. record { there = h.there; shut = h.shut; kept = h.kept };
    columns = λ s a c hit h.
        with_rows s _ (exists-map_where (has_id id) hit (set_columns a c) s.appraisals (λ x. refl))
          (exists-map_where (is_open id) hit (set_columns a c) s.appraisals (λ x. refl) ∙ h.shut) h;
    checks = λ s other row h e status.
        other_appraisal s other (found-open other s.appraisals row e status) h;
    added = λ s comp opened h. record {
      there = h.there;
      shut = h.shut;
      kept =
          comparables_of-append id s.comparables comp (other_appraisal s comp.appraisal_id opened h)
          ∙ h.kept;
    };
    deleted = λ s other comparable_id allowed h. record {
      there = h.there;
      shut = h.shut;
      kept = comparables_of-delete id other comparable_id s.comparables allowed ∙ h.kept;
    };
  }

  insert_row_kept :
      (a : Appraisal) (c : Columns) (s : Shared) → Frozen s → Frozen (insert_row a c s).1
  unfolding insert_row
  insert_row_kept a c s h = elim (Bool-cases (exists (has_request a.request_id) s.appraisals)) [
    | inl there ↦ rw there h
    | inr new ↦ elim (Bool-cases (exists (has_id a.id) s.appraisals)) [
      | inl taken ↦ rw (new, taken) h
      | inr fresh ↦
          let miss : (a.id == id) ≡ false = other_id fresh (Bool-cases (a.id == id)) in
          rw (new, fresh)
            (with_rows s _ (exists-append (has_id id) s.appraisals _ miss)
              (exists-append (is_open id) s.appraisals _ (rw miss refl) ∙ h.shut) h)
    ]
  ]
    where
      other_id :
          exists (has_id a.id) s.appraisals ≡ false
          → ((a.id == id) ≡ true) ⊎ ((a.id == id) ≡ false)
          → (a.id == id) ≡ false
      other_id fresh (inl same) =
          let e : a.id ≡ id = ground arith in
          let gone : exists (has_id id) s.appraisals ≡ false = rw e at fresh in
          absurd (ground (arith, h.there, gone))
      other_id fresh (inr miss) = miss

  insert_appraisal_kept :
      (a : Appraisal) (s : Shared) → Frozen s → Frozen (insert_appraisal env a s).1
  unfolding insert_appraisal
  insert_appraisal_kept a s h = elim (Option-cases (bind_columns env a)) [
    | inl refused ↦ rw (refused, insert_appraisal) h
    | inr (c, bound) ↦ rw (bound, insert_appraisal) (insert_row_kept a c s h)
  ]

  pub create_from_request-Frozen :
      (request_id : Uuid) → Keeps Frozen (Service.create_from_request env request_id)
  unfolding Service.create_from_request Repository.create
  create_from_request-Frozen request_id = bind-Ensures (now-Ensures env) (λ at.
      bind-Ensures (new_uuid-Ensures env) (λ new_id.
        let a = Service.new_appraisal new_id request_id at in
        map_err-Ensures Service.raw_error (
          bind-Ensures
            (call-Keeps env driver (insert_appraisal env a) Frozen-IsStable
              (insert_appraisal_kept a))
            (λ n. pure-Ensures {a = n == 1} (λ s h. h)))))

  completion-Frozen :
      (other : Uuid) (a : Appraisal) (s t : Shared)
      → IsCompletion env other a s t
      → Frozen s
      → Frozen t
  completion-Frozen other a s t c h =
      let (document, hit, e, _) = c.committed in
      rw e (record {
        there =
            exists-map_where (has_id id) (is_open other) (set_completed c.at) s.appraisals
              (λ x. refl)
            ∙ h.there;
        shut = set_completed-shut id other c.at s.appraisals h.shut;
        kept = h.kept;
      })

  pub settled-Frozen :
      (other : Uuid) (s : Shared) (r : Result Error Appraisal) (t : Shared)
      → IsSettled env other s r t
      → Frozen s
      → Frozen t
  settled-Frozen other s (ok a) t c h = completion-Frozen other a s t c h
  settled-Frozen other s (err driver) t (inl e) h = rw e h
  settled-Frozen other s (err driver) t (inr (a, c)) h = completion-Frozen other a s t c h
  settled-Frozen other s (err not_found) t e h = rw e h
  settled-Frozen other s (err forbidden) t e h = rw e h
  settled-Frozen other s (err invalid_status) t e h = rw e h
  settled-Frozen other s (err conflict) t e h = rw e h
  settled-Frozen other s (err invalid_input) t e h = rw e h
