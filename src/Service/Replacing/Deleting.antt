-- ===== src/Service/Replacing/Deleting.antt =====
-- The deletions of `ApplyApartmentCalculation`, and what is kept on the way.
use review_service.Prelude.{
  ℕ, zero, suc, ◌≤◌, ◌≡◌, ◌≢◌, ◌∙◌, refl, String, true, false, List, [], ◌∷◌, ◌==◌, exists, all,
  map, arith,
}
use review_service.Domain.Appraisal.{Uuid, Comparable}
use review_service.Domain.Errors.{RepoError, Error, Result, ok, err}
use review_service.Domain.Floats.{Floats}
use review_service.World.{
  Env, World, IsCalm, Yields, pure, fail, ◌>>=◌, call, ignore, pure-Yields, bind-Yields,
  call-Yields, ignore_any-Yields,
}
use review_service.World.Tables.{Shared}
use review_service.Repository
use review_service.Repository.{unless_zero}
use review_service.Repository.Formulas.{Documents}
use review_service.Repository.Statements.{delete_comparable_row}
use review_service.Service.Apply.{delete_comparables}
use review_service.Service.Replacing.Removal.{is_covered, all-without, exists-without}
use review_service.Lifecycle.Comparables.{comparables_of, comparables_of-delete}

-- The UUIDs that are still to come are no ids of comparables.
abbrev pub HasFreshComparables : Env → World → Type 0
HasFreshComparables env w =
    (k : ℕ) → w.step ≤ k → exists (λ c. c.id == env.ids k) w.shared.comparables ≡ false

module _ (env : Env) (id : Uuid) (start : Shared) where
  -- On the way: the appraisals and the other appraisals' comparables are those of the start.
  pub record IsUnderway (w : World) : Type 0 where
    pub same : w.shared.appraisals ≡ start.appraisals
    pub fresh : HasFreshComparables env w
    pub kept :
        (other : Uuid)
        → id ≢ other
        → comparables_of other w.shared.comparables ≡ comparables_of other start.comparables

  abbrev pub Remaining : List Comparable → World → Type 0
  Remaining cs w = IsUnderway w × (all (is_covered id cs) w.shared.comparables ≡ true)

  -- With these documents in the comparables of the appraisal.
  abbrev pub WithDocuments : List String → World → Type 0
  WithDocuments texts w =
      IsUnderway w × (map (λ c. c.content) (comparables_of id w.shared.comparables) ≡ texts)

  pub later_of : (w : World) → IsUnderway w → IsUnderway (record w { step = suc w.step })
  later_of w u = record {
    same = u.same;
    fresh = λ k past. u.fresh k (omega (arith, past));
    kept = u.kept;
  }

module _ (env : Env) (calm : IsCalm env) (id : Uuid) (start : Shared) where
  abbrev Remains : List Comparable → World → Type 0
  Remains = Remaining env id start

  deleted :
      (c : Comparable) (cs : List Comparable) (w : World)
      → Remains (c ∷ cs) w
      → Remains cs
          (record { shared = (delete_comparable_row id c.id w.shared).1; step = suc w.step })
  unfolding delete_comparable_row
  deleted c cs w (u, covered) = (
    record {
      same = u.same;
      fresh = λ k past.
          exists-without (λ d. d.id == env.ids k) id c w.shared.comparables
            (u.fresh k (omega (arith, past)));
      kept =
          λ other ne. comparables_of-delete other id c.id w.shared.comparables ne ∙ u.kept other ne;
    },
    all-without id c cs w.shared.comparables covered,
  )

  delete_one :
      (c : Comparable) (cs : List Comparable)
      → Yields {E = Error}
          (Remains (c ∷ cs))
          (ignore (Repository.delete_comparable env id c.id))
          (λ x. Remains cs)
  unfolding Repository.delete_comparable delete_comparable_row
  delete_one c cs = ignore_any-Yields (Repository.delete_comparable env id c.id) (λ w h.
      let out = call env RepoError.driver (delete_comparable_row id c.id) w in
      let (n, e, left) = the_call.run w h in after out.0 out.1 left)
    where
      the_call :
          Yields
            (Remains (c ∷ cs))
            (call env RepoError.driver (delete_comparable_row id c.id))
            (λ n. Remains cs)
      the_call = call-Yields env calm _ _ (λ w h. (_, refl, deleted c cs w h))

      after :
          (r : Result RepoError ℕ) (w : World)
          → Remains cs w
          → let m : World → Result RepoError ℕ × World = λ _. (r, w) in
            Remains cs ((m >>= λ n. unless_zero env n (fail RepoError.not_found) (pure tt)) w).1
      after (ok zero) w h = h
      after (ok (suc n)) w h = h
      after (err e) w h = h

  module _ {F : Type 0} (ops : Floats F) (documents : Documents F) where
    pub delete_all :
        (cs : List Comparable)
        → Yields (Remains cs) (delete_comparables env ops documents id cs) (λ x. Remains [])
    unfolding delete_comparables
    delete_all [] = pure-Yields (λ w h. h)
    delete_all (c ∷ cs) = bind-Yields (delete_one c cs) (λ x. delete_all cs)
