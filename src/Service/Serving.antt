-- ===== src/Service/Serving.antt =====
-- The read with which the methods of internal/service/appraisal.go begin, while every call is served.
use review_service.Prelude.{suc, ◌≡◌, refl, ap, Option, some, none, some-injective, find}
use review_service.Domain.Appraisal.{Uuid, Appraisal}
use review_service.World.{
  Env, World, IsCalm, Yields, after-Yields, pure-Yields, map_err-Yields, bind-Yields, call-Yields,
}
use review_service.World.Tables.{Shared, AppraisalRow}
use review_service.Repository
use review_service.Repository.Statements.{has_id, select_by_id, scan_appraisal, select_comparables}
use review_service.Service

-- The row with the comparables of the tables.
abbrev pub whole : Uuid → AppraisalRow → Shared → Appraisal
whole id row s = record (scan_appraisal row) { comparables = select_comparables id s }

-- `P` says that the row is there, and does not read the clock alone.
module _ (env : Env) (calm : IsCalm env) (id : Uuid) (row : AppraisalRow) {P : World → Type 0}
    (later : (w : World) → P w → P (record w { step = suc w.step }))
    (found : (w : World) → P w → find (has_id id) w.shared.appraisals ≡ some row) where
  found-Yields :
      (o : Option AppraisalRow)
      → Yields (λ w. (o ≡ some row) × P w) (Repository.or_not_found o) (λ r w. (r ≡ row) × P w)
  found-Yields none = record { run = λ w (e, h). absurd (cc) }
  found-Yields (some r) = pure-Yields (λ w (e, h). (some-injective _ _ e, h))

  pub read-whole-Yields : Yields P (Service.read env id) (λ a w. (a ≡ whole id row w.shared) × P w)
  unfolding Repository.get_by_id Repository.list_comparables select_by_id
  read-whole-Yields = map_err-Yields Service.read_error (
      bind-Yields
        (bind-Yields
          (call-Yields env {Q = λ o w. (o ≡ some row) × P w} calm _ _
            (λ w h. (_, refl, (found w h, later w h))))
          found-Yields)
        (λ r.
          bind-Yields
            (call-Yields env {Q = λ cs w. (r ≡ row) × (cs ≡ select_comparables id w.shared) × P w}
              calm _ _ (λ w (same, h). (_, refl, (same, refl, later w h))))
            (λ cs.
              pure-Yields {a = record (scan_appraisal r) { comparables = cs }}
                (λ w (same, those, h). (rw (same, those) refl, h)))))

  pub read-Yields : Yields P (Service.read env id) (λ a w. (a.status ≡ row.status) × P w)
  read-Yields = after-Yields (λ a w (e, h). (ap (λ x. x.status) e, h)) read-whole-Yields
