-- ===== src/Service/Replacing.antt =====
-- The comparables that `ApplyApartmentCalculation` of internal/service/appraisal.go leaves, while every
-- call is served.
mod Removal
pub mod Deleting
mod Adding
use mathlib.Core.List.Perm as Permutation
use mathlib.Core.List.{Perm, map-append, append-nil, append_assoc}
use review_service.Prelude.{
  zero, ◌≤◌, ◌≡◌, ◌≢◌, String, Bool, false, List, ◌++◌, ◌==◌, exists, filter, count, map, inl, inr,
  Bool-cases, arith, if◌then◌else◌,
}
use review_service.Domain.Appraisal.{Uuid, Status, completed, Appraisal}
use review_service.Domain.Errors.{RepoError, Error, Result, err}
use review_service.Domain.Floats.{Floats}
use review_service.World.{
  World, pure, fail, ◌>>=◌, ◌>>◌, call, ignore, pure-Yields, after-Yields, map_err-Yields,
  call-Yields, now-Yields, new_uuid-Yields, ignore-Yields, ignore_any-Yields,
}
use review_service.World.Tables.{Shared, AppraisalRow}
use review_service.Repository
use review_service.Repository.{unless_zero}
use review_service.Repository.Statements.{
  scan_appraisal, select_comparables, is_comparable, delete_comparable_row, insert_comparable,
}
use review_service.Service
use review_service.Service.{require_in_progress, comparable}
use review_service.Service.Apply.{delete_comparables, add_comparables}
use review_service.Service.Replacing.Removal.{all-without, exists-without, comparables_of-add}
use review_service.Lifecycle.Comparables.{
  comparables_of, comparables_of-append, comparables_of-delete, exists-append, found-open,
}
use review_service.Service.Replacing.Deleting.{IsUnderway}

-- What the tables are after the comparables of an appraisal have been replaced by these documents, in
-- whatever order the table keeps its rows, and what is returned.
pub record IsReplaced (id : Uuid) (row : AppraisalRow) (texts : List String) (a : Appraisal)
    (s t : Shared) : Type 0 where
  pub appraisals : t.appraisals ≡ s.appraisals
  pub contents : Perm (map (λ c. c.content) (comparables_of id t.comparables)) texts
  pub returned : a ≡ record (scan_appraisal row) { comparables = select_comparables id t }
  pub others :
      (other : Uuid)
      → id ≢ other
      → comparables_of other t.comparables ≡ comparables_of other s.comparables
