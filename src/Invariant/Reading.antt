-- ===== src/Invariant/Reading.antt =====
-- `GetByID` of the repository while civil processes act: what its answer says of the row.
use review_service.Prelude.{◌≡◌, refl, Option, none, some, List, find, sym}
use review_service.Domain.Appraisal.{Uuid, Appraisal}
use review_service.Domain.Errors.{driver}
use review_service.World.Tables.{Shared, AppraisalRow}
use review_service.World.{
  Env, IsStable, Ensures, bind-Ensures, pure-Ensures, fail-Ensures, call-Ensures,
}
use review_service.Repository
use review_service.Repository.{or_not_found, query}
use review_service.Repository.Statements.{scan_appraisal, select_by_id, select_comparables, has_id}
use review_service.Invariant.Rows.{find-id}
use review_service.Invariant.History.{
  Evolves-trans, IsSuccessor, IsSuccessor-refl, IsSuccessor-trans,
}
use review_service.Invariant.WellFormed.{IsCivil, IsReached}
use review_service.Invariant.Statements.{IsSound}

-- The appraisal `a` that was read under `id`, and the row as it is now.
pub record IsSeen (id : Uuid) (a : Appraisal) (s : Shared) : Type 0 where
  pub origin : AppraisalRow
  pub current : AppraisalRow
  pub found : find (has_id id) s.appraisals ≡ some current
  pub later : IsSuccessor origin current
  pub read_id : a.id ≡ id
  pub read_request : a.request_id ≡ origin.request_id

abbrev pub without_comparables : Appraisal → Appraisal
without_comparables a = record a { comparables = List.[] }

pub IsSeen-columns :
    (id : Uuid) (a : Appraisal) (s : Shared) → IsSeen id (without_comparables a) s → IsSeen id a s
IsSeen-columns id a s h = record {
  origin = h.origin;
  current = h.current;
  found = h.found;
  later = h.later;
  read_id = h.read_id;
  read_request = h.read_request;
}

module _ (env : Env) (civil : IsCivil env) (start : Shared) where
  abbrev pub Reached : Shared → Type 0
  Reached = IsReached start

  pub sound-Reached : (s t : Shared) → Reached s → IsSound s t → Reached t
  sound-Reached s t r h = record {
    formed = h.formed;
    evolved = Evolves-trans start.appraisals s.appraisals t.appraisals r.evolved h.evolves;
  }

  pub Reached-IsStable : IsStable env Reached
  Reached-IsStable k s r = record {
    formed = civil.keeps k s r.formed;
    evolved =
        Evolves-trans start.appraisals s.appraisals (env.others k s).appraisals r.evolved
          (civil.evolves k s r.formed);
  }

  pub IsSeen-IsStable : (id : Uuid) (a : Appraisal) → IsStable env (λ s. Reached s × IsSeen id a s)
  IsSeen-IsStable id a k s (r, h) =
      let (next, e, step) = civil.evolves k s r.formed id h.current h.found in
      (
        Reached-IsStable k s r,
        record {
          origin = h.origin;
          current = next;
          found = e;
          later = IsSuccessor-trans h.later step;
          read_id = h.read_id;
          read_request = h.read_request;
        },
      )

  pub scan-IsSeen :
      (id : Uuid) (s : Shared) (row : AppraisalRow)
      → find (has_id id) s.appraisals ≡ some row
      → IsSeen id (scan_appraisal row) s
  scan-IsSeen id s row e = record {
    origin = row;
    current = row;
    found = e;
    later = IsSuccessor-refl row;
    read_id = find-id id s.appraisals row e;
    read_request = refl;
  }

  -- A query changes nothing.
  pub query-Ensures :
      {A : Type 0} {P : Shared → Type 0} (f : Shared → A)
      → IsStable env P
      → ((s : Shared) → P s → Reached s)
      → Ensures Reached P (query env f) (λ a s. P s × (a ≡ f s))
  query-Ensures f stable weaken =
      call-Ensures env driver _ stable weaken (λ s p. weaken s p) (λ s p. (p, refl))

  -- `GetByID`, for a condition `X` on the columns read that civil processes do not break.
  module _ (id : Uuid) (X : Appraisal → Shared → Type 0)
      (stable : (a : Appraisal) → IsStable env (λ s. Reached s × X a s))
      (reads : (s : Shared) (row : AppraisalRow)
        → find (has_id id) s.appraisals ≡ some row
        → X (scan_appraisal row) s) where
    row-Ensures :
        (found : Option AppraisalRow)
        → Ensures Reached
            (λ s. Reached s × (found ≡ select_by_id id s))
            (or_not_found found)
            (λ row s. Reached s × X (scan_appraisal row) s)
    unfolding select_by_id
    row-Ensures none = fail-Ensures (λ s h. h.0)
    row-Ensures (some row) = pure-Ensures (λ s (r, e). (r, reads s row (sym e)))

    pub get_by_id-Ensures :
        Ensures Reached Reached
          (Repository.get_by_id env id)
          (λ a s. Reached s × X (without_comparables a) s)
    unfolding Repository.get_by_id
    get_by_id-Ensures =
        bind-Ensures
          (bind-Ensures (query-Ensures (select_by_id id) Reached-IsStable (λ s r. r)) row-Ensures)
          (λ row.
            bind-Ensures
              (query-Ensures (select_comparables id) (stable (scan_appraisal row)) (λ s h. h.0))
              (λ comparables. pure-Ensures (λ s (h, _). h)))
