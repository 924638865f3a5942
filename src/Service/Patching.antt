-- ===== src/Service/Patching.antt =====
-- `Update` of internal/service/appraisal.go and the read after it, while every call is served.
use review_service.Prelude.{◌≡◌, some, find, map_where}
use review_service.Domain.Appraisal.{Uuid, Time, in_progress, Appraisal}
use review_service.World.{Env, World, IsCalm}
use review_service.World.Tables.{Shared, AppraisalRow}
use review_service.Repository
use review_service.Repository.Statements.{
  Columns, has_id, bind_columns, is_unmodified, set_columns, scan_appraisal,
}
use review_service.Service
use review_service.Service.{UpdateInput, apply_input}
use review_service.Service.Serving.{whole}

module _ (env : Env) (calm : IsCalm env) (id : Uuid) (input : UpdateInput) (row : AppraisalRow)
    (c : Columns) (s : Shared) (found : find (has_id id) s.appraisals ≡ some row)
    (pending : row.status ≡ in_progress)
    (bound : bind_columns env (apply_input input 0 (scan_appraisal row)) ≡ some c) where
  -- What is read, what is written, and the tables then.
  abbrev read_here : Appraisal
  read_here = whole id row s

  abbrev patched : Time → Appraisal
  patched at = apply_input input at read_here

  abbrev written : Time → Shared
  written at = record s {
    appraisals =
        map_where (is_unmodified row.id row.updated_at) (set_columns (patched at) c) s.appraisals;
  }

  abbrev At : Shared → World → Type 0
  At t w = w.shared ≡ t

  -- What `Update` leaves and returns.
  abbrev IsPatched : Appraisal → World → Type 0
  IsPatched a w = (at : Time) × (a ≡ patched at) × At (written at) w

  new_row : Time → AppraisalRow
  new_row at = set_columns (patched at) c row
