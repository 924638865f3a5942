-- ===== src/Invariant/WellFormed.antt =====
-- The invariant of the tables.
use review_service.Prelude.{
  ℕ, ◌<◌, ◌≡◌, Bool, Option, none, some, List, [], ◌∷◌, ◌&&◌, ◌==◌, str_eq, count, All,
}
use review_service.Domain.Appraisal.{Uuid, Time, Status, in_progress, completed}
use review_service.Domain.Events.{topic_review_events, event_type_report_ready}
use review_service.World.Tables.{Shared, OutboxRow}
use review_service.World.{Env}
use review_service.Invariant.Rows.{IsUnique, is_closed_of}
use review_service.Invariant.History.{Evolves}

-- `completed_at` is set exactly on completed rows.
abbrev pub IsDated : Status → Option Time → Type 0
IsDated in_progress none = Unit
IsDated in_progress (some t) = ⊥
IsDated completed none = ⊥
IsDated completed (some t) = Unit

-- A `report.ready` event of a request, published or not.
abbrev pub is_report_of : Uuid → OutboxRow → Bool
is_report_of request_id row =
    row.aggregate_id == request_id
    && (str_eq row.topic topic_review_events && str_eq row.event_type event_type_report_ready)

-- The ids of the outbox grow along the table and stay below `next`.
abbrev pub IsAscending : ℕ → List OutboxRow → Type 0
IsAscending next [] = Unit
IsAscending next (x ∷ xs) = (x.id < next) × All (λ y. x.id < y.id) xs × IsAscending next xs

pub record IsWellFormed (s : Shared) : Type 0 where
  pub ids : IsUnique (λ r. r.id) s.appraisals
  pub requests : IsUnique (λ r. r.request_id) s.appraisals
  pub dated : All (λ r. IsDated r.status r.completed_at) s.appraisals
  -- As many `report.ready` events of a request as completed appraisals of it.
  pub agrees :
      (request_id : Uuid)
      → count (is_report_of request_id) s.outbox ≡ count (is_closed_of request_id) s.appraisals
  pub ascending : IsAscending s.next_outbox_id s.outbox

-- What is assumed of the other processes: they keep the invariant, and no row that they have not
-- left alone breaks the rule of `Evolves`.
pub record IsCivil (env : Env) : Type 0 where
  pub keeps : (k : ℕ) (s : Shared) → IsWellFormed s → IsWellFormed (env.others k s)
  pub evolves :
      (k : ℕ) (s : Shared) → IsWellFormed s → Evolves s.appraisals (env.others k s).appraisals

-- Well-formed, and reached from `start` by the rule of `Evolves`.
pub record IsReached (start : Shared) (s : Shared) : Type 0 where
  pub formed : IsWellFormed s
  pub evolved : Evolves start.appraisals s.appraisals
