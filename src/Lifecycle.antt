-- ===== src/Lifecycle.antt =====
-- The life of an appraisal in internal/service/appraisal.go, apart from tables and columns: it is
-- absent, open or closed, and each call makes at most one step.
pub mod Phases
pub mod Calls
pub mod Refinement
pub mod Comparables
pub mod Frozen
pub mod Freeze
pub mod Reporting
use review_service.Prelude.{◌≡◌, ◌≢◌, ◌⊎◌, List, [], ◌∷◌}
use review_service.Domain.Appraisal.{Uuid}
use review_service.Invariant.Traces.{Command, create_from_request, complete, handle}

pub data Phase : Type 0 where
  absent open_phase closed : Phase

abbrev pub Phases : Type 0
Phases = Uuid → Phase

abbrev pub Stays : Phases → Phases → Type 0
Stays p q = (id : Uuid) → q id ≡ p id

-- One appraisal moves from a phase to another.
pub record Moves (id : Uuid) (from to : Phase) (p q : Phases) : Type 0 where
  pub before : p id ≡ from
  pub after : q id ≡ to
  pub others : (other : Uuid) → other ≢ id → q other ≡ p other

-- What a call may do.
abbrev pub May : {F : Type 0} → Command F → Phases → Phases → Type 0
May (create_from_request request_id) p q =
    Stays p q ⊎ ((id : Uuid) × Moves id absent open_phase p q)
May (handle e) p q = Stays p q ⊎ ((id : Uuid) × Moves id absent open_phase p q)
May (complete id) p q = Stays p q ⊎ Moves id open_phase closed p q
May _ p q = Stays p q

-- What a sequence of calls may do.
abbrev pub MayAll : {F : Type 0} → List (Command F) → Phases → Phases → Type 0
MayAll [] p q = Stays p q
MayAll (c ∷ cs) p q = (middle : Phases) × May c p middle × MayAll cs middle q
