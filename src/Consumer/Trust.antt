-- ===== src/Consumer/Trust.antt =====
-- What is said of the messages and marks of internal/kafka/consumer.go, and assumed of the other processes.
use review_service.Prelude.{ℕ, String, ◌≡◌, true, some, All}
use review_service.Domain.Appraisal.{Uuid}
use review_service.World.Tables.{Shared}
use review_service.World.{Env}
use review_service.Dedup.{has_mark}
use review_service.Consumer.{InboundEnvelope, Codec, relevant}
use review_service.Invariant.WellFormed.{IsWellFormed, IsCivil}
use review_service.Consumer.Presence.{IsPresent}

-- If a message asks for an appraisal, it is there.
abbrev pub IsHandled : Env → Codec → String → Shared → Type 0
IsHandled env codec value s =
    (e : InboundEnvelope) → relevant env codec value ≡ some e → IsPresent e.request_id s

-- Of a message: its event belongs to the request that `request_of` names.
abbrev pub IsOwned : Env → Codec → (Uuid → Uuid) → String → Type 0
IsOwned env codec request_of value =
    (e : InboundEnvelope) → relevant env codec value ≡ some e → e.request_id ≡ request_of e.event_id

-- Each message that has been committed and asks for an appraisal has it.
abbrev pub CommitsHold : Env → Codec → Shared → Type 0
CommitsHold env codec s = All (λ value. IsHandled env codec value s) s.commits

-- A marked event has its appraisal.
abbrev pub MarksHold : Env → (Uuid → Uuid) → Shared → Type 0
MarksHold env request_of s =
    (event_id : Uuid)
    → has_mark (env.uuid_text event_id) s ≡ true
    → IsPresent (request_of event_id) s

module _ (env : Env) (codec : Codec) (request_of : Uuid → Uuid) where
  -- What is assumed: civil processes that mark and commit only what they have handled, and UUIDs that differ in
  -- their texts.
  pub record IsTrusted : Type 0 where
    pub civil : IsCivil env
    pub marks :
        (k : ℕ) (s : Shared)
        → IsWellFormed s
        → MarksHold env request_of s
        → MarksHold env request_of (env.others k s)
    pub commits :
        (k : ℕ) (s : Shared)
        → IsWellFormed s
        → CommitsHold env codec s
        → CommitsHold env codec (env.others k s)
    pub distinct : (a b : Uuid) → env.uuid_text a ≡ env.uuid_text b → a ≡ b
