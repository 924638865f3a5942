-- ===== src/Consumer.antt =====
-- internal/kafka/consumer.go: `process` and the loop of `Run`. Decoding JSON is a parameter.
pub mod Presence
pub mod Trust
pub mod Handling
pub mod Redelivery
pub mod Stopping
pub mod Progress
use review_service.Prelude.{
  ℕ, suc, String, Bool, true, false, Option, none, some, List, [], ◌∷◌, ◌++◌, ◌==◌, if◌then◌else◌,
  str_eq, not,
}
use review_service.Domain.Appraisal.{Uuid}
use review_service.Domain.Errors.{Error, Result, ok, err}
use review_service.World.{Env, World, Fate, Action, pure, ◌>>=◌, ◌>>◌, call}
use review_service.Service
use review_service.Dedup.{seen, mark}

abbrev pub event_type_request_status_changed : String
event_type_request_status_changed = "request.status_changed"

abbrev pub status_appraisal : String
status_appraisal = "appraisal"

pub record InboundEnvelope : Type 0 where
  pub event_id : Uuid
  pub event_type : String
  pub request_id : Uuid
  pub content : String

-- `json.Unmarshal` into the envelope, and of its data into `new_status`.
pub record Codec : Type 0 where
  pub decode_envelope : String → Option InboundEnvelope
  pub decode_status : String → Option String

module _ (env : Env) where
  abbrev pub unless_seen : Bool → InboundEnvelope → Action Error (Unit {0})
  unless_seen true e = pure tt
  unless_seen false e =
      Service.create_from_request env e.request_id >> mark env (env.uuid_text e.event_id)

  -- check-dup, create, mark.
  unfoldable pub handle : InboundEnvelope → Action Error (Unit {0})
  handle e = do dup ← seen env (env.uuid_text e.event_id); unless_seen dup e

module _ (env : Env) (codec : Codec) where
  -- The event of a message that is to be handled; the others are skipped.
  unfoldable pub relevant : String → Option InboundEnvelope
  relevant value = elim (codec.decode_envelope value) [
    | none ↦ none
    | some e ↦
        if not (str_eq e.event_type event_type_request_status_changed)
        then none
        else if e.event_id == 0
        then none
        else elim (codec.decode_status e.content) [
          | none ↦ none
          | some status ↦ if str_eq status status_appraisal then some e else none
        ]
  ]

  unfoldable pub process : String → Action Error (Unit {0})
  process value = elim (relevant value) [ none ↦ pure tt | some e ↦ handle env e ]

  -- `CommitMessages`; the offset may be committed while the answer is lost.
  unfoldable pub commit_message : String → Action Error (Unit {0})
  commit_message value =
      call env Error.driver (λ s. (ok tt, record s { commits = s.commits ++ value ∷ [] }))

  -- `FetchMessage`, where there is a message.
  unfoldable pub fetch_message : String → Action Error String
  fetch_message value = call env Error.driver (λ s. (ok value, s))

-- How `Run` ends: the number of commits that were acknowledged, what it returns, and the world then.
pub record Stop : Type 0 where
  pub committed : ℕ
  pub result : Result Error (Unit {0})
  pub world : World

-- `ctx.Err() != nil`, by the step at which it is asked.
abbrev pub Cancelled : Type 0
Cancelled = ℕ → Bool

-- `if ctx.Err() != nil { return nil }; return err`.
abbrev pub stop_unless_cancelled : Cancelled → Error → World → Stop
stop_unless_cancelled cancelled e w = record {
  committed = 0;
  result = if cancelled w.step then ok tt else err e;
  world = w;
}

-- The body of the loop, from the results of the three calls and what the rest of the loop does.
abbrev pub goes_on :
    {A : Type 0}
    → Cancelled
    → Result Error A × World
    → Result Error (Unit {0}) × World
    → Result Error (Unit {0}) × World
    → Stop
    → Stop
goes_on cancelled (err e, w) processed committed rest = stop_unless_cancelled cancelled e w
goes_on cancelled (ok _, _) (err e, w) committed rest = record {
  committed = 0;
  result = err e;
  world = w;
}
goes_on cancelled (ok _, _) (ok _, _) (err e, w) rest = stop_unless_cancelled cancelled e w
goes_on cancelled (ok _, _) (ok _, _) (ok _, _) rest = record rest {
  committed = suc rest.committed;
}

module _ (env : Env) (codec : Codec) (cancelled : Cancelled) where
  -- The loop of `Run` over the messages that are there; after them `FetchMessage` returns an error. A
  -- commit whose answer is lost may stand, but then the loop stops too.
  unfoldable pub run : List String → World → Stop
  run [] w = stop_unless_cancelled cancelled Error.driver w
  run (value ∷ values) w =
      let fetched = fetch_message env codec value w in
      let processed = process env codec value fetched.1 in
      let committed = commit_message env codec value processed.1 in
      let rest = run values committed.1 in goes_on cancelled fetched processed committed rest
