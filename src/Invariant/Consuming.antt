-- ===== src/Invariant/Consuming.antt =====
-- A message of internal/kafka/consumer.go against the invariant.
use review_service.Prelude.{Bool, true, false, String}
use review_service.Domain.Errors.{Error}
use review_service.World.{Env, IsStable, Ensures, bind-Ensures, pure-Ensures, call-Ensures}
use review_service.World.Tables.{Shared}
use review_service.Service
use review_service.Dedup.{with_mark, seen, mark}
use review_service.Consumer.{InboundEnvelope, unless_seen, handle}
use review_service.Invariant.WellFormed.{IsReached}

-- A condition that does not read the marks.
abbrev pub IgnoresMarks : (Shared → Type 0) → Type 0
IgnoresMarks P = (event_id : String) (s : Shared) → P s → P (with_mark event_id s)

pub IsReached-IgnoresMarks : (start : Shared) → IgnoresMarks (IsReached start)
IsReached-IgnoresMarks start event_id s r = record {
  formed = record {
    ids = r.formed.ids;
    requests = r.formed.requests;
    dated = r.formed.dated;
    agrees = r.formed.agrees;
    ascending = r.formed.ascending;
  };
  evolved = r.evolved;
}

-- From what the creation does to what the whole message does.
module _ (env : Env) {P Q : Shared → Type 0} (before : IsStable env P) (after : IsStable env Q)
    (weaken : (s : Shared) → P s → Q s) (ignores : IgnoresMarks Q) (e : InboundEnvelope)
    (creation : Ensures Q P (Service.create_from_request env e.request_id) (λ created. Q)) where
  marking : Ensures Q Q (mark env (env.uuid_text e.event_id)) (λ x. Q)
  unfolding mark
  marking =
      let marked = λ (s : Shared). ignores (env.uuid_text e.event_id) s in
      call-Ensures env Error.driver _ after (λ s h. h) marked marked

  unless_seen-Ensures : (dup : Bool) → Ensures Q P (unless_seen env dup e) (λ x. Q)
  unless_seen-Ensures true = pure-Ensures weaken
  unless_seen-Ensures false = bind-Ensures creation (λ created. marking)

  pub handle-Ensures : Ensures Q P (handle env e) (λ x. Q)
  unfolding handle seen
  handle-Ensures =
      bind-Ensures (call-Ensures env {Q = λ dup. P} Error.driver _ before weaken weaken (λ s h. h))
        unless_seen-Ensures
