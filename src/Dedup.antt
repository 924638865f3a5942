-- ===== src/Dedup.antt =====
-- internal/dedup/redis.go: `Deduplicator`, over the keys in Redis. A key's expiry is an act of the other
-- processes.
use Prim.Native.String.{◌++◌}
use review_service.Prelude.{String, Bool, ◌∷◌, exists, str_eq}
use review_service.Domain.Errors.{Error, ok}
use review_service.World.{Env, Action, call}
use review_service.World.Tables.{Shared}

abbrev pub key_prefix : String
key_prefix = "review:dedup:"

abbrev pub dedup_key : String → String
dedup_key event_id = key_prefix ++ event_id

-- `EXISTS` on the key.
abbrev pub has_mark : String → Shared → Bool
has_mark event_id s = exists (λ key. str_eq key (dedup_key event_id)) s.marks

abbrev pub with_mark : String → Shared → Shared
with_mark event_id s = record s { marks = dedup_key event_id ∷ s.marks }

unfoldable pub seen : Env → String → Action Error Bool
seen env event_id = call env Error.driver (λ s. (ok (has_mark event_id s), s))

unfoldable pub mark : Env → String → Action Error (Unit {0})
mark env event_id = call env Error.driver (λ s. (ok tt, with_mark event_id s))
