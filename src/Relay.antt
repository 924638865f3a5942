-- ===== src/Relay.antt =====
-- internal/outbox/relay.go and internal/outbox/producer.go. Of `Run` the ticks before it is stopped are a
-- number; the context that survives a shutdown is that of the mark.
pub mod Steps
pub mod Progress
pub mod Marking
pub mod Delivery
pub mod Draining
use review_service.Prelude.{
  ℕ, zero, suc, String, Bool, true, false, List, [], ◌∷◌, ◌++◌, ◌==◌, not, leb, filter, map_where,
  take, sort_by, ◌<◌,
}
use review_service.Domain.Errors.{Error, Result, ok}
use review_service.World.{Env, Action, pure, ◌>>=◌, ◌>>◌, World, call}
use review_service.World.Tables.{Shared, OutboxRow, Message}

abbrev pub batch_size : ℕ
batch_size = 100

-- `WHERE published_at IS NULL ORDER BY id LIMIT $1`.
unfoldable pub select_unpublished : Shared → List OutboxRow
select_unpublished s =
    take batch_size (sort_by (λ a b. leb a.id b.id) (filter (λ row. not row.published) s.outbox))

module _ (env : Env) where
  -- The Kafka message of a row: the key is the text of the aggregate's id.
  abbrev pub to_message : OutboxRow → Message
  to_message row = record {
    topic = row.topic;
    key = env.uuid_text row.aggregate_id;
    value = row.payload;
  }

  abbrev pub with_message : OutboxRow → Shared → Shared
  with_message row s = record s { log = s.log ++ to_message row ∷ [] }

  -- `Producer.Publish`: it returns once the brokers have the message.
  unfoldable pub publish : OutboxRow → Action Error (Unit {0})
  publish row = call env Error.driver (λ s. (ok tt, with_message row s))

  abbrev pub set_published : OutboxRow → OutboxRow
  set_published row = record row { published = true }

  abbrev pub with_published : ℕ → Shared → Shared
  with_published id s = record s { outbox = map_where (λ row. row.id == id) set_published s.outbox }

  -- `UPDATE outbox SET published_at = NOW() WHERE id = $1`.
  unfoldable pub mark_published : ℕ → Action Error (Unit {0})
  mark_published id = call env Error.driver (λ s. (ok tt, with_published id s))

  -- The loop over the batch: the first error ends it.
  unfoldable pub publish_rows : List OutboxRow → Action Error (Unit {0})
  publish_rows [] = pure tt
  publish_rows (row ∷ rows) =
      let rest = publish_rows rows in publish row >> (mark_published row.id >> rest)

  unfoldable pub publish_batch : Action Error (Unit {0})
  publish_batch = do
    batch ← call env Error.driver (λ s. (ok (select_unpublished s), s))
    publish_rows batch

  -- `Run`, for a number of ticks: the error of a batch is only logged.
  unfoldable pub run : ℕ → World → World
  run zero w = w
  run (suc ticks) w = run ticks (publish_batch w).1
