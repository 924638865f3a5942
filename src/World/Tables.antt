-- ===== src/World/Tables.antt =====
-- The tables of migrations/*.up.sql, the Redis keys and the Kafka log.
use review_service.Prelude.{ℕ, String, Bool, Option, List}
use review_service.Domain.Appraisal.{Uuid, Time, Status, Comparable}

-- A row of `appraisals`: the columns of an `Appraisal`; comparables are no column.
pub record AppraisalRow : Type 0 where
  pub id : Uuid
  pub request_id : Uuid
  pub appraiser_id : Option Uuid
  pub status : Status
  pub notes : Option String
  pub market_value : Option String
  pub report_s3_key : Option String
  pub calculation_data : Option String
  pub completed_at : Option Time
  pub created_at : Time
  pub updated_at : Time

-- A row of `outbox`; `published` says that `published_at` is not null.
pub record OutboxRow : Type 0 where
  pub id : ℕ
  pub event_id : Uuid
  pub topic : String
  pub event_type : String
  pub aggregate_id : Uuid
  pub payload : String
  pub published : Bool

-- A row of `formula_configs`.
pub record ConfigRow : Type 0 where
  pub id : String
  pub config : String
  pub updated_at : Time
  pub updated_by : Option String

-- A message on the Kafka topic.
pub record Message : Type 0 where
  pub topic : String
  pub key : String
  pub value : String

-- All that the processes share. `next_outbox_id` is the identity column's counter, `marks` are the
-- keys in Redis, `log` is what the brokers have acknowledged, oldest first, and `commits` are the messages
-- whose offsets the consumer's group has committed, in the order of the commits.
pub record Shared : Type 0 where
  pub appraisals : List AppraisalRow
  pub comparables : List Comparable
  pub outbox : List OutboxRow
  pub next_outbox_id : ℕ
  pub formula_configs : List ConfigRow
  pub marks : List String
  pub log : List Message
  pub commits : List String
