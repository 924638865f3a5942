-- ===== src/Domain/Appraisal.antt =====
-- internal/domain/appraisal.go. A UUID is its 128-bit number, `uuid.Nil` is 0, and a time is a count
-- of ticks of the resolution that the database keeps. JSON documents are texts.
use review_service.Prelude.{ℕ, String, Bool, true, false, Option, List}

abbrev pub Uuid : Type 0
Uuid = ℕ

abbrev pub Time : Type 0
Time = ℕ

pub data Status : Type 0 where
  in_progress completed : Status

abbrev pub is_in_progress : Status → Bool
is_in_progress in_progress = true
is_in_progress completed = false

pub record Comparable : Type 0 where
  pub id : Uuid
  pub appraisal_id : Uuid
  pub content : String
  pub created_at : Time

pub record Appraisal : Type 0 where
  pub id : Uuid
  pub request_id : Uuid
  pub appraiser_id : Option Uuid
  pub status : Status
  pub notes : Option String
  pub market_value : Option String
  pub report_s3_key : Option String
  pub comparables : List Comparable
  pub calculation_data : Option String
  pub completed_at : Option Time
  pub created_at : Time
  pub updated_at : Time
