-- ===== src/Tests/Setup.antt =====
-- The environments and tables at which the model is run.
use Prim.Native.String.{◌++◌, len}
use text.Mathlib.TextLemmas.{append_cancel_left}
use text.Mathlib.TextPositions.{len-append}
use review_service.Prelude.{
  ℕ, zero, suc, ◌+◌, String, ◌≡◌, refl, sym, ap, none, some, List, [], ◌∷◌, ◌++◌ as ◌+++◌, arith,
  ◌==◌, if◌then◌else◌, find, exists, Bool-cases, inl, inr,
}
use review_service.Domain.Appraisal.{Uuid, Time, Appraisal, in_progress, completed}
use review_service.Repository.Statements.{
  has_id, has_request, insert_appraisal, insert_row, bind_columns,
}
use review_service.Service.{new_appraisal}
use review_service.Invariant.Statements.{AvoidsStamp, insert_appraisal-IsSound}
use review_service.World.Tables.{Shared, AppraisalRow}
use review_service.World.{Env, World, Fate, served, failed, lost}
use review_service.Storage.{StubStorage}
use review_service.Service.{UpdateInput}
use review_service.Consumer.{InboundEnvelope}
use review_service.Invariant.History.{Evolves-refl}
use review_service.Invariant.WellFormed.{IsWellFormed, IsCivil}

abbrev pub unary : ℕ → String
unary zero = ""
unary (suc n) = "1" ++ unary n

unary_ne : (n : ℕ) → "" ≡ "1" ++ unary n → ⊥
unary_ne n e = omega (arith, ap len e, len-append "1" (unary n))

pub unary-injective : (a b : ℕ) → unary a ≡ unary b → a ≡ b
unary-injective zero zero e = refl
unary-injective zero (suc b) e = absurd (unary_ne b e)
unary-injective (suc a) zero e = absurd (unary_ne a (sym e))
unary-injective (suc a) (suc b) e = ap suc (unary-injective a b (append_cancel_left "1" _ _ e))

-- The third call fails, and the tenth loses its answer.
abbrev pub fates : ℕ → Fate
fates n = if n == 2 then failed else if n == 9 then lost else served

abbrev pub env : Env
env = record {
  ticks = λ k. 100 + k;
  ids = λ k. 1000 + k;
  fate = λ k. served;
  others = λ k s. s;
  numeric = λ text. some text;
  jsonb = λ text. some text;
  marshal_event = λ event. some "{}";
  uuid_text = unary;
}

-- The same with calls that fail and a call whose answer is lost.
abbrev pub faulty : Env
faulty = record env { fate = fates }

abbrev pub store : StubStorage
store = record { endpoint = "http://store"; bucket = "reports" }

abbrev pub row : AppraisalRow
row = record {
  id = 7;
  request_id = 5;
  appraiser_id = none;
  status = in_progress;
  notes = none;
  market_value = none;
  report_s3_key = none;
  calculation_data = none;
  completed_at = none;
  created_at = 3;
  updated_at = 3;
}

abbrev pub tables : Shared
tables = record {
  appraisals = row ∷ [];
  comparables = [];
  outbox = [];
  next_outbox_id = 1;
  formula_configs = [];
  marks = [];
  log = [];
  commits = [];
}

abbrev pub start : World
start = record { shared = tables; step = 0 }

pub tables-IsWellFormed : IsWellFormed tables
tables-IsWellFormed = record {
  ids = (tt, tt);
  requests = (tt, tt);
  dated = (tt, tt);
  agrees = λ request_id. ground arith;
  ascending = tt;
}

pub env-IsCivil : IsCivil env
env-IsCivil = record { keeps = λ k s v. v; evolves = λ k s v. Evolves-refl s.appraisals }

pub faulty-IsCivil : IsCivil faulty
faulty-IsCivil = record { keeps = λ k s v. v; evolves = λ k s v. Evolves-refl s.appraisals }

-- Another process that inserts an appraisal before every call.
abbrev foreign : ℕ → Appraisal
foreign k = new_appraisal (2000 + k) (3000 + k) k

abbrev pub busy : Env
busy = record faulty { others = λ k s. (insert_appraisal env (foreign k) s).1 }

pub busy-IsCivil : IsCivil busy
busy-IsCivil = record {
  keeps = λ k s v. (insert_appraisal-IsSound env (foreign k) s v refl).formed;
  evolves = λ k s v. (insert_appraisal-IsSound env (foreign k) s v refl).evolves;
}

closed-found :
    (id : Uuid) (rows : List AppraisalRow) (new row : AppraisalRow)
    → new.status ≡ in_progress
    → find (has_id id) (rows +++ new ∷ []) ≡ some row
    → row.status ≡ completed
    → find (has_id id) rows ≡ some row
closed-found id [] new row fresh e done = absurd (ground arith)
closed-found id (x ∷ xs) new row fresh e done = ground (arith, closed-found id xs new row)

-- The other process completes nothing.
pub busy-AvoidsStamp : (id : Uuid) (u : Time) → AvoidsStamp busy id u
unfolding insert_appraisal insert_row bind_columns
busy-AvoidsStamp id u k s opened =
    elim (Bool-cases (exists (has_request (3000 + k)) s.appraisals)) [
      | inl there ↦ rw there opened
      | inr new ↦ elim (Bool-cases (exists (has_id (2000 + k)) s.appraisals)) [
        | inl taken ↦ rw (new, taken) opened
        | inr fresh ↦
            rw (new, fresh)
              (λ row e done. opened row (closed-found id s.appraisals _ row refl e done) done)
      ]
    ]

abbrev pub input : UpdateInput
input = record { appraiser_id = some 42; notes = none; market_value = some "10.00" }

abbrev pub inbound : InboundEnvelope
inbound = record {
  event_id = 9;
  event_type = "request.status_changed";
  request_id = 6;
  content = "{}";
}
