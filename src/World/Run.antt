-- ===== src/World/Run.antt =====
-- The world, its environment, and the actions that run in it.
use review_service.Prelude.{ℕ, suc, String, Option}
use review_service.Domain.Appraisal.{Uuid, Time}
use review_service.Domain.Events.{EventEnvelope}
use review_service.Domain.Errors.{Result, ok, err}
use review_service.World.Tables.{Shared}

-- What happens to a call: it is served, it fails before it has an effect, or it has its effect and
-- the caller sees an error.
pub data Fate : Type 0 where
  served failed lost : Fate

-- The environment, indexed by the step at which it is asked. `numeric` is Postgres' coercion of a text
-- to NUMERIC(15,2) and back, `jsonb` that to JSONB and back, with `none` for an error;
-- `marshal_event` is `json.Marshal`, and `uuid_text` is `uuid.UUID.String`.
pub record Env : Type 0 where
  pub ticks : ℕ → Time
  pub ids : ℕ → Uuid
  pub fate : ℕ → Fate
  pub others : ℕ → Shared → Shared
  pub numeric : String → Option String
  pub jsonb : String → Option String
  pub marshal_event : EventEnvelope → Option String
  pub uuid_text : Uuid → String

pub record World : Type 0 where
  pub shared : Shared
  pub step : ℕ

-- An operation that may return an error.
abbrev pub Action : Type 0 → Type 0 → Type 0
Action E A = World → Result E A × World

module _ {E A : Type 0} where
  abbrev pub pure : A → Action E A
  pure a w = (ok a, w)

  abbrev pub fail : E → Action E A
  fail e w = (err e, w)

infixl 5 ◌>>=◌ ◌>>◌
abbrev pub ◌>>=◌ : {E A B : Type 0} → Action E A → (A → Action E B) → Action E B
◌>>=◌ m f w = let (r, w') = m w in elim r [ ok a ↦ f a w' | err e ↦ (err e, w') ]

abbrev pub ◌>>◌ : {E A B : Type 0} → Action E A → Action E B → Action E B
m >> k = m >>= λ _. k

-- `if err := …; err != nil { return f(err) }`.
abbrev pub map_err : {E F A : Type 0} → (E → F) → Action E A → Action F A
map_err f m w = let (r, w') = m w in elim r [ ok a ↦ (ok a, w') | err e ↦ (err (f e), w') ]

-- `if err != nil { return f(err) }` where `f` may call on.
abbrev pub recover : {E F A : Type 0} → Action E A → (E → Action F A) → Action F A
recover m f w = let (r, w') = m w in elim r [ ok a ↦ (ok a, w') | err e ↦ f e w' ]

-- `_ = …` and `_, _ = …`: the error is dropped.
abbrev pub ignore : {E F A : Type 0} → Action E A → Action F (Unit {0})
ignore m w = let (r, w') = m w in (ok tt, w')

-- One call on the shared state. `offline` is the error that a failed call returns.
abbrev pub answer : {E A : Type 0} → Fate → E → Result E A × Shared → Shared → Result E A × Shared
answer served offline (r, s') s = (r, s')
answer failed offline (r, s') s = (err offline, s)
answer lost offline (r, s') s = (err offline, s')

module _ (env : Env) where
  unfoldable pub call : {E A : Type 0} → E → (Shared → Result E A × Shared) → Action E A
  call offline f w =
      let s = env.others w.step w.shared in
      let (r, s') = answer (env.fate w.step) offline (f s) s in
      (r, record { shared = s'; step = suc w.step })

  -- `time.Now()` and `uuid.New()`.
  abbrev pub now : {E : Type 0} → Action E Time
  now w = (ok (env.ticks w.step), record w { step = suc w.step })

  abbrev pub new_uuid : {E : Type 0} → Action E Uuid
  new_uuid w = (ok (env.ids w.step), record w { step = suc w.step })

-- A transaction works on a copy of the shared state; its statements take steps of their own.
abbrev pub Tx : Type 0 → Type 0 → Type 0
Tx E A = Shared → ℕ → Result E A × Shared × ℕ

module _ {E A : Type 0} where
  abbrev pub tx_pure : A → Tx E A
  tx_pure a s k = (ok a, s, k)

  abbrev pub tx_fail : E → Tx E A
  tx_fail e s k = (err e, s, k)

abbrev pub tx_bind : {E A B : Type 0} → Tx E A → (A → Tx E B) → Tx E B
tx_bind m f s k = let (r, s', k') = m s k in elim r [ ok a ↦ f a s' k' | err e ↦ (err e, s', k') ]

-- What `Commit` leaves: the copy, or the state before the transaction.
abbrev pub commit : {E A : Type 0} → Fate → E → A → Shared → Shared → Result E A × Shared
commit served offline a s s' = (ok a, s')
commit failed offline a s s' = (err offline, s)
commit lost offline a s s' = (err offline, s')

-- A statement whose answer is lost fails like any other: the transaction is rolled back.
abbrev pub tx_answer :
    {E A : Type 0} → Fate → E → Result E A × Shared → Shared → ℕ → Result E A × Shared × ℕ
tx_answer served offline (r, s') s k = (r, s', suc k)
tx_answer failed offline (r, s') s k = (err offline, s, suc k)
tx_answer lost offline (r, s') s k = (err offline, s, suc k)

module _ (env : Env) where
  abbrev pub tx_call : {E A : Type 0} → E → (Shared → Result E A × Shared) → Tx E A
  tx_call offline f s k = tx_answer (env.fate k) offline (f s) s k

  -- The end of a transaction: the deferred `Rollback` if the body returned an error, or `Commit`.
  abbrev pub end_tx :
      {E A : Type 0} → E → Result E A → (before after : Shared) → ℕ → Result E A × World
  end_tx offline (err e) before after k = (err e, record { shared = before; step = k })
  end_tx offline (ok a) before after k =
      let (r, s) = commit (env.fate k) offline a before after in
      (r, record { shared = s; step = suc k })

  -- After `Begin`.
  abbrev pub run_tx : {E A : Type 0} → Fate → E → Tx E A → Action E A
  run_tx served offline body w =
      let (r, s, k) = body w.shared w.step in end_tx offline r w.shared s k
  run_tx _ offline body w = (err offline, w)

  -- The other processes act before `Begin`: the lock on the row that the transaction updates keeps
  -- them off till its end.
  unfoldable pub in_tx : {E A : Type 0} → E → Tx E A → Action E A
  in_tx offline body w =
      run_tx (env.fate w.step) offline body
        (record { shared = env.others w.step w.shared; step = suc w.step })
