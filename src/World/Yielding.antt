-- ===== src/World/Yielding.antt =====
-- Rules for actions that return a value and no error, while every call is served and no other process
-- is at work.
use review_service.Prelude.{ℕ, suc, ◌≡◌, refl, ap}
use review_service.Domain.Appraisal.{Uuid, Time}
use review_service.Domain.Errors.{Result, ok}
use review_service.World.Tables.{Shared}
use review_service.World.Run.{
  Env, World, Action, served, pure, ◌>>=◌, map_err, call, now, new_uuid, Tx, tx_bind, tx_call,
  ignore,
}

-- From `P` the action returns some value, and `Q` holds of it and of the world after it.
pub record Yields {E A : Type 0} (P : World → Type 0) (m : Action E A) (Q : A → World → Type 0)
    : Type 0 where
  pub run : (w : World) → P w → (a : A) × ((m w).0 ≡ ok a) × Q a (m w).1

module _ {E A : Type 0} (Q : A → World → Type 0) where
  mapped :
      {F : Type 0} (g : E → F) (r : Result E A) (w : World) (a : A)
      → r ≡ ok a
      → Q a w
      → let m : Action E A = λ _. (r, w) in ((map_err g m w).0 ≡ ok a) × Q a (map_err g m w).1
  mapped g r w a e q = rw e (refl, q)

module _ {E A B : Type 0} (S : B → World → Type 0) where
  bound :
      (f : A → Action E B) (r : Result E A) (w : World) (a : A)
      → r ≡ ok a
      → (b : B) × ((f a w).0 ≡ ok b) × S b (f a w).1
      → let m : Action E A = λ _. (r, w) in (b : B) × (((m >>= f) w).0 ≡ ok b) × S b ((m >>= f) w).1
  bound f r w a e h = rw e h

module _ {E A : Type 0} {P : World → Type 0} {Q : A → World → Type 0} where
  pub pure-Yields : {a : A} → ((w : World) → P w → Q a w) → Yields {E = E} P (pure a) Q
  pure-Yields {a} h = record { run = λ w p. (a, refl, h w p) }

  pub before-Yields :
      {P' : World → Type 0} {m : Action E A}
      → ((w : World) → P' w → P w)
      → Yields P m Q
      → Yields P' m Q
  before-Yields h y = record { run = λ w p. y.run w (h w p) }

  pub map_err-Yields :
      {F : Type 0} (g : E → F) {m : Action E A} → Yields P m Q → Yields P (map_err g m) Q
  map_err-Yields g {m} y = record {
    run = λ w p.
        let (a, e, q) = y.run w p in let (e', q') = mapped Q g (m w).0 (m w).1 a e q in (a, e', q');
  }

pub after-Yields :
    {E A : Type 0} {P : World → Type 0} {Q R : A → World → Type 0} {m : Action E A}
    → ((a : A) (w : World) → Q a w → R a w)
    → Yields P m Q
    → Yields P m R
after-Yields {m} h y = record { run = λ w p. let (a, e, q) = y.run w p in (a, e, h a (m w).1 q) }

module _ {E A B : Type 0} {P : World → Type 0} {Q : A → World → Type 0}
    {S : B → World → Type 0} where
  pub bind-Yields :
      {m : Action E A} {f : A → Action E B}
      → Yields P m Q
      → ((a : A) → Yields (Q a) (f a) S)
      → Yields P (m >>= f) S
  bind-Yields {m} {f} y next = record {
    run =
        λ w p. let (a, e, q) = y.run w p in bound S f (m w).0 (m w).1 a e ((next a).run (m w).1 q);
  }

module _ (env : Env) where
  pub now-Yields :
      {E : Type 0} {P : World → Type 0} {Q : Time → World → Type 0}
      → ((w : World) → P w → Q (env.ticks w.step) (record w { step = suc w.step }))
      → Yields {E = E} P (now env) Q
  now-Yields h = record { run = λ w p. (env.ticks w.step, refl, h w p) }

  pub new_uuid-Yields :
      {E : Type 0} {P : World → Type 0} {Q : Uuid → World → Type 0}
      → ((w : World) → P w → Q (env.ids w.step) (record w { step = suc w.step }))
      → Yields {E = E} P (new_uuid env) Q
  new_uuid-Yields h = record { run = λ w p. (env.ids w.step, refl, h w p) }

  -- Every call is served, and the tables are this process's alone.
  pub record IsCalm : Type 0 where
    pub working : (k : ℕ) → env.fate k ≡ served
    pub alone : (k : ℕ) (s : Shared) → env.others k s ≡ s

  pub call-Yields :
      {E A : Type 0} {P : World → Type 0} {Q : A → World → Type 0} (calm : IsCalm) (e : E)
      (f : Shared → Result E A × Shared)
      → ((w : World)
          → P w
          → (a : A) × ((f w.shared).0 ≡ ok a)
            × Q a (record { shared = (f w.shared).1; step = suc w.step }))
      → Yields P (call env e f) Q
  unfolding call
  call-Yields calm e f h = record {
    run = λ w p. rw (calm.working w.step, calm.alone w.step w.shared) (h w p);
  }

  pub tx_call-eq :
      {E A : Type 0} (calm : IsCalm) (e : E) (f : Shared → Result E A × Shared) (s : Shared) (k : ℕ)
      → tx_call env e f s k ≡ ((f s).0, (f s).1, suc k)
  tx_call-eq calm e f s k = rw (calm.working k) refl

pub tx_bind-eq :
    {E A B : Type 0} (f : A → Tx E B) (r : Result E A × Shared × ℕ) (a : A) (s t : Shared) (k : ℕ)
    → r ≡ (ok a, t, k)
    → let m : Tx E A = λ _ _. r in tx_bind m f s k ≡ f a t k
tx_bind-eq {E} {A} f r a s t k e =
    ap (λ (out : Result E A × Shared × ℕ). tx_bind (λ _ _. out) f s k) e

-- A dropped error: only the world that is left counts.
pub ignore_any-Yields :
    {E F A : Type 0} {P Q : World → Type 0} (m : Action E A)
    → ((w : World) → P w → Q (m w).1)
    → Yields P (ignore {F = F} m) (λ x. Q)
ignore_any-Yields m h = record { run = λ w p. (tt, refl, h w p) }

pub ignore-Yields :
    {E F A : Type 0} {P Q : World → Type 0} {m : Action E A}
    → Yields P m (λ a. Q)
    → Yields P (ignore {F = F} m) (λ x. Q)
ignore-Yields {m} y = ignore_any-Yields m (λ w p. let (a, e, q) = y.run w p in q)
