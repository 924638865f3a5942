-- ===== src/World/Actions.antt =====
-- Rules for reasoning about actions: what an action ensures of the shared state it leaves, from a
-- condition on the state it starts in, whatever the schedule.
use review_service.Prelude.{ℕ, ◌≡◌, refl}
use review_service.Domain.Errors.{Result, ok, err}
use review_service.World.Tables.{Shared}
use review_service.World.Run.{
  Fate, served, failed, lost, Env, World, Action, answer, pure, fail, ◌>>=◌, map_err, call, now,
  new_uuid,
}

-- What holds of the state left: `Q` after a value, `I` after an error.
abbrev pub Post :
    {E A : Type 0} → (Shared → Type 0) → (A → Shared → Type 0) → Result E A → Shared → Type 0
Post I Q (ok a) s = Q a s
Post I Q (err e) s = I s

pub record Ensures {E A : Type 0} (I P : Shared → Type 0) (m : Action E A) (Q : A → Shared → Type 0)
    : Type 0 where
  pub run : (w : World) → P w.shared → Post I Q (m w).0 (m w).1.shared

module _ {E A : Type 0} (I : Shared → Type 0) where
  pub Post-both : (r : Result E A) (s : Shared) → Post I (λ _. I) r s → I s
  Post-both (ok a) s h = h
  Post-both (err e) s h = h

  pub Post-mono :
      (Q R : A → Shared → Type 0) (r : Result E A) (s : Shared)
      → ((a : A) → Q a s → R a s)
      → Post I Q r s
      → Post I R r s
  Post-mono Q R (ok a) s h q = h a q
  Post-mono Q R (err e) s h q = q

  pub Post-at :
      (Q R : A → Shared → Type 0) (r : Result E A) (s : Shared) (a : A)
      → r ≡ ok a
      → (Q a s → R a s)
      → Post I Q r s
      → Post I R r s
  Post-at Q R r s a e h q = let p : Post {E = E} I Q (ok a) s = rw e at q in rw e (h p)

  pub Post-err :
      (Q : A → Shared → Type 0) (r : Result E A) (s : Shared) (x : E)
      → r ≡ err x
      → Post I Q r s
      → I s
  Post-err Q r s x e q = rw e at q

module _ {E A B : Type 0} (I : Shared → Type 0) (Q : A → Shared → Type 0)
    (S : B → Shared → Type 0) where
  bind_result :
      (f : A → Action E B) (r : Result E A) (w : World)
      → ((a : A) → Ensures I (Q a) (f a) S)
      → Post I Q r w.shared
      → let m : Action E A = λ _. (r, w) in Post I S ((m >>= f) w).0 ((m >>= f) w).1.shared
  bind_result f (ok a) w next h = (next a).run w h
  bind_result f (err e) w next h = h

module _ {E A : Type 0} (I : Shared → Type 0) (Q : A → Shared → Type 0) where
  map_result :
      {F : Type 0} (g : E → F) (r : Result E A) (w : World)
      → Post I Q r w.shared
      → let m : Action E A = λ _. (r, w) in Post I Q (map_err g m w).0 (map_err g m w).1.shared
  map_result g (ok a) w h = h
  map_result g (err e) w h = h

  answer-Post :
      (fate : Fate) (e : E) (r : Result E A) (s s' : Shared)
      → I s
      → I s'
      → Post I Q r s'
      → Post I Q (answer fate e (r, s') s).0 (answer fate e (r, s') s).1
  answer-Post served e r s s' i i' h = h
  answer-Post failed e r s s' i i' h = i
  answer-Post lost e r s s' i i' h = i'

module _ {E A B : Type 0} (I : Shared → Type 0) (Q : A → Shared → Type 0)
    (S : B → Shared → Type 0) where
  bind_result_at :
      (f : A → Action E B) (r : Result E A) (w : World)
      → ((a : A) → r ≡ ok a → Post I Q r w.shared × Ensures I (Q a) (f a) S)
      → ((e : E) → r ≡ err e → I w.shared)
      → let m : Action E A = λ _. (r, w) in Post I S ((m >>= f) w).0 ((m >>= f) w).1.shared
  bind_result_at f (ok a) w next other = let (h, e) = next a refl in e.run w h
  bind_result_at f (err e) w next other = other e refl

  -- At one world, where the continuation may be proved for the value that is returned there.
  pub bind_at :
      (m : Action E A) (f : A → Action E B) (w : World)
      → ((a : A) → (m w).0 ≡ ok a → Post I Q (m w).0 (m w).1.shared × Ensures I (Q a) (f a) S)
      → ((e : E) → (m w).0 ≡ err e → I (m w).1.shared)
      → Post I S ((m >>= f) w).0 ((m >>= f) w).1.shared
  bind_at m f w = bind_result_at f (m w).0 (m w).1

module _ {E A B : Type 0} {I P : Shared → Type 0} {Q : A → Shared → Type 0}
    {S : B → Shared → Type 0} where
  pub bind-Ensures :
      {m : Action E A} {f : A → Action E B}
      → Ensures I P m Q
      → ((a : A) → Ensures I (Q a) (f a) S)
      → Ensures I P (m >>= f) S
  bind-Ensures {m} {f} first next = record {
    run = λ w h. bind_result I Q S f (m w).0 (m w).1 next (first.run w h);
  }

module _ {E A : Type 0} {I P : Shared → Type 0} {Q : A → Shared → Type 0} where
  pub pure-Ensures : {a : A} → ((s : Shared) → P s → Q a s) → Ensures {E = E} I P (pure a) Q
  pure-Ensures h = record { run = λ w p. h w.shared p }

  pub fail-Ensures : {e : E} → ((s : Shared) → P s → I s) → Ensures I P (fail {A = A} e) Q
  fail-Ensures h = record { run = λ w p. h w.shared p }

  pub weaken-Ensures :
      {P' : Shared → Type 0} {m : Action E A}
      → ((s : Shared) → P' s → P s)
      → Ensures I P m Q
      → Ensures I P' m Q
  weaken-Ensures h e = record { run = λ w p. e.run w (h w.shared p) }

  pub mono-Ensures :
      {R : A → Shared → Type 0} {m : Action E A}
      → ((a : A) (s : Shared) → Q a s → R a s)
      → Ensures I P m Q
      → Ensures I P m R
  mono-Ensures {R} {m} h e = record {
    run = λ w p. Post-mono I Q R (m w).0 (m w).1.shared (λ a. h a (m w).1.shared) (e.run w p);
  }

  -- A fact that does not depend on the state.
  pub assume-Ensures :
      {Fact : Type 0} {m : Action E A} → (Fact → Ensures I P m Q) → Ensures I (λ s. P s × Fact) m Q
  assume-Ensures h = record { run = λ w (p, fact). (h fact).run w p }

  pub map_err-Ensures :
      {F : Type 0} (g : E → F) {m : Action E A} → Ensures I P m Q → Ensures I P (map_err g m) Q
  map_err-Ensures g {m} h = record { run = λ w p. map_result I Q g (m w).0 (m w).1 (h.run w p) }

module _ (env : Env) where
  abbrev pub IsStable : (Shared → Type 0) → Type 0
  IsStable P = (k : ℕ) (s : Shared) → P s → P (env.others k s)

  -- A call: `f` is only ever applied to a state of which `P` holds.
  pub call-Ensures :
      {E A : Type 0} {I P : Shared → Type 0} {Q : A → Shared → Type 0} (e : E)
      (f : Shared → Result E A × Shared)
      → IsStable P
      → ((s : Shared) → P s → I s)
      → ((s : Shared) → P s → I (f s).1)
      → ((s : Shared) → P s → Post I Q (f s).0 (f s).1)
      → Ensures I P (call env e f) Q
  unfolding call
  call-Ensures {I} {Q} e f stable before after result = record {
    run = λ w p.
        let s = env.others w.step w.shared in
        let q = stable w.step w.shared p in
        answer-Post I Q (env.fate w.step) e (f s).0 s (f s).1 (before s q) (after s q) (result s q);
  }

  pub now-Ensures : {E : Type 0} {I P : Shared → Type 0} → Ensures {E = E} I P (now env) (λ _. P)
  now-Ensures = record { run = λ w p. p }

  pub new_uuid-Ensures :
      {E : Type 0} {I P : Shared → Type 0} → Ensures {E = E} I P (new_uuid env) (λ _. P)
  new_uuid-Ensures = record { run = λ w p. p }
