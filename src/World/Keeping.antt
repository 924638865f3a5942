-- ===== src/World/Keeping.antt =====
-- Rules for actions that keep a condition, whether they return a value or an error.
use review_service.Prelude.{Bool, true, false, if◌then◌else◌}
use review_service.Domain.Errors.{Result, ok, err}
use review_service.World.Tables.{Shared}
use review_service.World.Run.{Env, World, Action, call, recover, ignore}
use review_service.World.Actions.{Post, Post-both, Ensures, IsStable, call-Ensures}

abbrev pub Keeps : {E A : Type 0} → (Shared → Type 0) → Action E A → Type 0
Keeps P m = Ensures P P m (λ _. P)

module _ {E F A : Type 0} {P : Shared → Type 0} where
  pub ignore-Keeps : {m : Action E A} → Keeps P m → Keeps P (ignore {F = F} m)
  ignore-Keeps {m} h = record { run = λ w p. Post-both P (m w).0 (m w).1.shared (h.run w p) }

  recover_result :
      (f : E → Action F A) (r : Result E A) (w : World)
      → ((e : E) → Keeps P (f e))
      → Post P (λ _. P) r w.shared
      → let m : Action E A = λ _. (r, w) in
        Post P (λ _. P) (recover m f w).0 (recover m f w).1.shared
  recover_result f (ok a) w next h = h
  recover_result f (err e) w next h = (next e).run w h

  pub recover-Keeps :
      {m : Action E A} {f : E → Action F A}
      → Keeps P m
      → ((e : E) → Keeps P (f e))
      → Keeps P (recover m f)
  recover-Keeps {m} {f} h next = record {
    run = λ w p. recover_result f (m w).0 (m w).1 next (h.run w p);
  }

module _ {E A : Type 0} {P I : Shared → Type 0} where
  weaken_result :
      (r : Result E A) (s : Shared)
      → ((s : Shared) → P s → I s)
      → Post P (λ _. P) r s
      → Post I (λ _. P) r s
  weaken_result (ok a) s h p = p
  weaken_result (err e) s h p = h s p

  -- A weaker condition after an error.
  pub Keeps-Ensures :
      {m : Action E A} → ((s : Shared) → P s → I s) → Keeps P m → Ensures I P m (λ _. P)
  Keeps-Ensures {m} weaken h = record {
    run = λ w p. weaken_result (m w).0 (m w).1.shared weaken (h.run w p);
  }

pub if-Keeps :
    {E A : Type 0} {P : Shared → Type 0} (b : Bool) {m k : Action E A}
    → Keeps P m
    → Keeps P k
    → Keeps P (if b then m else k)
if-Keeps true hm hk = hm
if-Keeps false hm hk = hk

pub call-Keeps :
    {E A : Type 0} {P : Shared → Type 0} (env : Env) (offline : E)
    (f : Shared → Result E A × Shared)
    → IsStable env P
    → ((s : Shared) → P s → P (f s).1)
    → Keeps P (call env offline f)
call-Keeps {E} {A} {P} env offline f stable h =
    call-Ensures env offline f stable (λ s p. p) h (λ s p. either (f s).0 (f s).1 (h s p))
  where
    either : (r : Result E A) (s : Shared) → P s → Post P (λ a. P) r s
    either (ok a) s p = p
    either (err e) s p = p
