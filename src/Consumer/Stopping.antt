-- ===== src/Consumer/Stopping.antt =====
-- How the loop of internal/kafka/consumer.go ends.
use review_service.Prelude.{
  ℕ, suc, ◌≤◌, ◌≡◌, String, true, List, [], ◌∷◌, length, arith, Bool-cases, inl, inr,
}
use review_service.Domain.Errors.{Error, Result, ok, err}
use review_service.World.{Env, World}
use review_service.Consumer.{
  Codec, Cancelled, Stop, stop_unless_cancelled, goes_on, fetch_message, process, commit_message,
  run,
}

-- At most the messages that were there are committed, and nil is returned only on a cancelled context.
pub record IsStopped (cancelled : Cancelled) (n : ℕ) (s : Stop) : Type 0 where
  pub bounded : s.committed ≤ n
  pub asked : s.result ≡ ok tt → cancelled s.world.step ≡ true

module _ (cancelled : Cancelled) where
  stop_unless_cancelled-IsStopped :
      (n : ℕ) (e : Error) (w : World) → IsStopped cancelled n (stop_unless_cancelled cancelled e w)
  stop_unless_cancelled-IsStopped n e w = record {
    bounded = omega arith;
    asked = elim (Bool-cases (cancelled w.step)) [ inl c ↦ λ h. c | inr c ↦ rw c (λ h. cc) ];
  }

  goes_on-IsStopped :
      {A : Type 0} (n : ℕ) (fetched : Result Error A × World)
      (processed committed : Result Error (Unit {0}) × World) (rest : Stop)
      → IsStopped cancelled n rest
      → IsStopped cancelled (suc n) (goes_on cancelled fetched processed committed rest)
  goes_on-IsStopped n (err e, w) processed committed rest h =
      stop_unless_cancelled-IsStopped (suc n) e w
  goes_on-IsStopped n (ok a, v) (err e, w) committed rest h = record {
    bounded = omega arith;
    asked = λ none. cc;
  }
  goes_on-IsStopped n (ok a, v) (ok x, v') (err e, w) rest h =
      stop_unless_cancelled-IsStopped (suc n) e w
  goes_on-IsStopped n (ok a, v) (ok x, v') (ok y, w) rest h = record {
    bounded = omega (arith, h.bounded);
    asked = h.asked;
  }

-- Whatever calls fail or lose their answer and whenever the context is cancelled: the loop commits at
-- most the messages that are there, and it returns nil only if the context is cancelled when it stops.
pub run-IsStopped :
    (env : Env) (codec : Codec) (cancelled : Cancelled) (values : List String) (w : World)
    → IsStopped cancelled (length values) (run env codec cancelled values w)
unfolding run
run-IsStopped env codec cancelled [] w = stop_unless_cancelled-IsStopped cancelled 0 Error.driver w
run-IsStopped env codec cancelled (value ∷ values) w =
    let fetched = fetch_message env codec value w in
    let processed = process env codec value fetched.1 in
    let committed = commit_message env codec value processed.1 in
    goes_on-IsStopped cancelled (length values) fetched processed committed
      (run env codec cancelled values committed.1)
      (run-IsStopped env codec cancelled values committed.1)
