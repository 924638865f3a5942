-- ===== src/Consumer/Redelivery.antt =====
-- The loop of internal/kafka/consumer.go and what it has committed, when calls fail, answers are lost and
-- messages come again.
use review_service.Prelude.{ℕ, String, List, [], ◌∷◌, take, All}
use review_service.Domain.Appraisal.{Uuid}
use review_service.Domain.Errors.{Error, Result, ok, err}
use review_service.World.Tables.{Shared}
use review_service.World.{Env, World, Post, Post-both}
use review_service.Consumer.{
  Codec, Cancelled, Stop, goes_on, fetch_message, process, commit_message, run,
}
use review_service.Consumer.Trust.{MarksHold, CommitsHold, IsTrusted, IsHandled, IsOwned}
use review_service.Consumer.Handling.{
  Safe, IsHandled-Evolves, fetch_message-Ensures, process-Ensures, commit_message-Ensures,
}
use review_service.Invariant.History.{Evolves-trans}
use review_service.Invariant.WellFormed.{IsWellFormed, IsReached}
use review_service.Invariant.Operations.{IsReached-start}

module _ (env : Env) (codec : Codec) (request_of : Uuid → Uuid) where
  -- What the loop has done when it stops after `n` commits that were acknowledged.
  pub record IsCommitted (start : Shared) (values : List String) (n : ℕ) (s : Shared) : Type 0 where
    pub reached : IsReached start s
    pub marks : MarksHold env request_of s
    pub commits : CommitsHold env codec s
    pub handled : All (λ value. IsHandled env codec value s) (take n values)

  module _ (cancelled : Cancelled) (trusted : IsTrusted env codec request_of) where
    abbrev SafeAt : Shared → Shared → Type 0
    SafeAt = Safe env codec request_of trusted

    stopped :
        (start : Shared) (values : List String) (t : Shared)
        → SafeAt start t
        → IsCommitted start values 0 t
    stopped start values t (r, m, c) = record { reached = r; marks = m; commits = c; handled = tt }

    goes_on-IsCommitted :
        (start : Shared) (value : String) (values : List String)
        (fetched : Result Error String × World)
        (processed committed : Result Error (Unit {0}) × World) (rest : Stop)
        → Post (SafeAt start) (λ x. SafeAt start) fetched.0 fetched.1.shared
        → Post
            (SafeAt start)
            (λ x s. SafeAt start s × IsHandled env codec value s)
            processed.0
            processed.1.shared
        → (SafeAt start processed.1.shared × IsHandled env codec value processed.1.shared
            → Post
                (SafeAt start)
                (λ x s. SafeAt start s × IsHandled env codec value s)
                committed.0
                committed.1.shared)
        → (MarksHold env request_of committed.1.shared
            → CommitsHold env codec committed.1.shared
            → IsWellFormed committed.1.shared
            → IsCommitted committed.1.shared values rest.committed rest.world.shared)
        → let out = goes_on cancelled fetched processed committed rest in
          IsCommitted start (value ∷ values) out.committed out.world.shared
    goes_on-IsCommitted start value values (err e, w) processed committed rest h _ _ later =
        stopped start (value ∷ values) w.shared h
    goes_on-IsCommitted start value values (ok _, _) (err e, w) committed rest _ h _ later =
        stopped start (value ∷ values) w.shared h
    goes_on-IsCommitted start value values (ok _, _) (ok _, v) (err e, w) rest _ hp hc later =
        stopped start (value ∷ values) w.shared (hc hp)
    goes_on-IsCommitted start value values (ok _, _) (ok _, v) (ok _, w) rest _ hp hc later =
        let ((r, m, held), h) = hc hp in
        let c = later m held r.formed in
        record {
          reached = record {
            formed = c.reached.formed;
            evolved =
                Evolves-trans start.appraisals w.shared.appraisals _ r.evolved c.reached.evolved;
          };
          marks = c.marks;
          commits = c.commits;
          handled = (
            IsHandled-Evolves env codec value w.shared rest.world.shared r.formed.ids
                c.reached.evolved h,
            c.handled,
          );
        }

    -- From well-formed tables whose marks and commits hold, with other processes that keep this, and when the
    -- messages that are there belong to one request for each event id: whatever calls fail or lose their
    -- answer and whenever the context is cancelled, when the loop stops the tables are reached, the marks
    -- hold, and every message whose offset has been committed (also by a commit whose answer was lost) has
    -- the appraisal that it asks for, and so has each of the first `n`, where `n` commits were acknowledged.
    pub run-IsCommitted :
        (values : List String) (w : World)
        → All (IsOwned env codec request_of) values
        → IsWellFormed w.shared
        → MarksHold env request_of w.shared
        → CommitsHold env codec w.shared
        → let out = run env codec cancelled values w in
          IsCommitted w.shared values out.committed out.world.shared
    unfolding run
    run-IsCommitted [] w owned v m c = record {
      reached = IsReached-start w.shared v;
      marks = m;
      commits = c;
      handled = tt;
    }
    run-IsCommitted (value ∷ values) w (own, owned) v m c =
        let fetched = fetch_message env codec value w in
        let processed = process env codec value fetched.1 in
        let committed = commit_message env codec value processed.1 in
        let hf =
          (fetch_message-Ensures env codec request_of trusted w.shared value).run w
            (IsReached-start w.shared v, m, c) in
        goes_on-IsCommitted w.shared value values fetched processed committed
          (run env codec cancelled values committed.1) hf
          ((process-Ensures env codec request_of trusted w.shared value own).run fetched.1
            (Post-both (SafeAt w.shared) fetched.0 fetched.1.shared hf))
          (λ h.
            (commit_message-Ensures env codec request_of trusted w.shared value).run processed.1 h)
          (λ m' c' v'. run-IsCommitted values committed.1 owned v' m' c')
