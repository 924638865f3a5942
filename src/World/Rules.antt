-- ===== src/World/Rules.antt =====
-- Rules for reasoning about transactions: what a body ensures when it asks for a commit, and what the whole
-- transaction ensures then.
use review_service.Prelude.{ℕ, suc}
use review_service.Domain.Errors.{Result, ok, err}
use review_service.World.Tables.{Shared}
use review_service.World.Run.{
  Fate, served, failed, lost, Env, World, Tx, tx_pure, tx_fail, tx_bind, tx_answer, tx_call, in_tx,
  run_tx, end_tx, commit,
}
use review_service.World.Actions.{Post, Ensures, IsStable}

-- What holds when the body of a transaction asks for a commit.
abbrev pub TxPost : {E A : Type 0} → (A → Shared → Type 0) → Result E A → Shared → Type 0
TxPost Q (ok a) s = Q a s
TxPost Q (err e) s = Unit

pub record TxEnsures {E A : Type 0} (P : Shared → Type 0) (m : Tx E A) (Q : A → Shared → Type 0)
    : Type 0 where
  pub run : (s : Shared) (k : ℕ) → P s → TxPost Q (m s k).0 (m s k).1

module _ {E A : Type 0} where
  TxPost-mono :
      (Q R : A → Shared → Type 0) (r : Result E A) (s : Shared)
      → ((a : A) → Q a s → R a s)
      → TxPost Q r s
      → TxPost R r s
  TxPost-mono Q R (ok a) s h q = h a q
  TxPost-mono Q R (err e) s h q = tt

  pub TxEnsures-mono :
      {P : Shared → Type 0} {Q R : A → Shared → Type 0} {m : Tx E A}
      → ((a : A) (s : Shared) → Q a s → R a s)
      → TxEnsures P m Q
      → TxEnsures P m R
  TxEnsures-mono {Q} {R} {m} h e = record {
    run = λ s k p. TxPost-mono Q R (m s k).0 (m s k).1 (λ a. h a (m s k).1) (e.run s k p);
  }

  pub tx_pure-Ensures :
      {P : Shared → Type 0} {Q : A → Shared → Type 0} {a : A}
      → ((s : Shared) → P s → Q a s)
      → TxEnsures {E = E} P (tx_pure a) Q
  tx_pure-Ensures h = record { run = λ s k p. h s p }

  pub tx_fail-Ensures :
      {P : Shared → Type 0} {Q : A → Shared → Type 0} {e : E} → TxEnsures P (tx_fail e) Q
  tx_fail-Ensures = record { run = λ s k p. tt }

module _ {E A B : Type 0} (Q : A → Shared → Type 0) (S : B → Shared → Type 0) where
  tx_bind_result :
      (f : A → Tx E B) (r : Result E A) (s : Shared) (k : ℕ)
      → ((a : A) → TxEnsures (Q a) (f a) S)
      → TxPost Q r s
      → let m : Tx E A = λ _ _. (r, s, k) in TxPost S (tx_bind m f s k).0 (tx_bind m f s k).1
  tx_bind_result f (ok a) s k next h = (next a).run s k h
  tx_bind_result f (err e) s k next h = tt

module _ {E A B : Type 0} {P : Shared → Type 0} {Q : A → Shared → Type 0}
    {S : B → Shared → Type 0} where
  pub tx_bind-Ensures :
      {m : Tx E A} {f : A → Tx E B}
      → TxEnsures P m Q
      → ((a : A) → TxEnsures (Q a) (f a) S)
      → TxEnsures P (tx_bind m f) S
  tx_bind-Ensures {m} {f} first next = record {
    run = λ s k p. tx_bind_result Q S f (m s k).0 (m s k).1 (m s k).2 next (first.run s k p);
  }

module _ (env : Env) {E A : Type 0} where
  tx_answer-Post :
      (Q : A → Shared → Type 0) (fate : Fate) (e : E) (r : Result E A) (s s' : Shared) (k : ℕ)
      → TxPost Q r s'
      → TxPost Q (tx_answer fate e (r, s') s k).0 (tx_answer fate e (r, s') s k).1
  tx_answer-Post Q served e r s s' k h = h
  tx_answer-Post Q failed e r s s' k h = tt
  tx_answer-Post Q lost e r s s' k h = tt

  pub tx_call-Ensures :
      {P : Shared → Type 0} {Q : A → Shared → Type 0} (e : E) (f : Shared → Result E A × Shared)
      → ((s : Shared) → P s → TxPost Q (f s).0 (f s).1)
      → TxEnsures P (tx_call env e f) Q
  tx_call-Ensures {Q} e f h = record {
    run = λ s k p. tx_answer-Post Q (env.fate k) e (f s).0 s (f s).1 k (h s p);
  }

  commit-Post :
      (I : Shared → Type 0) (Q : A → Shared → Type 0) (fate : Fate) (e : E) (a : A) (s s' : Shared)
      → I s
      → I s'
      → Q a s'
      → Post I Q (commit fate e a s s').0 (commit fate e a s s').1
  commit-Post I Q served e a s s' i i' q = q
  commit-Post I Q failed e a s s' i i' q = i
  commit-Post I Q lost e a s s' i i' q = i'

  end_tx-Post :
      (I : Shared → Type 0) (Q : A → Shared → Type 0) (e : E) (r : Result E A) (s s' : Shared)
      (k : ℕ)
      → I s
      → ((a : A) (t : Shared) → Q a t → I t)
      → TxPost Q r s'
      → Post I Q (end_tx env e r s s' k).0 (end_tx env e r s s' k).1.shared
  end_tx-Post I Q e (ok a) s s' k i done q = commit-Post I Q (env.fate k) e a s s' i (done a s' q) q
  end_tx-Post I Q e (err x) s s' k i done q = i

  run_tx-Post :
      (I : Shared → Type 0) (Q : A → Shared → Type 0) (fate : Fate) (e : E) (body : Tx E A)
      (w : World)
      → I w.shared
      → ((a : A) (t : Shared) → Q a t → I t)
      → TxPost Q (body w.shared w.step).0 (body w.shared w.step).1
      → Post I Q (run_tx env fate e body w).0 (run_tx env fate e body w).1.shared
  run_tx-Post I Q served e body w i done q =
      end_tx-Post I Q e (body w.shared w.step).0 w.shared (body w.shared w.step).1
        (body w.shared w.step).2 i done q
  run_tx-Post I Q failed e body w i done q = i
  run_tx-Post I Q lost e body w i done q = i

  -- A transaction: `I` holds before it, and of everything that its body may commit.
  pub in_tx-Ensures :
      {I P : Shared → Type 0} {Q : A → Shared → Type 0} (e : E) (body : Tx E A)
      → IsStable env P
      → ((s : Shared) → P s → I s)
      → ((a : A) (t : Shared) → Q a t → I t)
      → TxEnsures P body Q
      → Ensures I P (in_tx env e body) Q
  unfolding in_tx
  in_tx-Ensures {I} {Q} e body stable before after result = record {
    run = λ w p.
        let q = stable w.step w.shared p in
        let w' = record w { shared = env.others w.step w.shared; step = suc w.step } in
        run_tx-Post I Q (env.fate w.step) e body w' (before w'.shared q) after
          (result.run w'.shared w'.step q);
  }
