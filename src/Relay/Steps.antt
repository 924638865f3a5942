-- ===== src/Relay/Steps.antt =====
-- The state of a batch after some of its rows, and one row: publish, then mark.
use review_service.Prelude.{
  ℕ, suc, ◌+◌, ◌≤◌, ◌≡◌, refl, ◌⊎◌, inl, inr, List, [], ◌∷◌, ◌++◌, map, map_where, ◌==◌, take,
  length, arith, ◌∙◌, sym, ap,
}
use mathlib.Core.Path.{subst}
use mathlib.Core.List.{append_assoc, append-nil}
use review_service.Domain.Errors.{Error, Result, ok, err}
use review_service.World.{Env, World, Fate, served, failed, lost, Action, answer, ◌>>◌, call}
use review_service.World.Tables.{Shared, OutboxRow}
use review_service.Relay.{to_message, with_message, with_published, set_published}

-- No other process writes while the relay runs.
abbrev pub IsAlone : Env → Type 0
IsAlone env = (k : ℕ) (s : Shared) → env.others k s ≡ s

-- The rows of the batch marked one after the other.
abbrev pub mark_rows : Env → List OutboxRow → List OutboxRow → List OutboxRow
mark_rows env [] outbox = outbox
mark_rows env (row ∷ rows) outbox =
    mark_rows env rows (map_where (λ r. r.id == row.id) (set_published env) outbox)

module _ (env : Env) where
  -- `sent` messages are in the log and `marked` rows are stamped.
  pub record IsProgress (rows : List OutboxRow) (s : Shared) (r : Result Error (Unit {0}))
      (t : Shared) : Type 0 where
    pub sent : ℕ
    pub marked : ℕ
    pub log_eq : t.log ≡ s.log ++ map (to_message env) (take sent rows)
    pub outbox_eq : t.outbox ≡ mark_rows env (take marked rows) s.outbox
    pub rows_eq : t.appraisals ≡ s.appraisals
    pub marked_le : marked ≤ sent
    pub sent_le : sent ≤ marked + 1
    pub done : r ≡ ok tt → (sent ≡ length rows) × (marked ≡ length rows)

  -- A write on its own: it is answered, or the caller sees an error and it may have taken effect.
  abbrev IsAnswered : Shared → Shared → Result Error (Unit {0}) → Shared → Type 0
  IsAnswered s after r t =
      ((r ≡ ok tt) × (t ≡ after)) ⊎ ((r ≡ err Error.driver) × ((t ≡ s) ⊎ (t ≡ after)))

  answer-IsAnswered :
      (fate : Fate) (s after : Shared)
      → let out = answer fate Error.driver (ok tt, after) s in IsAnswered s after out.0 out.1
  answer-IsAnswered served s after = inl (refl, refl)
  answer-IsAnswered failed s after = inr (refl, inl refl)
  answer-IsAnswered lost s after = inr (refl, inr refl)

  pub call-IsAnswered :
      (g : Shared → Shared) (w : World)
      → IsAlone env
      → let out = call env Error.driver (λ s. (ok tt, g s)) w in
        IsAnswered w.shared (g w.shared) out.0 out.1.shared
  unfolding call
  call-IsAnswered g w alone =
      let out = call env Error.driver (λ s. (ok tt, g s)) w in
      subst (λ u. IsAnswered u (g u) out.0 out.1.shared) (alone w.step w.shared)
        (answer-IsAnswered (env.fate w.step) (env.others w.step w.shared)
          (g (env.others w.step w.shared)))

module _ {A : Type 0} (m : Action Error (Unit {0})) (k : Action Error A) (w : World) where
  continue_with : Result Error (Unit {0}) → Result Error A × World
  continue_with (ok a) = k (m w).1
  continue_with (err x) = (err x, (m w).1)

  then-eq-continue_with : (r : Result Error (Unit {0})) → (m w).0 ≡ r → (m >> k) w ≡ continue_with r
  unfolding continue_with
  then-eq-continue_with (ok a) e = ground arith
  then-eq-continue_with (err x) e = ground arith

  pub then-eq-ok : (m w).0 ≡ ok tt → (m >> k) w ≡ k (m w).1
  unfolding continue_with
  then-eq-ok e = then-eq-continue_with (ok tt) e

  pub then-eq-err : (x : Error) → (m w).0 ≡ err x → (m >> k) w ≡ (err x, (m w).1)
  unfolding continue_with
  then-eq-err x e = then-eq-continue_with (err x) e

module _ (env : Env) (row : OutboxRow) (rows : List OutboxRow) (s : Shared) where
  abbrev Ends : Result Error (Unit {0}) → Shared → Type 0
  Ends = IsProgress env (row ∷ rows) s

  -- It ended before the message was in the log, after that, or after the mark.
  pub ends_unsent : (t : Shared) → t ≡ s → Ends (err Error.driver) t
  ends_unsent t e = record {
    sent = 0;
    marked = 0;
    log_eq = ap (λ u. u.log) e ∙ sym (append-nil s.log);
    outbox_eq = ap (λ u. u.outbox) e;
    rows_eq = ap (λ u. u.appraisals) e;
    marked_le = omega arith;
    sent_le = omega arith;
    done = λ h. cc;
  }

  pub ends_sent : (t : Shared) → t ≡ with_message env row s → Ends (err Error.driver) t
  ends_sent t e = record {
    sent = 1;
    marked = 0;
    log_eq = ap (λ u. u.log) e;
    outbox_eq = ap (λ u. u.outbox) e;
    rows_eq = ap (λ u. u.appraisals) e;
    marked_le = omega arith;
    sent_le = omega arith;
    done = λ h. cc;
  }

  pub ends_marked :
      (t : Shared)
      → t ≡ with_published env row.id (with_message env row s)
      → Ends (err Error.driver) t
  ends_marked t e = record {
    sent = 1;
    marked = 1;
    log_eq = ap (λ u. u.log) e;
    outbox_eq = ap (λ u. u.outbox) e;
    rows_eq = ap (λ u. u.appraisals) e;
    marked_le = omega arith;
    sent_le = omega arith;
    done = λ h. cc;
  }

  pub goes_on :
      (r : Result Error (Unit {0})) (u t : Shared)
      → u ≡ with_published env row.id (with_message env row s)
      → IsProgress env rows u r t
      → Ends r t
  goes_on r u t e p = record {
    sent = suc p.sent;
    marked = suc p.marked;
    log_eq =
        p.log_eq
        ∙ (ap (λ v. v.log ++ map (to_message env) (take p.sent rows)) e
            ∙ append_assoc s.log (to_message env row ∷ [])
                (map (to_message env) (take p.sent rows)));
    outbox_eq = p.outbox_eq ∙ ap (λ v. mark_rows env (take p.marked rows) v.outbox) e;
    rows_eq = p.rows_eq ∙ ap (λ v. v.appraisals) e;
    marked_le = omega (arith, p.marked_le);
    sent_le = omega (arith, p.sent_le);
    done = λ h. let (a, b) = p.done h in (omega arith, omega arith);
  }

-- From the results of the two writes of a row.
