-- ===== src/Relay/Progress.antt =====
-- `publishBatch` of internal/outbox/relay.go when calls fail or lose their answers: what a batch leaves in
-- the log and in the outbox.
use review_service.Prelude.{ℕ, suc, refl, inl, inr, List, [], ◌∷◌, arith, ◌∙◌, sym, ap}
use mathlib.Core.Path.{subst}
use mathlib.Core.List.{append-nil}
use review_service.Domain.Errors.{Error, Result, ok, err}
use review_service.World.{Env, World, Fate, served, failed, lost, Action, answer, ◌>>=◌, ◌>>◌, call}
use review_service.World.Tables.{Shared, OutboxRow}
use review_service.Relay.{
  with_message, with_published, publish, mark_published, publish_rows, select_unpublished,
  publish_batch,
}
use review_service.Relay.Steps.{
  IsAlone, IsProgress, call-IsAnswered, then-eq-ok, then-eq-err, ends_unsent, ends_sent,
  ends_marked, goes_on,
}

module _ (env : Env) (alone : IsAlone env) where
  IsProgress-at :
      (row : OutboxRow) (rows : List OutboxRow) (w : World)
      → ((v : World)
          → IsProgress env rows v.shared
              (publish_rows env rows v).0
              (publish_rows env rows v).1.shared)
      → let out = (publish env row >> (mark_published env row.id >> publish_rows env rows)) w in
        IsProgress env (row ∷ rows) w.shared out.0 out.1.shared
  unfolding publish mark_published
  IsProgress-at row rows w later =
      let k = mark_published env row.id >> publish_rows env rows in
      let sent = (publish env row w).1 in
      let marked = (mark_published env row.id sent).1 in
      let P : Result Error (Unit {0}) × World → Type 0 =
        λ out. IsProgress env (row ∷ rows) w.shared out.0 out.1.shared in
      elim (call-IsAnswered env (with_message env row) w alone) [
        | inr (failed_send, inl e) ↦
            subst P (sym (then-eq-err (publish env row) k w Error.driver failed_send))
              (ends_unsent env row rows w.shared _ e)
        | inr (failed_send, inr e) ↦
            subst P (sym (then-eq-err (publish env row) k w Error.driver failed_send))
              (ends_sent env row rows w.shared _ e)
        | inl (ok_send, e) ↦
            subst P (sym (then-eq-ok (publish env row) k w ok_send))
              (elim (call-IsAnswered env (with_published env row.id) sent alone) [
                | inr (failed_mark, inl e') ↦
                    subst P
                      (sym (
                        then-eq-err (mark_published env row.id) (publish_rows env rows) sent
                          Error.driver failed_mark))
                      (ends_sent env row rows w.shared _ (e' ∙ e))
                | inr (failed_mark, inr e') ↦
                    subst P
                      (sym (
                        then-eq-err (mark_published env row.id) (publish_rows env rows) sent
                          Error.driver failed_mark))
                      (ends_marked env row rows w.shared _ (e' ∙ ap (with_published env row.id) e))
                | inl (ok_mark, e') ↦
                    subst P
                      (sym (
                        then-eq-ok (mark_published env row.id) (publish_rows env rows) sent
                          ok_mark))
                      (goes_on env row rows w.shared _ marked.shared _
                        (e' ∙ ap (with_published env row.id) e) (later marked))
              ])
      ]

  pub publish_rows-IsProgress :
      (rows : List OutboxRow) (w : World)
      → IsProgress env rows w.shared (publish_rows env rows w).0 (publish_rows env rows w).1.shared
  unfolding publish_rows
  publish_rows-IsProgress [] w = record {
    sent = 0;
    marked = 0;
    log_eq = sym (append-nil w.shared.log);
    outbox_eq = refl;
    rows_eq = refl;
    marked_le = omega arith;
    sent_le = omega arith;
    done = λ e. (refl, refl);
  }
  publish_rows-IsProgress (row ∷ rows) w = IsProgress-at row rows w (publish_rows-IsProgress rows)

  nothing_sent : (rows : List OutboxRow) (s : Shared) → IsProgress env rows s (err Error.driver) s
  nothing_sent rows s = record {
    sent = 0;
    marked = 0;
    log_eq = sym (append-nil s.log);
    outbox_eq = refl;
    rows_eq = refl;
    marked_le = omega arith;
    sent_le = omega arith;
    done = λ h. cc;
  }

  -- With no other process at work, a batch sends a prefix of the unpublished rows, in order, and marks
  -- all of these but at most the last; without an error it sends and marks the whole batch.
  pub publish_batch-IsProgress :
      (w : World)
      → let out = publish_batch env w in
        IsProgress env (select_unpublished w.shared) w.shared out.0 out.1.shared
  unfolding publish_batch call
  publish_batch-IsProgress w =
      let s = env.others w.step w.shared in
      subst
        (λ u.
          IsProgress env (select_unpublished u) u (publish_batch env w).0
            (publish_batch env w).1.shared)
        (alone w.step w.shared) (batch (env.fate w.step) s (suc w.step))
    where
      batch :
          (fate : Fate) (s : Shared) (k : ℕ)
          → let q : Action Error (List OutboxRow) = λ _. (
            (answer fate Error.driver (ok (select_unpublished s), s) s).0,
            record {
              shared = (answer fate Error.driver (ok (select_unpublished s), s) s).1;
              step = k;
            },
          ) in
            let out = (q >>= publish_rows env) w in
            IsProgress env (select_unpublished s) s out.0 out.1.shared
      batch served s k =
          publish_rows-IsProgress (select_unpublished s) (record { shared = s; step = k })
      batch failed s k = nothing_sent (select_unpublished s) s
      batch lost s k = nothing_sent (select_unpublished s) s
