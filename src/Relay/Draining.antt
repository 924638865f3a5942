-- ===== src/Relay/Draining.antt =====
-- `Run` of internal/outbox/relay.go while all calls are served.
use mathlib.Core.List.{append-nil}
use review_service.Prelude.{
  ℕ, zero, suc, ◌*◌, ◌≤◌, ◌≡◌, refl, ◌∙◌, sym, ap, inl, inr, List, [], ◌∷◌, ◌++◌, length,
  length-append, arith,
}
use review_service.Domain.Errors.{Error, Result, ok}
use review_service.World.{Env, World, served, Action, call, ◌>>=◌, ◌>>◌}
use review_service.World.Tables.{Shared, OutboxRow}
use review_service.Relay.{
  batch_size, select_unpublished, with_message, with_published, publish, mark_published,
  publish_rows, publish_batch, run,
}
use review_service.Relay.Steps.{IsAlone, then-eq-ok}
use review_service.Relay.Marking.{unpublished}
use review_service.Invariant.WellFormed.{IsWellFormed}
use review_service.Relay.Delivery.{messages, run_rows, IsFaultless, run-IsDelivered}

module _ (env : Env) (working : (k : ℕ) → env.fate k ≡ served) where
  call-ok :
      {A : Type 0} (g : Shared → A × Shared) (w : World)
      → (call env Error.driver (λ s. (ok (g s).0, (g s).1)) w).0
        ≡ ok (g (env.others w.step w.shared)).0
  unfolding call
  call-ok g w = rw (working w.step) refl

  publish_rows-ok : (rows : List OutboxRow) (w : World) → (publish_rows env rows w).0 ≡ ok tt
  unfolding publish_rows publish mark_published
  publish_rows-ok [] w = refl
  publish_rows-ok (row ∷ rows) w =
      let rest = publish_rows env rows in
      let sent = (publish env row w).1 in
      ap (λ out. out.0)
        (then-eq-ok (publish env row) (mark_published env row.id >> rest) w
          (call-ok (λ s. (tt, with_message env row s)) w))
      ∙ (ap (λ out. out.0)
            (then-eq-ok (mark_published env row.id) rest sent
              (call-ok (λ s. (tt, with_published env row.id s)) sent))
          ∙ publish_rows-ok rows (mark_published env row.id sent).1)

  batch_result :
      (r : Result Error (List OutboxRow)) (rows : List OutboxRow) (v : World)
      → r ≡ ok rows
      → let m : Action Error (List OutboxRow) = λ _. (r, v) in
        ((m >>= publish_rows env) v).0 ≡ ok tt
  batch_result r rows v e = rw e (publish_rows-ok rows v)

  publish_batch-ok : (w : World) → (publish_batch env w).0 ≡ ok tt
  unfolding publish_batch
  publish_batch-ok w = batch_result _ _ _ (call-ok (λ s. (select_unpublished s, s)) w)

  served-IsFaultless : (ticks : ℕ) (w : World) → IsFaultless env ticks w
  served-IsFaultless zero w = tt
  served-IsFaultless (suc ticks) w =
      (publish_batch-ok w, served-IsFaultless ticks (publish_batch env w).1)

  run_rows_lem : (ticks : ℕ) (w : World) → run_rows env ticks w ≡ ticks * batch_size
  run_rows_lem zero w = omega arith
  run_rows_lem (suc ticks) w =
      let later = run_rows_lem ticks (publish_batch env w).1 in
      rw (publish_batch-ok w) (omega (arith, later))

  -- With no other process at work and all calls served, enough ticks for the unpublished rows, a
  -- hundred each, publish them all, and add the message of each of them to the log once, in the order
  -- of the ids.
  pub run-IsDrained :
      (alone : IsAlone env) (ticks : ℕ) (w : World)
      → IsWellFormed w.shared
      → length (unpublished w.shared.outbox) ≤ ticks * batch_size
      → let t = (run env ticks w).shared in
        (unpublished t.outbox ≡ [])
        × (t.log ≡ w.shared.log ++ messages env (unpublished w.shared.outbox))
  run-IsDrained alone ticks w v few =
      let t = (run env ticks w).shared in
      let d = run-IsDelivered env alone ticks w v in
      let all : unpublished t.outbox ≡ [] = elim d.enough [
        | inr none_left ↦ none_left
        | inl full ↦
            no_more d.front (unpublished t.outbox)
              (omega (arith, full, few, ap length d.split, run_rows_lem ticks w))
      ] in
      (
        all,
        d.log_eq
            ∙ ap (λ l. w.shared.log ++ l)
                (d.once (served-IsFaultless ticks w)
                  ∙ ap (messages env)
                      (sym (d.split ∙ (ap (λ l. d.front ++ l) all ∙ append-nil d.front)))),
      )
    where
      no_more : (xs ys : List OutboxRow) → length (xs ++ ys) ≤ length xs → ys ≡ []
      no_more xs [] h = refl
      no_more xs (y ∷ ys) h = absurd (omega (arith, h, length-append xs (y ∷ ys)))
