-- ===== src/Relay/Delivery.antt =====
-- `Run` of internal/outbox/relay.go over many batches, some of which may fail.
use mathlib.Core.Path.{subst}
use mathlib.Core.List.{Sublist, append_assoc, append-nil, map-append}
use mathlib.Core.List.Sublist
use review_service.Prelude.{
  ℕ, zero, suc, ◌+◌, ◌≤◌, ◌≡◌, refl, ◌∙◌, sym, ap, ◌⊎◌, inl, inr, List, [], ◌++◌, map, take, drop,
  length, length-append, arith,
}
use review_service.Domain.Errors.{Error, Result, ok, err}
use review_service.World.{Env, World}
use review_service.World.Tables.{Shared, OutboxRow, Message}
use review_service.Relay.{batch_size, select_unpublished, to_message, publish_batch, run}
use review_service.Relay.Steps.{IsAlone, IsProgress}
use review_service.Relay.Progress.{publish_batch-IsProgress}
use review_service.Relay.Marking.{
  unpublished, unpublished-mark_rows, mark_rows-IsAscending, sort_by-IsAscending,
  filter-IsAscending, take-drop, take-full, take-whole, drop-whole, take-Sublist, empty-append,
}
use review_service.Invariant.WellFormed.{IsAscending, IsWellFormed}

module _ (env : Env) where
  abbrev pub messages : List OutboxRow → List Message
  messages rows = map (to_message env) rows

  -- From `s` to `t` the rows `front` have been delivered, at least `rows` many unless nothing is left,
  -- and once each if nothing failed.
  pub record IsDelivered (rows : ℕ) (Faultless : Type 0) (s t : Shared) : Type 0 where
    pub front : List OutboxRow
    pub sent : List Message
    pub split : unpublished s.outbox ≡ front ++ unpublished t.outbox
    pub log_eq : t.log ≡ s.log ++ sent
    pub in_order : Sublist (messages front) sent
    pub once : Faultless → sent ≡ messages front
    pub enough : (rows ≤ length front) ⊎ (unpublished t.outbox ≡ [])
    pub ascending : (next : ℕ) → IsAscending next s.outbox → IsAscending next t.outbox

  IsDelivered-refl : (s : Shared) → IsDelivered 0 Unit s s
  IsDelivered-refl s = record {
    front = [];
    sent = [];
    split = refl;
    log_eq = sym (append-nil s.log);
    in_order = Sublist.refl [];
    once = λ _. refl;
    enough = inl (omega arith);
    ascending = λ next h. h;
  }

  IsDelivered-trans :
      (m n : ℕ) (P Q : Type 0) (s t u : Shared)
      → IsDelivered m P s t
      → IsDelivered n Q t u
      → IsDelivered (m + n) (P × Q) s u
  IsDelivered-trans m n P Q s t u p q = record {
    front = p.front ++ q.front;
    sent = p.sent ++ q.sent;
    split = p.split ∙ (ap (λ l. p.front ++ l) q.split ∙ sym (append_assoc p.front q.front _));
    log_eq = q.log_eq ∙ (ap (λ l. l ++ q.sent) p.log_eq ∙ append_assoc s.log p.sent q.sent);
    in_order =
        subst (λ l. Sublist l (p.sent ++ q.sent))
          (sym (map-append (to_message env) p.front q.front))
          (Sublist.append p.in_order q.in_order);
    once = λ (hp, hq).
        ap (λ l. l ++ q.sent) (p.once hp)
        ∙ (ap (λ l. messages p.front ++ l) (q.once hq)
            ∙ sym (map-append (to_message env) p.front q.front));
    enough = elim p.enough [
      | inr none_left ↦ inr (empty-append q.front _ (sym none_left ∙ q.split))
      | inl first ↦ elim q.enough [
        | inr none_left ↦ inr none_left
        | inl second ↦ inl (omega (arith, length-append p.front q.front, first, second))
      ]
    ];
    ascending = λ next h. q.ascending next (p.ascending next h);
  }

  -- The rows that a tick delivers for sure.
  abbrev pub batch_rows : Result Error (Unit {0}) → ℕ
  batch_rows (ok x) = batch_size
  batch_rows (err e) = 0

  -- The rows that a batch leaves, from its marks.
  rest_of : ℕ → List OutboxRow → List OutboxRow
  rest_of marked rows = drop marked (take batch_size rows) ++ drop batch_size rows

  split-rest_of :
      (marked : ℕ) (rows : List OutboxRow)
      → rows ≡ take marked (take batch_size rows) ++ rest_of marked rows
  unfolding rest_of
  split-rest_of marked rows =
      let batch = take batch_size rows in
      sym (
        sym (append_assoc (take marked batch) (drop marked batch) (drop batch_size rows))
        ∙ (ap (λ l. l ++ drop batch_size rows) (take-drop marked batch)
            ∙ take-drop batch_size rows))

  batch_enough :
      (r : Result Error (Unit {0})) (marked : ℕ) (rows : List OutboxRow)
      → (r ≡ ok tt → marked ≡ length (take batch_size rows))
      → (batch_rows r ≤ length (take marked (take batch_size rows))) ⊎ (rest_of marked rows ≡ [])
  unfolding rest_of
  batch_enough (err e) marked rows h = inl (omega arith)
  batch_enough (ok x) marked rows h =
      let batch = take batch_size rows in
      let whole = take-whole marked batch (h refl) in
      elim (take-full batch_size rows) [
        | inl full ↦ inl (omega (arith, ap length whole, full))
        | inr none_left ↦
            inr (ap (λ l. l ++ drop batch_size rows) (drop-whole marked batch (h refl)) ∙ none_left)
      ]

  batch-IsDelivered :
      (next : ℕ) (s t : Shared) (r : Result Error (Unit {0}))
      → IsAscending next s.outbox
      → IsProgress env (select_unpublished s) s r t
      → IsDelivered (batch_rows r) (r ≡ ok tt) s t
  unfolding select_unpublished
  batch-IsDelivered next s t r h progress =
      let rows = unpublished s.outbox in
      let batch = take batch_size rows in
      let sorted : select_unpublished s ≡ batch =
        ap (take batch_size)
          (sort_by-IsAscending next rows (filter-IsAscending next _ s.outbox h)) in
      let p = subst (λ l. IsProgress env l s r t) sorted progress in
      let left : unpublished t.outbox ≡ rest_of p.marked rows =
        ap unpublished p.outbox_eq
        ∙ unpublished-mark_rows env next (take p.marked batch) (rest_of p.marked rows) s.outbox h
            (split-rest_of p.marked rows) in
      record {
        front = take p.marked batch;
        sent = messages (take p.sent batch);
        split = split-rest_of p.marked rows ∙ ap (λ l. take p.marked batch ++ l) (sym left);
        log_eq = p.log_eq;
        in_order = take-Sublist (to_message env) p.marked p.sent batch p.marked_le;
        once = λ e.
            let (all_sent, all_marked) = p.done e in
            ap (λ n. messages (take n batch)) (all_sent ∙ sym all_marked);
        enough = elim (batch_enough r p.marked rows (λ e. (p.done e).1)) [
          | inl e ↦ inl e
          | inr e ↦ inr (left ∙ e)
        ];
        ascending = λ top v.
            subst (λ l. IsAscending top l) (sym p.outbox_eq)
              (mark_rows-IsAscending env top (take p.marked batch) s.outbox v);
      }

  -- The rows that a number of ticks delivers for sure.
  abbrev pub run_rows : ℕ → World → ℕ
  run_rows zero w = 0
  run_rows (suc ticks) w =
      batch_rows (publish_batch env w).0 + run_rows ticks (publish_batch env w).1

  abbrev pub IsFaultless : ℕ → World → Type 0
  IsFaultless zero w = Unit
  IsFaultless (suc ticks) w =
      ((publish_batch env w).0 ≡ ok tt) × IsFaultless ticks (publish_batch env w).1

module _ (env : Env) (alone : IsAlone env) where
  -- With no other process at work, whatever calls fail or lose their answer: after any number of ticks
  -- a front of the unpublished rows is published and the rest is not; the messages of the front are in
  -- the log, new, and in the order of the ids, once each if no tick has failed; and for every tick
  -- without an error the front has a hundred rows more, or nothing is left.
  pub run-IsDelivered :
      (ticks : ℕ) (w : World)
      → IsWellFormed w.shared
      → IsDelivered env
          (run_rows env ticks w)
          (IsFaultless env ticks w)
          w.shared
          (run env ticks w).shared
  unfolding run
  run-IsDelivered ticks w v = go ticks w w.shared.next_outbox_id v.ascending
    where
      go :
          (ticks : ℕ) (w : World) (next : ℕ)
          → IsAscending next w.shared.outbox
          → IsDelivered env
              (run_rows env ticks w)
              (IsFaultless env ticks w)
              w.shared
              (run env ticks w).shared
      go zero w next h = IsDelivered-refl env w.shared
      go (suc ticks) w next h =
          let out = publish_batch env w in
          let first =
            batch-IsDelivered env next w.shared out.1.shared out.0 h
              (publish_batch-IsProgress env alone w) in
          IsDelivered-trans env _ _ _ _ w.shared out.1.shared _ first
            (go ticks out.1 next (first.ascending next h))
