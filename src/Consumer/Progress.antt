-- ===== src/Consumer/Progress.antt =====
-- The loop of internal/kafka/consumer.go while every call is served.
use mathlib.Core.Path.{subst}
use mathlib.Core.List.{append-nil, append_assoc}
use review_service.Prelude.{
  ℕ, suc, ◌≤◌, ◌≡◌, ◌∙◌, refl, ap, String, Bool, true, false, List, [], ◌∷◌, ◌++◌, sym, take,
  length, take-length, exists, inl, inr, Bool-cases, Option-cases, All, arith, ◌==◌,
}
use review_service.Domain.Appraisal.{Uuid}
use review_service.Domain.Errors.{Error, Result, ok, err}
use review_service.World.{
  Env, World, IsCalm, Yields, pure-Yields, map_err-Yields, bind-Yields, call-Yields, now-Yields,
  new_uuid-Yields,
}
use review_service.World.Tables.{Shared}
use review_service.Repository
use review_service.Repository.Statements.{
  has_id, has_request, bind_columns, insert_row, insert_appraisal,
}
use review_service.Service
use review_service.Service.{new_appraisal}
use review_service.Dedup.{seen, mark}
use review_service.Consumer.{
  InboundEnvelope, Codec, Cancelled, Stop, goes_on, unless_seen, handle, relevant, fetch_message,
  process, commit_message, run,
}
use review_service.Consumer.Trust.{IsTrusted, IsOwned, IsHandled, MarksHold, CommitsHold}
use review_service.Consumer.Redelivery.{run-IsCommitted}
use review_service.Invariant.History.{Evolves-refl}
use review_service.Invariant.WellFormed.{IsWellFormed}
use review_service.Lifecycle.Comparables.{exists-append}

-- The UUIDs that are still to come are no ids of appraisals, and differ from each other.
pub record HasFreshIds (env : Env) (w : World) : Type 0 where
  pub unused : (k : ℕ) → w.step ≤ k → exists (has_id (env.ids k)) w.shared.appraisals ≡ false
  pub distinct : (j k : ℕ) → env.ids j ≡ env.ids k → j ≡ k

module _ (env : Env) (calm : IsCalm env) (commits : List String) where
  -- With the messages that have been committed so far.
  abbrev Fresh : World → Type 0
  Fresh w = HasFreshIds env w × (w.shared.commits ≡ commits)

  -- With a UUID that is taken out for a new appraisal.
  abbrev FreshFor : Uuid → World → Type 0
  FreshFor id w =
      Fresh w
      × (exists (has_id id) w.shared.appraisals ≡ false)
      × ((k : ℕ) → w.step ≤ k → (id == env.ids k) ≡ false)

  later :
      (w : World) (s : Shared)
      → s.appraisals ≡ w.shared.appraisals
      → HasFreshIds env w
      → HasFreshIds env (record { shared = s; step = suc w.step })
  later w s same h = record {
    unused = λ k past. rw same (h.unused k (omega (arith, past)));
    distinct = h.distinct;
  }

  later_same :
      (w : World) (s : Shared)
      → s.appraisals ≡ w.shared.appraisals
      → s.commits ≡ w.shared.commits
      → Fresh w
      → Fresh (record { shared = s; step = suc w.step })
  later_same w s same kept (h, e) = (later w s same h, kept ∙ e)

  taken : (w : World) → Fresh w → FreshFor (env.ids w.step) (record w { step = suc w.step })
  taken w (h, e) = (
    (later w w.shared refl h, e),
    h.unused w.step (omega arith),
    λ k past. elim (Bool-cases (env.ids w.step == env.ids k)) [
      | inl same ↦ absurd (omega (arith, past, h.distinct w.step k (ground arith)))
      | inr other ↦ other
    ],
  )

  create-Yields :
      (id request_id at : ℕ)
      → Yields (FreshFor id) (Repository.create env (new_appraisal id request_id at)) (λ b. Fresh)
  unfolding Repository.create insert_appraisal insert_row bind_columns
  create-Yields id request_id at =
      bind-Yields
        (call-Yields env {Q = λ n. Fresh} calm _ _ (λ w ((h, e), unused, other).
          elim (Bool-cases (exists (has_request request_id) w.shared.appraisals)) [
            | inl there ↦ rw there (0, refl, (later w w.shared refl h, e))
            | inr new ↦
                rw (new, unused)
                  (
                    1,
                    refl,
                    (
                      record {
                        unused = λ k past.
                            exists-append (has_id (env.ids k)) w.shared.appraisals _
                              (other k (omega (arith, past)))
                            ∙ h.unused k (omega (arith, past));
                        distinct = h.distinct;
                      },
                      e,
                    ),
                  )
          ]))
        (λ n. pure-Yields (λ w h. h))

  handle-Yields : (e : InboundEnvelope) → Yields Fresh (handle env e) (λ x. Fresh)
  unfolding handle seen mark Service.create_from_request
  handle-Yields e =
      bind-Yields
        (call-Yields env {Q = λ dup. Fresh} calm _ _
          (λ w h. (_, refl, later_same w w.shared refl refl h)))
        unless_seen-Yields
    where
      creation : Yields Fresh (Service.create_from_request env e.request_id) (λ created. Fresh)
      creation =
          bind-Yields (now-Yields env {Q = λ at. Fresh} (λ w h. later_same w w.shared refl refl h))
            (λ at.
              bind-Yields (new_uuid-Yields env {Q = FreshFor} taken)
                (λ id. map_err-Yields Service.raw_error (create-Yields id e.request_id at)))

      unless_seen-Yields : (dup : Bool) → Yields Fresh (unless_seen env dup e) (λ x. Fresh)
      unless_seen-Yields true = pure-Yields (λ w h. h)
      unless_seen-Yields false =
          bind-Yields creation
            (λ created. call-Yields env calm _ _ (λ w h. (tt, refl, later_same w _ refl refl h)))

  module _ (codec : Codec) where
    process-Yields : (value : String) → Yields Fresh (process env codec value) (λ x. Fresh)
    unfolding process
    process-Yields value = elim (Option-cases (relevant env codec value)) [
      | inl skipped ↦ rw (skipped, process) (pure-Yields (λ w h. h))
      | inr (e, found) ↦ rw (found, process) (handle-Yields e)
    ]

    fetch_message-Yields :
        (value : String) → Yields Fresh (fetch_message env codec value) (λ x. Fresh)
    unfolding fetch_message
    fetch_message-Yields value =
        call-Yields env calm _ _ (λ w h. (value, refl, later_same w w.shared refl refl h))

    commit_message-Yields :
        (value : String)
        → Yields Fresh
            (commit_message env codec value)
            (λ x w. HasFreshIds env w × (w.shared.commits ≡ commits ++ value ∷ []))
    unfolding commit_message
    commit_message-Yields value =
        call-Yields env calm _ _
          (λ w (h, e). (tt, refl, (later w _ refl h, ap (λ l. l ++ value ∷ []) e)))

all_ok :
    {A : Type 0} (cancelled : Cancelled) (fetched : Result Error A × World)
    (processed committed : Result Error (Unit {0}) × World) (rest : Stop) (a : A) (x y : Unit {0})
    → fetched.0 ≡ ok a
    → processed.0 ≡ ok x
    → committed.0 ≡ ok y
    → goes_on cancelled fetched processed committed rest
      ≡ record rest { committed = suc rest.committed }
all_ok cancelled (ok _, u) (ok _, v) (ok _, w) rest a x y _ _ _ = refl
all_ok cancelled (err e, u) p c rest a x y f _ _ = cc
all_ok cancelled (ok _, u) (err e, v) c rest a x y _ f _ = cc
all_ok cancelled (ok _, u) (ok _, v) (err e, w) rest a x y _ _ f = cc

module _ (env : Env) (calm : IsCalm env) (codec : Codec) (cancelled : Cancelled) where
  pub run-commits :
      (values : List String) (w : World)
      → HasFreshIds env w
      → let out = run env codec cancelled values w in
        (out.world.shared.commits ≡ w.shared.commits ++ values) × (out.committed ≡ length values)
  unfolding run
  run-commits [] w h = (sym (append-nil w.shared.commits), refl)
  run-commits (value ∷ values) w h =
      let before = w.shared.commits in
      let (a, ef, hf) = (fetch_message-Yields env calm before codec value).run w (h, refl) in
      let (x, ep, hp) = (process-Yields env calm before codec value).run _ hf in
      let (y, ec, (hc, after)) = (commit_message-Yields env calm before codec value).run _ hp in
      let (commits, all) = run-commits values _ hc in
      let goes = all_ok cancelled _ _ _ _ a x y ef ep ec in
      (
        ap (λ s. s.world.shared.commits) goes
            ∙ commits
            ∙ ap (λ l. l ++ values) after
            ∙ append_assoc before (value ∷ []) values,
        ap (λ s. s.committed) goes ∙ ap suc all,
      )

-- While every call is served, no other process is at work, the UUIDs to come are fresh, UUIDs differ in
-- their texts, and the messages that are there belong to one request for each event id: from well-formed
-- tables whose marks and commits hold, the loop commits every message that is there, and each that asks
-- for an appraisal has it.
pub run-IsConsumed :
    (env : Env) (calm : IsCalm env) (codec : Codec) (cancelled : Cancelled)
    (request_of : Uuid → Uuid) (values : List String) (w : World)
    → HasFreshIds env w
    → ((a b : Uuid) → env.uuid_text a ≡ env.uuid_text b → a ≡ b)
    → All (IsOwned env codec request_of) values
    → IsWellFormed w.shared
    → MarksHold env request_of w.shared
    → CommitsHold env codec w.shared
    → let out = run env codec cancelled values w in
      (out.world.shared.commits ≡ w.shared.commits ++ values)
      × (out.committed ≡ length values)
      × All (λ value. IsHandled env codec value out.world.shared) values
run-IsConsumed env calm codec cancelled request_of values w fresh distinct owned v m held =
    let trusted : IsTrusted env codec request_of = record {
      civil = record {
        keeps = λ k s h. rw (calm.alone k s) h;
        evolves = λ k s h. rw (calm.alone k s) (Evolves-refl s.appraisals);
      };
      marks = λ k s h kept. rw (calm.alone k s) kept;
      commits = λ k s h kept. rw (calm.alone k s) kept;
      distinct = distinct;
    } in
    let out = run env codec cancelled values w in
    let (commits, everything) = run-commits env calm codec cancelled values w fresh in
    let c = run-IsCommitted env codec request_of cancelled trusted values w owned v m held in
    (
      commits,
      everything,
      subst (λ front. All (λ value. IsHandled env codec value out.world.shared) front)
          (ap (λ n. take n values) everything ∙ take-length values) c.handled,
    )
