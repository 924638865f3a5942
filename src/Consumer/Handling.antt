-- ===== src/Consumer/Handling.antt =====
-- One message: the duplicate check, the creation and the mark, whatever the schedule.
use mathlib.Core.Path.{subst}
use text.Mathlib.TextLemmas.{append_cancel_left}
use review_service.Prelude.{
  ℕ, String, List, [], ◌∷◌, ◌++◌, All, All-append, ◌≡◌, refl, sym, Bool, true, false, inl, inr,
  str_eq, str_eq_iff, Bool-cases, Option-cases, some-injective,
}
use review_service.Domain.Appraisal.{Uuid, Appraisal, in_progress}
use review_service.Domain.Errors.{RepoError, driver, Error, Result, ok, err}
use review_service.World.Tables.{Shared}
use review_service.World.{
  Env, IsStable, call-Keeps, Ensures, Post, bind-Ensures, pure-Ensures, weaken-Ensures,
  mono-Ensures, map_err-Ensures, call-Ensures, now-Ensures, new_uuid-Ensures,
}
use review_service.Repository
use review_service.Repository.Statements.{insert_appraisal}
use review_service.Service
use review_service.Dedup.{key_prefix, dedup_key, has_mark, with_mark, seen, mark}
use review_service.Consumer.{
  InboundEnvelope, Codec, unless_seen, handle, relevant, process, commit_message, fetch_message,
}
use review_service.Invariant.Rows.{IsUnique}
use review_service.Invariant.History.{Evolves}
use review_service.Invariant.WellFormed.{IsReached}
use review_service.Invariant.Statements.{IsSound, IsSound-same, insert_appraisal-IsSound}
use review_service.Invariant.Reading.{sound-Reached, Reached-IsStable}
use review_service.Consumer.Presence.{
  IsPresent, IsPresent-Evolves, insert_appraisal-IsPresent, insert_appraisal-marks,
  insert_appraisal-commits,
}
use review_service.Consumer.Trust.{IsHandled, IsOwned, MarksHold, CommitsHold, IsTrusted}

module _ (env : Env) (codec : Codec) where
  pub IsHandled-Evolves :
      (value : String) (s t : Shared)
      → IsUnique (λ r. r.id) s.appraisals
      → Evolves s.appraisals t.appraisals
      → IsHandled env codec value s
      → IsHandled env codec value t
  IsHandled-Evolves value s t u h handled e found =
      IsPresent-Evolves e.request_id s t u h (handled e found)

  All-IsHandled-Evolves :
      (values : List String) (s t : Shared)
      → IsUnique (λ r. r.id) s.appraisals
      → Evolves s.appraisals t.appraisals
      → All (λ value. IsHandled env codec value s) values
      → All (λ value. IsHandled env codec value t) values
  All-IsHandled-Evolves [] s t u h all = tt
  All-IsHandled-Evolves (x ∷ xs) s t u h all =
      (IsHandled-Evolves x s t u h all.0, All-IsHandled-Evolves xs s t u h all.1)

module _ (env : Env) (codec : Codec) (request_of : Uuid → Uuid)
    (trusted : IsTrusted env codec request_of) (start : Shared) where
  abbrev pub Safe : Shared → Type 0
  Safe s = IsReached start s × MarksHold env request_of s × CommitsHold env codec s

  Safe-IsStable : IsStable env Safe
  Safe-IsStable k s (r, m, c) = (
    Reached-IsStable env trusted.civil start k s r,
    trusted.marks k s r.formed m,
    trusted.commits k s r.formed c,
  )

  Present-IsStable : (request_id : Uuid) → IsStable env (λ s. Safe s × IsPresent request_id s)
  Present-IsStable request_id k s (h, p) = (
    Safe-IsStable k s h,
    IsPresent-Evolves request_id s (env.others k s) h.0.formed.ids
        (trusted.civil.evolves k s h.0.formed) p,
  )

  -- A call that keeps the invariant by a sound statement, the marks and the commits.
  sound-Safe :
      (s t : Shared) → Safe s → IsSound s t → t.marks ≡ s.marks → t.commits ≡ s.commits → Safe t
  sound-Safe s t (r, m, c) h e same = (
    sound-Reached env trusted.civil start s t r h,
    λ event_id marked.
        IsPresent-Evolves (request_of event_id) s t r.formed.ids h.evolves
          (m event_id (rw (e) at marked)),
    subst (All (λ value. IsHandled env codec value t)) (sym same)
        (All-IsHandled-Evolves env codec s.commits s t r.formed.ids h.evolves c),
  )

  create-Ensures :
      (a : Appraisal)
      → a.status ≡ in_progress
      → Ensures Safe Safe (Repository.create env a) (λ b s. Safe s × IsPresent a.request_id s)
  unfolding Repository.create
  create-Ensures a pending =
      bind-Ensures
        (call-Ensures env {Q = λ n s. Safe s × IsPresent a.request_id s} driver
          (insert_appraisal env a) Safe-IsStable (λ s h. h) after
          (λ s h.
            Post-pair (insert_appraisal env a s).0 (insert_appraisal env a s).1 (after s h)
              (insert_appraisal-IsPresent env a s)))
        (λ n. pure-Ensures (λ s h. h))
    where
      after : (s : Shared) → Safe s → Safe (insert_appraisal env a s).1
      after s h =
          sound-Safe s (insert_appraisal env a s).1 h
            (insert_appraisal-IsSound env a s h.0.formed pending) (insert_appraisal-marks env a s)
            (insert_appraisal-commits env a s)

      Post-pair :
          (r : Result RepoError ℕ) (t : Shared)
          → Safe t
          → Post (λ _. Unit {0}) (λ n u. IsPresent a.request_id u) r t
          → Post Safe (λ n u. Safe u × IsPresent a.request_id u) r t
      Post-pair (ok n) t h p = (h, p)
      Post-pair (err e) t h p = h

  create_from_request-Ensures :
      (request_id : Uuid)
      → Ensures Safe Safe
          (Service.create_from_request env request_id)
          (λ b s. Safe s × IsPresent request_id s)
  unfolding Service.create_from_request
  create_from_request-Ensures request_id = bind-Ensures (now-Ensures env) (λ at.
      bind-Ensures (new_uuid-Ensures env) (λ id.
        map_err-Ensures Service.raw_error
          (create-Ensures (Service.new_appraisal id request_id at) refl)))

  -- A mark is set only when the appraisal is there.
  with_mark-Safe :
      (id : Uuid) (s : Shared)
      → Safe s
      → IsPresent (request_of id) s
      → Safe (with_mark (env.uuid_text id) s)
  with_mark-Safe id s (r, m, c) p = (
    record { formed = (IsSound-same s _ refl refl refl r.formed).formed; evolved = r.evolved },
    λ other marked.
        elim (Bool-cases
          (str_eq (dedup_key (env.uuid_text id)) (dedup_key (env.uuid_text other)))) [
            | inl same ↦
                let texts = append_cancel_left key_prefix _ _ ((str_eq_iff _ _).0 same) in
                subst (λ i. IsPresent (request_of i) s) (trusted.distinct id other texts) p
            | inr differs ↦ m other (rw (differs) at marked)
          ],
    c,
  )

  mark-Ensures :
      (e : InboundEnvelope)
      → e.request_id ≡ request_of e.event_id
      → Ensures Safe
          (λ s. Safe s × IsPresent e.request_id s)
          (mark env (env.uuid_text e.event_id))
          (λ x s. Safe s × IsPresent e.request_id s)
  unfolding mark
  mark-Ensures e owner =
      call-Ensures env Error.driver _ (Present-IsStable e.request_id) (λ s (h, p). h)
        (λ s (h, p). with_mark-Safe e.event_id s h (rw owner at p))
        (λ s (h, p). (with_mark-Safe e.event_id s h (rw owner at p), p))

  -- A message whose event belongs to the request that `request_of` names, and is handled.
  handle-Ensures :
      (e : InboundEnvelope)
      → e.request_id ≡ request_of e.event_id
      → Ensures Safe Safe (handle env e) (λ x s. Safe s × IsPresent e.request_id s)
  unfolding handle seen
  handle-Ensures e owner =
      bind-Ensures
        (call-Ensures env {Q = λ dup s. Safe s × (dup ≡ has_mark (env.uuid_text e.event_id) s)}
          Error.driver _ Safe-IsStable (λ s h. h) (λ s h. h) (λ s h. (h, refl)))
        (λ dup. unless_seen-Ensures dup)
    where
      marking :
          Ensures Safe
            (λ s. Safe s × IsPresent e.request_id s)
            (mark env (env.uuid_text e.event_id))
            (λ x s. Safe s × IsPresent e.request_id s)
      marking = mark-Ensures e owner

      unless_seen-Ensures :
          (dup : Bool)
          → Ensures Safe
              (λ s. Safe s × (dup ≡ has_mark (env.uuid_text e.event_id) s))
              (unless_seen env dup e)
              (λ x s. Safe s × IsPresent e.request_id s)
      unless_seen-Ensures true =
          pure-Ensures (λ s ((r, m, c), marked). ((r, m, c), rw owner (m e.event_id (sym marked))))
      unless_seen-Ensures false =
          weaken-Ensures (λ s (h, unmarked). h)
            (bind-Ensures (create_from_request-Ensures e.request_id) (λ created. marking))

  pub process-Ensures :
      (value : String)
      → IsOwned env codec request_of value
      → Ensures Safe Safe (process env codec value) (λ x s. Safe s × IsHandled env codec value s)
  unfolding process
  process-Ensures value owned = elim (Option-cases (relevant env codec value)) [
    | inl skipped ↦ rw (skipped, process) (pure-Ensures (λ s h. (h, λ e found. cc)))
    | inr (e, found) ↦
        rw (found, process)
          (mono-Ensures
            (λ x s (h, p).
              (h, λ e' found'. subst (λ i. IsPresent i.request_id s) (some-injective _ _ found') p))
            (handle-Ensures e (owned e found)))
  ]

  pub fetch_message-Ensures :
      (value : String) → Ensures Safe Safe (fetch_message env codec value) (λ x. Safe)
  unfolding fetch_message
  fetch_message-Ensures value = call-Keeps env Error.driver _ Safe-IsStable (λ s h. h)

  -- A message is committed only when it has been handled.
  committed-Safe :
      (value : String) (s : Shared)
      → Safe s
      → IsHandled env codec value s
      → Safe (record s { commits = s.commits ++ value ∷ [] })
  committed-Safe value s (r, m, c) handled = (
    record { formed = (IsSound-same s _ refl refl refl r.formed).formed; evolved = r.evolved },
    m,
    All-append (λ v. IsHandled env codec v s) s.commits value c handled,
  )

  pub commit_message-Ensures :
      (value : String)
      → Ensures Safe
          (λ s. Safe s × IsHandled env codec value s)
          (commit_message env codec value)
          (λ x s. Safe s × IsHandled env codec value s)
  unfolding commit_message
  commit_message-Ensures value =
      call-Ensures env Error.driver _
        (λ k s (h, handled). (
          Safe-IsStable k s h,
          IsHandled-Evolves env codec value s (env.others k s) h.0.formed.ids
              (trusted.civil.evolves k s h.0.formed) handled,
        ))
        (λ s (h, p). h) (λ s (h, p). committed-Safe value s h p)
        (λ s (h, p). (committed-Safe value s h p, p))
