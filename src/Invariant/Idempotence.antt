-- ===== src/Invariant/Idempotence.antt =====
-- `CreateFromRequest` of internal/service/appraisal.go, called again for a request.
use review_service.Prelude.{
  ◌≡◌, refl, Bool, true, false, List, [], ◌∷◌, ◌++◌, ◌==◌, ==_iff, exists, Bool-cases, Option-cases,
  inl, inr, arith,
}
use review_service.Domain.Appraisal.{Uuid, Time, Appraisal}
use review_service.Domain.Errors.{Error, driver, Result, ok, err}
use review_service.World.{
  Env, World, Post, Ensures, bind-Ensures, pure-Ensures, map_err-Ensures, call-Ensures, now-Ensures,
  new_uuid-Ensures,
}
use review_service.World.Tables.{Shared, AppraisalRow}
use review_service.Repository
use review_service.Repository.Statements.{
  Columns, bind_columns, has_id, has_request, insert_row, insert_appraisal,
}
use review_service.Relay.Steps.{IsAlone}
use review_service.Service

abbrev IsRequested : Uuid → Shared → Type 0
IsRequested request_id s = exists (has_request request_id) s.appraisals ≡ true

abbrev Any : Shared → Type 0
Any s = Unit

exists-last :
    (p : AppraisalRow → Bool) (rows : List AppraisalRow) (new : AppraisalRow)
    → p new ≡ true
    → exists p (rows ++ new ∷ []) ≡ true
exists-last p [] new h = rw h refl
exists-last p (x ∷ xs) new h = ground (arith, exists-last p xs new h)

module _ (env : Env) where
  insert_row-IsRequested :
      (a : Appraisal) (c : Columns) (s : Shared)
      → let out = insert_row a c s in Post Any (λ n. IsRequested a.request_id) out.0 out.1
  unfolding insert_row
  insert_row-IsRequested a c s =
      elim (Bool-cases (exists (has_request a.request_id) s.appraisals)) [
        | inl there ↦ rw there there
        | inr new ↦ elim (Bool-cases (exists (has_id a.id) s.appraisals)) [
          | inl taken ↦ rw (new, taken) tt
          | inr fresh ↦
              rw (new, fresh)
                (exists-last (has_request a.request_id) s.appraisals _
                  ((==_iff a.request_id a.request_id).1 refl))
        ]
      ]

  insert_appraisal-IsRequested :
      (a : Appraisal) (s : Shared)
      → let out = insert_appraisal env a s in Post Any (λ n. IsRequested a.request_id) out.0 out.1
  unfolding insert_appraisal
  insert_appraisal-IsRequested a s = elim (Option-cases (bind_columns env a)) [
    | inl refused ↦ rw (refused, insert_appraisal) tt
    | inr (c, bound) ↦ rw (bound, insert_appraisal) (insert_row-IsRequested a c s)
  ]

  create_from_request-IsRequested :
      (request_id : Uuid)
      → Ensures Any Any
          (Service.create_from_request env request_id)
          (λ created. IsRequested request_id)
  unfolding Service.create_from_request Repository.create
  create_from_request-IsRequested request_id = bind-Ensures (now-Ensures env) (λ at.
      bind-Ensures (new_uuid-Ensures env) (λ id.
        let a = Service.new_appraisal id request_id at in
        map_err-Ensures Service.raw_error (
          bind-Ensures
            (call-Ensures env {Q = λ n. IsRequested request_id} driver (insert_appraisal env a)
              (λ k s h. tt) (λ s h. tt) (λ s h. tt) (λ s h. insert_appraisal-IsRequested a s))
            (λ n. pure-Ensures {a = n == 1} (λ s h. h)))))

  -- Nothing is created, and nothing has changed.
  abbrev pub IsRepeat : Shared → Result Error Bool → Shared → Type 0
  IsRepeat s (ok created) t = (created ≡ false) × (t ≡ s)
  IsRepeat s (err e) t = t ≡ s

  module _ (alone : IsAlone env) (s : Shared) (request_id : Uuid)
      (requested : IsRequested request_id s) where
    abbrev Same : Shared → Type 0
    Same t = t ≡ s

    repeated_insert :
        (id : Uuid) (at : Time)
        → insert_appraisal env (Service.new_appraisal id request_id at) s ≡ (ok 0, s)
    unfolding insert_appraisal insert_row bind_columns
    repeated_insert id at = rw requested refl

    repeat-Ensures :
        Ensures Same Same
          (Service.create_from_request env request_id)
          (λ created t. Same t × (created ≡ false))
    unfolding Service.create_from_request Repository.create
    repeat-Ensures = bind-Ensures (now-Ensures env) (λ at.
        bind-Ensures (new_uuid-Ensures env) (λ id.
          let a = Service.new_appraisal id request_id at in
          map_err-Ensures Service.raw_error (
            bind-Ensures
              (call-Ensures env {Q = λ n t. Same t × (n ≡ 0)} driver (insert_appraisal env a)
                (λ k t e. rw (alone k t) e) (λ t e. e) (λ t e. rw (e, repeated_insert id at) refl)
                (λ t e. rw (e, repeated_insert id at) (refl, refl)))
              (λ n. pure-Ensures {a = n == 1} (λ t (e, zero_rows). (e, rw zero_rows refl))))))

  -- With no other process at work, once `CreateFromRequest` has returned without an error for a
  -- request, whether it created the appraisal or not, another call for that request creates nothing and
  -- changes nothing, whatever calls fail or lose their answer.
  pub create_from_request-IsRepeat :
      (alone : IsAlone env) (request_id : Uuid) (created : Bool) (w : World)
      → (Service.create_from_request env request_id w).0 ≡ ok created
      → let v = (Service.create_from_request env request_id w).1 in
        let out = Service.create_from_request env request_id v in
        IsRepeat v.shared out.0 out.1.shared
  create_from_request-IsRepeat alone request_id created w first =
      let v = (Service.create_from_request env request_id w).1 in
      let out = Service.create_from_request env request_id v in
      let requested =
        after_ok (Service.create_from_request env request_id w).0 v.shared first
          ((create_from_request-IsRequested request_id).run w tt) in
      repeated v.shared out.0 out.1.shared
        ((repeat-Ensures alone v.shared request_id requested).run v refl)
    where
      after_ok :
          (r : Result Error Bool) (s : Shared)
          → r ≡ ok created
          → Post Any (λ b. IsRequested request_id) r s
          → IsRequested request_id s
      after_ok r s e h =
          let p : Post {E = Error} Any (λ b. IsRequested request_id) (ok created) s = rw e at h in p

      repeated :
          (s : Shared) (r : Result Error Bool) (t : Shared)
          → Post (λ u. u ≡ s) (λ b u. (u ≡ s) × (b ≡ false)) r t
          → IsRepeat s r t
      repeated s (ok b) t (e, none_created) = (none_created, e)
      repeated s (err x) t e = e
