-- ===== src/Invariant/Methods.antt =====
-- The service methods against the invariant and the history of the rows, under any schedule: which calls
-- fail, which answers are lost, and what civil processes do between the calls.
use review_service.Prelude.{String, ◌≡◌, refl, some}
use review_service.Domain.Appraisal.{Uuid, Time, Appraisal}
use review_service.Domain.Events.{new_report_ready_event}
use review_service.Domain.Errors.{Error, ok}
use mathlib.Core.Path.{subst}
use review_service.World.Tables.{Shared}
use review_service.World.{
  Env, World, Action, ◌>>=◌, ◌>>◌, Ensures, bind-Ensures, bind_at, pure-Ensures, weaken-Ensures,
  assume-Ensures, Post-both, Post-at, Post-err, map_err-Ensures, now-Ensures, new_uuid-Ensures,
}
use review_service.Service
use review_service.Service.{require_in_progress, UpdateInput}
use review_service.Storage.{StubStorage, report_key, key_for, presign_upload}
use review_service.Invariant.WellFormed.{IsWellFormed, IsCivil, IsReached}
use review_service.Invariant.Statements.{IsOpenStamp, AvoidsStamp}
use review_service.Invariant.Reading.{IsSeen}
use review_service.Invariant.Operations.{
  IsReached-start, create-Ensures, add_comparable-Ensures, delete_comparable-Ensures,
  update-Ensures, complete-Ensures,
}
use review_service.Invariant.Guarded.{
  require-Ensures, IsGuarded, guarded_get-Ensures, reading-Ensures, seen-Ensures,
}

-- The methods of the service, from a well-formed state.
module _ (env : Env) (civil : IsCivil env) (w : World) (v : IsWellFormed w.shared) where
  abbrev pub Start : Shared → Type 0
  Start = IsReached w.shared

  -- An operation that reads the appraisal `id`, and goes on while it is in progress to write it back.
  pub guarded_at :
      {B : Type 0} (id : Uuid) (rest : Appraisal → Action Error B)
      → ((a : Appraisal) → (Service.read env id w).0 ≡ ok a → AvoidsStamp env id a.updated_at)
      → ((a : Appraisal)
          → a.id ≡ id
          → AvoidsStamp env id a.updated_at
          → Ensures Start (λ s. Start s × IsOpenStamp env id a.updated_at s) (rest a) (λ _. Start))
      → let m = Service.read env id >>= λ a. require_in_progress a.status >> rest a in
        Start (m w).1.shared
  guarded_at id rest avoids next =
      let r0 : Start w.shared = IsReached-start w.shared v in
      Post-both Start _ _ (
        bind_at Start (λ a s. Start s × IsGuarded env civil w.shared id a s) (λ _. Start)
          (Service.read env id) (λ a. require_in_progress a.status >> rest a) w
          (λ a e. (
            Post-at Start _ _ _ _ a e (λ (r, (ei, h)). (r, (ei, h refl)))
                ((guarded_get-Ensures env civil w.shared id a.updated_at (avoids a e)).run w r0),
            bind-Ensures (require-Ensures env civil w.shared a.status (λ s (r, h). r)) (λ x.
                weaken-Ensures (λ s ((r, (ei, h)), pending). ((r, h pending), ei))
                  (assume-Ensures (λ ei. next a ei (avoids a e)))),
          ))
          (λ x e. Post-err Start _ _ _ x e ((reading-Ensures env civil w.shared id).run w r0)))

  -- The optimistic write at the end of such an operation.
  pub store-Ensures :
      (id : Uuid) (b : Appraisal) (u : Time)
      → b.id ≡ id
      → AvoidsStamp env id u
      → Ensures Start (λ s. Start s × IsOpenStamp env id u s) (Service.store env u b) (λ _. Start)
  store-Ensures id b u same avoids =
      subst
        (λ i.
          AvoidsStamp env i u
          → Ensures Start (λ s. Start s × IsOpenStamp env i u s) (Service.store env u b)
              (λ _. Start))
        same
        (λ clear. map_err-Ensures Service.write_error (update-Ensures env civil w.shared b u clear))
        avoids

  pub reach :
      {B : Type 0} (m : Action Error B) → Ensures Start Start m (λ _. Start) → Start (m w).1.shared
  reach m e = Post-both Start _ _ (e.run w (IsReached-start w.shared v))

  pub create_from_request-Ensures :
      (request_id : Uuid)
      → Ensures Start Start (Service.create_from_request env request_id) (λ created. Start)
  unfolding Service.create_from_request
  create_from_request-Ensures request_id = bind-Ensures (now-Ensures env) (λ at.
      bind-Ensures (new_uuid-Ensures env) (λ id.
        map_err-Ensures Service.raw_error
          (create-Ensures env civil w.shared (Service.new_appraisal id request_id at) refl)))

  complete_appraisal-Ensures :
      (id : Uuid) (a : Appraisal)
      → Ensures Start
          (λ s. Start s × IsSeen id a s)
          (Service.complete_appraisal env id a)
          (λ _. Start)
  unfolding Service.complete_appraisal new_report_ready_event
  complete_appraisal-Ensures id a = bind-Ensures (now-Ensures env) (λ at.
      bind-Ensures (new_uuid-Ensures env) (λ event_id.
        bind-Ensures (now-Ensures env) (λ occurred_at.
          bind-Ensures
            (map_err-Ensures Service.write_error (
              complete-Ensures env civil w.shared id at
                (new_report_ready_event event_id occurred_at (Service.mark_completed at a)) a refl
                refl))
            (λ x. pure-Ensures {a = Service.mark_completed at a} (λ s r. r)))))

  pub new_comparable-Ensures :
      (id : Uuid) (content : String)
      → Ensures Start Start (Service.new_comparable env id content) (λ _. Start)
  unfolding Service.new_comparable
  new_comparable-Ensures id content = bind-Ensures (new_uuid-Ensures env) (λ comparable_id.
      bind-Ensures (now-Ensures env) (λ at.
        bind-Ensures
          (map_err-Ensures Service.comparable_error (
            add_comparable-Ensures env civil w.shared
              (Service.comparable comparable_id id content at)))
          (λ x. pure-Ensures {a = Service.comparable comparable_id id content at} (λ s r. r))))

  patch_appraisal-Ensures :
      (id : Uuid) (input : UpdateInput) (a : Appraisal)
      → a.id ≡ id
      → AvoidsStamp env id a.updated_at
      → Ensures Start
          (λ s. Start s × IsOpenStamp env id a.updated_at s)
          (Service.patch_appraisal env input a)
          (λ _. Start)
  unfolding Service.patch_appraisal
  patch_appraisal-Ensures id input a same clear = bind-Ensures (now-Ensures env) (λ at.
      bind-Ensures (store-Ensures id (Service.apply_input input at a) a.updated_at same clear)
        (λ x. pure-Ensures {a = Service.apply_input input at a} (λ s r. r)))

  key_for-Ensures :
      {P : Shared → Type 0} (id : Uuid) (filename : String)
      → Ensures {E = Error} Start P (key_for env id filename) (λ _. P)
  unfolding key_for
  key_for-Ensures id filename = bind-Ensures (new_uuid-Ensures env) (λ random.
      pure-Ensures {a = report_key (env.uuid_text id) (env.uuid_text random) filename} (λ s p. p))

  register_report-Ensures :
      (storage : StubStorage) (id : Uuid) (filename : String) (a : Appraisal)
      → a.id ≡ id
      → AvoidsStamp env id a.updated_at
      → Ensures Start
          (λ s. Start s × IsOpenStamp env id a.updated_at s)
          (Service.register_report env storage id filename a)
          (λ _. Start)
  unfolding Service.register_report
  register_report-Ensures storage id filename a same clear =
      bind-Ensures (key_for-Ensures id filename) (λ key. bind-Ensures (now-Ensures env) (λ at.
        bind-Ensures
          (store-Ensures id (record a { report_s3_key = some key; updated_at = at }) a.updated_at
            same clear)
          (λ x.
            pure-Ensures {a = record { s3_key = key; upload_url = presign_upload storage key }}
              (λ s r. r))))

  pub complete-Reached : (id : Uuid) → Start (Service.complete env id w).1.shared
  unfolding Service.complete
  complete-Reached id =
      reach (Service.complete env id)
        (seen-Ensures env civil w.shared id _ (complete_appraisal-Ensures id))

  pub add_comparable-Reached :
      (id : Uuid) (content : String) → Start (Service.add_comparable env id content w).1.shared
  unfolding Service.add_comparable
  add_comparable-Reached id content = reach (Service.add_comparable env id content) (
      seen-Ensures env civil w.shared id _
        (λ a. weaken-Ensures (λ s (r, h). r) (new_comparable-Ensures id content)))

  pub delete_comparable-Reached :
      (appraisal_id id : Uuid) → Start (Service.delete_comparable env appraisal_id id w).1.shared
  unfolding Service.delete_comparable
  delete_comparable-Reached appraisal_id id =
      reach (Service.delete_comparable env appraisal_id id) (
        seen-Ensures env civil w.shared appraisal_id _ (λ a. map_err-Ensures Service.read_error (
          weaken-Ensures (λ s (r, h). r)
            (delete_comparable-Ensures env civil w.shared appraisal_id id))))

  -- No other process completes the appraisal with the very stamp that this call is about to read.
  abbrev pub AvoidsReadStamp : Uuid → Type 0
  AvoidsReadStamp id =
      (a : Appraisal) → (Service.read env id w).0 ≡ ok a → AvoidsStamp env id a.updated_at

  -- `Update` keeps the invariant and the history of the rows, also when civil processes act between its
  -- read and its write, if none completes the appraisal with the stamp that the read has returned.
  pub update-Reached :
      (id : Uuid) (input : UpdateInput)
      → AvoidsReadStamp id
      → Start (Service.update env id input w).1.shared
  unfolding Service.update
  update-Reached id input avoids =
      guarded_at id (Service.patch_appraisal env input) avoids (patch_appraisal-Ensures id input)

  pub upload_report-Reached :
      (storage : StubStorage) (id : Uuid) (filename : String)
      → AvoidsReadStamp id
      → Start (Service.upload_report env storage id filename w).1.shared
  unfolding Service.upload_report
  upload_report-Reached storage id filename avoids =
      guarded_at id (Service.register_report env storage id filename) avoids
        (register_report-Ensures storage id filename)
