-- ===== src/Lifecycle/Refinement.antt =====
-- The calls of the service against the life of an appraisal.
use review_service.Prelude.{refl, inl, List, [], ◌∷◌}
use review_service.Domain.Errors.{Error, Result}
use review_service.Domain.Floats.{Floats}
use review_service.World.{Env, World, Ensures, Post-both}
use review_service.Repository.Formulas.{Documents}
use review_service.Relay.{publish_batch}
use review_service.Relay.Steps.{IsAlone}
use review_service.Service
use review_service.Storage.{StubStorage}
use review_service.Handler.Appraisals.Completing.{complete-IsSettled}
use review_service.Invariant.WellFormed.{IsWellFormed, IsCivil}
use review_service.Invariant.History.{Evolves-refl}
use review_service.Invariant.Publishing.{publish_batch-Keeps}
use review_service.Invariant.Consuming.{handle-Ensures}
use review_service.Invariant.Framing.{IsFramed}
use review_service.Invariant.Framing.Methods.{
  update-Keeps, upload_report-Keeps, add_comparable-Keeps, delete_comparable-Keeps,
  apply_calculation-Keeps,
}
use review_service.Invariant.Configuring.{
  get_config-Keeps, update_config-Keeps, reset_config-Keeps, calculate-Keeps,
}
use review_service.Invariant.Traces.{
  Command, create_from_request, complete, handle, run_command, run_commands, HasFreshStamp,
  run_commands-IsReached,
}
use review_service.Lifecycle.{Phases, Stays, May, MayAll}
use review_service.Lifecycle.Calls.{
  Has, HasNew, HasNew-IsStable, Has-IsFramed, create_from_request-HasNew, settled-May,
}
use review_service.Lifecycle.Phases.{phases}

module _ {F : Type 0} (env : Env) (alone : IsAlone env) (storage : StubStorage) (ops : Floats F)
    (documents : Documents F) where
  abbrev now_phases : World → Phases
  now_phases w = phases w.shared.appraisals

  after :
      {A : Type 0} (m : World → Result Error A × World) (w : World)
      → Ensures
          (Has env alone (now_phases w))
          (Has env alone (now_phases w))
          m
          (λ a. Has env alone (now_phases w))
      → Stays (now_phases w) (now_phases (m w).1)
  after m w h =
      Post-both (Has env alone (now_phases w)) (m w).0 (m w).1.shared (h.run w (λ id. refl))

  framed : (w : World) → IsFramed env (λ id. Unit) (Has env alone (now_phases w))
  framed w = Has-IsFramed env alone (now_phases w)

  run_command-May :
      (c : Command F) (w : World)
      → IsWellFormed w.shared
      → May c (now_phases w) (now_phases (run_command env storage ops documents c w))
  unfolding run_command
  run_command-May (create_from_request request_id) w v =
      Post-both (HasNew env alone (now_phases w)) _ _
        ((create_from_request-HasNew env alone (now_phases w) request_id).run w (λ id. refl))
  run_command-May (complete id) w v =
      let out = Service.complete env id w in
      settled-May env id w.shared out.0 out.1.shared v (complete-IsSettled env alone id w)
  run_command-May (Command.update id input) w v =
      after (Service.update env id input) w (update-Keeps env ops documents (framed w) id input)
  run_command-May (Command.upload_report id filename) w v =
      after (Service.upload_report env storage id filename) w
        (upload_report-Keeps env ops documents (framed w) storage id filename)
  run_command-May (Command.add_comparable id content) w v =
      after (Service.add_comparable env id content) w
        (add_comparable-Keeps env ops documents (framed w) id content)
  run_command-May (Command.delete_comparable id comparable_id) w v =
      after (Service.delete_comparable env id comparable_id) w
        (delete_comparable-Keeps env ops documents (framed w) id comparable_id)
  run_command-May Command.get_config w v =
      after _ w (get_config-Keeps env ops documents (framed w).stable (framed w).configs)
  run_command-May (Command.update_config cfg by) w v =
      after _ w (update_config-Keeps env ops documents (framed w).stable (framed w).configs cfg by)
  run_command-May (Command.reset_config by) w v =
      after _ w (reset_config-Keeps env ops documents (framed w).stable (framed w).configs by)
  run_command-May (Command.calculate input) w v =
      after _ w (calculate-Keeps env ops documents (framed w).stable (framed w).configs input)
  run_command-May (Command.apply_calculation id input) w v =
      after _ w (apply_calculation-Keeps env ops documents (framed w) id input)
  run_command-May (handle e) w v = Post-both (HasNew env alone (now_phases w)) _ _ (
      (handle-Ensures env (framed w).stable (HasNew-IsStable env alone (now_phases w))
          (λ s h. inl h) (λ event_id s h. h) e
          (create_from_request-HasNew env alone (now_phases w) e.request_id)).run
        w (λ id. refl))
  run_command-May Command.publish_batch w v =
      after (publish_batch env) w
        (publish_batch-Keeps env (framed w).stable (λ row s h. h) (λ id s h. h))

  pub alone-IsCivil : IsCivil env
  alone-IsCivil = record {
    keeps = λ k s v. rw (alone k s) v;
    evolves = λ k s v. rw (alone k s) (Evolves-refl s.appraisals);
  }

  pub fresh_stamp :
      (c : Command F) (w : World) (v : IsWellFormed w.shared)
      → HasFreshStamp env storage ops documents alone-IsCivil c w v
  fresh_stamp (Command.update id input) w v = λ a e k s h. rw (alone k s) h
  fresh_stamp (Command.upload_report id filename) w v = λ a e k s h. rw (alone k s) h
  fresh_stamp (Command.apply_calculation id input) w v = λ a e k s h. rw (alone k s) h
  fresh_stamp (create_from_request request_id) w v = tt
  fresh_stamp (complete id) w v = tt
  fresh_stamp (Command.add_comparable id content) w v = tt
  fresh_stamp (Command.delete_comparable id comparable_id) w v = tt
  fresh_stamp Command.get_config w v = tt
  fresh_stamp (Command.update_config cfg by) w v = tt
  fresh_stamp (Command.reset_config by) w v = tt
  fresh_stamp (Command.calculate input) w v = tt
  fresh_stamp (handle e) w v = tt
  fresh_stamp Command.publish_batch w v = tt

  -- With no other process at work, whatever calls fail or lose their answer, a sequence of calls,
  -- messages and batches of the relay moves appraisals only as the abstract life allows:
  -- `CreateFromRequest` and a message at most open one that was absent, `Complete` at most closes its
  -- own that was open, and nothing else moves any.
  pub run_commands-MayAll :
      (cs : List (Command F)) (w : World)
      → IsWellFormed w.shared
      → MayAll cs (now_phases w) (now_phases (run_commands env storage ops documents cs w))
  run_commands-MayAll [] w v = λ id. refl
  run_commands-MayAll (c ∷ cs) w v =
      let next = run_command env storage ops documents c w in
      let reached =
        run_commands-IsReached env storage ops documents alone-IsCivil (c ∷ []) w v
          (λ u. fresh_stamp c w u, tt) in
      (now_phases next, run_command-May c w v, run_commands-MayAll cs next reached.formed)
