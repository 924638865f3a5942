-- ===== src/Lifecycle/Freeze.antt =====
-- Sequences of calls against a completed appraisal.
use review_service.Prelude.{
  ◌≡◌, ◌≢◌, refl, ◌∙◌, ap, false, some, List, [], ◌∷◌, find, exists, count, arith, if◌then◌else◌,
}
use review_service.Domain.Appraisal.{Uuid, completed, Comparable, is_in_progress}
use review_service.Domain.Errors.{Error, Result}
use review_service.Domain.Floats.{Floats}
use review_service.World.{Env, World, Keeps, Post-both}
use review_service.World.Tables.{Shared, AppraisalRow}
use review_service.Repository.Formulas.{Documents}
use review_service.Repository.Statements.{has_id, is_open}
use review_service.Relay.Steps.{IsAlone}
use review_service.Relay.{publish_batch}
use review_service.Service
use review_service.Storage.{StubStorage}
use review_service.Handler.Appraisals.Completing.{complete-IsSettled}
use review_service.Invariant.Rows.{count-is_open, exists_of_find}
use review_service.Invariant.WellFormed.{IsWellFormed}
use review_service.Invariant.Publishing.{publish_batch-Keeps}
use review_service.Consumer
use review_service.Invariant.Consuming.{handle-Ensures}
use review_service.Invariant.Framing.{IsFramed}
use review_service.Invariant.Framing.Methods.{
  update-Keeps, upload_report-Keeps, add_comparable-Keeps, delete_comparable-Keeps,
  apply_calculation-Keeps,
}
use review_service.Invariant.Configuring.{
  get_config-Keeps, update_config-Keeps, reset_config-Keeps, calculate-Keeps,
}
use review_service.Invariant.Traces.{
  Command, create_from_request, complete, handle, run_command, run_commands, HasFreshStamps,
  run_commands-IsReached,
}
use review_service.Lifecycle.Refinement.{alone-IsCivil, fresh_stamp}
use review_service.Lifecycle.Comparables.{comparables_of}
use review_service.Lifecycle.Frozen.{
  IsFrozen, Frozen-IsFramed, create_from_request-Frozen, settled-Frozen,
}

none_open :
    (id : Uuid) (rows : List AppraisalRow)
    → count (is_open id) rows ≡ 0
    → exists (is_open id) rows ≡ false
none_open id [] h = refl
none_open id (x ∷ xs) h = ground (arith, none_open id xs)

module _ {F : Type 0} (env : Env) (alone : IsAlone env) (storage : StubStorage) (ops : Floats F)
    (documents : Documents F) where
  module _ (id : Uuid) (cs : List Comparable) where
    abbrev Frozen : Shared → Type 0
    Frozen = IsFrozen id cs

    framed : IsFramed env (λ other. other ≢ id) Frozen
    framed = Frozen-IsFramed env alone id cs

    after :
        {A : Type 0} (m : World → Result Error A × World) (w : World)
        → Keeps Frozen m
        → Frozen w.shared
        → Frozen (m w).1.shared
    after m w k h = Post-both Frozen (m w).0 (m w).1.shared (k.run w h)

    run_command-Frozen :
        (c : Command F) (w : World)
        → Frozen w.shared
        → Frozen (run_command env storage ops documents c w).shared
    unfolding run_command
    run_command-Frozen (create_from_request request_id) w =
        after (Service.create_from_request env request_id) w
          (create_from_request-Frozen env alone id cs request_id)
    run_command-Frozen (complete other) w = λ h.
        let out = Service.complete env other w in
        settled-Frozen env alone id cs other w.shared out.0 out.1.shared
          (complete-IsSettled env alone other w) h
    run_command-Frozen (Command.update other input) w =
        after (Service.update env other input) w (update-Keeps env ops documents framed other input)
    run_command-Frozen (Command.upload_report other filename) w =
        after (Service.upload_report env storage other filename) w
          (upload_report-Keeps env ops documents framed storage other filename)
    run_command-Frozen (Command.add_comparable other content) w =
        after (Service.add_comparable env other content) w
          (add_comparable-Keeps env ops documents framed other content)
    run_command-Frozen (Command.delete_comparable other comparable_id) w =
        after (Service.delete_comparable env other comparable_id) w
          (delete_comparable-Keeps env ops documents framed other comparable_id)
    run_command-Frozen Command.get_config w =
        after _ w (get_config-Keeps env ops documents framed.stable framed.configs)
    run_command-Frozen (Command.update_config cfg by) w =
        after _ w (update_config-Keeps env ops documents framed.stable framed.configs cfg by)
    run_command-Frozen (Command.reset_config by) w =
        after _ w (reset_config-Keeps env ops documents framed.stable framed.configs by)
    run_command-Frozen (Command.calculate input) w =
        after _ w (calculate-Keeps env ops documents framed.stable framed.configs input)
    run_command-Frozen (Command.apply_calculation other input) w =
        after _ w (apply_calculation-Keeps env ops documents framed other input)
    run_command-Frozen (handle e) w = after (Consumer.handle env e) w (
        handle-Ensures env framed.stable framed.stable (λ s h. h)
          (λ event_id s h. record { there = h.there; shut = h.shut; kept = h.kept }) e
          (create_from_request-Frozen env alone id cs e.request_id))
    run_command-Frozen Command.publish_batch w = after (publish_batch env) w (
        publish_batch-Keeps env framed.stable
          (λ row s h. record { there = h.there; shut = h.shut; kept = h.kept })
          (λ i s h. record { there = h.there; shut = h.shut; kept = h.kept }))

    run_commands-Frozen :
        (commands : List (Command F)) (w : World)
        → Frozen w.shared
        → Frozen (run_commands env storage ops documents commands w).shared
    run_commands-Frozen [] w h = h
    run_commands-Frozen (c ∷ later) w h =
        run_commands-Frozen later (run_command env storage ops documents c w)
          (run_command-Frozen c w h)

  fresh_stamps :
      (commands : List (Command F)) (w : World)
      → HasFreshStamps env storage ops documents
          (alone-IsCivil env alone storage ops documents)
          commands
          w
  fresh_stamps [] w = tt
  fresh_stamps (c ∷ later) w = (
    λ v. fresh_stamp env alone storage ops documents c w v,
    fresh_stamps later (run_command env storage ops documents c w),
  )

  -- With no other process at work, whatever calls fail or lose their answer: a completed appraisal is
  -- frozen with its comparables. After any sequence of calls, those of `ApplyApartmentCalculation`
  -- among them, messages and batches of the relay its row is the same, and so are its comparables.
  pub frozen_after_completion :
      (commands : List (Command F)) (w : World) (id : Uuid) (row : AppraisalRow)
      → IsWellFormed w.shared
      → find (has_id id) w.shared.appraisals ≡ some row
      → row.status ≡ completed
      → let s = (run_commands env storage ops documents commands w).shared in
        (find (has_id id) s.appraisals ≡ some row)
        × (comparables_of id s.comparables ≡ comparables_of id w.shared.comparables)
  frozen_after_completion commands w id row v e done =
      let start : IsFrozen id (comparables_of id w.shared.comparables) w.shared = record {
        there = exists_of_find (has_id id) w.shared.appraisals row e;
        shut = none_open id w.shared.appraisals (
            count-is_open id w.shared.appraisals row v.ids e
            ∙ ap (λ s. if is_in_progress s then 1 else 0) done);
        kept = refl;
      } in
      let reached =
        run_commands-IsReached env storage ops documents
          (alone-IsCivil env alone storage ops documents) commands w v (fresh_stamps commands w) in
      let (row', e', later) = reached.evolved id row e in
      (
        e' ∙ ap some (later.frozen done),
        (run_commands-Frozen id (comparables_of id w.shared.comparables) commands w start).kept,
      )
