-- ===== src/Invariant/Traces.antt =====
-- Sequences of calls of the service, messages of the consumer and batches of the relay, and what holds
-- after each of them.
use review_service.Prelude.{String, ◌≡◌, ◌∙◌, List, [], ◌∷◌, some, find, count, if◌then◌else◌}
use review_service.Domain.Appraisal.{Uuid, is_in_progress}
use review_service.World.Tables.{AppraisalRow}
use review_service.World.{Env, World, IsStable}
use review_service.Domain.Floats.{Floats}
use review_service.Domain.Apartment.{FormulaConfig, CalculationInput}
use review_service.Repository.Formulas.{Documents}
use review_service.Service.Formulas
use review_service.Service.Apply
use review_service.Invariant.Reading.{Reached-IsStable}
use review_service.Invariant.Configuring.{
  IgnoresConfigs, IsReached-IgnoresConfigs, get_config-Keeps, update_config-Keeps,
  reset_config-Keeps, calculate-Keeps,
}
use review_service.Invariant.Publishing.{publish_batch-Reached}
use review_service.Invariant.Consuming.{IsReached-IgnoresMarks, handle-Ensures}
use review_service.Consumer
use review_service.Consumer.{InboundEnvelope}
use review_service.Relay
use review_service.Invariant.Applying.{apply_calculation-Reached}
use review_service.Repository.Statements.{has_id}
use review_service.Service
use review_service.Service.{UpdateInput}
use review_service.Storage.{StubStorage}
use review_service.Invariant.Rows.{count-is_closed_of}
use review_service.Invariant.History.{Evolves-trans}
use review_service.Invariant.WellFormed.{is_report_of, IsWellFormed, IsCivil, IsReached}
use review_service.Invariant.Operations.{IsReached-start}
use review_service.Invariant.Methods.{
  reach, AvoidsReadStamp, create_from_request-Ensures, complete-Reached, add_comparable-Reached,
  delete_comparable-Reached, update-Reached, upload_report-Reached,
}

-- The calls that write, a message that the consumer handles, and a batch of the relay.
pub data Command (F : Type 0) : Type 0 where
  create_from_request : Uuid → Command F
  update : Uuid → UpdateInput → Command F
  complete : Uuid → Command F
  upload_report : Uuid → String → Command F
  add_comparable : Uuid → String → Command F
  delete_comparable : Uuid → Uuid → Command F
  get_config : Command F
  update_config : FormulaConfig F → String → Command F
  reset_config : String → Command F
  calculate : CalculationInput F → Command F
  apply_calculation : Uuid → CalculationInput F → Command F
  handle : InboundEnvelope → Command F
  publish_batch : Command F

module _ {F : Type 0} (env : Env) (storage : StubStorage) (ops : Floats F)
    (documents : Documents F) where
  unfoldable pub run_command : Command F → World → World
  run_command (create_from_request request_id) w = (Service.create_from_request env request_id w).1
  run_command (update id input) w = (Service.update env id input w).1
  run_command (complete id) w = (Service.complete env id w).1
  run_command (upload_report id filename) w = (Service.upload_report env storage id filename w).1
  run_command (add_comparable id content) w = (Service.add_comparable env id content w).1
  run_command (delete_comparable appraisal_id id) w =
      (Service.delete_comparable env appraisal_id id w).1
  run_command get_config w = (Formulas.get_config env ops documents w).1
  run_command (update_config cfg by) w = (Formulas.update_config env ops documents cfg by w).1
  run_command (reset_config by) w = (Formulas.reset_config env ops documents by w).1
  run_command (calculate input) w = (Formulas.calculate env ops documents input w).1
  run_command (apply_calculation id input) w =
      (Apply.apply_calculation env ops documents id input w).1
  run_command (handle e) w = (Consumer.handle env e w).1
  run_command publish_batch w = (Relay.publish_batch env w).1

  abbrev pub run_commands : List (Command F) → World → World
  run_commands [] w = w
  run_commands (c ∷ cs) w = run_commands cs (run_command c w)

module _ {F : Type 0} (env : Env) (storage : StubStorage) (ops : Floats F) (documents : Documents F)
    (civil : IsCivil env) where
  -- What the optimistic writes of a sequence need of the clocks: no other process completes an
  -- appraisal with the very stamp that the write's read has returned.
  abbrev pub HasFreshStamp : Command F → (w : World) → IsWellFormed w.shared → Type 0
  HasFreshStamp (update id input) w v = AvoidsReadStamp env civil w v id
  HasFreshStamp (upload_report id filename) w v = AvoidsReadStamp env civil w v id
  HasFreshStamp (apply_calculation id input) w v = AvoidsReadStamp env civil w v id
  HasFreshStamp _ w v = Unit

  stable : (w : World) → IsStable env (IsReached w.shared)
  stable w = Reached-IsStable env civil w.shared

  ignores : (w : World) → IgnoresConfigs (IsReached w.shared)
  ignores w = IsReached-IgnoresConfigs w.shared

  run_command-IsReached :
      (c : Command F) (w : World) (v : IsWellFormed w.shared)
      → HasFreshStamp c w v
      → IsReached w.shared (run_command env storage ops documents c w).shared
  unfolding run_command
  run_command-IsReached (create_from_request request_id) w v h =
      reach env civil w v (Service.create_from_request env request_id)
        (create_from_request-Ensures env civil w v request_id)
  run_command-IsReached (update id input) w v h = update-Reached env civil w v id input h
  run_command-IsReached (complete id) w v h = complete-Reached env civil w v id
  run_command-IsReached (upload_report id filename) w v h =
      upload_report-Reached env civil w v storage id filename h
  run_command-IsReached (add_comparable id content) w v h =
      add_comparable-Reached env civil w v id content
  run_command-IsReached (delete_comparable appraisal_id id) w v h =
      delete_comparable-Reached env civil w v appraisal_id id
  run_command-IsReached get_config w v h =
      reach env civil w v (Formulas.get_config env ops documents)
        (get_config-Keeps env ops documents (stable w) (ignores w))
  run_command-IsReached (update_config cfg by) w v h =
      reach env civil w v (Formulas.update_config env ops documents cfg by)
        (update_config-Keeps env ops documents (stable w) (ignores w) cfg by)
  run_command-IsReached (reset_config by) w v h =
      reach env civil w v (Formulas.reset_config env ops documents by)
        (reset_config-Keeps env ops documents (stable w) (ignores w) by)
  run_command-IsReached (calculate input) w v h =
      reach env civil w v (Formulas.calculate env ops documents input)
        (calculate-Keeps env ops documents (stable w) (ignores w) input)
  run_command-IsReached (apply_calculation id input) w v h =
      apply_calculation-Reached env ops documents civil w v id input h
  run_command-IsReached (handle e) w v h = reach env civil w v (Consumer.handle env e) (
      handle-Ensures env (stable w) (stable w) (λ s r. r) (IsReached-IgnoresMarks w.shared) e
        (create_from_request-Ensures env civil w v e.request_id))
  run_command-IsReached publish_batch w v h =
      reach env civil w v (Relay.publish_batch env) (publish_batch-Reached env civil w.shared)

  abbrev pub HasFreshStamps : List (Command F) → World → Type 0
  HasFreshStamps [] w = Unit
  HasFreshStamps (c ∷ cs) w =
      ((v : IsWellFormed w.shared) → HasFreshStamp c w v)
      × HasFreshStamps cs (run_command env storage ops documents c w)

  -- From well-formed tables, with civil other processes and the fresh stamps of `HasFreshStamps`, any
  -- sequence of calls, messages and batches leaves the tables well formed, and every row a later
  -- version of what it was.
  pub run_commands-IsReached :
      (cs : List (Command F)) (w : World)
      → IsWellFormed w.shared
      → HasFreshStamps cs w
      → IsReached w.shared (run_commands env storage ops documents cs w).shared
  run_commands-IsReached [] w v h = IsReached-start w.shared v
  run_commands-IsReached (c ∷ cs) w v h =
      let first = run_command-IsReached c w v (h.0 v) in
      let rest =
        run_commands-IsReached cs (run_command env storage ops documents c w) first.formed h.1 in
      record {
        formed = rest.formed;
        evolved = Evolves-trans w.shared.appraisals _ _ first.evolved rest.evolved;
      }

  -- Under the same conditions, the request of an appraisal that is found after the calls has no
  -- `report.ready` event in the outbox while the appraisal is in progress, and one if it is completed.
  pub reported_once :
      (cs : List (Command F)) (w : World) (id : Uuid) (row : AppraisalRow)
      → IsWellFormed w.shared
      → HasFreshStamps cs w
      → let s = (run_commands env storage ops documents cs w).shared in
        find (has_id id) s.appraisals ≡ some row
        → count (is_report_of row.request_id) s.outbox
          ≡ (if is_in_progress row.status then 0 else 1)
  reported_once cs w id row v h e =
      let t = run_commands-IsReached cs w v h in
      t.formed.agrees row.request_id ∙ count-is_closed_of id _ row t.formed.requests e
