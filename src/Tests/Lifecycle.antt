-- ===== src/Tests/Lifecycle.antt =====
-- Appraisals: sequences of calls, completion, races and the optimistic lock.
use review_service.Prelude.{
  ◌≢◌, ℕ, false, String, ◌≡◌, refl, some, List, [], ◌∷◌, map, arith, leb, if◌then◌else◌, count,
  find,
}
use review_service.Domain.Appraisal.{Appraisal, Time, completed, Comparable}
use review_service.Domain.Events.{EventEnvelope, new_report_ready_event}
use review_service.Domain.Errors.{ok}
use review_service.World.Tables.{AppraisalRow}
use review_service.World.{Env, World, call, in_tx}
use review_service.Service
use review_service.Service.{UpdateInput}
use review_service.Repository
use review_service.Repository.{complete_body, complete_rest, insert_outbox}
use review_service.Repository.Statements.{
  scan_appraisal, update_appraisal, bind_columns, has_id, select_by_id, select_comparables,
  complete_row, insert_outbox_row, delete_comparable_row, insert_comparable,
}
use review_service.Invariant.WellFormed.{IsWellFormed, IsReached, is_report_of}
use review_service.Invariant.Traces.{
  Command, run_command, run_commands, run_commands-IsReached, reported_once,
}
use review_service.Invariant.Atomicity.{IsAtomic, complete-IsAtomic}
use review_service.Invariant.Freeze.{no_late_comparable}
use review_service.Invariant.Optimistic.{IsLocked, update-IsLocked, no_lost_update}
use review_service.Lifecycle.{MayAll}
use review_service.Lifecycle.Phases.{phases}
use review_service.Lifecycle.Refinement.{run_commands-MayAll}
use review_service.Lifecycle.Comparables.{comparables_of}
use review_service.Lifecycle.Freeze.{frozen_after_completion}
use review_service.Tests.Numbers.{fixed, documents, calculation}
use review_service.Tests.Setup.{
  env, faulty, busy, busy-IsCivil, busy-AvoidsStamp, store, row, tables, start, tables-IsWellFormed,
  env-IsCivil, input, inbound,
}

-- A calculation, a message, a second completion and an update after the first are among them.
abbrev commands : List (Command ℕ)
commands =
    Command.create_from_request 6
    ∷ Command.update 7 input
    ∷ Command.apply_calculation 7 calculation
    ∷ Command.reset_config "admin"
    ∷ Command.complete 7
    ∷ Command.update 7 input
    ∷ Command.complete 7
    ∷ Command.handle inbound
    ∷ Command.publish_batch
    ∷ []

-- With calls that fail, and with another process that inserts appraisals in between.
run_commands-IsReached_example :
    IsReached tables (run_commands busy store fixed documents commands start).shared
run_commands-IsReached_example =
    run_commands-IsReached busy store fixed documents busy-IsCivil commands start
      tables-IsWellFormed
      (
        λ v. tt,
        (
          λ v a e. busy-AvoidsStamp 7 a.updated_at,
          (
            λ v a e. busy-AvoidsStamp 7 a.updated_at,
            (
              λ v. tt,
              (
                λ v. tt,
                (λ v a e. busy-AvoidsStamp 7 a.updated_at, (λ v. tt, (λ v. tt, (λ v. tt, tt)))),
              ),
            ),
          ),
        ),
      )

run_commands-MayAll_example :
    MayAll commands
      (phases tables.appraisals)
      (phases (run_commands faulty store fixed documents commands start).shared.appraisals)
run_commands-MayAll_example =
    run_commands-MayAll faulty (λ k s. refl) store fixed documents commands start
      tables-IsWellFormed

abbrev done_row : AppraisalRow
done_row = record row { status = completed; completed_at = some 102; updated_at = 102 }

abbrev closing : World
closing = run_commands env store fixed documents (Command.complete 7 ∷ []) start

complete-row : find (has_id 7) closing.shared.appraisals ≡ some done_row
unfolding run_command Service.complete Repository.get_by_id call select_by_id
    Repository.list_comparables select_comparables Service.complete_appraisal Repository.complete
    in_tx complete_body complete_row complete_rest insert_outbox insert_outbox_row
    new_report_ready_event
complete-row = refl

reported_once_example : count (is_report_of 5) closing.shared.outbox ≡ 1
reported_once_example =
    reported_once env store fixed documents env-IsCivil (Command.complete 7 ∷ []) start 7 done_row
      tables-IsWellFormed (λ v. tt, tt) complete-row

complete-IsAtomic_example :
    let event = new_report_ready_event 1 2 (Service.new_appraisal 7 5 3) in
    let out = Repository.complete faulty 7 2 event start in
    IsAtomic faulty 7 2 event tables out.0 out.1.shared
complete-IsAtomic_example =
    complete-IsAtomic faulty 7 2 (new_report_ready_event 1 2 (Service.new_appraisal 7 5 3)) start

-- Another instance completes the appraisal after the first read.
abbrev rival : Env
rival = record env { others = λ k s. if leb 2 k then (complete_row 7 55 s).1 else s }

abbrev analog : Comparable
analog = record { id = 8; appraisal_id = 7; content = "{}"; created_at = 4 }

abbrev compared : World
compared = record { shared = record tables { comparables = analog ∷ [] }; step = 0 }

-- `DeleteComparable` then removes a comparable of a completed appraisal, and reports success.
deleted_after_completion :
    let out = Service.delete_comparable rival 7 8 compared in
    (out.0 ≡ ok tt)
    × (out.1.shared.comparables ≡ [])
    × (map (λ r. r.status) out.1.shared.appraisals ≡ completed ∷ [])
unfolding Service.delete_comparable Repository.get_by_id call select_by_id
    Repository.list_comparables select_comparables Repository.delete_comparable
    delete_comparable_row complete_row
deleted_after_completion = (refl, refl, refl)

-- `AddComparable` in the same race adds nothing.
not_added_after_completion :
    let out = Service.add_comparable rival 7 "{}" compared in out.1.shared.comparables ≡ analog ∷ []
unfolding Service.add_comparable Repository.get_by_id call select_by_id Repository.list_comparables
    select_comparables Service.new_comparable Repository.add_comparable insert_comparable
    complete_row Repository.not_found_or_conflict
not_added_after_completion = refl

abbrev noted : String → Time → Appraisal
noted text at = record (scan_appraisal row) { notes = some text; updated_at = at }

update-IsLocked_example :
    let out = Repository.update faulty (noted "a" 50) 3 start in
    IsLocked (noted "a" 50) 3 tables out.0 out.1.shared
update-IsLocked_example = update-IsLocked faulty (λ k s. refl) (noted "a" 50) 3 start

first_update : (Repository.update env (noted "a" 50) 3 start).0 ≡ ok tt
unfolding Repository.update call update_appraisal bind_columns Repository.not_found_or_conflict
first_update = refl

no_lost_update_example :
    (Repository.update env (noted "b" 51) 3 (Repository.update env (noted "a" 50) 3 start).1).0
    ≢ ok tt
no_lost_update_example =
    no_lost_update env (λ k s. refl) (noted "a" 50) (noted "b" 51) 3 start refl (ground arith)
      first_update

abbrev ready : EventEnvelope
ready = new_report_ready_event 1 2 (Service.new_appraisal 7 5 3)

completed_now : (Repository.complete env 7 2 ready start).0 ≡ ok tt
unfolding Repository.complete in_tx complete_body complete_row complete_rest insert_outbox
    insert_outbox_row new_report_ready_event
completed_now = refl

no_late_comparable_example :
    let after = (Repository.complete env 7 2 ready start).1 in
    let out = Repository.add_comparable env analog after in
    (out.0 ≢ ok tt) × (out.1.shared ≡ after.shared)
no_late_comparable_example =
    no_late_comparable env (λ k s. refl) 7 2 ready analog start refl completed_now

-- The appraisal of `closing` with a comparable and its event.
abbrev kept_comparable : Comparable
kept_comparable = record { id = 30; appraisal_id = 7; content = "{}"; created_at = 90 }

abbrev frozen : World
frozen = record {
  shared = record tables {
    appraisals = done_row ∷ [];
    comparables = kept_comparable ∷ [];
    outbox =
        record {
          id = 1;
          event_id = 20;
          topic = "review.events";
          event_type = "report.ready";
          aggregate_id = 5;
          payload = "{}";
          published = false;
        }
        ∷ [];
    next_outbox_id = 2;
  };
  step = 0;
}

frozen-IsWellFormed : IsWellFormed frozen.shared
frozen-IsWellFormed = record {
  ids = (tt, tt);
  requests = (tt, tt);
  dated = (tt, tt);
  agrees = λ request_id. ground arith;
  ascending = (omega arith, tt, tt);
}

frozen_after_completion_example :
    let s = (run_commands faulty store fixed documents commands frozen).shared in
    (find (has_id 7) s.appraisals ≡ some done_row)
    × (comparables_of 7 s.comparables ≡ kept_comparable ∷ [])
frozen_after_completion_example =
    frozen_after_completion faulty (λ k s. refl) store fixed documents commands frozen 7 done_row
      frozen-IsWellFormed refl refl
