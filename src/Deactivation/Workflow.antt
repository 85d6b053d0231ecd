-- ===== src/Deactivation/Workflow.antt =====
-- `DeactivateStoreWorkflow`. An outer cancellation only raises a flag that nothing reads: the
-- fence and all that follows it run in shielded tasks (`_await_protected`).
use Prim.Native.String.{slice, ◌++◌ as append}
use golden_retriever.Prelude.{
  String, Bool, true, false, none, some, List, [], is_nil, if◌then◌else◌,
}
use golden_retriever.Ids.{Builtins}
use golden_retriever.Models.Operations.{OperationStatus, ResultStatus}
use golden_retriever.Models.Lifecycle.{
  DeactivationInput, DeactivationResult, NewGeneration, DeactivationPhase, BeginStoreDeactivation,
  ResumeStoreDeactivation,
}
use golden_retriever.Task.{Task, ◌>>=◌, ◌>>◌, return, try}
use golden_retriever.Deactivation.Guard.{
  controller_fenced, fence_committed, owned_work_cancel_requested, old_quota_invalidated,
  drain_wait_finished, users_cleaned, objects_removed, inactive_committed, controller_terminal,
}
use golden_retriever.Deactivation.Server.{
  Answer, answered, failed_with, Server, begins, resumes, cleans_users, removes_objects,
  marks_inactive, marks_failed, Run, set_phase, call, await_answer, stop, advance_order,
  ensure_fenced_order, is_succeeded,
}
use golden_retriever.Deactivation.Requests.{
  failure_text, warning_message, with_warning, count_warning, cleanup_input, run_cleanup,
  signal_controller_fenced, cancel_owned_work, invalidate_old_generation_quota,
  wait_for_operation_drain, signal_controller_terminal, result_of,
}

module _ {W : Type 0} (py : Builtins) (server : Server W) (own_id : String) where
  -- Up to the end of the drain wait: the warnings.
  unfoldable pub stop_old_work : DeactivationInput → NewGeneration → Task (Run W) (List String)
  unfolding signal_controller_fenced cancel_owned_work invalidate_old_generation_quota
      wait_for_operation_drain
  stop_old_work command generation = do
    controller_warning ← signal_controller_fenced py server own_id command generation
    advance_order controller_fenced
    set_phase DeactivationPhase.canceling
    ensure_fenced_order
    cancellation_failures ← cancel_owned_work py server own_id command
    advance_order owned_work_cancel_requested
    quota_failures ←
        invalidate_old_generation_quota py server own_id command generation.previous_generation
    advance_order old_quota_invalidated
    set_phase DeactivationPhase.draining
    outstanding ← wait_for_operation_drain py server own_id command
    advance_order drain_wait_finished
    return (
        with_warning
          (with_warning
            (with_warning (with_warning [] controller_warning) (
              count_warning py.decimal cancellation_failures ""
                " owned cancellation request(s) failed"))
            (count_warning py.decimal quota_failures "" " quota invalidation signal(s) failed"))
          (count_warning py.decimal outstanding "drain timeout elapsed with "
            " operation(s) outstanding"))

  -- The commit of INACTIVE.
  unfoldable pub commit_inactive : NewGeneration → Task (Run W) (Unit {0})
  commit_inactive generation = do
    answer ← call (marks_inactive generation) (server.mark_store_inactive generation)
    inactive_result ← await_answer answer
    if is_succeeded inactive_result.status
        then return tt
        else stop "marking the store inactive failed"

  -- The cleanup children, and the store that is inactive after them.
  unfoldable pub tear_down : DeactivationInput → NewGeneration → Task (Run W) (Unit {0})
  unfolding run_cleanup commit_inactive
  tear_down command generation = do
    let input = cleanup_input command generation
    set_phase DeactivationPhase.cleaning_users
    run_cleanup (cleans_users input) (server.cleanup_users input) "user cleanup did not succeed"
    advance_order users_cleaned
    set_phase DeactivationPhase.removing_objects
    run_cleanup (removes_objects input) (server.remove_objects input)
        "object removal did not succeed"
    advance_order objects_removed
    set_phase DeactivationPhase.marking_inactive
    commit_inactive generation
    advance_order inactive_committed

  unfoldable pub conclude :
      DeactivationInput → NewGeneration → List String → Task (Run W) DeactivationResult
  unfolding signal_controller_terminal warning_message
  conclude command generation warnings = do
    set_phase DeactivationPhase.completed
    let status = if is_nil warnings then ResultStatus.succeeded else ResultStatus.partial
    terminal_warning ←
        signal_controller_terminal py server own_id command generation.lifecycle_generation
          OperationStatus.completed status (warning_message warnings)
    let all_warnings = with_warning warnings terminal_warning
    advance_order controller_terminal
    result_of py server own_id command generation.lifecycle_generation
        (if is_nil all_warnings then ResultStatus.succeeded else ResultStatus.partial)
        DeactivationPhase.completed (warning_message all_warnings)

  unfoldable pub finish_failed :
      DeactivationInput → NewGeneration → String → Task (Run W) DeactivationResult
  unfolding signal_controller_terminal
  finish_failed command generation message = do
    set_phase DeactivationPhase.failed
    persisted ← call (marks_failed generation) (server.mark_store_deactivation_failed generation)
    let text = failure_text message "deactivation did not complete"
    let failure_message =
        if persisted then text else append text "; failed state could not be persisted"
    signal_controller_terminal py server own_id command generation.lifecycle_generation
          OperationStatus.failed ResultStatus.failed (some failure_message)
        >>= λ ignored.
            result_of py server own_id command generation.lifecycle_generation ResultStatus.failed
              DeactivationPhase.failed (some failure_message)

  -- The body of the `try`.
  unfoldable pub orchestrate : DeactivationInput → NewGeneration → Task (Run W) DeactivationResult
  unfolding stop_old_work tear_down conclude
  orchestrate command generation = do
    warnings ← stop_old_work command generation
    tear_down command generation
    conclude command generation warnings

  unfoldable pub run_after_fence :
      DeactivationInput → NewGeneration → Task (Run W) DeactivationResult
  unfolding orchestrate finish_failed
  run_after_fence command generation =
      try (orchestrate command generation) (finish_failed command generation)

  unfoldable pub finish_pre_fence_failed :
      DeactivationInput → String → Task (Run W) DeactivationResult
  unfolding signal_controller_terminal
  finish_pre_fence_failed command message = do
    set_phase DeactivationPhase.failed
    let text = failure_text message "deactivation fence did not commit"
    terminal_warning ←
        signal_controller_terminal py server own_id command command.expected_generation
          OperationStatus.failed ResultStatus.failed (some text)
    result_of py server own_id command command.expected_generation ResultStatus.failed
        DeactivationPhase.failed
        (some (elim terminal_warning [
          | none ↦ text
          | some w ↦ slice (append text (append "; " w)) 0 1000
        ]))

  -- The activity that commits the fence; with `true`, it resumes a deactivation that has failed.
  unfoldable pub fence_with : Bool → DeactivationInput → Task (Run W) (Answer NewGeneration)
  fence_with true command =
      let resumption : ResumeStoreDeactivation = record {
        store_key = command.store_key;
        lifecycle_generation = command.expected_generation;
      } in
      call (resumes resumption) (server.resume_store_deactivation resumption)
  fence_with false command =
      let beginning : BeginStoreDeactivation = record {
        store_key = command.store_key;
        expected_generation = command.expected_generation;
      } in
      call (begins beginning) (server.begin_store_deactivation beginning)

  unfoldable pub fence : DeactivationInput → Task (Run W) (Answer NewGeneration)
  unfolding fence_with
  fence command = fence_with command.resume_same_generation command

  unfoldable pub run : DeactivationInput → Task (Run W) DeactivationResult
  unfolding run_after_fence finish_pre_fence_failed fence
  run command = do
    set_phase DeactivationPhase.fencing
    answer ← fence command
    elim answer [
      | failed_with message ↦ finish_pre_fence_failed command message
      | answered generation ↦ do advance_order fence_committed; run_after_fence command generation
    ]

-- The workflow before its first event.
abbrev pub started : {W : Type 0} → W → Run W
started w = record { phase = DeactivationPhase.pending; completed = []; requests = []; world = w }
