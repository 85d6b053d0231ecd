-- ===== src/Deactivation/Server.antt =====
-- What the deactivation workflow awaits of the Temporal server and of the activities and children
-- behind it, over any world of theirs, and the state of `DeactivateStoreWorkflow`.
use golden_retriever.Prelude.{ℕ, String, Bool, true, false, List, [], ◌∷◌, ◌++◌}
use golden_retriever.Prelude.Result.{ok, err}
use golden_retriever.Models.Operations.{ResultStatus, succeeded}
use golden_retriever.Models.Quota.{CancelGenerationPermits}
use golden_retriever.Models.Lifecycle.{
  BeginStoreDeactivation, ResumeStoreDeactivation, NewGeneration, LifecycleMutationResult,
  DeactivationFencedEvent, OperationStatusEvent, OperationDrained, CleanupWorkflowInput,
  DeactivationPhase,
}
use golden_retriever.Cleanup.{CleanupResult}
use golden_retriever.Task.{returned, raised, Task}
use golden_retriever.Deactivation.Guard.{DeactivationAction, advance, ensure_fenced}

-- An activity or a child returns, or raises an exception with its text.
pub data Answer (A : Type 0) : Type 0 where
  answered : A → Answer A
  failed_with : String → Answer A

-- What `gather` collects of a request: it was delivered, failed, or was canceled.
pub data Reply : Type 0 where
  delivered failed cut_off : Reply

-- A signal's Boolean is false if it raised a `TemporalError`; so is that of the activity
-- `mark_store_deactivation_failed`. `wait_drained` gives the `operation_drained` signals that have
-- come by the end of the wait, in their order.
pub record Server (W : Type 0) : Type 0 where
  pub begin_store_deactivation : BeginStoreDeactivation → W → Answer NewGeneration × W
  pub resume_store_deactivation : ResumeStoreDeactivation → W → Answer NewGeneration × W
  pub mark_store_inactive : NewGeneration → W → Answer LifecycleMutationResult × W
  pub mark_store_deactivation_failed : NewGeneration → W → Bool × W
  pub signal_deactivation_fenced : String → DeactivationFencedEvent → W → Bool × W
  pub signal_operation_status : String → OperationStatusEvent → W → Bool × W
  pub cancel_workflow : String → W → Reply × W
  pub signal_cancel_generation : String → CancelGenerationPermits → W → Reply × W
  pub wait_drained : List String → W → List OperationDrained × W
  pub cleanup_users : CleanupWorkflowInput → W → Answer CleanupResult × W
  pub remove_objects : CleanupWorkflowInput → W → Answer CleanupResult × W
  pub now : W → ℕ

-- The requests, as the workflow makes them.
pub data Request : Type 0 where
  begins : BeginStoreDeactivation → Request
  resumes : ResumeStoreDeactivation → Request
  signals_fenced : String → DeactivationFencedEvent → Request
  cancels : String → Request
  invalidates : String → CancelGenerationPermits → Request
  waits : List String → Request
  cleans_users : CleanupWorkflowInput → Request
  removes_objects : CleanupWorkflowInput → Request
  marks_inactive : NewGeneration → Request
  marks_failed : NewGeneration → Request
  signals_status : String → OperationStatusEvent → Request

-- `_phase` and the guard's `_completed`, with the requests so far and the world outside. The flag
-- `_outer_cancellation_requested`, which nothing reads, is left out.
pub record Run (W : Type 0) : Type 0 where
  pub phase : DeactivationPhase
  pub completed : List DeactivationAction
  pub requests : List Request
  pub world : W

module _ {W : Type 0} where
  abbrev pub set_phase : DeactivationPhase → Task (Run W) (Unit {0})
  set_phase phase s = (returned tt, record s { phase = phase })

  -- A request whose answer is a value.
  abbrev pub call : {A : Type 0} → Request → (W → A × W) → Task (Run W) A
  call request operation s = (
    returned (operation s.world).0,
    record s { requests = s.requests ++ request ∷ []; world = (operation s.world).1 },
  )

  -- `await` of an answer: its exception goes on.
  abbrev pub await_answer : {A : Type 0} → Answer A → Task (Run W) A
  await_answer (answered a) s = (returned a, s)
  await_answer (failed_with message) s = (raised message, s)

  abbrev pub stop : {A : Type 0} → String → Task (Run W) A
  stop message s = (raised message, s)

  unfoldable pub advance_order : DeactivationAction → Task (Run W) (Unit {0})
  unfolding advance
  advance_order action s = elim (advance action s.completed) [
    | err message ↦ (raised message, s)
    | ok completed ↦ (returned tt, record s { completed = completed })
  ]

  unfoldable pub ensure_fenced_order : Task (Run W) (Unit {0})
  unfolding ensure_fenced
  ensure_fenced_order s = elim (ensure_fenced s.completed) [
    | err message ↦ (raised message, s)
    | ok u ↦ (returned tt, s)
  ]

abbrev pub is_succeeded : ResultStatus → Bool
is_succeeded succeeded = true
is_succeeded _ = false
