-- ===== src/Deactivation/Requests.antt =====
-- The single requests of `DeactivateStoreWorkflow`, and what it makes of their answers. Metrics
-- are left out, and of the drain timeout that it ends the wait.
use Prim.Native.String.{slice, ◌++◌ as append}
use golden_retriever.Prelude.{
  ℕ, zero, suc, String, ◌||◌, Option, none, some, List, [], ◌∷◌, ◌++◌, elem, is_nil, length, take,
  dedupe, drop_ids, ◌==◌, if◌then◌else◌,
}
use golden_retriever.Prelude.Int.{ℤ, pos}
use golden_retriever.Ids.{Builtins}
use golden_retriever.Models.Operations.{OperationStatus, ResultStatus}
use golden_retriever.Models.Quota.{CancelGenerationPermits}
use golden_retriever.Models.Lifecycle.{
  DeactivationInput, DeactivationResult, NewGeneration, OperationDrained, OperationStatusEvent,
  DeactivationFencedEvent, CleanupWorkflowInput, DeactivationPhase,
}
use golden_retriever.Cleanup.{CleanupResult}
use golden_retriever.Task.{returned, canceled, Task, ◌>>=◌, ◌>>◌, return}
use golden_retriever.Deactivation.Server.{
  Answer, Reply, delivered, failed, cut_off, Server, Request, signals_fenced, cancels, invalidates,
  waits, signals_status, Run, call, await_answer, stop, ensure_fenced_order, is_succeeded,
}

-- The signal `operation_drained`, on the set of drained workflow ids.
unfoldable pub operation_drained : OperationDrained → List String → List String
operation_drained event drained =
    if event.workflow_id == "" || elem event.workflow_id drained
    then drained
    else drained ++ event.workflow_id ∷ []

unfoldable pub drained_ids : List OperationDrained → List String → List String
drained_ids [] drained = drained
drained_ids (event ∷ events) drained = drained_ids events (operation_drained event drained)

-- `message[:500] or default`
abbrev pub failure_text : String → String → String
failure_text message default = let cut = slice message 0 500 in if cut == "" then default else cut

unfoldable pub joined : List String → String
joined [] = ""
joined (w ∷ []) = w
joined (w ∷ v ∷ ws) = append w (append "; " (joined (v ∷ ws)))

-- `_warning_message`
unfoldable pub warning_message : List String → Option String
warning_message warnings =
    if is_nil warnings then none else some (slice (joined (take 10 warnings)) 0 1000)

abbrev pub with_warning : List String → Option String → List String
with_warning warnings none = warnings
with_warning warnings (some w) = warnings ++ w ∷ []

-- A warning that counts failures, if there are any.
abbrev pub count_warning : (ℕ → String) → ℕ → String → String → Option String
count_warning decimal zero before after = none
count_warning decimal (suc n) before after = some (append before (append (decimal (suc n)) after))

-- The failures among the replies; `none` if one was canceled.
unfoldable pub count_failures : List Reply → Option ℕ
count_failures [] = some 0
count_failures (cut_off ∷ rs) = none
count_failures (delivered ∷ rs) = count_failures rs
count_failures (failed ∷ rs) = elim (count_failures rs) [ none ↦ none | some n ↦ some (suc n) ]

abbrev pub cleanup_input : DeactivationInput → NewGeneration → CleanupWorkflowInput
cleanup_input command generation = record {
  store_key = command.store_key;
  lifecycle_generation = generation.lifecycle_generation;
  user_keys = [];
  user_concurrency = pos 20;
}

module _ {W : Type 0} where
  -- The requests of a `gather`, which are all made before their results are looked at.
  unfoldable pub gather : (String → Task (Run W) Reply) → List String → Task (Run W) (List Reply)
  gather send [] = return []
  gather send (id ∷ ids) = do reply ← send id; replies ← gather send ids; return (reply ∷ replies)

  abbrev pub failures_of : List Reply → Task (Run W) ℕ
  failures_of replies s = elim (count_failures replies) [
    | none ↦ (canceled, s)
    | some n ↦ (returned n, s)
  ]

  -- A cleanup that did not succeed ends the stage.
  abbrev pub require_success : CleanupResult → String → Task (Run W) (Unit {0})
  require_success result default =
      if is_succeeded result.status
      then return tt
      else stop (elim result.message [ none ↦ default | some m ↦ if m == "" then default else m ])

  -- A cleanup child, joined, and its result.
  unfoldable pub run_cleanup :
      Request → (W → Answer CleanupResult × W) → String → Task (Run W) (Unit {0})
  run_cleanup request operation default = do
    answer ← call request operation
    result ← await_answer answer
    require_success result default

module _ {W : Type 0} (py : Builtins) (server : Server W) (own_id : String) where
  unfoldable pub signal_controller_fenced :
      DeactivationInput → NewGeneration → Task (Run W) (Option String)
  signal_controller_fenced command generation = elim command.controller_workflow_id [
    | none ↦ return none
    | some controller ↦ do
      let event : DeactivationFencedEvent = record {
        operation_id = command.operation_id;
        workflow_id = own_id;
        lifecycle_generation = generation.lifecycle_generation;
      }
      acknowledged ←
          call (signals_fenced controller event)
            (server.signal_deactivation_fenced controller event)
      return (
          if acknowledged then none else some "controller did not acknowledge the generation fence")
  ]

  unfoldable pub cancel_owned_work : DeactivationInput → Task (Run W) ℕ
  unfolding gather
  cancel_owned_work command = do
    ensure_fenced_order
    replies ←
        gather (λ id. call (cancels id) (server.cancel_workflow id))
          (dedupe (command.sync_workflow_ids ++ command.remediation_workflow_ids))
    failures_of replies

  unfoldable pub invalidate_old_generation_quota : DeactivationInput → ℤ → Task (Run W) ℕ
  unfolding gather
  invalidate_old_generation_quota command old_generation = do
    let cancellation : CancelGenerationPermits = record {
      store_key = command.store_key;
      lifecycle_generation = old_generation;
    }
    replies ←
        gather
          (λ id.
            call (invalidates id cancellation) (server.signal_cancel_generation id cancellation))
          (dedupe command.quota_workflow_ids)
    failures_of replies

  -- The operations that are outstanding when the wait has ended.
  unfoldable pub wait_for_operation_drain : DeactivationInput → Task (Run W) ℕ
  wait_for_operation_drain command =
      let expected = dedupe (command.sync_workflow_ids ++ command.remediation_workflow_ids) in
      if is_nil expected then return 0 else do
        events ← call (waits expected) (server.wait_drained expected)
        return (length (drop_ids (drained_ids events []) expected))

  unfoldable pub signal_controller_terminal :
      DeactivationInput
      → ℤ
      → OperationStatus
      → ResultStatus
      → Option String
      → Task (Run W) (Option String)
  signal_controller_terminal command generation status result_status message =
      elim command.controller_workflow_id [
        | none ↦ return none
        | some controller ↦ do
          let event : OperationStatusEvent = record {
            operation_id = command.operation_id;
            workflow_id = own_id;
            lifecycle_generation = generation;
            status = status;
            result_status = some result_status;
            message = message;
          }
          acknowledged ←
              call (signals_status controller event)
                (server.signal_operation_status controller event)
          return (
              if acknowledged
              then none
              else some "controller did not acknowledge terminal operation status")
      ]

  abbrev pub result_of :
      DeactivationInput
      → ℤ
      → ResultStatus
      → DeactivationPhase
      → Option String
      → Task (Run W) DeactivationResult
  result_of command generation status phase message s = (
    returned (record {
      store_key = command.store_key;
      operation_id = command.operation_id;
      lifecycle_generation = generation;
      status = status;
      phase = phase;
      message = message;
      completed_at = some (server.now s.world);
    }),
    s,
  )
