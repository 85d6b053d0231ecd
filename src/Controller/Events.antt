-- ===== src/Controller/Events.antt =====
-- `_operation_status`, `_remediation_started`, `_remediation_finished`, `_deactivation_fenced`
-- and `_initialize_authority`. A failing signal or cancellation is only logged there, so the
-- effects are what the handlers attempt.
use golden_retriever.Prelude.{
  ℕ, String, Bool, true, false, not, ◌&&◌, ◌||◌, Option, none, some, List, [], ◌∷◌, ◌++◌, ◌==◌,
  if◌then◌else◌,
}
use golden_retriever.Prelude.Int.{ℤ, ltb_ℤ}
use golden_retriever.Dict.{get, put, remove, has}
use golden_retriever.Dict.Laws.{is_some}
use golden_retriever.Models.Operations.{OperationStatus, ResultStatus, succeeded, partial}
use golden_retriever.Models.Lifecycle.{
  StoreControllerState, OperationStatusEvent, RemediationStatusEvent, DeactivationFencedEvent,
  LifecycleMutationResult, StoreLifecycleState, active, syncing, deactivating, inactive,
  deactivation_failed,
}
use golden_retriever.Controller.State.{Effect, cancel_workflow, signal_operation_drained}
use golden_retriever.Controller.Sync.{is_empty}

abbrev pub is_terminal : OperationStatus → Bool
is_terminal OperationStatus.accepted = false
is_terminal OperationStatus.running = false
is_terminal _ = true

abbrev pub is_syncing : StoreLifecycleState → Bool
is_syncing syncing = true
is_syncing _ = false

abbrev pub is_active : StoreLifecycleState → Bool
is_active active = true
is_active _ = false

-- No sync and no remediation.
abbrev pub is_quiet : StoreControllerState → Bool
is_quiet s = is_empty s.active_syncs && is_empty s.active_remediations

-- SUCCEEDED or PARTIAL
abbrev pub is_good : Option ResultStatus → Bool
is_good (some succeeded) = true
is_good (some partial) = true
is_good _ = false

-- `max(a, b)`
abbrev pub max_ℤ : ℤ → ℤ → ℤ
max_ℤ a b = if ltb_ℤ a b then b else a

-- `_forward_drained`
abbrev pub forward_drained : OperationStatusEvent → StoreControllerState → List Effect
forward_drained event s = elim s.active_deactivation_id [
  | none ↦ []
  | some id ↦
      signal_operation_drained id
        (record { operation_id = event.operation_id; workflow_id = event.workflow_id })
      ∷ []
]

-- The two deletions, of a terminal event.
abbrev pub drop_sync :
    OperationStatusEvent → StoreControllerState → StoreControllerState × List Effect
drop_sync event s =
    if has event.operation_id s.active_syncs
    then (
      record s { active_syncs = remove event.operation_id s.active_syncs },
      forward_drained event s,
    )
    else (s, [])

abbrev pub drop_remediation :
    OperationStatusEvent → StoreControllerState → StoreControllerState × List Effect
drop_remediation event s =
    if has event.operation_id s.active_remediations
    then (
      record s { active_remediations = remove event.operation_id s.active_remediations },
      forward_drained event s,
    )
    else (s, [])

-- The end of the active deactivation.
unfoldable pub end_deactivation : OperationStatusEvent → StoreControllerState → StoreControllerState
end_deactivation event s =
    let fenced =
      s.active_deactivation_fenced || ltb_ℤ s.lifecycle_generation event.lifecycle_generation in
    let ended = record s { active_deactivation_id = none; active_deactivation_fenced = false } in
    if fenced
    then record ended {
      lifecycle_generation = max_ℤ s.lifecycle_generation event.lifecycle_generation;
      lifecycle_state = if is_good event.result_status then inactive else deactivation_failed;
    }
    else record ended { lifecycle_state = if is_quiet s then active else syncing }

abbrev pub is_id : Option String → String → Bool
is_id none id = false
is_id (some k) id = id == k

-- After the two deletions.
unfoldable pub settle_status : OperationStatusEvent → StoreControllerState → StoreControllerState
unfolding end_deactivation
settle_status event s =
    if is_id s.active_deactivation_id event.operation_id && is_terminal event.status
    then end_deactivation event s
    else if is_quiet s && is_syncing s.lifecycle_state
    then record s { lifecycle_state = active }
    else s

unfoldable pub clear_quota_workflows : StoreControllerState → StoreControllerState
clear_quota_workflows s =
    if is_quiet s && not (is_some s.active_deactivation_id)
    then record s { quota_workflow_ids = [] }
    else s

unfoldable pub operation_status :
    OperationStatusEvent → StoreControllerState → StoreControllerState × List Effect
unfolding settle_status clear_quota_workflows
operation_status event s =
    let terminal = is_terminal event.status in
    let synced = if terminal then drop_sync event s else (s, []) in
    let remediated = if terminal then drop_remediation event synced.0 else (synced.0, []) in
    (clear_quota_workflows (settle_status event remediated.0), synced.1 ++ remediated.1)

-- DEACTIVATING, INACTIVE or DEACTIVATION_FAILED
abbrev pub is_closed : StoreLifecycleState → Bool
is_closed active = false
is_closed syncing = false
is_closed _ = true

unfoldable pub remediation_started :
    ℕ → RemediationStatusEvent → StoreControllerState → StoreControllerState × List Effect
remediation_started now event s = elim (get event.operation_id s.active_remediations) [
  | some _ ↦ (s, [])
  | none ↦ (
    record s {
      active_remediations =
          put event.operation_id
            (record {
              operation_id = event.operation_id;
              workflow_id = event.workflow_id;
              lifecycle_generation = event.lifecycle_generation;
              sync_sequence = event.sync_sequence;
              status = event.status;
              started_at = some now;
            })
            s.active_remediations;
      lifecycle_state = if is_active s.lifecycle_state then syncing else s.lifecycle_state;
    },
    if is_closed s.lifecycle_state then cancel_workflow event.workflow_id ∷ [] else [],
  )
]

abbrev pub status_of : RemediationStatusEvent → OperationStatusEvent
status_of event = record {
  operation_id = event.operation_id;
  workflow_id = event.workflow_id;
  lifecycle_generation = event.lifecycle_generation;
  status = event.status;
  result_status = event.result_status;
  message = event.message;
}

unfoldable pub remediation_finished :
    RemediationStatusEvent → StoreControllerState → StoreControllerState × List Effect
unfolding operation_status
remediation_finished event s =
    if is_terminal event.status then operation_status (status_of event) s else (s, [])

unfoldable pub deactivation_fenced :
    DeactivationFencedEvent → StoreControllerState → StoreControllerState
deactivation_fenced event s =
    if not (is_id s.active_deactivation_id event.operation_id)
      || ltb_ℤ event.lifecycle_generation s.lifecycle_generation
    then s
    else record s {
      lifecycle_generation = event.lifecycle_generation;
      lifecycle_state = deactivating;
      active_deactivation_fenced = true;
    }

-- `result` is what the activity `validate_lifecycle_generation` returned.
unfoldable pub initialize_authority :
    LifecycleMutationResult → StoreControllerState → StoreControllerState
initialize_authority result s = if s.authority_initialized then s else record s {
  lifecycle_generation = result.authoritative_generation;
  lifecycle_state =
      if is_active result.lifecycle_state && not (is_quiet s)
      then syncing
      else result.lifecycle_state;
  authority_initialized = true;
}
