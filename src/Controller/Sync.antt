-- ===== src/Controller/Sync.antt =====
-- `_request_sync` and `_cancel_sync`, with their validators. What the Temporal server answers is
-- an argument: whether a child starts, and whether a cancellation is taken. A handler that
-- raises leaves the state as it was: every assignment comes after the last call that can raise.
use golden_retriever.Prelude.{
  ℕ, String, Bool, true, false, not, ◌||◌, Option, none, some, List, [], ◌∷◌, ◌++◌, elem, is_nil,
  ite, ◌==◌, if◌then◌else◌,
}
use golden_retriever.Prelude.Int.{ℤ, ℤ_dec}
use golden_retriever.Prelude.Result.{ok, err, raise_unless, ◌>>=◌, ◌>>◌}
use golden_retriever.Dict.{Dict, get, put}
use golden_retriever.Dict.Laws.{is_some}
use golden_retriever.Ids.{Builtins, store_sync_workflow_id, user_quota_workflow_id}
use golden_retriever.Models.Operations.{
  SyncCommand, CancelSyncCommand, CommandResult, OperationAccepted, CancellationAccepted, sync,
  OperationStatus,
}
use golden_retriever.Models.Lifecycle.{
  StoreControllerState, SyncRegistration, StoreLifecycleState, active, syncing,
}
use golden_retriever.Models.Quota.{QuotaScope}
use golden_retriever.Controller.State.{
  application_error, store_not_syncable, value_error, temporal_error, Outcome, Effect,
  start_root_sync, cancel_workflow, Handled, remember, duplicate_operation, validate_store,
  validate_command_identity, validate_generation,
}
use golden_retriever.Controller.SyncInput.{Texts, sync_input}

abbrev pub is_empty {ℓ} : {V : Type ℓ} → Dict V → Bool
is_empty d = is_nil d.entries

-- Of the state alone: a deactivation is active, or the lifecycle state is DEACTIVATING, INACTIVE
-- or DEACTIVATION_FAILED.
abbrev pub rejects_sync : StoreControllerState → Bool
rejects_sync s = is_some s.active_deactivation_id || is_closed s.lifecycle_state
  where
    is_closed : StoreLifecycleState → Bool
    is_closed active = false
    is_closed syncing = false
    is_closed _ = true

-- The ids of quota workflows after a sync with this scope.
abbrev pub add_quota_workflow : Builtins → Option QuotaScope → List String → List String
add_quota_workflow py none ids = ids
add_quota_workflow py (some scope) ids =
    let id = user_quota_workflow_id py scope.provider scope.credential_key scope.quota_class in
    if elem id ids then ids else ids ++ id ∷ []

-- The result that is remembered for a sync.
abbrev pub sync_result : SyncCommand → String → CommandResult
sync_result command workflow_id = record {
  command_id = command.command_id;
  operation_id = workflow_id;
  operation_type = sync;
  status = OperationStatus.accepted;
  lifecycle_generation = command.expected_generation;
  workflow_id = some workflow_id;
  message = none;
  details_accepted = none;
}

abbrev pub same_generation : ℤ → ℤ → Bool
same_generation a b = ite (ℤ_dec a b) true false

abbrev pub registration_of : SyncCommand → String → ℕ → SyncRegistration
registration_of command workflow_id now = record {
  operation_id = workflow_id;
  workflow_id = workflow_id;
  lifecycle_generation = command.expected_generation;
  sync_sequence = command.sync_sequence;
  status = OperationStatus.running;
  started_at = some now;
}

abbrev pub accepted_sync : SyncCommand → String → OperationAccepted
accepted_sync command workflow_id = record {
  command_id = command.command_id;
  operation_id = workflow_id;
  workflow_id = workflow_id;
  operation_type = sync;
  lifecycle_generation = command.expected_generation;
  duplicate = false;
}

abbrev pub or_value_error : Option String → Outcome String
or_value_error none = err value_error
or_value_error (some id) = ok id

module _ (py : Builtins) (texts : Texts) where
  -- The checks after the one for a duplicate, in order.
  unfoldable pub check_syncable : SyncCommand → StoreControllerState → Outcome (Unit {0})
  check_syncable command s = do
    raise_unless (same_generation command.expected_generation s.lifecycle_generation)
        (application_error "StaleLifecycleGeneration")
    raise_unless (not (rejects_sync s)) (store_not_syncable s.lifecycle_state)
    raise_unless (is_empty s.active_syncs) (application_error "SyncAlreadyRunning")
    raise_unless (is_empty s.active_remediations) (application_error "RemediationAlreadyRunning")

  -- A command that is no duplicate. `own_id` is the controller's workflow id.
  unfoldable pub start_sync :
      Bool → String → ℕ → SyncCommand → StoreControllerState → Handled OperationAccepted
  unfolding check_syncable
  start_sync starts own_id now command s = do
    check_syncable command s
    input ← sync_input texts own_id command s
    workflow_id ← or_value_error (
        store_sync_workflow_id py command.store_key command.expected_generation
          command.sync_sequence)
    raise_unless starts temporal_error
    let begun = record s {
      active_syncs = put workflow_id (registration_of command workflow_id now) s.active_syncs;
      quota_workflow_ids = add_quota_workflow py input.quota_scope s.quota_workflow_ids;
      lifecycle_state = syncing;
    }
    ok (
      accepted_sync command workflow_id,
      remember (sync_result command workflow_id) begun,
      start_root_sync workflow_id input ∷ [],
    )

  unfoldable pub request_sync :
      Bool → String → ℕ → SyncCommand → StoreControllerState → Handled OperationAccepted
  unfolding start_sync
  request_sync starts own_id now command s = do
    validate_store command.store_key s
    elim (get command.command_id s.recent_command_results) [
      | some result ↦ ok (duplicate_operation result, s, [])
      | none ↦ start_sync starts own_id now command s
    ]

  unfoldable pub validate_request_sync : SyncCommand → StoreControllerState → Outcome (Unit {0})
  validate_request_sync command s = do
    validate_command_identity texts.strip command.command_id command.store_key s
    validate_generation command.expected_generation
    raise_unless (not (texts.strip command.sync_sequence == ""))
        (application_error "InvalidSyncCommand")

  unfoldable pub validate_cancel_sync :
      CancelSyncCommand → StoreControllerState → Outcome (Unit {0})
  validate_cancel_sync command s = do
    validate_command_identity texts.strip command.command_id command.store_key s
    raise_unless (not (texts.strip command.operation_id == ""))
        (application_error "InvalidCancelCommand")

abbrev pub repeated_cancellation : CancelSyncCommand → CommandResult → CancellationAccepted
repeated_cancellation command result = record {
  command_id = command.command_id;
  operation_id = result.operation_id;
  accepted = elim result.details_accepted [ none ↦ true | some accepted ↦ accepted ];
  duplicate = true;
  reason = result.message;
}

abbrev pub cancellation_result :
    CancelSyncCommand → Option SyncRegistration → StoreControllerState → CommandResult
cancellation_result command registration s = record {
  command_id = command.command_id;
  operation_id = command.operation_id;
  operation_type = sync;
  status = if is_some registration then OperationStatus.accepted else OperationStatus.rejected;
  lifecycle_generation = s.lifecycle_generation;
  workflow_id = elim registration [ none ↦ none | some r ↦ some r.workflow_id ];
  message = if is_some registration then none else some "sync is not active";
  details_accepted = some (is_some registration);
}

-- The effect of a cancellation: it may raise only if there is a registration.
abbrev pub cancel_registered : Bool → Option SyncRegistration → Outcome (List Effect)
cancel_registered cancels none = ok []
cancel_registered cancels (some r) =
    if cancels then ok (cancel_workflow r.workflow_id ∷ []) else err temporal_error

unfoldable pub cancel_sync :
    Bool → CancelSyncCommand → StoreControllerState → Handled CancellationAccepted
cancel_sync cancels command s = do
  validate_store command.store_key s
  elim (get command.command_id s.recent_command_results) [
    | some result ↦ ok (repeated_cancellation command result, s, [])
    | none ↦ do
      let registration = get command.operation_id s.active_syncs
      let result = cancellation_result command registration s
      effects ← cancel_registered cancels registration
      ok (
        record {
          command_id = command.command_id;
          operation_id = command.operation_id;
          accepted = is_some registration;
          duplicate = false;
          reason = result.message;
        },
        remember result s,
        effects,
      )
  ]
