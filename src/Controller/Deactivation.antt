-- ===== src/Controller/Deactivation.antt =====
-- `_start_deactivation`, with its validator.
use golden_retriever.Prelude.{
  String, Bool, true, false, ◌&&◌, ◌||◌, none, some, [], ◌∷◌, map, sorted, if◌then◌else◌,
}
use golden_retriever.Prelude.Int.{ℤ, pos, ◌+ℤ◌}
use golden_retriever.Prelude.Result.{ok, raise_unless, ◌>>=◌, ◌>>◌}
use golden_retriever.Dict.{get}
use golden_retriever.Ids.{Builtins, store_deactivation_workflow_id}
use golden_retriever.Models.Operations.{
  StartDeactivationCommand, CommandResult, OperationAccepted, deactivation, OperationStatus,
}
use golden_retriever.Models.Lifecycle.{
  StoreControllerState, DeactivationInput, StoreLifecycleState, deactivating, inactive,
  deactivation_failed,
}
use golden_retriever.Controller.State.{
  application_error, temporal_error, Outcome, start_deactivate_store, Handled, remember,
  duplicate_operation, validate_store, validate_command_identity, validate_generation,
}
use golden_retriever.Controller.Sync.{same_generation, or_value_error}

abbrev pub deactivation_result :
    StartDeactivationCommand → String → OperationStatus → ℤ → CommandResult
deactivation_result command workflow_id status generation = record {
  command_id = command.command_id;
  operation_id = workflow_id;
  operation_type = deactivation;
  status = status;
  lifecycle_generation = generation;
  workflow_id = some workflow_id;
  message = none;
  details_accepted = none;
}

-- The answer to a command that another operation already covers: it is remembered for the command,
-- and reads as a duplicate.
abbrev pub joined : CommandResult → StoreControllerState → Handled OperationAccepted
joined result s = ok (duplicate_operation result, remember result s, [])

-- The generation of the deactivation that is active.
abbrev pub operation_generation : StoreControllerState → ℤ
operation_generation s =
    if s.active_deactivation_fenced then s.lifecycle_generation else s.lifecycle_generation +ℤ pos 1

-- DEACTIVATING or DEACTIVATION_FAILED
abbrev pub resumes : StoreLifecycleState → Bool
resumes deactivating = true
resumes deactivation_failed = true
resumes _ = false

abbrev pub is_inactive : StoreLifecycleState → Bool
is_inactive inactive = true
is_inactive _ = false

abbrev pub is_failed : StoreLifecycleState → Bool
is_failed deactivation_failed = true
is_failed _ = false

-- The command names the last generation, or the one before it.
abbrev pub is_done : StartDeactivationCommand → StoreControllerState → Bool
is_done command s =
    is_inactive s.lifecycle_state
    && (same_generation command.expected_generation s.lifecycle_generation
        || same_generation (command.expected_generation +ℤ pos 1) s.lifecycle_generation)

abbrev pub is_already_failed : StartDeactivationCommand → StoreControllerState → Bool
is_already_failed command s =
    is_failed s.lifecycle_state
    && same_generation (command.expected_generation +ℤ pos 1) s.lifecycle_generation

abbrev pub deactivation_input :
    String → StartDeactivationCommand → String → StoreControllerState → DeactivationInput
deactivation_input own_id command workflow_id s = record {
  store_key = command.store_key;
  expected_generation = command.expected_generation;
  command_id = command.command_id;
  operation_id = workflow_id;
  controller_workflow_id = some own_id;
  sync_workflow_ids = map (λ e. e.1.workflow_id) s.active_syncs.entries;
  remediation_workflow_ids = map (λ e. e.1.workflow_id) s.active_remediations.entries;
  quota_workflow_ids = sorted s.quota_workflow_ids;
  enable_search_attributes = s.enable_search_attributes;
  resume_same_generation = resumes s.lifecycle_state;
}

module _ (py : Builtins) where
  -- A new or a resumed deactivation.
  unfoldable pub begin_child :
      Bool → String → StartDeactivationCommand → StoreControllerState → Handled OperationAccepted
  begin_child starts own_id command s = do
    raise_unless (same_generation command.expected_generation s.lifecycle_generation)
        (application_error "StaleLifecycleGeneration")
    let resume_same_generation = resumes s.lifecycle_state
    let new_generation =
        if resume_same_generation
        then s.lifecycle_generation
        else command.expected_generation +ℤ pos 1
    workflow_id ←
        or_value_error (store_deactivation_workflow_id py command.store_key new_generation)
    raise_unless starts temporal_error
    let begun = record s {
      active_deactivation_id = some workflow_id;
      active_deactivation_fenced = resume_same_generation;
      lifecycle_state = deactivating;
    }
    let result = deactivation_result command workflow_id OperationStatus.accepted new_generation
    ok (
      record {
        command_id = command.command_id;
        operation_id = workflow_id;
        workflow_id = workflow_id;
        operation_type = deactivation;
        lifecycle_generation = new_generation;
        duplicate = false;
      },
      remember result begun,
      start_deactivate_store workflow_id (deactivation_input own_id command workflow_id s) ∷ [],
    )

  -- Nothing is active: the store is inactive already, has failed to become so, or is deactivated.
  unfoldable pub deactivate_idle :
      Bool → String → StartDeactivationCommand → StoreControllerState → Handled OperationAccepted
  unfolding begin_child
  deactivate_idle starts own_id command s =
      let id =
        or_value_error
          (store_deactivation_workflow_id py command.store_key s.lifecycle_generation) in
      let covered : OperationStatus → Handled OperationAccepted = λ status. id >>= λ workflow_id.
      joined (deactivation_result command workflow_id status s.lifecycle_generation) s in
      if is_done command s
      then covered OperationStatus.completed
      else if is_already_failed command s
      then covered OperationStatus.failed
      else begin_child starts own_id command s

  unfoldable pub start_deactivation :
      Bool → String → StartDeactivationCommand → StoreControllerState → Handled OperationAccepted
  unfolding deactivate_idle
  start_deactivation starts own_id command s = do
    validate_store command.store_key s
    elim (get command.command_id s.recent_command_results) [
      | some result ↦ ok (duplicate_operation result, s, [])
      | none ↦ elim s.active_deactivation_id [
        | some workflow_id ↦
            joined
              (deactivation_result command workflow_id OperationStatus.accepted
                (operation_generation s))
              s
        | none ↦ deactivate_idle starts own_id command s
      ]
    ]

unfoldable pub validate_start_deactivation :
    (String → String) → StartDeactivationCommand → StoreControllerState → Outcome (Unit {0})
validate_start_deactivation strip command s = do
  validate_command_identity strip command.command_id command.store_key s
  validate_generation command.expected_generation
