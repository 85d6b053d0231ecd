-- ===== src/Controller/State.antt =====
-- What the handlers of workflows/store_controller.py share: errors, effects, `_remember`,
-- `_duplicate_operation` and the checks of a command.
use text.Mathlib.Text.{◌==◌ as str_eq}
use golden_retriever.Prelude.{
  ℕ, ◌-◌, max, String, true, false, not, none, some, List, [], ◌∷◌, take, ◌==◌,
}
use golden_retriever.Prelude.Int.{ℤ, pos, pos_part, leb_ℤ}
use golden_retriever.Prelude.Result.{Result, raise_unless, ◌>>◌}
use golden_retriever.Dict.{Dict, put, remove, size, keys}
use golden_retriever.Models.Operations.{CommandResult, OperationAccepted}
use golden_retriever.Models.Lifecycle.{
  StoreControllerState, StoreLifecycleState, DeactivationInput, OperationDrained,
}
use golden_retriever.Models.Sync.{StoreSyncInput}

-- An `ApplicationError` by its type (for a store that takes no sync, with the state that its
-- message names), the `ValueError` of an id, and the failure of a call of the Temporal server.
pub data Error : Type 0 where
  application_error : String → Error
  store_not_syncable : StoreLifecycleState → Error
  value_error : Error
  temporal_error : Error

abbrev pub Outcome {ℓ} : Type ℓ → Type ℓ
Outcome A = Result Error A

-- What a handler asks of the Temporal server.
pub data Effect : Type 0 where
  start_root_sync : String → StoreSyncInput → Effect
  start_deactivate_store : String → DeactivationInput → Effect
  cancel_workflow : String → Effect
  signal_operation_drained : String → OperationDrained → Effect

-- `for command_id in ids: del recent[command_id]`
unfoldable pub forget {ℓ} : {V : Type ℓ} → List String → Dict V → Dict V
forget [] d = d
forget (k ∷ ks) d = forget ks (remove k d)

-- `recent` after `_remember`, with the window that `max(1, ...)` makes positive.
unfoldable pub remember_in : ℕ → CommandResult → Dict CommandResult → Dict CommandResult
unfolding forget
remember_in window result recent =
    let grown = put result.command_id result recent in
    forget (take (size grown - window) (keys grown)) grown

unfoldable pub remember : CommandResult → StoreControllerState → StoreControllerState
unfolding remember_in
remember result s = record s {
  recent_command_results =
      remember_in (max 1 (pos_part s.command_dedup_window_size)) result s.recent_command_results;
}

unfoldable pub duplicate_operation : CommandResult → OperationAccepted
duplicate_operation result = record {
  command_id = result.command_id;
  operation_id = result.operation_id;
  -- `workflow_id or operation_id`
  workflow_id = elim result.workflow_id [
    | none ↦ result.operation_id
    | some w ↦ elim (str_eq w "") [ true ↦ result.operation_id | false ↦ w ]
  ];
  operation_type = result.operation_type;
  lifecycle_generation = result.lifecycle_generation;
  duplicate = true;
}

unfoldable pub validate_store : String → StoreControllerState → Outcome (Unit {0})
validate_store store_key s =
    raise_unless (store_key == s.store_key) (application_error "ControllerStoreMismatch")

-- The command of a finished handler: it returned or raised.
abbrev pub Handled {ℓ} : Type ℓ → Type ℓ
Handled A = Outcome (A × StoreControllerState × List Effect)

module _ (strip : String → String) where
  unfoldable pub validate_command_identity :
      String → String → StoreControllerState → Outcome (Unit {0})
  unfolding validate_store
  validate_command_identity command_id store_key s = do
    validate_store store_key s
    raise_unless (not (strip command_id == "")) (application_error "InvalidCommand")

unfoldable pub validate_generation : ℤ → Outcome (Unit {0})
validate_generation generation =
    raise_unless (leb_ℤ (pos 0) generation) (application_error "InvalidCommand")
