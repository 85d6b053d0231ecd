-- ===== src/Models/Lifecycle.antt =====
-- models/lifecycle.py
use golden_retriever.Prelude.{ℕ, String, Bool, Option, List}
use golden_retriever.Prelude.Int.{ℤ}
use golden_retriever.Dict.{Dict}
use golden_retriever.Models.Operations.{CommandResult, OperationStatus, ResultStatus}

pub data StoreLifecycleState : Type 0 where
  active syncing deactivating inactive deactivation_failed : StoreLifecycleState

pub data DeactivationPhase : Type 0 where
  pending fencing canceling draining cleaning_users removing_objects marking_inactive completed
        failed :
      DeactivationPhase

pub record BeginStoreDeactivation : Type 0 where
  pub store_key : String
  pub expected_generation : ℤ

pub record ResumeStoreDeactivation : Type 0 where
  pub store_key : String
  pub lifecycle_generation : ℤ

-- `lifecycle_state` keeps its default, DEACTIVATING, wherever the value is made.
pub record NewGeneration : Type 0 where
  pub store_key : String
  pub previous_generation : ℤ
  pub lifecycle_generation : ℤ
  pub transitioned_at : Option ℕ

pub record LifecycleFence : Type 0 where
  pub store_key : String
  pub expected_generation : ℤ
  pub allowed_states : List StoreLifecycleState

-- The text of a result: a constant, or an exception's, which is kept as its values.
pub data Message : Type 0 where
  text : String → Message
  stale : ℤ → ℤ → Message
  rejects : StoreLifecycleState → Message

pub record LifecycleMutationResult : Type 0 where
  pub store_key : String
  pub expected_generation : ℤ
  pub authoritative_generation : ℤ
  pub status : ResultStatus
  pub lifecycle_state : StoreLifecycleState
  pub message : Option Message

pub record SyncRegistration : Type 0 where
  pub operation_id : String
  pub workflow_id : String
  pub lifecycle_generation : ℤ
  pub sync_sequence : String
  pub status : OperationStatus
  pub started_at : Option ℕ

pub record RemediationRegistration : Type 0 where
  pub operation_id : String
  pub workflow_id : String
  pub lifecycle_generation : ℤ
  pub sync_sequence : String
  pub status : OperationStatus
  pub started_at : Option ℕ

-- The float `deactivation_drain_timeout_seconds`, which is only passed on, is left out.
pub record StoreControllerState : Type 0 where
  pub store_key : String
  pub lifecycle_state : StoreLifecycleState
  pub lifecycle_generation : ℤ
  pub active_syncs : Dict SyncRegistration
  pub active_remediations : Dict RemediationRegistration
  pub active_deactivation_id : Option String
  pub quota_workflow_ids : List String
  pub recent_command_results : Dict CommandResult
  pub continue_as_new_requested : Bool
  pub command_dedup_window_size : ℤ
  pub enable_search_attributes : Bool
  pub active_deactivation_fenced : Bool
  pub authority_initialized : Bool

pub record StoreControllerSnapshot : Type 0 where
  pub store_key : String
  pub lifecycle_state : StoreLifecycleState
  pub lifecycle_generation : ℤ
  pub active_sync_ids : List String
  pub active_remediation_ids : List String
  pub active_deactivation_id : Option String
  pub recent_command_count : ℕ

-- `drain_timeout_seconds`, a float, is left out.
pub record DeactivationInput : Type 0 where
  pub store_key : String
  pub expected_generation : ℤ
  pub command_id : String
  pub operation_id : String
  pub controller_workflow_id : Option String
  pub sync_workflow_ids : List String
  pub remediation_workflow_ids : List String
  pub quota_workflow_ids : List String
  pub enable_search_attributes : Bool
  pub resume_same_generation : Bool

pub record OperationStatusEvent : Type 0 where
  pub operation_id : String
  pub workflow_id : String
  pub lifecycle_generation : ℤ
  pub status : OperationStatus
  pub result_status : Option ResultStatus
  pub message : Option String

pub record RemediationStatusEvent : Type 0 where
  pub operation_id : String
  pub workflow_id : String
  pub lifecycle_generation : ℤ
  pub sync_sequence : String
  pub status : OperationStatus
  pub result_status : Option ResultStatus
  pub message : Option String

pub record DeactivationFencedEvent : Type 0 where
  pub operation_id : String
  pub workflow_id : String
  pub lifecycle_generation : ℤ

pub record OperationDrained : Type 0 where
  pub operation_id : String
  pub workflow_id : String

-- `completed_at` is always the time of the result.
pub record DeactivationResult : Type 0 where
  pub store_key : String
  pub operation_id : String
  pub lifecycle_generation : ℤ
  pub status : ResultStatus
  pub phase : DeactivationPhase
  pub message : Option String
  pub completed_at : Option ℕ

pub record CleanupWorkflowInput : Type 0 where
  pub store_key : String
  pub lifecycle_generation : ℤ
  pub user_keys : List String
  pub user_concurrency : ℤ
