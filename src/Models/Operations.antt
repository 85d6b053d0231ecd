-- ===== src/Models/Operations.antt =====
-- models/operations.py: commands, and the results that are remembered for them.
use golden_retriever.Prelude.{ℕ, String, Bool, Option}
use golden_retriever.Prelude.Int.{ℤ}
use golden_retriever.Dict.{Dict}

pub data WorkClass : Type 0 where
  interactive incremental recent_activation backfill cleanup : WorkClass

pub data OperationType : Type 0 where
  sync remediation deactivation cleanup : OperationType

pub data OperationStatus : Type 0 where
  accepted running completed failed canceled rejected : OperationStatus

pub data ResultStatus : Type 0 where
  succeeded partial failed canceled rejected stale_generation : ResultStatus

pub record SyncCommand : Type 0 where
  pub command_id : String
  pub store_key : String
  pub expected_generation : ℤ
  pub sync_sequence : String
  pub work_class : WorkClass
  pub requested_at : Option ℕ
  pub metadata : Dict String

pub record CancelSyncCommand : Type 0 where
  pub command_id : String
  pub store_key : String
  pub operation_id : String
  pub reason : Option String
  pub requested_at : Option ℕ

pub record StartDeactivationCommand : Type 0 where
  pub command_id : String
  pub store_key : String
  pub expected_generation : ℤ
  pub requested_at : Option ℕ

pub record OperationAccepted : Type 0 where
  pub command_id : String
  pub operation_id : String
  pub workflow_id : String
  pub operation_type : OperationType
  pub lifecycle_generation : ℤ
  pub duplicate : Bool

pub record CancellationAccepted : Type 0 where
  pub command_id : String
  pub operation_id : String
  pub accepted : Bool
  pub duplicate : Bool
  pub reason : Option String

-- Of `details`, what is read: `accepted`, if it is there. `result_status` and `completed_at` keep
-- their default, None, wherever a value is made, and are left out.
pub record CommandResult : Type 0 where
  pub command_id : String
  pub operation_id : String
  pub operation_type : OperationType
  pub status : OperationStatus
  pub lifecycle_generation : ℤ
  pub workflow_id : Option String
  pub message : Option String
  pub details_accepted : Option Bool
