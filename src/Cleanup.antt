-- ===== src/Cleanup.antt =====
-- workflows/cleanup.py: the wire contracts and requests of the cleanup workflows.
pub mod Workflows
pub mod Direct
pub mod Batches
pub mod Subset
mod Tests
use golden_retriever.Prelude.{ℕ, String, Option}
use golden_retriever.Prelude.Int.{ℤ}
use golden_retriever.Models.Operations.{ResultStatus}
use golden_retriever.Models.Lifecycle.{CleanupWorkflowInput}
use golden_retriever.Activities.Cleanup.{CleanupUsersRequest}

-- The workflows' copy of the activity's result; the request's copy has the same fields.
pub record CleanupResult : Type 0 where
  pub store_key : String
  pub expected_generation : ℤ
  pub status : ResultStatus
  pub affected : ℕ
  pub message : Option String

abbrev pub activity_request : CleanupWorkflowInput → CleanupUsersRequest
activity_request command = record {
  store_key = command.store_key;
  expected_generation = command.lifecycle_generation;
  user_keys = command.user_keys;
}
