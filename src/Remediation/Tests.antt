-- ===== src/Remediation/Tests.antt =====
-- Three users, one after the other, with a continue-as-new after the first: one is activated,
-- one has an error, and the child of one raises.
use golden_retriever.Prelude.{
  String, ◌≡◌, refl, suc, true, false, none, some, List, [], ◌∷◌, ◌==◌, leb, str_dec, length,
  if◌then◌else◌,
}
use golden_retriever.Prelude.Int.{pos}
use native.Mathlib.Decide.{ℕ_discrete}
use golden_retriever.Ids.{Builtins, user_sync_workflow_id, opaque_store_key, key_text}
use golden_retriever.Models.Operations.{WorkClass, ResultStatus}
use golden_retriever.Models.Sync.{FailedUserRemediationInput, ActivateUserInput, SyncResult}
use golden_retriever.Remediation.{
  Gathered, completed, threw, Ended, finished, activate, activate_all, tally, tally_all,
  run_batches, run, execute,
}
use golden_retriever.Remediation.Rollover.{Final, remediation_ends}

abbrev py : Builtins
py = record {
  digest = λ namespace parts. "abcdefghijklmnopqrstuvwxyz234567";
  decimal = λ n. if leb n 0 then "0" else "1";
}

abbrev result : ResultStatus → List String → SyncResult
result status errors = record {
  store_key = "store";
  lifecycle_generation = pos 1;
  sync_sequence = "s:remediation";
  status = status;
  progress = record { phase = "completed"; users_completed = 1; users_failed = 0 };
  failed_user_keys = [];
  errors = errors;
}

abbrev child : String → ActivateUserInput → Gathered
child id input =
    if input.user_key == "ann"
    then completed (result ResultStatus.succeeded [])
    else if input.user_key == "bob"
    then completed (result ResultStatus.partial [])
    else threw "ChildWorkflowError"

abbrev command : FailedUserRemediationInput
command = record {
  store_key = "store";
  lifecycle_generation = pos 1;
  sync_sequence = "s";
  operation_id = "o";
  failed_user_keys = "ann" ∷ "bob" ∷ "cy" ∷ [];
  quota_scope = none;
  work_class = WorkClass.recent_activation;
  resource_types = "files" ∷ [];
  resource_concurrency = pos 1;
  files_page_window_size = pos 5;
  files_per_page_concurrency = pos 10;
  document_ingestion_concurrency = pos 20;
  provider_page_size = pos 100;
  provider_task_queue = "queue";
  priority_fairness_enabled = false;
  controller_workflow_id = some "controller";
  recent_page_cap = pos 5;
  enable_search_attributes = false;
  prior_completed_count = 4;
  prior_error_count = 0;
}

remediation_ends_example :
    (end : Ended) × (execute py child
        (suc (length command.failed_user_keys))
        command
        (true ∷ false ∷ [])
      ≡ some end)
    × Final py child command end
remediation_ends_example = remediation_ends py child command (true ∷ false ∷ [])

-- The sample of the first run is not passed on; that of the second has two errors.
three_users :
    execute py child 4 command (true ∷ false ∷ [])
    ≡ some (
        finished (record {
          completed_count = 5;
          error_count = 2;
          error_sample = "partial" ∷ "ChildWorkflowError" ∷ [];
        }))
unfolding execute run run_batches activate_all activate tally_all tally user_sync_workflow_id
    opaque_store_key key_text str_dec ℕ_discrete
three_users = refl
