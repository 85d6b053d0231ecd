-- ===== src/Cleanup/Workflows.antt =====
-- The workflows of workflows/cleanup.py, over the activities and children that they join.
-- Options of calls and timeouts are left out.
use Prim.Native.String.{◌++◌ as append}
use golden_retriever.Prelude.{
  ℕ, zero, suc, ◌+◌, String, Bool, true, false, Option, none, some, List, [], ◌∷◌, is_nil, length,
  take, drop, dedupe, if◌then◌else◌,
}
use golden_retriever.Prelude.Int.{pos, pos_part, leb_ℤ}
use golden_retriever.Ids.{Builtins, Part, word, number, key_text, default_opaque_key_length}
use golden_retriever.Models.Operations.{ResultStatus, succeeded}
use golden_retriever.Models.Lifecycle.{CleanupWorkflowInput}
use golden_retriever.Activities.Cleanup.{CleanupUsersRequest}
use golden_retriever.Task.{Exit, returned, raised, canceled, Task}
use golden_retriever.Cleanup.{CleanupResult, activity_request}

-- A result of `gather`: of a child that returned, one that raised, by the name of the
-- exception's type, and one that was canceled.
pub data Gathered : Type 0 where
  completed : CleanupResult → Gathered
  threw : String → Gathered
  cut_off : Gathered

-- What the activities do, and what the Temporal server makes of a child, by its workflow id: one
-- that is awaited, and one that is gathered.
pub record Joins (W : Type 0) : Type 0 where
  pub deactivate_users_generation_fenced : CleanupUsersRequest → Task W CleanupResult
  pub remove_objects_generation_fenced : CleanupUsersRequest → Task W CleanupResult
  pub child : String → Task W CleanupResult → Task W CleanupResult
  pub gathered : String → Task W CleanupResult → W → Gathered × W

abbrev words : List String → List Part
words [] = []
words (k ∷ ks) = word k ∷ words ks

abbrev pub cleanup_workflow_id : Builtins → String → CleanupWorkflowInput → List String → String
cleanup_workflow_id py kind command parts = append kind (
    append "/" (
      key_text py.digest (append "cleanup-" kind) default_opaque_key_length
        (word command.store_key ∷ number command.lifecycle_generation ∷ words parts)))

-- `is not SUCCEEDED`
abbrev pub has_failed : CleanupResult → Bool
has_failed result = elim result.status [ succeeded ↦ false | _ ↦ true ]

abbrev pub cleanup_answer : CleanupWorkflowInput → ResultStatus → ℕ → Option String → CleanupResult
cleanup_answer command status affected message = record {
  store_key = command.store_key;
  expected_generation = command.lifecycle_generation;
  status = status;
  affected = affected;
  message = message;
}

-- `failure if failure is not None else result`
abbrev pub first_failure : Option CleanupResult → CleanupResult → Option CleanupResult
first_failure none result = some result
first_failure (some failure) result = some failure

-- The results of one batch, with the total and the failure so far; `none` is a cancellation.
unfoldable pub settle :
    CleanupWorkflowInput
    → List Gathered
    → ℕ
    → Option CleanupResult
    → Option (ℕ × Option CleanupResult)
settle command [] total failure = some (total, failure)
settle command (cut_off ∷ results) total failure = none
settle command (threw name ∷ results) total failure =
    settle command results total
      (first_failure failure (cleanup_answer command ResultStatus.failed 0 (some name)))
settle command (completed result ∷ results) total failure =
    settle command results (total + result.affected)
      (if has_failed result then first_failure failure result else failure)

-- `user_keys[offset : offset + size] for offset in range(0, len(user_keys), size)`, for a
-- positive size.
unfoldable pub batch_loop : ℕ → ℕ → List String → List (List String)
batch_loop zero size user_keys = []
batch_loop (suc n) size [] = []
batch_loop (suc n) size (k ∷ user_keys) =
    take size (k ∷ user_keys) ∷ batch_loop n size (drop size (k ∷ user_keys))

unfoldable pub batches : ℕ → List String → List (List String)
unfolding batch_loop
batches size user_keys = batch_loop (length user_keys) size user_keys

module _ {W : Type 0} (py : Builtins) (joins : Joins W) where
  unfoldable pub deactivate_one_user : CleanupWorkflowInput → Task W CleanupResult
  deactivate_one_user command = elim command.user_keys [
    | k ∷ [] ↦ joins.deactivate_users_generation_fenced (activity_request command)
    | _ ↦ λ w. (raised "DeactivateOneUserWorkflow requires exactly one user key", w)
  ]

  unfoldable pub deactivate_all_users : CleanupWorkflowInput → Task W CleanupResult
  deactivate_all_users command =
      let all_users : CleanupWorkflowInput = record command { user_keys = [] } in
      joins.deactivate_users_generation_fenced (activity_request all_users)

  unfoldable pub deactivate_user : CleanupWorkflowInput → Task W CleanupResult
  unfolding deactivate_one_user
  deactivate_user command = elim command.user_keys [
    | user_key ∷ [] ↦
        joins.child (cleanup_workflow_id py "deactivate-one-user" command (user_key ∷ []))
          (deactivate_one_user command)
    | _ ↦ λ w. (raised "DeactivateUserWorkflow requires exactly one user key", w)
  ]

  abbrev pub one_user : CleanupWorkflowInput → String → CleanupWorkflowInput
  one_user command user_key = record {
    store_key = command.store_key;
    lifecycle_generation = command.lifecycle_generation;
    user_keys = user_key ∷ [];
    user_concurrency = pos 1;
  }

  unfoldable pub gather_batch : CleanupWorkflowInput → List String → W → List Gathered × W
  unfolding deactivate_user
  gather_batch command [] w = ([], w)
  gather_batch command (user_key ∷ user_keys) w =
      let (result, w') =
        joins.gathered (cleanup_workflow_id py "deactivate-user" command (user_key ∷ []))
          (deactivate_user (one_user command user_key)) w in
      let (results, w'') = gather_batch command user_keys w' in (result ∷ results, w'')

  -- A batch that has a failure is the last.
  unfoldable pub run_batches :
      CleanupWorkflowInput → List (List String) → ℕ → W → Exit (ℕ × Option CleanupResult) × W
  unfolding gather_batch settle
  run_batches command [] total w = (returned (total, none), w)
  run_batches command (user_batch ∷ rest) total w =
      let (results, w') = gather_batch command user_batch w in
      elim (settle command results total none) [
        | none ↦ (canceled, w')
        | some (total', some failure) ↦ (returned (total', some failure), w')
        | some (total', none) ↦ run_batches command rest total' w'
      ]

  abbrev pub conclude :
      CleanupWorkflowInput → Exit (ℕ × Option CleanupResult) × W → Exit CleanupResult × W
  conclude command (returned (total, none), w) =
      (returned (cleanup_answer command succeeded total none), w)
  conclude command (returned (total, some failure), w) =
      (returned (cleanup_answer command failure.status total failure.message), w)
  conclude command (raised message, w) = (raised message, w)
  conclude command (canceled, w) = (canceled, w)

  unfoldable pub cleanup_users : CleanupWorkflowInput → Task W CleanupResult
  unfolding run_batches batches deactivate_all_users
  cleanup_users command w =
      if leb_ℤ command.user_concurrency (pos 0)
      then (raised "user_concurrency must be positive", w)
      else if is_nil command.user_keys
      then joins.child (cleanup_workflow_id py "deactivate-all-users" command [])
          (deactivate_all_users command) w
      else conclude command (
          run_batches command
            (batches (pos_part command.user_concurrency) (dedupe command.user_keys)) 0 w)

  unfoldable pub remove_objects : CleanupWorkflowInput → Task W CleanupResult
  remove_objects command = joins.remove_objects_generation_fenced (activity_request command)
