-- ===== src/Remediation.antt =====
-- workflows/failed_user_remediation.py: `FailedUserRemediationWorkflow`, with its
-- continue-as-new. What a child makes of its input is a parameter, so that a user key that is
-- named twice gets one outcome; the progress query, and a cancellation of the workflow itself
-- while it waits, are left out.
pub mod Counts
pub mod Rollover
mod Tests
use Prim.Native.String.{◌++◌ as append}
use golden_retriever.Prelude.{
  ℕ, zero, suc, ◌+◌, ◌-◌, String, Bool, true, false, not, ◌||◌, Option, none, some, List, [], ◌∷◌,
  ◌++◌, is_nil, length, take, drop, max, min, if◌then◌else◌,
}
use golden_retriever.Prelude.Int.{ℤ, pos, pos_part, leb_ℤ}
use golden_retriever.Ids.{Builtins, user_sync_workflow_id}
use golden_retriever.Models.Operations.{OperationStatus, ResultStatus}
use golden_retriever.Models.Lifecycle.{RemediationStatusEvent}
use golden_retriever.Models.Sync.{
  FailedUserRemediationInput, ActivateUserInput, SyncResult, SyncProgress,
}

-- A result of `gather`: of a child that returned, one that raised, by the name of the
-- exception's type, and one that was canceled.
pub data Gathered : Type 0 where
  completed : SyncResult → Gathered
  threw : String → Gathered
  cut_off : Gathered

abbrev pub status_value : ResultStatus → String
status_value ResultStatus.succeeded = "succeeded"
status_value ResultStatus.partial = "partial"
status_value ResultStatus.failed = "failed"
status_value ResultStatus.canceled = "canceled"
status_value ResultStatus.rejected = "rejected"
status_value ResultStatus.stale_generation = "stale_generation"

abbrev pub is_succeeded : ResultStatus → Bool
is_succeeded ResultStatus.succeeded = true
is_succeeded _ = false

abbrev pub activation_input : FailedUserRemediationInput → String → ActivateUserInput
activation_input command user_key = record {
  store_key = command.store_key;
  lifecycle_generation = command.lifecycle_generation;
  sync_sequence = append command.sync_sequence ":remediation";
  user_key = user_key;
  quota_scope = command.quota_scope;
  work_class = command.work_class;
  recent_page_cap =
      if leb_ℤ command.recent_page_cap (pos 0) then pos 1 else command.recent_page_cap;
  resource_types = command.resource_types;
  resource_concurrency = command.resource_concurrency;
  files_page_window_size = command.files_page_window_size;
  files_per_page_concurrency = command.files_per_page_concurrency;
  document_ingestion_concurrency = command.document_ingestion_concurrency;
  provider_page_size = command.provider_page_size;
  provider_task_queue = command.provider_task_queue;
  priority_fairness_enabled = command.priority_fairness_enabled;
}

-- `max(1, min(8, concurrency))`
abbrev pub batch_size : FailedUserRemediationInput → ℕ
batch_size command = max 1 (min 8 (pos_part command.resource_concurrency))

pub record Totals : Type 0 where
  pub completed_count : ℕ
  pub error_count : ℕ
  pub error_sample : List String

abbrev pub add_errors : List String → Totals → Totals
add_errors errors t = record t {
  error_count = t.error_count + length errors;
  error_sample = t.error_sample ++ take (100 - length t.error_sample) errors;
}

-- One result of a batch; `none` is a cancellation.
unfoldable pub tally : Gathered → Totals → Option Totals
tally cut_off t = none
tally (threw name) t = some (add_errors (name ∷ []) t)
tally (completed result) t =
    if not (is_succeeded result.status) || not (is_nil result.errors)
    then some (
        add_errors (if is_nil result.errors then status_value result.status ∷ [] else result.errors)
          t)
    else some (record t { completed_count = suc t.completed_count })

unfoldable pub tally_all : List Gathered → Totals → Option Totals
unfolding tally
tally_all [] t = some t
tally_all (r ∷ results) t = elim (tally r t) [ none ↦ none | some t' ↦ tally_all results t' ]

-- How one run of the workflow ends.
pub data Ended : Type 0 where
  finished : Totals → Ended
  stopped : Ended
  continued : FailedUserRemediationInput → Ended

-- The suggestion of a continue-as-new, and those to come.
abbrev pub is_suggested : List Bool → Bool
is_suggested [] = false
is_suggested (b ∷ bs) = b

abbrev pub later : List Bool → List Bool
later [] = []
later (b ∷ bs) = bs

module _ (py : Builtins) (child : String → ActivateUserInput → Gathered) where
  unfoldable pub activate : FailedUserRemediationInput → String → Gathered
  unfolding user_sync_workflow_id
  activate command user_key =
      elim (user_sync_workflow_id py command.store_key command.lifecycle_generation
        (append command.sync_sequence ":remediation") user_key) [
          | none ↦ threw "ValueError"
          | some id ↦ child id (activation_input command user_key)
        ]

  unfoldable pub activate_all : FailedUserRemediationInput → List String → List Gathered
  unfolding activate
  activate_all command [] = []
  activate_all command (k ∷ user_keys) = activate command k ∷ activate_all command user_keys

  -- The batches, on fuel, with the suggestions that are left.
  unfoldable pub run_batches :
      ℕ → FailedUserRemediationInput → List String → List Bool → Totals → Ended × List Bool
  unfolding activate_all tally_all
  run_batches zero command user_keys suggestions t = (finished t, suggestions)
  run_batches (suc n) command [] suggestions t = (finished t, suggestions)
  run_batches (suc n) command (k ∷ user_keys) suggestions t =
      let batch = take (batch_size command) (k ∷ user_keys) in
      let rest = drop (batch_size command) (k ∷ user_keys) in
      elim (tally_all (activate_all command batch) t) [
        | none ↦ (stopped, suggestions)
        | some t' ↦ elim rest [
          | [] ↦ (finished t', suggestions)
          | r ∷ rs ↦ elim (is_suggested suggestions) [
            | true ↦ (
              continued (record command {
                failed_user_keys = r ∷ rs;
                prior_completed_count = t'.completed_count;
                prior_error_count = t'.error_count;
              }),
              later suggestions,
            )
            | false ↦ run_batches n command (r ∷ rs) (later suggestions) t'
          ]
        ]
      ]

  abbrev pub prior : FailedUserRemediationInput → Totals
  prior command = record {
    completed_count = command.prior_completed_count;
    error_count = command.prior_error_count;
    error_sample = [];
  }

  unfoldable pub run : FailedUserRemediationInput → List Bool → Ended × List Bool
  unfolding run_batches
  run command suggestions =
      run_batches (length command.failed_user_keys) command command.failed_user_keys suggestions
        (prior command)

  -- The chain of runs, on fuel: `none` is a chain that has not ended.
  unfoldable pub execute : ℕ → FailedUserRemediationInput → List Bool → Option Ended
  unfolding run
  execute zero command suggestions = none
  execute (suc n) command suggestions =
      let (end, suggestions') = run command suggestions in
      elim end [
        | finished t ↦ some (finished t)
        | stopped ↦ some stopped
        | continued command' ↦ execute n command' suggestions'
      ]

-- `_report_terminal`: the events sent.
abbrev pub report_terminal :
    String
    → FailedUserRemediationInput
    → OperationStatus
    → ResultStatus
    → Option String
    → List (String × RemediationStatusEvent)
report_terminal own_id command status result_status message = elim command.controller_workflow_id [
  | none ↦ []
  | some controller ↦
      (
        controller,
        record {
          operation_id = command.operation_id;
          workflow_id = own_id;
          lifecycle_generation = command.lifecycle_generation;
          sync_sequence = command.sync_sequence;
          status = status;
          result_status = some result_status;
          message = message;
        },
      )
      ∷ []
]

abbrev pub result_status : Totals → ResultStatus
result_status t = elim t.error_count [
  | zero ↦ ResultStatus.succeeded
  | suc n ↦ ResultStatus.partial
]

abbrev pub sync_result : FailedUserRemediationInput → Totals → SyncResult
sync_result command t = record {
  store_key = command.store_key;
  lifecycle_generation = command.lifecycle_generation;
  sync_sequence = command.sync_sequence;
  status = result_status t;
  progress = record {
    phase = "completed";
    users_completed = t.completed_count;
    users_failed = t.error_count;
  };
  failed_user_keys = [];
  errors = t.error_sample;
}

-- The terminal result, if there is one, and the events to the controller, once a chain has ended.
unfoldable pub conclude :
    String
    → FailedUserRemediationInput
    → Ended
    → Option SyncResult × List (String × RemediationStatusEvent)
conclude own_id command (finished t) = (
  some (sync_result command t),
  report_terminal own_id command
      (elim t.error_count [ zero ↦ OperationStatus.completed | suc n ↦ OperationStatus.failed ])
      (result_status t) none,
)
conclude own_id command stopped =
    (none, report_terminal own_id command OperationStatus.canceled ResultStatus.canceled none)
conclude own_id command (continued command') = (none, [])
