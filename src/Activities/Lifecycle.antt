-- ===== src/Activities/Lifecycle.antt =====
-- activities/lifecycle.py. Where a method awaits the repository twice, the
-- calls that others make in between are the argument `between`. Metrics are left out.
use golden_retriever.Prelude.{
  ℕ, String, Bool, true, false, ◌||◌, Option, none, some, List, [], ◌∷◌, if◌then◌else◌,
}
use golden_retriever.Prelude.Int.{ℤ}
use golden_retriever.Prelude.Result.{Result, ok, err, ◌>>=◌}
use golden_retriever.Models.Operations.{ResultStatus, succeeded, failed, rejected, stale_generation}
use golden_retriever.Models.Lifecycle.{
  StoreLifecycleState, active, syncing, deactivating, inactive, deactivation_failed, Message, text,
  LifecycleFence, LifecycleMutationResult, BeginStoreDeactivation, ResumeStoreDeactivation,
  NewGeneration,
}
use golden_retriever.Models.Sync.{ActivateUserInput}
use golden_retriever.Repository.{
  Error, Outcome, Repository, StoreRecord, same_generation, get_store, begin_deactivation,
  resume_deactivation, mark_inactive, mark_deactivation_failed, activate_user_if_current,
}
use golden_retriever.Repository.Calls.{Call, run}
use golden_retriever.Activities.Ingestion.{caught}

-- An exception that the method of a transition turns into an `ApplicationError`, or another one.
pub data Raised : Type 0 where
  application_error : ResultStatus → Message → Raised
  passed_on : Error → Raised

abbrev converted : Error → Raised
converted e = elim (caught e) [
  | none ↦ passed_on e
  | some (status, message) ↦ application_error status message
]

abbrev pub transition_answer :
    Outcome (NewGeneration × Repository) → Result Raised (NewGeneration × Repository)
transition_answer (ok answer) = ok answer
transition_answer (err e) = err (converted e)

unfoldable pub begin_store_deactivation :
    ℕ → BeginStoreDeactivation → Repository → Result Raised (NewGeneration × Repository)
begin_store_deactivation now command repo =
    transition_answer (begin_deactivation now command.store_key command.expected_generation repo)

unfoldable pub resume_store_deactivation :
    ℕ → ResumeStoreDeactivation → Repository → Result Raised (NewGeneration × Repository)
resume_store_deactivation now command repo =
    transition_answer (resume_deactivation now command.store_key command.lifecycle_generation repo)

-- The result of a command of a generation, with a record of its store.
abbrev pub mutation_result :
    String → ℤ → ResultStatus → Option Message → StoreRecord → LifecycleMutationResult
mutation_result store_key expected status message record_now = record {
  store_key = store_key;
  expected_generation = expected;
  authoritative_generation = record_now.lifecycle_generation;
  status = status;
  lifecycle_state = record_now.lifecycle_state;
  message = message;
}

-- `state in states`
abbrev same_state : StoreLifecycleState → StoreLifecycleState → Bool
same_state active active = true
same_state syncing syncing = true
same_state deactivating deactivating = true
same_state inactive inactive = true
same_state deactivation_failed deactivation_failed = true
same_state _ _ = false

abbrev pub allows : List StoreLifecycleState → StoreLifecycleState → Bool
allows [] state = false
allows (x ∷ xs) state = same_state x state || allows xs state

unfoldable pub validate_lifecycle_generation :
    LifecycleFence → Repository → Outcome LifecycleMutationResult
validate_lifecycle_generation fence repo = do
  r ← get_store fence.store_key repo
  if same_generation r.lifecycle_generation fence.expected_generation
      then if allows fence.allowed_states r.lifecycle_state
        then ok (mutation_result fence.store_key fence.expected_generation succeeded none r)
        else ok (
            mutation_result fence.store_key fence.expected_generation rejected
              (some (text "lifecycle state rejects this operation")) r)
      else ok (
          mutation_result fence.store_key fence.expected_generation stale_generation
            (some (text "lifecycle generation is stale")) r)

-- The store is read again after the calls in between.
abbrev pub reported :
    List (ℕ × Call)
    → String
    → ℤ
    → ResultStatus
    → Option Message
    → Repository
    → Outcome (LifecycleMutationResult × Repository)
reported between store_key expected status message repo = do
  let later = run between repo
  r ← get_store store_key later
  ok (mutation_result store_key expected status message r, later)

abbrev pub reported_error :
    List (ℕ × Call)
    → String
    → ℤ
    → Repository
    → Error
    → Outcome (LifecycleMutationResult × Repository)
reported_error between store_key expected repo e = elim (caught e) [
  | none ↦ err e
  | some (status, message) ↦ reported between store_key expected status (some message) repo
]

unfoldable pub activate_user_generation_fenced :
    List (ℕ × Call)
    → ActivateUserInput
    → Repository
    → Outcome (LifecycleMutationResult × Repository)
activate_user_generation_fenced between command repo =
    elim (activate_user_if_current command.store_key command.lifecycle_generation command.user_key
      repo) [
        | err e ↦ reported_error between command.store_key command.lifecycle_generation repo e
        | ok (u, repo') ↦
            reported between command.store_key command.lifecycle_generation succeeded none repo'
      ]

-- Only a stale generation is caught here.
abbrev pub inactive_error :
    List (ℕ × Call)
    → NewGeneration
    → Repository
    → Error
    → Outcome (LifecycleMutationResult × Repository)
inactive_error between generation repo (Error.stale_generation a b) =
    reported between generation.store_key generation.lifecycle_generation stale_generation none repo
inactive_error between generation repo e = err e

unfoldable pub mark_store_inactive :
    ℕ
    → List (ℕ × Call)
    → NewGeneration
    → Repository
    → Outcome (LifecycleMutationResult × Repository)
mark_store_inactive now between generation repo =
    elim (mark_inactive now generation.store_key generation.lifecycle_generation repo) [
      | err e ↦ inactive_error between generation repo e
      | ok (r, repo') ↦ ok (
        mutation_result generation.store_key generation.lifecycle_generation succeeded none r,
        repo',
      )
    ]

unfoldable pub mark_store_deactivation_failed :
    ℕ → NewGeneration → Repository → Outcome (LifecycleMutationResult × Repository)
mark_store_deactivation_failed now generation repo = do
  (r, repo') ←
      mark_deactivation_failed now generation.store_key generation.lifecycle_generation repo
  ok (mutation_result generation.store_key generation.lifecycle_generation failed none r, repo')
