-- ===== src/Deactivation/Store.antt =====
-- A world of the deactivation workflow: the activities over the repository, with writes of other
-- work that still carry the old generation before each of them. What the network makes of
-- signals, cancellations and the drain wait is a parameter, and so are the texts of exceptions.
use golden_retriever.Prelude.{ℕ, ◌+◌, String, Bool, true, false, List, [], ◌∷◌, if◌then◌else◌}
use golden_retriever.Prelude.Int.{ℤ, pos, ◌-ℤ◌}
use golden_retriever.Prelude.Result.{Result, ok, err}
use golden_retriever.Models.Lifecycle.{
  NewGeneration, LifecycleMutationResult, OperationDrained, DeactivationInput,
}
use golden_retriever.Repository.{Repository, Outcome}
use golden_retriever.Repository.Calls.{Write, run}
use golden_retriever.Repository.Teardown.{late}
use golden_retriever.Activities.Cleanup as Activity
use golden_retriever.Activities.Lifecycle.{
  Raised, begin_store_deactivation, resume_store_deactivation, mark_store_inactive,
  mark_store_deactivation_failed,
}
use golden_retriever.Cleanup.{CleanupResult}
use golden_retriever.Cleanup.Workflows.{cleanup_users, remove_objects}
use golden_retriever.Cleanup.Direct.{Texts, direct, result_with}
use golden_retriever.Task.{Exit, returned, raised, canceled}
use golden_retriever.Ids.{Builtins}
use golden_retriever.Deactivation.Server.{Answer, answered, failed_with, Reply, Server}

pub record Network : Type 0 where
  pub acknowledges : String → Bool
  pub replies : String → Reply
  pub drains : List String → List OperationDrained
  pub texts : Texts
  pub builtins : Builtins
  pub text_of_raised : Raised → String
  pub text_of_canceled : String

-- The batches of late writes that are still to come; without one, none come.
pub record Store : Type 0 where
  pub repository : Repository
  pub batches : List (List (ℕ × Write))
  pub clock : ℕ

abbrev pub next_batch : List (List (ℕ × Write)) → List (ℕ × Write)
next_batch [] = []
next_batch (b ∷ bs) = b

abbrev pub later_batches : List (List (ℕ × Write)) → List (List (ℕ × Write))
later_batches [] = []
later_batches (b ∷ bs) = bs

-- The generation that old work carries.
abbrev pub old_generation : DeactivationInput → ℤ
old_generation command =
    if command.resume_same_generation
    then command.expected_generation -ℤ pos 1
    else command.expected_generation

module _ (net : Network) (key : String) (old : ℤ) where
  -- The repository that an activity finds.
  abbrev pub found : Store → Repository
  found w = run (late key old (next_batch w.batches)) w.repository

  abbrev pub leaves : Store → Repository → Store
  leaves w repo = record {
    repository = repo;
    batches = later_batches w.batches;
    clock = w.clock + 1;
  }

  abbrev pub answer_transition :
      Store → Result Raised (NewGeneration × Repository) → Answer NewGeneration × Store
  answer_transition w (ok (generation, repo)) = (answered generation, leaves w repo)
  answer_transition w (err e) = (failed_with (net.text_of_raised e), leaves w (found w))

  -- What the activity's outcome is to the workflow.
  abbrev pub answer_cleanup :
      Store → Outcome (Activity.CleanupResult × Repository) → Answer CleanupResult × Store
  answer_cleanup w (ok (r, repo)) = (answered (result_with net.texts r), leaves w repo)
  answer_cleanup w (err e) = (failed_with (net.texts.of_error e), leaves w (found w))

  -- A cleanup child, joined. Its cancellation is an exception to its parent, like any other.
  abbrev pub answer_child : Store → Exit CleanupResult × Repository → Answer CleanupResult × Store
  answer_child w (returned r, repo) = (answered r, leaves w repo)
  answer_child w (raised message, repo) = (failed_with message, leaves w repo)
  answer_child w (canceled, repo) = (failed_with net.text_of_canceled, leaves w repo)

  abbrev pub answer_mark :
      Store
      → Outcome (LifecycleMutationResult × Repository)
      → Answer LifecycleMutationResult × Store
  answer_mark w (ok (r, repo)) = (answered r, leaves w repo)
  answer_mark w (err e) = (failed_with (net.texts.of_error e), leaves w (found w))

  abbrev pub persisted : Store → Outcome (LifecycleMutationResult × Repository) → Bool × Store
  persisted w (ok (r, repo)) = (true, leaves w repo)
  persisted w (err e) = (false, leaves w (found w))

  abbrev pub store_server : Server Store
  store_server = record {
    begin_store_deactivation =
        λ c w. answer_transition w (begin_store_deactivation w.clock c (found w));
    resume_store_deactivation =
        λ c w. answer_transition w (resume_store_deactivation w.clock c (found w));
    mark_store_inactive =
        λ generation w. answer_mark w (mark_store_inactive w.clock [] generation (found w));
    mark_store_deactivation_failed =
        λ generation w. persisted w (mark_store_deactivation_failed w.clock generation (found w));
    signal_deactivation_fenced = λ id e w. (net.acknowledges id, leaves w (found w));
    signal_operation_status = λ id e w. (net.acknowledges id, leaves w (found w));
    cancel_workflow = λ id w. (net.replies id, leaves w (found w));
    signal_cancel_generation = λ id c w. (net.replies id, leaves w (found w));
    wait_drained = λ ids w. (net.drains ids, leaves w (found w));
    cleanup_users =
        λ input w. answer_child w (cleanup_users net.builtins (direct net.texts) input (found w));
    remove_objects =
        λ input w. answer_child w (remove_objects net.builtins (direct net.texts) input (found w));
    now = λ w. w.clock;
  }
