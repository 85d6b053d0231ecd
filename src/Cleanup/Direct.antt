-- ===== src/Cleanup/Direct.antt =====
-- The cleanup workflows over the repository, when nothing else runs.
use golden_retriever.Prelude.{String, none, some}
use golden_retriever.Prelude.Result.{ok, err}
use golden_retriever.Models.Lifecycle.{Message}
use golden_retriever.Repository.{Error, Outcome, Repository}
use golden_retriever.Activities.Cleanup as Activity
use golden_retriever.Activities.Cleanup.{deactivate_users, CleanupUsersRequest}
use golden_retriever.Task.{Exit, returned, raised, canceled}
use golden_retriever.Cleanup.{CleanupResult}
use golden_retriever.Cleanup.Workflows.{Gathered, completed, threw, cut_off, Joins}

-- Activities and children that run at once, over the repository; the texts of errors and
-- messages are parameters.
pub record Texts : Type 0 where
  pub of_error : Error → String
  pub of_message : Message → String

module _ (texts : Texts) where
  abbrev pub result_with : Activity.CleanupResult → CleanupResult
  result_with r = record {
    store_key = r.store_key;
    expected_generation = r.expected_generation;
    status = r.status;
    affected = r.affected;
    message = elim r.message [ none ↦ none | some m ↦ some (texts.of_message m) ];
  }

  abbrev pub ran :
      Repository → Outcome (Activity.CleanupResult × Repository) → Exit CleanupResult × Repository
  ran repo (ok (r, repo')) = (returned (result_with r), repo')
  ran repo (err e) = (raised (texts.of_error e), repo)

  abbrev pub gather_one : Exit CleanupResult × Repository → Gathered × Repository
  gather_one (returned r, repo) = (completed r, repo)
  gather_one (raised message, repo) = (threw message, repo)
  gather_one (canceled, repo) = (cut_off, repo)

  abbrev pub direct : Joins Repository
  direct = record {
    deactivate_users_generation_fenced = λ request repo. ran repo (deactivate_users request repo);
    remove_objects_generation_fenced =
        λ request repo. ran repo (Activity.remove_objects request repo);
    child = λ id body. body;
    gathered = λ id body repo. gather_one (body repo);
  }
