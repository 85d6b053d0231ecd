-- ===== src/Activities/Cleanup.antt =====
-- activities/cleanup.py, and what its results say of the repository.
use golden_retriever.Prelude.{
  ℕ, String, ◌≡◌, refl, ◌≢◌, ◌⊎◌, inl, inr, Option, none, some, List, arith,
}
use golden_retriever.Prelude.Int.{ℤ}
use golden_retriever.Prelude.Result.{ok, err}
use golden_retriever.Dict
use golden_retriever.Dict.{get, put, size}
use golden_retriever.Dict.Laws.{get-put}
use golden_retriever.Models.Operations.{ResultStatus, succeeded}
use golden_retriever.Models.Lifecycle.{Message, deactivating}
use golden_retriever.Repository.{
  Error, unknown_store, stale_generation, state_rejected, rejected, Outcome, Repository,
  StoreRecord, deactivate_users_if_current, remove_all_objects_if_current,
}
use golden_retriever.Repository.Rules.{require_cleanup_cases}
use golden_retriever.Activities.Ingestion.{caught}

pub record CleanupUsersRequest : Type 0 where
  pub store_key : String
  pub expected_generation : ℤ
  pub user_keys : List String

pub record CleanupResult : Type 0 where
  pub store_key : String
  pub expected_generation : ℤ
  pub status : ResultStatus
  pub affected : ℕ
  pub message : Option Message

abbrev pub cleanup_result : CleanupUsersRequest → ResultStatus → ℕ → Option Message → CleanupResult
cleanup_result command status affected message = record {
  store_key = command.store_key;
  expected_generation = command.expected_generation;
  status = status;
  affected = affected;
  message = message;
}

-- The result of a call of the repository; `_failure` is its second clause.
abbrev pub cleanup_answer :
    CleanupUsersRequest
    → Repository
    → Outcome (ℕ × Repository)
    → Outcome (CleanupResult × Repository)
cleanup_answer command repo (ok (affected, repo')) =
    ok (cleanup_result command succeeded affected none, repo')
cleanup_answer command repo (err e) = elim (caught e) [
  | none ↦ err e
  | some (status, message) ↦ ok (cleanup_result command status 0 (some message), repo)
]

unfoldable pub deactivate_users :
    CleanupUsersRequest → Repository → Outcome (CleanupResult × Repository)
deactivate_users command repo = cleanup_answer command repo (
    deactivate_users_if_current command.store_key command.expected_generation command.user_keys
      repo)

unfoldable pub remove_objects :
    CleanupUsersRequest → Repository → Outcome (CleanupResult × Repository)
remove_objects command repo =
    cleanup_answer command repo
      (remove_all_objects_if_current command.store_key command.expected_generation repo)

-- A store that is deactivating under the command's generation.
abbrev pub Cleanable : CleanupUsersRequest → StoreRecord → Repository → Type 0
Cleanable command r repo =
    (get command.store_key repo ≡ some r)
    × (r.lifecycle_generation ≡ command.expected_generation)
    × (r.lifecycle_state ≡ deactivating)

-- A success counts every document that was there, and the store has no documents and no retrieval
-- state after it; any other result counts nothing and leaves the repository as it was.
abbrev pub Removes :
    CleanupUsersRequest → Repository → Outcome (CleanupResult × Repository) → Type 0
Removes command repo (err e) = Unit {0}
Removes command repo (ok (result, repo')) =
    ((r r' : StoreRecord) × Cleanable command r repo
      × (result.status ≡ succeeded)
      × (result.affected ≡ size r.documents)
      × (get command.store_key repo' ≡ some r')
      × (r'.documents ≡ Dict.empty)
      × (r'.retrieval_state ≡ Dict.empty)
      × (r'.active_users ≡ r.active_users))
    ⊎ ((result.status ≢ succeeded) × (result.affected ≡ 0) × (repo' ≡ repo))

refused :
    (command : CleanupUsersRequest) (repo : Repository) (e : Error)
    → Removes command repo (cleanup_answer command repo (err e))
refused command repo (unknown_store k) = tt
refused command repo (stale_generation a b) = inr ((λ h. ground (arith, h)), refl, refl)
refused command repo (state_rejected s) = inr ((λ h. ground (arith, h)), refl, refl)
refused command repo (rejected t) = inr ((λ h. ground (arith, h)), refl, refl)

-- When `remove_objects` reports success, the store was deactivating under the command's
-- generation, every document is counted, and no document and no retrieval state is left, while
-- the users stay; any other result counts nothing and leaves the repository as it was.
pub remove_objects-Removes :
    (command : CleanupUsersRequest) (repo : Repository)
    → Removes command repo (remove_objects command repo)
unfolding remove_objects remove_all_objects_if_current
remove_objects-Removes command repo =
    require_cleanup_cases (λ h. Removes command repo (cleanup_answer command repo h)) repo
      command.store_key command.expected_generation _ (λ e _. refused command repo e)
      (λ r there current closing.
        let r' : StoreRecord = record r { documents = Dict.empty; retrieval_state = Dict.empty } in
        inl (
          r,
          r',
          (there, current, closing),
          refl,
          refl,
          ground (arith, get-put command.store_key command.store_key r' repo),
          refl,
          refl,
          refl,
        ))
