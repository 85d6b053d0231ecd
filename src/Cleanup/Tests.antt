-- ===== src/Cleanup/Tests.antt =====
-- A cleanup of two named users of a deactivating store, one at a time, of which one is named
-- twice.
use golden_retriever.Prelude.{
  String, ◌≡◌, refl, none, [], ◌∷◌, leb, elem, arith, str_dec, drop_ids, if◌then◌else◌,
}
use golden_retriever.Prelude.Int.{pos, ℤ_dec}
use golden_retriever.Prelude.Result.{ok}
use native.Mathlib.Decide.{ℕ_discrete}
use golden_retriever.Dict
use golden_retriever.Dict.{get, put}
use golden_retriever.Ids.{Builtins}
use golden_retriever.Models.Operations.{succeeded}
use golden_retriever.Models.Lifecycle.{CleanupWorkflowInput, deactivating}
use golden_retriever.Repository.{
  Repository, StoreRecord, deactivate_users_if_current, require_cleanup_generation, require,
  require_generation, count_members,
}
use golden_retriever.Task.{returned}
use golden_retriever.Cleanup.Workflows.{batches, batch_loop, cleanup_users, cleanup_answer}
use golden_retriever.Cleanup.Batches.{flatten, AllWithin, batches_partition}
use golden_retriever.Cleanup.Direct.{Texts, direct}
use golden_retriever.Cleanup.Subset.{cleanup_users_subset}

abbrev py : Builtins
py = record {
  digest = λ namespace parts. "abcdefghijklmnopqrstuvwxyz234567";
  decimal = λ n. if leb n 0 then "0" else "1";
}

abbrev texts : Texts
texts = record { of_error = λ e. "error"; of_message = λ m. "message" }

abbrev store : StoreRecord
store = record {
  store_key = "store";
  lifecycle_state = deactivating;
  lifecycle_generation = pos 5;
  last_lifecycle_transition = 1;
  active_users = "ann" ∷ "bob" ∷ "cy" ∷ [];
  retrieval_state = Dict.empty;
  documents = Dict.empty;
}

abbrev repo : Repository
repo = record { entries = ("store", store) ∷ [] }

abbrev command : CleanupWorkflowInput
command = record {
  store_key = "store";
  lifecycle_generation = pos 5;
  user_keys = "ann" ∷ "cy" ∷ "ann" ∷ "eve" ∷ [];
  user_concurrency = pos 2;
}

abbrev after : Repository
after = put "store" (record store { active_users = "bob" ∷ [] }) repo

one_call :
    deactivate_users_if_current "store" (pos 5) ("ann" ∷ "cy" ∷ "ann" ∷ "eve" ∷ []) repo
    ≡ ok (2, after)
unfolding deactivate_users_if_current require_cleanup_generation require require_generation get
    Dict.lookup str_dec ℤ_dec ℕ_discrete count_members drop_ids elem put Dict.insert
one_call = refl

cleanup_users_subset_example :
    ((cleanup_users py (direct texts) command repo).0
      ≡ returned (cleanup_answer command succeeded 2 none))
    × ((j : String) → get j (cleanup_users py (direct texts) command repo).1 ≡ get j after)
cleanup_users_subset_example = cleanup_users_subset py texts command repo 2 after refl refl one_call

batches_partition_example :
    (flatten (batches 2 ("ann" ∷ "cy" ∷ "eve" ∷ [])) ≡ "ann" ∷ "cy" ∷ "eve" ∷ [])
    × AllWithin 2 (batches 2 ("ann" ∷ "cy" ∷ "eve" ∷ []))
batches_partition_example = batches_partition 2 ("ann" ∷ "cy" ∷ "eve" ∷ []) (omega arith)

two_batches : batches 2 ("ann" ∷ "cy" ∷ "eve" ∷ []) ≡ ("ann" ∷ "cy" ∷ []) ∷ ("eve" ∷ []) ∷ []
unfolding batches batch_loop
two_batches = refl
