-- ===== src/Repository.antt =====
-- activities/repositories.py: `InMemoryRetrievalRepository`, the generation-fenced authority. The
-- lock makes each method one step. `datetime.now(UTC)` is the argument `now`.
pub mod Members
pub mod Rules
pub mod Calls
pub mod Fencing
pub mod Transitions
pub mod Retries
pub mod Teardown
mod Tests
use golden_retriever.Prelude.{
  ℕ, suc, ◌+◌, String, Bool, true, false, ◌&&◌, ◌||◌, not, Option, none, some, List, [], ◌∷◌, ◌++◌,
  if◌then◌else◌, ite, elem, drop_ids, length, is_nil,
}
use golden_retriever.Prelude.Int.{ℤ, pos, negsuc, ◌+ℤ◌, ◌-ℤ◌, leb_ℤ, ℤ_dec}
use golden_retriever.Prelude.Result.{Result, ok, err, ◌>>=◌, ◌>>◌, raise_unless}
use golden_retriever.Dict
use golden_retriever.Dict.{Dict, get, put, remove, size}
use golden_retriever.Models.Documents.{DocumentRef}
use golden_retriever.Models.Lifecycle.{
  StoreLifecycleState, active, syncing, deactivating, inactive, deactivation_failed, NewGeneration,
}

-- The exceptions: `KeyError`, `StaleLifecycleGenerationError` with its two generations, and
-- `LifecycleStateRejectedError` with the state, or the constant text, that its message names.
pub data Error : Type 0 where
  unknown_store : String → Error
  stale_generation : ℤ → ℤ → Error
  state_rejected : StoreLifecycleState → Error
  rejected : String → Error

abbrev pub Outcome {ℓ} : Type ℓ → Type ℓ
Outcome A = Result Error A

-- A set is a list without repetition.
pub record StoreRecord : Type 0 where
  pub store_key : String
  pub lifecycle_state : StoreLifecycleState
  pub lifecycle_generation : ℤ
  pub last_lifecycle_transition : ℕ
  pub active_users : List String
  pub retrieval_state : Dict String
  pub documents : Dict DocumentRef

abbrev pub Repository : Type 0
Repository = Dict StoreRecord

abbrev pub same_generation : ℤ → ℤ → Bool
same_generation a b = ite (ℤ_dec a b) true false

-- ACTIVE or SYNCING
abbrev pub is_writable : StoreLifecycleState → Bool
is_writable active = true
is_writable syncing = true
is_writable _ = false

-- DEACTIVATING, INACTIVE or DEACTIVATION_FAILED
abbrev pub is_fenced : StoreLifecycleState → Bool
is_fenced active = false
is_fenced syncing = false
is_fenced _ = true

abbrev pub is_deactivating : StoreLifecycleState → Bool
is_deactivating deactivating = true
is_deactivating _ = false

unfoldable pub require : Repository → String → Outcome StoreRecord
require repo key = elim (get key repo) [ none ↦ err (unknown_store key) | some r ↦ ok r ]

unfoldable pub require_generation : StoreRecord → ℤ → Outcome (Unit {0})
require_generation r expected =
    raise_unless (same_generation r.lifecycle_generation expected)
      (stale_generation expected r.lifecycle_generation)

unfoldable pub require_writable : Repository → String → ℤ → Outcome StoreRecord
unfolding require require_generation
require_writable repo key expected = do
  r ← require repo key
  require_generation r expected
  raise_unless (is_writable r.lifecycle_state) (state_rejected r.lifecycle_state)
  ok r

unfoldable pub require_cleanup_generation : Repository → String → ℤ → Outcome StoreRecord
unfolding require require_generation
require_cleanup_generation repo key expected = do
  r ← require repo key
  require_generation r expected
  raise_unless (is_deactivating r.lifecycle_state) (rejected "cleanup requires DEACTIVATING state")
  ok r

unfoldable pub ensure_store :
    ℕ → String → ℤ → StoreLifecycleState → Repository → StoreRecord × Repository
ensure_store now key generation state repo =
    let fresh : StoreRecord = record {
      store_key = key;
      lifecycle_state = state;
      lifecycle_generation = generation;
      last_lifecycle_transition = now;
      active_users = [];
      retrieval_state = Dict.empty;
      documents = Dict.empty;
    } in
    elim (get key repo) [ none ↦ (fresh, put key fresh repo) | some r ↦ (r, repo) ]

unfoldable pub get_store : String → Repository → Outcome StoreRecord
unfolding require
get_store key repo = require repo key

-- A transition commits a state and a generation, with its time.
abbrev pub transition : ℕ → StoreLifecycleState → ℤ → StoreRecord → StoreRecord
transition now state generation r = record r {
  lifecycle_state = state;
  lifecycle_generation = generation;
  last_lifecycle_transition = now;
}

abbrev pub fence_of : String → ℤ → StoreRecord → NewGeneration
fence_of key previous r = record {
  store_key = key;
  previous_generation = previous;
  lifecycle_generation = r.lifecycle_generation;
  transitioned_at = some r.last_lifecycle_transition;
}

-- An error leaves the repository as it was.
unfoldable pub begin_deactivation :
    ℕ → String → ℤ → Repository → Outcome (NewGeneration × Repository)
unfolding require require_generation
begin_deactivation now key expected repo = do
  r ← require repo key
  if same_generation r.lifecycle_generation (expected +ℤ pos 1) && is_fenced r.lifecycle_state
      then ok (fence_of key expected r, repo)
      else do
        require_generation r expected
        raise_unless (is_writable r.lifecycle_state) (state_rejected r.lifecycle_state)
        let fenced = transition now deactivating (r.lifecycle_generation +ℤ pos 1) r
        ok (fence_of key r.lifecycle_generation fenced, put key fenced repo)

-- The record after a resume, by its state.
unfoldable pub resumed : ℕ → StoreRecord → StoreLifecycleState → Outcome StoreRecord
resumed now r deactivation_failed = ok (transition now deactivating r.lifecycle_generation r)
resumed now r deactivating = ok r
resumed now r _ = err (rejected "only a failed or already-resuming deactivation can be resumed")

unfoldable pub resume_deactivation :
    ℕ → String → ℤ → Repository → Outcome (NewGeneration × Repository)
unfolding require require_generation resumed
resume_deactivation now key generation repo = do
  r ← require repo key
  require_generation r generation
  raise_unless (not (leb_ℤ generation (pos 0)))
      (rejected "a deactivation generation must be positive")
  r' ← resumed now r r.lifecycle_state
  ok (
    record {
      store_key = key;
      previous_generation = generation -ℤ pos 1;
      lifecycle_generation = generation;
      transitioned_at = some r'.last_lifecycle_transition;
    },
    put key r' repo,
  )

unfoldable pub marked_inactive : ℕ → StoreRecord → StoreLifecycleState → Outcome StoreRecord
marked_inactive now r inactive = ok r
marked_inactive now r deactivating = ok (transition now inactive r.lifecycle_generation r)
marked_inactive now r _ = err (rejected "store must be deactivating before inactive")

unfoldable pub mark_inactive : ℕ → String → ℤ → Repository → Outcome (StoreRecord × Repository)
unfolding require require_generation marked_inactive
mark_inactive now key expected repo = do
  r ← require repo key
  require_generation r expected
  r' ← marked_inactive now r r.lifecycle_state
  ok (r', put key r' repo)

unfoldable pub marked_failed : ℕ → StoreRecord → StoreLifecycleState → Outcome StoreRecord
marked_failed now r deactivation_failed = ok r
marked_failed now r deactivating = ok (transition now deactivation_failed r.lifecycle_generation r)
marked_failed now r _ =
    err (rejected "store must be deactivating before recording deactivation failure")

unfoldable pub mark_deactivation_failed :
    ℕ → String → ℤ → Repository → Outcome (StoreRecord × Repository)
unfolding require require_generation marked_failed
mark_deactivation_failed now key expected repo = do
  r ← require repo key
  require_generation r expected
  r' ← marked_failed now r r.lifecycle_state
  ok (r', put key r' repo)

-- `set.add`
abbrev pub add_user : String → List String → List String
add_user u users = if elem u users then users else users ++ u ∷ []

unfoldable pub activate_user_if_current :
    String → ℤ → String → Repository → Outcome (Unit {0} × Repository)
unfolding require_writable
activate_user_if_current key expected user repo = do
  r ← require_writable repo key expected
  ok (tt, put key (record r { active_users = add_user user r.active_users }) repo)

unfoldable pub mutate_retrieval_state_if_current :
    String → ℤ → String → String → Repository → Outcome (Unit {0} × Repository)
unfolding require_writable
mutate_retrieval_state_if_current key expected k v repo = do
  r ← require_writable repo key expected
  ok (tt, put key (record r { retrieval_state = put k v r.retrieval_state }) repo)

unfoldable pub upsert_document_if_current :
    String → ℤ → DocumentRef → Repository → Outcome (Unit {0} × Repository)
unfolding require_writable
upsert_document_if_current key expected d repo = do
  r ← require_writable repo key expected
  ok (tt, put key (record r { documents = put d.document_key d r.documents }) repo)

unfoldable pub delete_document_if_current :
    String → ℤ → String → Repository → Outcome (Unit {0} × Repository)
unfolding require_writable
delete_document_if_current key expected k repo = do
  r ← require_writable repo key expected
  ok (tt, put key (record r { documents = remove k r.documents }) repo)

unfoldable pub remove_all_objects_if_current : String → ℤ → Repository → Outcome (ℕ × Repository)
unfolding require_cleanup_generation
remove_all_objects_if_current key expected repo = do
  r ← require_cleanup_generation repo key expected
  ok (
    size r.documents,
    put key (record r { documents = Dict.empty; retrieval_state = Dict.empty }) repo,
  )

-- `len(users.intersection(targets))`
unfoldable pub count_members : List String → List String → ℕ
count_members targets [] = 0
count_members targets (u ∷ users) =
    let rest = count_members targets users in if elem u targets then suc rest else rest

unfoldable pub deactivate_users_if_current :
    String → ℤ → List String → Repository → Outcome (ℕ × Repository)
unfolding require_cleanup_generation count_members
deactivate_users_if_current key expected user_keys repo = do
  r ← require_cleanup_generation repo key expected
  let targets = if is_nil user_keys then r.active_users else user_keys
  ok (
    count_members targets r.active_users,
    put key (record r { active_users = drop_ids targets r.active_users }) repo,
  )
