-- ===== src/Deactivation/Stored.antt =====
-- What is known of the store between the stages, and what one call of the repository makes of it.
use golden_retriever.Prelude.{
  ◌⊎◌, inl, inr, ℕ, String, ◌≡◌, ◌≢◌, refl, sym, ◌∙◌, subst, some, [], arith,
}
use golden_retriever.Prelude.Int.{ℤ, pos}
use golden_retriever.Prelude.Result.{ok, err}
use golden_retriever.Dict
use golden_retriever.Dict.{get, put}
use golden_retriever.Dict.Laws.{get-put}
use golden_retriever.Models.Lifecycle.{
  StoreLifecycleState, active, syncing, deactivation_failed, CleanupWorkflowInput, deactivating,
  inactive,
}
use golden_retriever.Repository.{
  require_cleanup_generation, marked_inactive, Error, Repository, Outcome, StoreRecord,
}
use golden_retriever.Repository.Teardown.{run-late}
use golden_retriever.Activities.Cleanup.{
  deactivate_users, remove_objects, cleanup_answer, CleanupUsersRequest,
}
use golden_retriever.Deactivation.Store.{
  answer_child, Network, Store, found, next_batch, answer_cleanup,
}
use golden_retriever.Activities.Cleanup as Activity
use golden_retriever.Cleanup.Workflows
use golden_retriever.Cleanup.Workflows.{cleanup_users, deactivate_all_users}
use golden_retriever.Cleanup.Direct.{direct, ran}

module _ (key : String) (h : ℤ) where
  -- The store of the repository has generation `h` and a record of the given form.
  abbrev pub Has : (StoreRecord → Type 0) → Repository → Type 0
  Has P repo = (r : StoreRecord) × (get key repo ≡ some r) × (r.lifecycle_generation ≡ h) × P r

-- What is known of the record at each stage; an excuse may stand for a store that is not
-- deactivating.
abbrev pub Closing : Type 0 → StoreRecord → Type 0
Closing Excuse r = (r.lifecycle_state ≡ deactivating) ⊎ Excuse

abbrev pub NoUsers : Type 0 → StoreRecord → Type 0
NoUsers Excuse r = Closing Excuse r × (r.active_users ≡ [])

abbrev pub Bare : StoreRecord → Type 0
Bare r = (r.active_users ≡ []) × (r.documents ≡ Dict.empty) × (r.retrieval_state ≡ Dict.empty)

abbrev pub Empty : Type 0 → StoreRecord → Type 0
Empty Excuse r = Closing Excuse r × Bare r

abbrev pub Erased : StoreRecord → Type 0
Erased r = (r.lifecycle_state ≡ inactive) × Bare r

-- Old work cannot touch a store of another generation.
pub found-same :
    (net : Network) (key : String) (old h : ℤ) (P : StoreRecord → Type 0) (w : Store)
    → h ≢ old
    → Has key h P w.repository
    → Has key h P (found net key old w)
found-same net key old h P w other (r, there, current, p) =
    subst (Has key h P)
      (sym (
        run-late key old (next_batch w.batches) w.repository r there
          (λ e. other (sym current ∙ e))))
      (r, there, current, p)

-- The request of a cleanup child of this store and generation.
abbrev pub all_of : String → ℤ → CleanupUsersRequest
all_of key h = record { store_key = key; expected_generation = h; user_keys = [] }

-- The input of a cleanup child of a deactivation.
abbrev pub all_input : String → ℤ → CleanupWorkflowInput
all_input key h = record {
  store_key = key;
  lifecycle_generation = h;
  user_keys = [];
  user_concurrency = pos 20;
}

-- A cleanup child of a deactivation is one call of its activity.
module _ (net : Network) (key : String) (old : ℤ) (w : Store) where
  answer_ran :
      (x : Outcome (Activity.CleanupResult × Repository))
      → answer_child net key old w (ran net.texts (found net key old w) x)
        ≡ answer_cleanup net key old w x
  answer_ran (ok (r, repo)) = refl
  answer_ran (err e) = refl

  pub users_child :
      (generation : ℤ)
      → answer_child net key old w (
          cleanup_users net.builtins
            (direct net.texts)
            (all_input key generation)
            (found net key old w))
        ≡ answer_cleanup net key old w
            (deactivate_users (all_of key generation) (found net key old w))
  unfolding cleanup_users deactivate_all_users
  users_child generation =
      answer_ran (deactivate_users (all_of key generation) (found net key old w))

  pub objects_child :
      (generation : ℤ)
      → answer_child net key old w (
          Workflows.remove_objects net.builtins
            (direct net.texts)
            (all_input key generation)
            (found net key old w))
        ≡ answer_cleanup net key old w
            (remove_objects (all_of key generation) (found net key old w))
  unfolding Workflows.remove_objects
  objects_child generation =
      answer_ran (remove_objects (all_of key generation) (found net key old w))

-- What a put record has.
pub put-Has :
    (key : String) (h : ℤ) (P : StoreRecord → Type 0) (r : StoreRecord) (repo : Repository)
    → r.lifecycle_generation ≡ h
    → P r
    → Has key h P (put key r repo)
put-Has key h P r repo current p = (r, get-put key key r repo ∙ ground arith, current, p)

-- A cleanup of a store that is deactivating in this generation is let through.
pub cleanup_excused :
    (Excuse : Type 0) (key : String) (h : ℤ) (repo : Repository) (s : StoreRecord) (e : Error)
    → get key repo ≡ some s
    → s.lifecycle_generation ≡ h
    → Closing Excuse s
    → require_cleanup_generation repo key h ≡ err e
    → Excuse
cleanup_excused Excuse key h repo s e there current (inr x) refusal = x
cleanup_excused Excuse key h repo s e there current (inl closing) refusal =
    absurd (let_through refusal)
  where
    let_through : require_cleanup_generation repo key h ≡ err e → ⊥
    let_through refusal = unfold require_cleanup_generation in ground arith

pub mark_excused :
    (Excuse : Type 0) (now : ℕ) (r : StoreRecord) (e : Error)
    → Closing Excuse r
    → marked_inactive now r r.lifecycle_state ≡ err e
    → Excuse
unfolding marked_inactive
mark_excused Excuse now r e (inr x) refusal = x
mark_excused Excuse now r e (inl closing) refusal = absurd (ground (arith, closing, refusal))

pub marked_inactive-Erased :
    (now : ℕ) (h : ℤ) (r r' : StoreRecord) (state : StoreLifecycleState)
    → r.lifecycle_state ≡ state
    → marked_inactive now r state ≡ ok r'
    → r.lifecycle_generation ≡ h
    → Bare r
    → (r'.lifecycle_generation ≡ h) × Erased r'
unfolding marked_inactive
marked_inactive-Erased now h r r' inactive e m g x = ground arith
marked_inactive-Erased now h r r' deactivating e m g x = ground arith
marked_inactive-Erased now h r r' active e m g x = absurd (ground arith)
marked_inactive-Erased now h r r' syncing e m g x = absurd (ground arith)
marked_inactive-Erased now h r r' deactivation_failed e m g x = absurd (ground arith)
