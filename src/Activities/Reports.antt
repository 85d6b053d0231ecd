-- ===== src/Activities/Reports.antt =====
-- What the result of a lifecycle activity says of the repository.
use golden_retriever.Prelude.{
  String, ◌≡◌, refl, ◌≢◌, ◌⊎◌, inl, inr, true, false, none, some, arith, if_cases,
}
use golden_retriever.Prelude.Result.{ok, err}
use golden_retriever.Dict.{get}
use golden_retriever.Models.Operations.{ResultStatus, succeeded, rejected, stale_generation}
use golden_retriever.Models.Lifecycle.{LifecycleFence, LifecycleMutationResult}
use golden_retriever.Repository.{
  Outcome, Repository, StoreRecord, same_generation, get_store, require, Error,
}
use golden_retriever.Repository.Rules.{bind_cases}
use golden_retriever.Activities.Lifecycle.{validate_lifecycle_generation, allows}

-- The three verdicts on a store, by its generation first and its state second.
abbrev pub Verdict : LifecycleFence → StoreRecord → ResultStatus → Type 0
Verdict fence r status =
    ((status ≡ succeeded)
      × (r.lifecycle_generation ≡ fence.expected_generation)
      × (allows fence.allowed_states r.lifecycle_state ≡ true))
    ⊎ (((status ≡ rejected)
          × (r.lifecycle_generation ≡ fence.expected_generation)
          × (allows fence.allowed_states r.lifecycle_state ≡ false))
        ⊎ ((status ≡ stale_generation) × (r.lifecycle_generation ≢ fence.expected_generation)))

-- The result is a verdict, with the store's own generation and state; only an unknown store
-- raises.
abbrev pub Validates : LifecycleFence → Repository → Outcome LifecycleMutationResult → Type 0
Validates fence repo (err e) = get fence.store_key repo ≡ none
Validates fence repo (ok result) =
    (r : StoreRecord) × (get fence.store_key repo ≡ some r)
    × (result.authoritative_generation ≡ r.lifecycle_generation)
    × (result.lifecycle_state ≡ r.lifecycle_state)
    × Verdict fence r result.status

required :
    (repo : Repository) (key : String) (r : StoreRecord)
    → require repo key ≡ ok r
    → get key repo ≡ some r
unfolding require
required repo key r e = ground arith

missing :
    (repo : Repository) (key : String) (x : Error) → require repo key ≡ err x → get key repo ≡ none
unfolding require
missing repo key x e = ground arith

-- `validate_lifecycle_generation` succeeds exactly where the store has the expected generation
-- and an allowed state, reports a rejection where only the state is not allowed, and a stale
-- generation where the generations differ, with the authoritative generation and state in each
-- case; it raises exactly for an unknown store.
pub validate_lifecycle_generation-Validates :
    (fence : LifecycleFence) (repo : Repository)
    → Validates fence repo (validate_lifecycle_generation fence repo)
unfolding validate_lifecycle_generation get_store
validate_lifecycle_generation-Validates fence repo =
    bind_cases (Validates fence repo) (require repo fence.store_key) _
      (λ x e. missing repo fence.store_key x e)
      (λ r e.
        let there = required repo fence.store_key r e in
        if_cases (Validates fence repo)
          (same_generation r.lifecycle_generation fence.expected_generation) _ _
          (λ same.
            if_cases (Validates fence repo) (allows fence.allowed_states r.lifecycle_state) _ _
              (λ allowed. (r, there, refl, refl, inl (refl, ground arith, allowed)))
              (λ refused. (r, there, refl, refl, inr (inl (refl, ground arith, refused)))))
          (λ differ. (r, there, refl, refl, inr (inr (refl, λ h. ground arith)))))
