-- ===== src/Deactivation/Erasure.antt =====
-- The deactivation workflow over the repository.
use golden_retriever.Prelude.{
  inl, ℕ, String, ◌≡◌, refl, sym, ap, ◌∙◌, subst, none, some, [], arith, drop_ids_all,
}
use golden_retriever.Prelude.Int.{ℤ}
use golden_retriever.Prelude.Result.{raise_unless, ◌>>=◌, ok, err, bind_cases}
use golden_retriever.Dict.{get, put}
use golden_retriever.Models.Operations.{succeeded}
use golden_retriever.Models.Lifecycle.{NewGeneration, LifecycleMutationResult, deactivating}
use golden_retriever.Repository.{
  require, require_cleanup_generation, marked_inactive, same_generation, get_store, Error,
  Repository, Outcome, StoreRecord, deactivate_users_if_current, remove_all_objects_if_current,
  mark_inactive,
}
use golden_retriever.Repository.Rules.{require_cleanup_cases}
use golden_retriever.Repository.Calls.{run}
use golden_retriever.Activities.Cleanup.{deactivate_users, remove_objects, cleanup_answer}
use golden_retriever.Repository.{unknown_store, stale_generation, state_rejected, rejected}
use golden_retriever.Activities.Lifecycle.{inactive_error, mutation_result, mark_store_inactive}
use golden_retriever.Deactivation.Store.{Network, Store, answer_cleanup, answer_mark}
use golden_retriever.Deactivation.Laws.{Cleans, Marks}
use golden_retriever.Deactivation.Stored.{
  Has, Closing, NoUsers, Bare, Empty, Erased, all_of, put-Has, cleanup_excused, mark_excused,
  marked_inactive-Erased,
}

module _ (Excuse : Type 0) (net : Network) (key : String) (old h : ℤ) (w : Store)
    (repo : Repository) where
  -- A caught error is no success.
  refused :
      (P : StoreRecord → Type 0) (e : Error)
      → Excuse
      → Cleans Excuse
          (λ (x : Store). Has key h P x.repository)
          (answer_cleanup net key old w (cleanup_answer (all_of key h) repo (err e)))
  refused P (unknown_store k) x = x
  refused P (stale_generation a b) x = (λ good. absurd (ground (arith, good)), λ _. x)
  refused P (state_rejected s) x = (λ good. absurd (ground (arith, good)), λ _. x)
  refused P (rejected t) x = (λ good. absurd (ground (arith, good)), λ _. x)

  -- The answer to a cleanup, by what the repository makes of it.
  cleaned_step :
      (P : StoreRecord → Type 0) (f : StoreRecord → Outcome (ℕ × Repository)) (s : StoreRecord)
      → get key repo ≡ some s
      → s.lifecycle_generation ≡ h
      → Closing Excuse s
      → ((r : StoreRecord)
          → get key repo ≡ some r
          → r.lifecycle_generation ≡ h
          → r.lifecycle_state ≡ deactivating
          → Cleans Excuse
              (λ (x : Store). Has key h P x.repository)
              (answer_cleanup net key old w (cleanup_answer (all_of key h) repo (f r))))
      → Cleans Excuse
          (λ (x : Store). Has key h P x.repository)
          (answer_cleanup net key old w
            (cleanup_answer (all_of key h) repo (require_cleanup_generation repo key h >>= f)))
  cleaned_step P f s there current closing step =
      require_cleanup_cases
        (λ x.
          Cleans Excuse (λ (x : Store). Has key h P x.repository)
            (answer_cleanup net key old w (cleanup_answer (all_of key h) repo x)))
        repo key h f
        (λ e refusal.
          refused P e (cleanup_excused Excuse key h repo s e there current closing refusal))
        step

  pub users_step :
      Has key h (Closing Excuse) repo
      → Cleans Excuse
          (λ (x : Store). Has key h (NoUsers Excuse) x.repository)
          (answer_cleanup net key old w (deactivate_users (all_of key h) repo))
  unfolding deactivate_users deactivate_users_if_current
  users_step (s, there, current, closing) =
      cleaned_step (NoUsers Excuse) _ s there current closing (λ r found_r current_r closing_r. (
        λ good.
            put-Has key h (NoUsers Excuse) _ repo current_r
              (inl closing_r, drop_ids_all r.active_users r.active_users (λ k m. m)),
        λ bad. absurd (ground (arith, bad)),
      ))

  pub objects_step :
      Has key h (NoUsers Excuse) repo
      → Cleans Excuse
          (λ (x : Store). Has key h (Empty Excuse) x.repository)
          (answer_cleanup net key old w (remove_objects (all_of key h) repo))
  unfolding remove_objects remove_all_objects_if_current
  objects_step (s, there, current, p) =
      cleaned_step (Empty Excuse) _ s there current p.0 (λ r found_r current_r closing_r. (
        λ good.
            put-Has key h (Empty Excuse) _ repo current_r
              (inl closing_r, (ground (arith, there, found_r, p.1), refl, refl)),
        λ bad. absurd (ground (arith, bad)),
      ))

  -- A caught error of the mark is no success either.
  mark_refused :
      (P : StoreRecord → Type 0) (generation : NewGeneration) (e : Error)
      → Excuse
      → Marks Excuse
          (λ (x : Store). Has key h P x.repository)
          (answer_mark net key old w (inactive_error [] generation repo e))
  mark_refused P generation (unknown_store k) x = x
  mark_refused P generation (state_rejected s) x = x
  mark_refused P generation (rejected t) x = x
  mark_refused P generation (stale_generation a b) x =
      bind_cases
        (λ (x : Outcome (LifecycleMutationResult × Repository)).
          Marks Excuse (λ (y : Store). Has key h P y.repository) (answer_mark net key old w x))
        (get_store generation.store_key (run [] repo)) _ (λ e _. x)
        (λ r _. (λ good. absurd (ground (arith, good)), λ _. x))

  pub marked_step :
      (now : ℕ) (generation : NewGeneration)
      → generation.store_key ≡ key
      → generation.lifecycle_generation ≡ h
      → Has key h (Empty Excuse) repo
      → Marks Excuse
          (λ (x : Store). Has key h Erased x.repository)
          (answer_mark net key old w (mark_store_inactive now [] generation repo))
  unfolding mark_store_inactive mark_inactive
  marked_step now generation k g (s, found_s, current_s, p) =
      let P : Outcome (StoreRecord × Repository) → Type 0 = λ x.
        Marks Excuse (λ (x : Store). Has key h Erased x.repository)
          (answer_mark net key old w
            (elim x as (λ y. Outcome (LifecycleMutationResult × Repository)) [
              | err e ↦ inactive_error [] generation repo e
              | ok (r, repo') ↦ ok (
                mutation_result generation.store_key generation.lifecycle_generation succeeded none
                    r,
                repo',
              )
            ])) in
      bind_cases P (require repo generation.store_key) _ (λ e missing. absurd (known e missing))
        (λ r there.
          let same : r ≡ s = same_record r there in
          let current = ap (λ (x : StoreRecord). x.lifecycle_generation) same ∙ current_s in
          bind_cases P
            (raise_unless (same_generation r.lifecycle_generation generation.lifecycle_generation)
              _)
            _ (λ e stale. absurd (fresh r e (current ∙ sym g) stale))
            (λ u _.
              bind_cases P (marked_inactive now r r.lifecycle_state) _
                (λ e refusal.
                  mark_refused Erased generation e
                    (mark_excused Excuse now r e (subst (Closing Excuse) (sym same) p.0) refusal))
                (λ r' m.
                  let after =
                    marked_inactive-Erased now h r r' r.lifecycle_state refl m current
                      (subst Bare (sym same) p.1) in
                  (
                    λ good.
                        subst (λ x. Has key h Erased (put x r' repo)) (sym k)
                          (put-Has key h Erased r' repo after.0 after.1),
                    λ bad. absurd (ground (arith, bad)),
                  ))))
    where
      known : (e : Error) → require repo generation.store_key ≡ err e → ⊥
      known e missing = unfold require in ground arith

      same_record : (r : StoreRecord) → require repo generation.store_key ≡ ok r → r ≡ s
      same_record r there = unfold require in ground arith

      fresh :
          (r : StoreRecord) (e : Error)
          → r.lifecycle_generation ≡ generation.lifecycle_generation
          → raise_unless
              (same_generation r.lifecycle_generation generation.lifecycle_generation)
              (Error.stale_generation generation.lifecycle_generation r.lifecycle_generation)
            ≡ err e
          → ⊥
      fresh r e same stale = ground arith
