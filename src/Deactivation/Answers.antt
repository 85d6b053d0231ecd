-- ===== src/Deactivation/Answers.antt =====
-- What the fence activities answer over the repository.
use golden_retriever.Prelude.{ℕ, String, ◌≡◌, ◌≢◌, refl, sym, ap, ◌∙◌, true, not, arith}
use golden_retriever.Prelude.Int.{
  ℤ, pos, leb_ℤ, ◌+ℤ◌, ◌-ℤ◌, +ℤ_parts, -ℤ_parts, pos_part, neg_part, int_laws,
}
use golden_retriever.Prelude.Result.{ok, err, bind_cases, raise_unless_cases}
use golden_retriever.Models.Lifecycle.{
  NewGeneration, StoreLifecycleState, active, syncing, deactivating, inactive, deactivation_failed,
  BeginStoreDeactivation, ResumeStoreDeactivation,
}
use golden_retriever.Repository.{
  Outcome, Repository, StoreRecord, same_generation, begin_deactivation, resume_deactivation,
  resumed,
}
use golden_retriever.Repository.Rules.{require_cases}
use golden_retriever.Repository.Fencing.{begin_deactivation_committed}
use golden_retriever.Activities.Lifecycle.{
  transition_answer, begin_store_deactivation, resume_store_deactivation,
}
use golden_retriever.Deactivation.Server.{Answer, answered, failed_with}
use golden_retriever.Deactivation.Store.{Network, Store, answer_transition}
use golden_retriever.Deactivation.Stored.{Has, put-Has}

abbrev Known : StoreRecord → Type 0
Known r = Unit {0}

-- A generation that a fence answers is one that old work does not carry, and the store has it.
abbrev pub Fences : String → ℤ → Answer NewGeneration × Store → Type 0
Fences key old (failed_with message, w) = Unit {0}
Fences key old (answered n, w) =
    (n.store_key ≡ key)
    × (n.lifecycle_generation ≢ old)
    × Has key n.lifecycle_generation Known w.repository

above_old : (g h : ℤ) → h ≡ g +ℤ pos 1 → h ≢ g
above_old g h e same =
    omega (int_laws, +ℤ_parts g (pos 1), ap pos_part (sym e ∙ same), ap neg_part (sym e ∙ same))

not_before : (g : ℤ) → g ≢ g -ℤ pos 1
not_before g same = omega (int_laws, -ℤ_parts g (pos 1), ap pos_part same, ap neg_part same)

same_of : (a b : ℤ) → same_generation a b ≡ true → a ≡ b
same_of a b e = ground arith

resumed-same :
    (now : ℕ) (r r' : StoreRecord) (state : StoreLifecycleState)
    → resumed now r state ≡ ok r'
    → r'.lifecycle_generation ≡ r.lifecycle_generation
unfolding resumed
resumed-same now r r' deactivation_failed m = ground arith
resumed-same now r r' deactivating m = ground arith
resumed-same now r r' active m = absurd (ground arith)
resumed-same now r r' syncing m = absurd (ground arith)
resumed-same now r r' inactive m = absurd (ground arith)

module _ (net : Network) (key : String) (old : ℤ) (w : Store) (repo : Repository) (now : ℕ) where
  pub begin-Fences :
      (command : BeginStoreDeactivation)
      → Fences command.store_key command.expected_generation
          (answer_transition net key old w (begin_store_deactivation now command repo))
  unfolding begin_store_deactivation
  begin-Fences command =
      go (begin_deactivation now command.store_key command.expected_generation repo) refl
    where
      go :
          (x : Outcome (NewGeneration × Repository))
          → begin_deactivation now command.store_key command.expected_generation repo ≡ x
          → Fences command.store_key command.expected_generation
              (answer_transition net key old w (transition_answer x))
      go (err e) h = tt
      go (ok (n, repo')) h =
          let (s, there, gen, _, is) =
            begin_deactivation_committed now command.store_key command.expected_generation repo h in
          (
            ap (λ (x : NewGeneration). x.store_key) is,
            above_old command.expected_generation n.lifecycle_generation
                (ap (λ (x : NewGeneration). x.lifecycle_generation) is ∙ gen),
            (s, there, sym (ap (λ (x : NewGeneration). x.lifecycle_generation) is), tt),
          )

  pub resume-Fences :
      (command : ResumeStoreDeactivation)
      → Fences command.store_key
          (command.lifecycle_generation -ℤ pos 1)
          (answer_transition net key old w (resume_store_deactivation now command repo))
  unfolding resume_store_deactivation resume_deactivation
  resume-Fences command =
      let g = command.lifecycle_generation in
      let P : Outcome (NewGeneration × Repository) → Type 0 = λ x.
        Fences command.store_key (g -ℤ pos 1)
          (answer_transition net key old w (transition_answer x)) in
      require_cases P repo command.store_key _ tt (λ r there.
        raise_unless_cases P (same_generation r.lifecycle_generation g) _ _ tt (λ current.
          raise_unless_cases P (not (leb_ℤ g (pos 0))) _ _ tt (λ positive.
            bind_cases P (resumed now r r.lifecycle_state) _ (λ e _. tt)
              (λ r' m. (
                refl,
                not_before g,
                put-Has command.store_key g Known r' repo
                    (resumed-same now r r' r.lifecycle_state m
                      ∙ same_of r.lifecycle_generation g current)
                    tt,
              )))))
