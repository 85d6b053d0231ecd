-- ===== src/Deactivation/Refinement.antt =====
-- The deactivation workflow over the repository: the laws of its calls, and how it ends.
use golden_retriever.Prelude.{
  String, ◌≡◌, ◌≢◌, refl, sym, ap, ◌∙◌, subst, Bool, true, false, arith, ◌⊎◌, inl, inr,
  if◌then◌else◌,
}
use golden_retriever.Prelude.Int.{pos, ◌-ℤ◌}
use golden_retriever.Ids.{Builtins}
use golden_retriever.Models.Operations.{ResultStatus}
use golden_retriever.Models.Lifecycle.{
  NewGeneration, DeactivationInput, DeactivationResult, DeactivationPhase, deactivating,
}
use golden_retriever.Repository.{StoreRecord}
use golden_retriever.Task.{Exit, returned, raised, canceled, Post, weaken-Post}
use golden_retriever.Deactivation.Server.{cut_off, Answer, answered, failed_with, Run, Server}
use golden_retriever.Deactivation.Workflow.{run, started}
use golden_retriever.Deactivation.Store.{Network, Store, store_server, found, old_generation}
use golden_retriever.Deactivation.Laws.{Cleans, Laws, Never, Broken}
use golden_retriever.Deactivation.Outcome.{run-Post, fence_of, fence_at, Ends}
use golden_retriever.Deactivation.Stored.{
  Has, Closing, NoUsers, Empty, Erased, found-same, users_child, objects_child,
}
use golden_retriever.Deactivation.Erasure.{users_step, objects_step, marked_step}
use golden_retriever.Deactivation.Answers.{Fences, begin-Fences, resume-Fences}

abbrev NeverOf : Store → Type 0
NeverOf w = ⊥

-- The store of the command, in the given generation.
abbrev In : DeactivationInput → NewGeneration → (StoreRecord → Type 0) → Store → Type 0
In command n P w = Has command.store_key n.lifecycle_generation P w.repository

-- What an activity finds is what the one before it left.
module _ (Excuse : Type 0) (net : Network) (command : DeactivationInput)
    (generation : NewGeneration) (cut : (id : String) → net.replies id ≡ cut_off → Excuse)
    (key_is : generation.store_key ≡ command.store_key)
    (other : generation.lifecycle_generation ≢ old_generation command) where
  lasts :
      (P : StoreRecord → Type 0) (w : Store)
      → In command generation P w
      → Has command.store_key generation.lifecycle_generation P
          (found net command.store_key (old_generation command) w)
  lasts P w h =
      found-same net command.store_key (old_generation command) generation.lifecycle_generation P w
        other h

  store_laws :
      Laws
        (store_server net command.store_key (old_generation command))
        command
        generation
        Excuse
        (In command generation (Closing Excuse))
        (In command generation (NoUsers Excuse))
        (In command generation (Empty Excuse))
        (In command generation Erased)
  store_laws = record {
    tells_fence = λ id e. lasts (Closing Excuse);
    cancels_work = λ id w h. (cut id, lasts (Closing Excuse) w h);
    invalidates_quota = λ id c w h. (cut id, lasts (Closing Excuse) w h);
    waits_drained = λ ids. lasts (Closing Excuse);
    cleans_users = λ w h.
        subst (Cleans Excuse (In command generation (NoUsers Excuse)))
          (sym (
            users_child net command.store_key (old_generation command) w
              generation.lifecycle_generation))
          (users_step Excuse net command.store_key (old_generation command)
            generation.lifecycle_generation w _ (lasts (Closing Excuse) w h));
    removes_objects = λ w h.
        subst (Cleans Excuse (In command generation (Empty Excuse)))
          (sym (
            objects_child net command.store_key (old_generation command) w
              generation.lifecycle_generation))
          (objects_step Excuse net command.store_key (old_generation command)
            generation.lifecycle_generation w _ (lasts (NoUsers Excuse) w h));
    marks_inactive = λ w h.
        marked_step Excuse net command.store_key (old_generation command)
          generation.lifecycle_generation w _ w.clock generation key_is refl
          (lasts (Empty Excuse) w h);
    tells_status = λ id e. lasts Erased;
  }

-- COMPLETED with the store inactive and empty, in a generation that old work does not carry.
abbrev pub Completed : DeactivationInput → DeactivationResult → Run Store → Type 0
Completed command result s =
    (result.phase ≡ DeactivationPhase.completed)
    × (result.lifecycle_generation ≢ old_generation command)
    × Has command.store_key result.lifecycle_generation Erased s.world.repository

abbrev pub Ended : DeactivationInput → DeactivationResult → Run Store → Type 0
Ended command result s =
    Completed command result s
    ⊎ ((result.phase ≡ DeactivationPhase.failed) × (result.status ≡ ResultStatus.failed))

-- The generation that the fence answers is of the store, which is deactivating.
abbrev pub FencedDeactivating : DeactivationInput → Answer NewGeneration × Store → Type 0
FencedDeactivating command (failed_with message, w) = ⊥
FencedDeactivating command (answered n, w) =
    Has command.store_key n.lifecycle_generation (λ r. r.lifecycle_state ≡ deactivating)
      w.repository

module _ (py : Builtins) (net : Network) (own_id : String) (command : DeactivationInput)
    (w : Store) where
  abbrev server : Server Store
  server = store_server net command.store_key (old_generation command)

  fence-Fences : Fences command.store_key (old_generation command) (fence_of server command w)
  fence-Fences = by_mode command.resume_same_generation
    where
      by_mode :
          (b : Bool)
          → Fences command.store_key
              (if b then command.expected_generation -ℤ pos 1 else command.expected_generation)
              (fence_at b server command w)
      by_mode true =
          resume-Fences net command.store_key (old_generation command) w
            (found net command.store_key (old_generation command) w) w.clock _
      by_mode false =
          begin-Fences net command.store_key (old_generation command) w
            (found net command.store_key (old_generation command) w) w.clock _

  -- A run whose fence is answered, with an excuse for each failure after it.
  fenced-Post :
      (Excuse : Type 0) (n : NewGeneration)
      → (fence_of server command w).0 ≡ answered n
      → n.store_key ≡ command.store_key
      → n.lifecycle_generation ≢ old_generation command
      → In command n (Closing Excuse) (fence_of server command w).1
      → ((id : String) → net.replies id ≡ cut_off → Excuse)
      → Post
          (λ result s.
            Completed command result s
            ⊎ (Excuse
                × (result.phase ≡ DeactivationPhase.failed)
                × (result.status ≡ ResultStatus.failed)))
          Never
          (Broken Excuse)
          (run py server own_id command (started w))
  fenced-Post Excuse n answer key_is other has cut =
      weaken-Post (Ends Excuse server command (In command n Erased) w) _ Never (Broken Excuse) _
        (λ result s. ended result s)
        (run-Post py server own_id command Excuse (In command n (Closing Excuse))
          (In command n (NoUsers Excuse)) (In command n (Empty Excuse)) (In command n Erased) w
          (λ g again.
            let same : n ≡ g = ground (arith, answer, again) in
            (
              has,
              subst
                  (λ x.
                    Laws server command x Excuse (In command n (Closing Excuse))
                      (In command n (NoUsers Excuse)) (In command n (Empty Excuse))
                      (In command n Erased))
                  same (store_laws Excuse net command n cut key_is other),
            )))
    where
      ended :
          (result : DeactivationResult) (s : Run Store)
          → Ends Excuse server command (In command n Erased) w result s
          → Completed command result s
            ⊎ (Excuse
                × (result.phase ≡ DeactivationPhase.failed)
                × (result.status ≡ ResultStatus.failed))
      ended result s (inl (message, refusal, _, _, _, _, _)) =
          absurd (ground (arith, answer, refusal))
      ended result s (inr (g, again, inr (phase, status, _, x, _, _, _, _))) =
          inr (x, phase, status)
      ended result s (inr (g, again, inl (phase, _, gen, at))) =
          let same : g ≡ n = ground (arith, answer, again) in
          let is = gen ∙ ap (λ (x : NewGeneration). x.lifecycle_generation) same in
          inl (
            phase,
            λ e. other (sym is ∙ e),
            subst (λ x. Has command.store_key x Erased s.world.repository) (sym is) at.world_is,
          )

  -- Whatever the controller, the owned workflows and the quotas answer, whatever the drain wait
  -- gives, and whatever old work still writes before any of the activities, from any state of
  -- the repository: a deactivation never raises. One that is COMPLETED leaves its store
  -- inactive, without users, documents and retrieval state, in the generation of its result,
  -- which is not that of old work; another that returns is FAILED.
  pub run_erases : Post (Ended command) Never (Broken (Unit {0})) (
      run py
        (store_server net command.store_key (old_generation command))
        own_id
        command
        (started w))
  run_erases = by_fence (fence_of server command w) refl fence-Fences
    where
      by_fence :
          (x : Answer NewGeneration × Store)
          → fence_of server command w ≡ x
          → Fences command.store_key (old_generation command) x
          → Post
              (Ended command)
              Never
              (Broken (Unit {0}))
              (run py server own_id command (started w))
      by_fence (failed_with message, w') e h =
          weaken-Post (Ends (Unit {0}) server command NeverOf w) (Ended command) Never
            (Broken (Unit {0})) _ (λ result s. unfenced result s)
            (run-Post py server own_id command (Unit {0}) NeverOf NeverOf NeverOf NeverOf w
              (λ g answer. absurd (ground (arith, e, answer))))
        where
          unfenced :
              (result : DeactivationResult) (s : Run Store)
              → Ends (Unit {0}) server command NeverOf w result s
              → Ended command result s
          unfenced result s (inl (m, refusal, phase, status, _, _, _)) = inr (phase, status)
          unfenced result s (inr (g, answer, settled)) = absurd (ground (arith, e, answer))
      by_fence (answered n, w') e (key_is, other, has) =
          weaken-Post _ (Ended command) Never (Broken (Unit {0})) _ (λ result s. any_end result s)
            (fenced-Post (Unit {0}) n (ap (λ x. x.0) e) key_is other
              (subst (λ x. In command n (Closing (Unit {0})) x.1) (sym e)
                (has.0, has.1, has.2, inr tt))
              (λ id cut. tt))
        where
          any_end :
              (result : DeactivationResult) (s : Run Store)
              → (Completed command result s
                  ⊎ (Unit {0}
                      × (result.phase ≡ DeactivationPhase.failed)
                      × (result.status ≡ ResultStatus.failed)))
              → Ended command result s
          any_end result s (inl done) = inl done
          any_end result s (inr (x, phase, status)) = inr (phase, status)

  -- Once the fence is answered, with its store deactivating, and unless a request for a
  -- cancellation or an invalidation is itself canceled, a deactivation over the repository
  -- returns COMPLETED, whatever old work still writes: its store is inactive, without users,
  -- documents and retrieval state, in the generation of its result, which is not that of old
  -- work.
  pub run_completes :
      FencedDeactivating command
        (fence_of (store_server net command.store_key (old_generation command)) command w)
      → ((id : String) → net.replies id ≢ cut_off)
      → Post (Completed command) Never Never (
          run py
            (store_server net command.store_key (old_generation command))
            own_id
            command
            (started w))
  run_completes fenced uncut = by_fence (fence_of server command w) refl fence-Fences fenced
    where
      by_fence :
          (x : Answer NewGeneration × Store)
          → fence_of server command w ≡ x
          → Fences command.store_key (old_generation command) x
          → FencedDeactivating command x
          → Post (Completed command) Never Never (run py server own_id command (started w))
      by_fence (answered n, w') e (key_is, other, has) (r, there, current, closing) = settle _ (
          fenced-Post ⊥ n (ap (λ x. x.0) e) key_is other
            (subst (λ x. In command n (Closing ⊥) x.1) (sym e) (r, there, current, inl closing))
            uncut)
        where
          settle :
              (x : Exit DeactivationResult × Run Store)
              → Post
                  (λ result s.
                    Completed command result s
                    ⊎ (⊥
                        × (result.phase ≡ DeactivationPhase.failed)
                        × (result.status ≡ ResultStatus.failed)))
                  Never
                  (Broken ⊥)
                  x
              → Post (Completed command) Never Never x
          settle (returned result, s) (inl done) = done
          settle (returned result, s) (inr failure) = absurd failure.0
          settle (raised message, s) b = absurd b
          settle (canceled, s) b = absurd b.0
      by_fence (failed_with message, w') e h f = absurd f
