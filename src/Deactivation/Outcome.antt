-- ===== src/Deactivation/Outcome.antt =====
-- How `DeactivateStoreWorkflow` ends, over any world outside that keeps the laws of its calls.
use golden_retriever.Prelude.{
  sym, subst, ◌≤◌, String, ◌≡◌, refl, ◌⊎◌, inl, inr, Bool, true, false, Option, none, some, [],
  length, length-append, arith, option_cases,
}
use golden_retriever.Ids.{Builtins}
use golden_retriever.Models.Operations.{OperationStatus, ResultStatus}
use golden_retriever.Models.Lifecycle.{
  DeactivationInput, DeactivationResult, NewGeneration, DeactivationPhase,
}
use golden_retriever.Task.{Exit, returned, raised, canceled, Task, Post, bind-Post, and_then, ◌>>◌}
use golden_retriever.Deactivation.Guard.{advance, fence_committed}
use golden_retriever.Deactivation.Server.{Answer, answered, failed_with, Server, Run, advance_order}
use golden_retriever.Deactivation.Requests.{result_of, failure_text}
use golden_retriever.Deactivation.Workflow.{
  started, run_after_fence, finish_pre_fence_failed, fence, fence_with, run,
}
use golden_retriever.Deactivation.Stages.{At, At-phase, asked, advance-Post}
use Prim.Native.String.{slice, ◌++◌ as append}
use golden_retriever.Deactivation.Laws.{Laws, Broken, Never, Settled, Anything, told_of}
use golden_retriever.Deactivation.Told.{told_none, told_some}
use golden_retriever.Deactivation.Finish.{run_after_fence-Post}

-- What the fence activity answers: with `true`, that of a resumption.
abbrev pub fence_at :
    {W : Type 0} → Bool → Server W → DeactivationInput → W → Answer NewGeneration × W
fence_at true server command w =
    server.resume_store_deactivation
      (record { store_key = command.store_key; lifecycle_generation = command.expected_generation })
      w
fence_at false server command w =
    server.begin_store_deactivation
      (record { store_key = command.store_key; expected_generation = command.expected_generation })
      w

abbrev pub fence_of : {W : Type 0} → Server W → DeactivationInput → W → Answer NewGeneration × W
fence_of server command w = fence_at command.resume_same_generation server command w

-- How a run ends: without a fence, FAILED for the expected generation, with nothing else requested
-- than the fence and told than the failure; or as `Settled` says, for the generation of the fence.
abbrev pub Ends :
    {W : Type 0}
    → Type 0
    → Server W
    → DeactivationInput
    → (W → Type 0)
    → W
    → DeactivationResult
    → Run W
    → Type 0
Ends Excuse server command Inactive w result s =
    ((message : String) × ((fence_of server command w).0 ≡ failed_with message)
      × (result.phase ≡ DeactivationPhase.failed)
      × (result.status ≡ ResultStatus.failed)
      × (result.lifecycle_generation ≡ command.expected_generation)
      × (length s.requests ≤ 2)
      × At 0 9 (told_of command.controller_workflow_id OperationStatus.failed) Anything s)
    ⊎ ((generation : NewGeneration) × ((fence_of server command w).0 ≡ answered generation)
        × Settled Excuse command generation Inactive result s)

-- The run after the fence activity: one request was made.
abbrev Asked : {W : Type 0} → Answer NewGeneration × W → Answer NewGeneration → Run W → Type 0
Asked outcome answer s =
    (outcome.0 ≡ answer) × (s.world ≡ outcome.1) × (length s.requests ≡ 1) × At 0 0 [] Anything s

module _ {W : Type 0} (py : Builtins) (server : Server W) (own_id : String)
    (command : DeactivationInput) (Excuse : Type 0)
    (Fenced NoUsers Empty Inactive : W → Type 0) where
  fence-Post :
      (s : Run W)
      → At 0 0 [] Anything s
      → s.requests ≡ []
      → Post
          (Asked (fence_of server command s.world))
          Never
          (Broken Excuse)
          (fence py server own_id command s)
  unfolding fence fence_with
  fence-Post s a none_yet = by_mode command.resume_same_generation
    where
      by_mode :
          (b : Bool)
          → Post
              (Asked (fence_at b server command s.world))
              Never
              (Broken Excuse)
              (fence_with py server own_id b command s)
      by_mode true = (
        refl,
        refl,
        ground (arith, none_yet),
        asked 0 0 0 Anything Anything _ _ s (omega arith) (omega arith) refl tt a,
      )
      by_mode false = (
        refl,
        refl,
        ground (arith, none_yet),
        asked 0 0 0 Anything Anything _ _ s (omega arith) (omega arith) refl tt a,
      )

  -- Where every fence that is answered establishes `Fenced`, and the laws hold of its
  -- generation, a run settles.
  pub run-Post :
      (w : W)
      → ((generation : NewGeneration)
          → (fence_of server command w).0 ≡ answered generation
          → Fenced (fence_of server command w).1
            × Laws server command generation Excuse Fenced NoUsers Empty Inactive)
      → Post
          (Ends Excuse server command Inactive w)
          Never
          (Broken Excuse)
          (run py server own_id command (started w))
  unfolding run advance
  run-Post w fenced =
      bind-Post (Asked (fence_of server command w)) (Ends Excuse server command Inactive w) Never
        (Broken Excuse) (fence py server own_id command) _ _
        (fence-Post (record (started w) { phase = DeactivationPhase.fencing })
          (record {
            completed_is = refl;
            ordered = tt;
            bounded = tt;
            told_is = refl;
            world_is = tt;
          })
          refl)
        (λ answer s asked_fence. after answer s asked_fence)
    where
      after :
          (answer : Answer NewGeneration) (s : Run W)
          → Asked (fence_of server command w) answer s
          → Post (Ends Excuse server command Inactive w) Never (Broken Excuse) (
              (elim answer as (λ x. Task (Run W) DeactivationResult) [
                | failed_with message ↦ finish_pre_fence_failed py server own_id command message
                | answered generation ↦
                    advance_order fence_committed
                    >> run_after_fence py server own_id command generation
              ])
                s)
      after (failed_with message) s a =
          option_cases
            (λ (m : Task (Run W) (Option String)).
              Post (Ends Excuse server command Inactive w) Never (Broken Excuse) (
                and_then
                  (λ terminal_warning.
                    result_of py server own_id command command.expected_generation
                      ResultStatus.failed DeactivationPhase.failed
                      (some (elim terminal_warning [
                        | none ↦ failure_text message "deactivation fence did not commit"
                        | some w' ↦
                            slice
                              (append (failure_text message "deactivation fence did not commit")
                                (append "; " w'))
                              0 1000
                      ])))
                  (m (record s { phase = DeactivationPhase.failed }))))
            command.controller_workflow_id _ _
            (λ e. inl (
              message,
              a.0,
              refl,
              refl,
              refl,
              omega (arith, a.2),
              told_none command.controller_workflow_id 0 0 OperationStatus.failed Anything _
                  (omega arith) e (At-phase 0 0 [] Anything DeactivationPhase.failed s a.3),
            ))
            (λ id e. inl (
              message,
              a.0,
              refl,
              refl,
              refl,
              omega (arith, a.2, length-append s.requests),
              told_some command.controller_workflow_id 0 0 Anything Anything id _ _ _ (omega arith)
                  e tt (At-phase 0 0 [] Anything DeactivationPhase.failed s a.3),
            ))
      after (answered generation) s a =
          let fence = fenced generation a.0 in
          bind-Post (λ u. At 1 0 [] Fenced) (Ends Excuse server command Inactive w) Never
            (Broken Excuse) (advance_order fence_committed) _ s
            (advance-Post 0 0 [] Fenced Never (Broken Excuse) fence_committed s refl (record {
              completed_is = a.3.completed_is;
              ordered = a.3.ordered;
              bounded = a.3.bounded;
              told_is = a.3.told_is;
              world_is = subst Fenced (sym a.1) fence.0;
            }))
            (λ u s1 a1. settle (run_after_fence py server own_id command generation s1) (
              run_after_fence-Post py server own_id command generation Excuse Fenced NoUsers Empty
                Inactive fence.1 s1 a1))
        where
          settle :
              (x : Exit DeactivationResult × Run W)
              → Post (Settled Excuse command generation Inactive) Never (Broken Excuse) x
              → Post (Ends Excuse server command Inactive w) Never (Broken Excuse) x
          settle (returned r, s') h = inr (generation, a.0, h)
          settle (canceled, s') h = h
          settle (raised m, s') h = absurd h
