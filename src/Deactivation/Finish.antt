-- ===== src/Deactivation/Finish.antt =====
-- The end of the orchestration, and of a run that has its fence.
use golden_retriever.Prelude.{
  String, ◌≡◌, refl, ◌⊎◌, inl, inr, Bool, true, false, List, [], arith, if◌then◌else◌,
}
use golden_retriever.Ids.{Builtins}
use golden_retriever.Models.Operations.{OperationStatus, ResultStatus}
use golden_retriever.Models.Lifecycle.{DeactivationInput, NewGeneration, DeactivationPhase}
use golden_retriever.Task.{Post, bind-Post, try-Post}
use golden_retriever.Deactivation.Guard.{advance, controller_terminal}
use golden_retriever.Deactivation.Server.{Server, Request, Run, advance_order}
use golden_retriever.Deactivation.Requests.{signal_controller_terminal}
use golden_retriever.Deactivation.Workflow.{
  stop_old_work, tear_down, conclude, orchestrate, finish_failed, run_after_fence,
}
use golden_retriever.Deactivation.Stages.{At, At-phase, asked, advance-Post}
use golden_retriever.Deactivation.Laws.{Laws, Broken, Never, Settled, Anything, told_of}
use golden_retriever.Deactivation.Told.{signal_terminal-Post}
use golden_retriever.Deactivation.Stop.{stop_old_work-Post}
use golden_retriever.Deactivation.TearDown.{tear_down-Post}

good_status :
    (b : Bool)
    → ◌⊎◌
        ((if b then ResultStatus.succeeded else ResultStatus.partial) ≡ ResultStatus.succeeded)
        ((if b then ResultStatus.succeeded else ResultStatus.partial) ≡ ResultStatus.partial)
good_status true = inl refl
good_status false = inr refl

module _ {W : Type 0} (py : Builtins) (server : Server W) (own_id : String)
    (command : DeactivationInput) (generation : NewGeneration) (Excuse : Type 0)
    (Fenced NoUsers Empty Inactive : W → Type 0)
    (laws : Laws server command generation Excuse Fenced NoUsers Empty Inactive) where
  conclude-Post :
      (warnings : List String) (s : Run W)
      → At 8 7 [] Inactive s
      → Post
          (Settled Excuse command generation Inactive)
          (Broken Excuse)
          (Broken Excuse)
          (conclude py server own_id command generation warnings s)
  unfolding conclude advance
  conclude-Post warnings s a =
      let told = told_of command.controller_workflow_id OperationStatus.completed in
      bind-Post (λ w. At 8 9 told Inactive) (Settled Excuse command generation Inactive)
        (Broken Excuse) (Broken Excuse)
        (signal_controller_terminal py server own_id command generation.lifecycle_generation
          OperationStatus.completed _ _)
        _ _
        (signal_terminal-Post py server own_id command 8 7 Inactive generation.lifecycle_generation
          OperationStatus.completed _ _ (Broken Excuse) (Broken Excuse) _ (omega arith)
          laws.tells_status (At-phase 8 7 [] Inactive DeactivationPhase.completed s a))
        (λ w1 s1 a1.
          bind-Post (λ r. At 9 9 told Inactive) (Settled Excuse command generation Inactive)
            (Broken Excuse) (Broken Excuse) (advance_order controller_terminal) _ s1
            (advance-Post 8 9 told Inactive (Broken Excuse) (Broken Excuse) controller_terminal s1
              refl a1)
            (λ u2 s2 a2. inl (refl, good_status _, refl, a2)))

  finish_failed-Post :
      (message : String) (s : Run W)
      → Broken Excuse s
      → Post
          (Settled Excuse command generation Inactive)
          Never
          (Broken Excuse)
          (finish_failed py server own_id command generation message s)
  unfolding finish_failed
  finish_failed-Post message s b =
      let n = b.1 in
      let told = told_of command.controller_workflow_id OperationStatus.failed in
      bind-Post (λ w. At n 9 told Anything) (Settled Excuse command generation Inactive) Never
        (Broken Excuse)
        (signal_controller_terminal py server own_id command generation.lifecycle_generation
          OperationStatus.failed _ _)
        _ _
        (signal_terminal-Post py server own_id command n 8 Anything generation.lifecycle_generation
          OperationStatus.failed _ _ Never (Broken Excuse) _ (omega arith) (λ id e w h. tt)
          (asked n 7 8 Anything Anything (Request.marks_failed generation) _ _ (omega arith)
            (omega arith) refl tt (At-phase n 7 [] Anything DeactivationPhase.failed s b.4)))
        (λ w1 s1 a1. inr (refl, refl, refl, b.0, n, b.2, b.3, a1))

  orchestrate-Post :
      (s : Run W)
      → At 1 0 [] Fenced s
      → Post
          (Settled Excuse command generation Inactive)
          (Broken Excuse)
          (Broken Excuse)
          (orchestrate py server own_id command generation s)
  unfolding orchestrate
  orchestrate-Post s a =
      bind-Post (λ w. At 5 4 [] Fenced) (Settled Excuse command generation Inactive) (Broken Excuse)
        (Broken Excuse) (stop_old_work py server own_id command generation) _ s
        (stop_old_work-Post py server own_id command generation Excuse Fenced NoUsers Empty Inactive
          laws s a)
        (λ w1 s1 a1.
          bind-Post (λ u. At 8 7 [] Inactive) (Settled Excuse command generation Inactive)
            (Broken Excuse) (Broken Excuse) (tear_down py server own_id command generation) _ s1
            (tear_down-Post py server own_id command generation Excuse Fenced NoUsers Empty Inactive
              laws s1 a1)
            (λ u2 s2 a2. conclude-Post w1 s2 a2))

  -- After the fence.
  pub run_after_fence-Post :
      (s : Run W)
      → At 1 0 [] Fenced s
      → Post
          (Settled Excuse command generation Inactive)
          Never
          (Broken Excuse)
          (run_after_fence py server own_id command generation s)
  unfolding run_after_fence
  run_after_fence-Post s a =
      try-Post (Settled Excuse command generation Inactive) (Broken Excuse) Never (Broken Excuse)
        (orchestrate py server own_id command generation)
        (finish_failed py server own_id command generation) s (orchestrate-Post s a)
        finish_failed-Post
