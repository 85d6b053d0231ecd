-- ===== src/Deactivation/Laws.antt =====
-- The laws that the calls of a world outside may keep, and how a run can end.
use golden_retriever.Prelude.{
  ℕ, ◌≤◌, String, ◌≡◌, ◌⊎◌, true, false, Option, none, some, List, [], ◌∷◌,
}
use golden_retriever.Models.Operations.{OperationStatus, ResultStatus}
use golden_retriever.Models.Quota.{CancelGenerationPermits}
use golden_retriever.Models.Lifecycle.{
  DeactivationInput, DeactivationResult, NewGeneration, DeactivationFencedEvent,
  OperationStatusEvent, LifecycleMutationResult, DeactivationPhase,
}
use golden_retriever.Cleanup.{CleanupResult}
use golden_retriever.Deactivation.Server.{
  Answer, answered, failed_with, Reply, cut_off, Server, Run, is_succeeded,
}
use golden_retriever.Deactivation.Requests.{cleanup_input}
use golden_retriever.Deactivation.Stages.{At, At-weaken}

-- The statuses that a controller is told, if there is one.
abbrev pub told_of : Option String → OperationStatus → List OperationStatus
told_of none status = []
told_of (some id) status = status ∷ []

module _ {W : Type 0} where
  abbrev pub Anything : W → Type 0
  Anything w = Unit {0}

  -- A cleanup that reports success establishes a fact of the world; another one is an excuse.
  abbrev pub Cleans : Type 0 → (W → Type 0) → Answer CleanupResult × W → Type 0
  Cleans Excuse Inv (failed_with message, w) = Excuse
  Cleans Excuse Inv (answered result, w) =
      (is_succeeded result.status ≡ true → Inv w) × (is_succeeded result.status ≡ false → Excuse)

  abbrev pub Marks : Type 0 → (W → Type 0) → Answer LifecycleMutationResult × W → Type 0
  Marks Excuse Inv (failed_with message, w) = Excuse
  Marks Excuse Inv (answered result, w) =
      (is_succeeded result.status ≡ true → Inv w) × (is_succeeded result.status ≡ false → Excuse)

  -- A request that keeps a fact of the world; if it is canceled, that is an excuse.
  abbrev pub Keeps : Type 0 → (W → Type 0) → Reply × W → Type 0
  Keeps Excuse Inv (reply, w) = (reply ≡ cut_off → Excuse) × Inv w

  -- What the calls make of the world after the fence: `Fenced` lasts until the users are gone,
  -- `NoUsers` until the objects are, `Empty` until the store is marked, and `Inactive` from then
  -- on. `Excuse` is given by each call that can end the orchestration before that.
  pub record Laws (server : Server W) (command : DeactivationInput) (generation : NewGeneration)
      (Excuse : Type 0) (Fenced NoUsers Empty Inactive : W → Type 0) : Type 0 where
    pub tells_fence :
        (id : String) (e : DeactivationFencedEvent) (w : W)
        → Fenced w
        → Fenced (server.signal_deactivation_fenced id e w).1
    pub cancels_work :
        (id : String) (w : W) → Fenced w → Keeps Excuse Fenced (server.cancel_workflow id w)
    pub invalidates_quota :
        (id : String) (c : CancelGenerationPermits) (w : W)
        → Fenced w
        → Keeps Excuse Fenced (server.signal_cancel_generation id c w)
    pub waits_drained :
        (ids : List String) (w : W) → Fenced w → Fenced (server.wait_drained ids w).1
    pub cleans_users :
        (w : W)
        → Fenced w
        → Cleans Excuse NoUsers (server.cleanup_users (cleanup_input command generation) w)
    pub removes_objects :
        (w : W)
        → NoUsers w
        → Cleans Excuse Empty (server.remove_objects (cleanup_input command generation) w)
    pub marks_inactive :
        (w : W) → Empty w → Marks Excuse Inactive (server.mark_store_inactive generation w)
    pub tells_status :
        (id : String) (e : OperationStatusEvent) (w : W)
        → Inactive w
        → Inactive (server.signal_operation_status id e w).1

  abbrev pub Never : Run W → Type 0
  Never s = ⊥

  -- How a run that has its fence ends. COMPLETED: the whole plan is done, the store is inactive,
  -- and the controller was told a completion. FAILED: a part of the plan is done, and the
  -- controller was told a failure. The requests are in the order of the plan in both cases.
  abbrev pub Settled :
      Type 0
      → DeactivationInput
      → NewGeneration
      → (W → Type 0)
      → DeactivationResult
      → Run W
      → Type 0
  Settled Excuse command generation Inactive result s =
      ((result.phase ≡ DeactivationPhase.completed)
        × ((result.status ≡ ResultStatus.succeeded) ⊎ (result.status ≡ ResultStatus.partial))
        × (result.lifecycle_generation ≡ generation.lifecycle_generation)
        × At 9 9 (told_of command.controller_workflow_id OperationStatus.completed) Inactive s)
      ⊎ ((result.phase ≡ DeactivationPhase.failed)
          × (result.status ≡ ResultStatus.failed)
          × (result.lifecycle_generation ≡ generation.lifecycle_generation)
          × Excuse
          × (n : ℕ) × (1 ≤ n)
          × (n ≤ 7)
          × At n 9 (told_of command.controller_workflow_id OperationStatus.failed) Anything s)

  -- A stage that did not finish: some of the plan is done, and the controller was told nothing.
  abbrev pub Broken : Type 0 → Run W → Type 0
  Broken Excuse s = Excuse × (n : ℕ) × (1 ≤ n) × (n ≤ 7) × At n 7 [] Anything s

  pub broken :
      {Excuse : Type 0} (n hi : ℕ) (Inv : W → Type 0) (s : Run W)
      → Excuse
      → 1 ≤ n
      → n ≤ 7
      → hi ≤ 7
      → At n hi [] Inv s
      → Broken Excuse s
  broken n hi Inv s x b c d a = (x, n, b, c, At-weaken n hi 7 [] Inv Anything s d (λ w h. tt) a)
