-- ===== src/Deactivation/Told.antt =====
-- What the controller is told at the end.
use golden_retriever.Prelude.{
  ℕ, ◌≤◌, String, ◌≡◌, Option, none, some, [], ◌∷◌, ◌++◌, arith, option_cases,
}
use golden_retriever.Prelude.Int.{ℤ}
use golden_retriever.Ids.{Builtins}
use golden_retriever.Models.Operations.{OperationStatus, ResultStatus}
use golden_retriever.Models.Lifecycle.{DeactivationInput, OperationStatusEvent}
use golden_retriever.Task.{Task, Post}
use golden_retriever.Deactivation.Server.{Server, Request, Run}
use golden_retriever.Deactivation.Requests.{signal_controller_terminal}
use golden_retriever.Deactivation.Stages.{At, At-weaken, told_status}
use golden_retriever.Deactivation.Laws.{told_of}

module _ {W : Type 0} where
  pub told_none :
      (controller : Option String) (n hi : ℕ) (status : OperationStatus) (Inv : W → Type 0)
      (s : Run W)
      → hi ≤ 9
      → controller ≡ none
      → At n hi [] Inv s
      → At n 9 (told_of controller status) Inv s
  told_none none n hi status Inv s b e a = At-weaken n hi 9 [] Inv Inv s b (λ w h. h) a
  told_none (some id) n hi status Inv s b e a = absurd (ground (arith, e))

  pub told_some :
      (controller : Option String) (n hi : ℕ) (Inv After : W → Type 0) (id : String)
      (event : OperationStatusEvent) (w : W) (s : Run W)
      → hi ≤ 9
      → controller ≡ some id
      → After w
      → At n hi [] Inv s
      → At n 9
          (told_of controller event.status)
          After
          (record s { requests = s.requests ++ Request.signals_status id event ∷ []; world = w })
  told_some none n hi Inv After id event w s b e h a = absurd (ground (arith, e))
  told_some (some k) n hi Inv After id event w s b e h a =
      told_status n hi Inv After id event w s b h a

module _ {W : Type 0} (py : Builtins) (server : Server W) (own_id : String)
    (command : DeactivationInput) where
  pub signal_terminal-Post :
      (n hi : ℕ) (Inv : W → Type 0) (g : ℤ) (status : OperationStatus)
      (result_status : ResultStatus) (message : Option String) (E C : Run W → Type 0) (s : Run W)
      → hi ≤ 9
      → ((id : String) (e : OperationStatusEvent) (w : W)
          → Inv w
          → Inv (server.signal_operation_status id e w).1)
      → At n hi [] Inv s
      → Post
          (λ w. At n 9 (told_of command.controller_workflow_id status) Inv)
          E
          C
          (signal_controller_terminal py server own_id command g status result_status message s)
  unfolding signal_controller_terminal
  signal_terminal-Post n hi Inv g status result_status message E C s b keeps a =
      let event : OperationStatusEvent = record {
        operation_id = command.operation_id;
        workflow_id = own_id;
        lifecycle_generation = g;
        status = status;
        result_status = some result_status;
        message = message;
      } in
      option_cases
        (λ (m : Task (Run W) (Option String)).
          Post (λ w. At n 9 (told_of command.controller_workflow_id status) Inv) E C (m s))
        command.controller_workflow_id _ _
        (λ e. told_none command.controller_workflow_id n hi status Inv s b e a)
        (λ id e.
          told_some command.controller_workflow_id n hi Inv Inv id event _ s b e
            (keeps id event s.world a.world_is) a)
