-- ===== src/Controller/Process.antt =====
-- The loop of `StoreControllerWorkflow.run`: commands in the order of the queue, one at a time.
use golden_retriever.Prelude.{
  ℕ, String, Bool, true, false, ◌&&◌, ◌||◌, Option, none, some, List, [], ◌∷◌, ◌++◌, sorted,
}
use golden_retriever.Prelude.Result.{ok, err}
use golden_retriever.Dict.{keys, size}
use golden_retriever.Ids.{Builtins}
use golden_retriever.Models.Operations.{SyncCommand, CancelSyncCommand, StartDeactivationCommand}
use golden_retriever.Models.Lifecycle.{
  StoreControllerState, StoreControllerSnapshot, OperationStatusEvent, RemediationStatusEvent,
  DeactivationFencedEvent,
}
use golden_retriever.Controller.State.{Effect, Handled}
use golden_retriever.Controller.SyncInput.{Texts}
use golden_retriever.Controller.Sync.{request_sync, cancel_sync}
use golden_retriever.Controller.Deactivation.{start_deactivation}
use golden_retriever.Controller.Events.{
  operation_status, remediation_started, remediation_finished, deactivation_fenced,
}

-- `_CommandEnvelope`: its kind and payload.
pub data Envelope : Type 0 where
  requests_sync : SyncCommand → Envelope
  cancels_sync : CancelSyncCommand → Envelope
  starts_deactivation : StartDeactivationCommand → Envelope
  reports_status : OperationStatusEvent → Envelope
  starts_remediation finishes_remediation : RemediationStatusEvent → Envelope
  reports_fence : DeactivationFencedEvent → Envelope
  continues_as_new : Envelope

-- The state and the effects after a handler returned or raised.
abbrev pub finished {ℓ} :
    {A : Type ℓ} → StoreControllerState → Handled A → StoreControllerState × List Effect
finished s (ok (a, s', effects)) = (s', effects)
finished s (err e) = (s, [])

-- What stands outside while a command is processed: the time, and whether the Temporal server
-- takes a child start or a cancellation.
pub record Moment : Type 0 where
  pub now : ℕ
  pub starts : Bool
  pub cancels : Bool

module _ (py : Builtins) (texts : Texts) (own_id : String) where
  -- `_process`. The errors of the first three go to the caller of the update; the others raise
  -- none.
  unfoldable pub process :
      Moment → Envelope → StoreControllerState → StoreControllerState × List Effect
  process m (requests_sync c) s = finished s (request_sync py texts m.starts own_id m.now c s)
  process m (cancels_sync c) s = finished s (cancel_sync m.cancels c s)
  process m (starts_deactivation c) s = finished s (start_deactivation py m.starts own_id c s)
  process m (reports_status e) s = operation_status e s
  process m (starts_remediation e) s = remediation_started m.now e s
  process m (finishes_remediation e) s = remediation_finished e s
  process m (reports_fence e) s = (deactivation_fenced e s, [])
  process m continues_as_new s = (record s { continue_as_new_requested = true }, [])

  -- The commands of a queue, and what they had the controller ask of the server.
  unfoldable pub run :
      List (Moment × Envelope) → StoreControllerState → StoreControllerState × List Effect
  unfolding process
  run [] s = (s, [])
  run ((m, e) ∷ es) s =
      let step = process m e s in let rest = run es step.0 in (rest.0, step.1 ++ rest.1)

-- `_maybe_continue_as_new`: the state of the next run, if there is one. `idle` says that no
-- command waits, before and after the wait for the handlers.
unfoldable pub continue_as_new : Bool → Bool → StoreControllerState → Option StoreControllerState
continue_as_new suggested idle s = elim ((s.continue_as_new_requested || suggested) && idle) [
  | false ↦ none
  | true ↦ some (record s { continue_as_new_requested = false; authority_initialized = false })
]

unfoldable pub get_status : StoreControllerState → StoreControllerSnapshot
get_status s = record {
  store_key = s.store_key;
  lifecycle_state = s.lifecycle_state;
  lifecycle_generation = s.lifecycle_generation;
  active_sync_ids = sorted (keys s.active_syncs);
  active_remediation_ids = sorted (keys s.active_remediations);
  active_deactivation_id = s.active_deactivation_id;
  recent_command_count = size s.recent_command_results;
}
