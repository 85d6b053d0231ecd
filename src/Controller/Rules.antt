-- ===== src/Controller/Rules.antt =====
-- What holds of a handler's result, by the ways in which the handler can end.
use golden_retriever.Prelude.{
  ℕ, String, ◌≡◌, Bool, true, false, not, none, some, List, [], ◌∷◌, arith, option_cases, if_cases,
  if◌then◌else◌, refl, ◌⊎◌, is_nil,
}
use golden_retriever.Prelude.Int.{ℤ, pos, ◌+ℤ◌}
use golden_retriever.Prelude.Result.{ok, err, raise_unless_cases, bind_cases}
use golden_retriever.Dict.{Dict, get, put}
use golden_retriever.Ids.{Builtins, store_sync_workflow_id, store_deactivation_workflow_id}
use golden_retriever.Models.Operations.{
  SyncCommand, CancelSyncCommand, StartDeactivationCommand, OperationAccepted, CancellationAccepted,
  CommandResult, OperationStatus, OperationType,
}
use golden_retriever.Models.Lifecycle.{StoreControllerState, active, deactivating, syncing}
use golden_retriever.Models.Sync.{StoreSyncInput}
use golden_retriever.Controller.State.{
  application_error, temporal_error, Error, Handled, Effect, start_root_sync,
  start_deactivate_store, remember, duplicate_operation, validate_store,
}
use golden_retriever.Controller.SyncInput.{Texts, sync_input}
use golden_retriever.Controller.Sync.{
  request_sync, cancel_sync, start_sync, check_syncable, rejects_sync, is_empty, sync_result,
  accepted_sync, registration_of, add_quota_workflow, same_generation, or_value_error,
  cancellation_result, cancel_registered, repeated_cancellation,
}
use golden_retriever.Controller.Deactivation.{
  start_deactivation, deactivate_idle, begin_child, deactivation_result, joined, resumes,
  deactivation_input, is_done, is_already_failed,
}
use golden_retriever.Prelude.{not, ◌&&◌}
use golden_retriever.Dict.{remove, has}
use golden_retriever.Dict.Laws.{is_some}
use golden_retriever.Models.Lifecycle.{OperationStatusEvent}
use golden_retriever.Controller.Events.{
  operation_status, settle_status, clear_quota_workflows, drop_sync, drop_remediation, is_quiet,
  is_terminal,
}

-- A sync may start: the command has the current generation, the store is active or syncing, and
-- no deactivation, sync or remediation is going on.
pub record Syncable (command : SyncCommand) (s : StoreControllerState) : Type 0 where
  pub current : command.expected_generation ≡ s.lifecycle_generation
  pub no_deactivation : s.active_deactivation_id ≡ none
  pub open_store : (s.lifecycle_state ≡ active) ⊎ (s.lifecycle_state ≡ syncing)
  pub no_sync : s.active_syncs.entries ≡ []
  pub no_remediation : s.active_remediations.entries ≡ []

no_entries : {V : Type 0} (d : Dict V) → is_empty d ≡ true → d.entries ≡ []
no_entries d h = go d.entries h
  where
    go : {V : Type 0} (l : List V) → is_nil l ≡ true → l ≡ []
    go [] h = refl
    go (x ∷ l) h = ground arith

open_of_not_rejected :
    (s : StoreControllerState)
    → rejects_sync s ≡ false
    → (s.active_deactivation_id ≡ none)
      × ((s.lifecycle_state ≡ active) ⊎ (s.lifecycle_state ≡ syncing))
open_of_not_rejected s h = ground arith

module _ (py : Builtins) (texts : Texts) where
  checked :
      (command : SyncCommand) (s : StoreControllerState)
      → check_syncable py texts command s ≡ ok tt
      → Syncable command s
  unfolding check_syncable
  checked command s e = record {
    current = ground arith;
    no_deactivation = (open_of_not_rejected s (ground arith)).0;
    open_store = (open_of_not_rejected s (ground arith)).1;
    no_sync = no_entries s.active_syncs (ground arith);
    no_remediation = no_entries s.active_remediations (ground arith);
  }

  -- The state while a sync runs, before the result is remembered.
  abbrev pub syncing_state :
      SyncCommand → String → StoreSyncInput → ℕ → StoreControllerState → StoreControllerState
  syncing_state command id input now s = record s {
    active_syncs = put id (registration_of command id now) s.active_syncs;
    quota_workflow_ids = add_quota_workflow py input.quota_scope s.quota_workflow_ids;
    lifecycle_state = syncing;
  }

  module _ {κ} (P : Handled OperationAccepted → Type κ) where
    pub request_sync_cases :
        (starts : Bool) (own_id : String) (now : ℕ) (command : SyncCommand)
        (s : StoreControllerState)
        → ((e : Error) → P (err e))
        → ((result : CommandResult)
            → get command.command_id s.recent_command_results ≡ some result
            → P (ok (duplicate_operation result, s, [])))
        → ((id : String) (input : StoreSyncInput)
            → get command.command_id s.recent_command_results ≡ none
            → Syncable command s
            → sync_input texts own_id command s ≡ ok input
            → P (
                ok (
                  accepted_sync command id,
                  remember (sync_result command id) (syncing_state command id input now s),
                  start_root_sync id input ∷ [],
                )))
        → P (request_sync py texts starts own_id now command s)
    unfolding request_sync start_sync
    request_sync_cases starts own_id now command s pe pd pn =
        bind_cases P (validate_store command.store_key s) _ (λ e _. pe e)
          (λ _ _.
            option_cases P (get command.command_id s.recent_command_results) _ _
              (λ fresh.
                bind_cases P (check_syncable py texts command s) _ (λ e _. pe e)
                  (λ u c.
                    bind_cases P (sync_input texts own_id command s) _ (λ e _. pe e)
                      (λ input parsed.
                        bind_cases P
                          (or_value_error (
                            store_sync_workflow_id py command.store_key command.expected_generation
                              command.sync_sequence))
                          _ (λ e _. pe e)
                          (λ id _.
                            raise_unless_cases P starts temporal_error _ (pe _)
                              (λ _. pn id input fresh (checked command s c) parsed)))))
              pd)

module _ {κ} (py : Builtins) (P : Handled OperationAccepted → Type κ) where
  pub start_deactivation_cases :
      (starts : Bool) (own_id : String) (command : StartDeactivationCommand)
      (s : StoreControllerState)
      → ((e : Error) → P (err e))
      → ((result : CommandResult)
          → get command.command_id s.recent_command_results ≡ some result
          → P (ok (duplicate_operation result, s, [])))
      → ((id : String) (status : OperationStatus) (g : ℤ)
          → get command.command_id s.recent_command_results ≡ none
          → P (joined (deactivation_result command id status g) s))
      → ((id : String) (g : ℤ)
          → get command.command_id s.recent_command_results ≡ none
          → s.active_deactivation_id ≡ none
          → command.expected_generation ≡ s.lifecycle_generation
          → is_done command s ≡ false
          → P (
              ok (
                record {
                  command_id = command.command_id;
                  operation_id = id;
                  workflow_id = id;
                  operation_type = OperationType.deactivation;
                  lifecycle_generation = g;
                  duplicate = false;
                },
                remember (deactivation_result command id OperationStatus.accepted g) (record s {
                  active_deactivation_id = some id;
                  active_deactivation_fenced = resumes s.lifecycle_state;
                  lifecycle_state = deactivating;
                }),
                start_deactivate_store id (deactivation_input own_id command id s) ∷ [],
              )))
      → P (start_deactivation py starts own_id command s)
  unfolding start_deactivation deactivate_idle begin_child
  start_deactivation_cases starts own_id command s pe pd pj pn =
      bind_cases P (validate_store command.store_key s) _ (λ e _. pe e)
        (λ _ _.
          option_cases P (get command.command_id s.recent_command_results) _ _
            (λ fresh.
              option_cases P s.active_deactivation_id _ _
                (λ idle.
                  if_cases P (is_done command s) _ _
                    (λ _.
                      bind_cases P
                        (or_value_error (
                          store_deactivation_workflow_id py command.store_key
                            s.lifecycle_generation))
                        _ (λ e _. pe e) (λ id _. pj id _ _ fresh))
                    (λ not_done.
                      if_cases P (is_already_failed command s) _ _
                        (λ _.
                          bind_cases P
                            (or_value_error (
                              store_deactivation_workflow_id py command.store_key
                                s.lifecycle_generation))
                            _ (λ e _. pe e) (λ id _. pj id _ _ fresh))
                        (λ _.
                          raise_unless_cases P
                            (same_generation command.expected_generation s.lifecycle_generation)
                            (application_error "StaleLifecycleGeneration") _ (pe _)
                            (λ current.
                              bind_cases P
                                (or_value_error (
                                  store_deactivation_workflow_id py command.store_key (
                                    if resumes s.lifecycle_state
                                    then s.lifecycle_generation
                                    else command.expected_generation +ℤ pos 1)))
                                _ (λ e _. pe e)
                                (λ id _.
                                  raise_unless_cases P starts temporal_error _ (pe _)
                                    (λ _. pn id _ fresh idle (ground arith) not_done))))))
                (λ id _. pj id _ _ fresh))
            pd)

module _ {κ} (P : Handled CancellationAccepted → Type κ) where
  pub cancel_sync_cases :
      (cancels : Bool) (command : CancelSyncCommand) (s : StoreControllerState)
      → ((e : Error) → P (err e))
      → ((result : CommandResult)
          → get command.command_id s.recent_command_results ≡ some result
          → P (ok (repeated_cancellation command result, s, [])))
      → ((a : CancellationAccepted) (effects : List Effect)
          → get command.command_id s.recent_command_results ≡ none
          → cancel_registered cancels (get command.operation_id s.active_syncs) ≡ ok effects
          → P (
              ok (
                a,
                remember
                    (cancellation_result command (get command.operation_id s.active_syncs) s)
                    s,
                effects,
              )))
      → P (cancel_sync cancels command s)
  unfolding cancel_sync
  cancel_sync_cases cancels command s pe pd pn =
      bind_cases P (validate_store command.store_key s) _ (λ e _. pe e)
        (λ _ _.
          option_cases P (get command.command_id s.recent_command_results) _ _
            (λ fresh.
              bind_cases P (cancel_registered cancels (get command.operation_id s.active_syncs)) _
                (λ e _. pe e) (λ effects e. pn _ effects fresh e))
            pd)

-- What the stages of `_operation_status` keep, the handler keeps.
module _ {κ} (R : StoreControllerState → Type κ) (event : OperationStatusEvent) where
  drop_sync_keeps :
      ((s : StoreControllerState)
        → R s
        → R (record s { active_syncs = remove event.operation_id s.active_syncs }))
      → (s : StoreControllerState) → R s
      → R (drop_sync event s).0
  drop_sync_keeps f s r =
      if_cases (λ (x : StoreControllerState × List Effect). R x.0)
        (has event.operation_id s.active_syncs) _ _ (λ _. f s r) (λ _. r)

  drop_remediation_keeps :
      ((s : StoreControllerState)
        → R s
        → R (record s { active_remediations = remove event.operation_id s.active_remediations }))
      → (s : StoreControllerState) → R s
      → R (drop_remediation event s).0
  drop_remediation_keeps f s r =
      if_cases (λ (x : StoreControllerState × List Effect). R x.0)
        (has event.operation_id s.active_remediations) _ _ (λ _. f s r) (λ _. r)

  clear_keeps :
      ((s : StoreControllerState) → R s → R (record s { quota_workflow_ids = [] }))
      → (s : StoreControllerState) → R s
      → R (clear_quota_workflows s)
  unfolding clear_quota_workflows
  clear_keeps f s r =
      if_cases R (is_quiet s && not (is_some s.active_deactivation_id)) _ _ (λ _. f s r) (λ _. r)

  pub operation_status_keeps :
      ((s : StoreControllerState)
        → R s
        → R (record s { active_syncs = remove event.operation_id s.active_syncs }))
      → ((s : StoreControllerState)
          → R s
          → R (record s { active_remediations = remove event.operation_id s.active_remediations }))
      → ((s : StoreControllerState) → R s → R (settle_status event s))
      → ((s : StoreControllerState) → R s → R (record s { quota_workflow_ids = [] }))
      → (s : StoreControllerState) → R s
      → R (operation_status event s).0
  unfolding operation_status
  operation_status_keeps unsync unremediate settle clear s r =
      let synced =
        if_cases (λ (x : StoreControllerState × List Effect). R x.0) (is_terminal event.status) _ _
          (λ _. drop_sync_keeps unsync s r) (λ _. r) in
      clear_keeps clear _ (
        settle _ (
          if_cases (λ (x : StoreControllerState × List Effect). R x.0) (is_terminal event.status) _
            _ (λ _. drop_remediation_keeps unremediate _ synced) (λ _. synced)))
