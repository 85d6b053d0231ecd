-- ===== src/Controller/Exclusive.antt =====
-- When `_request_sync` starts a root sync.
use golden_retriever.Prelude.{
  ◌∙◌, ℕ, ◌≤◌, String, ◌≡◌, refl, Bool, true, List, [], ◌∷◌, arith, if_cases, length, is_nil,
}
use golden_retriever.Prelude.Result.{ok, err}
use golden_retriever.Dict.{Dict, has, put, remove, size, insert, erase}
use golden_retriever.Ids.{Builtins}
use golden_retriever.Models.Operations.{SyncCommand, OperationAccepted}
use golden_retriever.Models.Lifecycle.{
  StoreControllerState, OperationStatusEvent, RemediationStatusEvent, syncing,
}
use golden_retriever.Models.Sync.{StoreSyncInput}
use golden_retriever.Controller.State.{
  Effect, Handled, remember, start_root_sync, duplicate_operation,
}
use golden_retriever.Dict.Laws.{has-put}
use golden_retriever.Controller.SyncInput.{Texts, sync_input}
use golden_retriever.Controller.Sync.{request_sync, is_empty, registration_of}
use golden_retriever.Controller.Events.{
  operation_status, settle_status, end_deactivation, status_of, is_terminal, remediation_started,
  remediation_finished, deactivation_fenced,
}
use golden_retriever.Controller.Process.{
  Envelope, requests_sync, cancels_sync, starts_deactivation, reports_status, starts_remediation,
  finishes_remediation, reports_fence, continues_as_new, Moment, process, run, finished,
}
use golden_retriever.Controller.Rules.{
  Syncable, request_sync_cases, cancel_sync_cases, start_deactivation_cases, operation_status_keeps,
}

module _ {ℓ} {V : Type ℓ} where
  size-put_first : (k : String) (v : V) (d : Dict V) → is_empty d ≡ true → size (put k v d) ≡ 1
  unfolding size put insert
  size-put_first k v d h = go d.entries h
    where
      go : (l : List (String × V)) → is_nil l ≡ true → length (insert k v l) ≡ 1
      go [] h = refl
      go (e ∷ l) h = ground arith

  size-remove_shrinks : (k : String) (d : Dict V) → size (remove k d) ≤ size d
  unfolding size remove erase
  size-remove_shrinks k d = go d.entries
    where
      go : (l : List (String × V)) → length (erase k l) ≤ length l
      go [] = omega arith
      go ((j, v) ∷ l) = ground (arith, go l)

-- At most one sync is registered.
abbrev pub Single : StoreControllerState → Type 0
Single s = size s.active_syncs ≤ 1

settle_status-Single :
    (e : OperationStatusEvent) (s : StoreControllerState) → Single s → Single (settle_status e s)
unfolding settle_status end_deactivation
settle_status-Single e s q = ground (arith, q)

operation_status-Single :
    (e : OperationStatusEvent) (s : StoreControllerState)
    → Single s
    → Single (operation_status e s).0
operation_status-Single e s q =
    operation_status_keeps Single e
      (λ x h. omega (arith, size-remove_shrinks e.operation_id x.active_syncs, h)) (λ x h. h)
      (settle_status-Single e) (λ x h. h) s q

remediation_started-Single :
    (now : ℕ) (e : RemediationStatusEvent) (s : StoreControllerState)
    → Single s
    → Single (remediation_started now e s).0
unfolding remediation_started
remediation_started-Single now e s q = ground (arith, q)

remediation_finished-Single :
    (e : RemediationStatusEvent) (s : StoreControllerState)
    → Single s
    → Single (remediation_finished e s).0
unfolding remediation_finished
remediation_finished-Single e s q =
    if_cases (λ (x : StoreControllerState × List Effect). Single x.0) (is_terminal e.status)
      (operation_status (status_of e) s) (s, []) (λ _. operation_status-Single (status_of e) s q)
      (λ _. q)

module _ (py : Builtins) (texts : Texts) (own_id : String) where
  process-Single :
      (m : Moment) (e : Envelope) (s : StoreControllerState)
      → Single s
      → Single (process py texts own_id m e s).0
  unfolding process remember
  process-Single m (requests_sync c) s q =
      request_sync_cases py texts (λ h. Single (finished s h).0) m.starts own_id m.now c s (λ e. q)
        (λ result e. q)
        (λ id input fresh ready parsed.
          ground
            (arith, size-put_first id (registration_of c id m.now) s.active_syncs, ready.no_sync))
  process-Single m (cancels_sync c) s q =
      cancel_sync_cases (λ h. Single (finished s h).0) m.cancels c s (λ e. q) (λ result e. q)
        (λ a effects fresh e. q)
  process-Single m (starts_deactivation c) s q =
      start_deactivation_cases py (λ h. Single (finished s h).0) m.starts own_id c s (λ e. q)
        (λ result e. q) (λ id status g fresh. q) (λ id g fresh idle current not_done. q)
  process-Single m (reports_status e) s q = operation_status-Single e s q
  process-Single m (starts_remediation e) s q = remediation_started-Single m.now e s q
  process-Single m (finishes_remediation e) s q = remediation_finished-Single e s q
  process-Single m (reports_fence e) s q = unfold deactivation_fenced in ground (arith, q)
  process-Single m continues_as_new s q = q

  -- Whatever commands and events are processed, a controller that has at most one registered sync
  -- never has two.
  pub run-Single :
      (es : List (Moment × Envelope)) (s : StoreControllerState)
      → Single s
      → Single (run py texts own_id es s).0
  unfolding run
  run-Single [] s q = q
  run-Single ((m, e) ∷ es) s q =
      run-Single es (process py texts own_id m e s).0 (process-Single m e s q)

-- How a `request_sync` can end: it raises, it answers a duplicate and does nothing, or it starts
-- one sync of the current generation, in an open store where nothing runs, and registers it.
abbrev pub Guarded : SyncCommand → StoreControllerState → Handled OperationAccepted → Type 0
Guarded command s (err e) = Unit {0}
Guarded command s (ok (a, s', [])) = (a.duplicate ≡ true) × (s' ≡ s)
Guarded command s (ok (a, s', start_root_sync id input ∷ [])) =
    Syncable command s
    × (input.lifecycle_generation ≡ s.lifecycle_generation)
    × (input.store_key ≡ command.store_key)
    × (a.operation_id ≡ id)
    × (has id s'.active_syncs ≡ true)
    × (s'.lifecycle_state ≡ syncing)
Guarded command s (ok (a, s', _)) = ⊥

input_of :
    (texts : Texts) (own_id : String) (command : SyncCommand) (s : StoreControllerState)
    (input : StoreSyncInput)
    → sync_input texts own_id command s ≡ ok input
    → (input.lifecycle_generation ≡ command.expected_generation)
      × (input.store_key ≡ command.store_key)
unfolding sync_input
input_of texts own_id command s input e = (ground arith, ground arith)

-- A `request_sync` starts at most one workflow, and only for the current generation of an active
-- or syncing store that has no sync, remediation or deactivation going on; the answer and the
-- registration name that workflow. A duplicate changes nothing.
pub request_sync-Guarded :
    (py : Builtins) (texts : Texts) (starts : Bool) (own_id : String) (now : ℕ)
    (command : SyncCommand) (s : StoreControllerState)
    → Guarded command s (request_sync py texts starts own_id now command s)
unfolding duplicate_operation remember
request_sync-Guarded py texts starts own_id now command s =
    request_sync_cases py texts (Guarded command s) starts own_id now command s (λ e. tt)
      (λ result e. (refl, refl))
      (λ id input fresh ready parsed. (
        ready,
        (input_of texts own_id command s input parsed).0 ∙ ready.current,
        (input_of texts own_id command s input parsed).1,
        refl,
        ground (arith, has-put id id (registration_of command id now) s.active_syncs),
        refl,
      ))
