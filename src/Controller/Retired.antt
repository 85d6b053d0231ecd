-- ===== src/Controller/Retired.antt =====
-- The controller of an inactive store.
use golden_retriever.Prelude.{
  if◌then◌else◌, String, ◌≡◌, refl, Bool, true, false, ◌||◌, none, List, [], ◌∷◌, ◌++◌, arith,
  option_cases, if_cases,
}
use golden_retriever.Dict.{has, remove}
use golden_retriever.Ids.{Builtins}
use golden_retriever.Models.Lifecycle.{
  StoreControllerState, inactive, OperationStatusEvent, RemediationStatusEvent,
}
use golden_retriever.Controller.State.{
  Effect, start_root_sync, start_deactivate_store, cancel_workflow, signal_operation_drained,
  remember,
}
use golden_retriever.Controller.SyncInput.{Texts}
use golden_retriever.Controller.Events.{
  status_of, forward_drained, is_terminal, drop_sync, drop_remediation, operation_status,
  settle_status, remediation_started, remediation_finished, deactivation_fenced,
}
use golden_retriever.Controller.Process.{
  Envelope, requests_sync, cancels_sync, starts_deactivation, reports_status, starts_remediation,
  finishes_remediation, reports_fence, continues_as_new, Moment, process, run, finished,
}
use golden_retriever.Controller.Rules.{
  operation_status_keeps, request_sync_cases, cancel_sync_cases, start_deactivation_cases,
}

abbrev pub is_start : Effect → Bool
is_start (start_root_sync id input) = true
is_start (start_deactivate_store id input) = true
is_start (cancel_workflow id) = false
is_start (signal_operation_drained id event) = false

abbrev pub any_start : List Effect → Bool
any_start [] = false
any_start (e ∷ es) = is_start e || any_start es

any_start-append : (a b : List Effect) → any_start (a ++ b) ≡ (any_start a || any_start b)
any_start-append [] b = refl
any_start-append (e ∷ a) b = ground (arith, any_start-append a b)

abbrev Quiet : StoreControllerState × List Effect → Type 0
Quiet x = any_start x.1 ≡ false

-- INACTIVE, and no deactivation is going on.
abbrev pub Retired : StoreControllerState → Type 0
Retired s = (s.lifecycle_state ≡ inactive) × (s.active_deactivation_id ≡ none)

-- What a step leaves, of a store that is retired.
abbrev pub Rests : StoreControllerState → StoreControllerState × List Effect → Type 0
Rests s (s', effects) =
    Retired s' × (s'.lifecycle_generation ≡ s.lifecycle_generation) × (any_start effects ≡ false)

settle_status-Retired :
    (e : OperationStatusEvent) (s : StoreControllerState) → Retired s → settle_status e s ≡ s
unfolding settle_status
settle_status-Retired e s q = ground (arith, q.0, q.1)

-- What a status event sends on is no start.
drained :
    (e : OperationStatusEvent) (s : StoreControllerState) → any_start (forward_drained e s) ≡ false
drained e s =
    option_cases (λ es. any_start es ≡ false) s.active_deactivation_id _ _ (λ _. refl) (λ _ _. refl)

drop_sync-Quiet : (e : OperationStatusEvent) (s : StoreControllerState) → Quiet (drop_sync e s)
drop_sync-Quiet e s =
    if_cases Quiet (has e.operation_id s.active_syncs)
      (record s { active_syncs = remove e.operation_id s.active_syncs }, forward_drained e s)
      (s, []) (λ _. drained e s) (λ _. refl)

drop_remediation-Quiet :
    (e : OperationStatusEvent) (s : StoreControllerState) → Quiet (drop_remediation e s)
drop_remediation-Quiet e s =
    if_cases Quiet (has e.operation_id s.active_remediations)
      (
        record s { active_remediations = remove e.operation_id s.active_remediations },
        forward_drained e s,
      )
      (s, []) (λ _. drained e s) (λ _. refl)

Quiet-append :
    (x y : StoreControllerState × List Effect) → Quiet x → Quiet y → any_start (x.1 ++ y.1) ≡ false
Quiet-append x y p q = ground (arith, p, q, any_start-append x.1 y.1)

operation_status_starts_none :
    (e : OperationStatusEvent) (s : StoreControllerState)
    → any_start (operation_status e s).1 ≡ false
unfolding operation_status
operation_status_starts_none e s =
    let synced = if is_terminal e.status then drop_sync e s else (s, []) in
    let remediated = if is_terminal e.status then drop_remediation e synced.0 else (synced.0, []) in
    Quiet-append synced remediated
      (if_cases Quiet (is_terminal e.status) (drop_sync e s) (s, []) (λ _. drop_sync-Quiet e s)
        (λ _. refl))
      (if_cases Quiet (is_terminal e.status) (drop_remediation e synced.0) (synced.0, [])
        (λ _. drop_remediation-Quiet e synced.0) (λ _. refl))

operation_status-Rests :
    (e : OperationStatusEvent) (s : StoreControllerState)
    → Retired s
    → Rests s (operation_status e s)
operation_status-Rests e s q =
    let kept =
      operation_status_keeps (λ x. Retired x × (x.lifecycle_generation ≡ s.lifecycle_generation)) e
        (λ x h. h) (λ x h. h) (λ x h. rw (settle_status-Retired e x h.0) h) (λ x h. h) s
        (q, refl) in
    (kept.0, kept.1, operation_status_starts_none e s)

remediation_finished-Rests :
    (e : RemediationStatusEvent) (s : StoreControllerState)
    → Retired s
    → Rests s (remediation_finished e s)
unfolding remediation_finished
remediation_finished-Rests e s q =
    if_cases (Rests s) (is_terminal e.status) (operation_status (status_of e) s) (s, [])
      (λ _. operation_status-Rests (status_of e) s q) (λ _. (q, refl, refl))

module _ (py : Builtins) (texts : Texts) (own_id : String) where
  process-Rests :
      (m : Moment) (e : Envelope) (s : StoreControllerState)
      → Retired s
      → Rests s (process py texts own_id m e s)
  unfolding process remember
  process-Rests m (requests_sync c) s q =
      request_sync_cases py texts (λ h. Rests s (finished s h)) m.starts own_id m.now c s
        (λ e. (q, refl, refl)) (λ result e. (q, refl, refl))
        (λ id input fresh ready parsed. ground (arith, q.0, ready.open_store))
  process-Rests m (cancels_sync c) s q =
      cancel_sync_cases (λ h. Rests s (finished s h)) m.cancels c s (λ e. (q, refl, refl))
        (λ result e. (q, refl, refl)) (λ a effects fresh e. (q, refl, ground arith))
  process-Rests m (starts_deactivation c) s q =
      start_deactivation_cases py (λ h. Rests s (finished s h)) m.starts own_id c s
        (λ e. (q, refl, refl)) (λ result e. (q, refl, refl)) (λ id status g fresh. (q, refl, refl))
        (λ id g fresh idle current not_done. ground (arith, q.0))
  process-Rests m (reports_status e) s q = operation_status-Rests e s q
  process-Rests m (starts_remediation e) s q =
      unfold remediation_started in ((ground arith, ground arith), ground arith, ground arith)
  process-Rests m (finishes_remediation e) s q = remediation_finished-Rests e s q
  process-Rests m (reports_fence e) s q =
      unfold deactivation_fenced in ((ground arith, ground arith), ground arith, refl)
  process-Rests m continues_as_new s q = (q, refl, refl)

  -- Once a store is INACTIVE with no deactivation going on, the commands and events that the
  -- controller processes leave it so, in the same generation, and start no workflow for it.
  pub run-Rests :
      (es : List (Moment × Envelope)) (s : StoreControllerState)
      → Retired s
      → Rests s (run py texts own_id es s)
  unfolding run
  run-Rests [] s q = (q, refl, refl)
  run-Rests ((m, e) ∷ es) s q =
      let first = process-Rests m e s q in
      let rest = run-Rests es (process py texts own_id m e s).0 first.0 in
      (
        rest.0,
        ground (arith, first.1, rest.1),
        Quiet-append (process py texts own_id m e s)
            (run py texts own_id es (process py texts own_id m e s).0) first.2 rest.2,
      )
