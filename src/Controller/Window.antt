-- ===== src/Controller/Window.antt =====
-- The dedup window over the handlers of the controller.
use golden_retriever.Prelude.{ℕ, max, String, ◌≡◌, List, [], ◌∷◌, if_cases, arith}
use golden_retriever.Prelude.Int.{pos_part}
use golden_retriever.Ids.{Builtins}
use golden_retriever.Models.Operations.{CommandResult}
use golden_retriever.Models.Lifecycle.{
  StoreControllerState, OperationStatusEvent, RemediationStatusEvent,
}
use golden_retriever.Controller.State.{Effect, remember}
use golden_retriever.Controller.SyncInput.{Texts}
use golden_retriever.Controller.Events.{
  operation_status, settle_status, end_deactivation, status_of, is_terminal, remediation_started,
  remediation_finished, deactivation_fenced,
}
use golden_retriever.Controller.Process.{
  Envelope, requests_sync, cancels_sync, starts_deactivation, reports_status, starts_remediation,
  finishes_remediation, reports_fence, continues_as_new, Moment, process, run, finished,
}
use golden_retriever.Controller.Rules.{
  request_sync_cases, cancel_sync_cases, start_deactivation_cases, operation_status_keeps,
  syncing_state,
}
use golden_retriever.Controller.Remembered.{Bounded, remember_in-Bounded}

-- No command is remembered twice, and there are no more results than the window, which counts as
-- at least one.
abbrev pub Windowed : StoreControllerState → Type 0
Windowed s = Bounded (max 1 (pos_part s.command_dedup_window_size)) s.recent_command_results

remember-Windowed :
    (result : CommandResult) (s : StoreControllerState) → Windowed s → Windowed (remember result s)
unfolding remember
remember-Windowed result s q =
    remember_in-Bounded (max 1 (pos_part s.command_dedup_window_size)) result
      s.recent_command_results q.0

-- The events leave the window alone.
abbrev Same : StoreControllerState → StoreControllerState → Type 0
Same s x =
    (x.recent_command_results ≡ s.recent_command_results)
    × (x.command_dedup_window_size ≡ s.command_dedup_window_size)

settle_status-Same :
    (e : OperationStatusEvent) (s : StoreControllerState) → Same s (settle_status e s)
unfolding settle_status end_deactivation
settle_status-Same e s = (ground arith, ground arith)

operation_status-Windowed :
    (e : OperationStatusEvent) (s : StoreControllerState)
    → Windowed s
    → Windowed (operation_status e s).0
operation_status-Windowed e s q =
    operation_status_keeps Windowed e (λ x h. h) (λ x h. h)
      (λ x h. rw (settle_status-Same e x).0 (rw (settle_status-Same e x).1 h)) (λ x h. h) s q

remediation_finished-Windowed :
    (e : RemediationStatusEvent) (s : StoreControllerState)
    → Windowed s
    → Windowed (remediation_finished e s).0
unfolding remediation_finished
remediation_finished-Windowed e s q =
    if_cases (λ (x : StoreControllerState × List Effect). Windowed x.0) (is_terminal e.status)
      (operation_status (status_of e) s) (s, []) (λ _. operation_status-Windowed (status_of e) s q)
      (λ _. q)

remediation_started-Same :
    (now : ℕ) (e : RemediationStatusEvent) (s : StoreControllerState)
    → Same s (remediation_started now e s).0
unfolding remediation_started
remediation_started-Same now e s = (ground arith, ground arith)

module _ (py : Builtins) (texts : Texts) (own_id : String) where
  process-Windowed :
      (m : Moment) (e : Envelope) (s : StoreControllerState)
      → Windowed s
      → Windowed (process py texts own_id m e s).0
  unfolding process
  process-Windowed m (requests_sync c) s q =
      request_sync_cases py texts (λ h. Windowed (finished s h).0) m.starts own_id m.now c s
        (λ e. q) (λ result e. q)
        (λ id input fresh ready parsed.
          remember-Windowed _ (syncing_state py texts c id input m.now s) q)
  process-Windowed m (cancels_sync c) s q =
      cancel_sync_cases (λ h. Windowed (finished s h).0) m.cancels c s (λ e. q) (λ result e. q)
        (λ a effects fresh e. remember-Windowed _ s q)
  process-Windowed m (starts_deactivation c) s q =
      start_deactivation_cases py (λ h. Windowed (finished s h).0) m.starts own_id c s (λ e. q)
        (λ result e. q) (λ id status g fresh. remember-Windowed _ s q)
        (λ id g fresh idle current not_done. remember-Windowed _ _ q)
  process-Windowed m (reports_status e) s q = operation_status-Windowed e s q
  process-Windowed m (starts_remediation e) s q =
      rw (remediation_started-Same m.now e s).0 (rw (remediation_started-Same m.now e s).1 q)
  process-Windowed m (finishes_remediation e) s q = remediation_finished-Windowed e s q
  process-Windowed m (reports_fence e) s q =
      unfold deactivation_fenced in if_cases Windowed _ _ _ (λ _. q) (λ _. q)
  process-Windowed m continues_as_new s q = q

  -- The remembered results never outgrow the dedup window, whatever is processed, and hold no
  -- command twice, if this is so at the start.
  pub run-Windowed :
      (es : List (Moment × Envelope)) (s : StoreControllerState)
      → Windowed s
      → Windowed (run py texts own_id es s).0
  unfolding run
  run-Windowed [] s q = q
  run-Windowed ((m, e) ∷ es) s q =
      run-Windowed es (process py texts own_id m e s).0 (process-Windowed m e s q)
