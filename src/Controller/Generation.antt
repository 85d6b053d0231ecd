-- ===== src/Controller/Generation.antt =====
-- `lifecycle_generation` of the controller, over its handlers.
use golden_retriever.Prelude.{String, List, [], ◌∷◌, arith, if_cases}
use golden_retriever.Prelude.Int.{◌≤ℤ◌}
use golden_retriever.Ids.{Builtins}
use golden_retriever.Models.Lifecycle.{
  StoreControllerState, OperationStatusEvent, RemediationStatusEvent,
}
use golden_retriever.Controller.State.{Effect, remember}
use golden_retriever.Controller.SyncInput.{Texts}
use golden_retriever.Controller.Events.{
  status_of, operation_status, settle_status, end_deactivation, is_terminal, remediation_started,
  remediation_finished, deactivation_fenced,
}
use golden_retriever.Controller.Process.{
  Envelope, requests_sync, cancels_sync, starts_deactivation, reports_status, starts_remediation,
  finishes_remediation, reports_fence, continues_as_new, Moment, process, run, finished,
}
use golden_retriever.Controller.Rules.{
  operation_status_keeps, request_sync_cases, cancel_sync_cases, start_deactivation_cases,
}

settle_status-grows :
    (e : OperationStatusEvent) (s : StoreControllerState)
    → s.lifecycle_generation ≤ℤ (settle_status e s).lifecycle_generation
unfolding settle_status end_deactivation
settle_status-grows e s = ground arith

operation_status-grows :
    (e : OperationStatusEvent) (s : StoreControllerState)
    → s.lifecycle_generation ≤ℤ (operation_status e s).0.lifecycle_generation
operation_status-grows e s =
    operation_status_keeps (λ x. s.lifecycle_generation ≤ℤ x.lifecycle_generation) e (λ x h. h)
      (λ x h. h) (λ x h. omega (arith, settle_status-grows e x, h)) (λ x h. h) s (omega arith)

remediation_finished-grows :
    (e : RemediationStatusEvent) (s : StoreControllerState)
    → s.lifecycle_generation ≤ℤ (remediation_finished e s).0.lifecycle_generation
unfolding remediation_finished
remediation_finished-grows e s =
    if_cases
      (λ (x : StoreControllerState × List Effect).
        s.lifecycle_generation ≤ℤ x.0.lifecycle_generation)
      (is_terminal e.status) (operation_status (status_of e) s) (s, [])
      (λ _. operation_status-grows (status_of e) s) (λ _. omega arith)

module _ (py : Builtins) (texts : Texts) (own_id : String) where
  process-grows :
      (m : Moment) (e : Envelope) (s : StoreControllerState)
      → s.lifecycle_generation ≤ℤ (process py texts own_id m e s).0.lifecycle_generation
  unfolding process remember
  process-grows m (requests_sync c) s =
      request_sync_cases py texts
        (λ h. s.lifecycle_generation ≤ℤ (finished s h).0.lifecycle_generation) m.starts own_id m.now
        c s (λ e. omega arith) (λ result e. omega arith)
        (λ id input fresh ready parsed. omega arith)
  process-grows m (cancels_sync c) s =
      cancel_sync_cases (λ h. s.lifecycle_generation ≤ℤ (finished s h).0.lifecycle_generation)
        m.cancels c s (λ e. omega arith) (λ result e. omega arith)
        (λ a effects fresh e. omega arith)
  process-grows m (starts_deactivation c) s =
      start_deactivation_cases py
        (λ h. s.lifecycle_generation ≤ℤ (finished s h).0.lifecycle_generation) m.starts own_id c s
        (λ e. omega arith) (λ result e. omega arith) (λ id status g fresh. omega arith)
        (λ id g fresh idle current not_done. omega arith)
  process-grows m (reports_status e) s = operation_status-grows e s
  process-grows m (starts_remediation e) s = unfold remediation_started in ground arith
  process-grows m (finishes_remediation e) s = remediation_finished-grows e s
  process-grows m (reports_fence e) s = unfold deactivation_fenced in ground arith
  process-grows m continues_as_new s = omega arith

  -- Whatever commands and events are processed, and whatever the Temporal server answers, the
  -- generation that the controller knows does not fall.
  pub run-rises :
      (es : List (Moment × Envelope)) (s : StoreControllerState)
      → s.lifecycle_generation ≤ℤ (run py texts own_id es s).0.lifecycle_generation
  unfolding run
  run-rises [] s = omega arith
  run-rises ((m, e) ∷ es) s =
      ground (arith, process-grows m e s, run-rises es (process py texts own_id m e s).0)
