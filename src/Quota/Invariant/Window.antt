-- ===== src/Quota/Invariant/Window.antt =====
-- The invariant, observations and reset boundaries.
use golden_retriever.Prelude.{ℕ, String, refl, Bool, false, not, ◌&&◌, ◌||◌, if_cases}
use golden_retriever.Dict.Laws.{is_some}
use golden_retriever.Models.Quota.{QuotaObservation, UserQuotaState, same_scope}
use golden_retriever.Ids.{Digest}
use golden_retriever.Quota.Window.{
  apply_quota_observation, settle_window, advance_due_quota_window, is_due,
}
use golden_retriever.Quota.Invariant.{WellFormed, Kept, frame-Queued, count_message-WellFormed}

pub apply_quota_observation-WellFormed :
    (s : UserQuotaState) (o : QuotaObservation) (now : ℕ)
    → WellFormed s
    → WellFormed (apply_quota_observation s o now).0
unfolding apply_quota_observation
apply_quota_observation-WellFormed s o now q =
    if_cases Kept (same_scope o.quota_scope s.quota_scope) _ _
      (λ _.
        if_cases Kept o.exhausted _ _ (λ _. frame-Queued s _ q refl refl refl refl)
          (λ _. frame-Queued s _ q refl refl refl refl))
      (λ _. count_message-WellFormed s q)

module _ (digest : Digest) (isoformat : ℕ → String) where
  settle_window-WellFormed :
      (block_due reset_due : Bool) (now : ℕ) (s : UserQuotaState)
      → WellFormed s
      → WellFormed (settle_window digest isoformat block_due reset_due now s).0
  unfolding settle_window
  settle_window-WellFormed block_due reset_due now s q =
      if_cases Kept (block_due || reset_due) _ _ (λ _. frame-Queued s _ q refl refl refl refl)
        (λ _. q)

  pub advance_due_quota_window-WellFormed :
      (s : UserQuotaState) (now : ℕ)
      → WellFormed s
      → WellFormed (advance_due_quota_window digest isoformat s now).0
  unfolding advance_due_quota_window
  advance_due_quota_window-WellFormed s now q =
      if_cases Kept
        (is_due s.blocked_until now && is_some s.reset_at && not (is_due s.reset_at now)) _ _
        (λ _.
          settle_window-WellFormed false (is_due s.reset_at now) now _
            (frame-Queued s _ q refl refl refl refl))
        (λ _. settle_window-WellFormed (is_due s.blocked_until now) (is_due s.reset_at now) now s q)
