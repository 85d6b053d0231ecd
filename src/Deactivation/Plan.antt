-- ===== src/Deactivation/Plan.antt =====
-- The fence guard of a deactivation under any attempts, in order or not.
use golden_retriever.Prelude.{
  String, ℕ, zero, suc, ◌≡◌, refl, sym, ap, ◌∙◌, true, some, List, [], ◌∷◌, ◌++◌, take, length,
  arith, option_cases, if_cases, length-append,
}
use golden_retriever.Prelude.Result.{Result, ok, err}
use golden_retriever.Deactivation.Guard.{
  DeactivationAction, deactivation_plan, same_action, nth, advance, ensure_fenced, fence_committed,
}

-- What is completed after an attempt: a refused one changes nothing.
abbrev pub after_attempt :
    List DeactivationAction → Result String (List DeactivationAction) → List DeactivationAction
after_attempt completed (err message) = completed
after_attempt completed (ok completed') = completed'

unfoldable pub attempts :
    List DeactivationAction → List DeactivationAction → List DeactivationAction
attempts [] completed = completed
attempts (a ∷ as') completed = attempts as' (after_attempt completed (advance a completed))

-- A prefix of the plan.
abbrev pub IsPrefix : List DeactivationAction → Type 0
IsPrefix completed = completed ≡ take (length completed) deactivation_plan

same_action-eq : (a b : DeactivationAction) → same_action a b ≡ true → a ≡ b
same_action-eq a b e = ground arith

take-nth :
    (n : ℕ) (plan : List DeactivationAction) {a : DeactivationAction}
    → nth n plan ≡ some a
    → take (suc n) plan ≡ take n plan ++ a ∷ []
take-nth n [] e = ground (arith, e)
take-nth zero (b ∷ plan) e = ground (arith, e)
take-nth (suc n) (b ∷ plan) e = ap (◌∷◌ b) (take-nth n plan e)

longer :
    (completed : List DeactivationAction) (a : DeactivationAction)
    → suc (length completed) ≡ length (completed ++ a ∷ [])
longer completed a = omega (arith, length-append completed (a ∷ []))

advance-IsPrefix :
    (a : DeactivationAction) (completed : List DeactivationAction)
    → IsPrefix completed
    → IsPrefix (after_attempt completed (advance a completed))
unfolding advance
advance-IsPrefix a completed p =
    option_cases (λ x. IsPrefix (after_attempt completed x))
      (nth (length completed) deactivation_plan) _ _ (λ _. p)
      (λ expected next.
        if_cases (λ x. IsPrefix (after_attempt completed x)) (same_action a expected) _ _
          (λ same.
            ap (λ l. l ++ a ∷ []) p
            ∙ sym (
                take-nth (length completed) deactivation_plan
                  (next ∙ ap some (sym (same_action-eq a expected same))))
            ∙ ap (λ n. take n deactivation_plan) (longer completed a))
          (λ _. p))

attempts-IsPrefix :
    (as' completed : List DeactivationAction)
    → IsPrefix completed
    → IsPrefix (attempts as' completed)
unfolding attempts
attempts-IsPrefix [] completed p = p
attempts-IsPrefix (a ∷ as') completed p =
    attempts-IsPrefix as' (after_attempt completed (advance a completed))
      (advance-IsPrefix a completed p)

ensure_fenced-prefix :
    (n : ℕ)
    → ensure_fenced (take n deactivation_plan) ≡ ok tt
    → nth 0 (take n deactivation_plan) ≡ some fence_committed
unfolding ensure_fenced
ensure_fenced-prefix zero e = ground (arith, e)
ensure_fenced-prefix (suc n) e = refl

-- Whatever actions are attempted, in whatever order, those that are let through are the first of
-- the plan, in its order; and where old work may be canceled, the fence is the first of them.
pub plan_is_kept :
    (as' : List DeactivationAction)
    → (attempts as' [] ≡ take (length (attempts as' [])) deactivation_plan)
      × (ensure_fenced (attempts as' []) ≡ ok tt → nth 0 (attempts as' []) ≡ some fence_committed)
plan_is_kept as' =
    let p = attempts-IsPrefix as' [] refl in
    (
      p,
      λ e.
          ap (nth 0) p
          ∙ ensure_fenced-prefix (length (attempts as' [])) (ap ensure_fenced (sym p) ∙ e),
    )
