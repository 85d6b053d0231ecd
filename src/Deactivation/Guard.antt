-- ===== src/Deactivation/Guard.antt =====
-- `DeactivationAction`, `_DEACTIVATION_PLAN` and `DeactivationOrderGuard`.
use Prim.Native.String.{◌++◌ as append}
use golden_retriever.Prelude.{
  ℕ, zero, suc, String, Bool, true, false, Option, none, some, List, [], ◌∷◌, ◌++◌, length,
  if◌then◌else◌,
}
use golden_retriever.Prelude.Result.{Result, ok, err}

pub data DeactivationAction : Type 0 where
  fence_committed controller_fenced owned_work_cancel_requested old_quota_invalidated
        drain_wait_finished users_cleaned objects_removed inactive_committed controller_terminal :
      DeactivationAction

abbrev pub action_value : DeactivationAction → String
action_value fence_committed = "fence_committed"
action_value controller_fenced = "controller_fenced"
action_value owned_work_cancel_requested = "owned_work_cancel_requested"
action_value old_quota_invalidated = "old_quota_invalidated"
action_value drain_wait_finished = "drain_wait_finished"
action_value users_cleaned = "users_cleaned"
action_value objects_removed = "objects_removed"
action_value inactive_committed = "inactive_committed"
action_value controller_terminal = "controller_terminal"

abbrev pub deactivation_plan : List DeactivationAction
deactivation_plan =
    fence_committed ∷ controller_fenced ∷ owned_work_cancel_requested ∷ old_quota_invalidated
    ∷ drain_wait_finished ∷ users_cleaned ∷ objects_removed ∷ inactive_committed
    ∷ controller_terminal ∷ []

-- `action is expected`
abbrev pub same_action : DeactivationAction → DeactivationAction → Bool
same_action fence_committed fence_committed = true
same_action controller_fenced controller_fenced = true
same_action owned_work_cancel_requested owned_work_cancel_requested = true
same_action old_quota_invalidated old_quota_invalidated = true
same_action drain_wait_finished drain_wait_finished = true
same_action users_cleaned users_cleaned = true
same_action objects_removed objects_removed = true
same_action inactive_committed inactive_committed = true
same_action controller_terminal controller_terminal = true
same_action _ _ = false

-- `plan[index]`; `none` is an index at or past the end.
abbrev pub nth : ℕ → List DeactivationAction → Option DeactivationAction
nth n [] = none
nth zero (a ∷ as') = some a
nth (suc n) (a ∷ as') = nth n as'

-- `fenced`
abbrev pub is_fenced : List DeactivationAction → Bool
is_fenced [] = false
is_fenced (a ∷ completed) = same_action a fence_committed

-- The actions that are completed after `advance`, or the text of the error.
unfoldable pub advance :
    DeactivationAction → List DeactivationAction → Result String (List DeactivationAction)
advance action completed = elim (nth (length completed) deactivation_plan) [
  | none ↦ err "deactivation sequence is already terminal"
  | some expected ↦
      if same_action action expected
      then ok (completed ++ action ∷ [])
      else err (
          append "deactivation action '" (
            append (action_value action)
              (append "' cannot run before '" (append (action_value expected) "'"))))
]

unfoldable pub ensure_fenced : List DeactivationAction → Result String (Unit {0})
ensure_fenced completed =
    if is_fenced completed
    then ok tt
    else err "old work cannot be canceled before the fence commits"
