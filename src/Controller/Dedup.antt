-- ===== src/Controller/Dedup.antt =====
-- Commands that are delivered again.
use golden_retriever.Prelude.{
  ℕ, max, String, ◌≡◌, refl, subst, Bool, true, none, some, List, [], arith,
}
use golden_retriever.Prelude.Int.{pos_part}
use golden_retriever.Prelude.Result.{ok, err, >>-ok}
use golden_retriever.Dict.{get}
use golden_retriever.Ids.{Builtins}
use golden_retriever.Models.Operations.{
  SyncCommand, StartDeactivationCommand, OperationAccepted, CommandResult,
}
use golden_retriever.Models.Lifecycle.{StoreControllerState}
use golden_retriever.Controller.State.{
  Effect, Handled, remember, duplicate_operation, validate_store,
}
use golden_retriever.Controller.SyncInput.{Texts}
use golden_retriever.Controller.Sync.{request_sync}
use golden_retriever.Controller.Deactivation.{start_deactivation}
use golden_retriever.Controller.Rules.{request_sync_cases, start_deactivation_cases}
use golden_retriever.Controller.Remembered.{get-remember_in}

abbrev window : StoreControllerState → ℕ
window s = max 1 (pos_part s.command_dedup_window_size)

-- The result of a command is there after it was remembered as a new one.
pub get-remember :
    (result : CommandResult) (s : StoreControllerState)
    → get result.command_id s.recent_command_results ≡ none
    → get result.command_id (remember result s).recent_command_results ≡ some result
unfolding remember
get-remember result s h = get-remember_in (window s) result s.recent_command_results (omega arith) h

remember-store_key :
    (result : CommandResult) (s : StoreControllerState)
    → (remember result s).store_key ≡ s.store_key
unfolding remember
remember-store_key result s = refl

-- A handler that returned has the command's result remembered, and its answer is the one that
-- a repetition gets, but for `duplicate`. The store is the same.
abbrev Remembers : String → String → Handled OperationAccepted → Type 0
Remembers store id (err e) = Unit {0}
Remembers store id (ok (a, s, effects)) =
    (result : CommandResult) × (get id s.recent_command_results ≡ some result)
    × (duplicate_operation result ≡ record a { duplicate = true })
    × (s.store_key ≡ store)

request_sync-Remembers :
    (py : Builtins) (texts : Texts) (starts : Bool) (own_id : String) (now : ℕ)
    (command : SyncCommand) (s : StoreControllerState)
    → Remembers s.store_key command.command_id (request_sync py texts starts own_id now command s)
unfolding duplicate_operation
request_sync-Remembers py texts starts own_id now command s =
    request_sync_cases py texts (Remembers s.store_key command.command_id) starts own_id now command
      s (λ e. tt) (λ result e. (result, e, refl, refl))
      (λ id input fresh ready parsed.
        (_, get-remember _ _ fresh, ground arith, remember-store_key _ _))

start_deactivation-Remembers :
    (py : Builtins) (starts : Bool) (own_id : String) (command : StartDeactivationCommand)
    (s : StoreControllerState)
    → Remembers s.store_key command.command_id (start_deactivation py starts own_id command s)
unfolding duplicate_operation
start_deactivation-Remembers py starts own_id command s =
    start_deactivation_cases py (Remembers s.store_key command.command_id) starts own_id command s
      (λ e. tt) (λ result e. (result, e, refl, refl))
      (λ id status g fresh. (_, get-remember _ _ fresh, refl, remember-store_key _ _))
      (λ id g fresh idle current not_done.
        (_, get-remember _ _ fresh, ground arith, remember-store_key _ _))

-- A command whose `request_sync` returned, when it is repeated on the state that this left, is
-- answered with the same operation, marked as a duplicate, whatever the Temporal server would
-- answer then; the repetition changes nothing and asks nothing of the server.
pub request_sync_again :
    (py : Builtins) (texts : Texts) (starts starts' : Bool) (own_id : String) (now now' : ℕ)
    (command : SyncCommand) (s s' : StoreControllerState) (a : OperationAccepted)
    (effects : List Effect)
    → request_sync py texts starts own_id now command s ≡ ok (a, s', effects)
    → request_sync py texts starts' own_id now' command s'
      ≡ ok (record a { duplicate = true }, s', [])
unfolding request_sync validate_store
request_sync_again py texts starts starts' own_id now now' command s s' a effects e =
    let kept =
      subst (Remembers s.store_key command.command_id) e
        (request_sync-Remembers py texts starts own_id now command s) in
    ground (arith, kept.1, kept.2, kept.3, >>-ok (validate_store command.store_key s) _ e)

-- A command whose `start_deactivation` returned, whether it began a deactivation or joined one,
-- when it is repeated on the state that this left, is answered with the same operation, marked
-- as a duplicate; the repetition changes nothing and asks nothing of the server.
pub start_deactivation_again :
    (py : Builtins) (starts starts' : Bool) (own_id : String) (command : StartDeactivationCommand)
    (s s' : StoreControllerState) (a : OperationAccepted) (effects : List Effect)
    → start_deactivation py starts own_id command s ≡ ok (a, s', effects)
    → start_deactivation py starts' own_id command s' ≡ ok (record a { duplicate = true }, s', [])
unfolding start_deactivation validate_store
start_deactivation_again py starts starts' own_id command s s' a effects e =
    let kept =
      subst (Remembers s.store_key command.command_id) e
        (start_deactivation-Remembers py starts own_id command s) in
    ground (arith, kept.1, kept.2, kept.3, >>-ok (validate_store command.store_key s) _ e)
