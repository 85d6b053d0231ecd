-- ===== src/Controller/Tests.antt =====
-- A controller of one store: a sync that is requested twice, a deactivation, and its end.
use golden_retriever.Prelude.{
  leb, String, ◌≡◌, refl, true, false, none, some, List, [], ◌∷◌, arith, str_dec, elem, sorted,
  if◌then◌else◌, ◌==◌, length,
}
use golden_retriever.Prelude.Int.{pos, ◌+ℤ◌, ◌≤ℤ◌, ℤ_dec}
use golden_retriever.Prelude.Result.{ok}
use native.Mathlib.Decide.{ℕ_discrete}
use golden_retriever.Dict
use golden_retriever.Dict.{Dict, get, put, has, size, remove}
use golden_retriever.Ids.{
  Builtins, key_text, opaque_store_key, store_sync_workflow_id, store_deactivation_workflow_id,
}
use golden_retriever.Models.Operations.{
  SyncCommand, StartDeactivationCommand, OperationAccepted, WorkClass, OperationType,
  OperationStatus, ResultStatus,
}
use golden_retriever.Models.Lifecycle.{StoreControllerState, OperationStatusEvent, active, inactive}
use golden_retriever.Controller.State.{
  Effect, remember, remember_in, forget, duplicate_operation, validate_store,
}
use golden_retriever.Controller.SyncInput.{Texts, sync_input, quota_scope, positive_int, stripped}
use golden_retriever.Controller.Sync.{request_sync, start_sync, check_syncable, accepted_sync}
use golden_retriever.Controller.Deactivation.{start_deactivation, deactivate_idle, begin_child}
use golden_retriever.Controller.Events.{
  operation_status, settle_status, end_deactivation, clear_quota_workflows,
}
use golden_retriever.Controller.Process.{
  Envelope, requests_sync, starts_deactivation, reports_status, Moment, process, run,
}
use golden_retriever.Controller.Dedup.{request_sync_again, start_deactivation_again}
use golden_retriever.Controller.Generation.{run-rises}
use golden_retriever.Controller.Window.{Windowed, run-Windowed}
use golden_retriever.Controller.Retired.{Rests, run-Rests}
use golden_retriever.Controller.Exclusive.{Single, run-Single, Guarded, request_sync-Guarded}

program : Unit {0}
unfolding request_sync start_sync check_syncable sync_input quota_scope positive_int stripped
    start_deactivation deactivate_idle begin_child operation_status settle_status end_deactivation
    clear_quota_workflows process run remember remember_in forget duplicate_operation validate_store
    str_dec ℤ_dec ◌+ℤ◌ ℕ_discrete elem sorted get put has remove Dict.size Dict.insert Dict.lookup
    Dict.erase Dict.empty key_text opaque_store_key store_sync_workflow_id
    store_deactivation_workflow_id
program = tt

abbrev py : Builtins
py = record {
  digest = λ namespace parts. "abcdefghijklmnopqrstuvwxyz234567";
  decimal = λ n. if leb n 0 then "0" else "1";
}

abbrev texts : Texts
texts = record {
  int = λ s. if s == "20" then some (pos 20) else if s == "-1" then none else some (pos 5);
  float_in_range = λ s. some (s == "1");
  split = λ s. s ∷ [];
  strip = λ s. s;
  lower = λ s. s;
}

abbrev idle : StoreControllerState
idle = record {
  store_key = "store";
  lifecycle_state = active;
  lifecycle_generation = pos 0;
  active_syncs = Dict.empty;
  active_remediations = Dict.empty;
  active_deactivation_id = none;
  quota_workflow_ids = [];
  recent_command_results = Dict.empty;
  continue_as_new_requested = false;
  command_dedup_window_size = pos 2000;
  enable_search_attributes = false;
  active_deactivation_fenced = false;
  authority_initialized = true;
}

abbrev retired : StoreControllerState
retired = record idle { lifecycle_state = inactive; lifecycle_generation = pos 1 }

abbrev moment : Moment
moment = record { now = 7; starts = true; cancels = true }

abbrev command : SyncCommand
command = record {
  command_id = "c1";
  store_key = "store";
  expected_generation = pos 0;
  sync_sequence = "s1";
  work_class = WorkClass.incremental;
  requested_at = none;
  metadata = Dict.empty;
}

abbrev other : SyncCommand
other = record command { command_id = "c2"; sync_sequence = "s2" }

abbrev stop : StartDeactivationCommand
stop = record {
  command_id = "d1";
  store_key = "store";
  expected_generation = pos 0;
  requested_at = none;
}

abbrev sync_id : String
sync_id = "store-sync/abcdefghijklmnopqrstuvwxyz/0/abcdefghijklmnopqrstuvwxyz"

abbrev stop_id : String
stop_id = "store-deactivation/abcdefghijklmnopqrstuvwxyz/1"

abbrev ended : OperationStatusEvent
ended = record {
  operation_id = stop_id;
  workflow_id = stop_id;
  lifecycle_generation = pos 1;
  status = OperationStatus.completed;
  result_status = some ResultStatus.succeeded;
  message = none;
}

abbrev queue : List (Moment × Envelope)
queue =
    (moment, requests_sync command)
    ∷ (moment, requests_sync other)
    ∷ (moment, starts_deactivation stop)
    ∷ (moment, reports_status ended)
    ∷ []

abbrev requested : StoreControllerState × List Effect
requested = run py texts "controller" ((moment, requests_sync command) ∷ []) idle

abbrev stopped : StoreControllerState × List Effect
stopped = run py texts "controller" ((moment, starts_deactivation stop) ∷ []) idle

-- The first sync and the deactivation are started, and the store ends inactive.
queue_effects : length (run py texts "controller" queue idle).1 ≡ 2
unfolding program
queue_effects = refl

queue_ends : (run py texts "controller" queue idle).0.lifecycle_state ≡ inactive
unfolding program
queue_ends = refl

abbrev stop_accepted : OperationAccepted
stop_accepted = record {
  command_id = "d1";
  operation_id = stop_id;
  workflow_id = stop_id;
  operation_type = OperationType.deactivation;
  lifecycle_generation = pos 1;
  duplicate = false;
}

request_sync_again_example :
    request_sync py texts false "controller" 9 command requested.0
    ≡ ok (record (accepted_sync command sync_id) { duplicate = true }, requested.0, [])
unfolding program
request_sync_again_example =
    request_sync_again py texts true false "controller" 7 9 command idle requested.0
      (accepted_sync command sync_id) requested.1 refl

start_deactivation_again_example :
    start_deactivation py false "controller" stop stopped.0
    ≡ ok (record stop_accepted { duplicate = true }, stopped.0, [])
unfolding program
start_deactivation_again_example =
    start_deactivation_again py true false "controller" stop idle stopped.0 stop_accepted stopped.1
      refl

run-rises_example :
    idle.lifecycle_generation ≤ℤ (run py texts "controller" queue idle).0.lifecycle_generation
run-rises_example = run-rises py texts "controller" queue idle

run-Rests_example : Rests retired (run py texts "controller" queue retired)
run-Rests_example = run-Rests py texts "controller" queue retired (refl, refl)

run-Single_example : Single (run py texts "controller" queue idle).0
unfolding Dict.size Dict.empty
run-Single_example = run-Single py texts "controller" queue idle (omega arith)

request_sync-Guarded_example :
    Guarded command idle (request_sync py texts true "controller" 7 command idle)
request_sync-Guarded_example = request_sync-Guarded py texts true "controller" 7 command idle

run-Windowed_example : Windowed (run py texts "controller" queue idle).0
unfolding Dict.size Dict.empty
run-Windowed_example = run-Windowed py texts "controller" queue idle (tt, omega arith)
