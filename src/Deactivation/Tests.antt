-- ===== src/Deactivation/Tests.antt =====
-- A deactivation of one store with a user and a document, while old work still writes to it.
use golden_retriever.Prelude.{
  String, ◌≡◌, ◌≢◌, refl, Bool, true, false, some, List, [], ◌∷◌, ◌==◌, leb, take, length, arith,
  str_dec, elem, if◌then◌else◌,
}
use native.Mathlib.Decide.{ℕ_discrete}
use golden_retriever.Prelude.Int.{pos, ◌+ℤ◌, ℤ_dec}
use golden_retriever.Prelude.Result.{ok}
use golden_retriever.Dict
use golden_retriever.Dict.{get, put}
use golden_retriever.Ids.{Builtins}
use golden_retriever.Models.Documents.{DocumentRef}
use golden_retriever.Models.Lifecycle.{DeactivationInput, active}
use golden_retriever.Repository.{
  StoreRecord, begin_deactivation, require, require_generation, activate_user_if_current,
  require_writable,
}
use golden_retriever.Repository.Calls.{activate_user, upsert_document, perform, run as run_calls}
use golden_retriever.Activities.Lifecycle.{begin_store_deactivation}
use golden_retriever.Task.{Post}
use golden_retriever.Deactivation.Guard.{
  DeactivationAction, deactivation_plan, advance, ensure_fenced, nth, fence_committed,
  controller_fenced, users_cleaned,
}
use golden_retriever.Deactivation.Plan.{attempts, plan_is_kept}
use golden_retriever.Deactivation.Server.{delivered, failed, cut_off}
use golden_retriever.Deactivation.Workflow.{run, started}
use golden_retriever.Deactivation.Laws.{Anything, Never, Broken}
use golden_retriever.Deactivation.Outcome.{Ends, fence_of}
use golden_retriever.Deactivation.Store.{Network, Store, store_server}
use golden_retriever.Deactivation.Refinement.{
  Completed, Ended, FencedDeactivating, run_erases, run_completes,
}
use golden_retriever.Deactivation.Endings.{run_settles}

abbrev py : Builtins
py = record {
  digest = λ namespace parts. "abcdefghijklmnopqrstuvwxyz234567";
  decimal = λ n. if leb n 0 then "0" else "1";
}

-- The controller acknowledges, one of the owned workflows cannot be canceled, and one is drained.
abbrev net : Network
net = record {
  acknowledges = λ id. true;
  replies = λ id. if id == "sync-1" then failed else delivered;
  drains = λ ids. [];
  texts = record { of_error = λ e. "error"; of_message = λ m. "message" };
  builtins = py;
  text_of_raised = λ e. "raised";
  text_of_canceled = "canceled";
}

abbrev page : DocumentRef
page = record {
  document_key = "d";
  source_version = "1";
  staging_uri = "s3://d";
  content_hash = "h";
}

abbrev store : StoreRecord
store = record {
  store_key = "store";
  lifecycle_state = active;
  lifecycle_generation = pos 4;
  last_lifecycle_transition = 1;
  active_users = "ann" ∷ [];
  retrieval_state = Dict.empty;
  documents = put "d" page Dict.empty;
}

-- Old work writes before the fence, and after it.
abbrev world : Store
world = record {
  repository = record { entries = ("store", store) ∷ [] };
  batches =
      ((10, activate_user "bob") ∷ [])
      ∷ ((11, upsert_document page) ∷ [])
      ∷ ((12, activate_user "cy") ∷ (12, upsert_document page) ∷ [])
      ∷ [];
  clock = 20;
}

abbrev command : DeactivationInput
command = record {
  store_key = "store";
  expected_generation = pos 4;
  command_id = "c1";
  operation_id = "o1";
  controller_workflow_id = some "controller";
  sync_workflow_ids = "sync-1" ∷ "sync-2" ∷ "sync-1" ∷ [];
  remediation_workflow_ids = [];
  quota_workflow_ids = "quota" ∷ [];
  enable_search_attributes = false;
  resume_same_generation = false;
}

uncut : (id : String) → net.replies id ≢ cut_off
uncut id e = by_test (id == "sync-1") e
  where
    by_test : (b : Bool) → (if b then failed else delivered) ≡ cut_off → ⊥
    by_test true e = ground (arith, e)
    by_test false e = ground (arith, e)

fenced : FencedDeactivating command (fence_of (store_server net "store" (pos 4)) command world)
unfolding begin_store_deactivation begin_deactivation require require_generation require_writable
    get Dict.lookup str_dec ℤ_dec ◌+ℤ◌ put Dict.insert ℕ_discrete run_calls perform
    activate_user_if_current elem
fenced = (_, refl, refl, refl)

run_erases_example :
    Post
      (Ended command)
      Never
      (Broken (Unit {0}))
      (run py (store_server net "store" (pos 4)) "deactivation" command (started world))
run_erases_example = run_erases py net "deactivation" command world

run_completes_example :
    Post
      (Completed command)
      Never
      Never
      (run py (store_server net "store" (pos 4)) "deactivation" command (started world))
run_completes_example = run_completes py net "deactivation" command world fenced uncut

run_settles_example :
    Post
      (Ends (Unit {0}) (store_server net "store" (pos 4)) command Anything world)
      Never
      (Broken (Unit {0}))
      (run py (store_server net "store" (pos 4)) "deactivation" command (started world))
run_settles_example = run_settles py (store_server net "store" (pos 4)) "deactivation" command world

abbrev tries : List DeactivationAction
tries = users_cleaned ∷ fence_committed ∷ fence_committed ∷ controller_fenced ∷ users_cleaned ∷ []

plan_is_kept_example :
    (attempts tries [] ≡ take (length (attempts tries [])) deactivation_plan)
    × (ensure_fenced (attempts tries []) ≡ ok tt → nth 0 (attempts tries []) ≡ some fence_committed)
plan_is_kept_example = plan_is_kept tries

tries_run : attempts tries [] ≡ fence_committed ∷ controller_fenced ∷ []
unfolding attempts advance
tries_run = refl
