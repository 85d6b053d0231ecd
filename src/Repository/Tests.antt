-- ===== src/Repository/Tests.antt =====
-- One active store with a user and a document, deactivated while late writes come in.
use golden_retriever.Prelude.{ℕ, ◌≡◌, refl, some, List, [], ◌∷◌, str_dec}
use native.Mathlib.Decide.{ℕ_discrete}
use golden_retriever.Prelude.Int.{pos, ◌+ℤ◌, ◌≤ℤ◌, ℤ_dec}
use golden_retriever.Dict
use golden_retriever.Dict.{get, put}
use golden_retriever.Models.Documents.{DocumentRef}
use golden_retriever.Models.Lifecycle.{active, inactive, deactivating}
use golden_retriever.Prelude.Result.{ok, err}
use golden_retriever.Repository.{
  stale_generation, StoreRecord, Repository, transition, begin_deactivation, fence_of,
}
use golden_retriever.Repository.Calls.{
  Write, activate_user, upsert_document, Call, begins, resumes, marks_failed, perform, run, write,
}
use golden_retriever.Repository.Transitions.{Moves, perform-Moves}
use golden_retriever.Repository.Fencing.{run-grows, run-inactive, late_write_refused}
use golden_retriever.Repository.Retries.{begin_deactivation_again}
use golden_retriever.Repository.Teardown.{teardown, teardown_empties}

abbrev page : DocumentRef
page = record {
  document_key = "d";
  source_version = "1";
  staging_uri = "s3://d";
  content_hash = "h";
}

abbrev store : StoreRecord
store = record {
  store_key = "store";
  lifecycle_state = active;
  lifecycle_generation = pos 4;
  last_lifecycle_transition = 1;
  active_users = "ann" ∷ [];
  retrieval_state = Dict.empty;
  documents = put "d" page Dict.empty;
}

abbrev repo : Repository
repo = record { entries = ("store", store) ∷ [] }

abbrev fenced : StoreRecord
fenced = transition 9 deactivating (pos 5) store

abbrev retired : StoreRecord
retired = transition 9 inactive (pos 5) store

store_there : get "store" repo ≡ some store
unfolding get Dict.lookup str_dec
store_there = refl

begun :
    begin_deactivation 9 "store" (pos 4) repo
    ≡ ok (fence_of "store" (pos 4) fenced, put "store" fenced repo)
unfolding begin_deactivation get Dict.lookup str_dec ℤ_dec ◌+ℤ◌ put Dict.insert ℕ_discrete
begun = refl

abbrev calls : List (ℕ × Call)
calls = (12, marks_failed "store" (pos 5)) ∷ (13, resumes "store" (pos 5)) ∷ []

perform-Moves_example : Moves "store" repo (perform 9 (begins "store" (pos 4)) repo)
perform-Moves_example = perform-Moves 9 (begins "store" (pos 4)) "store" repo

run-grows_example :
    (s : StoreRecord) × (get "store" (run calls repo) ≡ some s) × (pos 4 ≤ℤ s.lifecycle_generation)
run-grows_example = run-grows calls "store" repo store store_there

run-inactive_example :
    get "store" (run calls (record { entries = ("store", retired) ∷ [] })) ≡ some retired
unfolding get Dict.lookup str_dec
run-inactive_example =
    run-inactive calls "store" (record { entries = ("store", retired) ∷ [] }) retired refl refl

late_write_refused_example :
    (s : StoreRecord) × (get "store" (run calls (put "store" fenced repo)) ≡ some s)
    × (write "store" (pos 4) (upsert_document page) (run calls (put "store" fenced repo))
        ≡ err (stale_generation (pos 4) s.lifecycle_generation))
late_write_refused_example =
    late_write_refused 9 "store" (pos 4) repo begun calls (upsert_document page)

begin_deactivation_again_example :
    (begin_deactivation 20 "store" (pos 4) (put "store" fenced repo)
      ≡ ok (fence_of "store" (pos 4) fenced, put "store" fenced repo))
    × ((s : StoreRecord) × (get "store" (run calls (put "store" fenced repo)) ≡ some s)
        × (begin_deactivation 20 "store" (pos 4) (run calls (put "store" fenced repo))
            ≡ ok (
              record (fence_of "store" (pos 4) fenced) {
                transitioned_at = some s.last_lifecycle_transition;
              },
              run calls (put "store" fenced repo),
            )))
begin_deactivation_again_example = begin_deactivation_again 9 20 "store" (pos 4) repo begun calls

abbrev writes_late : List (ℕ × Write)
writes_late = (10, upsert_document page) ∷ (11, activate_user "bob") ∷ []

teardown_empties_example :
    get "store" (run (teardown "store" (pos 4) 9 12 13 14 writes_late writes_late [] []) repo)
    ≡ some (record (transition 14 inactive (pos 4 +ℤ pos 1) store) {
      active_users = [];
      documents = Dict.empty;
      retrieval_state = Dict.empty;
    })
teardown_empties_example =
    teardown_empties "store" 9 12 13 14 writes_late writes_late [] [] repo store store_there refl
