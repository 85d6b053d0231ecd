-- ===== src/Activities/Tests.antt =====
-- One store, active in generation 1 with one document, and the same store while it is
-- deactivating.
use golden_retriever.Prelude.{String, Option, none, some, [], ◌∷◌, ◌==◌, if◌then◌else◌}
use golden_retriever.Prelude.Int.{pos}
use golden_retriever.Dict
use golden_retriever.Dict.{Dict}
use golden_retriever.Models.Operations.{WorkClass}
use golden_retriever.Models.Documents.{DocumentRef, DocumentIngestionInput, upsert}
use golden_retriever.Models.Lifecycle.{
  StoreLifecycleState, active, syncing, deactivating, LifecycleFence,
}
use golden_retriever.Repository.{Repository, StoreRecord}
use golden_retriever.Activities.Ingestion.{ingest_staged_document}
use golden_retriever.Activities.Commits.{Commits, ingest_staged_document-Commits}
use golden_retriever.Activities.Cleanup.{
  CleanupUsersRequest, remove_objects, Removes, remove_objects-Removes,
}
use golden_retriever.Activities.Lifecycle.{validate_lifecycle_generation}
use golden_retriever.Activities.Reports.{Validates, validate_lifecycle_generation-Validates}

abbrev document : DocumentRef
document = record {
  document_key = "doc";
  source_version = "v1";
  staging_uri = "staging://doc";
  content_hash = "hash of body";
}

abbrev store : StoreLifecycleState → StoreRecord
store state = record {
  store_key = "store";
  lifecycle_state = state;
  lifecycle_generation = pos 1;
  last_lifecycle_transition = 0;
  active_users = "alice" ∷ [];
  retrieval_state = Dict.empty;
  documents = record { entries = ("doc", document) ∷ [] };
}

abbrev repository : StoreLifecycleState → Repository
repository state = record { entries = ("store", store state) ∷ [] }

-- A staging store with one body, and a hash that is good enough for it.
abbrev staging : String → Option String
staging uri = if uri == "staging://doc" then some "body" else none

abbrev sha256_hex : String → String
sha256_hex body = if body == "body" then "hash of body" else "hash of another body"

abbrev ingestion : DocumentIngestionInput
ingestion = record {
  store_key = "store";
  lifecycle_generation = pos 1;
  document = document;
  idempotency_key = "key";
  sync_sequence = "s1";
  user_key = "alice";
  resource_key = "files";
  quota_scope = none;
  work_class = WorkClass.incremental;
  mutation = upsert;
}

abbrev cleanup : CleanupUsersRequest
cleanup = record { store_key = "store"; expected_generation = pos 1; user_keys = [] }

abbrev fence : LifecycleFence
fence = record {
  store_key = "store";
  expected_generation = pos 1;
  allowed_states = active ∷ syncing ∷ [];
}

ingest_staged_document-Commits_example :
    Commits sha256_hex staging ingestion
      (repository active)
      (ingest_staged_document sha256_hex staging ingestion (repository active))
ingest_staged_document-Commits_example =
    ingest_staged_document-Commits sha256_hex staging ingestion (repository active)

remove_objects-Removes_example :
    Removes cleanup (repository deactivating) (remove_objects cleanup (repository deactivating))
remove_objects-Removes_example = remove_objects-Removes cleanup (repository deactivating)

validate_lifecycle_generation-Validates_example :
    Validates fence (repository active) (validate_lifecycle_generation fence (repository active))
validate_lifecycle_generation-Validates_example =
    validate_lifecycle_generation-Validates fence (repository active)
