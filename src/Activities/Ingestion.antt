-- ===== src/Activities/Ingestion.antt =====
-- activities/ingestion.py: `IngestionActivities`. The staging store and what hashlib computes of a
-- body are parameters; heartbeats and metrics are left out. The repository is as it is when the
-- method is called: calls that come while the body is loaded come before it.
use golden_retriever.Prelude.{String, Option, none, some, ◌==◌, if◌then◌else◌}
use golden_retriever.Prelude.Result.{Result, ok, err}
use golden_retriever.Models.Operations.{ResultStatus, succeeded, rejected, stale_generation}
use golden_retriever.Models.Lifecycle.{Message, text, stale, rejects}
use golden_retriever.Models.Documents.{
  DocumentIngestionInput, DocumentIngestionResult, DocumentMutation, upsert, delete,
}
use golden_retriever.Repository.{
  Error, unknown_store, Outcome, Repository, upsert_document_if_current, delete_document_if_current,
}

-- What an activity makes of an exception: it catches the stale-generation and the lifecycle-state
-- error, for its result, and lets the others through.
abbrev pub caught : Error → Option (ResultStatus × Message)
caught (Error.stale_generation expected current) = some (stale_generation, stale expected current)
caught (Error.state_rejected state) = some (rejected, rejects state)
caught (Error.rejected t) = some (rejected, text t)
caught (unknown_store key) = none

-- What an activity raises: an exception of the repository, or of the staging store.
pub data Raised : Type 0 where
  from_repository : Error → Raised
  staging_missing : String → Raised

-- `_result`
unfoldable pub ingestion_result :
    DocumentIngestionInput → ResultStatus → Option Message → DocumentIngestionResult
ingestion_result command status message = record {
  document_key = command.document.document_key;
  source_version = command.document.source_version;
  status = status;
  lifecycle_generation = command.lifecycle_generation;
  content_hash = some command.document.content_hash;
  message = message;
}

-- The result after the repository's method.
abbrev pub concluded :
    DocumentIngestionInput
    → Repository
    → Outcome (Unit {0} × Repository)
    → Result Raised (DocumentIngestionResult × Repository)
concluded command repo (ok (u, repo')) = ok (ingestion_result command succeeded none, repo')
concluded command repo (err e) = elim (caught e) [
  | none ↦ err (from_repository e)
  | some (status, message) ↦ ok (ingestion_result command status (some message), repo)
]

module _ {Body : Type 0} (sha256_hex : Body → String) (staging : String → Option Body) where
  unfoldable pub ingest_upsert :
      DocumentIngestionInput → Repository → Result Raised (DocumentIngestionResult × Repository)
  ingest_upsert command repo = elim (staging command.document.staging_uri) [
    | none ↦ err (staging_missing command.document.staging_uri)
    | some body ↦
        if sha256_hex body == command.document.content_hash
        then concluded command repo (
            upsert_document_if_current command.store_key command.lifecycle_generation
              command.document repo)
        else ok (
          ingestion_result command rejected
              (some (text "staged content hash does not match DocumentRef")),
          repo,
        )
  ]

  abbrev pub ingest_by :
      DocumentMutation
      → DocumentIngestionInput
      → Repository
      → Result Raised (DocumentIngestionResult × Repository)
  ingest_by delete command repo = concluded command repo (
      delete_document_if_current command.store_key command.lifecycle_generation
        command.document.document_key repo)
  ingest_by upsert command repo = ingest_upsert command repo

  unfoldable pub ingest_staged_document :
      DocumentIngestionInput → Repository → Result Raised (DocumentIngestionResult × Repository)
  unfolding ingest_upsert
  ingest_staged_document command repo = ingest_by command.mutation command repo
