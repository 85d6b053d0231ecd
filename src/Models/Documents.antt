-- ===== src/Models/Documents.antt =====
-- models/documents.py. The result's `metadata`, which nothing sets, is left out.
use golden_retriever.Prelude.{String, Option}
use golden_retriever.Prelude.Int.{ℤ}
use golden_retriever.Models.Operations.{WorkClass, ResultStatus}
use golden_retriever.Models.Lifecycle.{Message}
use golden_retriever.Models.Quota.{QuotaScope}

pub record DocumentRef : Type 0 where
  pub document_key : String
  pub source_version : String
  pub staging_uri : String
  pub content_hash : String

pub data DocumentMutation : Type 0 where
  upsert delete : DocumentMutation

pub record DocumentIngestionInput : Type 0 where
  pub store_key : String
  pub lifecycle_generation : ℤ
  pub document : DocumentRef
  pub idempotency_key : String
  pub sync_sequence : String
  pub user_key : String
  pub resource_key : String
  pub quota_scope : Option QuotaScope
  pub work_class : WorkClass
  pub mutation : DocumentMutation

pub record DocumentIngestionResult : Type 0 where
  pub document_key : String
  pub source_version : String
  pub status : ResultStatus
  pub lifecycle_generation : ℤ
  pub content_hash : Option String
  pub message : Option Message
