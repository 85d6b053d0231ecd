-- ===== src/Models/Sync.antt =====
-- models/sync.py: what a root sync is started with. The fields that keep their defaults at the
-- start (the cursors, counts and samples of later runs) are left out.
use golden_retriever.Prelude.{ℕ, String, Bool, Option, List}
use golden_retriever.Prelude.Int.{ℤ}
use golden_retriever.Models.Operations.{WorkClass, ResultStatus}
use golden_retriever.Models.Quota.{QuotaScope}

pub data SyncMode : Type 0 where
  ordinary round : SyncMode

pub record StoreSyncInput : Type 0 where
  pub store_key : String
  pub lifecycle_generation : ℤ
  pub sync_sequence : String
  pub quota_scope : Option QuotaScope
  pub work_class : WorkClass
  pub mode : SyncMode
  pub resource_types : List String
  pub max_active_users : ℤ
  pub user_page_size : ℤ
  pub round_user_window_size : ℤ
  pub round_page_slice_size : ℤ
  pub resource_concurrency : ℤ
  pub files_page_window_size : ℤ
  pub files_per_page_concurrency : ℤ
  pub document_ingestion_concurrency : ℤ
  pub provider_page_size : ℤ
  pub provider_task_queue : String
  pub priority_fairness_enabled : Bool
  pub controller_workflow_id : Option String
  pub activation_recent_page_cap : ℤ
  pub enable_search_attributes : Bool

pub record ActivateUserInput : Type 0 where
  pub store_key : String
  pub lifecycle_generation : ℤ
  pub sync_sequence : String
  pub user_key : String
  pub quota_scope : Option QuotaScope
  pub work_class : WorkClass
  pub recent_page_cap : ℤ
  pub resource_types : List String
  pub resource_concurrency : ℤ
  pub files_page_window_size : ℤ
  pub files_per_page_concurrency : ℤ
  pub document_ingestion_concurrency : ℤ
  pub provider_page_size : ℤ
  pub provider_task_queue : String
  pub priority_fairness_enabled : Bool

pub record FailedUserRemediationInput : Type 0 where
  pub store_key : String
  pub lifecycle_generation : ℤ
  pub sync_sequence : String
  pub operation_id : String
  pub failed_user_keys : List String
  pub quota_scope : Option QuotaScope
  pub work_class : WorkClass
  pub resource_types : List String
  pub resource_concurrency : ℤ
  pub files_page_window_size : ℤ
  pub files_per_page_concurrency : ℤ
  pub document_ingestion_concurrency : ℤ
  pub provider_page_size : ℤ
  pub provider_task_queue : String
  pub priority_fairness_enabled : Bool
  pub controller_workflow_id : Option String
  pub recent_page_cap : ℤ
  pub enable_search_attributes : Bool
  pub prior_completed_count : ℕ
  pub prior_error_count : ℕ

pub record SyncProgress : Type 0 where
  pub phase : String
  pub users_completed : ℕ
  pub users_failed : ℕ

-- Of the progress, the counts of users; `details`, which are of any type, are left out.
pub record SyncResult : Type 0 where
  pub store_key : String
  pub lifecycle_generation : ℤ
  pub sync_sequence : String
  pub status : ResultStatus
  pub progress : SyncProgress
  pub failed_user_keys : List String
  pub errors : List String
