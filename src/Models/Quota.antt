-- ===== src/Models/Quota.antt =====
-- models/quota.py. An instant is a number of microseconds from a fixed epoch, in UTC. The float
-- `fairness_weight`, which no equality and none of the modelled operations reads, is left out.
use golden_retriever.Prelude.{ℕ, String, Bool, ◌&&◌, Option, List, ◌==◌}
use golden_retriever.Prelude.Int.{ℤ}
use golden_retriever.Dict.{Dict}
use golden_retriever.Models.Operations.{WorkClass}

abbrev pub max_quota_pending_requests : ℕ
max_quota_pending_requests = 350

pub record QuotaScope : Type 0 where
  pub provider : String
  pub credential_key : String
  pub quota_class : String

-- `==` on scopes
unfoldable pub same_scope : QuotaScope → QuotaScope → Bool
same_scope a b =
    a.provider == b.provider
    && a.credential_key == b.credential_key
    && a.quota_class == b.quota_class

pub data PermitStatus : Type 0 where
  pending granted completed canceled : PermitStatus

pub record PermitRequest : Type 0 where
  pub request_id : String
  pub requester_workflow_id : String
  pub store_key : String
  pub lifecycle_generation : ℤ
  pub quota_scope : QuotaScope
  pub cost : ℤ
  pub work_class : WorkClass
  pub requested_at : Option ℕ

pub record CancelPermit : Type 0 where
  pub request_id : String
  pub reason : Option String

pub record CancelGenerationPermits : Type 0 where
  pub store_key : String
  pub lifecycle_generation : ℤ

pub record PermitCompleted : Type 0 where
  pub request_id : String
  pub permit_id : String
  pub completed_at : Option ℕ

pub record PermitReservation : Type 0 where
  pub request_id : String
  pub permit_id : String
  pub requester_workflow_id : String
  pub cost : ℤ
  pub quota_window_id : String
  pub granted_at : Option ℕ
  pub status : PermitStatus
  pub store_key : String
  pub lifecycle_generation : ℤ

pub record PermitGrant : Type 0 where
  pub request_id : String
  pub permit_id : String
  pub quota_scope : QuotaScope
  pub quota_window_id : String
  pub cost : ℤ

pub record PermitDenied : Type 0 where
  pub request_id : String
  pub quota_scope : QuotaScope
  pub reason : String
  pub retryable : Bool

-- `retry_after` is `retry_after_seconds` as a `timedelta`, in microseconds.
pub record QuotaObservation : Type 0 where
  pub quota_scope : QuotaScope
  pub request_id : String
  pub limit : Option ℤ
  pub remaining : Option ℤ
  pub reset_at : Option ℕ
  pub retry_after : Option ℤ
  pub exhausted : Bool

pub record DisableQuotaScope : Type 0 where
  pub reason : Option String
  pub disabled_at : Option ℕ

pub record UserQuotaState : Type 0 where
  pub quota_scope : QuotaScope
  pub configured_limit : Option ℤ
  pub remaining : Option ℤ
  pub reset_at : Option ℕ
  pub blocked_until : Option ℕ
  pub max_in_flight : ℤ
  pub max_pending_requests : ℤ
  pub in_flight : ℕ
  pub disabled : Bool
  pub pending : Dict PermitRequest
  pub pending_order : List String
  pub reservations : Dict PermitReservation
  pub recent_terminal_request_ids : List String
  pub recent_terminal_request_order : List String
  pub quota_window_id : String
  pub processed_message_count : ℕ
  pub dedup_window_size : ℤ
  pub continue_as_new_message_count : ℤ

pub record QuotaSnapshot : Type 0 where
  pub quota_scope : QuotaScope
  pub configured_limit : Option ℤ
  pub remaining : Option ℤ
  pub reset_at : Option ℕ
  pub blocked_until : Option ℕ
  pub max_in_flight : ℤ
  pub max_pending_requests : ℕ
  pub in_flight : ℕ
  pub disabled : Bool
  pub pending_count : ℕ
  pub reservation_count : ℕ
  pub quota_window_id : String
