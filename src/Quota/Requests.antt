-- ===== src/Quota/Requests.antt =====
-- Admission to the queue: `permit_request_denial` and `apply_permit_request`.
use golden_retriever.Prelude.{
  ℕ, ◌+◌, min, max, String, Bool, true, false, not, ◌||◌, Option, none, some, [], ◌∷◌, ◌++◌, leb,
  ◌==◌, if◌then◌else◌, elem,
}
use golden_retriever.Prelude.Int.{pos, pos_part, leb_ℤ}
use golden_retriever.Dict.{has, put, size}
use golden_retriever.Dict.Laws.{is_some}
use golden_retriever.Models.Quota.{
  PermitRequest, PermitDenied, UserQuotaState, max_quota_pending_requests, same_scope,
}

-- Every handler counts its message first.
abbrev pub count_message : UserQuotaState → UserQuotaState
count_message s = record s { processed_message_count = s.processed_message_count + 1 }

-- The request is queued, granted or over.
unfoldable pub is_known : UserQuotaState → String → Bool
is_known s k = has k s.pending || has k s.reservations || elem k s.recent_terminal_request_ids

abbrev pub effective_max_pending : UserQuotaState → ℕ
effective_max_pending s = min (max 1 (pos_part s.max_pending_requests)) max_quota_pending_requests

abbrev pub deny : PermitRequest → String → Bool → PermitDenied
deny r reason retryable = record {
  request_id = r.request_id;
  quota_scope = r.quota_scope;
  reason = reason;
  retryable = retryable;
}

unfoldable pub permit_request_denial : UserQuotaState → PermitRequest → Option PermitDenied
permit_request_denial s r =
    if is_known s r.request_id
    then none
    else if r.request_id == ""
    then some (deny r "request_id must not be empty" false)
    else if leb_ℤ r.cost (pos 0)
    then some (deny r "permit cost must be positive" false)
    else if not (same_scope r.quota_scope s.quota_scope)
    then some (deny r "quota scope does not match coordinator" false)
    else if r.requester_workflow_id == ""
    then some (deny r "requester workflow ID is required" false)
    else if s.disabled
    then some (deny r "quota scope is disabled" false)
    else if leb (effective_max_pending s) (size s.pending)
    then some (deny r "quota pending queue is at capacity" true)
    else none

abbrev pub enqueue : PermitRequest → UserQuotaState → UserQuotaState
enqueue r s = record s {
  pending = put r.request_id r s.pending;
  pending_order = s.pending_order ++ r.request_id ∷ [];
}

unfoldable pub apply_permit_request : UserQuotaState → PermitRequest → UserQuotaState × Bool
apply_permit_request s r =
    let counted = count_message s in
    if is_some (permit_request_denial counted r) || is_known counted r.request_id
    then (counted, false)
    else (enqueue r counted, true)
