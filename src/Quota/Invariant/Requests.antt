-- ===== src/Quota/Invariant/Requests.antt =====
-- The invariant and `apply_permit_request`.
use golden_retriever.Prelude.{
  ◌≡◌, ◌||◌, if_cases, false, [], ◌∷◌, arith, elem, elem-append, Distinct-snoc,
}
use golden_retriever.Prelude.Int.{pos, ◌≤ℤ◌}
use golden_retriever.Dict.Laws.{is_some, has-put, get-put, put-Unique}
use golden_retriever.Models.Quota.{PermitRequest, UserQuotaState}
use golden_retriever.Quota.Requests.{
  is_known, permit_request_denial, apply_permit_request, enqueue, count_message,
}
use golden_retriever.Quota.Invariant.{WellFormed, Kept, count_message-WellFormed}

-- A new request of positive cost joins the end of the queue.
enqueue-WellFormed :
    (s : UserQuotaState) (r : PermitRequest)
    → WellFormed s
    → is_known s r.request_id ≡ false
    → pos 1 ≤ℤ r.cost
    → WellFormed (enqueue r s)
unfolding is_known elem
enqueue-WellFormed s r q new cost = record {
  pending_unique = put-Unique r.request_id r s.pending q.pending_unique;
  reservations_unique = q.reservations_unique;
  order_distinct =
      Distinct-snoc r.request_id s.pending_order (ground (arith, q.order_pending r.request_id))
        q.order_distinct;
  order_pending = λ k. ground (
    arith,
    elem-append k s.pending_order (r.request_id ∷ []),
    has-put k r.request_id r s.pending,
    q.order_pending k,
  );
  apart = λ k h. ground (arith, has-put k r.request_id r s.pending, q.apart k);
  over_pending = λ k h. ground (arith, has-put k r.request_id r s.pending, q.over_pending k);
  over_reserved = q.over_reserved;
  counted = q.counted;
  positive = λ k x h. ground (arith, get-put k r.request_id r s.pending, q.positive k x);
  keyed = λ k x h. ground (arith, get-put k r.request_id r s.pending, q.keyed k x);
}

-- What the test of `apply_permit_request` lets through.
admitted :
    (s : UserQuotaState) (r : PermitRequest)
    → (is_some (permit_request_denial s r) || is_known s r.request_id) ≡ false
    → (is_known s r.request_id ≡ false) × (pos 1 ≤ℤ r.cost)
unfolding permit_request_denial
admitted s r h = ground arith

pub apply_permit_request-WellFormed :
    (s : UserQuotaState) (r : PermitRequest)
    → WellFormed s
    → WellFormed (apply_permit_request s r).0
unfolding apply_permit_request
apply_permit_request-WellFormed s r q =
    let counted = count_message-WellFormed s q in
    if_cases Kept
      (is_some (permit_request_denial (count_message s) r)
        || is_known (count_message s) r.request_id)
      _ _ (λ _. counted)
      (λ h. let ok = admitted (count_message s) r h in enqueue-WellFormed _ r counted ok.0 ok.1)
