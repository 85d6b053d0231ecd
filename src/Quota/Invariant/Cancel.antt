-- ===== src/Quota/Invariant/Cancel.antt =====
-- The invariant and the handlers that end requests.
use golden_retriever.Prelude.{
  String, ◌≡◌, refl, true, false, some, List, arith, elem, without, elem-without, Distinct-without,
  if_cases, option_cases, ◌==◌,
}
use golden_retriever.Dict.{has, get, remove}
use golden_retriever.Dict.Laws.{has-remove, get-remove, has-get, remove-Unique, size-remove}
use golden_retriever.Models.Quota.{
  CancelPermit, PermitCompleted, PermitRequest, PermitReservation, UserQuotaState,
}
use golden_retriever.Quota.Cancel.{
  release_slot, drop_pending, cancel_granted, apply_cancel_permit, apply_permit_completed,
}
use golden_retriever.Quota.Terminal.{mark_terminal}
use golden_retriever.Quota.Invariant.{
  Queued, WellFormed, Kept, frame-Queued, count_message-WellFormed,
}
use golden_retriever.Quota.Invariant.Terminal.{mark_terminal-Queued}

pub release_slot-Queued :
    {order : List String} (k : String) (s : UserQuotaState)
    → Queued order s
    → has k s.reservations ≡ true
    → Queued order (release_slot k s)
release_slot-Queued k s q h = record {
  pending_unique = q.pending_unique;
  reservations_unique = remove-Unique k s.reservations q.reservations_unique;
  order_distinct = q.order_distinct;
  order_pending = q.order_pending;
  apart = λ j p. ground (arith, has-remove j k s.reservations, q.apart j);
  over_pending = q.over_pending;
  over_reserved = λ j p. ground (arith, has-remove j k s.reservations, q.over_reserved j);
  counted = ground (arith, q.counted, size-remove k s.reservations q.reservations_unique);
  positive = q.positive;
  keyed = q.keyed;
}

pub pop_pending-Queued :
    {order : List String} (k : String) (s : UserQuotaState)
    → Queued order s
    → Queued (without k order) (record s { pending = remove k s.pending })
pop_pending-Queued {order} k s q = record {
  pending_unique = remove-Unique k s.pending q.pending_unique;
  reservations_unique = q.reservations_unique;
  order_distinct = Distinct-without k order q.order_distinct;
  order_pending =
      λ j. ground (arith, elem-without j k order, has-remove j k s.pending, q.order_pending j);
  apart = λ j p. ground (arith, has-remove j k s.pending, q.apart j);
  over_pending = λ j p. ground (arith, has-remove j k s.pending, q.over_pending j);
  over_reserved = q.over_reserved;
  counted = q.counted;
  positive = λ j r p. ground (arith, get-remove j k s.pending, q.positive j r);
  keyed = λ j r p. ground (arith, get-remove j k s.pending, q.keyed j r);
}

drop_pending-WellFormed :
    (k : String) (s : UserQuotaState) → WellFormed s → WellFormed (drop_pending k s)
drop_pending-WellFormed k s q =
    frame-Queued _ (drop_pending k s) (pop_pending-Queued k s q) refl refl refl refl

-- The end of a granted request, whether it was canceled or completed.
end_granted-WellFormed :
    (k : String) (s : UserQuotaState) {r : PermitReservation}
    → WellFormed s
    → get k s.reservations ≡ some r
    → WellFormed (mark_terminal k (release_slot k s))
unfolding mark_terminal
end_granted-WellFormed k s q h =
    let there : has k s.reservations ≡ true = ground (arith, has-get k s.reservations) in
    mark_terminal-Queued {order = s.pending_order} k (release_slot k s)
      (release_slot-Queued k s q there) (ground (arith, q.apart k))
      (ground (arith, has-remove k k s.reservations))

end_pending-WellFormed :
    (k : String) (s : UserQuotaState) {r : PermitRequest}
    → WellFormed s
    → get k s.pending ≡ some r
    → WellFormed (mark_terminal k (drop_pending k s))
unfolding mark_terminal
end_pending-WellFormed k s q h =
    let there : has k s.pending ≡ true = ground (arith, has-get k s.pending) in
    mark_terminal-Queued {order = without k s.pending_order} k (drop_pending k s)
      (drop_pending-WellFormed k s q) (ground (arith, has-remove k k s.pending)) (q.apart k there)

-- A cancellation that comes before its request is remembered.
cancel_granted-WellFormed :
    (k : String) (s : UserQuotaState)
    → WellFormed s
    → has k s.pending ≡ false
    → WellFormed (cancel_granted k s).0
unfolding cancel_granted mark_terminal
cancel_granted-WellFormed k s q p =
    option_cases Kept (get k s.reservations) _ _
      (λ e.
        if_cases Kept (k == "") _ _ (λ _. q)
          (λ _.
            mark_terminal-Queued {order = s.pending_order} k s q p
              (ground (arith, has-get k s.reservations))))
      (λ r e. end_granted-WellFormed k s q e)

pub apply_cancel_permit-WellFormed :
    (s : UserQuotaState) (c : CancelPermit) → WellFormed s → WellFormed (apply_cancel_permit s c).0
unfolding apply_cancel_permit
apply_cancel_permit-WellFormed s c q =
    let counted = count_message-WellFormed s q in
    if_cases Kept (elem c.request_id s.recent_terminal_request_ids) _ _ (λ _. counted)
      (λ _.
        option_cases Kept (get c.request_id s.pending) _ _
          (λ e.
            cancel_granted-WellFormed c.request_id _ counted
              (ground (arith, has-get c.request_id s.pending)))
          (λ r e. end_pending-WellFormed c.request_id _ counted e))

pub apply_permit_completed-WellFormed :
    (s : UserQuotaState) (c : PermitCompleted)
    → WellFormed s
    → WellFormed (apply_permit_completed s c).0
unfolding apply_permit_completed
apply_permit_completed-WellFormed s c q =
    let counted = count_message-WellFormed s q in
    if_cases Kept (elem c.request_id s.recent_terminal_request_ids) _ _ (λ _. counted)
      (λ _.
        option_cases Kept (get c.request_id s.reservations) _ _ (λ _. counted)
          (λ r e.
            if_cases Kept (r.permit_id == c.permit_id) _ _
              (λ _. end_granted-WellFormed c.request_id _ counted e) (λ _. counted)))
