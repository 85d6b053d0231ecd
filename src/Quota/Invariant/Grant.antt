-- ===== src/Quota/Invariant/Grant.antt =====
-- The invariant and `grant_available_permits`.
use golden_retriever.Prelude.{
  ℕ, String, ◌≡◌, refl, true, ◌||◌, List, [], ◌∷◌, arith, elem, if_cases, option_cases, ltb, leb,
}
use golden_retriever.Prelude.Int.{pos_part}
use golden_retriever.Dict.{has, get}
use golden_retriever.Dict.Laws.{
  has-put, has-remove, get-remove, has-get, put-Unique, remove-Unique, size-put_new,
}
use golden_retriever.Models.Quota.{PermitGrant, PermitRequest, UserQuotaState}
use golden_retriever.Ids.{Digest}
use golden_retriever.Quota.Window.{quota_is_blocked, advance_due_quota_window}
use golden_retriever.Quota.Grant.{
  affords, reserve, reservation_for, grant_loop, grant_available_permits,
}
use golden_retriever.Quota.Invariant.{Queued, WellFormed, frame-Queued}
use golden_retriever.Quota.Invariant.Window.{advance_due_quota_window-WellFormed}

abbrev Granted : UserQuotaState × List PermitGrant → Type 0
Granted x = WellFormed x.0

-- The head of the queue order is pending.
pub head_pending :
    {k : String} {order : List String} (s : UserQuotaState)
    → Queued (k ∷ order) s
    → has k s.pending ≡ true
unfolding elem
head_pending {k} s q = ground (arith, q.order_pending k)

module _ (digest : Digest) (now : ℕ) where
  pub reserve-Queued :
      {order : List String} (k : String) (r : PermitRequest) (s : UserQuotaState)
      → Queued (k ∷ order) s
      → Queued order (reserve digest now k r s)
  unfolding reserve elem
  reserve-Queued k r s q =
      let there : has k s.pending ≡ true = head_pending s q in
      let v = reservation_for digest s now k r in
      record {
        pending_unique = remove-Unique k s.pending q.pending_unique;
        reservations_unique = put-Unique k v s.reservations q.reservations_unique;
        order_distinct = q.order_distinct.1;
        order_pending =
            λ j. ground (arith, has-remove j k s.pending, q.order_pending j, q.order_distinct.0);
        apart = λ j p.
            ground (arith, has-remove j k s.pending, has-put j k v s.reservations, q.apart j);
        over_pending = λ j p. ground (arith, has-remove j k s.pending, q.over_pending j);
        over_reserved = λ j p.
            ground (arith, has-put j k v s.reservations, q.over_pending j, q.over_reserved j);
        counted = ground (arith, q.counted, size-put_new k v s.reservations, q.apart k);
        positive = λ j x p. ground (arith, get-remove j k s.pending, q.positive j x);
        keyed = λ j x p. ground (arith, get-remove j k s.pending, q.keyed j x);
      }

  grant_loop-WellFormed :
      (order : List String) (s : UserQuotaState)
      → Queued order s
      → WellFormed (grant_loop digest now order s).0
  unfolding grant_loop
  grant_loop-WellFormed [] s q = frame-Queued s _ q refl refl refl refl
  grant_loop-WellFormed (k ∷ order) s q =
      let stopped = frame-Queued s (record s { pending_order = k ∷ order }) q refl refl refl refl in
      if_cases Granted (ltb s.in_flight (pos_part s.max_in_flight)) _ _
        (λ _.
          option_cases Granted (get k s.pending) _ _
            (λ e. absurd (ground (arith, has-get k s.pending, head_pending s q)))
            (λ r e.
              if_cases Granted (affords s.remaining r.cost) _ _
                (λ _.
                  grant_loop-WellFormed order (reserve digest now k r s) (reserve-Queued k r s q))
                (λ _. stopped)))
        (λ _. stopped)

  pub grant_available_permits-WellFormed :
      (isoformat : ℕ → String) (s : UserQuotaState)
      → WellFormed s
      → WellFormed (grant_available_permits digest isoformat s now).0
  unfolding grant_available_permits
  grant_available_permits-WellFormed isoformat s q =
      let current = (advance_due_quota_window digest isoformat s now).0 in
      let kept = advance_due_quota_window-WellFormed digest isoformat s now q in
      if_cases Granted (quota_is_blocked current now || leb (pos_part current.max_in_flight) 0) _ _
        (λ _. kept) (λ _. grant_loop-WellFormed current.pending_order current kept)
