-- ===== src/Quota/Invariant/Generation.antt =====
-- The invariant and `apply_cancel_generation_permits`.
use golden_retriever.Prelude.{
  ℕ, String, ◌≡◌, refl, ◌∙◌, false, List, [], ◌∷◌, arith, elem, without, elem-without, option_cases,
  if_cases, sorted, elem-sorted, drop_ids, elem-drop_ids, Distinct-drop_ids, is_nil, if◌then◌else◌,
}
use golden_retriever.Dict.{get}
use golden_retriever.Dict.Laws.{has-remove, has-get}
use golden_retriever.Models.Quota.{CancelGenerationPermits, UserQuotaState}
use golden_retriever.Quota.Requests.{count_message}
use golden_retriever.Quota.Terminal.{mark_terminal}
use golden_retriever.Quota.Cancel.{
  cancel_one, cancel_all, canceled_ids, apply_cancel_generation_permits,
}
use golden_retriever.Quota.Invariant.{
  Queued, WellFormed, frame-Queued, reorder-Queued, count_message-WellFormed,
}
use golden_retriever.Quota.Invariant.Terminal.{mark_terminal-Queued}
use golden_retriever.Quota.Invariant.Cancel.{pop_pending-Queued, release_slot-Queued}

-- The queue order once every listed id is gone.
unfoldable pub without_all : List String → List String → List String
without_all [] order = order
without_all (k ∷ ks) order = without_all ks (without k order)

pub elem-without_all :
    (j : String) (ks order : List String)
    → elem j (without_all ks order) ≡ (if elem j ks then false else elem j order)
unfolding without_all elem
elem-without_all j [] order = refl
elem-without_all j (k ∷ ks) order =
    ground (arith, elem-without_all j ks (without k order), elem-without j k order)

cancel_one-Queued :
    {order : List String} (k : String) (s : UserQuotaState)
    → Queued order s
    → Queued (without k order) (cancel_one k s)
unfolding cancel_one
cancel_one-Queued {order} k s q =
    let popped = pop_pending-Queued k s q in
    option_cases (λ x. Queued (without k order) (mark_terminal k x)) (get k s.reservations) _ _
      (λ e.
        mark_terminal-Queued k _ popped (ground (arith, has-remove k k s.pending))
          (ground (arith, has-get k s.reservations)))
      (λ r e.
        mark_terminal-Queued k _
          (release_slot-Queued k _ popped (ground (arith, has-get k s.reservations)))
          (ground (arith, has-remove k k s.pending))
          (ground (arith, has-remove k k s.reservations)))

cancel_all-Queued :
    {order : List String} (ks : List String) (s : UserQuotaState)
    → Queued order s
    → Queued (without_all ks order) (cancel_all ks s)
unfolding cancel_all without_all
cancel_all-Queued [] s q = q
cancel_all-Queued {order} (k ∷ ks) s q =
    cancel_all-Queued {order = without k order} ks (cancel_one k s) (cancel_one-Queued k s q)

-- The loop leaves the queue order to the last statement.
pub pending_order-cancel_all :
    (ks : List String) (s : UserQuotaState) → (cancel_all ks s).pending_order ≡ s.pending_order
unfolding cancel_all cancel_one mark_terminal
pending_order-cancel_all [] s = refl
pending_order-cancel_all (k ∷ ks) s = pending_order-cancel_all ks (cancel_one k s) ∙ ground arith

-- The sweep of one generation ends with a queue order that fits the pending requests.
sweep-WellFormed :
    (ids : List String) (s : UserQuotaState)
    → WellFormed s
    → Queued (drop_ids ids s.pending_order) (cancel_all (sorted ids) s)
sweep-WellFormed ids s q =
    reorder-Queued (drop_ids ids s.pending_order) _ (cancel_all-Queued (sorted ids) s q)
      (Distinct-drop_ids ids s.pending_order q.order_distinct)
      (λ k. ground (
        arith,
        elem-without_all k (sorted ids) s.pending_order,
        elem-drop_ids k ids s.pending_order,
        elem-sorted k ids,
      ))

pub apply_cancel_generation_permits-WellFormed :
    (s : UserQuotaState) (c : CancelGenerationPermits)
    → WellFormed s
    → WellFormed (apply_cancel_generation_permits s c).0
unfolding apply_cancel_generation_permits
apply_cancel_generation_permits-WellFormed s c q =
    let counted = count_message-WellFormed s q in
    if_cases (λ (x : UserQuotaState × ℕ). WellFormed x.0) (is_nil (canceled_ids s c)) _ _
      (λ _. counted)
      (λ _. rw (pending_order-cancel_all (sorted (canceled_ids s c)) (count_message s)) (
        frame-Queued (cancel_all (sorted (canceled_ids s c)) (count_message s)) _
          (sweep-WellFormed (canceled_ids s c) (count_message s) counted) refl refl refl refl))
