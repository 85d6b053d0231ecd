-- ===== src/Quota/Invariant.antt =====
-- The well-formedness of `UserQuotaState`.
pub mod Terminal
pub mod Requests
pub mod Cancel
pub mod Generation
pub mod Window
pub mod Grant
pub mod Compact
pub mod Ended
pub mod Messages
use golden_retriever.Prelude.{
  ℕ, suc, ◌≤◌, String, ◌≡◌, refl, ◌∙◌, Bool, true, false, some, List, arith, elem, Distinct, refl,
}
use golden_retriever.Prelude.Int.{ℤ, pos, ◌≤ℤ◌, pos_part, neg_part}
use golden_retriever.Dict.{get, has, size, keys}
use golden_retriever.Dict.Laws.{Unique}
use golden_retriever.Quota.Requests.{count_message}
use golden_retriever.Models.Quota.{PermitRequest, UserQuotaState}

-- Over the queue order, which the grant loop carries apart from the state.
pub record Queued (order : List String) (s : UserQuotaState) : Type 0 where
  pub pending_unique : Unique s.pending
  pub reservations_unique : Unique s.reservations
  pub order_distinct : Distinct order
  pub order_pending : (k : String) → elem k order ≡ has k s.pending
  pub apart : (k : String) → has k s.pending ≡ true → has k s.reservations ≡ false
  pub over_pending :
      (k : String) → elem k s.recent_terminal_request_ids ≡ true → has k s.pending ≡ false
  pub over_reserved :
      (k : String) → elem k s.recent_terminal_request_ids ≡ true → has k s.reservations ≡ false
  pub counted : s.in_flight ≡ size s.reservations
  pub positive : (k : String) (r : PermitRequest) → get k s.pending ≡ some r → pos 1 ≤ℤ r.cost
  pub keyed : (k : String) (r : PermitRequest) → get k s.pending ≡ some r → r.request_id ≡ k

abbrev pub WellFormed : UserQuotaState → Type 0
WellFormed s = Queued s.pending_order s

-- A handler's new state is well formed.
abbrev pub Kept : UserQuotaState × Bool → Type 0
Kept x = WellFormed x.0

-- The invariant reads four fields of the state.
pub frame-Queued :
    {order : List String} (s x : UserQuotaState)
    → Queued order s
    → x.pending ≡ s.pending
    → x.reservations ≡ s.reservations
    → x.recent_terminal_request_ids ≡ s.recent_terminal_request_ids
    → x.in_flight ≡ s.in_flight
    → Queued order x
frame-Queued s x q p r t n = record {
  pending_unique = rw p q.pending_unique;
  reservations_unique = rw r q.reservations_unique;
  order_distinct = q.order_distinct;
  order_pending = λ k. rw p (q.order_pending k);
  apart = λ k. rw (p, r) (q.apart k);
  over_pending = λ k. rw (t, p) (q.over_pending k);
  over_reserved = λ k. rw (t, r) (q.over_reserved k);
  counted = rw (n, r) q.counted;
  positive = λ k v. rw p (q.positive k v);
  keyed = λ k v. rw p (q.keyed k v);
}

-- It reads the queue order as a set.
pub reorder-Queued :
    {order : List String} (order' : List String) (s : UserQuotaState)
    → Queued order s
    → Distinct order'
    → ((k : String) → elem k order' ≡ elem k order)
    → Queued order' s
reorder-Queued order' s q d e = record {
  pending_unique = q.pending_unique;
  reservations_unique = q.reservations_unique;
  order_distinct = d;
  order_pending = λ k. e k ∙ q.order_pending k;
  apart = q.apart;
  over_pending = q.over_pending;
  over_reserved = q.over_reserved;
  counted = q.counted;
  positive = q.positive;
  keyed = q.keyed;
}

-- Counting a message changes nothing that the invariant reads.
pub count_message-WellFormed : (s : UserQuotaState) → WellFormed s → WellFormed (count_message s)
count_message-WellFormed s q = frame-Queued s _ q refl refl refl refl
