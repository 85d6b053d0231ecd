-- ===== src/Quota/Fairness.antt =====
-- The order of `grant_available_permits`, and where it stops.
use golden_retriever.Prelude.{
  ℕ, ◌≤◌, String, ◌≡◌, refl, ◌⊎◌, inl, inr, ap, ◌∙◌, false, ◌||◌, List, [], ◌∷◌, ◌++◌, map, some,
  arith, if_cases, option_cases, ltb, leb, Bool-cases, true, suc, ◌+◌, Option, none,
}
use golden_retriever.Prelude.Int.{ℤ, pos_part, neg_part}
use golden_retriever.Dict.{get}
use golden_retriever.Dict.Laws.{has-get}
use golden_retriever.Models.Quota.{PermitGrant, PermitRequest, UserQuotaState}
use golden_retriever.Ids.{Digest}
use golden_retriever.Quota.Window.{quota_is_blocked, advance_due_quota_window, settle_window}
use golden_retriever.Quota.Grant.{affords, reserve, grant_for, grant_loop, grant_available_permits}
use golden_retriever.Quota.Invariant.{Queued, WellFormed}
use golden_retriever.Quota.Invariant.Grant.{head_pending, reserve-Queued}
use golden_retriever.Quota.Invariant.Window.{advance_due_quota_window-WellFormed}

abbrev pub ids_of : List PermitGrant → List String
ids_of = map (λ g. g.request_id)

-- Nothing more can be granted: the queue is empty, every slot is taken, or a known balance is
-- below the cost of the request at the head.
abbrev pub IsSettled : UserQuotaState → Type 0
IsSettled s =
    (s.pending_order ≡ [])
    ⊎ (pos_part s.max_in_flight ≤ s.in_flight)
    ⊎ ((k : String) × (order : List String) × (r : PermitRequest) × (s.pending_order ≡ k ∷ order)
        × (get k s.pending ≡ some r)
        × (b : ℤ) × (s.remaining ≡ some b)
        × (suc (pos_part b + neg_part r.cost) ≤ pos_part r.cost + neg_part b))

abbrev SettledAfter : UserQuotaState × List PermitGrant → Type 0
SettledAfter x = IsSettled x.0

poor_below :
    (o : Option ℤ) (cost : ℤ)
    → affords o cost ≡ false
    → (b : ℤ) × (o ≡ some b) × (suc (pos_part b + neg_part cost) ≤ pos_part cost + neg_part b)
poor_below none cost h = absurd (ground arith)
poor_below (some b) cost h = (b, refl, ground arith)

-- The scope may grant at this time.
abbrev pub IsOpen : ℕ → UserQuotaState → Type 0
IsOpen now s =
    (s.disabled ≡ false)
    × ((s.blocked_until ≡ none) ⊎ ((t : ℕ) × (s.blocked_until ≡ some t) × (t ≤ now)))

-- It is disabled, or blocked until later.
abbrev pub IsClosed : ℕ → UserQuotaState → Type 0
IsClosed now s = (s.disabled ≡ true) ⊎ ((t : ℕ) × (s.blocked_until ≡ some t) × (suc now ≤ t))

IsOpen-or_IsClosed : (now : ℕ) (s : UserQuotaState) → IsOpen now s ⊎ IsClosed now s
IsOpen-or_IsClosed now s = elim (Bool-cases s.disabled) [
  | inl off ↦ inr (inl off)
  | inr on ↦
      option_cases (λ (_ : Option ℕ). IsOpen now s ⊎ IsClosed now s) s.blocked_until none some
        (λ free. inl (on, inl free))
        (λ t held. elim (Bool-cases (leb t now)) [
          | inl past ↦ inl (on, inr (t, held, ground arith))
          | inr ahead ↦ inr (inr (t, held, ground arith))
        ])
]

open_is_not_blocked : (now : ℕ) (s : UserQuotaState) → IsOpen now s → quota_is_blocked s now ≡ false
unfolding quota_is_blocked
open_is_not_blocked now s (on, inl free) = ground arith
open_is_not_blocked now s (on, inr (t, held, past)) = ground arith

closed_is_blocked : (now : ℕ) (s : UserQuotaState) → IsClosed now s → quota_is_blocked s now ≡ true
unfolding quota_is_blocked
closed_is_blocked now s (inl off) = ground arith
closed_is_blocked now s (inr (t, held, ahead)) = ground arith

-- How a round ends from a state whose due boundaries have passed.
abbrev pub SettledRound : ℕ → UserQuotaState → UserQuotaState × List PermitGrant → Type 0
SettledRound now current x =
    (IsOpen now current × IsSettled x.0) ⊎ (IsClosed now current × (x ≡ (current, [])))

-- The granted ids, then the queue that is left.
abbrev pub Splits : List String → UserQuotaState × List PermitGrant → Type 0
Splits order x = ids_of x.1 ++ x.0.pending_order ≡ order

module _ (digest : Digest) (now : ℕ) where
  grant_loop_fifo :
      (order : List String) (s : UserQuotaState)
      → Queued order s
      → Splits order (grant_loop digest now order s)
  unfolding grant_loop grant_for
  grant_loop_fifo [] s q = refl
  grant_loop_fifo (k ∷ order) s q =
      if_cases (Splits (k ∷ order)) (ltb s.in_flight (pos_part s.max_in_flight)) _ _
        (λ _.
          option_cases (Splits (k ∷ order)) (get k s.pending) _ _
            (λ e. absurd (ground (arith, has-get k s.pending, head_pending s q)))
            (λ r e.
              if_cases (Splits (k ∷ order)) (affords s.remaining r.cost) _ _
                (λ _. ap (◌∷◌ k) (
                  grant_loop_fifo order (reserve digest now k r s)
                    (reserve-Queued digest now k r s q)))
                (λ _. refl)))
        (λ _. refl)

  grant_loop-IsSettled :
      (order : List String) (s : UserQuotaState) → IsSettled (grant_loop digest now order s).0
  unfolding grant_loop
  grant_loop-IsSettled [] s = inl refl
  grant_loop-IsSettled (k ∷ order) s =
      if_cases SettledAfter (ltb s.in_flight (pos_part s.max_in_flight)) _ _
        (λ _.
          option_cases SettledAfter (get k s.pending) _ _ (λ e. grant_loop-IsSettled order s)
            (λ r e.
              if_cases SettledAfter (affords s.remaining r.cost) _ _
                (λ _. grant_loop-IsSettled order (reserve digest now k r s))
                (λ poor.
                  let (b, known, short) = poor_below s.remaining r.cost poor in
                  inr (inr (k, order, r, refl, e, b, known, short)))))
        (λ full. inr (inl (ground arith)))

module _ (digest : Digest) (isoformat : ℕ → String) (now : ℕ) where
  -- A reset boundary leaves the queue alone.
  pub pending_order-advance_due_quota_window :
      (s : UserQuotaState)
      → (advance_due_quota_window digest isoformat s now).0.pending_order ≡ s.pending_order
  unfolding advance_due_quota_window settle_window
  pending_order-advance_due_quota_window s = ground arith

  -- In a well-formed state, a round grants a prefix of the queue, in its order, and leaves the
  -- rest of the queue.
  pub grant_available_permits_fifo :
      (s : UserQuotaState)
      → WellFormed s
      → Splits s.pending_order (grant_available_permits digest isoformat s now)
  unfolding grant_available_permits
  grant_available_permits_fifo s q =
      let current = (advance_due_quota_window digest isoformat s now).0 in
      let kept = advance_due_quota_window-WellFormed digest isoformat s now q in
      let same = pending_order-advance_due_quota_window s in
      if_cases (Splits s.pending_order)
        (quota_is_blocked current now || leb (pos_part current.max_in_flight) 0) _ _ (λ _. same)
        (λ _. grant_loop_fifo digest now current.pending_order current kept ∙ same)

  -- A round in any state, once the due boundaries have passed: either the scope is disabled or
  -- blocked until later, and nothing is granted or changed, or it is neither, and granting stops
  -- only when the queue is empty, every slot is taken, or a known balance is below the cost of the
  -- request at the head.
  pub grant_available_permits-IsSettled :
      (s : UserQuotaState)
      → SettledRound now
          (advance_due_quota_window digest isoformat s now).0
          (grant_available_permits digest isoformat s now)
  unfolding grant_available_permits
  grant_available_permits-IsSettled s =
      let current = (advance_due_quota_window digest isoformat s now).0 in
      if_cases (SettledRound now current)
        (quota_is_blocked current now || leb (pos_part current.max_in_flight) 0) _ _
        (λ stopped. elim (IsOpen-or_IsClosed now current) [
          | inl here ↦ inl (here, inr (inl (ground (arith, open_is_not_blocked now current here))))
          | inr there ↦ inr (there, refl)
        ])
        (λ goes. elim (IsOpen-or_IsClosed now current) [
          | inl here ↦ inl (here, grant_loop-IsSettled digest now current.pending_order current)
          | inr there ↦ absurd (ground (arith, closed_is_blocked now current there))
        ])
