-- ===== src/Quota/Invariant/Terminal.antt =====
-- The invariant and `_mark_terminal`.
use golden_retriever.Prelude.{
  String, ◌≡◌, ◌⊎◌, inl, inr, true, false, ◌-◌, List, [], ◌∷◌, ◌++◌, arith, elem, elem-append,
  remove_first, take, length,
}
use golden_retriever.Prelude.Int.{ℤ, pos_part}
use golden_retriever.Models.Quota.{UserQuotaState}
use golden_retriever.Dict.{has}
use golden_retriever.Quota.Invariant.{Queued}
use golden_retriever.Quota.Terminal.{evict, mark_window, mark_terminal}

elem-remove_first :
    (k j : String) (xs : List String) → elem k (remove_first j xs) ≡ true → elem k xs ≡ true
unfolding elem remove_first
elem-remove_first k j [] h = h
elem-remove_first k j (x ∷ xs) h = ground (arith, elem-remove_first k j xs)

pub elem-evict :
    (k : String) (es ids : List String) → elem k (evict es ids) ≡ true → elem k ids ≡ true
unfolding evict
elem-evict k [] ids h = h
elem-evict k (e ∷ es) ids h =
    ground
      (arith, elem-remove_first k e ids, elem-evict k es (remove_first e ids), elem-evict k es ids)

-- Nothing but the marked id becomes terminal.
pub elem-mark_window :
    (k j : String) (size : ℤ) (ids order : List String)
    → elem k (mark_window size j ids order).0 ≡ true
    → (k ≡ j) ⊎ (elem k ids ≡ true)
unfolding mark_window elem
elem-mark_window k j size ids order h = ground (
  arith,
  elem-append k ids (j ∷ []),
  elem-evict k (take (length (order ++ j ∷ []) - pos_part size) (order ++ j ∷ [])) (ids ++ j ∷ []),
)

-- An id that is neither queued nor granted may become terminal.
pub mark_terminal-Queued :
    {order : List String} (j : String) (s : UserQuotaState)
    → Queued order s
    → has j s.pending ≡ false
    → has j s.reservations ≡ false
    → Queued order (mark_terminal j s)
unfolding mark_terminal
mark_terminal-Queued j s q p r = record {
  pending_unique = q.pending_unique;
  reservations_unique = q.reservations_unique;
  order_distinct = q.order_distinct;
  order_pending = q.order_pending;
  apart = q.apart;
  over_pending = λ k h. elim (elem-mark_window k j _ _ _ h) [
    | inl e ↦ rw e p
    | inr old ↦ q.over_pending k old
  ];
  over_reserved = λ k h. elim (elem-mark_window k j _ _ _ h) [
    | inl e ↦ rw e r
    | inr old ↦ q.over_reserved k old
  ];
  counted = q.counted;
  positive = q.positive;
  keyed = q.keyed;
}
