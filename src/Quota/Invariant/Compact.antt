-- ===== src/Quota/Invariant/Compact.antt =====
-- The invariant and `compact_quota_state`, of a state that an earlier run left.
use golden_retriever.Prelude.{
  ℕ, String, ◌≡◌, refl, ◌⊎◌, inl, Bool, true, false, not, ◌&&◌, some, List, [], ◌∷◌, arith, elem,
  elem-append, Distinct, Distinct-append, Distinct-sorted, sorted, elem-sorted, drop_ids,
  elem-drop_ids, Distinct-drop_ids, length, take, ◌-◌,
}
use golden_retriever.Prelude.Int.{pos, ◌≤ℤ◌}
use golden_retriever.Dict.{Dict, has, get, keys, keys_of}
use golden_retriever.Dict.Laws.{Unique}
use golden_retriever.Models.Quota.{PermitRequest, PermitReservation, UserQuotaState}
use golden_retriever.Quota.Terminal.{mark_terminal, cut_window}
use golden_retriever.Quota.Compact.{
  granted_only, mark_ended, collect, repair_order, compact_quota_state,
}
use golden_retriever.Quota.Invariant.{WellFormed}
use golden_retriever.Quota.Invariant.Terminal.{elem-mark_window, elem-evict}

elem-collect :
    (keeps : String → Bool) (j : String) (seen xs : List String)
    → elem j (collect keeps seen xs) ≡ (keeps j && not (elem j seen) && elem j xs)
unfolding collect elem
elem-collect keeps j seen [] = ground arith
elem-collect keeps j seen (x ∷ xs) =
    ground (arith, elem-collect keeps j (x ∷ seen) xs, elem-collect keeps j seen xs)

Distinct-collect :
    (keeps : String → Bool) (seen xs : List String) → Distinct (collect keeps seen xs)
unfolding collect elem
Distinct-collect keeps seen [] = tt
Distinct-collect keeps seen (x ∷ xs) = ground (
  arith,
  elem-collect keeps x (x ∷ seen) xs,
  Distinct-collect keeps (x ∷ seen) xs,
  Distinct-collect keeps seen xs,
)

module _ (keeps : String → Bool) (order members : List String)
    (all : (j : String) → elem j members ≡ keeps j) where
  -- The repaired order holds exactly the members.
  pub elem-repair_order : (j : String) → elem j (repair_order keeps order members) ≡ keeps j
  unfolding repair_order elem
  elem-repair_order j =
      let compact = collect keeps [] order in
      ground (
        arith,
        elem-append j compact (sorted (drop_ids compact members)),
        elem-sorted j (drop_ids compact members),
        elem-drop_ids j compact members,
        elem-collect keeps j [] order,
        all j,
      )

  pub Distinct-repair_order : Distinct members → Distinct (repair_order keeps order members)
  unfolding repair_order
  Distinct-repair_order d =
      let compact = collect keeps [] order in
      Distinct-append compact (sorted (drop_ids compact members)) (Distinct-collect keeps [] order)
        (Distinct-sorted (drop_ids compact members) (Distinct-drop_ids compact members d))
        (λ k h.
          ground (arith, elem-sorted k (drop_ids compact members), elem-drop_ids k compact members))

elem-granted_only :
    (k : String) (l : List (String × PermitReservation))
    → elem k (keys_of (granted_only l)) ≡ true
    → elem k (keys_of l) ≡ true
unfolding granted_only elem
elem-granted_only k [] h = h
elem-granted_only k (e ∷ l) h = ground (arith, elem-granted_only k l)

Distinct-granted_only :
    (l : List (String × PermitReservation))
    → Distinct (keys_of l)
    → Distinct (keys_of (granted_only l))
unfolding granted_only
Distinct-granted_only [] d = tt
Distinct-granted_only (e ∷ l) d =
    ground (arith, elem-granted_only e.0 l, Distinct-granted_only l d.1)

-- What becomes terminal was reserved, and is reserved no more.
elem-mark_ended :
    (k : String) (l : List (String × PermitReservation)) (s : UserQuotaState)
    → Distinct (keys_of l)
    → elem k (mark_ended l s).recent_terminal_request_ids ≡ true
    → (elem k s.recent_terminal_request_ids ≡ true)
      ⊎ ((elem k (keys_of l) ≡ true) × (elem k (keys_of (granted_only l)) ≡ false))
unfolding mark_ended granted_only elem mark_terminal
elem-mark_ended k [] s d h = inl h
elem-mark_ended k (e ∷ l) s d h = ground (
  arith,
  elem-mark_ended k l s d.1,
  elem-mark_ended k l (mark_terminal e.0 s) d.1,
  elem-granted_only e.0 l,
  elem-mark_window k e.0 s.dedup_window_size s.recent_terminal_request_ids
      s.recent_terminal_request_order,
)

pub pending-mark_ended :
    (l : List (String × PermitReservation)) (s : UserQuotaState)
    → (mark_ended l s).pending ≡ s.pending
unfolding mark_ended mark_terminal
pending-mark_ended [] s = refl
pending-mark_ended (e ∷ l) s =
    ground (arith, pending-mark_ended l s, pending-mark_ended l (mark_terminal e.0 s))

-- What a restored state promises: all of `WellFormed` but the queue order and the count.
pub record Restored (s : UserQuotaState) : Type 0 where
  pub pending_unique : Unique s.pending
  pub reservations_unique : Unique s.reservations
  pub apart : (k : String) → has k s.pending ≡ true → has k s.reservations ≡ false
  pub over_pending :
      (k : String) → elem k s.recent_terminal_request_ids ≡ true → has k s.pending ≡ false
  pub over_reserved :
      (k : String) → elem k s.recent_terminal_request_ids ≡ true → has k s.reservations ≡ false
  pub positive : (k : String) (r : PermitRequest) → get k s.pending ≡ some r → pos 1 ≤ℤ r.cost
  pub keyed : (k : String) (r : PermitRequest) → get k s.pending ≡ some r → r.request_id ≡ k

-- The reservations that compaction keeps, as a dict.
abbrev active : UserQuotaState → Dict PermitReservation
active s = record { entries = granted_only s.reservations.entries }

has-active :
    (k : String) (s : UserQuotaState) → has k (active s) ≡ true → has k s.reservations ≡ true
unfolding has
has-active k s h = elem-granted_only k s.reservations.entries h

elem-cut_window :
    (k : String) (limit : ℕ) (ids order : List String)
    → elem k (cut_window limit ids order).0 ≡ true
    → elem k ids ≡ true
unfolding cut_window
elem-cut_window k limit ids order h = elem-evict k (take (length order - limit) order) ids h

-- An id that is over after compaction was over before, or its reservation has ended.
over-compact :
    (k : String) (s : UserQuotaState)
    → Unique s.reservations
    → elem k (compact_quota_state s).recent_terminal_request_ids ≡ true
    → (elem k s.recent_terminal_request_ids ≡ true)
      ⊎ ((has k s.reservations ≡ true) × (has k (active s) ≡ false))
unfolding compact_quota_state has
over-compact k s u h = elem-mark_ended k s.reservations.entries s u (elem-cut_window k _ _ _ h)

pub compact_quota_state-WellFormed :
    (s : UserQuotaState) → Restored s → WellFormed (compact_quota_state s)
unfolding compact_quota_state
compact_quota_state-WellFormed s q =
    let same = pending-mark_ended s.reservations.entries s in
    let members : (k : String) → elem k (keys s.pending) ≡ has k s.pending =
      unfold has in λ k. refl in
    record {
      pending_unique = rw same q.pending_unique;
      reservations_unique = Distinct-granted_only s.reservations.entries q.reservations_unique;
      order_distinct =
          Distinct-repair_order (λ k. has k s.pending) s.pending_order (keys s.pending) members
            q.pending_unique;
      order_pending = λ k.
          rw same
            (elem-repair_order (λ k. has k s.pending) s.pending_order (keys s.pending) members k);
      apart = λ k. rw same (λ h. ground (arith, has-active k s, q.apart k h));
      over_pending = λ k h.
          rw same
            (ground (arith, over-compact k s q.reservations_unique h, q.over_pending k, q.apart k));
      over_reserved = λ k h.
          ground
            (arith, over-compact k s q.reservations_unique h, q.over_reserved k, has-active k s);
      counted = refl;
      positive = λ k r. rw same (q.positive k r);
      keyed = λ k r. rw same (q.keyed k r);
    }

pub WellFormed-Restored : (s : UserQuotaState) → WellFormed s → Restored s
WellFormed-Restored s q = record {
  pending_unique = q.pending_unique;
  reservations_unique = q.reservations_unique;
  apart = q.apart;
  over_pending = q.over_pending;
  over_reserved = q.over_reserved;
  positive = q.positive;
  keyed = q.keyed;
}
