-- ===== src/Quota/Invariant/Ended.antt =====
-- What `compact_quota_state` makes of the reservations of a restored state.
use golden_retriever.Prelude.{
  ℕ, ◌+◌, ◌-◌, ◌≤◌, suc, String, ◌≡◌, refl, ◌⊎◌, inl, inr, true, false, Option, none, some, List,
  [], ◌∷◌, ◌++◌, arith, elem, elem-append, length, length-append, length-drop, if_cases, str_dec,
  if◌then◌else◌, Distinct, sym, ap, ◌∙◌, leb, Bool-cases,
}
use golden_retriever.Prelude.Int.{ℤ, pos_part}
use golden_retriever.Dict.{lookup, get, keys_of, size}
use golden_retriever.Models.Quota.{PermitReservation, PermitStatus, UserQuotaState}
use golden_retriever.Quota.Terminal.{evict, cut_window, mark_window, mark_terminal}
use golden_retriever.Quota.Compact.{is_granted, granted_only, mark_ended, compact_quota_state}
use golden_retriever.Quota.Invariant.{WellFormed}
use golden_retriever.Quota.Invariant.Compact.{
  Restored, compact_quota_state-WellFormed, pending-mark_ended,
}

-- The reservation, where its status is GRANTED.
abbrev pub if_granted : PermitStatus → PermitReservation → Option PermitReservation
if_granted PermitStatus.granted r = some r
if_granted _ r = none

abbrev pub still_held : Option PermitReservation → Option PermitReservation
still_held none = none
still_held (some r) = if_granted r.status r

if_granted_cases :
    (r : PermitReservation) → if_granted r.status r ≡ (if is_granted r then some r else none)
if_granted_cases r = ground arith

lookup-absent :
    (k : String) (l : List (String × PermitReservation))
    → elem k (keys_of l) ≡ false
    → lookup k l ≡ none
unfolding lookup elem
lookup-absent k [] h = refl
lookup-absent k (e ∷ l) h = ground (arith, lookup-absent k l)

lookup-granted_only :
    (k : String) (l : List (String × PermitReservation))
    → Distinct (keys_of l)
    → lookup k (granted_only l) ≡ still_held (lookup k l)
unfolding lookup granted_only
lookup-granted_only k [] d = refl
lookup-granted_only k ((j, r) ∷ l) d =
    ground (arith, if_granted_cases r, lookup-granted_only k l d.1, lookup-absent j l d.0)

-- A window with room for its order loses nothing.
cut_window_room :
    (limit : ℕ) (ids order : List String)
    → length order ≤ limit
    → cut_window limit ids order ≡ (ids, order)
unfolding cut_window evict
cut_window_room limit ids order h =
    let none_over : length order - limit ≡ 0 = omega arith in rw none_over refl

-- An id that is marked in a window with room for it is there, and so are the ids before it.
mark_window_room :
    (k j : String) (limit : ℤ) (ids order : List String)
    → suc (length order) ≤ pos_part limit
    → (k ≡ j) ⊎ (elem k ids ≡ true)
    → (elem k (mark_window limit j ids order).0 ≡ true)
      × (length (mark_window limit j ids order).1 ≤ suc (length order))
unfolding mark_window elem
mark_window_room k j limit ids order room h =
    let longer : length (order ++ j ∷ []) ≡ suc (length order) =
      omega (arith, length-append order (j ∷ [])) in
    let whole =
      cut_window_room (pos_part limit) (ids ++ j ∷ []) (order ++ j ∷ []) (omega (arith, longer)) in
    ground (arith, whole, longer, elem-append k ids (j ∷ []))

-- The marks of the reservations that have ended, in a window with room for all of them.
module _ (k : String) where
  elem-mark_ended_kept :
      (l : List (String × PermitReservation)) (s : UserQuotaState)
      → length s.recent_terminal_request_order + length l ≤ pos_part s.dedup_window_size
      → elem k s.recent_terminal_request_ids ≡ true
      → elem k (mark_ended l s).recent_terminal_request_ids ≡ true
  unfolding mark_ended mark_terminal
  elem-mark_ended_kept [] s room h = h
  elem-mark_ended_kept ((j, r) ∷ l) s room h =
      let marked =
        mark_window_room k j s.dedup_window_size s.recent_terminal_request_ids
          s.recent_terminal_request_order (omega arith) (inr h) in
      if_cases (λ x. elem k (mark_ended l x).recent_terminal_request_ids ≡ true) (is_granted r) s
        (mark_terminal j s) (λ _. elem-mark_ended_kept l s (omega arith) h)
        (λ _. elem-mark_ended_kept l (mark_terminal j s) (omega (arith, marked.1)) marked.0)

  elem-mark_ended_new :
      (l : List (String × PermitReservation)) (s : UserQuotaState) (r : PermitReservation)
      → length s.recent_terminal_request_order + length l ≤ pos_part s.dedup_window_size
      → lookup k l ≡ some r
      → is_granted r ≡ false
      → elem k (mark_ended l s).recent_terminal_request_ids ≡ true
  unfolding mark_ended mark_terminal lookup
  elem-mark_ended_new [] s r room e h = absurd (ground arith)
  elem-mark_ended_new ((j, q) ∷ l) s r room e h = elim (str_dec j k) [
    | yes same ↦
        let marked =
          mark_window_room k j s.dedup_window_size s.recent_terminal_request_ids
            s.recent_terminal_request_order (omega arith) (inl (sym same)) in
        if_cases (λ x. elem k (mark_ended l x).recent_terminal_request_ids ≡ true) (is_granted q) s
          (mark_terminal j s) (λ held. absurd (ground arith))
          (λ _. elem-mark_ended_kept l (mark_terminal j s) (omega (arith, marked.1)) marked.0)
    | no away ↦
        let later : lookup k l ≡ some r = ground (arith, e) in
        let marked =
          mark_window_room j j s.dedup_window_size s.recent_terminal_request_ids
            s.recent_terminal_request_order (omega arith) (inl refl) in
        if_cases (λ x. elem k (mark_ended l x).recent_terminal_request_ids ≡ true) (is_granted q) s
          (mark_terminal j s) (λ _. elem-mark_ended_new l s r (omega arith) later h)
          (λ _. elem-mark_ended_new l (mark_terminal j s) r (omega (arith, marked.1)) later h)
  ]

-- What compaction makes of a restored state `s`.
pub record Compacted (s s' : UserQuotaState) : Type 0 where
  pub well_formed : WellFormed s'
  -- The queued requests stay.
  pub queued : s'.pending ≡ s.pending
  -- The reservations are those of `s` whose status is GRANTED, unchanged.
  pub held : (k : String) → get k s'.reservations ≡ still_held (get k s.reservations)
  -- The others are terminal, unless the window has no room for all of them.
  pub over :
      (k : String) (r : PermitReservation)
      → get k s.reservations ≡ some r
      → (r.status ≡ PermitStatus.granted)
        ⊎ (elem k s'.recent_terminal_request_ids ≡ true)
        ⊎ (suc (pos_part s.dedup_window_size)
            ≤ length s.recent_terminal_request_order + size s.reservations)
        ⊎ (length s'.recent_terminal_request_order ≡ pos_part s.dedup_window_size)

-- A cut keeps every id, or leaves a window that is full.
cut_window_cases :
    (limit : ℕ) (ids order : List String)
    → ((cut_window limit ids order).0 ≡ ids) ⊎ (length (cut_window limit ids order).1 ≡ limit)
cut_window_cases limit ids order = elim (Bool-cases (leb (length order) limit)) [
  | inl fits ↦ inl (ap (λ x. x.0) (cut_window_room limit ids order (ground arith)))
  | inr over ↦ inr (unfold cut_window in ground (arith, length-drop (length order - limit) order))
]

granted_of : (r : PermitReservation) → is_granted r ≡ true → r.status ≡ PermitStatus.granted
granted_of r h = ground arith

le_or_lt : (m n : ℕ) → (m ≤ n) ⊎ (suc n ≤ m)
le_or_lt m n = elim (Bool-cases (leb m n)) [
  | inl h ↦ inl (ground arith)
  | inr h ↦ inr (ground arith)
]

over-compact_quota_state :
    (s : UserQuotaState) (k : String) (r : PermitReservation)
    → get k s.reservations ≡ some r
    → (r.status ≡ PermitStatus.granted)
      ⊎ (elem k (compact_quota_state s).recent_terminal_request_ids ≡ true)
      ⊎ (suc (pos_part s.dedup_window_size)
          ≤ length s.recent_terminal_request_order + size s.reservations)
      ⊎ (length (compact_quota_state s).recent_terminal_request_order
          ≡ pos_part s.dedup_window_size)
unfolding compact_quota_state get size
over-compact_quota_state s k r e = elim (Bool-cases (is_granted r)) [
  | inl held ↦ inl (granted_of r held)
  | inr ended ↦ elim (le_or_lt _ (pos_part s.dedup_window_size)) [
    | inl room ↦
        let marked = elem-mark_ended_new k s.reservations.entries s r room e ended in
        elim (cut_window_cases (pos_part s.dedup_window_size) _ _) [
          | inl whole ↦ inr (inl (ap (elem k) whole ∙ marked))
          | inr full ↦ inr (inr (inr full))
        ]
    | inr narrow ↦ inr (inr (inl narrow))
  ]
]

-- Compaction of a restored state (its dicts hold each key once, no id is two of queued, reserved
-- and terminal, and the queued requests have positive costs and their own ids) leaves a
-- well-formed state with the same queued requests, whose reservations are exactly the GRANTED ones
-- of before, unchanged. Each of the others is in the terminal window, unless that is full
-- afterwards, or was smaller than its order and all the reservations together.
pub compact_quota_state-Compacted :
    (s : UserQuotaState) → Restored s → Compacted s (compact_quota_state s)
unfolding compact_quota_state get
compact_quota_state-Compacted s q = record {
  well_formed = compact_quota_state-WellFormed s q;
  queued = pending-mark_ended s.reservations.entries s;
  held = λ k. lookup-granted_only k s.reservations.entries q.reservations_unique;
  over = over-compact_quota_state s;
}
