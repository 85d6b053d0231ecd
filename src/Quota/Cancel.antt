-- ===== src/Quota/Cancel.antt =====
-- The handlers that end requests: `apply_cancel_permit`, `apply_cancel_generation_permits`,
-- `apply_permit_completed`, and `apply_disable_scope`.
use golden_retriever.Prelude.{
  ℕ, ◌-◌, String, ite, Bool, true, false, ◌&&◌, none, some, List, [], ◌∷◌, ◌==◌, if◌then◌else◌,
  length, is_nil, elem, without, sorted, union, drop_ids,
}
use golden_retriever.Prelude.Int.{ℤ, ℤ_dec}
use golden_retriever.Dict.{get, remove}
use golden_retriever.Models.Quota.{
  CancelPermit, CancelGenerationPermits, PermitCompleted, PermitRequest, PermitReservation,
  UserQuotaState,
}
use golden_retriever.Quota.Requests.{count_message}
use golden_retriever.Quota.Terminal.{mark_terminal}

-- A slot is given back; the granted cost stays spent.
abbrev pub release_slot : String → UserQuotaState → UserQuotaState
release_slot k s = record s { reservations = remove k s.reservations; in_flight = s.in_flight - 1 }

abbrev pub drop_pending : String → UserQuotaState → UserQuotaState
drop_pending k s = record s {
  pending = remove k s.pending;
  pending_order = without k s.pending_order;
}

-- The branch on the popped reservation.
unfoldable pub cancel_granted : String → UserQuotaState → UserQuotaState × Bool
cancel_granted k s = elim (get k s.reservations) [
  | none ↦ if k == "" then (s, false) else (mark_terminal k s, true)
  | some _ ↦ (mark_terminal k (release_slot k s), true)
]

unfoldable pub apply_cancel_permit : UserQuotaState → CancelPermit → UserQuotaState × Bool
unfolding cancel_granted
apply_cancel_permit s c =
    let counted = count_message s in
    if elem c.request_id s.recent_terminal_request_ids
    then (counted, false)
    else elim (get c.request_id s.pending) [
      | none ↦ cancel_granted c.request_id counted
      | some _ ↦ (mark_terminal c.request_id (drop_pending c.request_id counted), true)
    ]

abbrev pub owns : CancelGenerationPermits → String → ℤ → Bool
owns c store generation =
    store == c.store_key && ite (ℤ_dec generation c.lifecycle_generation) true false

unfoldable pub pending_of : CancelGenerationPermits → List (String × PermitRequest) → List String
pending_of c [] = []
pending_of c ((k, r) ∷ l) =
    let rest = pending_of c l in
    if owns c r.store_key r.lifecycle_generation then k ∷ rest else rest

unfoldable pub reserved_of :
    CancelGenerationPermits → List (String × PermitReservation) → List String
reserved_of c [] = []
reserved_of c ((k, r) ∷ l) =
    let rest = reserved_of c l in
    if owns c r.store_key r.lifecycle_generation then k ∷ rest else rest

unfoldable pub canceled_ids : UserQuotaState → CancelGenerationPermits → List String
unfolding union pending_of reserved_of
canceled_ids s c = union (pending_of c s.pending.entries) (reserved_of c s.reservations.entries)

-- One round of the loop over the sorted ids.
unfoldable pub cancel_one : String → UserQuotaState → UserQuotaState
cancel_one k s =
    let popped = record s { pending = remove k s.pending } in
    mark_terminal k (elim (get k s.reservations) [ none ↦ popped | some _ ↦ release_slot k popped ])

unfoldable pub cancel_all : List String → UserQuotaState → UserQuotaState
unfolding cancel_one
cancel_all [] s = s
cancel_all (k ∷ ks) s = cancel_all ks (cancel_one k s)

unfoldable pub apply_cancel_generation_permits :
    UserQuotaState → CancelGenerationPermits → UserQuotaState × ℕ
unfolding canceled_ids cancel_all drop_ids
apply_cancel_generation_permits s c =
    let counted = count_message s in
    let ids = canceled_ids s c in
    let swept = cancel_all (sorted ids) counted in
    if is_nil ids
    then (counted, 0)
    else (record swept { pending_order = drop_ids ids swept.pending_order }, length ids)

unfoldable pub apply_permit_completed : UserQuotaState → PermitCompleted → UserQuotaState × Bool
apply_permit_completed s c =
    let counted = count_message s in
    if elem c.request_id s.recent_terminal_request_ids
    then (counted, false)
    else elim (get c.request_id s.reservations) [
      | none ↦ (counted, false)
      | some r ↦
          if r.permit_id == c.permit_id
          then (mark_terminal c.request_id (release_slot c.request_id counted), true)
          else (counted, false)
    ]

unfoldable pub apply_disable_scope : UserQuotaState → UserQuotaState × Bool
apply_disable_scope s =
    let counted = count_message s in
    if s.disabled then (counted, false) else (record counted { disabled = true }, true)
