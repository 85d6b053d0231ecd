-- ===== src/Quota/Grant.antt =====
-- `grant_available_permits`: the FIFO prefix that balance and concurrency allow.
use golden_retriever.Prelude.{
  ℕ, ◌+◌, String, Bool, true, ◌||◌, Option, none, some, List, [], ◌∷◌, ltb, leb, if◌then◌else◌,
}
use golden_retriever.Prelude.Int.{ℤ, pos_part, ◌-ℤ◌, leb_ℤ}
use golden_retriever.Dict.{get, put, remove}
use golden_retriever.Models.Quota.{
  PermitGrant, PermitRequest, PermitReservation, PermitStatus, UserQuotaState,
}
use golden_retriever.Ids.{Digest, permit_id}
use golden_retriever.Quota.Window.{advance_due_quota_window, quota_is_blocked}

-- `not (remaining is not None and remaining < cost)`
abbrev pub affords : Option ℤ → ℤ → Bool
affords none cost = true
affords (some balance) cost = leb_ℤ cost balance

abbrev pub charge : Option ℤ → ℤ → Option ℤ
charge none cost = none
charge (some balance) cost = some (balance -ℤ cost)

module _ (digest : Digest) where
  abbrev pub reservation_for : UserQuotaState → ℕ → String → PermitRequest → PermitReservation
  reservation_for s now k r = record {
    request_id = k;
    permit_id = permit_id digest k s.quota_window_id;
    requester_workflow_id = r.requester_workflow_id;
    cost = r.cost;
    quota_window_id = s.quota_window_id;
    granted_at = some now;
    status = PermitStatus.granted;
    store_key = r.store_key;
    lifecycle_generation = r.lifecycle_generation;
  }

  -- The state after one grant, but for `pending_order`, which the loop carries.
  unfoldable pub reserve : ℕ → String → PermitRequest → UserQuotaState → UserQuotaState
  reserve now k r s = record s {
    pending = remove k s.pending;
    reservations = put k (reservation_for s now k r) s.reservations;
    in_flight = s.in_flight + 1;
    remaining = charge s.remaining r.cost;
  }

  unfoldable pub grant_for : UserQuotaState → String → PermitRequest → PermitGrant
  grant_for s k r = record {
    request_id = k;
    permit_id = permit_id digest k s.quota_window_id;
    quota_scope = s.quota_scope;
    quota_window_id = s.quota_window_id;
    cost = r.cost;
  }

  -- The list is `state.pending_order` at the top of the loop, and is written back where it ends.
  unfoldable pub grant_loop : ℕ → List String → UserQuotaState → UserQuotaState × List PermitGrant
  unfolding reserve grant_for
  grant_loop now [] s = (record s { pending_order = [] }, [])
  grant_loop now (k ∷ order) s =
      let stopped : UserQuotaState × List PermitGrant =
        (record s { pending_order = k ∷ order }, []) in
      if ltb s.in_flight (pos_part s.max_in_flight)
      then elim (get k s.pending) [
        | none ↦ grant_loop now order s
        | some r ↦
            let rest = grant_loop now order (reserve now k r s) in
            if affords s.remaining r.cost then (rest.0, grant_for s k r ∷ rest.1) else stopped
      ]
      else stopped

  unfoldable pub grant_available_permits :
      (ℕ → String) → UserQuotaState → ℕ → UserQuotaState × List PermitGrant
  unfolding grant_loop
  grant_available_permits isoformat s now =
      let current = (advance_due_quota_window digest isoformat s now).0 in
      if quota_is_blocked current now || leb (pos_part current.max_in_flight) 0
      then (current, [])
      else grant_loop now current.pending_order current
