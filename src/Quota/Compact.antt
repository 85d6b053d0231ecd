-- ===== src/Quota/Compact.antt =====
-- `compact_quota_state`: the normal form before a query or Continue-As-New.
use golden_retriever.Prelude.{
  String, Bool, true, false, not, ◌&&◌, List, [], ◌∷◌, ◌++◌, if◌then◌else◌, elem, sorted, union,
  drop_ids,
}
use golden_retriever.Prelude.Int.{pos_part}
use golden_retriever.Dict.{Dict, keys, has, size}
use golden_retriever.Models.Quota.{PermitReservation, PermitStatus, UserQuotaState}
use golden_retriever.Quota.Terminal.{mark_terminal, cut_window}

abbrev pub is_granted : PermitReservation → Bool
is_granted r = elim r.status [ PermitStatus.granted ↦ true | _ ↦ false ]

unfoldable pub granted_only : List (String × PermitReservation) → List (String × PermitReservation)
granted_only [] = []
granted_only ((k, r) ∷ l) =
    let rest = granted_only l in if is_granted r then (k, r) ∷ rest else rest

unfoldable pub mark_ended : List (String × PermitReservation) → UserQuotaState → UserQuotaState
mark_ended [] s = s
mark_ended ((k, r) ∷ l) s = mark_ended l (if is_granted r then s else mark_terminal k s)

-- The entries that pass the test, each once, in order.
unfoldable pub collect : (String → Bool) → List String → List String → List String
collect keeps seen [] = []
collect keeps seen (x ∷ xs) = elim (keeps x && not (elem x seen)) [
  | true ↦ x ∷ collect keeps (x ∷ seen) xs
  | false ↦ collect keeps seen xs
]

-- The recorded order, repaired by the sorted tail of `members` that it lacks.
unfoldable pub repair_order : (String → Bool) → List String → List String → List String
unfolding collect
repair_order keeps order members =
    let compact = collect keeps [] order in compact ++ sorted (drop_ids compact members)

unfoldable pub compact_quota_state : UserQuotaState → UserQuotaState
unfolding granted_only mark_ended repair_order
compact_quota_state s =
    let marked = mark_ended s.reservations.entries s in
    let active : Dict PermitReservation = record {
      entries = granted_only s.reservations.entries;
    } in
    let ids = marked.recent_terminal_request_ids in
    let window =
      cut_window (pos_part s.dedup_window_size) ids
        (repair_order (λ k. elem k ids) marked.recent_terminal_request_order (union [] ids)) in
    record marked {
      reservations = active;
      in_flight = size active;
      pending_order = repair_order (λ k. has k s.pending) s.pending_order (keys s.pending);
      recent_terminal_request_ids = window.0;
      recent_terminal_request_order = window.1;
    }
