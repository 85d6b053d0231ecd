-- ===== src/Quota/Terminal.antt =====
-- `_mark_terminal` of workflows/user_quota.py: the bounded window of requests that are over.
use golden_retriever.Prelude.{
  ℕ, ◌-◌, String, List, [], ◌∷◌, ◌++◌, if◌then◌else◌, length, take, drop, elem, remove_first,
}
use golden_retriever.Prelude.Int.{ℤ, pos, pos_part, leb_ℤ}
use golden_retriever.Models.Quota.{UserQuotaState}

-- Each evicted id goes from the list of ids, if it is there.
unfoldable pub evict : List String → List String → List String
evict [] ids = ids
evict (e ∷ es) ids = evict es (if elem e ids then remove_first e ids else ids)

-- The ids and their order, cut to the last `size` entries of the order.
unfoldable pub cut_window : ℕ → List String → List String → List String × List String
unfolding evict
cut_window size ids order =
    let overflow = length order - size in (evict (take overflow order) ids, drop overflow order)

unfoldable pub mark_window : ℤ → String → List String → List String → List String × List String
unfolding cut_window
mark_window size request_id ids order =
    if leb_ℤ size (pos 0)
    then ([], [])
    else if elem request_id ids
    then (ids, order)
    else cut_window (pos_part size) (ids ++ request_id ∷ []) (order ++ request_id ∷ [])

unfoldable pub mark_terminal : String → UserQuotaState → UserQuotaState
mark_terminal request_id s =
    let marked =
      mark_window s.dedup_window_size request_id s.recent_terminal_request_ids
        s.recent_terminal_request_order in
    record s { recent_terminal_request_ids = marked.0; recent_terminal_request_order = marked.1 }
