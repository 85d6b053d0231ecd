-- ===== src/Quota/Window.antt =====
-- Balance and reset boundaries: `apply_quota_observation`, `advance_due_quota_window`,
-- `quota_is_blocked`, `next_quota_timer_delay` and `quota_snapshot`.
use golden_retriever.Prelude.{
  ℕ, ◌+◌, ◌-◌, String, Bool, true, false, not, ◌&&◌, ◌||◌, Option, none, some, leb, if◌then◌else◌,
}
use golden_retriever.Prelude.Int.{ℤ, pos, pos_part, min_ℤ}
use golden_retriever.Dict.{size}
use golden_retriever.Dict.Laws.{is_some}
use golden_retriever.Models.Quota.{QuotaObservation, QuotaSnapshot, UserQuotaState, same_scope}
use golden_retriever.Ids.{Digest, permit_id, remove_prefix}
use golden_retriever.Quota.Requests.{count_message, effective_max_pending}

-- `_later`
unfoldable pub later : Option ℕ → Option ℕ → Option ℕ
later none r = r
later (some a) none = some a
later (some a) (some b) = if leb b a then some a else some b

-- DEFAULT_UNKNOWN_RESET_PROBE_DELAY, in microseconds.
abbrev pub unknown_reset_probe_delay : ℕ
unknown_reset_probe_delay = 60_000_000

-- `max(0, remaining)`, and never above the balance that is known.
abbrev pub lower_balance : Option ℤ → ℤ → ℤ
lower_balance none observed = pos (pos_part observed)
lower_balance (some known) observed = min_ℤ known (pos (pos_part observed))

-- When an exhausted provider may be asked again.
abbrev pub retry_at : QuotaObservation → ℕ → Option ℕ
retry_at o now = elim o.retry_after [
  | some delay ↦ some (now + pos_part delay)
  | none ↦ elim o.reset_at [ none ↦ some (now + unknown_reset_probe_delay) | some _ ↦ none ]
]

-- The three optional headers.
unfoldable pub observe_headers : QuotaObservation → UserQuotaState → UserQuotaState
unfolding later
observe_headers o s = record s {
  configured_limit = elim o.limit [ none ↦ s.configured_limit | some l ↦ some (pos (pos_part l)) ];
  remaining = elim o.remaining [ none ↦ s.remaining | some r ↦ some (lower_balance s.remaining r) ];
  reset_at = elim o.reset_at [ none ↦ s.reset_at | some t ↦ later s.reset_at (some t) ];
}

unfoldable pub apply_quota_observation :
    UserQuotaState → QuotaObservation → ℕ → UserQuotaState × Bool
unfolding observe_headers later
apply_quota_observation s o now =
    let counted = count_message s in
    if same_scope o.quota_scope s.quota_scope
    then (let seen = observe_headers o counted in
        if o.exhausted
        then (
          record seen {
            remaining = some (pos 0);
            blocked_until = later seen.blocked_until (later o.reset_at (retry_at o now));
          },
          true,
        )
        else (seen, true))
    else (counted, false)

-- `value is not None and _not_after(value, now)`
abbrev pub is_due : Option ℕ → ℕ → Bool
is_due none now = false
is_due (some t) now = leb t now

abbrev pub or_else : Option ℕ → ℕ → ℕ
or_else none d = d
or_else (some t) d = t

module _ (digest : Digest) (isoformat : ℕ → String) where
  -- The id of the window that begins at a boundary. `isoformat` writes an instant in UTC.
  unfoldable pub next_window_id : String → ℕ → String
  unfolding remove_prefix permit_id
  next_window_id window boundary =
      remove_prefix "permit/" (permit_id digest window (isoformat boundary))

  -- The rest of `advance_due_quota_window`, once `blocked_until` is normal.
  unfoldable pub settle_window : Bool → Bool → ℕ → UserQuotaState → UserQuotaState × Bool
  unfolding next_window_id later
  settle_window block_due reset_due now s =
      if block_due || reset_due
      then (
        record s {
          quota_window_id = next_window_id s.quota_window_id (
              or_else
                (later (if block_due then s.blocked_until else none)
                  (if reset_due then s.reset_at else none))
                now);
          blocked_until = if block_due then none else s.blocked_until;
          reset_at = if reset_due then none else s.reset_at;
          remaining = s.configured_limit;
        },
        true,
      )
      else (s, false)

  unfoldable pub advance_due_quota_window : UserQuotaState → ℕ → UserQuotaState × Bool
  unfolding settle_window
  advance_due_quota_window s now =
      let reset_due = is_due s.reset_at now in
      if is_due s.blocked_until now && is_some s.reset_at && not reset_due
      then settle_window false reset_due now (record s { blocked_until = s.reset_at })
      else settle_window (is_due s.blocked_until now) reset_due now s

unfoldable pub quota_is_blocked : UserQuotaState → ℕ → Bool
quota_is_blocked s now =
    if s.disabled then true else is_some s.blocked_until && not (is_due s.blocked_until now)

-- `min(candidates)` of the boundaries that are set.
abbrev pub earlier : Option ℕ → Option ℕ → Option ℕ
earlier none r = r
earlier (some a) none = some a
earlier (some a) (some b) = if leb a b then some a else some b

-- `deadline - now`, never below zero: the subtraction on ℕ stops there.
unfoldable pub next_quota_timer_delay : UserQuotaState → ℕ → Option ℕ
next_quota_timer_delay s now = elim (earlier s.blocked_until s.reset_at) [
  | none ↦ none
  | some deadline ↦ some (deadline - now)
]

unfoldable pub quota_snapshot : UserQuotaState → QuotaSnapshot
quota_snapshot s = record {
  quota_scope = s.quota_scope;
  configured_limit = s.configured_limit;
  remaining = s.remaining;
  reset_at = s.reset_at;
  blocked_until = s.blocked_until;
  max_in_flight = s.max_in_flight;
  max_pending_requests = effective_max_pending s;
  in_flight = s.in_flight;
  disabled = s.disabled;
  pending_count = size s.pending;
  reservation_count = size s.reservations;
  quota_window_id = s.quota_window_id;
}
