-- ===== src/Quota/Tests.antt =====
-- A coordinator with two slots and a balance of five, run on a few messages.
use golden_retriever.Prelude.{
  ℕ, String, ◌≡◌, refl, true, false, none, some, List, [], ◌∷◌, arith, str_dec, elem, remove_first,
  sorted, union, drop_ids,
}
use golden_retriever.Prelude.Int.{pos, ◌-ℤ◌, ℤ_dec}
use golden_retriever.Dict
use golden_retriever.Dict.{has, get, put}
use golden_retriever.Dict.Laws.{has-empty, has-get}
use golden_retriever.Models.Operations.{WorkClass}
use golden_retriever.Models.Quota.{
  same_scope, QuotaScope, PermitRequest, PermitStatus, PermitReservation, UserQuotaState,
}
use golden_retriever.Ids.{Digest}
use native.Mathlib.Decide.{ℕ_discrete}
use golden_retriever.Quota.Terminal.{cut_window, evict, mark_terminal, mark_window}
use golden_retriever.Quota.Requests.{is_known, apply_permit_request, permit_request_denial}
use golden_retriever.Quota.Window.{quota_is_blocked, advance_due_quota_window}
use golden_retriever.Quota.Grant.{grant_available_permits}
use golden_retriever.Quota.Compact.{
  compact_quota_state, collect, granted_only, mark_ended, repair_order,
}
use golden_retriever.Quota.Coordinator.{
  Message, request, cancel, Workflow, receive, initialize, wake, apply_message,
}
use golden_retriever.Quota.Invariant.{WellFormed}
use golden_retriever.Quota.Invariant.Compact.{Restored}
use golden_retriever.Quota.Invariant.Ended.{Compacted, compact_quota_state-Compacted}
use golden_retriever.Quota.Invariant.Messages.{
  Reach, here, next, signal, round, initialize-WellFormed, Reach-WellFormed,
}
use golden_retriever.Quota.Fairness.{
  ids_of, Splits, SettledRound, grant_available_permits_fifo, grant_available_permits-IsSettled,
}
use golden_retriever.Quota.Stale.{Pops, grant_available_permits-Pops}
use golden_retriever.Quota.Bounds.{Spends, grant_available_permits-Spends}

program : Unit {0}
unfolding initialize grant_available_permits apply_message advance_due_quota_window quota_is_blocked
    str_dec ℤ_dec ◌-ℤ◌ ℕ_discrete elem remove_first sorted drop_ids union same_scope is_known
    apply_permit_request permit_request_denial compact_quota_state cut_window evict mark_terminal
    mark_window collect granted_only mark_ended repair_order has get put Dict.size Dict.insert
    Dict.lookup Dict.remove Dict.erase Dict.empty
program = tt

abbrev digest : Digest
digest namespace parts = "abcdefghijklmnopqrstuvwxyz234567"

abbrev isoformat : ℕ → String
isoformat t = "2026-01-01T00:00:00+00:00"

abbrev scope : QuotaScope
scope = record { provider = "drive"; credential_key = "key"; quota_class = "default" }

abbrev start : UserQuotaState
start = record {
  quota_scope = scope;
  configured_limit = some (pos 5);
  remaining = some (pos 5);
  reset_at = none;
  blocked_until = none;
  max_in_flight = pos 2;
  max_pending_requests = pos 350;
  in_flight = 0;
  disabled = false;
  pending = Dict.empty;
  pending_order = [];
  reservations = Dict.empty;
  recent_terminal_request_ids = [];
  recent_terminal_request_order = [];
  quota_window_id = "initial";
  processed_message_count = 0;
  dedup_window_size = pos 2000;
  continue_as_new_message_count = pos 10000;
}

abbrev permit : String → ℕ → PermitRequest
permit k cost = record {
  request_id = k;
  requester_workflow_id = "sync";
  store_key = "store";
  lifecycle_generation = pos 0;
  quota_scope = scope;
  cost = pos cost;
  work_class = WorkClass.incremental;
  requested_at = none;
}

abbrev three : List Message
three = request (permit "a" 1) ∷ request (permit "b" 3) ∷ request (permit "c" 1) ∷ []

start-Restored : Restored start
unfolding Dict.empty elem
start-Restored = record {
  pending_unique = tt;
  reservations_unique = tt;
  apart = λ k h. has-empty PermitReservation k;
  over_pending = λ k h. has-empty PermitRequest k;
  over_reserved = λ k h. has-empty PermitReservation k;
  positive = λ k r h.
      ground (arith, has-empty PermitRequest k, has-get k (Dict.empty {V = PermitRequest}));
  keyed = λ k r h.
      ground (arith, has-empty PermitRequest k, has-get k (Dict.empty {V = PermitRequest}));
}

abbrev queued : Workflow
queued = initialize start three

queued-WellFormed : WellFormed queued.state
queued-WellFormed = initialize-WellFormed start three start-Restored

-- Two slots: the first two requests are granted, in order.
queued_grants : (grant_available_permits digest isoformat queued.state 7).0.pending_order ≡ "c" ∷ []
unfolding program
queued_grants = refl

abbrev reservation : String → PermitStatus → PermitReservation
reservation k status = record {
  request_id = k;
  permit_id = "permit";
  requester_workflow_id = "sync";
  cost = pos 1;
  quota_window_id = "initial";
  granted_at = some 3;
  status = status;
  store_key = "store";
  lifecycle_generation = pos 0;
}

-- One reservation is held and one has ended; the queue order and the slot count are wrong.
abbrev disordered : UserQuotaState
disordered = record start {
  in_flight = 7;
  pending = record { entries = ("c", permit "c" 1) ∷ [] };
  pending_order = "x" ∷ "c" ∷ "c" ∷ [];
  reservations = record {
    entries =
        ("a", reservation "a" PermitStatus.granted)
        ∷ ("d", reservation "d" PermitStatus.completed)
        ∷ [];
  };
}

only_c : (k : String) → has k disordered.pending ≡ true → k ≡ "c"
unfolding has elem
only_c k h = ground arith

c_free : has "c" disordered.reservations ≡ false
unfolding has elem str_dec
c_free = refl

a_and_d_differ : elem "a" ("d" ∷ []) ≡ false
unfolding elem str_dec
a_and_d_differ = refl

disordered-Restored : Restored disordered
unfolding get elem Dict.lookup
disordered-Restored = record {
  pending_unique = (refl, tt);
  reservations_unique = (a_and_d_differ, (refl, tt));
  apart = λ k h. rw (only_c k h) c_free;
  over_pending = λ k h. absurd (ground arith);
  over_reserved = λ k h. absurd (ground arith);
  positive = λ k r h. ground arith;
  keyed = λ k r h. ground arith;
}

disordered_compacts : (compact_quota_state disordered).in_flight ≡ 1
unfolding program
disordered_compacts = refl

disordered_ends : (compact_quota_state disordered).recent_terminal_request_ids ≡ "d" ∷ []
unfolding program
disordered_ends = refl

compact_quota_state-Compacted_example : Compacted disordered (compact_quota_state disordered)
compact_quota_state-Compacted_example = compact_quota_state-Compacted disordered disordered-Restored

abbrev history : Reach digest isoformat queued (
    receive
      (cancel (record { request_id = "a"; reason = none }))
      (wake digest isoformat 7 queued).0)
history = next (next here (round 7)) (signal (cancel (record { request_id = "a"; reason = none })))

Reach-WellFormed_example :
    WellFormed
      (receive
        (cancel (record { request_id = "a"; reason = none }))
        (wake digest isoformat 7 queued).0).state
Reach-WellFormed_example = Reach-WellFormed digest isoformat history queued-WellFormed

grant_available_permits_fifo_example :
    Splits queued.state.pending_order (grant_available_permits digest isoformat queued.state 7)
grant_available_permits_fifo_example =
    grant_available_permits_fifo digest isoformat 7 queued.state queued-WellFormed

-- The first id of the queue has no request any more.
abbrev stale : UserQuotaState
stale = record queued.state { pending_order = "gone" ∷ "a" ∷ "b" ∷ "c" ∷ [] }

stale_grants : ids_of (grant_available_permits digest isoformat stale 7).1 ≡ "a" ∷ "b" ∷ []
unfolding program
stale_grants = refl

grant_available_permits-Pops_example :
    Pops
      (λ k. has k stale.pending)
      stale.pending_order
      (grant_available_permits digest isoformat stale 7)
grant_available_permits-Pops_example = grant_available_permits-Pops digest isoformat 7 stale

grant_available_permits-IsSettled_example :
    SettledRound 7
      (advance_due_quota_window digest isoformat queued.state 7).0
      (grant_available_permits digest isoformat queued.state 7)
grant_available_permits-IsSettled_example =
    grant_available_permits-IsSettled digest isoformat 7 queued.state

grant_available_permits-Spends_example :
    Spends
      (advance_due_quota_window digest isoformat queued.state 7).0
      (grant_available_permits digest isoformat queued.state 7)
grant_available_permits-Spends_example =
    grant_available_permits-Spends digest 7 isoformat queued.state
