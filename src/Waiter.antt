-- ===== src/Waiter.antt =====
-- common/quota_waiter.py: `QuotaWaiterMixin`, the requester's half of the permit protocol. A
-- request is cut at its awaits: what the server makes of the Activity, of a cancellation and of
-- the signals comes as events, in any order. Logging is left out.
pub mod Window
pub mod Invariant
pub mod Once
pub mod Delivered
mod Tests
use golden_retriever.Prelude.{
  ℕ, ◌-◌, String, Bool, true, false, not, ◌||◌, Option, none, some, List, [], ◌∷◌, ◌++◌, elem,
  length, take, drop, ite, ◌==◌, if◌then◌else◌,
}
use golden_retriever.Prelude.Int.{ℤ, pos, leb_ℤ, ℤ_dec}
use golden_retriever.Dict
use golden_retriever.Dict.{Dict, get, put, has, remove}
use golden_retriever.Quota.Terminal.{cut_window}
use golden_retriever.Models.Quota.{
  QuotaScope, same_scope, PermitRequest, PermitGrant, PermitDenied, CancelPermit, PermitCompleted,
}

abbrev pub default_grant_dedup_size : ℕ
default_grant_dedup_size = 2048

pub record Inbox : Type 0 where
  pub expected_requests : Dict PermitRequest
  pub grants : Dict PermitGrant
  pub denials : Dict PermitDenied
  pub terminal_request_ids : List String
  pub terminal_order : List String

unfoldable pub mark_quota_request_terminal : String → Inbox → Inbox
unfolding cut_window
mark_quota_request_terminal request_id s =
    if elem request_id s.terminal_request_ids
    then s
    else let (ids, order) =
        cut_window default_grant_dedup_size (s.terminal_request_ids ++ request_id ∷ [])
          (s.terminal_order ++ request_id ∷ []) in
      record s { terminal_request_ids = ids; terminal_order = order }

abbrev pub same_cost : ℤ → ℤ → Bool
same_cost a b = ite (ℤ_dec a b) true false

unfoldable pub quota_granted : PermitGrant → Inbox → Inbox
quota_granted grant s = elim (get grant.request_id s.expected_requests) [
  | none ↦ s
  | some expected ↦
      if elem grant.request_id s.terminal_request_ids
        || has grant.request_id s.grants
        || not (same_scope grant.quota_scope expected.quota_scope)
        || not (same_cost grant.cost expected.cost)
      then s
      else record s { grants = put grant.request_id grant s.grants }
]

unfoldable pub quota_denied : PermitDenied → Inbox → Inbox
quota_denied denial s = elim (get denial.request_id s.expected_requests) [
  | none ↦ s
  | some expected ↦
      if elem denial.request_id s.terminal_request_ids
        || has denial.request_id s.grants
        || has denial.request_id s.denials
        || not (same_scope denial.quota_scope expected.quota_scope)
      then s
      else record s { denials = put denial.request_id denial s.denials }
]

-- Why `request_quota_permit` refuses a request at once.
pub data Refusal : Type 0 where
  empty_id cost_not_positive already_waiting already_consumed : Refusal

unfoldable pub refusal : PermitRequest → Inbox → Option Refusal
refusal request s =
    if request.request_id == ""
    then some empty_id
    else if leb_ℤ request.cost (pos 0)
    then some cost_not_positive
    else if has request.request_id s.expected_requests
    then some already_waiting
    else if elem request.request_id s.terminal_request_ids
    then some already_consumed
    else none

-- The entry that is installed before the Activity.
abbrev pub expect : PermitRequest → Inbox → Inbox
expect request s = record s {
  expected_requests = put request.request_id request s.expected_requests;
}

-- The end of a request: no grant, denial or expectation is left of it. The source removes a
-- grant that came with a denial, too.
unfoldable pub finish : String → Inbox → Inbox
unfolding mark_quota_request_terminal
finish request_id s =
    let marked = mark_quota_request_terminal request_id s in
    record marked {
      expected_requests = remove request_id marked.expected_requests;
      grants = remove request_id marked.grants;
      denials = remove request_id marked.denials;
    }

-- The condition of the wait.
abbrev pub is_answered : String → Inbox → Bool
is_answered request_id s = has request_id s.grants || has request_id s.denials

-- Where a request stands: its Activity runs, it waits, or the cancellation at its coordinator is
-- being sent, after a cancellation or another exception.
pub data Phase : Type 0 where
  submitting waiting canceling failing : Phase

-- How a request ended, by its id.
pub data End : Type 0 where
  granted : PermitGrant → End
  denied : PermitDenied → End
  canceled failed : End

-- The inbox, the requests that are going on, those that have ended, with the oldest first, and the
-- cancellations sent to the coordinators.
pub record Waiter : Type 0 where
  pub inbox : Inbox
  pub going_on : Dict Phase
  pub ended : List String
  pub ends : List End
  pub sent : List CancelPermit

-- `_ensure_quota_waiter_state`, before the first request.
abbrev pub started : Waiter
started = record {
  inbox = record {
    expected_requests = Dict.empty;
    grants = Dict.empty;
    denials = Dict.empty;
    terminal_request_ids = [];
    terminal_order = [];
  };
  going_on = Dict.empty;
  ended = [];
  ends = [];
  sent = [];
}

pub data Event : Type 0 where
  receives_grant : PermitGrant → Event
  receives_denial : PermitDenied → Event
  requests : PermitRequest → Event
  submitted : String → Event
  raises : String → Event
  is_canceled : String → Event
  resumes : String → Event
  cleaned_up : String → Event

abbrev pub conclude : String → End → Waiter → Waiter
conclude request_id end w = record w {
  inbox = finish request_id w.inbox;
  going_on = remove request_id w.going_on;
  ended = w.ended ++ request_id ∷ [];
  ends = w.ends ++ end ∷ [];
}

unfoldable pub request_quota_permit : PermitRequest → Waiter → Waiter
unfolding refusal
request_quota_permit request w = elim (refusal request w.inbox) [
  | some r ↦ w
  | none ↦ record w {
    inbox = expect request w.inbox;
    going_on = put request.request_id submitting w.going_on;
  }
]

abbrev pub set_phase : String → Phase → Waiter → Waiter
set_phase request_id phase w = record w { going_on = put request_id phase w.going_on }

-- `_cancel_abandoned_request`: the signal is sent, and the rest waits for it.
abbrev pub cancel_abandoned_request : String → Phase → String → Waiter → Waiter
cancel_abandoned_request request_id phase reason w = record w {
  going_on = put request_id phase w.going_on;
  sent = w.sent ++ record { request_id = request_id; reason = some reason } ∷ [];
}

-- After the wait: a denial comes first.
unfoldable pub take_answer : String → Waiter → Waiter
unfolding finish
take_answer request_id w = elim (get request_id w.inbox.denials) [
  | some denial ↦ conclude request_id (denied denial) w
  | none ↦ elim (get request_id w.inbox.grants) [
    | some grant ↦ conclude request_id (granted grant) w
    | none ↦ w
  ]
]

-- One event, by the phase of its request; an event that does not fit the phase does not happen.
unfoldable pub step_of : Option Phase → Event → Waiter → Waiter
unfolding take_answer finish
step_of (some submitting) (submitted k) w = set_phase k waiting w
step_of (some submitting) (raises k) w =
    cancel_abandoned_request k failing "requester stopped waiting after request failure" w
step_of (some submitting) (is_canceled k) w =
    cancel_abandoned_request k canceling "requester canceled while waiting for quota" w
step_of (some waiting) (is_canceled k) w =
    cancel_abandoned_request k canceling "requester canceled while waiting for quota" w
step_of (some waiting) (resumes k) w = take_answer k w
step_of (some canceling) (cleaned_up k) w = conclude k canceled w
step_of (some failing) (cleaned_up k) w = conclude k failed w
step_of _ _ w = w

unfoldable pub step : Event → Waiter → Waiter
unfolding step_of quota_granted quota_denied request_quota_permit
step (receives_grant grant) w = record w { inbox = quota_granted grant w.inbox }
step (receives_denial denial) w = record w { inbox = quota_denied denial w.inbox }
step (requests request) w = request_quota_permit request w
step (submitted k) w = step_of (get k w.going_on) (submitted k) w
step (raises k) w = step_of (get k w.going_on) (raises k) w
step (is_canceled k) w = step_of (get k w.going_on) (is_canceled k) w
step (resumes k) w = step_of (get k w.going_on) (resumes k) w
step (cleaned_up k) w = step_of (get k w.going_on) (cleaned_up k) w

unfoldable pub run : List Event → Waiter → Waiter
unfolding step
run [] w = w
run (e ∷ es) w = run es (step e w)

-- `complete_quota_permit`: what is signaled to the coordinator.
abbrev pub complete_quota_permit : PermitGrant → PermitCompleted
complete_quota_permit grant = record {
  request_id = grant.request_id;
  permit_id = grant.permit_id;
  completed_at = none;
}
