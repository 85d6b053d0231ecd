-- ===== src/Quota/Coordinator.antt =====
-- `UserQuotaWorkflow`: the messages, their deferral before the state is there, and the rounds of
-- `run` between two awaits.
use golden_retriever.Prelude.{
  ℕ, String, Bool, true, false, not, ◌&&◌, ◌||◌, Option, none, some, List, [], ◌∷◌, ◌++◌, ◌==◌,
  if◌then◌else◌, is_nil,
}
use golden_retriever.Prelude.Int.{pos, leb_ℤ}
use golden_retriever.Dict
use golden_retriever.Dict.{get}
use golden_retriever.Models.Quota.{
  PermitRequest, CancelPermit, CancelGenerationPermits, PermitCompleted, QuotaObservation,
  PermitDenied, PermitGrant, UserQuotaState,
}
use golden_retriever.Ids.{Digest}
use golden_retriever.Quota.Terminal.{mark_terminal}
use golden_retriever.Quota.Requests.{permit_request_denial, apply_permit_request, deny}
use golden_retriever.Quota.Cancel.{
  apply_cancel_permit, apply_cancel_generation_permits, apply_permit_completed, apply_disable_scope,
}
use golden_retriever.Quota.Window.{apply_quota_observation}
use golden_retriever.Quota.Grant.{grant_available_permits}
use golden_retriever.Quota.Compact.{compact_quota_state}

-- A message with the workflow time that its handler reads.
pub data Message : Type 0 where
  request : PermitRequest → Message
  cancel : CancelPermit → Message
  cancel_generation : CancelGenerationPermits → Message
  complete : PermitCompleted → Message
  observe : QuotaObservation → ℕ → Message
  disable : Message

-- The denials that wait for their delivery, with the workflow to be told.
abbrev pub Denials : Type 0
Denials = List (String × PermitDenied)

unfoldable pub queue_denial : PermitRequest → Option PermitDenied → Denials → Denials
queue_denial r none ds = ds
queue_denial r (some d) ds =
    if r.requester_workflow_id == "" then ds else ds ++ (r.requester_workflow_id, d) ∷ []

-- The pending requests in queue order.
unfoldable pub pending_requests : List String → UserQuotaState → List PermitRequest
pending_requests [] s = []
pending_requests (k ∷ order) s = elim (get k s.pending) [
  | none ↦ pending_requests order s
  | some r ↦ r ∷ pending_requests order s
]

abbrev pub disabled_denial : PermitRequest → String × PermitDenied
disabled_denial r =
    (r.requester_workflow_id, deny r "quota scope was disabled while request was pending" false)

unfoldable pub refuse_all : List PermitRequest → UserQuotaState → Denials → UserQuotaState × Denials
refuse_all [] s ds = (s, ds)
refuse_all (r ∷ rs) s ds =
    refuse_all rs (mark_terminal r.request_id s) (ds ++ disabled_denial r ∷ [])

unfoldable pub disable_all : UserQuotaState → Denials → UserQuotaState × Denials
unfolding pending_requests refuse_all
disable_all s ds =
    let (s', changed) = apply_disable_scope s in
    if changed
    then refuse_all (pending_requests s.pending_order s)
        (record s' { pending = Dict.empty; pending_order = [] }) ds
    else (s', ds)

-- `_apply_message`, on the state and the denials.
unfoldable pub apply_message : Message → UserQuotaState → Denials → UserQuotaState × Denials
unfolding disable_all queue_denial
apply_message (request r) s ds =
    ((apply_permit_request s r).0, queue_denial r (permit_request_denial s r) ds)
apply_message (cancel c) s ds = ((apply_cancel_permit s c).0, ds)
apply_message (cancel_generation c) s ds = ((apply_cancel_generation_permits s c).0, ds)
apply_message (complete c) s ds = ((apply_permit_completed s c).0, ds)
apply_message (observe o now) s ds = ((apply_quota_observation s o now).0, ds)
apply_message disable s ds = disable_all s ds

pub record Workflow : Type 0 where
  pub state : UserQuotaState
  pub dirty : Bool
  pub continue_after_window : Bool
  pub pending_denials : Denials

-- A signal once the state is there.
unfoldable pub receive : Message → Workflow → Workflow
receive m w =
    let (s, ds) = apply_message m w.state w.pending_denials in
    record w { state = s; pending_denials = ds; dirty = true }

unfoldable pub receive_all : List Message → Workflow → Workflow
unfolding receive
receive_all [] w = w
receive_all (m ∷ ms) w = receive_all ms (receive m w)

-- `_initialize`: the signals that came before the state were deferred, and are applied in order.
unfoldable pub initialize : UserQuotaState → List Message → Workflow
unfolding receive_all
initialize s deferred =
    record (receive_all deferred (record {
      state = compact_quota_state s;
      dirty = true;
      continue_after_window = false;
      pending_denials = [];
    })) { dirty = true }

module _ (digest : Digest) (isoformat : ℕ → String) where
  -- One round of `run` up to its first await: the grants and the denials to deliver.
  unfoldable pub wake : ℕ → Workflow → Workflow × List PermitGrant × Denials
  wake now w =
      let (s, grants) = grant_available_permits digest isoformat w.state now in
      let moved = not (s.quota_window_id == w.state.quota_window_id) in
      (
        record {
          state = s;
          dirty = false;
          continue_after_window = moved || w.continue_after_window;
          pending_denials = [];
        },
        grants,
        w.pending_denials,
      )

-- `_deliver_grant`: a reservation that is gone is not signalled; a failed signal cancels it. The
-- check, the signal and the cancellation are one step; where the reservation goes during the
-- await, the cancellation is a cancel signal of its own.
unfoldable pub deliver_grant : Bool → PermitGrant → Workflow → Workflow
deliver_grant delivered g w = elim (get g.request_id w.state.reservations) [
  | none ↦ w
  | some _ ↦ if delivered then w else record w {
    state =
        (apply_cancel_permit w.state
          (record { request_id = g.request_id; reason = some "grant signal delivery failed" })).0;
    dirty = true;
  }
]

-- `_should_continue_as_new`; `suggested` is the server's hint.
unfoldable pub should_continue_as_new : Bool → Workflow → Bool
should_continue_as_new suggested w =
    w.continue_after_window
    || leb_ℤ w.state.continue_as_new_message_count (pos w.state.processed_message_count)
    || suggested

-- The state that the next run starts from, where `run` rolls over.
unfoldable pub roll_over : Bool → Workflow → Option UserQuotaState
unfolding should_continue_as_new
roll_over suggested w =
    if should_continue_as_new suggested w && is_nil w.pending_denials
    then some (record (compact_quota_state w.state) { processed_message_count = 0 })
    else none
