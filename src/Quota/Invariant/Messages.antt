-- ===== src/Quota/Invariant/Messages.antt =====
-- The invariant over the messages and rounds of `UserQuotaWorkflow`.
use golden_retriever.Prelude.{
  ℕ, ◌+◌, String, ◌≡◌, refl, sym, Bool, true, false, some, List, [], ◌∷◌, arith, elem, if_cases,
  option_cases, if◌then◌else◌, subst,
}
use golden_retriever.Dict
use golden_retriever.Dict.{has, get}
use golden_retriever.Dict.Laws.{has-get, has-empty}
use golden_retriever.Models.Quota.{PermitRequest, PermitGrant, UserQuotaState}
use golden_retriever.Ids.{Digest}
use golden_retriever.Quota.Terminal.{mark_terminal}
use golden_retriever.Quota.Requests.{count_message}
use golden_retriever.Quota.Cancel.{apply_disable_scope}
use golden_retriever.Quota.Coordinator.{
  Message, request, cancel, cancel_generation, complete, observe, disable, Denials, Workflow,
  pending_requests, refuse_all, disable_all, apply_message, receive, receive_all, initialize, wake,
  deliver_grant, roll_over,
}
use golden_retriever.Quota.Compact.{compact_quota_state}
use golden_retriever.Quota.Invariant.{WellFormed, frame-Queued, count_message-WellFormed}
use golden_retriever.Quota.Invariant.Terminal.{mark_terminal-Queued}
use golden_retriever.Quota.Invariant.Requests.{apply_permit_request-WellFormed}
use golden_retriever.Quota.Invariant.Cancel.{
  apply_cancel_permit-WellFormed, apply_permit_completed-WellFormed,
}
use golden_retriever.Quota.Invariant.Generation.{apply_cancel_generation_permits-WellFormed}
use golden_retriever.Quota.Invariant.Window.{apply_quota_observation-WellFormed}
use golden_retriever.Quota.Invariant.Grant.{grant_available_permits-WellFormed}
use golden_retriever.Quota.Invariant.Compact.{
  Restored, WellFormed-Restored, compact_quota_state-WellFormed,
}

-- No listed request holds a slot.
abbrev Free : UserQuotaState → List PermitRequest → Type 0
Free s [] = Unit {0}
Free s (r ∷ rs) = (has r.request_id s.reservations ≡ false) × Free s rs

pending_requests-Free :
    (order : List String) (s : UserQuotaState) → WellFormed s → Free s (pending_requests order s)
unfolding pending_requests
pending_requests-Free [] s q = tt
pending_requests-Free (k ∷ order) s q =
    option_cases (Free s) (get k s.pending) _ _ (λ _. pending_requests-Free order s q)
      (λ r e. (
        ground (arith, q.keyed k r, q.apart k, has-get k s.pending),
        pending_requests-Free order s q,
      ))

Free-frame :
    (s x : UserQuotaState) (rs : List PermitRequest)
    → x.reservations ≡ s.reservations
    → Free s rs
    → Free x rs
Free-frame s x [] e f = tt
Free-frame s x (r ∷ rs) e f = (rw e f.0, Free-frame s x rs e f.1)

refuse_all-WellFormed :
    (rs : List PermitRequest) (s : UserQuotaState) (ds : Denials)
    → WellFormed s
    → ((k : String) → has k s.pending ≡ false)
    → Free s rs
    → WellFormed (refuse_all rs s ds).0
unfolding refuse_all mark_terminal
refuse_all-WellFormed [] s ds q none_pending f = q
refuse_all-WellFormed (r ∷ rs) s ds q none_pending f =
    refuse_all-WellFormed rs (mark_terminal r.request_id s) _
      (mark_terminal-Queued {order = s.pending_order} r.request_id s q (none_pending r.request_id)
        f.0)
      none_pending (Free-frame s (mark_terminal r.request_id s) rs refl f.1)

-- The queue was just emptied.
emptied-WellFormed :
    (s : UserQuotaState)
    → WellFormed s
    → WellFormed (record s { pending = Dict.empty; pending_order = [] })
unfolding elem Dict.empty
emptied-WellFormed s q = record {
  pending_unique = tt;
  reservations_unique = q.reservations_unique;
  order_distinct = tt;
  order_pending = λ k. sym (has-empty PermitRequest k);
  apart = λ k h. ground (arith, has-empty PermitRequest k);
  over_pending = λ k h. has-empty PermitRequest k;
  over_reserved = q.over_reserved;
  counted = q.counted;
  positive = λ k r h.
      ground (arith, has-empty PermitRequest k, has-get k (Dict.empty {V = PermitRequest}));
  keyed = λ k r h.
      ground (arith, has-empty PermitRequest k, has-get k (Dict.empty {V = PermitRequest}));
}

disable_all-WellFormed :
    (s : UserQuotaState) (ds : Denials) → WellFormed s → WellFormed (disable_all s ds).0
unfolding disable_all apply_disable_scope
disable_all-WellFormed s ds q =
    let waiting = pending_requests s.pending_order s in
    let off : UserQuotaState = record s {
      processed_message_count = s.processed_message_count + 1;
      disabled = true;
    } in
    if_cases
      (λ (x : UserQuotaState × Bool).
        WellFormed
          (if x.1
            then refuse_all waiting (record x.0 { pending = Dict.empty; pending_order = [] }) ds
            else (x.0, ds)).0)
      s.disabled (count_message s, false) (off, true) (λ _. count_message-WellFormed s q)
      (λ _.
        refuse_all-WellFormed waiting (record off { pending = Dict.empty; pending_order = [] }) ds
          (emptied-WellFormed off (frame-Queued s off q refl refl refl refl))
          (has-empty PermitRequest)
          (Free-frame s (record off { pending = Dict.empty; pending_order = [] }) waiting refl
            (pending_requests-Free s.pending_order s q)))

-- Every message keeps the state well formed.
pub apply_message-WellFormed :
    (m : Message) (s : UserQuotaState) (ds : Denials)
    → WellFormed s
    → WellFormed (apply_message m s ds).0
unfolding apply_message
apply_message-WellFormed (request r) s ds q = apply_permit_request-WellFormed s r q
apply_message-WellFormed (cancel c) s ds q = apply_cancel_permit-WellFormed s c q
apply_message-WellFormed (cancel_generation c) s ds q =
    apply_cancel_generation_permits-WellFormed s c q
apply_message-WellFormed (complete c) s ds q = apply_permit_completed-WellFormed s c q
apply_message-WellFormed (observe o now) s ds q = apply_quota_observation-WellFormed s o now q
apply_message-WellFormed disable s ds q = disable_all-WellFormed s ds q

-- After any messages the state is well formed, whatever came before the state was there.
receive_all-WellFormed :
    (ms : List Message) (w : Workflow) → WellFormed w.state → WellFormed (receive_all ms w).state
unfolding receive_all receive
receive_all-WellFormed [] w q = q
receive_all-WellFormed (m ∷ ms) w q =
    receive_all-WellFormed ms (receive m w) (apply_message-WellFormed m w.state w.pending_denials q)

pub initialize-WellFormed :
    (s : UserQuotaState) (deferred : List Message)
    → Restored s
    → WellFormed (initialize s deferred).state
unfolding initialize
initialize-WellFormed s deferred q =
    receive_all-WellFormed deferred _ (compact_quota_state-WellFormed s q)

-- The next run starts from the compacted state, its message count reset.
pub rolled :
    (suggested : Bool) (w : Workflow) (s : UserQuotaState)
    → roll_over suggested w ≡ some s
    → s ≡ record (compact_quota_state w.state) { processed_message_count = 0 }
unfolding roll_over
rolled suggested w s e = ground arith

-- What can happen to a coordinator between two looks at its state: a signal, a round of `run` at
-- any time, the end of a delivery, and the start of the next run.
pub data Step (digest : Digest) (isoformat : ℕ → String) (w : Workflow) : Workflow → Type 0 where
  signal : (m : Message) → Step digest isoformat w (receive m w)
  round : (now : ℕ) → Step digest isoformat w (wake digest isoformat now w).0
  delivery :
      (delivered : Bool) (g : PermitGrant) → Step digest isoformat w (deliver_grant delivered g w)
  next_run :
      (suggested : Bool) (s : UserQuotaState) (deferred : List Message)
      → roll_over suggested w ≡ some s
      → Step digest isoformat w (initialize s deferred)

pub data Reach (digest : Digest) (isoformat : ℕ → String) (w : Workflow) : Workflow → Type 0 where
  here : Reach digest isoformat w w
  next :
      {v u : Workflow}
      → Reach digest isoformat w v
      → Step digest isoformat v u
      → Reach digest isoformat w u

module _ (digest : Digest) (isoformat : ℕ → String) where
  rolled-Restored :
      (suggested : Bool) (w : Workflow) (s : UserQuotaState)
      → WellFormed w.state
      → roll_over suggested w ≡ some s
      → Restored s
  rolled-Restored suggested w s q e =
      let compact = compact_quota_state-WellFormed w.state (WellFormed-Restored w.state q) in
      subst Restored (sym (rolled suggested w s e)) (
        WellFormed-Restored _
          (frame-Queued (compact_quota_state w.state) _ compact refl refl refl refl))

  Step-WellFormed :
      {w v : Workflow} → Step digest isoformat w v → WellFormed w.state → WellFormed v.state
  unfolding receive wake deliver_grant
  Step-WellFormed {w} (signal m) q = apply_message-WellFormed m w.state w.pending_denials q
  Step-WellFormed {w} (round now) q =
      grant_available_permits-WellFormed digest now isoformat w.state q
  Step-WellFormed {w} (delivery delivered g) q =
      option_cases (λ (x : Workflow). WellFormed x.state) (get g.request_id w.state.reservations) _
        _ (λ _. q)
        (λ r e.
          if_cases (λ (x : Workflow). WellFormed x.state) delivered _ _ (λ _. q)
            (λ _. apply_cancel_permit-WellFormed w.state _ q))
  Step-WellFormed {w} (next_run suggested s deferred e) q =
      initialize-WellFormed s deferred (rolled-Restored suggested w s q e)

  -- Whatever messages, times, delivery failures and rollovers occur, in any order, a coordinator
  -- that starts well formed stays well formed.
  pub Reach-WellFormed :
      {w v : Workflow} → Reach digest isoformat w v → WellFormed w.state → WellFormed v.state
  Reach-WellFormed here q = q
  Reach-WellFormed (next r st) q = Step-WellFormed st (Reach-WellFormed r q)
