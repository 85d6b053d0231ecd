-- ===== src/Waiter/Delivered.antt =====
-- A grant that has come is not lost before its requester looks.
use golden_retriever.Prelude.{
  String, ◌≡◌, ◌≢◌, sym, ap, subst, ◌∙◌, true, false, not, ◌||◌, Option, none, some, List, [], ◌∷◌,
  ◌++◌, arith, elem, option_cases, if_cases, if◌then◌else◌,
}
use golden_retriever.Dict.{get, put, has}
use golden_retriever.Dict.Laws.{is_some, get-put, get-remove, has-get}
use golden_retriever.Models.Quota.{same_scope, PermitRequest, PermitGrant, PermitDenied}
use golden_retriever.Waiter.{
  started, Inbox, is_answered, mark_quota_request_terminal, quota_granted, quota_denied, finish,
  Phase, submitting, waiting, canceling, failing, granted, Waiter, Event, receives_grant,
  receives_denial, requests, submitted, raises, is_canceled, resumes, cleaned_up, refusal,
  request_quota_permit, take_answer, step_of, step, run, same_cost,
}
use golden_retriever.Waiter.Once.{run-WellFormed}

-- The event does not end the request.
abbrev pub Spares : String → Event → Type 0
Spares k (resumes j) = j ≢ k
Spares k (cleaned_up j) = j ≢ k
Spares k _ = Unit {0}

abbrev pub AllSpare : String → List Event → Type 0
AllSpare k [] = Unit {0}
AllSpare k (e ∷ es) = Spares k e × AllSpare k es

-- The inbox holds the grant of the request, and no denial of it.
abbrev pub Held : String → PermitGrant → Inbox → Type 0
Held k g s = (get k s.grants ≡ some g) × (get k s.denials ≡ none)

recorded :
    (g : PermitGrant) (r : PermitRequest) (s : Inbox)
    → get g.request_id s.expected_requests ≡ some r
    → is_answered g.request_id s ≡ false
    → same_scope g.quota_scope r.quota_scope ≡ true
    → g.cost ≡ r.cost
    → elem g.request_id s.terminal_request_ids ≡ false
    → Held g.request_id g (quota_granted g s)
unfolding quota_granted
recorded g r s there unanswered scope cost fresh =
    let no_grant : has g.request_id s.grants ≡ false = ground (arith, unanswered) in
    let no_denial : has g.request_id s.denials ≡ false = ground (arith, unanswered) in
    subst
      (λ (x : Option PermitRequest). Held g.request_id g (elim x as (λ y. Inbox) [
        | none ↦ s
        | some expected ↦
            if elem g.request_id s.terminal_request_ids
              || has g.request_id s.grants
              || not (same_scope g.quota_scope expected.quota_scope)
              || not (same_cost g.cost expected.cost)
            then s
            else record s { grants = put g.request_id g s.grants }
      ]))
      (sym there)
      (if_cases (Held g.request_id g)
        (elem g.request_id s.terminal_request_ids
          || has g.request_id s.grants
          || not (same_scope g.quota_scope r.quota_scope)
          || not (same_cost g.cost r.cost))
        s (record s { grants = put g.request_id g s.grants })
        (λ bad. absurd (ground (arith, bad, fresh, no_grant, scope, cost)))
        (λ _. (
          get-put g.request_id g.request_id g s.grants ∙ ground arith,
          ground (arith, has-get g.request_id s.denials, no_denial),
        )))

module _ (k : String) (g : PermitGrant) where
  granted-Held : (grant : PermitGrant) (s : Inbox) → Held k g s → Held k g (quota_granted grant s)
  unfolding quota_granted
  granted-Held grant s held =
      option_cases (Held k g) (get grant.request_id s.expected_requests) _ _ (λ _. held)
        (λ expected _.
          if_cases (Held k g) _ _ _ (λ _. held)
            (λ exact. (
              ground (
                arith,
                get-put k grant.request_id grant s.grants,
                has-get k s.grants,
                held.0,
                exact,
              ),
              held.1,
            )))

  denied-Held : (denial : PermitDenied) (s : Inbox) → Held k g s → Held k g (quota_denied denial s)
  unfolding quota_denied
  denied-Held denial s held =
      option_cases (Held k g) (get denial.request_id s.expected_requests) _ _ (λ _. held)
        (λ expected _.
          if_cases (Held k g) _ _ _ (λ _. held)
            (λ exact. (
              held.0,
              ground (
                arith,
                get-put k denial.request_id denial s.denials,
                has-get k s.grants,
                held.0,
                held.1,
                exact,
              ),
            )))

  marked-Held : (j : String) (s : Inbox) → Held k g s → Held k g (mark_quota_request_terminal j s)
  unfolding mark_quota_request_terminal
  marked-Held j s held =
      if_cases (Held k g) (elem j s.terminal_request_ids) _ _ (λ _. held) (λ _. held)

  finish-Held : (j : String) (s : Inbox) → j ≢ k → Held k g s → Held k g (finish j s)
  unfolding finish
  finish-Held j s other held =
      let marked = marked-Held j s held in
      (
        ground (arith, get-remove k j (mark_quota_request_terminal j s).grants, marked.0, other),
        ground (arith, get-remove k j (mark_quota_request_terminal j s).denials, marked.1, other),
      )

  take_answer-Held :
      (j : String) (w : Waiter) → j ≢ k → Held k g w.inbox → Held k g (take_answer j w).inbox
  unfolding take_answer
  take_answer-Held j w other held =
      let P : Waiter → Type 0 = λ v. Held k g v.inbox in
      option_cases P (get j w.inbox.denials) _ _
        (λ _.
          option_cases P (get j w.inbox.grants) _ _ (λ _. held)
            (λ grant _. finish-Held j w.inbox other held))
        (λ denial _. finish-Held j w.inbox other held)

  resumed-Held :
      (phase : Option Phase) (j : String) (w : Waiter)
      → j ≢ k
      → Held k g w.inbox
      → Held k g (step_of phase (resumes j) w).inbox
  unfolding step_of
  resumed-Held none j w other held = held
  resumed-Held (some submitting) j w other held = held
  resumed-Held (some waiting) j w other held = take_answer-Held j w other held
  resumed-Held (some canceling) j w other held = held
  resumed-Held (some failing) j w other held = held

  cleaned_up-Held :
      (phase : Option Phase) (j : String) (w : Waiter)
      → j ≢ k
      → Held k g w.inbox
      → Held k g (step_of phase (cleaned_up j) w).inbox
  unfolding step_of
  cleaned_up-Held none j w other held = held
  cleaned_up-Held (some submitting) j w other held = held
  cleaned_up-Held (some waiting) j w other held = held
  cleaned_up-Held (some canceling) j w other held = finish-Held j w.inbox other held
  cleaned_up-Held (some failing) j w other held = finish-Held j w.inbox other held

  -- The other events of a request only change its phase.
  submitted-same :
      (phase : Option Phase) (j : String) (w : Waiter)
      → (step_of phase (submitted j) w).inbox ≡ w.inbox
  unfolding step_of
  submitted-same phase j w = ground arith

  raises-same :
      (phase : Option Phase) (j : String) (w : Waiter)
      → (step_of phase (raises j) w).inbox ≡ w.inbox
  unfolding step_of
  raises-same phase j w = ground arith

  is_canceled-same :
      (phase : Option Phase) (j : String) (w : Waiter)
      → (step_of phase (is_canceled j) w).inbox ≡ w.inbox
  unfolding step_of
  is_canceled-same phase j w = ground arith

  requested-Held :
      (request : PermitRequest) (w : Waiter)
      → Held k g w.inbox
      → Held k g (request_quota_permit request w).inbox
  unfolding request_quota_permit
  requested-Held request w held =
      option_cases (λ (v : Waiter). Held k g v.inbox) (refusal request w.inbox) _ _ (λ _. held)
        (λ _ _. held)

  step-Held : (e : Event) (w : Waiter) → Spares k e → Held k g w.inbox → Held k g (step e w).inbox
  unfolding step
  step-Held (receives_grant grant) w spare held = granted-Held grant w.inbox held
  step-Held (receives_denial denial) w spare held = denied-Held denial w.inbox held
  step-Held (requests request) w spare held = requested-Held request w held
  step-Held (submitted j) w spare held =
      subst (Held k g) (sym (submitted-same (get j w.going_on) j w)) held
  step-Held (raises j) w spare held =
      subst (Held k g) (sym (raises-same (get j w.going_on) j w)) held
  step-Held (is_canceled j) w spare held =
      subst (Held k g) (sym (is_canceled-same (get j w.going_on) j w)) held
  step-Held (resumes j) w spare held = resumed-Held (get j w.going_on) j w spare held
  step-Held (cleaned_up j) w spare held = cleaned_up-Held (get j w.going_on) j w spare held

  run-Held :
      (es : List Event) (w : Waiter) → AllSpare k es → Held k g w.inbox → Held k g (run es w).inbox
  unfolding run
  run-Held [] w spare held = held
  run-Held (e ∷ es) w spare held = run-Held es (step e w) spare.1 (step-Held e w spare.0 held)

  resumes-ends :
      (w : Waiter)
      → Held k g w.inbox
      → get k w.going_on ≡ some waiting
      → (step (resumes k) w).ends ≡ w.ends ++ granted g ∷ []
  unfolding step step_of take_answer
  resumes-ends w held waits = ground (arith, held.0, held.1, waits)

-- An exact grant of a request that is expected and has no answer yet is what the request
-- returns, whenever it comes: also before the Activity has returned, and whatever other signals,
-- duplicates and requests come before the wait is looked at, as long as the request is not ended
-- by something else.
pub grant_is_delivered :
    (es later : List Event) (g : PermitGrant) (r : PermitRequest)
    → get g.request_id (run es started).inbox.expected_requests ≡ some r
    → is_answered g.request_id (run es started).inbox ≡ false
    → same_scope g.quota_scope r.quota_scope ≡ true
    → g.cost ≡ r.cost
    → AllSpare g.request_id later
    → get g.request_id (run later (step (receives_grant g) (run es started))).going_on
      ≡ some waiting
    → (step (resumes g.request_id) (run later (step (receives_grant g) (run es started)))).ends
      ≡ (run later (step (receives_grant g) (run es started))).ends ++ granted g ∷ []
unfolding step
grant_is_delivered es later g r there unanswered scope cost spare waits =
    let w = run es started in
    let wf = run-WellFormed es in
    let k = g.request_id in
    resumes-ends k g (run later (step (receives_grant g) w))
      (run-Held k g later (step (receives_grant g) w) spare (
        recorded g r w.inbox there unanswered scope cost
          (wf.fresh k (has-get k w.inbox.expected_requests ∙ ap is_some there))))
      waits
