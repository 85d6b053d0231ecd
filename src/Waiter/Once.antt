-- ===== src/Waiter/Once.antt =====
-- The requests of a requester, whatever events come.
use golden_retriever.Prelude.{
  String, ◌≡◌, refl, sym, ap, ◌∙◌, inl, true, false, Option, none, some, List, [], ◌∷◌, arith, elem,
  option_cases, if_cases, str_dec, ite,
}
use golden_retriever.Dict
use golden_retriever.Dict.{Dict, get, put, has, remove}
use golden_retriever.Dict.Laws.{has-put, has-remove, has-get, has-empty}
use golden_retriever.Models.Quota.{PermitRequest, PermitGrant, PermitDenied, CancelPermit}
use golden_retriever.Waiter.{
  started, Inbox, mark_quota_request_terminal, quota_granted, quota_denied, finish, Phase,
  submitting, waiting, canceling, failing, End, granted, denied, canceled, failed, Waiter, Event,
  receives_grant, receives_denial, requests, submitted, raises, is_canceled, resumes, cleaned_up,
  refusal, conclude, request_quota_permit, take_answer, step_of, step, run,
}
use golden_retriever.Waiter.Invariant.{
  WellFormed, quota_granted-WellFormed, quota_denied-WellFormed, expect-WellFormed,
  finish-WellFormed,
}

-- The inbox is well formed, and the requests that are going on are those that are expected.
pub record Good (w : Waiter) : Type 0 where
  pub inbox_is : WellFormed w.ended w.inbox
  pub going_is : (k : String) → has k w.going_on ≡ has k w.inbox.expected_requests

-- Another phase of a request that is going on.
phase-Good :
    (k : String) (phase phase' : Phase) (cancellations : List CancelPermit) (w : Waiter)
    → Good w
    → get k w.going_on ≡ some phase
    → Good (record w { going_on = put k phase' w.going_on; sent = cancellations })
phase-Good k phase phase' cancellations w good there = record {
  inbox_is = good.inbox_is;
  going_is = λ j.
      ground (arith, there, has-put j k phase' w.going_on, has-get j w.going_on, good.going_is j);
}

mark-expected :
    (k : String) (s : Inbox)
    → (mark_quota_request_terminal k s).expected_requests ≡ s.expected_requests
unfolding mark_quota_request_terminal
mark-expected k s =
    if_cases (λ (m : Inbox). m.expected_requests ≡ s.expected_requests)
      (elem k s.terminal_request_ids) _ _ (λ _. refl) (λ _. refl)

granted-expected :
    (grant : PermitGrant) (s : Inbox)
    → (quota_granted grant s).expected_requests ≡ s.expected_requests
unfolding quota_granted
granted-expected grant s =
    let P : Inbox → Type 0 = λ m. m.expected_requests ≡ s.expected_requests in
    option_cases P (get grant.request_id s.expected_requests) _ _ (λ _. refl)
      (λ expected _. if_cases P _ _ _ (λ _. refl) (λ _. refl))

denied-expected :
    (denial : PermitDenied) (s : Inbox)
    → (quota_denied denial s).expected_requests ≡ s.expected_requests
unfolding quota_denied
denied-expected denial s =
    let P : Inbox → Type 0 = λ m. m.expected_requests ≡ s.expected_requests in
    option_cases P (get denial.request_id s.expected_requests) _ _ (λ _. refl)
      (λ expected _. if_cases P _ _ _ (λ _. refl) (λ _. refl))

conclude-Good :
    (k : String) (end : End) (phase : Phase) (w : Waiter)
    → Good w
    → get k w.going_on ≡ some phase
    → Good (conclude k end w)
unfolding finish
conclude-Good k end phase w good there = record {
  inbox_is =
      finish-WellFormed w.ended w.inbox good.inbox_is k
        (ground (arith, there, has-get k w.going_on, good.going_is k));
  going_is = λ j.
      has-remove j k w.going_on
      ∙ ap (ite (str_dec k j) false) (good.going_is j)
      ∙ sym (has-remove j k w.inbox.expected_requests)
      ∙ ap (λ d. has j (remove k d)) (sym (mark-expected k w.inbox));
}

module _ (w : Waiter) (good : Good w) where
  take_answer-Good :
      (k : String) (phase : Phase) → get k w.going_on ≡ some phase → Good (take_answer k w)
  unfolding take_answer
  take_answer-Good k phase there =
      option_cases Good (get k w.inbox.denials) _ _
        (λ _.
          option_cases Good (get k w.inbox.grants) _ _ (λ _. good)
            (λ grant _. conclude-Good k (granted grant) phase w good there))
        (λ denial _. conclude-Good k (denied denial) phase w good there)

  request-Good : (request : PermitRequest) → Good (request_quota_permit request w)
  unfolding request_quota_permit
  request-Good request =
      option_cases Good (refusal request w.inbox) _ _
        (λ free. record {
          inbox_is = expect-WellFormed w.ended w.inbox good.inbox_is request free;
          going_is = λ j.
              has-put j request.request_id submitting w.going_on
              ∙ ap (ite (str_dec request.request_id j) true) (good.going_is j)
              ∙ sym (has-put j request.request_id request w.inbox.expected_requests);
        })
        (λ _ _. good)

  granted-Good : (grant : PermitGrant) → Good (record w { inbox = quota_granted grant w.inbox })
  granted-Good grant = record {
    inbox_is = quota_granted-WellFormed w.ended w.inbox good.inbox_is grant;
    going_is = λ j. good.going_is j ∙ ap (has j) (sym (granted-expected grant w.inbox));
  }

  denied-Good : (denial : PermitDenied) → Good (record w { inbox = quota_denied denial w.inbox })
  denied-Good denial = record {
    inbox_is = quota_denied-WellFormed w.ended w.inbox good.inbox_is denial;
    going_is = λ j. good.going_is j ∙ ap (has j) (sym (denied-expected denial w.inbox));
  }

  submitted-Good :
      (k : String) (phase : Option Phase)
      → get k w.going_on ≡ phase
      → Good (step_of phase (submitted k) w)
  unfolding step_of
  submitted-Good k none there = good
  submitted-Good k (some submitting) there = phase-Good k submitting waiting w.sent w good there
  submitted-Good k (some waiting) there = good
  submitted-Good k (some canceling) there = good
  submitted-Good k (some failing) there = good

  raises-Good :
      (k : String) (phase : Option Phase)
      → get k w.going_on ≡ phase
      → Good (step_of phase (raises k) w)
  unfolding step_of
  raises-Good k none there = good
  raises-Good k (some submitting) there = phase-Good k submitting failing _ w good there
  raises-Good k (some waiting) there = good
  raises-Good k (some canceling) there = good
  raises-Good k (some failing) there = good

  is_canceled-Good :
      (k : String) (phase : Option Phase)
      → get k w.going_on ≡ phase
      → Good (step_of phase (is_canceled k) w)
  unfolding step_of
  is_canceled-Good k none there = good
  is_canceled-Good k (some submitting) there = phase-Good k submitting canceling _ w good there
  is_canceled-Good k (some waiting) there = phase-Good k waiting canceling _ w good there
  is_canceled-Good k (some canceling) there = good
  is_canceled-Good k (some failing) there = good

  resumes-Good :
      (k : String) (phase : Option Phase)
      → get k w.going_on ≡ phase
      → Good (step_of phase (resumes k) w)
  unfolding step_of
  resumes-Good k none there = good
  resumes-Good k (some submitting) there = good
  resumes-Good k (some waiting) there = take_answer-Good k waiting there
  resumes-Good k (some canceling) there = good
  resumes-Good k (some failing) there = good

  cleaned_up-Good :
      (k : String) (phase : Option Phase)
      → get k w.going_on ≡ phase
      → Good (step_of phase (cleaned_up k) w)
  unfolding step_of
  cleaned_up-Good k none there = good
  cleaned_up-Good k (some submitting) there = good
  cleaned_up-Good k (some waiting) there = good
  cleaned_up-Good k (some canceling) there = conclude-Good k canceled canceling w good there
  cleaned_up-Good k (some failing) there = conclude-Good k failed failing w good there

step-Good : (e : Event) (w : Waiter) → Good w → Good (step e w)
unfolding step
step-Good (receives_grant grant) w good = granted-Good w good grant
step-Good (receives_denial denial) w good = denied-Good w good denial
step-Good (requests request) w good = request-Good w good request
step-Good (submitted k) w good = submitted-Good w good k (get k w.going_on) refl
step-Good (raises k) w good = raises-Good w good k (get k w.going_on) refl
step-Good (is_canceled k) w good = is_canceled-Good w good k (get k w.going_on) refl
step-Good (resumes k) w good = resumes-Good w good k (get k w.going_on) refl
step-Good (cleaned_up k) w good = cleaned_up-Good w good k (get k w.going_on) refl

started-Good : Good started
started-Good = record {
  inbox_is = record {
    set_is = refl;
    distinct = tt;
    bounded = omega arith;
    recent = ([], refl, inl refl);
    fresh = λ k h. absurd (ground (arith, h, has-empty PermitRequest k));
    grants_exact = λ k g e.
        absurd
          (ground (arith, e, has-get k (Dict.empty {V = PermitGrant}), has-empty PermitGrant k));
    denials_expected = λ k d e.
        absurd
          (ground (arith, e, has-get k (Dict.empty {V = PermitDenied}), has-empty PermitDenied k));
  };
  going_is = λ k. has-empty Phase k ∙ sym (has-empty PermitRequest k);
}

run-Good : (es : List Event) (w : Waiter) → Good w → Good (run es w)
unfolding run
run-Good [] w good = good
run-Good (e ∷ es) w good = run-Good es (step e w) (step-Good e w good)

-- Whatever events come, in whatever order: a grant that is held answers an expected request,
-- with its id, scope and cost; a denial that is held is of an expected request; the window has
-- no repetition and at most 2048 ids, and its ids are the last requests that have ended, all of
-- them or 2048; and no expected request is among them.
pub run-WellFormed : (es : List Event) → WellFormed (run es started).ended (run es started).inbox
run-WellFormed es = (run-Good es started started-Good).inbox_is
