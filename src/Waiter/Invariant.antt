-- ===== src/Waiter/Invariant.antt =====
-- What holds of the inbox of a requester, and of the requests of it that have ended.
use golden_retriever.Prelude.{
  ◌-◌, ◌≤◌, String, ◌≡◌, refl, sym, ap, subst, ◌∙◌, Bool, true, false, not, ◌||◌, none, some, List,
  [], ◌∷◌, ◌++◌, arith, elem, elem-append, Distinct, Distinct-snoc, length, length-drop, if_cases,
  option_cases, str_dec,
}
use golden_retriever.Dict.{get, has, remove}
use golden_retriever.Dict.Laws.{get-put, get-remove, has-put, has-remove, has-get}
use golden_retriever.Models.Quota.{same_scope, PermitRequest, PermitGrant, PermitDenied}
use golden_retriever.Waiter.{
  default_grant_dedup_size, Inbox, quota_granted, quota_denied, expect, finish, refusal, same_cost,
}
use golden_retriever.Waiter.Window.{Recent, mark-next, next_order-Recent, Distinct-drop, elem-drop}

-- The grant answers a request that is expected under the id, with its scope and its cost.
abbrev pub Answers : Inbox → String → PermitGrant → Type 0
Answers s k g =
    (request : PermitRequest) × (get k s.expected_requests ≡ some request)
    × (g.request_id ≡ k)
    × (same_scope g.quota_scope request.quota_scope ≡ true)
    × (g.cost ≡ request.cost)

pub record WellFormed (ended : List String) (s : Inbox) : Type 0 where
  pub set_is : s.terminal_request_ids ≡ s.terminal_order
  pub distinct : Distinct s.terminal_order
  pub bounded : length s.terminal_order ≤ default_grant_dedup_size
  pub recent : Recent ended s.terminal_order
  pub fresh :
      (k : String) → has k s.expected_requests ≡ true → elem k s.terminal_request_ids ≡ false
  pub grants_exact : (k : String) (g : PermitGrant) → get k s.grants ≡ some g → Answers s k g
  pub denials_expected :
      (k : String) (d : PermitDenied) → get k s.denials ≡ some d → has k s.expected_requests ≡ true

scope_of :
    (g : PermitGrant) (r : PermitRequest) (a b : Bool)
    → (a || b || not (same_scope g.quota_scope r.quota_scope) || not (same_cost g.cost r.cost))
      ≡ false
    → same_scope g.quota_scope r.quota_scope ≡ true
scope_of g r a b exact = ground arith

cost_of :
    (g : PermitGrant) (r : PermitRequest) (a b : Bool)
    → (a || b || not (same_scope g.quota_scope r.quota_scope) || not (same_cost g.cost r.cost))
      ≡ false
    → g.cost ≡ r.cost
cost_of g r a b exact = ground arith

module _ (ended : List String) (s : Inbox) (wf : WellFormed ended s) where
  pub quota_granted-WellFormed : (grant : PermitGrant) → WellFormed ended (quota_granted grant s)
  unfolding quota_granted
  quota_granted-WellFormed grant =
      option_cases (WellFormed ended) (get grant.request_id s.expected_requests) _ _ (λ _. wf)
        (λ expected there.
          if_cases (WellFormed ended) _ _ _ (λ _. wf)
            (λ exact. record {
              set_is = wf.set_is;
              distinct = wf.distinct;
              bounded = wf.bounded;
              recent = wf.recent;
              fresh = wf.fresh;
              grants_exact = λ k g e. elim (str_dec grant.request_id k) [
                | yes here ↦
                    let same : grant ≡ g =
                      ground (arith, get-put k grant.request_id grant s.grants) in
                    (
                      expected,
                      subst (λ x. get x s.expected_requests ≡ some expected) here there,
                      ap (λ (x : PermitGrant). x.request_id) (sym same) ∙ here,
                      subst
                          (λ (x : PermitGrant).
                            same_scope x.quota_scope expected.quota_scope ≡ true)
                          same
                          (scope_of grant expected (elem grant.request_id s.terminal_request_ids)
                            (has grant.request_id s.grants) exact),
                      subst (λ (x : PermitGrant). x.cost ≡ expected.cost) same
                          (cost_of grant expected (elem grant.request_id s.terminal_request_ids)
                            (has grant.request_id s.grants) exact),
                    )
                | no away ↦
                    wf.grants_exact k g (ground (arith, get-put k grant.request_id grant s.grants))
              ];
              denials_expected = wf.denials_expected;
            }))

  pub quota_denied-WellFormed : (denial : PermitDenied) → WellFormed ended (quota_denied denial s)
  unfolding quota_denied
  quota_denied-WellFormed denial =
      option_cases (WellFormed ended) (get denial.request_id s.expected_requests) _ _ (λ _. wf)
        (λ expected there.
          if_cases (WellFormed ended) _ _ _ (λ _. wf)
            (λ exact. record {
              set_is = wf.set_is;
              distinct = wf.distinct;
              bounded = wf.bounded;
              recent = wf.recent;
              fresh = wf.fresh;
              grants_exact = wf.grants_exact;
              denials_expected = λ k d e. ground (
                arith,
                get-put k denial.request_id denial s.denials,
                has-get k s.expected_requests,
                wf.denials_expected k d,
              );
            }))

  pub expect-WellFormed :
      (request : PermitRequest) → refusal request s ≡ none → WellFormed ended (expect request s)
  unfolding refusal
  expect-WellFormed request free = record {
    set_is = wf.set_is;
    distinct = wf.distinct;
    bounded = wf.bounded;
    recent = wf.recent;
    fresh =
        λ k h. ground (arith, has-put k request.request_id request s.expected_requests, wf.fresh k);
    grants_exact = λ k g e.
        let (x, there, same, scope, cost) = wf.grants_exact k g e in
        (
          x,
          ground (
            arith,
            get-put k request.request_id request s.expected_requests,
            has-get k s.expected_requests,
            there,
          ),
          same,
          scope,
          cost,
        );
    denials_expected = λ k d e.
        ground (
          arith,
          has-put k request.request_id request s.expected_requests,
          wf.denials_expected k d,
        );
  }

  pub finish-WellFormed :
      (k : String) → has k s.expected_requests ≡ true → WellFormed (ended ++ k ∷ []) (finish k s)
  unfolding finish elem
  finish-WellFormed k here =
      let new = wf.fresh k here in
      let all = s.terminal_order ++ k ∷ [] in
      let n = length all - default_grant_dedup_size in
      subst
        (λ (m : Inbox). WellFormed (ended ++ k ∷ []) (record m {
          expected_requests = remove k m.expected_requests;
          grants = remove k m.grants;
          denials = remove k m.denials;
        }))
        (sym (mark-next k s wf.set_is new))
        (record {
          set_is = refl;
          distinct =
              Distinct-drop n all
                (Distinct-snoc k s.terminal_order (ap (elem k) (sym wf.set_is) ∙ new) wf.distinct);
          bounded = omega (arith, length-drop n all);
          recent = next_order-Recent k ended s.terminal_order wf.recent wf.bounded;
          fresh = λ j h. elem-drop j n all (
              ground (
                arith,
                h,
                has-remove j k s.expected_requests,
                wf.fresh j,
                wf.set_is,
                elem-append j s.terminal_order (k ∷ []),
              ));
          grants_exact = λ j g e.
              let (x, there, same, scope, cost) =
                wf.grants_exact j g (ground (arith, e, get-remove j k s.grants)) in
              (
                x,
                ground
                    (arith, e, get-remove j k s.grants, get-remove j k s.expected_requests, there),
                same,
                scope,
                cost,
              );
          denials_expected = λ j d e. ground (
            arith,
            e,
            get-remove j k s.denials,
            has-remove j k s.expected_requests,
            wf.denials_expected j d,
          );
        })
