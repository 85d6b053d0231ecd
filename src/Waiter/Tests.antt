-- ===== src/Waiter/Tests.antt =====
-- Two requests: one whose grant comes before its Activity has returned, and one that is canceled.
use golden_retriever.Prelude.{
  String, ◌≡◌, ◌≢◌, refl, ap, none, List, [], ◌∷◌, ◌++◌, arith, elem, str_dec, ◌==◌,
}
use golden_retriever.Prelude.Int.{pos, ℤ_dec}
use native.Mathlib.Decide.{ℕ_discrete}
use golden_retriever.Dict
use golden_retriever.Dict.{get, put, has, remove}
use golden_retriever.Models.Operations.{WorkClass}
use golden_retriever.Models.Quota.{QuotaScope, same_scope, PermitRequest, PermitGrant}
use golden_retriever.Quota.Terminal.{evict, cut_window}
use golden_retriever.Waiter.{
  started, mark_quota_request_terminal, quota_granted, quota_denied, finish, refusal,
  request_quota_permit, take_answer, step_of, step, run, Event, requests, receives_grant, submitted,
  is_canceled, cleaned_up, resumes, granted,
}
use golden_retriever.Waiter.Invariant.{WellFormed}
use golden_retriever.Waiter.Once.{run-WellFormed}
use golden_retriever.Waiter.Delivered.{grant_is_delivered}

abbrev scope : QuotaScope
scope = record { provider = "p"; credential_key = "c"; quota_class = "q" }

abbrev request : String → PermitRequest
request id = record {
  request_id = id;
  requester_workflow_id = "w";
  store_key = "store";
  lifecycle_generation = pos 4;
  quota_scope = scope;
  cost = pos 2;
  work_class = WorkClass.incremental;
  requested_at = none;
}

abbrev grant : String → PermitGrant
grant id = record {
  request_id = id;
  permit_id = "permit";
  quota_scope = scope;
  quota_window_id = "window";
  cost = pos 2;
}

abbrev before : List Event
before = requests (request "a") ∷ requests (request "b") ∷ []

abbrev later : List Event
later = receives_grant (grant "a") ∷ is_canceled "b" ∷ submitted "a" ∷ cleaned_up "b" ∷ []

program : Unit {0}
unfolding run step step_of take_answer finish mark_quota_request_terminal cut_window evict
    request_quota_permit refusal quota_granted quota_denied same_scope str_dec ℤ_dec ℕ_discrete elem
    get put has remove Dict.insert Dict.lookup Dict.erase Dict.empty
program = tt

other : ◌≢◌ {A = String} "b" "a"
unfolding str_dec
other e = ground (arith, ap (λ x. x == "b") e)

run-WellFormed_example : WellFormed (run later started).ended (run later started).inbox
run-WellFormed_example = run-WellFormed later

grant_is_delivered_example :
    (step (resumes "a") (run later (step (receives_grant (grant "a")) (run before started)))).ends
    ≡ (run later (step (receives_grant (grant "a")) (run before started))).ends
      ++ granted (grant "a") ∷ []
unfolding program
grant_is_delivered_example =
    grant_is_delivered before later (grant "a") (request "a") refl refl refl refl
      (tt, (tt, (tt, (other, tt)))) refl
