-- ===== src/Deactivation/Stop.antt =====
-- The stages from the fence to the end of the drain wait.
use golden_retriever.Prelude.{
  ap, ◌∙◌, ℕ, ◌≤◌, String, ◌≡◌, refl, Option, none, List, [], ◌∷◌, ◌++◌, take, arith, option_cases,
  if_cases, dedupe, is_nil,
}
use golden_retriever.Prelude.Int.{ℤ}
use golden_retriever.Prelude.Result.{Result, ok, err}
use golden_retriever.Ids.{Builtins}
use golden_retriever.Models.Quota.{CancelGenerationPermits}
use golden_retriever.Models.Lifecycle.{DeactivationInput, NewGeneration, DeactivationPhase}
use golden_retriever.Task.{Exit, returned, raised, Task, Post, bind-Post}
use golden_retriever.Deactivation.Guard.{
  deactivation_plan, advance, ensure_fenced, controller_fenced, owned_work_cancel_requested,
  old_quota_invalidated, drain_wait_finished,
}
use golden_retriever.Deactivation.Server.{
  Reply, delivered, failed, cut_off, Server, Request, cancels, invalidates, Run, call,
  advance_order, ensure_fenced_order,
}
use golden_retriever.Deactivation.Requests.{
  gather, failures_of, count_failures, signal_controller_fenced, cancel_owned_work,
  invalidate_old_generation_quota, wait_for_operation_drain,
}
use golden_retriever.Deactivation.Workflow.{stop_old_work}
use golden_retriever.Deactivation.Stages.{
  At, At-weaken, At-phase, asked, advance-Post, statuses, rank,
}
use golden_retriever.Deactivation.Laws.{Laws, Broken, Keeps, broken}

module _ {W : Type 0} (py : Builtins) (server : Server W) (own_id : String)
    (command : DeactivationInput) (generation : NewGeneration) (Excuse : Type 0)
    (Fenced NoUsers Empty Inactive : W → Type 0)
    (laws : Laws server command generation Excuse Fenced NoUsers Empty Inactive) where
  signal_controller_fenced-Post :
      (s : Run W)
      → At 1 0 [] Fenced s
      → Post
          (λ w. At 1 1 [] Fenced)
          (Broken Excuse)
          (Broken Excuse)
          (signal_controller_fenced py server own_id command generation s)
  unfolding signal_controller_fenced
  signal_controller_fenced-Post s a =
      option_cases
        (λ (m : Task (Run W) (Option String)).
          Post (λ w. At 1 1 [] Fenced) (Broken Excuse) (Broken Excuse) (m s))
        command.controller_workflow_id _ _
        (λ _. At-weaken 1 0 1 [] Fenced Fenced s (omega arith) (λ w h. h) a)
        (λ id _.
          asked 1 0 1 Fenced Fenced _ _ s (omega arith) (omega arith) refl
            (laws.tells_fence id _ s.world a.world_is) a)

  -- A count is missing only with an excuse.
  counted :
      (reply : Reply) (replies : List Reply)
      → (reply ≡ cut_off → Excuse)
      → (count_failures replies ≡ none → Excuse)
      → count_failures (reply ∷ replies) ≡ none
      → Excuse
  unfolding count_failures
  counted cut_off replies x y e = x refl
  counted delivered replies x y e = y e
  counted failed replies x y e = y (ground (arith, e))

  none_missing : count_failures [] ≡ none → Excuse
  unfolding count_failures
  none_missing e = absurd (ground (arith, e))

  -- A `gather` of requests of one place, after others of that place.
  gather-Post :
      (n k : ℕ) (to_request : String → Request) (send : String → W → Reply × W)
      → ((id : String) → k ≡ rank (to_request id))
      → ((id : String) → statuses (to_request id ∷ []) ≡ [])
      → ((id : String) (w : W) → Fenced w → Keeps Excuse Fenced (send id w))
      → (ids : List String) (s : Run W) → At n k [] Fenced s
      → Post
          (λ r s'. (count_failures r ≡ none → Excuse) × At n k [] Fenced s')
          (Broken Excuse)
          (Broken Excuse)
          (gather (λ id. call (to_request id) (send id)) ids s)
  unfolding gather
  gather-Post n k to_request send place silent keeps [] s a = (none_missing, a)
  gather-Post n k to_request send place silent keeps (id ∷ ids) s a =
      let kept = keeps id s.world a.world_is in
      bind-Post (λ r s'. (count_failures r ≡ none → Excuse) × At n k [] Fenced s')
        (λ r s'. (count_failures r ≡ none → Excuse) × At n k [] Fenced s') (Broken Excuse)
        (Broken Excuse) (gather (λ id. call (to_request id) (send id)) ids) _ _
        (gather-Post n k to_request send place silent keeps ids _ (
          asked n k k Fenced Fenced (to_request id) _ s (omega (arith, place id))
            (omega (arith, place id)) (silent id) kept.1 a))
        (λ replies s' b. (counted (send id s.world).0 replies kept.0 b.0, b.1))

  failures_of-Post :
      (n k : ℕ) (replies : List Reply) (s : Run W)
      → (count_failures replies ≡ none → Excuse)
      → 1 ≤ n
      → n ≤ 7
      → k ≤ 7
      → At n k [] Fenced s
      → Post (λ r. At n k [] Fenced) (Broken Excuse) (Broken Excuse) (failures_of replies s)
  failures_of-Post n k replies s x b c d a =
      option_cases
        (λ (x : Exit ℕ × Run W). Post (λ r. At n k [] Fenced) (Broken Excuse) (Broken Excuse) x)
        (count_failures replies) _ _ (λ e. broken n k Fenced s (x e) b c d a) (λ m _. a)

  ensure_fenced-Post :
      (n k : ℕ) (s : Run W)
      → ensure_fenced (take n deactivation_plan) ≡ ok tt
      → At n k [] Fenced s
      → Post (λ r. At n k [] Fenced) (Broken Excuse) (Broken Excuse) (ensure_fenced_order s)
  unfolding ensure_fenced_order
  ensure_fenced-Post n k s e a =
      go (ensure_fenced s.completed) (ap ensure_fenced a.completed_is ∙ e)
    where
      go :
          (x : Result String (Unit {0}))
          → x ≡ ok tt
          → Post {A = Unit {0}}
              (λ r. At n k [] Fenced)
              (Broken Excuse)
              (Broken Excuse)
              (elim x [ err message ↦ (raised message, s) | ok u ↦ (returned tt, s) ])
      go (err message) f = ground (arith, f)
      go (ok u) f = a

  cancel_owned_work-Post :
      (s : Run W)
      → At 2 1 [] Fenced s
      → Post
          (λ r. At 2 2 [] Fenced)
          (Broken Excuse)
          (Broken Excuse)
          (cancel_owned_work py server own_id command s)
  unfolding cancel_owned_work ensure_fenced
  cancel_owned_work-Post s a =
      let ids = dedupe (command.sync_workflow_ids ++ command.remediation_workflow_ids) in
      bind-Post (λ r. At 2 1 [] Fenced) (λ r. At 2 2 [] Fenced) (Broken Excuse) (Broken Excuse)
        ensure_fenced_order _ s (ensure_fenced-Post 2 1 s refl a)
        (λ u s1 a1.
          bind-Post (λ r s'. (count_failures r ≡ none → Excuse) × At 2 2 [] Fenced s')
            (λ r. At 2 2 [] Fenced) (Broken Excuse) (Broken Excuse)
            (gather (λ id. call (cancels id) (server.cancel_workflow id)) ids) _ s1
            (gather-Post 2 2 cancels server.cancel_workflow (λ id. refl) (λ id. refl)
              laws.cancels_work ids s1
              (At-weaken 2 1 2 [] Fenced Fenced s1 (omega arith) (λ w h. h) a1))
            (λ replies s2 a2.
              failures_of-Post 2 2 replies s2 a2.0 (omega arith) (omega arith) (omega arith) a2.1))

  invalidate-Post :
      (g : ℤ) (s : Run W)
      → At 3 2 [] Fenced s
      → Post
          (λ r. At 3 3 [] Fenced)
          (Broken Excuse)
          (Broken Excuse)
          (invalidate_old_generation_quota py server own_id command g s)
  unfolding invalidate_old_generation_quota
  invalidate-Post g s a =
      let c : CancelGenerationPermits = record {
        store_key = command.store_key;
        lifecycle_generation = g;
      } in
      let ids = dedupe command.quota_workflow_ids in
      bind-Post (λ r s'. (count_failures r ≡ none → Excuse) × At 3 3 [] Fenced s')
        (λ r. At 3 3 [] Fenced) (Broken Excuse) (Broken Excuse)
        (gather (λ id. call (invalidates id c) (server.signal_cancel_generation id c)) ids) _ s
        (gather-Post 3 3 (λ id. invalidates id c) (λ id. server.signal_cancel_generation id c)
          (λ id. refl) (λ id. refl) (λ id. laws.invalidates_quota id c) ids s
          (At-weaken 3 2 3 [] Fenced Fenced s (omega arith) (λ w h. h) a))
        (λ replies s2 a2.
          failures_of-Post 3 3 replies s2 a2.0 (omega arith) (omega arith) (omega arith) a2.1)

  wait-Post :
      (s : Run W)
      → At 4 3 [] Fenced s
      → Post
          (λ r. At 4 4 [] Fenced)
          (Broken Excuse)
          (Broken Excuse)
          (wait_for_operation_drain py server own_id command s)
  unfolding wait_for_operation_drain
  wait-Post s a =
      let expected = dedupe (command.sync_workflow_ids ++ command.remediation_workflow_ids) in
      if_cases
        (λ (m : Task (Run W) ℕ). Post (λ r. At 4 4 [] Fenced) (Broken Excuse) (Broken Excuse) (m s))
        (is_nil expected) _ _ (λ _. At-weaken 4 3 4 [] Fenced Fenced s (omega arith) (λ w h. h) a)
        (λ _.
          asked 4 3 4 Fenced Fenced _ _ s (omega arith) (omega arith) refl
            (laws.waits_drained expected s.world a.world_is) a)

  pub stop_old_work-Post :
      (s : Run W)
      → At 1 0 [] Fenced s
      → Post
          (λ r. At 5 4 [] Fenced)
          (Broken Excuse)
          (Broken Excuse)
          (stop_old_work py server own_id command generation s)
  unfolding stop_old_work advance ensure_fenced
  stop_old_work-Post s a =
      let after : ℕ → ℕ → Run W → Type 0 = λ n hi. At n hi [] Fenced in
      let goal : List String → Run W → Type 0 = λ r. after 5 4 in
      bind-Post (λ r. after 1 1) goal (Broken Excuse) (Broken Excuse)
        (signal_controller_fenced py server own_id command generation) _ s
        (signal_controller_fenced-Post s a)
        (λ w1 s1 a1.
          bind-Post (λ r. after 2 1) goal (Broken Excuse) (Broken Excuse)
            (advance_order controller_fenced) _ s1
            (advance-Post 1 1 [] Fenced (Broken Excuse) (Broken Excuse) controller_fenced s1 refl
              a1)
            (λ u2 s2 a2.
              bind-Post (λ r. after 2 1) goal (Broken Excuse) (Broken Excuse) ensure_fenced_order _
                _
                (ensure_fenced-Post 2 1 _ refl
                  (At-phase 2 1 [] Fenced DeactivationPhase.canceling s2 a2))
                (λ u3 s3 a3.
                  bind-Post (λ r. after 2 2) goal (Broken Excuse) (Broken Excuse)
                    (cancel_owned_work py server own_id command) _ s3 (cancel_owned_work-Post s3 a3)
                    (λ n4 s4 a4.
                      bind-Post (λ r. after 3 2) goal (Broken Excuse) (Broken Excuse)
                        (advance_order owned_work_cancel_requested) _ s4
                        (advance-Post 2 2 [] Fenced (Broken Excuse) (Broken Excuse)
                          owned_work_cancel_requested s4 refl a4)
                        (λ u5 s5 a5.
                          bind-Post (λ r. after 3 3) goal (Broken Excuse) (Broken Excuse)
                            (invalidate_old_generation_quota py server own_id command
                              generation.previous_generation)
                            _ s5 (invalidate-Post generation.previous_generation s5 a5)
                            (λ n6 s6 a6.
                              bind-Post (λ r. after 4 3) goal (Broken Excuse) (Broken Excuse)
                                (advance_order old_quota_invalidated) _ s6
                                (advance-Post 3 3 [] Fenced (Broken Excuse) (Broken Excuse)
                                  old_quota_invalidated s6 refl a6)
                                (λ u7 s7 a7.
                                  bind-Post (λ r. after 4 4) goal (Broken Excuse) (Broken Excuse)
                                    (wait_for_operation_drain py server own_id command) _ _
                                    (wait-Post _
                                      (At-phase 4 3 [] Fenced DeactivationPhase.draining s7 a7))
                                    (λ n8 s8 a8.
                                      bind-Post (λ r. after 5 4) goal (Broken Excuse)
                                        (Broken Excuse) (advance_order drain_wait_finished) _ s8
                                        (advance-Post 4 4 [] Fenced (Broken Excuse) (Broken Excuse)
                                          drain_wait_finished s8 refl a8)
                                        (λ u9 s9 a9. a9)))))))))
