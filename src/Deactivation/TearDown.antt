-- ===== src/Deactivation/TearDown.antt =====
-- The cleanup stages, and the commit of INACTIVE.
use golden_retriever.Prelude.{
  ℕ, ◌≤◌, String, ◌≡◌, refl, [], ◌∷◌, ◌++◌, arith, if_cases, if◌then◌else◌,
}
use golden_retriever.Ids.{Builtins}
use golden_retriever.Models.Lifecycle.{
  DeactivationInput, NewGeneration, LifecycleMutationResult, DeactivationPhase,
}
use golden_retriever.Cleanup.{CleanupResult}
use golden_retriever.Task.{Task, Post, bind-Post, and_then, return}
use golden_retriever.Deactivation.Guard.{
  advance, users_cleaned, objects_removed, inactive_committed,
}
use golden_retriever.Deactivation.Server.{
  Answer, answered, failed_with, Server, Request, Run, await_answer, stop, advance_order,
  is_succeeded,
}
use golden_retriever.Deactivation.Requests.{cleanup_input, require_success, run_cleanup}
use golden_retriever.Deactivation.Workflow.{commit_inactive, tear_down}
use golden_retriever.Deactivation.Stages.{At, At-phase, asked, advance-Post, statuses, rank}
use golden_retriever.Deactivation.Laws.{Laws, Broken, Anything, Cleans, Marks, broken}

module _ {W : Type 0} (py : Builtins) (server : Server W) (own_id : String)
    (command : DeactivationInput) (generation : NewGeneration) (Excuse : Type 0)
    (Fenced NoUsers Empty Inactive : W → Type 0)
    (laws : Laws server command generation Excuse Fenced NoUsers Empty Inactive) where
  -- A cleanup child, its success and the guard's next action.
  cleanup-Post :
      (n k : ℕ) (Inv After : W → Type 0) (q : Request) (operation : W → Answer CleanupResult × W)
      (default : String) (s : Run W)
      → 1 ≤ n
      → n ≤ 7
      → k ≤ rank q
      → rank q ≤ 7
      → statuses (q ∷ []) ≡ []
      → ((w : W) → Inv w → Cleans Excuse After (operation w))
      → At n k [] Inv s
      → Post
          (λ r. At n (rank q) [] After)
          (Broken Excuse)
          (Broken Excuse)
          (run_cleanup q operation default s)
  unfolding run_cleanup
  cleanup-Post n k Inv After q operation default s b c d e silent cleans a =
      go (operation s.world).0 (operation s.world).1 (cleans s.world a.world_is)
    where
      go :
          (answer : Answer CleanupResult) (w : W)
          → Cleans Excuse After (answer, w)
          → Post
              (λ r. At n (rank q) [] After)
              (Broken Excuse)
              (Broken Excuse)
              (and_then
                (λ result. require_success result default)
                (await_answer answer (record s { requests = s.requests ++ q ∷ []; world = w })))
      go (failed_with m) w h =
          broken n (rank q) Anything _ h b c e
            (asked n k (rank q) Inv Anything q w s d (omega arith) silent tt a)
      go (answered result) w h =
          if_cases
            (λ (m : Task (Run W) (Unit {0})).
              Post (λ r. At n (rank q) [] After) (Broken Excuse) (Broken Excuse)
                (m (record s { requests = s.requests ++ q ∷ []; world = w })))
            (is_succeeded result.status) (return tt) _
            (λ good. asked n k (rank q) Inv After q w s d (omega arith) silent (h.0 good) a)
            (λ bad.
              broken n (rank q) Anything _ (h.1 bad) b c e
                (asked n k (rank q) Inv Anything q w s d (omega arith) silent tt a))

  commit_inactive-Post :
      (s : Run W)
      → At 7 6 [] Empty s
      → Post
          (λ r. At 7 7 [] Inactive)
          (Broken Excuse)
          (Broken Excuse)
          (commit_inactive py server own_id generation s)
  unfolding commit_inactive
  commit_inactive-Post s a =
      go (server.mark_store_inactive generation s.world).0
        (server.mark_store_inactive generation s.world).1 (laws.marks_inactive s.world a.world_is)
    where
      lost :
          (w : W)
          → Excuse
          → Broken Excuse (record s {
            requests = s.requests ++ Request.marks_inactive generation ∷ [];
            world = w;
          })
      lost w x = broken 7 7 Anything _ x (omega arith) (omega arith) (omega arith) (
          asked 7 6 7 Empty Anything (Request.marks_inactive generation) w s (omega arith)
            (omega arith) refl tt a)

      go :
          (answer : Answer LifecycleMutationResult) (w : W)
          → Marks Excuse Inactive (answer, w)
          → Post
              (λ r. At 7 7 [] Inactive)
              (Broken Excuse)
              (Broken Excuse)
              (and_then
                (λ inactive_result.
                  if is_succeeded inactive_result.status
                  then return tt
                  else stop "marking the store inactive failed")
                (await_answer answer (record s {
                  requests = s.requests ++ Request.marks_inactive generation ∷ [];
                  world = w;
                })))
      go (failed_with m) w h = lost w h
      go (answered result) w h =
          if_cases
            (λ (m : Task (Run W) (Unit {0})).
              Post (λ r. At 7 7 [] Inactive) (Broken Excuse) (Broken Excuse)
                (m (record s {
                  requests = s.requests ++ Request.marks_inactive generation ∷ [];
                  world = w;
                })))
            (is_succeeded result.status) (return tt) _
            (λ good.
              asked 7 6 7 Empty Inactive (Request.marks_inactive generation) w s (omega arith)
                (omega arith) refl (h.0 good) a)
            (λ bad. lost w (h.1 bad))

  pub tear_down-Post :
      (s : Run W)
      → At 5 4 [] Fenced s
      → Post
          (λ r. At 8 7 [] Inactive)
          (Broken Excuse)
          (Broken Excuse)
          (tear_down py server own_id command generation s)
  unfolding tear_down advance
  tear_down-Post s a =
      let input = cleanup_input command generation in
      let goal : Unit {0} → Run W → Type 0 = λ r. At 8 7 [] Inactive in
      bind-Post (λ r. At 5 5 [] NoUsers) goal (Broken Excuse) (Broken Excuse)
        (run_cleanup (Request.cleans_users input) (server.cleanup_users input) _) _ _
        (cleanup-Post 5 4 Fenced NoUsers (Request.cleans_users input) (server.cleanup_users input) _
          _ (omega arith) (omega arith) (omega arith) (omega arith) refl laws.cleans_users
          (At-phase 5 4 [] Fenced DeactivationPhase.cleaning_users s a))
        (λ u1 s1 a1.
          bind-Post (λ r. At 6 5 [] NoUsers) goal (Broken Excuse) (Broken Excuse)
            (advance_order users_cleaned) _ s1
            (advance-Post 5 5 [] NoUsers (Broken Excuse) (Broken Excuse) users_cleaned s1 refl a1)
            (λ u2 s2 a2.
              bind-Post (λ r. At 6 6 [] Empty) goal (Broken Excuse) (Broken Excuse)
                (run_cleanup (Request.removes_objects input) (server.remove_objects input) _) _ _
                (cleanup-Post 6 5 NoUsers Empty (Request.removes_objects input)
                  (server.remove_objects input) _ _ (omega arith) (omega arith) (omega arith)
                  (omega arith) refl laws.removes_objects
                  (At-phase 6 5 [] NoUsers DeactivationPhase.removing_objects s2 a2))
                (λ u3 s3 a3.
                  bind-Post (λ r. At 7 6 [] Empty) goal (Broken Excuse) (Broken Excuse)
                    (advance_order objects_removed) _ s3
                    (advance-Post 6 6 [] Empty (Broken Excuse) (Broken Excuse) objects_removed s3
                      refl a3)
                    (λ u4 s4 a4.
                      bind-Post (λ r. At 7 7 [] Inactive) goal (Broken Excuse) (Broken Excuse)
                        (commit_inactive py server own_id generation) _ _
                        (commit_inactive-Post _
                          (At-phase 7 6 [] Empty DeactivationPhase.marking_inactive s4 a4))
                        (λ u5 s5 a5.
                          advance-Post 7 7 [] Inactive (Broken Excuse) (Broken Excuse)
                            inactive_committed s5 refl a5)))))
