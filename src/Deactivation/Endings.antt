-- ===== src/Deactivation/Endings.antt =====
-- How a deactivation ends over any world outside.
use golden_retriever.Ids.{Builtins}
use golden_retriever.Models.Lifecycle.{DeactivationInput, NewGeneration, LifecycleMutationResult}
use golden_retriever.Cleanup.{CleanupResult}
use golden_retriever.Task.{Post}
use golden_retriever.Deactivation.Server.{Server, Answer, answered, failed_with}
use golden_retriever.Deactivation.Workflow.{run, started}
use golden_retriever.Deactivation.Laws.{Cleans, Marks, Laws, Anything, Never, Broken}
use golden_retriever.Deactivation.Outcome.{run-Post, Ends}
use golden_retriever.Prelude.{String}

module _ {W : Type 0} where
  any-Cleans : (x : Answer CleanupResult × W) → Cleans (Unit {0}) Anything x
  any-Cleans (answered result, w) = (λ good. tt, λ bad. tt)
  any-Cleans (failed_with message, w) = tt

  any-Marks : (x : Answer LifecycleMutationResult × W) → Marks (Unit {0}) Anything x
  any-Marks (answered result, w) = (λ good. tt, λ bad. tt)
  any-Marks (failed_with message, w) = tt

  any_laws :
      (server : Server W) (command : DeactivationInput) (generation : NewGeneration)
      → Laws server command generation (Unit {0}) Anything Anything Anything Anything
  any_laws server command generation = record {
    tells_fence = λ id e w h. tt;
    cancels_work = λ id w h. (λ cut. tt, tt);
    invalidates_quota = λ id c w h. (λ cut. tt, tt);
    waits_drained = λ ids w h. tt;
    cleans_users = λ w h. any-Cleans _;
    removes_objects = λ w h. any-Cleans _;
    marks_inactive = λ w h. any-Marks _;
    tells_status = λ id e w h. tt;
  }

-- Whatever the activities, the children, the controller and the other workflows answer, a
-- deactivation never raises, and its requests are in the order of the plan. Without a fence it
-- returns FAILED for the expected generation, after at most the fence's request and the
-- controller's notice of a failure. With one it returns COMPLETED, after the whole plan, and has
-- told the controller, if there is one, a completion and nothing else; or FAILED, after a part
-- of the plan that has the fence, and has told it a failure and nothing else; or it is canceled
-- after such a part, and has told it nothing.
pub run_settles :
    {W : Type 0} (py : Builtins) (server : Server W) (own_id : String) (command : DeactivationInput)
    (w : W)
    → Post
        (Ends (Unit {0}) server command Anything w)
        Never
        (Broken (Unit {0}))
        (run py server own_id command (started w))
run_settles py server own_id command w =
    run-Post py server own_id command (Unit {0}) Anything Anything Anything Anything w
      (λ generation answer. (tt, any_laws server command generation))
