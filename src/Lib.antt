-- ===== src/Lib.antt =====
-- A verification library for the Temporal retrieval workflows of this repository (Python, under
-- src/retrieval/temporal).
--
-- The program syncs stores from an external provider. A store's lifecycle has an authoritative
-- generation in a repository, and every mutation is fenced by it. Provider calls ask a quota
-- coordinator, one for each credential scope, for permits.
--
-- Which file models what:
--   * Prelude, Prelude/Tests, Prelude/Lists, Prelude/Int, Prelude/Result: shared names, Boolean
--     tests, lists of ids, Python's integers, and calls that raise. Dict, Dict/Laws: Python's
--     dict with text keys, in insertion order.
--   * Models/*: the dataclasses and enums of src/retrieval/temporal/models, field by field.
--   * Ids: the keys and workflow ids of common/ids.py that the other parts use. What json,
--     hashlib and base64 compute of a namespace and the components is the parameter `digest`.
--   * Quota/*: workflows/user_quota.py. Terminal is _mark_terminal; Requests, Cancel and Window
--     are the handlers (apply_permit_request, apply_cancel_permit,
--     apply_cancel_generation_permits, apply_permit_completed, apply_disable_scope,
--     apply_quota_observation and advance_due_quota_window); Grant is grant_available_permits;
--     Compact is compact_quota_state; Coordinator is UserQuotaWorkflow, whose state is the
--     record UserQuotaState: each signal is `receive`, the part of `run` before its first await
--     is `wake`, _deliver_grant is `deliver_grant`, and the rollover is `roll_over`.
--     Quota/Invariant has the well-formedness of the state and, below it, its preservation,
--     handler by handler; its Ended is about the reservations that a compaction keeps and ends.
--     Fairness and Stale are about the order of the grants, Bounds about slots and balance.
--   * Repository, Repository/*: InMemoryRetrievalRepository of activities/repositories.py, a
--     dict of stores. A method returns a result or an error, and an error leaves the repository
--     as it was; the lock makes each method one step, and a history is a list of calls
--     (Repository/Calls).
--   * Activities/*: LifecycleActivities, CleanupActivities and IngestionActivities of
--     activities/, over the repository. Calls that others make between two awaits are an
--     argument; a staged body and its hash are parameters.
--   * Controller/*: workflows/store_controller.py. State has what the handlers share (_remember,
--     _duplicate_operation, the checks of a command); SyncInput is _sync_input; Sync is
--     _request_sync and _cancel_sync; Deactivation is _start_deactivation; Events are the
--     handlers of signals and _initialize_authority; Process is _process, run,
--     _maybe_continue_as_new and get_status. A handler is one step, since the queue serializes
--     commands: it takes what the Temporal server answers, and gives its answer, the next state
--     and what it asks of the server. Rules says how a handler can end; Remembered, Window,
--     Dedup, Generation, Retired and Exclusive are about the window of results, repeated
--     commands, the generation, inactive stores and the start of syncs.
--
--   * Task: a coroutine that runs to its end over a state, which returns, raises or is canceled,
--     with `do` and `try`, and rules for what holds after it.
--   * Cleanup, Cleanup/*: workflows/cleanup.py. Workflows has each workflow, over a record
--     `Joins` of what the activities do and what the server makes of a child; `gather` runs its
--     children one after the other. Direct is that record over the repository, when nothing else
--     runs; Batches and Subset are about the batches, and about a cleanup of named users.
--   * Deactivation/*: workflows/deactivate_store.py. Guard is DeactivationOrderGuard; Server has
--     what the workflow awaits, as a record over any world outside, its requests, and its state,
--     a record of _phase, the guard, the requests so far and the world; Requests are the methods
--     that await one thing; Workflow is run, _run_after_fence and its two ends, with the stages
--     of the `try` as functions of their own. Stages, Laws, Told, Stop, TearDown, Finish and Outcome are
--     about a run over any world, stage by stage, and Plan and Endings about the guard and the
--     ends. Store is a world: the activities and the cleanup children over the repository, with
--     batches of late writes of the old generation before each of them. Stored, Erasure, Answers and
--     Refinement are about it.
--   * Waiter, Waiter/*: common/quota_waiter.py. Inbox is the state of QuotaWaiterMixin, with a
--     function for each signal; request_quota_permit is cut at its awaits, and `step` is one
--     event: a signal, a request, or what the server makes of the Activity, the wait and the
--     cancellation. Window and Invariant are about the inbox, Once and Delivered about any
--     sequence of events.
--   * Remediation, Remediation/*: workflows/failed_user_remediation.py. `run` is one run, which
--     ends with its totals, a cancellation or the input of the next; `execute` is the chain of
--     runs, on fuel. Counts and Rollover are about them.
--
-- The controller starts a deactivation and is told its status; the deactivation fences the store
-- in the repository, cancels the controller's syncs, tells the coordinators to drop the permits
-- of the old generation, joins the cleanup children, and marks the store.
--
-- Conventions. An instant is a number of microseconds; `datetime.isoformat` is the parameter
-- `isoformat`. A Python int is an integer of Prelude/Int, and a length or a counter that starts
-- at zero and is only raised, or lowered with a stop at zero, a natural number. A set is a list
-- without repetition. A text of an exception that is built from values is kept as the values. A
-- loop over slices of a list and the chain of runs of the remediation are on fuel, as much as
-- there are elements, and one run more for the chain; every slice and every run takes at least
-- one element.
--
-- Python's `int`, `float` and methods of `str` on metadata are the parameter `Texts`.
--
-- Not modelled: the sync hierarchy (root, user, resource, page and document workflows, and user
-- activation); metrics, logging, worker and client set-up, configuration, the provider connector,
-- and the transport of signals and activities by the Temporal server, whose outcomes and order
-- are arguments and steps of the model.
pub mod Prelude
pub mod Dict
pub mod Models
pub mod Ids
pub mod Quota
pub mod Repository
pub mod Activities
pub mod Controller
pub mod Task
pub mod Cleanup
pub mod Deactivation
pub mod Waiter
pub mod Remediation
