-- ===== src/Cleanup/Subset.antt =====
-- A cleanup of named users over the repository, against one call of the repository.
use golden_retriever.Prelude.{
  ℕ, ◌+◌, ◌≤◌, String, ◌≡◌, refl, sym, ap, subst, ◌∙◌, false, Option, none, some, List, [], ◌∷◌,
  ◌++◌, arith, is_nil, dedupe, elem-dedupe, drop_ids,
}
use golden_retriever.Prelude.Int.{ℤ, pos, negsuc, pos_part, leb_ℤ}
use golden_retriever.Prelude.Result.{ok}
use mathlib.Core.List.{append-nil, append_assoc}
use golden_retriever.Dict.{get, put}
use golden_retriever.Dict.Laws.{get-put}
use golden_retriever.Ids.{Builtins}
use golden_retriever.Models.Operations.{succeeded}
use golden_retriever.Models.Lifecycle.{CleanupWorkflowInput, deactivating}
use golden_retriever.Repository.{
  Repository, StoreRecord, count_members, deactivate_users_if_current,
}
use golden_retriever.Repository.Rules.{require_cleanup_cases}
use golden_retriever.Activities.Cleanup.{deactivate_users}
use golden_retriever.Task.{Exit, returned, raised, canceled}
use golden_retriever.Cleanup.{CleanupResult}
use golden_retriever.Cleanup.Workflows.{
  Gathered, settle, gather_batch, run_batches, batches, deactivate_user, deactivate_one_user,
  one_user, cleanup_users, cleanup_answer, conclude,
}
use golden_retriever.Cleanup.Batches.{flatten, batches_partition}
use golden_retriever.Repository.Members.{
  drop_ids-append, count_members-append, drop_ids-same, count_members-same, drop_ids-nil,
  count_members-nil,
}
use golden_retriever.Cleanup.Direct.{Texts, gather_one, direct}

size_of : (a : ℤ) → leb_ℤ a (pos 0) ≡ false → 1 ≤ pos_part a
size_of (pos n) positive = ground arith
size_of (negsuc n) positive = ground arith

module _ (py : Builtins) (texts : Texts) (command : CleanupWorkflowInput) (start : Repository)
    (r : StoreRecord) (current : r.lifecycle_generation ≡ command.lifecycle_generation)
    (closing : r.lifecycle_state ≡ deactivating) where
  -- The record without the given users.
  abbrev without_users : List String → StoreRecord
  without_users ids = record r { active_users = drop_ids ids r.active_users }

  -- The given users are gone from the store, and nothing else has changed.
  abbrev Done : List String → Repository → Type 0
  Done ids repo =
      (j : String) → get j repo ≡ get j (put command.store_key (without_users ids) start)

  there_after :
      (ids : List String)
      → get command.store_key (put command.store_key (without_users ids) start)
        ≡ some (without_users ids)
  there_after ids =
      get-put command.store_key command.store_key (without_users ids) start ∙ ground arith

  one_user-Done :
      (ids : List String) (k : String) (repo : Repository)
      → Done ids repo
      → (deactivate_user py (direct texts) (one_user py (direct texts) command k) repo ≡ (
        returned (
            cleanup_answer command succeeded
              (count_members (k ∷ []) (drop_ids ids r.active_users))
              none),
        put command.store_key (without_users (ids ++ k ∷ [])) repo,
      ))
  unfolding deactivate_user deactivate_one_user deactivate_users deactivate_users_if_current
  one_user-Done ids k repo done =
      let there : get command.store_key repo ≡ some (without_users ids) =
        done command.store_key ∙ there_after ids in
      ground (arith, there, current, closing, drop_ids-append ids (k ∷ []) r.active_users)

  Done-one_user :
      (ids : List String) (k : String) (repo : Repository)
      → Done ids repo
      → Done (ids ++ k ∷ []) (put command.store_key (without_users (ids ++ k ∷ [])) repo)
  Done-one_user ids k repo done j = ground (
    arith,
    get-put j command.store_key (without_users (ids ++ k ∷ [])) repo,
    get-put j command.store_key (without_users (ids ++ k ∷ [])) start,
    get-put j command.store_key (without_users ids) start,
    done j,
  )

  -- The results of a batch, with a total for the users before it.
  abbrev Settled : List String → List String → List Gathered × Repository → Type 0
  Settled ids keys x =
      (settle command x.0 (count_members ids r.active_users) none
        ≡ some (count_members (ids ++ keys) r.active_users, none))
      × Done (ids ++ keys) x.1

  gather_batch-Settled :
      (keys ids : List String) (repo : Repository)
      → Done ids repo
      → Settled ids keys (gather_batch py (direct texts) command keys repo)
  unfolding gather_batch settle
  gather_batch-Settled [] ids repo done =
      subst
        (λ l.
          (settle command [] (count_members ids r.active_users) none
            ≡ some (count_members l r.active_users, none))
          × Done l repo)
        (sym (append-nil ids)) (refl, done)
  gather_batch-Settled (k ∷ keys) ids repo done =
      let next = put command.store_key (without_users (ids ++ k ∷ [])) repo in
      let rest = gather_batch py (direct texts) command keys next in
      let settled =
        gather_batch-Settled keys (ids ++ k ∷ []) next (Done-one_user ids k repo done) in
      subst
        (λ x. Settled ids (k ∷ keys) (
          let (result, w') = gather_one texts x in
          let (results, w'') = gather_batch py (direct texts) command keys w' in
          (result ∷ results, w'')))
        (sym (one_user-Done ids k repo done))
        (subst
          (λ l.
            (settle command rest.0
                (count_members ids r.active_users
                  + count_members (k ∷ []) (drop_ids ids r.active_users))
                none
              ≡ some (count_members l r.active_users, none))
            × Done l rest.1)
          (append_assoc ids (k ∷ []) keys)
          (
            subst
                (λ n.
                  settle command rest.0 n none
                  ≡ some (count_members ((ids ++ k ∷ []) ++ keys) r.active_users, none))
                (count_members-append ids (k ∷ []) r.active_users) settled.0,
            settled.1,
          ))

  run_batches-Done :
      (bs : List (List String)) (ids : List String) (repo : Repository)
      → Done ids repo
      → ((run_batches py (direct texts) command bs (count_members ids r.active_users) repo).0
          ≡ returned (count_members (ids ++ flatten bs) r.active_users, none))
        × Done
            (ids ++ flatten bs)
            (run_batches py (direct texts) command bs (count_members ids r.active_users) repo).1
  unfolding run_batches
  run_batches-Done [] ids repo done =
      subst
        (λ l.
          ((run_batches py (direct texts) command [] (count_members ids r.active_users) repo).0
            ≡ returned (count_members l r.active_users, none))
          × Done l repo)
        (sym (append-nil ids)) (refl, done)
  run_batches-Done (b ∷ bs) ids repo done =
      let batch = gather_batch-Settled b ids repo done in
      let repo' = (gather_batch py (direct texts) command b repo).1 in
      let rest = run_batches-Done bs (ids ++ b) repo' batch.1 in
      subst
        (λ (x : Option (ℕ × Option CleanupResult)).
          let y : Exit (ℕ × Option CleanupResult) × Repository = elim x [
            | none ↦ (canceled, repo')
            | some (total', some failure) ↦ (returned (total', some failure), repo')
            | some (total', none) ↦ run_batches py (direct texts) command bs total' repo'
          ] in
          (y.0 ≡ returned (count_members (ids ++ (b ++ flatten bs)) r.active_users, none))
          × Done (ids ++ (b ++ flatten bs)) y.1)
        (sym batch.0)
        (subst
          (λ l.
            ((run_batches py (direct texts) command bs (count_members (ids ++ b) r.active_users)
                repo').0
              ≡ returned (count_members l r.active_users, none))
            × Done l
                (run_batches py (direct texts) command bs (count_members (ids ++ b) r.active_users)
                  repo').1)
          (append_assoc ids b (flatten bs)) rest)

  conclude-returned :
      (n : ℕ) (x : Exit (ℕ × Option CleanupResult) × Repository)
      → x.0 ≡ returned (n, none)
      → conclude py (direct texts) command x
        ≡ (returned (cleanup_answer command succeeded n none), x.1)
  conclude-returned n (returned (total, none), repo) e = ground (arith, e)
  conclude-returned n (returned (total, some failure), repo) e = absurd (ground (arith, e))
  conclude-returned n (raised message, repo) e = absurd (ground (arith, e))
  conclude-returned n (canceled, repo) e = absurd (ground (arith, e))

  Done-start : get command.store_key start ≡ some r → Done [] start
  Done-start there j = ground (
    arith,
    there,
    get-put j command.store_key (without_users []) start,
    drop_ids-nil r.active_users,
  )

  in_batches :
      leb_ℤ command.user_concurrency (pos 0) ≡ false
      → is_nil command.user_keys ≡ false
      → cleanup_users py (direct texts) command start
        ≡ conclude py (direct texts) command (
            run_batches py
              (direct texts)
              command
              (batches (pos_part command.user_concurrency) (dedupe command.user_keys))
              0
              start)
  unfolding cleanup_users
  in_batches positive named = ground arith

  subset_of :
      get command.store_key start ≡ some r
      → leb_ℤ command.user_concurrency (pos 0) ≡ false
      → is_nil command.user_keys ≡ false
      → ((cleanup_users py (direct texts) command start).0
          ≡ returned (
              cleanup_answer command succeeded
                (count_members command.user_keys r.active_users)
                none))
        × Done command.user_keys (cleanup_users py (direct texts) command start).1
  subset_of there positive named =
      let size = pos_part command.user_concurrency in
      let bs = batches size (dedupe command.user_keys) in
      let end = run_batches py (direct texts) command bs 0 start in
      let whole =
        (batches_partition size (dedupe command.user_keys)
          (size_of command.user_concurrency positive)).0 in
      let done : (end.0 ≡ returned (count_members (flatten bs) r.active_users, none))
          × Done (flatten bs) end.1 =
        subst
          (λ t.
            ((run_batches py (direct texts) command bs t start).0
              ≡ returned (count_members (flatten bs) r.active_users, none))
            × Done (flatten bs) (run_batches py (direct texts) command bs t start).1)
          (count_members-nil r.active_users) (run_batches-Done bs [] start (Done-start there)) in
      let concluded =
        in_batches positive named
        ∙ conclude-returned (count_members (flatten bs) r.active_users) end done.0 in
      let counts : count_members (flatten bs) r.active_users
          ≡ count_members command.user_keys r.active_users =
        ap (λ l. count_members l r.active_users) whole
        ∙ count_members-same (dedupe command.user_keys) command.user_keys r.active_users
            (λ k. elem-dedupe k command.user_keys) in
      (
        ap (λ x. x.0) concluded
            ∙ ap (λ n. returned (cleanup_answer command succeeded n none)) counts,
        λ j.
            ap (λ x. get j x.1) concluded
            ∙ done.1 j
            ∙ ap (λ l. get j (put command.store_key (record r { active_users = l }) start))
                (ap (λ l. drop_ids l r.active_users) whole
                  ∙ drop_ids-same (dedupe command.user_keys) command.user_keys r.active_users
                      (λ k. elem-dedupe k command.user_keys)),
      )

-- Where one call of the repository for named users of a store succeeds, the cleanup workflow of
-- these users, with any positive number of children at a time, reports a success that counts the
-- same users, and leaves every store as that call does.
pub cleanup_users_subset :
    (py : Builtins) (texts : Texts) (command : CleanupWorkflowInput) (repo : Repository) (n : ℕ)
    (repo' : Repository)
    → leb_ℤ command.user_concurrency (pos 0) ≡ false
    → is_nil command.user_keys ≡ false
    → deactivate_users_if_current command.store_key command.lifecycle_generation command.user_keys
        repo
      ≡ ok (n, repo')
    → ((cleanup_users py (direct texts) command repo).0
        ≡ returned (cleanup_answer command succeeded n none))
      × ((j : String) → get j (cleanup_users py (direct texts) command repo).1 ≡ get j repo')
unfolding deactivate_users_if_current
cleanup_users_subset py texts command repo n repo' positive named =
    require_cleanup_cases
      (λ x.
        x ≡ ok (n, repo')
        → ((cleanup_users py (direct texts) command repo).0
            ≡ returned (cleanup_answer command succeeded n none))
          × ((j : String) → get j (cleanup_users py (direct texts) command repo).1 ≡ get j repo'))
      repo command.store_key command.lifecycle_generation _
      (λ e refusal call. absurd (ground (arith, call)))
      (λ r there current closing call.
        let done = subset_of py texts command repo r current closing there positive named in
        (
          done.0
              ∙ ap (λ m. returned (cleanup_answer command succeeded m none))
                  (ground (arith, call, named)),
          λ j. done.1 j ∙ ap (get j) (ground (arith, call, named)),
        ))
