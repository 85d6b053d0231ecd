-- ===== src/Remediation/Rollover.antt =====
-- A remediation over its continue-as-new: what its counts are.
use golden_retriever.Prelude.{
  ℕ, zero, suc, ◌+◌, ◌≤◌, String, ◌≡◌, refl, sym, ap, subst, ◌∙◌, Bool, true, false, Option, none,
  some, List, [], ◌∷◌, ◌++◌, arith, length, length-drop, take, drop,
}
use golden_retriever.Ids.{Builtins}
use golden_retriever.Models.Sync.{FailedUserRemediationInput, ActivateUserInput}
use golden_retriever.Remediation.{
  Gathered, batch_size, Totals, tally_all, Ended, finished, stopped, continued, is_suggested, later,
  activate, activate_all, run_batches, prior, run, execute,
}
use golden_retriever.Remediation.Counts.{
  any_cut, successes, all_errors, Counted, Tallied, tally_all-Tallied, any_cut-append,
  successes-append, all_errors-append, take-drop,
}

module _ (py : Builtins) (child : String → ActivateUserInput → Gathered) where
  activate_all-append :
      (command : FailedUserRemediationInput) (xs ys : List String)
      → activate_all py child command (xs ++ ys)
        ≡ activate_all py child command xs ++ activate_all py child command ys
  unfolding activate_all
  activate_all-append command [] ys = refl
  activate_all-append command (x ∷ xs) ys =
      ap (◌∷◌ (activate py child command x)) (activate_all-append command xs ys)

  -- The next run activates the users in the same way.
  activate_all-continued :
      (command : FailedUserRemediationInput) (keys : List String) (done failed : ℕ)
      (user_keys : List String)
      → activate_all py child
          (record command {
            failed_user_keys = keys;
            prior_completed_count = done;
            prior_error_count = failed;
          })
          user_keys
        ≡ activate_all py child command user_keys
  unfolding activate_all activate
  activate_all-continued command keys done failed [] = refl
  activate_all-continued command keys done failed (k ∷ user_keys) =
      ap (◌∷◌ (activate py child command k))
        (activate_all-continued command keys done failed user_keys)

  -- The results of all the users that a run has before it.
  abbrev pub results : FailedUserRemediationInput → List Gathered
  results command = activate_all py child command command.failed_user_keys

  abbrev Ends : List Gathered → ℕ → ℕ → ℕ → Ended → Type 0
  Ends rs done failed size (finished t') = Counted rs done failed t'
  Ends rs done failed size stopped = any_cut rs ≡ true
  Ends rs done failed size (continued command') =
      (suc (length command'.failed_user_keys) ≤ size)
      × (any_cut rs ≡ any_cut (results command'))
      × (command'.prior_completed_count + successes (results command') ≡ done + successes rs)
      × (command'.prior_error_count + all_errors (results command') ≡ failed + all_errors rs)

  -- A batch before the rest.
  Ends-after :
      (batch rs : List Gathered) (t t' : Totals) (size size' : ℕ) (end : Ended)
      → size' ≤ size
      → Counted batch t.completed_count t.error_count t'
      → Ends rs t'.completed_count t'.error_count size' end
      → Ends (batch ++ rs) t.completed_count t.error_count size end
  Ends-after batch rs t t' size size' (finished t'') le (uncut, done, failed, bounded)
        (uncut', done', failed', bounded') =
      (
        ground (arith, uncut, uncut', any_cut-append batch rs),
        omega (arith, done, done', successes-append batch rs),
        omega (arith, failed, failed', all_errors-append batch rs),
        bounded',
      )
  Ends-after batch rs t t' size size' stopped le (uncut, done, failed, bounded) cut =
      ground (arith, cut, any_cut-append batch rs)
  Ends-after batch rs t t' size size' (continued command') le (uncut, done, failed, bounded)
        (shorter, same, done', failed') =
      (
        omega (arith, le, shorter),
        ground (arith, uncut, any_cut-append batch rs, same),
        omega (arith, done, done', successes-append batch rs),
        omega (arith, failed, failed', all_errors-append batch rs),
      )

  nothing_left :
      (t : Totals) → length t.error_sample ≤ 100 → Counted [] t.completed_count t.error_count t
  nothing_left t h = (refl, omega arith, omega arith, h)

  -- A run that is left to its successor.
  handed_over :
      (command : FailedUserRemediationInput) (user_keys : List String) (t : Totals) (size : ℕ)
      → suc (length user_keys) ≤ size
      → Ends (activate_all py child command user_keys) t.completed_count t.error_count size (
          continued (record command {
            failed_user_keys = user_keys;
            prior_completed_count = t.completed_count;
            prior_error_count = t.error_count;
          }))
  handed_over command user_keys t size le =
      let same =
        activate_all-continued command user_keys t.completed_count t.error_count user_keys in
      (
        le,
        ap any_cut (sym same),
        ap (λ rs. t.completed_count + successes rs) same,
        ap (λ rs. t.error_count + all_errors rs) same,
      )

  after_batch :
      (n : ℕ) (command : FailedUserRemediationInput) (batch : List Gathered) (rest : List String)
      (suggestions : List Bool) (t t' : Totals) (size : ℕ)
      → suc (length rest) ≤ size
      → Counted batch t.completed_count t.error_count t'
      → Ends
          (activate_all py child command rest)
          t'.completed_count
          t'.error_count
          (length rest)
          (run_batches py child n command rest (later suggestions) t').0
      → Ends
          (batch ++ activate_all py child command rest)
          t.completed_count
          t.error_count
          size
          (elim rest as (λ x. Ended × List Bool) [
            | [] ↦ (finished t', suggestions)
            | r ∷ rs ↦ elim (is_suggested suggestions) [
              | true ↦ (
                continued (record command {
                  failed_user_keys = r ∷ rs;
                  prior_completed_count = t'.completed_count;
                  prior_error_count = t'.error_count;
                }),
                later suggestions,
              )
              | false ↦ run_batches py child n command (r ∷ rs) (later suggestions) t'
            ]
          ]).0
  unfolding activate_all
  after_batch n command batch [] suggestions t t' size le counted onward =
      Ends-after batch [] t t' size size (finished t') (omega arith) counted
        (nothing_left t' counted.3)
  after_batch n command batch (r ∷ rs) suggestions t t' size le counted onward =
      by_suggestion (is_suggested suggestions)
    where
      by_suggestion :
          (b : Bool)
          → Ends
              (batch ++ activate_all py child command (r ∷ rs))
              t.completed_count
              t.error_count
              size
              (elim b as (λ x. Ended × List Bool) [
                | true ↦ (
                  continued (record command {
                    failed_user_keys = r ∷ rs;
                    prior_completed_count = t'.completed_count;
                    prior_error_count = t'.error_count;
                  }),
                  later suggestions,
                )
                | false ↦ run_batches py child n command (r ∷ rs) (later suggestions) t'
              ]).0
      by_suggestion true =
          Ends-after batch (activate_all py child command (r ∷ rs)) t t' size size
            (continued (record command {
              failed_user_keys = r ∷ rs;
              prior_completed_count = t'.completed_count;
              prior_error_count = t'.error_count;
            }))
            (omega arith) counted (handed_over command (r ∷ rs) t' size le)
      by_suggestion false =
          Ends-after batch (activate_all py child command (r ∷ rs)) t t' size (suc (length rs))
            (run_batches py child n command (r ∷ rs) (later suggestions) t').0 (omega (arith, le))
            counted onward

  by_tally :
      (n : ℕ) (command : FailedUserRemediationInput) (batch : List Gathered) (rest : List String)
      (suggestions : List Bool) (t : Totals) (size : ℕ)
      → suc (length rest) ≤ size
      → ((t' : Totals)
          → length t'.error_sample ≤ 100
          → Ends
              (activate_all py child command rest)
              t'.completed_count
              t'.error_count
              (length rest)
              (run_batches py child n command rest (later suggestions) t').0)
      → (x : Option Totals) → Tallied batch t x
      → Ends
          (batch ++ activate_all py child command rest)
          t.completed_count
          t.error_count
          size
          (elim x as (λ x. Ended × List Bool) [
            | none ↦ (stopped, suggestions)
            | some t' ↦ elim rest as (λ x. Ended × List Bool) [
              | [] ↦ (finished t', suggestions)
              | r ∷ rs ↦ elim (is_suggested suggestions) [
                | true ↦ (
                  continued (record command {
                    failed_user_keys = r ∷ rs;
                    prior_completed_count = t'.completed_count;
                    prior_error_count = t'.error_count;
                  }),
                  later suggestions,
                )
                | false ↦ run_batches py child n command (r ∷ rs) (later suggestions) t'
              ]
            ]
          ]).0
  by_tally n command batch rest suggestions t size le onward none cut =
      ground (arith, cut, any_cut-append batch (activate_all py child command rest))
  by_tally n command batch rest suggestions t size le onward (some t') counted =
      after_batch n command batch rest suggestions t t' size le counted (onward t' counted.3)

  run_batches-Ends :
      (n : ℕ) (command : FailedUserRemediationInput) (user_keys : List String)
      (suggestions : List Bool) (t : Totals)
      → length user_keys ≤ n
      → length t.error_sample ≤ 100
      → Ends
          (activate_all py child command user_keys)
          t.completed_count
          t.error_count
          (length user_keys)
          (run_batches py child n command user_keys suggestions t).0
  unfolding run_batches
  run_batches-Ends zero command [] suggestions t le h = nothing_left t h
  run_batches-Ends (suc n) command [] suggestions t le h = nothing_left t h
  run_batches-Ends zero command (k ∷ user_keys) suggestions t le h = absurd (omega (arith, le))
  run_batches-Ends (suc n) command (k ∷ user_keys) suggestions t le h =
      let size = batch_size command in
      let batch = take size (k ∷ user_keys) in
      let rest = drop size (k ∷ user_keys) in
      let shorter : suc (length rest) ≤ length (k ∷ user_keys) =
        omega (arith, length-drop size (k ∷ user_keys)) in
      subst
        (λ rs.
          Ends rs t.completed_count t.error_count (length (k ∷ user_keys))
            (run_batches py child (suc n) command (k ∷ user_keys) suggestions t).0)
        (sym (activate_all-append command batch rest)
          ∙ ap (activate_all py child command) (take-drop size (k ∷ user_keys)))
        (by_tally n command (activate_all py child command batch) rest suggestions t
          (length (k ∷ user_keys)) shorter
          (λ t' h'.
            run_batches-Ends n command rest (later suggestions) t' (omega (arith, le, shorter)) h')
          (tally_all (activate_all py child command batch) t)
          (tally_all-Tallied (activate_all py child command batch) t h))

  -- How a chain of runs ends: it is canceled as a child is, or it has counted every user once.
  abbrev pub Final : FailedUserRemediationInput → Ended → Type 0
  Final command (finished t) =
      Counted (results command) command.prior_completed_count command.prior_error_count t
  Final command stopped = any_cut (results command) ≡ true
  Final command (continued command') = ⊥

  Final-continued :
      (command command' : FailedUserRemediationInput) (end : Ended)
      → Ends
          (results command)
          command.prior_completed_count
          command.prior_error_count
          (length command.failed_user_keys)
          (continued command')
      → Final command' end
      → Final command end
  Final-continued command command' (finished t) (shorter, same, done, failed)
        (uncut, done', failed', bounded) =
      (same ∙ uncut, omega (arith, done, done'), omega (arith, failed, failed'), bounded)
  Final-continued command command' stopped (shorter, same, done, failed) cut = same ∙ cut
  Final-continued command command' (continued c) ends absurdity = absurdity

  after_run :
      (n : ℕ) (command : FailedUserRemediationInput) (x : Ended × List Bool)
      → ((command' : FailedUserRemediationInput) (suggestions' : List Bool)
          → suc (length command'.failed_user_keys) ≤ length command.failed_user_keys
          → (end : Ended) × (execute py child n command' suggestions' ≡ some end)
            × Final command' end)
      → Ends
          (results command)
          command.prior_completed_count
          command.prior_error_count
          (length command.failed_user_keys)
          x.0
      → (end : Ended) × ((elim x.0 as (λ y. Option Ended) [
        | finished t ↦ some (finished t)
        | stopped ↦ some stopped
        | continued command' ↦ execute py child n command' x.1
      ])
          ≡ some end)
        × Final command end
  after_run n command (finished t, suggestions) onward ends = (finished t, refl, ends)
  after_run n command (stopped, suggestions) onward ends = (stopped, refl, ends)
  after_run n command (continued command', suggestions) onward ends =
      let (end, is, final) = onward command' suggestions ends.0 in
      (end, is, Final-continued command command' end ends final)

  execute-Final :
      (n : ℕ) (command : FailedUserRemediationInput) (suggestions : List Bool)
      → suc (length command.failed_user_keys) ≤ n
      → (end : Ended) × (execute py child n command suggestions ≡ some end) × Final command end
  unfolding execute run
  execute-Final zero command suggestions le = absurd (omega (arith, le))
  execute-Final (suc n) command suggestions le =
      after_run n command (run py child command suggestions)
        (λ command' suggestions' le'.
          execute-Final n command' suggestions' (omega (arith, le, le')))
        (run_batches-Ends (length command.failed_user_keys) command command.failed_user_keys
          suggestions (prior py child command) (omega arith) (omega arith))

-- Whatever continue-as-new the server suggests, a chain of at most one run more than there are
-- failed users ends. If no child is canceled, it ends with the completions and the errors of the
-- runs before it, with every failed user counted once: each success, and each error of each
-- failure, at least one; the sample has at most 100 errors. If the chain is canceled, then a
-- child was.
pub remediation_ends :
    (py : Builtins) (child : String → ActivateUserInput → Gathered)
    (command : FailedUserRemediationInput) (suggestions : List Bool)
    → (end : Ended) × (execute py child (suc (length command.failed_user_keys)) command suggestions
        ≡ some end)
      × Final py child command end
remediation_ends py child command suggestions =
    execute-Final py child (suc (length command.failed_user_keys)) command suggestions (omega arith)
