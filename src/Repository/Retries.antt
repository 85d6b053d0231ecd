-- ===== src/Repository/Retries.antt =====
-- Activities are delivered at least once: transitions that are made again.
use golden_retriever.Prelude.{ℕ, String, ◌≡◌, refl, sym, ap, ◌∙◌, true, some, List, [], ◌∷◌, arith}
use golden_retriever.Prelude.Int.{ℤ, pos, ◌+ℤ◌}
use golden_retriever.Dict.{get}
use golden_retriever.Models.Lifecycle.{StoreLifecycleState, NewGeneration}
use golden_retriever.Prelude.Result.{ok}
use golden_retriever.Repository.{
  StoreRecord, Repository, is_fenced, is_writable, begin_deactivation, fence_of,
}
use golden_retriever.Repository.Calls.{Call, perform, run}
use golden_retriever.Repository.Transitions.{
  Edge, stay, written, cleaned, fence, resume, finish, fail, perform-Moves,
}
use golden_retriever.Repository.Fencing.{begin_deactivation_committed}

writable_is_open :
    (state : StoreLifecycleState) → is_writable state ≡ true → is_fenced state ≡ true → ⊥
writable_is_open state w f = ground arith

begin_deactivation_fenced :
    (later : ℕ) (key : String) (g : ℤ) (repo : Repository) (s : StoreRecord)
    → get key repo ≡ some s
    → s.lifecycle_generation ≡ g +ℤ pos 1
    → is_fenced s.lifecycle_state ≡ true
    → begin_deactivation later key g repo ≡ ok (fence_of key g s, repo)
unfolding begin_deactivation
begin_deactivation_fenced later key g repo s there gen fenced = ground arith

-- The generation of a store that is fenced stays, and the store stays fenced.
abbrev Holds : ℤ → StoreRecord → Type 0
Holds g s = (s.lifecycle_generation ≡ g) × (is_fenced s.lifecycle_state ≡ true)

Edge-Holds : (g : ℤ) {r s : StoreRecord} → Edge r s → Holds g r → Holds g s
Edge-Holds g (stay e) h = rw e h
Edge-Holds g (written w a e) h = absurd (writable_is_open _ w h.1)
Edge-Holds g (cleaned w a e) h = (e ∙ h.0, ground arith)
Edge-Holds g (fence now w e) h = absurd (writable_is_open _ w h.1)
Edge-Holds g (resume now w e) h = rw e (h.0, refl)
Edge-Holds g (finish now w e) h = rw e (h.0, refl)
Edge-Holds g (fail now w e) h = rw e (h.0, refl)

run-Holds :
    (cs : List (ℕ × Call)) (key : String) (g : ℤ) (repo : Repository) (r : StoreRecord)
    → get key repo ≡ some r
    → Holds g r
    → (s : StoreRecord) × (get key (run cs repo) ≡ some s) × Holds g s
unfolding run
run-Holds [] key g repo r e h = (r, e, h)
run-Holds ((now, c) ∷ cs) key g repo r e h =
    let (t, et, edge) = perform-Moves now c key repo r e in
    run-Holds cs key g (perform now c repo) t et (Edge-Holds g edge h)

-- A fence that was committed holds for ever: after any calls `cs`, the same deactivation made
-- again at any time returns the same store, previous generation and new generation, with the
-- store's last transition time, and changes nothing. Where no call comes in between, it returns
-- the first result whole.
pub begin_deactivation_again :
    (now later : ℕ) (key : String) (g : ℤ) (repo : Repository) {n : NewGeneration}
    {repo' : Repository}
    → begin_deactivation now key g repo ≡ ok (n, repo')
    → (cs : List (ℕ × Call))
    → (begin_deactivation later key g repo' ≡ ok (n, repo'))
      × ((s : StoreRecord) × (get key (run cs repo') ≡ some s)
          × (begin_deactivation later key g (run cs repo')
              ≡ ok (record n { transitioned_at = some s.last_lifecycle_transition }, run cs repo')))
begin_deactivation_again now later key g repo {n} {repo' = repo'} e cs =
    let (r, there, gen, fenced, is) = begin_deactivation_committed now key g repo e in
    let (s, es, held) = run-Holds cs key (g +ℤ pos 1) repo' r there (gen, fenced) in
    (
      begin_deactivation_fenced later key g repo' r there gen fenced
          ∙ ap (λ x. ok (x, repo')) (sym is),
      (
        s,
        es,
        begin_deactivation_fenced later key g (run cs repo') s es held.0 held.1
            ∙ ap (λ x. ok (x, run cs repo')) (rw is (ground (arith, gen, held.0))),
      ),
    )
