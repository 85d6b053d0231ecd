-- ===== src/Repository/Fencing.antt =====
-- The generation fence: the generations of stores, and calls that carry another one.
use golden_retriever.Prelude.{
  ℕ, String, ◌≡◌, ◌≢◌, refl, sym, ap, subst, ◌∙◌, true, some, List, [], ◌∷◌, arith, if_cases, ◌&&◌,
}
use golden_retriever.Prelude.Int.{ℤ, pos, neg_part, pos_part, ◌+ℤ◌, ◌≤ℤ◌, +ℤ_parts, int_laws}
use golden_retriever.Dict.{get}
use golden_retriever.Dict.Laws.{get-put}
use golden_retriever.Models.Lifecycle.{NewGeneration, inactive, deactivating}
use golden_retriever.Prelude.Result.{ok, err}
use golden_retriever.Repository.{
  Outcome, stale_generation, StoreRecord, Repository, same_generation, is_writable, is_fenced,
  begin_deactivation, transition, fence_of, require_writable, require_cleanup_generation,
  activate_user_if_current, mutate_retrieval_state_if_current, upsert_document_if_current,
  delete_document_if_current, remove_all_objects_if_current, deactivate_users_if_current,
}
use golden_retriever.Repository.Rules.{raise_unless_cases, require_cases}
use golden_retriever.Repository.Calls.{
  Write, activate_user, mutate_retrieval_state, upsert_document, delete_document, Cleanup,
  remove_all_objects, deactivate_users, Call, write, clean, perform, run,
}
use golden_retriever.Repository.Transitions.{
  Edge, stay, written, cleaned, fence, resume, finish, fail, perform-Moves,
}

pub ≤ℤ_trans : (a b c : ℤ) → a ≤ℤ b → b ≤ℤ c → a ≤ℤ c
≤ℤ_trans a b c h k = omega int_laws

≤ℤ_of_eq : {a b : ℤ} → b ≡ a → a ≤ℤ b
≤ℤ_of_eq {a} e = subst (λ x. a ≤ℤ x) (sym e) (omega arith)

Edge-grows : {r s : StoreRecord} → Edge r s → r.lifecycle_generation ≤ℤ s.lifecycle_generation
Edge-grows (stay e) = ≤ℤ_of_eq (ap (λ (x : StoreRecord). x.lifecycle_generation) e)
Edge-grows (written w a g) = ≤ℤ_of_eq g
Edge-grows (cleaned w a g) = ≤ℤ_of_eq g
Edge-grows {r} (fence now w e) =
    subst (λ x. r.lifecycle_generation ≤ℤ x)
      (sym (ap (λ (x : StoreRecord). x.lifecycle_generation) e))
      (omega (int_laws, +ℤ_parts r.lifecycle_generation (pos 1)))
Edge-grows (resume now w e) = ≤ℤ_of_eq (ap (λ (x : StoreRecord). x.lifecycle_generation) e)
Edge-grows (finish now w e) = ≤ℤ_of_eq (ap (λ (x : StoreRecord). x.lifecycle_generation) e)
Edge-grows (fail now w e) = ≤ℤ_of_eq (ap (λ (x : StoreRecord). x.lifecycle_generation) e)

Edge-inactive : {r s : StoreRecord} → Edge r s → r.lifecycle_state ≡ inactive → s ≡ r
Edge-inactive (stay e) h = e
Edge-inactive (written w a g) h = ground arith
Edge-inactive (cleaned w a g) h = ground arith
Edge-inactive (fence now w e) h = ground arith
Edge-inactive (resume now w e) h = ground arith
Edge-inactive (finish now w e) h = ground arith
Edge-inactive (fail now w e) h = ground arith

-- A store is never forgotten, and its generation never falls, whatever calls are made.
pub run-grows :
    (cs : List (ℕ × Call)) (key : String) (repo : Repository) (r : StoreRecord)
    → get key repo ≡ some r
    → (s : StoreRecord) × (get key (run cs repo) ≡ some s)
      × (r.lifecycle_generation ≤ℤ s.lifecycle_generation)
unfolding run
run-grows [] key repo r e = (r, e, omega arith)
run-grows ((now, c) ∷ cs) key repo r e =
    let (t, et, edge) = perform-Moves now c key repo r e in
    let (s, es, grown) = run-grows cs key (perform now c repo) t et in
    (
      s,
      es,
      ≤ℤ_trans r.lifecycle_generation t.lifecycle_generation s.lifecycle_generation
          (Edge-grows edge) grown,
    )

-- Once a store is inactive, no calls change anything of it.
pub run-inactive :
    (cs : List (ℕ × Call)) (key : String) (repo : Repository) (r : StoreRecord)
    → get key repo ≡ some r
    → r.lifecycle_state ≡ inactive
    → get key (run cs repo) ≡ some r
unfolding run
run-inactive [] key repo r e h = e
run-inactive ((now, c) ∷ cs) key repo r e h =
    let (t, et, edge) = perform-Moves now c key repo r e in
    run-inactive cs key (perform now c repo) r (et ∙ ap some (Edge-inactive edge h)) h

module _ (key : String) (g : ℤ) (repo : Repository) (r : StoreRecord)
    (there : get key repo ≡ some r) (other : r.lifecycle_generation ≢ g) where
  stale_writable : require_writable repo key g ≡ err (stale_generation g r.lifecycle_generation)
  unfolding require_writable
  stale_writable = ground arith

  stale_cleanup :
      require_cleanup_generation repo key g ≡ err (stale_generation g r.lifecycle_generation)
  unfolding require_cleanup_generation
  stale_cleanup = ground arith

  -- A write that carries another generation than the store's raises, with both generations.
  pub write-stale :
      (w : Write) → write key g w repo ≡ err (stale_generation g r.lifecycle_generation)
  unfolding activate_user_if_current mutate_retrieval_state_if_current upsert_document_if_current
      delete_document_if_current
  write-stale (activate_user u) = rw stale_writable
  write-stale (mutate_retrieval_state k v) = rw stale_writable
  write-stale (upsert_document d) = rw stale_writable
  write-stale (delete_document d) = rw stale_writable

  -- So does a cleanup.
  pub clean-stale :
      (c : Cleanup) → clean key g c repo ≡ err (stale_generation g r.lifecycle_generation)
  unfolding remove_all_objects_if_current deactivate_users_if_current
  clean-stale remove_all_objects = rw stale_cleanup
  clean-stale (deactivate_users ks) = rw stale_cleanup

-- What a fence that returned has committed.
abbrev Committed : String → ℤ → Outcome (NewGeneration × Repository) → Type 0
Committed key g (err e) = Unit {0}
Committed key g (ok (n, repo')) =
    (s : StoreRecord) × (get key repo' ≡ some s)
    × (s.lifecycle_generation ≡ g +ℤ pos 1)
    × (is_fenced s.lifecycle_state ≡ true)
    × (n ≡ fence_of key g s)

eq_of_same : (a b : ℤ) → same_generation a b ≡ true → a ≡ b
eq_of_same a b h = ground arith

begin_deactivation-Committed :
    (now : ℕ) (key : String) (g : ℤ) (repo : Repository)
    → Committed key g (begin_deactivation now key g repo)
unfolding begin_deactivation
begin_deactivation-Committed now key g repo = require_cases (Committed key g) repo key _ tt (λ r e.
    if_cases (Committed key g)
      (same_generation r.lifecycle_generation (g +ℤ pos 1) && is_fenced r.lifecycle_state) _ _
      (λ again. (r, e, ground arith, ground arith, refl))
      (λ _.
        raise_unless_cases (Committed key g) (same_generation r.lifecycle_generation g) _ _ tt
          (λ current.
            raise_unless_cases (Committed key g) (is_writable r.lifecycle_state) _ _ tt (λ _.
              let same = eq_of_same r.lifecycle_generation g current in
              (
                transition now deactivating (r.lifecycle_generation +ℤ pos 1) r,
                get-put key key _ repo ∙ ground arith,
                ap (λ x. x +ℤ pos 1) same,
                refl,
                ap
                    (λ x.
                      fence_of key x
                        (transition now deactivating (r.lifecycle_generation +ℤ pos 1) r))
                    same,
              )))))

-- What a deactivation that has returned leaves behind.
pub begin_deactivation_committed :
    (now : ℕ) (key : String) (g : ℤ) (repo : Repository) {n : NewGeneration} {repo' : Repository}
    → begin_deactivation now key g repo ≡ ok (n, repo')
    → (s : StoreRecord) × (get key repo' ≡ some s)
      × (s.lifecycle_generation ≡ g +ℤ pos 1)
      × (is_fenced s.lifecycle_state ≡ true)
      × (n ≡ fence_of key g s)
begin_deactivation_committed now key g repo e =
    subst (Committed key g) e (begin_deactivation-Committed now key g repo)

ne_of_later : (g h : ℤ) → g +ℤ pos 1 ≤ℤ h → h ≢ g
ne_of_later g h le e = omega (int_laws, +ℤ_parts g (pos 1), ap pos_part e, ap neg_part e)

-- After a deactivation has begun at a generation, every write of that generation is refused for
-- ever, whatever calls come in between.
pub late_write_refused :
    (now : ℕ) (key : String) (g : ℤ) (repo : Repository) {n : NewGeneration} {repo' : Repository}
    → begin_deactivation now key g repo ≡ ok (n, repo')
    → (cs : List (ℕ × Call)) (w : Write)
    → (s : StoreRecord) × (get key (run cs repo') ≡ some s)
      × (write key g w (run cs repo') ≡ err (stale_generation g s.lifecycle_generation))
late_write_refused now key g repo {repo' = repo'} e cs w =
    let (r, there, gen, _, _) = begin_deactivation_committed now key g repo e in
    let (s, es, grown) = run-grows cs key repo' r there in
    (
      s,
      es,
      write-stale key g (run cs repo') s es
          (ne_of_later g s.lifecycle_generation
            (subst (λ x. x ≤ℤ s.lifecycle_generation) gen grown))
          w,
    )
