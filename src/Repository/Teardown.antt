-- ===== src/Repository/Teardown.antt =====
-- A whole deactivation of an active store, with writes of the old generation that come late.
use golden_retriever.Prelude.{
  ℕ, String, ◌≡◌, ◌≢◌, refl, ap, ◌∙◌, true, some, List, [], ◌∷◌, ◌++◌, arith, drop_ids_all,
}
use golden_retriever.Prelude.Int.{ℤ, pos, ◌+ℤ◌, +ℤ_parts, int_laws, pos_part, neg_part}
use golden_retriever.Dict
use golden_retriever.Dict.{Dict, get, put}
use golden_retriever.Dict.Laws.{get-put}
use golden_retriever.Models.Lifecycle.{deactivating, inactive}
use golden_retriever.Repository.{
  StoreRecord, Repository, is_writable, transition, begin_deactivation, mark_inactive,
  remove_all_objects_if_current, deactivate_users_if_current,
}
use golden_retriever.Repository.Calls.{
  Write, Call, begins, marks_inactive, writes, cleans, remove_all_objects, deactivate_users,
  perform, run, after,
}
use golden_retriever.Repository.Fencing.{write-stale}

-- Late writes: calls of retrieval work that still carries a generation.
abbrev pub late : String → ℤ → List (ℕ × Write) → List (ℕ × Call)
late key g [] = []
late key g ((now, w) ∷ ws) = (now, writes key g w) ∷ late key g ws

-- Late writes of another generation change nothing.
pub run-late :
    (key : String) (g : ℤ) (ws : List (ℕ × Write)) (repo : Repository) (r : StoreRecord)
    → get key repo ≡ some r
    → r.lifecycle_generation ≢ g
    → run (late key g ws) repo ≡ repo
unfolding run perform
run-late key g [] repo r there other = refl
run-late key g ((now, w) ∷ ws) repo r there other =
    ap (λ x. run (late key g ws) (after repo x)) (write-stale key g repo r there other w)
    ∙ run-late key g ws repo r there other

pub run-append :
    (cs ds : List (ℕ × Call)) (repo : Repository) → run (cs ++ ds) repo ≡ run ds (run cs repo)
unfolding run
run-append [] ds repo = refl
run-append ((now, c) ∷ cs) ds repo = run-append cs ds (perform now c repo)

get-put_self :
    (key : String) (s : StoreRecord) (repo : Repository) → get key (put key s repo) ≡ some s
get-put_self key s repo = get-put key key s repo ∙ ground arith

-- One call that replaces the record, the late writes after it being lost.
step_through :
    (key : String) (g : ℤ) (now : ℕ) (c : Call) (ws : List (ℕ × Write)) (rest : List (ℕ × Call))
    (repo : Repository) (s : StoreRecord)
    → perform now c repo ≡ put key s repo
    → s.lifecycle_generation ≢ g
    → run ((now, c) ∷ (late key g ws ++ rest)) repo ≡ run rest (put key s repo)
unfolding run
step_through key g now c ws rest repo s moved other =
    ap (run (late key g ws ++ rest)) moved
    ∙ run-append (late key g ws) rest (put key s repo)
    ∙ ap (run rest) (run-late key g ws (put key s repo) s (get-put_self key s repo) other)

fenced-perform :
    (now : ℕ) (key : String) (repo : Repository) (r : StoreRecord)
    → get key repo ≡ some r
    → is_writable r.lifecycle_state ≡ true
    → perform now (begins key r.lifecycle_generation) repo
      ≡ put key (transition now deactivating (r.lifecycle_generation +ℤ pos 1) r) repo
unfolding perform begin_deactivation
fenced-perform now key repo r there open_store = ground arith

users-perform :
    (now : ℕ) (key : String) (repo : Repository) (r : StoreRecord)
    → get key repo ≡ some r
    → r.lifecycle_state ≡ deactivating
    → perform now (cleans key r.lifecycle_generation (deactivate_users [])) repo
      ≡ put key (record r { active_users = [] }) repo
unfolding perform deactivate_users_if_current
users-perform now key repo r there state =
    ground (arith, drop_ids_all r.active_users r.active_users (λ k h. h))

objects-perform :
    (now : ℕ) (key : String) (repo : Repository) (r : StoreRecord)
    → get key repo ≡ some r
    → r.lifecycle_state ≡ deactivating
    → perform now (cleans key r.lifecycle_generation remove_all_objects) repo
      ≡ put key (record r { documents = Dict.empty; retrieval_state = Dict.empty }) repo
unfolding perform remove_all_objects_if_current
objects-perform now key repo r there state = ground arith

inactive-perform :
    (now : ℕ) (key : String) (repo : Repository) (r : StoreRecord)
    → get key repo ≡ some r
    → r.lifecycle_state ≡ deactivating
    → perform now (marks_inactive key r.lifecycle_generation) repo
      ≡ put key (transition now inactive r.lifecycle_generation r) repo
unfolding perform mark_inactive
inactive-perform now key repo r there state = ground arith

-- The calls of one deactivation, each followed by late writes of the old generation.
abbrev pub teardown :
    String
    → ℤ
    → ℕ
    → ℕ
    → ℕ
    → ℕ
    → List (ℕ × Write)
    → List (ℕ × Write)
    → List (ℕ × Write)
    → List (ℕ × Write)
    → List (ℕ × Call)
teardown key g t0 t1 t2 t3 ws0 ws1 ws2 ws3 =
    let h = g +ℤ pos 1 in
    (t0, begins key g)
    ∷ (late key g ws0
        ++ (t1, cleans key h (deactivate_users []))
          ∷ (late key g ws1
              ++ (t2, cleans key h remove_all_objects)
                ∷ (late key g ws2 ++ (t3, marks_inactive key h) ∷ (late key g ws3 ++ []))))

-- From a store that takes writes, the deactivation ends with an inactive store of the next
-- generation that holds no user, no document and no retrieval state, whatever writes of the old
-- generation come in between.
pub teardown_empties :
    (key : String) (t0 t1 t2 t3 : ℕ) (ws0 ws1 ws2 ws3 : List (ℕ × Write)) (repo : Repository)
    (r : StoreRecord)
    → get key repo ≡ some r
    → is_writable r.lifecycle_state ≡ true
    → get key (run (teardown key r.lifecycle_generation t0 t1 t2 t3 ws0 ws1 ws2 ws3) repo)
      ≡ some (record (transition t3 inactive (r.lifecycle_generation +ℤ pos 1) r) {
        active_users = [];
        documents = Dict.empty;
        retrieval_state = Dict.empty;
      })
unfolding run
teardown_empties key t0 t1 t2 t3 ws0 ws1 ws2 ws3 repo r there open_store =
    let g = r.lifecycle_generation in
    let h = g +ℤ pos 1 in
    let other : h ≢ g = λ e. omega (int_laws, +ℤ_parts g (pos 1), ap pos_part e, ap neg_part e) in
    let r1 = transition t0 deactivating h r in
    let r2 : StoreRecord = record r1 { active_users = [] } in
    let r3 : StoreRecord = record r2 { documents = Dict.empty; retrieval_state = Dict.empty } in
    let r4 = transition t3 inactive h r3 in
    let repo1 = put key r1 repo in
    let repo2 = put key r2 repo1 in
    let repo3 = put key r3 repo2 in
    ap (get key) (
      step_through key g t0 (begins key g) ws0 _ repo r1
        (fenced-perform t0 key repo r there open_store) other
      ∙ step_through key g t1 (cleans key h (deactivate_users [])) ws1 _ repo1 r2
          (users-perform t1 key repo1 r1 (get-put_self key r1 repo) refl) other
      ∙ step_through key g t2 (cleans key h remove_all_objects) ws2 _ repo2 r3
          (objects-perform t2 key repo2 r2 (get-put_self key r2 repo1) refl) other
      ∙ step_through key g t3 (marks_inactive key h) ws3 [] repo3 r4
          (inactive-perform t3 key repo3 r3 (get-put_self key r3 repo2) refl) other)
    ∙ get-put_self key r4 repo3
