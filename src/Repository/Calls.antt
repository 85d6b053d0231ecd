-- ===== src/Repository/Calls.antt =====
-- The methods of the repository as calls, so that histories are lists of calls.
use golden_retriever.Prelude.{ℕ, String, List, [], ◌∷◌}
use golden_retriever.Prelude.Int.{ℤ}
use golden_retriever.Models.Documents.{DocumentRef}
use golden_retriever.Models.Lifecycle.{StoreLifecycleState}
use golden_retriever.Prelude.Result.{ok, err}
use golden_retriever.Repository.{
  Outcome, Repository, begin_deactivation, resume_deactivation, mark_inactive,
  mark_deactivation_failed, activate_user_if_current, mutate_retrieval_state_if_current,
  upsert_document_if_current, delete_document_if_current, remove_all_objects_if_current,
  deactivate_users_if_current, ensure_store,
}

-- What retrieval work writes.
pub data Write : Type 0 where
  activate_user : String → Write
  mutate_retrieval_state : String → String → Write
  upsert_document : DocumentRef → Write
  delete_document : String → Write

pub data Cleanup : Type 0 where
  remove_all_objects : Cleanup
  deactivate_users : List String → Cleanup

pub data Call : Type 0 where
  ensures : String → ℤ → StoreLifecycleState → Call
  begins resumes marks_inactive marks_failed : String → ℤ → Call
  writes : String → ℤ → Write → Call
  cleans : String → ℤ → Cleanup → Call

abbrev pub write : String → ℤ → Write → Repository → Outcome (Unit {0} × Repository)
write key g (activate_user u) = activate_user_if_current key g u
write key g (mutate_retrieval_state k v) = mutate_retrieval_state_if_current key g k v
write key g (upsert_document d) = upsert_document_if_current key g d
write key g (delete_document k) = delete_document_if_current key g k

abbrev pub clean : String → ℤ → Cleanup → Repository → Outcome (ℕ × Repository)
clean key g remove_all_objects = remove_all_objects_if_current key g
clean key g (deactivate_users ks) = deactivate_users_if_current key g ks

-- The repository after a method returned or raised.
abbrev pub after {ℓ} : {A : Type ℓ} → Repository → Outcome (A × Repository) → Repository
after repo (ok (a, repo')) = repo'
after repo (err e) = repo

unfoldable pub perform : ℕ → Call → Repository → Repository
perform now (ensures key g state) repo = (ensure_store now key g state repo).1
perform now (begins key g) repo = after repo (begin_deactivation now key g repo)
perform now (resumes key g) repo = after repo (resume_deactivation now key g repo)
perform now (marks_inactive key g) repo = after repo (mark_inactive now key g repo)
perform now (marks_failed key g) repo = after repo (mark_deactivation_failed now key g repo)
perform now (writes key g w) repo = after repo (write key g w repo)
perform now (cleans key g c) repo = after repo (clean key g c repo)

unfoldable pub run : List (ℕ × Call) → Repository → Repository
run [] repo = repo
run ((now, c) ∷ cs) repo = run cs (perform now c repo)
