-- ===== src/Repository/Transitions.antt =====
-- What a call may do to one store: the lifecycle's transitions, and the writes that it allows.
use golden_retriever.Prelude.{
  ℕ, String, ◌≡◌, refl, ◌⊎◌, inl, inr, true, some, arith, str_dec, if_cases, option_cases, ◌&&◌,
  not, subst, ◌∙◌,
}
use golden_retriever.Prelude.Int.{ℤ, pos, ◌+ℤ◌, leb_ℤ}
use golden_retriever.Dict.{get, put}
use golden_retriever.Dict.Laws.{get-put}
use golden_retriever.Models.Lifecycle.{
  StoreLifecycleState, active, syncing, deactivating, inactive, deactivation_failed,
}
use golden_retriever.Prelude.Result.{ok}
use golden_retriever.Repository.{
  Outcome, StoreRecord, Repository, is_writable, is_fenced, same_generation, resumed,
  marked_inactive, marked_failed, transition, begin_deactivation, resume_deactivation,
  mark_inactive, mark_deactivation_failed, activate_user_if_current,
  mutate_retrieval_state_if_current, upsert_document_if_current, delete_document_if_current,
  remove_all_objects_if_current, deactivate_users_if_current, ensure_store,
}
use golden_retriever.Repository.Rules.{
  raise_unless_cases, bind_cases, require_cases, require_writable_cases, require_cleanup_cases,
}
use golden_retriever.Repository.Calls.{
  Write, activate_user, mutate_retrieval_state, upsert_document, delete_document, Cleanup,
  remove_all_objects, deactivate_users, Call, ensures, begins, resumes, marks_inactive,
  marks_failed, writes, cleans, write, clean, after, perform,
}

-- The lifecycle of a store, as one record moves to the next.
pub data Edge (r s : StoreRecord) : Type 0 where
  stay : s ≡ r → Edge r s
  -- A write of the current generation to a store that takes writes.
  written :
      is_writable r.lifecycle_state ≡ true
      → s.lifecycle_state ≡ r.lifecycle_state
      → s.lifecycle_generation ≡ r.lifecycle_generation
      → Edge r s
  -- A cleanup of a deactivating store.
  cleaned :
      r.lifecycle_state ≡ deactivating
      → s.lifecycle_state ≡ deactivating
      → s.lifecycle_generation ≡ r.lifecycle_generation
      → Edge r s
  -- The fence: the generation moves on, and nothing but the lifecycle changes.
  fence :
      (now : ℕ)
      → is_writable r.lifecycle_state ≡ true
      → s ≡ transition now deactivating (r.lifecycle_generation +ℤ pos 1) r
      → Edge r s
  resume :
      (now : ℕ)
      → r.lifecycle_state ≡ deactivation_failed
      → s ≡ transition now deactivating r.lifecycle_generation r
      → Edge r s
  finish :
      (now : ℕ)
      → r.lifecycle_state ≡ deactivating
      → s ≡ transition now inactive r.lifecycle_generation r
      → Edge r s
  fail :
      (now : ℕ)
      → r.lifecycle_state ≡ deactivating
      → s ≡ transition now deactivation_failed r.lifecycle_generation r
      → Edge r s

-- A method leaves the repository alone, or moves the one record that it names along an edge.
abbrev pub Updates : String → Repository → Repository → Type 0
Updates k repo repo' =
    (repo' ≡ repo)
    ⊎ ((r s : StoreRecord) × (get k repo ≡ some r) × (repo' ≡ put k s repo) × Edge r s)

abbrev UpdatesBy {ℓ} : {A : Type ℓ} → String → Repository → Outcome (A × Repository) → Type 0
UpdatesBy k repo x = Updates k repo (after repo x)

module _ (now : ℕ) (r s : StoreRecord) where
  resumed-Edge :
      (state : StoreLifecycleState)
      → r.lifecycle_state ≡ state
      → resumed now r state ≡ ok s
      → Edge r s
  unfolding resumed
  resumed-Edge deactivation_failed e h = resume now e (cc)
  resumed-Edge deactivating e h = stay (cc)
  resumed-Edge active e h = absurd (cc)
  resumed-Edge syncing e h = absurd (cc)
  resumed-Edge inactive e h = absurd (cc)

  marked_inactive-Edge :
      (state : StoreLifecycleState)
      → r.lifecycle_state ≡ state
      → marked_inactive now r state ≡ ok s
      → Edge r s
  unfolding marked_inactive
  marked_inactive-Edge inactive e h = stay (cc)
  marked_inactive-Edge deactivating e h = finish now e (cc)
  marked_inactive-Edge active e h = absurd (cc)
  marked_inactive-Edge syncing e h = absurd (cc)
  marked_inactive-Edge deactivation_failed e h = absurd (cc)

  marked_failed-Edge :
      (state : StoreLifecycleState)
      → r.lifecycle_state ≡ state
      → marked_failed now r state ≡ ok s
      → Edge r s
  unfolding marked_failed
  marked_failed-Edge deactivation_failed e h = stay (cc)
  marked_failed-Edge deactivating e h = fail now e (cc)
  marked_failed-Edge active e h = absurd (cc)
  marked_failed-Edge syncing e h = absurd (cc)
  marked_failed-Edge inactive e h = absurd (cc)

module _ (now : ℕ) (k : String) (g : ℤ) (repo : Repository) where
  begin_deactivation-Updates : UpdatesBy k repo (begin_deactivation now k g repo)
  unfolding begin_deactivation
  begin_deactivation-Updates = require_cases (UpdatesBy k repo) repo k _ (inl refl) (λ r e.
      if_cases (UpdatesBy k repo)
        (same_generation r.lifecycle_generation (g +ℤ pos 1) && is_fenced r.lifecycle_state) _ _
        (λ _. inl refl)
        (λ _.
          raise_unless_cases (UpdatesBy k repo) (same_generation r.lifecycle_generation g) _ _
            (inl refl)
            (λ _.
              raise_unless_cases (UpdatesBy k repo) (is_writable r.lifecycle_state) _ _ (inl refl)
                (λ open_store. inr (r, _, e, refl, fence now open_store refl)))))

  resume_deactivation-Updates : UpdatesBy k repo (resume_deactivation now k g repo)
  unfolding resume_deactivation
  resume_deactivation-Updates = require_cases (UpdatesBy k repo) repo k _ (inl refl) (λ r e.
      raise_unless_cases (UpdatesBy k repo) (same_generation r.lifecycle_generation g) _ _
        (inl refl)
        (λ _. raise_unless_cases (UpdatesBy k repo) (not (leb_ℤ g (pos 0))) _ _ (inl refl) (λ _.
          bind_cases (UpdatesBy k repo) (resumed now r r.lifecycle_state) _ (λ _ _. inl refl)
            (λ s h. inr (r, s, e, refl, resumed-Edge now r s r.lifecycle_state refl h)))))

  mark_inactive-Updates : UpdatesBy k repo (mark_inactive now k g repo)
  unfolding mark_inactive
  mark_inactive-Updates = require_cases (UpdatesBy k repo) repo k _ (inl refl) (λ r e.
      raise_unless_cases (UpdatesBy k repo) (same_generation r.lifecycle_generation g) _ _
        (inl refl)
        (λ _.
          bind_cases (UpdatesBy k repo) (marked_inactive now r r.lifecycle_state) _
            (λ _ _. inl refl)
            (λ s h. inr (r, s, e, refl, marked_inactive-Edge now r s r.lifecycle_state refl h))))

  mark_deactivation_failed-Updates : UpdatesBy k repo (mark_deactivation_failed now k g repo)
  unfolding mark_deactivation_failed
  mark_deactivation_failed-Updates = require_cases (UpdatesBy k repo) repo k _ (inl refl) (λ r e.
      raise_unless_cases (UpdatesBy k repo) (same_generation r.lifecycle_generation g) _ _
        (inl refl)
        (λ _.
          bind_cases (UpdatesBy k repo) (marked_failed now r r.lifecycle_state) _ (λ _ _. inl refl)
            (λ s h. inr (r, s, e, refl, marked_failed-Edge now r s r.lifecycle_state refl h))))

  write-Updates : (w : Write) → UpdatesBy k repo (write k g w repo)
  unfolding activate_user_if_current mutate_retrieval_state_if_current upsert_document_if_current
      delete_document_if_current
  write-Updates (activate_user u) =
      require_writable_cases (UpdatesBy k repo) repo k g _ (λ _ _. inl refl)
        (λ r e _ h. inr (r, _, e, refl, written h refl refl))
  write-Updates (mutate_retrieval_state x v) =
      require_writable_cases (UpdatesBy k repo) repo k g _ (λ _ _. inl refl)
        (λ r e _ h. inr (r, _, e, refl, written h refl refl))
  write-Updates (upsert_document d) =
      require_writable_cases (UpdatesBy k repo) repo k g _ (λ _ _. inl refl)
        (λ r e _ h. inr (r, _, e, refl, written h refl refl))
  write-Updates (delete_document d) =
      require_writable_cases (UpdatesBy k repo) repo k g _ (λ _ _. inl refl)
        (λ r e _ h. inr (r, _, e, refl, written h refl refl))

  clean-Updates : (c : Cleanup) → UpdatesBy k repo (clean k g c repo)
  unfolding remove_all_objects_if_current deactivate_users_if_current
  clean-Updates remove_all_objects =
      require_cleanup_cases (UpdatesBy k repo) repo k g _ (λ _ _. inl refl)
        (λ r e _ h. inr (r, _, e, refl, cleaned h h refl))
  clean-Updates (deactivate_users ks) =
      require_cleanup_cases (UpdatesBy k repo) repo k g _ (λ _ _. inl refl)
        (λ r e _ h. inr (r, _, e, refl, cleaned h h refl))

-- The store that a key names before and after.
abbrev pub Moves : String → Repository → Repository → Type 0
Moves key repo repo' =
    (r : StoreRecord)
    → get key repo ≡ some r
    → (s : StoreRecord) × (get key repo' ≡ some s) × Edge r s

Updates-Moves :
    (key k : String) (repo repo' : Repository) → Updates k repo repo' → Moves key repo repo'
Updates-Moves key k repo repo' (inl same) r e = (r, rw same e, stay refl)
Updates-Moves key k repo repo' (inr (r', s, e', moved, edge)) r e = elim (str_dec k key) [
  | yes here ↦ (
    s,
    rw moved (ground (arith, get-put key k s repo)),
    subst (λ x. Edge x s) (ground arith) edge,
  )
  | no away ↦ (r, rw moved (ground (arith, get-put key k s repo)), stay refl)
]

ensure_store-Moves :
    (now : ℕ) (k : String) (g : ℤ) (state : StoreLifecycleState) (key : String) (repo : Repository)
    → Moves key repo (ensure_store now k g state repo).1
unfolding ensure_store
ensure_store-Moves now k g state key repo r e =
    option_cases
      (λ (x : StoreRecord × Repository). (s : StoreRecord) × (get key x.1 ≡ some s) × Edge r s)
      (get k repo) _ _ (λ missing. (r, get-put key k _ repo ∙ ground arith, stay refl))
      (λ _ _. (r, e, stay refl))

-- Every call moves every store along an edge of the lifecycle, or leaves it.
pub perform-Moves :
    (now : ℕ) (c : Call) (key : String) (repo : Repository) → Moves key repo (perform now c repo)
unfolding perform
perform-Moves now (ensures k g state) key repo = ensure_store-Moves now k g state key repo
perform-Moves now (begins k g) key repo =
    Updates-Moves key k repo _ (begin_deactivation-Updates now k g repo)
perform-Moves now (resumes k g) key repo =
    Updates-Moves key k repo _ (resume_deactivation-Updates now k g repo)
perform-Moves now (marks_inactive k g) key repo =
    Updates-Moves key k repo _ (mark_inactive-Updates now k g repo)
perform-Moves now (marks_failed k g) key repo =
    Updates-Moves key k repo _ (mark_deactivation_failed-Updates now k g repo)
perform-Moves now (writes k g w) key repo =
    Updates-Moves key k repo _ (write-Updates now k g repo w)
perform-Moves now (cleans k g c) key repo =
    Updates-Moves key k repo _ (clean-Updates now k g repo c)
