-- ===== src/Quota/Stale.antt =====
-- `grant_available_permits` and the ids of the queue whose request is gone.
use mathlib.Core.Path.{fun_ext}
use golden_retriever.Prelude.{
  ℕ, String, ◌≡◌, refl, ap, sym, ◌∙◌, Bool, true, false, ◌||◌, ite, List, [], ◌∷◌, ◌++◌, arith,
  str_dec, if_cases, option_cases, ltb, leb,
}
use golden_retriever.Prelude.Int.{pos_part}
use golden_retriever.Dict.{get, has}
use golden_retriever.Dict.Laws.{has-get, has-remove}
use golden_retriever.Models.Quota.{PermitGrant, UserQuotaState}
use golden_retriever.Ids.{Digest}
use golden_retriever.Quota.Window.{quota_is_blocked, advance_due_quota_window, settle_window}
use golden_retriever.Quota.Grant.{affords, reserve, grant_for, grant_loop, grant_available_permits}
use golden_retriever.Quota.Fairness.{ids_of, pending_order-advance_due_quota_window}

-- The ids that wait, each at its first place.
abbrev pub live : (String → Bool) → List String → List String
live waits [] = []
live waits (k ∷ ks) = elim (waits k) [
  | true ↦ k ∷ live (λ j. ite (str_dec k j) false (waits j)) ks
  | false ↦ live waits ks
]

live_ext :
    (f g : String → Bool) (ks : List String) → ((j : String) → f j ≡ g j) → live f ks ≡ live g ks
live_ext f g ks same = ap (λ h. live h ks) (fun_ext same)

live_step :
    (waits : String → Bool) (k : String) (ks : List String)
    → waits k ≡ true
    → live waits (k ∷ ks) ≡ k ∷ live (λ j. ite (str_dec k j) false (waits j)) ks
live_step waits k ks h = rw (h, live) refl

live_skip :
    (waits : String → Bool) (k : String) (ks : List String)
    → waits k ≡ false
    → live waits (k ∷ ks) ≡ live waits ks
live_skip waits k ks h = rw (h, live) refl

-- A round takes the first ids of the queue, and grants those of them that wait, in order.
abbrev pub Pops : (String → Bool) → List String → UserQuotaState × List PermitGrant → Type 0
Pops waits order x =
    (popped : List String) × (popped ++ x.0.pending_order ≡ order)
    × (ids_of x.1 ≡ live waits popped)

module _ (digest : Digest) (now : ℕ) where
  grant_loop-Pops :
      (order : List String) (s : UserQuotaState)
      → Pops (λ k. has k s.pending) order (grant_loop digest now order s)
  unfolding grant_loop grant_for
  grant_loop-Pops [] s = ([], refl, refl)
  grant_loop-Pops (k ∷ order) s =
      let waits : String → Bool = λ j. has j s.pending in
      if_cases (Pops waits (k ∷ order)) (ltb s.in_flight (pos_part s.max_in_flight)) _ _
        (λ _.
          option_cases (Pops waits (k ∷ order)) (get k s.pending) _ _
            (λ gone.
              let (popped, whole, granted) = grant_loop-Pops order s in
              (
                k ∷ popped,
                ap (◌∷◌ k) whole,
                granted ∙ sym (live_skip waits k popped (ground (arith, has-get k s.pending))),
              ))
            (λ r there.
              if_cases (Pops waits (k ∷ order)) (affords s.remaining r.cost) _ _
                (λ _.
                  let (popped, whole, granted) = grant_loop-Pops order (reserve digest now k r s) in
                  (
                    k ∷ popped,
                    ap (◌∷◌ k) whole,
                    ap (◌∷◌ k) (
                          granted
                          ∙ live_ext _ _ popped (λ j. unfold reserve in has-remove j k s.pending))
                        ∙ sym (live_step waits k popped (ground (arith, has-get k s.pending))),
                  ))
                (λ _. ([], refl, refl))))
        (λ _. ([], refl, refl))

module _ (digest : Digest) (isoformat : ℕ → String) (now : ℕ) where
  pending-advance_due_quota_window :
      (s : UserQuotaState) → (advance_due_quota_window digest isoformat s now).0.pending ≡ s.pending
  unfolding advance_due_quota_window settle_window
  pending-advance_due_quota_window s = ground arith

  -- In any state, a round takes a prefix off the queue and leaves the rest; the granted ids are
  -- the ids of that prefix that have a pending request, in order and each once, so that an id
  -- whose request is gone is dropped and not granted.
  pub grant_available_permits-Pops :
      (s : UserQuotaState)
      → Pops (λ k. has k s.pending) s.pending_order (grant_available_permits digest isoformat s now)
  unfolding grant_available_permits
  grant_available_permits-Pops s =
      let current = (advance_due_quota_window digest isoformat s now).0 in
      let same = pending_order-advance_due_quota_window digest isoformat now s in
      if_cases (Pops (λ k. has k s.pending) s.pending_order)
        (quota_is_blocked current now || leb (pos_part current.max_in_flight) 0) _ _
        (λ _. ([], same, refl))
        (λ _.
          let (popped, whole, granted) = grant_loop-Pops digest now current.pending_order current in
          (
            popped,
            whole ∙ same,
            granted ∙ live_ext _ _ popped (λ k. ap (has k) (pending-advance_due_quota_window s)),
          ))
