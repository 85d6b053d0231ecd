-- ===== src/Quota/Bounds.antt =====
-- What granting spends: slots and balance.
use golden_retriever.Prelude.{
  ℕ, ◌+◌, ◌≤◌, String, ◌≡◌, refl, ap, true, ◌||◌, List, [], ◌∷◌, Option, none, some, arith,
  if_cases, option_cases, ltb, leb, length,
}
use golden_retriever.Prelude.Int.{ℤ, pos, pos_part, neg_part, ◌≤ℤ◌, ◌+ℤ◌, int_laws}
use golden_retriever.Dict.{get}
use golden_retriever.Models.Quota.{PermitGrant, PermitRequest, UserQuotaState}
use golden_retriever.Ids.{Digest}
use golden_retriever.Quota.Window.{quota_is_blocked, advance_due_quota_window}
use golden_retriever.Quota.Grant.{
  affords, charge, reserve, grant_for, grant_loop, grant_available_permits,
}

pub total_cost : List PermitGrant → ℤ
total_cost [] = pos 0
total_cost (g ∷ gs) = g.cost +ℤ total_cost gs

-- An unknown balance stays unknown; a known one pays for the grants and does not fall below zero.
abbrev pub Pays : Option ℤ → List PermitGrant → Option ℤ → Type 0
Pays none gs after = after ≡ none
Pays (some balance) gs after =
    (rest : ℤ) × (after ≡ some rest)
    × (balance ≡ rest +ℤ total_cost gs)
    × (pos 0 ≤ℤ balance → pos 0 ≤ℤ rest)

Pays-nothing : (o : Option ℤ) → Pays o [] o
unfolding total_cost
Pays-nothing none = refl
Pays-nothing (some b) = (b, refl, omega int_laws, λ h. h)

Pays-grant :
    (o : Option ℤ) (g : PermitGrant) (gs : List PermitGrant) (after : Option ℤ)
    → affords o g.cost ≡ true
    → Pays (charge o g.cost) gs after
    → Pays o (g ∷ gs) after
unfolding total_cost
Pays-grant none g gs after a p = p
Pays-grant (some b) g gs after a (rest, e, paid, h) =
    let fits : g.cost ≤ℤ b = ground arith in
    (rest, e, omega (int_laws, ap pos_part paid, ap neg_part paid), λ n. h (omega int_laws))

abbrev pub Spends : UserQuotaState → UserQuotaState × List PermitGrant → Type 0
Spends s x =
    (x.0.in_flight ≡ s.in_flight + length x.1)
    × (s.in_flight ≤ pos_part s.max_in_flight → x.0.in_flight ≤ pos_part s.max_in_flight)
    × Pays s.remaining x.1 x.0.remaining

module _ (digest : Digest) (now : ℕ) where
  Spends-grant :
      (k : String) (r : PermitRequest) (s : UserQuotaState) (x : UserQuotaState × List PermitGrant)
      → ltb s.in_flight (pos_part s.max_in_flight) ≡ true
      → affords s.remaining r.cost ≡ true
      → Spends (reserve digest now k r s) x
      → Spends s (x.0, grant_for digest s k r ∷ x.1)
  unfolding reserve grant_for
  Spends-grant k r s x slot rich (n, m, p) = (
    omega arith,
    λ h. m (ground arith),
    Pays-grant s.remaining (grant_for digest s k r) x.1 x.0.remaining rich p,
  )

  grant_loop-Spends :
      (order : List String) (s : UserQuotaState) → Spends s (grant_loop digest now order s)
  unfolding grant_loop
  grant_loop-Spends [] s = (omega arith, λ h. h, Pays-nothing s.remaining)
  grant_loop-Spends (k ∷ order) s =
      let stopped : Spends s (record s { pending_order = k ∷ order }, []) =
        (omega arith, λ h. h, Pays-nothing s.remaining) in
      if_cases (Spends s) (ltb s.in_flight (pos_part s.max_in_flight)) _ _
        (λ slot.
          option_cases (Spends s) (get k s.pending) _ _ (λ e. grant_loop-Spends order s)
            (λ r e.
              if_cases (Spends s) (affords s.remaining r.cost) _ _
                (λ rich.
                  Spends-grant k r s (grant_loop digest now order (reserve digest now k r s)) slot
                    rich (grant_loop-Spends order (reserve digest now k r s)))
                (λ _. stopped)))
        (λ _. stopped)

  -- Each grant takes one slot, and never more than `max_in_flight` are taken; a known balance,
  -- as it is once the due boundaries have passed, falls by exactly the granted costs and not
  -- below zero.
  pub grant_available_permits-Spends :
      (isoformat : ℕ → String) (s : UserQuotaState)
      → Spends
          (advance_due_quota_window digest isoformat s now).0
          (grant_available_permits digest isoformat s now)
  unfolding grant_available_permits
  grant_available_permits-Spends isoformat s =
      let current = (advance_due_quota_window digest isoformat s now).0 in
      if_cases (Spends current)
        (quota_is_blocked current now || leb (pos_part current.max_in_flight) 0) _ _
        (λ _. (omega arith, λ h. h, Pays-nothing current.remaining))
        (λ _. grant_loop-Spends current.pending_order current)
