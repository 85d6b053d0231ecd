-- ===== src/Waiter/Window.antt =====
-- The window of the requests that have ended.
use golden_retriever.Prelude.{
  ℕ, zero, suc, ◌-◌, ◌≤◌, String, ◌≡◌, refl, sym, ap, ◌∙◌, ◌⊎◌, inl, inr, false, List, [], ◌∷◌,
  ◌++◌, arith, elem, Distinct, length, length-append, length-drop, take, drop, remove_first,
}
use mathlib.Core.List.{append_assoc}
use golden_retriever.Quota.Terminal.{evict, cut_window}
use golden_retriever.Waiter.{default_grant_dedup_size, Inbox, mark_quota_request_terminal}

-- The terminal ids are the last of the ended requests: all of them, or as many as the window
-- holds.
abbrev pub Recent : List String → List String → Type 0
Recent ended order =
    (older : List String) × (ended ≡ older ++ order)
    × ((older ≡ []) ⊎ (length order ≡ default_grant_dedup_size))

evict-take : (n : ℕ) (xs : List String) → evict (take n xs) xs ≡ drop n xs
unfolding evict elem remove_first
evict-take zero xs = refl
evict-take (suc n) [] = refl
evict-take (suc n) (x ∷ xs) = ground (arith, evict-take n xs)

pub Distinct-drop : (n : ℕ) (xs : List String) → Distinct xs → Distinct (drop n xs)
Distinct-drop zero xs d = d
Distinct-drop (suc n) [] d = tt
Distinct-drop (suc n) (x ∷ xs) d = Distinct-drop n xs d.1

pub elem-drop :
    (k : String) (n : ℕ) (xs : List String) → elem k xs ≡ false → elem k (drop n xs) ≡ false
unfolding elem
elem-drop k zero xs h = h
elem-drop k (suc n) [] h = refl
elem-drop k (suc n) (x ∷ xs) h = elem-drop k n xs (ground arith)

take-drop : (n : ℕ) (xs : List String) → take n xs ++ drop n xs ≡ xs
take-drop zero xs = refl
take-drop (suc n) [] = refl
take-drop (suc n) (x ∷ xs) = ap (◌∷◌ x) (take-drop n xs)

-- The window after one more request has ended.
abbrev pub next_order : String → List String → List String
next_order k order = let all = order ++ k ∷ [] in drop (length all - default_grant_dedup_size) all

pub mark-next :
    (k : String) (s : Inbox)
    → s.terminal_request_ids ≡ s.terminal_order
    → elem k s.terminal_request_ids ≡ false
    → mark_quota_request_terminal k s ≡ record s {
      terminal_request_ids = next_order k s.terminal_order;
      terminal_order = next_order k s.terminal_order;
    }
unfolding mark_quota_request_terminal cut_window
mark-next k s set new =
    let all = s.terminal_order ++ k ∷ [] in
    ground (arith, set, new, evict-take (length all - default_grant_dedup_size) all)

pub next_order-Recent :
    (k : String) (ended order : List String)
    → Recent ended order
    → length order ≤ default_grant_dedup_size
    → Recent (ended ++ k ∷ []) (next_order k order)
next_order-Recent k ended order (older, split, whole) bounded =
    let all = order ++ k ∷ [] in
    let n = length all - default_grant_dedup_size in
    (
      older ++ take n all,
      ap (λ l. l ++ k ∷ []) split
          ∙ append_assoc older order (k ∷ [])
          ∙ ap (λ l. older ++ l) (sym (take-drop n all))
          ∙ sym (append_assoc older (take n all) (drop n all)),
      by_overflow n refl,
    )
  where
    by_overflow :
        (n : ℕ)
        → n ≡ length (order ++ k ∷ []) - default_grant_dedup_size
        → ((older ++ take n (order ++ k ∷ [])) ≡ [])
          ⊎ (length (drop n (order ++ k ∷ [])) ≡ default_grant_dedup_size)
    by_overflow zero e = elim whole [
      | inl none_older ↦ inl (ap (λ l. l ++ []) none_older)
      | inr full ↦ absurd (omega (arith, e, full, length-append order (k ∷ [])))
    ]
    by_overflow (suc n) e = inr (omega (arith, e, length-drop (suc n) (order ++ k ∷ [])))
