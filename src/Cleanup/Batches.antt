-- ===== src/Cleanup/Batches.antt =====
-- The batches of `CleanupUsersWorkflow`.
use golden_retriever.Prelude.{
  ℕ, zero, suc, ◌≤◌, String, ◌≡◌, refl, ap, ◌∙◌, List, [], ◌∷◌, ◌++◌, arith, length, take, drop,
  length-drop,
}
use golden_retriever.Cleanup.Workflows.{batch_loop, batches}

abbrev pub flatten : List (List String) → List String
flatten [] = []
flatten (b ∷ bs) = b ++ flatten bs

-- Every batch has a key, and at most `size`.
abbrev pub AllWithin : ℕ → List (List String) → Type 0
AllWithin size [] = Unit {0}
AllWithin size (b ∷ bs) = ((1 ≤ length b) × (length b ≤ size)) × AllWithin size bs

take-drop : (n : ℕ) (xs : List String) → take n xs ++ drop n xs ≡ xs
take-drop zero xs = refl
take-drop (suc n) [] = refl
take-drop (suc n) (x ∷ xs) = ap (◌∷◌ x) (take-drop n xs)

length-take_le : (n : ℕ) (xs : List String) → length (take n xs) ≤ n
length-take_le zero xs = omega arith
length-take_le (suc n) [] = omega arith
length-take_le (suc n) (x ∷ xs) = omega (arith, length-take_le n xs)

flatten-batch_loop :
    (n size : ℕ) (xs : List String)
    → length xs ≤ n
    → 1 ≤ size
    → (flatten (batch_loop n size xs) ≡ xs) × AllWithin size (batch_loop n size xs)
unfolding batch_loop
flatten-batch_loop zero size [] short positive = (refl, tt)
flatten-batch_loop zero size (x ∷ xs) short positive = absurd (omega (arith, short))
flatten-batch_loop (suc n) size [] short positive = (refl, tt)
flatten-batch_loop (suc n) zero (x ∷ xs) short positive = absurd (omega (arith, positive))
flatten-batch_loop (suc n) (suc size) (x ∷ xs) short positive =
    let (whole, within) =
      flatten-batch_loop n (suc size) (drop size xs) (omega (arith, short, length-drop size xs))
        positive in
    (
      ap (λ l. x ∷ (take size xs ++ l)) whole ∙ ap (◌∷◌ x) (take-drop size xs),
      ((omega arith, omega (arith, length-take_le size xs)), within),
    )

-- With a positive size, the batches are the keys in their order, each once, and every batch has
-- at least one key and at most `size`.
pub batches_partition :
    (size : ℕ) (user_keys : List String)
    → 1 ≤ size
    → (flatten (batches size user_keys) ≡ user_keys) × AllWithin size (batches size user_keys)
unfolding batches
batches_partition size user_keys positive =
    flatten-batch_loop (length user_keys) size user_keys (omega arith) positive
