-- ===== src/Repository/Members.antt =====
-- Sets of users: those that a call drops, and how many they are.
use golden_retriever.Prelude.{
  ◌+◌, String, ◌≡◌, refl, ap, List, [], ◌∷◌, ◌++◌, arith, elem, elem-append, drop_ids,
}
use golden_retriever.Repository.{count_members}

pub drop_ids-append : (p q xs : List String) → drop_ids (p ++ q) xs ≡ drop_ids q (drop_ids p xs)
unfolding drop_ids
drop_ids-append p q [] = refl
drop_ids-append p q (x ∷ xs) = ground (arith, drop_ids-append p q xs, elem-append x p q)

pub count_members-append :
    (p q xs : List String)
    → count_members (p ++ q) xs ≡ count_members p xs + count_members q (drop_ids p xs)
unfolding count_members drop_ids
count_members-append p q [] = refl
count_members-append p q (x ∷ xs) = ground (arith, count_members-append p q xs, elem-append x p q)

pub drop_ids-same :
    (p q xs : List String) → ((k : String) → elem k p ≡ elem k q) → drop_ids p xs ≡ drop_ids q xs
unfolding drop_ids
drop_ids-same p q [] h = refl
drop_ids-same p q (x ∷ xs) h = ground (arith, drop_ids-same p q xs h, h x)

pub count_members-same :
    (p q xs : List String)
    → ((k : String) → elem k p ≡ elem k q)
    → count_members p xs ≡ count_members q xs
unfolding count_members
count_members-same p q [] h = refl
count_members-same p q (x ∷ xs) h = ground (arith, count_members-same p q xs h, h x)

pub drop_ids-nil : (xs : List String) → drop_ids [] xs ≡ xs
unfolding drop_ids elem
drop_ids-nil [] = refl
drop_ids-nil (x ∷ xs) = ap (◌∷◌ x) (drop_ids-nil xs)

pub count_members-nil : (xs : List String) → count_members [] xs ≡ 0
unfolding count_members elem
count_members-nil [] = refl
count_members-nil (x ∷ xs) = count_members-nil xs
