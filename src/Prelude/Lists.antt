-- ===== src/Prelude/Lists.antt =====
-- Lists measured by native numbers, and lists of texts as Python's lists and sets of ids.
use Prim.Native.Nat.{ℕ, zero, suc, ◌+◌, ◌-◌}
use Prim.Native.String.{String, compare}
use Prim.Native.Nat.{Ordering}
use mathlib.Core.Path.{◌≡◌, refl, ◌∙◌}
use mathlib.Core.Logic.{ite}
use mathlib.Core.Bool.{Bool, true, false, ◌||◌}
use mathlib.Core.List.{List, [], ◌∷◌, ◌++◌}
use native.Mathlib.Omega.{arith}
use golden_retriever.Prelude.Tests.{str_dec, if◌then◌else◌}

module _ {ℓ} {A : Type ℓ} where
  abbrev pub length : List A → ℕ
  length [] = 0
  length (x ∷ xs) = suc (length xs)

  abbrev pub is_nil : List A → Bool
  is_nil [] = true
  is_nil (x ∷ xs) = false

  abbrev pub take : ℕ → List A → List A
  take zero xs = []
  take (suc n) [] = []
  take (suc n) (x ∷ xs) = x ∷ take n xs

  abbrev pub drop : ℕ → List A → List A
  drop zero xs = xs
  drop (suc n) [] = []
  drop (suc n) (x ∷ xs) = drop n xs

  pub length-append : (xs ys : List A) → length (xs ++ ys) ≡ length xs + length ys
  length-append [] ys = omega arith
  length-append (x ∷ xs) ys = omega (arith, length-append xs ys)

  pub length-drop : (n : ℕ) (xs : List A) → length (drop n xs) ≡ length xs - n
  length-drop zero xs = omega arith
  length-drop (suc n) [] = omega arith
  length-drop (suc n) (x ∷ xs) = omega (arith, length-drop n xs)

-- `k in l`
unfoldable pub elem : String → List String → Bool
elem k [] = false
elem k (x ∷ xs) = ite (str_dec x k) true (elem k xs)

-- `[x for x in l if x != k]`
unfoldable pub without : String → List String → List String
without k [] = []
without k (x ∷ xs) = let rest = without k xs in ite (str_dec x k) rest (x ∷ rest)

-- `l.remove(k)`, of a `k` that is there: the first occurrence goes.
unfoldable pub remove_first : String → List String → List String
remove_first k [] = []
remove_first k (x ∷ xs) = ite (str_dec x k) xs (x ∷ remove_first k xs)

-- No text stands twice.
abbrev pub Distinct : List String → Type 0
Distinct [] = Unit {0}
Distinct (x ∷ xs) = (elem x xs ≡ false) × Distinct xs

insert_sorted : String → List String → List String
insert_sorted k [] = k ∷ []
insert_sorted k (x ∷ xs) = elim (compare x k) [
  | Ordering.gt ↦ k ∷ x ∷ xs
  | _ ↦ x ∷ insert_sorted k xs
]

-- `sorted(l)`: by code points.
unfoldable pub sorted : List String → List String
unfolding insert_sorted
sorted [] = []
sorted (x ∷ xs) = insert_sorted x (sorted xs)

-- `xs | ys` on sets, as lists without repetition.
unfoldable pub union : List String → List String → List String
union xs [] = xs
union xs (y ∷ ys) = if elem y xs then union xs ys else union (xs ++ y ∷ []) ys

-- `[x for x in order if x not in ids]`
unfoldable pub drop_ids : List String → List String → List String
drop_ids ids [] = []
drop_ids ids (x ∷ xs) = let rest = drop_ids ids xs in if elem x ids then rest else x ∷ rest

pub elem-append : (k : String) (xs ys : List String) → elem k (xs ++ ys) ≡ (elem k xs || elem k ys)
unfolding elem
elem-append k [] ys = refl
elem-append k (x ∷ xs) ys = ground (arith, elem-append k xs ys)

pub elem-without :
    (k j : String) (xs : List String) → elem k (without j xs) ≡ ite (str_dec j k) false (elem k xs)
unfolding elem without
elem-without k j [] = ground arith
elem-without k j (x ∷ xs) = ground (arith, elem-without k j xs)

pub Distinct-without : (j : String) (xs : List String) → Distinct xs → Distinct (without j xs)
unfolding without
Distinct-without j [] d = tt
Distinct-without j (x ∷ xs) d = ground (arith, Distinct-without j xs d.1, elem-without x j xs)

pub Distinct-snoc :
    (j : String) (xs : List String) → elem j xs ≡ false → Distinct xs → Distinct (xs ++ j ∷ [])
unfolding elem
Distinct-snoc j [] h d = (refl, tt)
Distinct-snoc j (x ∷ xs) h d = ground (arith, elem-append x xs (j ∷ []), Distinct-snoc j xs)

elem-insert_sorted :
    (k j : String) (xs : List String)
    → elem k (insert_sorted j xs) ≡ ite (str_dec j k) true (elem k xs)
unfolding elem insert_sorted
elem-insert_sorted k j [] = refl
elem-insert_sorted k j (x ∷ xs) = ground (arith, elem-insert_sorted k j xs)

-- Sorting keeps the members.
pub elem-sorted : (k : String) (xs : List String) → elem k (sorted xs) ≡ elem k xs
unfolding elem sorted
elem-sorted k [] = refl
elem-sorted k (x ∷ xs) = ground (arith, elem-insert_sorted k x (sorted xs), elem-sorted k xs)

pub Distinct-append :
    (xs ys : List String)
    → Distinct xs
    → Distinct ys
    → ((k : String) → elem k xs ≡ true → elem k ys ≡ false)
    → Distinct (xs ++ ys)
unfolding elem
Distinct-append [] ys dx dy apart = dy
Distinct-append (x ∷ xs) ys dx dy apart =
    let here : elem x ys ≡ false = apart x (ground arith) in
    (
      ground (arith, elem-append x xs ys),
      Distinct-append xs ys dx.1 dy (λ k h. apart k (ground arith)),
    )

Distinct-insert_sorted :
    (j : String) (xs : List String)
    → elem j xs ≡ false
    → Distinct xs
    → Distinct (insert_sorted j xs)
unfolding elem insert_sorted
Distinct-insert_sorted j [] h d = (refl, tt)
Distinct-insert_sorted j (x ∷ xs) h d =
    ground (arith, elem-insert_sorted x j xs, Distinct-insert_sorted j xs)

pub Distinct-sorted : (xs : List String) → Distinct xs → Distinct (sorted xs)
unfolding sorted
Distinct-sorted [] d = tt
Distinct-sorted (x ∷ xs) d =
    Distinct-insert_sorted x (sorted xs) (elem-sorted x xs ∙ d.0) (Distinct-sorted xs d.1)

pub elem-drop_ids :
    (j : String) (ids order : List String)
    → elem j (drop_ids ids order) ≡ (if elem j ids then false else elem j order)
unfolding drop_ids elem
elem-drop_ids j ids [] = ground arith
elem-drop_ids j ids (x ∷ order) = ground (arith, elem-drop_ids j ids order)

pub Distinct-drop_ids : (ids order : List String) → Distinct order → Distinct (drop_ids ids order)
unfolding drop_ids
Distinct-drop_ids ids [] d = tt
Distinct-drop_ids ids (x ∷ order) d =
    ground (arith, elem-drop_ids x ids order, Distinct-drop_ids ids order d.1)

pub drop_ids_all :
    (ids xs : List String)
    → ((k : String) → elem k xs ≡ true → elem k ids ≡ true)
    → drop_ids ids xs ≡ []
unfolding drop_ids elem
drop_ids_all ids [] h = refl
drop_ids_all ids (x ∷ xs) h = ground (arith, h x, drop_ids_all ids xs (λ k e. h k (ground arith)))

-- `list(dict.fromkeys(l))`: each id where it stands first.
unfoldable pub dedupe : List String → List String
dedupe [] = []
dedupe (x ∷ xs) = x ∷ without x (dedupe xs)

pub elem-dedupe : (k : String) (xs : List String) → elem k (dedupe xs) ≡ elem k xs
unfolding dedupe elem
elem-dedupe k [] = refl
elem-dedupe k (x ∷ xs) = ground (arith, elem-dedupe k xs, elem-without k x (dedupe xs))

pub Distinct-dedupe : (xs : List String) → Distinct (dedupe xs)
unfolding dedupe
Distinct-dedupe [] = tt
Distinct-dedupe (x ∷ xs) = (
  ground (arith, elem-without x x (dedupe xs)),
  Distinct-without x (dedupe xs) (Distinct-dedupe xs),
)
