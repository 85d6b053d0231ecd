-- ===== src/Dict/Laws.antt =====
-- The laws of a dict, each read at one key, and the sizes of dicts whose keys are distinct.
use golden_retriever.Prelude.{
  ◌+◌, String, ◌≡◌, refl, ap, ite, Bool, true, false, Option, none, some, List, [], ◌∷◌, arith,
  str_dec, length, elem, Distinct,
}
use golden_retriever.Dict.{
  Dict, lookup, insert, erase, keys_of, keys, empty, get, has, put, remove, size,
}

abbrev pub is_some {ℓ} : {A : Type ℓ} → Option A → Bool
is_some none = false
is_some (some a) = true

module _ {ℓ} {V : Type ℓ} where
  -- A Python dict holds each key once.
  abbrev pub Unique : Dict V → Type 0
  Unique d = Distinct (keys d)

  elem-lookup : (k : String) (l : List (String × V)) → elem k (keys_of l) ≡ is_some (lookup k l)
  unfolding elem lookup
  elem-lookup k [] = refl
  elem-lookup k (e ∷ l) = ground (arith, elem-lookup k l)

  lookup-insert :
      (j k : String) (v : V) (l : List (String × V))
      → lookup j (insert k v l) ≡ ite (str_dec k j) (some v) (lookup j l)
  unfolding lookup insert
  lookup-insert j k v [] = refl
  lookup-insert j k v (e ∷ l) = ground (arith, lookup-insert j k v l)

  lookup-erase :
      (j k : String) (l : List (String × V))
      → lookup j (erase k l) ≡ ite (str_dec k j) none (lookup j l)
  unfolding lookup erase
  lookup-erase j k [] = ground arith
  lookup-erase j k (e ∷ l) = ground (arith, lookup-erase j k l)

  elem-insert :
      (j k : String) (v : V) (l : List (String × V))
      → elem j (keys_of (insert k v l)) ≡ ite (str_dec k j) true (elem j (keys_of l))
  unfolding elem insert
  elem-insert j k v [] = refl
  elem-insert j k v (e ∷ l) = ground (arith, elem-insert j k v l)

  elem-erase :
      (j k : String) (l : List (String × V))
      → elem j (keys_of (erase k l)) ≡ ite (str_dec k j) false (elem j (keys_of l))
  unfolding elem erase
  elem-erase j k [] = ground arith
  elem-erase j k (e ∷ l) = ground (arith, elem-erase j k l)

  Distinct-insert :
      (k : String) (v : V) (l : List (String × V))
      → Distinct (keys_of l)
      → Distinct (keys_of (insert k v l))
  unfolding insert
  Distinct-insert k v [] d = (unfold elem in refl, tt)
  Distinct-insert k v (e ∷ l) d = ground (arith, elem-insert e.0 k v l, Distinct-insert k v l d.1)

  Distinct-erase :
      (k : String) (l : List (String × V)) → Distinct (keys_of l) → Distinct (keys_of (erase k l))
  unfolding erase
  Distinct-erase k [] d = tt
  Distinct-erase k (e ∷ l) d = ground (arith, elem-erase e.0 k l, Distinct-erase k l d.1)

  length-insert :
      (k : String) (v : V) (l : List (String × V))
      → elem k (keys_of l) ≡ false
      → length (insert k v l) ≡ length l + 1
  unfolding elem insert
  length-insert k v [] h = omega arith
  length-insert k v (e ∷ l) h = ground (arith, length-insert k v l)

  pub erase_absent :
      (k : String) (l : List (String × V)) → elem k (keys_of l) ≡ false → erase k l ≡ l
  unfolding elem erase
  erase_absent k [] h = refl
  erase_absent k (e ∷ l) h = ground (arith, erase_absent k l)

  length-erase :
      (k : String) (l : List (String × V))
      → Distinct (keys_of l)
      → elem k (keys_of l) ≡ true
      → length (erase k l) + 1 ≡ length l
  unfolding elem erase
  length-erase k [] d h = cc
  length-erase k (e ∷ l) d h = ground (arith, erase_absent k l, length-erase k l d.1)

  pub get-put :
      (j k : String) (v : V) (d : Dict V) → get j (put k v d) ≡ ite (str_dec k j) (some v) (get j d)
  unfolding get put
  get-put j k v d = lookup-insert j k v d.entries

  pub get-remove :
      (j k : String) (d : Dict V) → get j (remove k d) ≡ ite (str_dec k j) none (get j d)
  unfolding get remove
  get-remove j k d = lookup-erase j k d.entries

  pub has-put :
      (j k : String) (v : V) (d : Dict V) → has j (put k v d) ≡ ite (str_dec k j) true (has j d)
  unfolding has put
  has-put j k v d = elem-insert j k v d.entries

  pub has-remove :
      (j k : String) (d : Dict V) → has j (remove k d) ≡ ite (str_dec k j) false (has j d)
  unfolding has remove
  has-remove j k d = elem-erase j k d.entries

  -- A key is there exactly when the read finds a value.
  pub has-get : (k : String) (d : Dict V) → has k d ≡ is_some (get k d)
  unfolding has get
  has-get k d = elem-lookup k d.entries

  pub put-Unique : (k : String) (v : V) (d : Dict V) → Unique d → Unique (put k v d)
  unfolding put
  put-Unique k v d u = Distinct-insert k v d.entries u

  pub remove-Unique : (k : String) (d : Dict V) → Unique d → Unique (remove k d)
  unfolding remove
  remove-Unique k d u = Distinct-erase k d.entries u

  pub size-put_new :
      (k : String) (v : V) (d : Dict V) → has k d ≡ false → size (put k v d) ≡ size d + 1
  unfolding has put size
  size-put_new k v d h = length-insert k v d.entries h

  pub size-remove :
      (k : String) (d : Dict V) → Unique d → has k d ≡ true → size (remove k d) + 1 ≡ size d
  unfolding has remove size
  size-remove k d u h = length-erase k d.entries u h

  pub remove_absent : (k : String) (d : Dict V) → has k d ≡ false → remove k d ≡ d
  unfolding has remove
  remove_absent k d h = ap (λ l. record { entries = l }) (erase_absent k d.entries h)

pub has-empty {ℓ} : (V : Type ℓ) (k : String) → has k (empty {V = V}) ≡ false
unfolding has empty elem
has-empty V k = refl

pub ruleset dict_laws = (get-put, get-remove, has-put, has-remove)
