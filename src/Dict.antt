-- ===== src/Dict.antt =====
-- Python's `dict` with text keys, in insertion order.
pub mod Laws
use golden_retriever.Prelude.{
  ℕ, String, ite, Bool, Option, none, some, List, [], ◌∷◌, map, str_dec, length, elem,
}

pub record Dict {ℓ} (V : Type ℓ) : Type ℓ where
  pub entries : List (String × V)

module _ {ℓ} {V : Type ℓ} where
  unfoldable pub lookup : String → List (String × V) → Option V
  lookup k [] = none
  lookup k ((j, v) ∷ l) = ite (str_dec j k) (some v) (lookup k l)

  unfoldable pub erase : String → List (String × V) → List (String × V)
  erase k [] = []
  erase k ((j, v) ∷ l) = let rest = erase k l in ite (str_dec j k) rest ((j, v) ∷ rest)

  unfoldable pub insert : String → V → List (String × V) → List (String × V)
  insert k v [] = (k, v) ∷ []
  insert k v ((j, w) ∷ l) = ite (str_dec j k) ((j, v) ∷ l) ((j, w) ∷ insert k v l)

  abbrev pub keys_of : List (String × V) → List String
  keys_of = map (λ e. e.0)

  -- `list(d)`
  abbrev pub keys : Dict V → List String
  keys d = keys_of d.entries

  unfoldable pub empty : Dict V
  empty = record { entries = [] }

  -- `d.get(k)`
  unfoldable pub get : String → Dict V → Option V
  get k d = lookup k d.entries

  -- `k in d`
  unfoldable pub has : String → Dict V → Bool
  has k d = elem k (keys d)

  -- `d[k] = v`: the place of a key that is there stays.
  unfoldable pub put : String → V → Dict V → Dict V
  put k v d = record { entries = insert k v d.entries }

  -- `del d[k]`, and `d.pop(k, None)` for its effect
  unfoldable pub remove : String → Dict V → Dict V
  remove k d = record { entries = erase k d.entries }

  -- `len(d)`
  unfoldable pub size : Dict V → ℕ
  size d = length d.entries
