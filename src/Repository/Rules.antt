-- ===== src/Repository/Rules.antt =====
-- Rules for what holds of a method's result: one for each check that a method may begin with.
use golden_retriever.Prelude.{String, ◌≡◌, refl, true, Option, none, some, arith}
use golden_retriever.Prelude.Int.{ℤ}
use golden_retriever.Dict.{get}
use golden_retriever.Models.Lifecycle.{deactivating}
use golden_retriever.Prelude.Result.{ok, err, ◌>>=◌}
pub use golden_retriever.Prelude.Result.{bind_cases, raise_unless_cases}
use golden_retriever.Repository.{
  Error, Outcome, unknown_store, StoreRecord, Repository, is_writable, require, require_writable,
  require_cleanup_generation,
}

module _ {ℓ κ} {A : Type ℓ} (P : Outcome A → Type κ) where
  pub require_cases :
      (repo : Repository) (key : String) (f : StoreRecord → Outcome A)
      → P (err (unknown_store key))
      → ((r : StoreRecord) → get key repo ≡ some r → P (f r))
      → P (require repo key >>= f)
  unfolding require
  require_cases repo key f pe pf = go (get key repo) refl
    where
      go :
          (o : Option StoreRecord)
          → get key repo ≡ o
          → P ((elim o [ none ↦ err (unknown_store key) | some r ↦ ok r ]) >>= f)
      go none e = pe
      go (some r) e = pf r e

  -- A write that is let through has the store's generation, and the store takes writes.
  pub require_writable_cases :
      (repo : Repository) (key : String) (g : ℤ) (f : StoreRecord → Outcome A)
      → ((e : Error) → require_writable repo key g ≡ err e → P (err e))
      → ((r : StoreRecord)
          → get key repo ≡ some r
          → r.lifecycle_generation ≡ g
          → is_writable r.lifecycle_state ≡ true
          → P (f r))
      → P (require_writable repo key g >>= f)
  require_writable_cases repo key g f pe pf =
      bind_cases P (require_writable repo key g) f pe
        (λ r e. pf r (admitted r e).0 (admitted r e).1 (admitted r e).2)
    where
      admitted :
          (r : StoreRecord)
          → require_writable repo key g ≡ ok r
          → (get key repo ≡ some r)
            × (r.lifecycle_generation ≡ g)
            × (is_writable r.lifecycle_state ≡ true)
      admitted r e = unfold require_writable in ground arith

  pub require_cleanup_cases :
      (repo : Repository) (key : String) (g : ℤ) (f : StoreRecord → Outcome A)
      → ((e : Error) → require_cleanup_generation repo key g ≡ err e → P (err e))
      → ((r : StoreRecord)
          → get key repo ≡ some r
          → r.lifecycle_generation ≡ g
          → r.lifecycle_state ≡ deactivating
          → P (f r))
      → P (require_cleanup_generation repo key g >>= f)
  require_cleanup_cases repo key g f pe pf =
      bind_cases P (require_cleanup_generation repo key g) f pe
        (λ r e. pf r (admitted r e).0 (admitted r e).1 (admitted r e).2)
    where
      admitted :
          (r : StoreRecord)
          → require_cleanup_generation repo key g ≡ ok r
          → (get key repo ≡ some r)
            × (r.lifecycle_generation ≡ g)
            × (r.lifecycle_state ≡ deactivating)
      admitted r e = unfold require_cleanup_generation in ground arith
