-- ===== src/Prelude/Result.antt =====
-- What a Python call returns or raises, with `do`.
use native.Mathlib.Omega.{arith}
use mathlib.Core.Path.{◌≡◌, refl}
use mathlib.Core.Bool.{Bool, true, false}

pub data Result {ℓ κ} (E : Type κ) (A : Type ℓ) : Type (ℓ ⊔ κ) where
  err : E → Result E A
  ok : A → Result E A

infixl 5 ◌>>=◌ ◌>>◌
abbrev pub ◌>>=◌ {ℓ μ κ} :
    {E : Type κ} {A : Type ℓ} {B : Type μ} → Result E A → (A → Result E B) → Result E B
err e >>= k = err e
ok a >>= k = k a

abbrev pub ◌>>◌ {ℓ κ} : {E : Type κ} {B : Type ℓ} → Result E (Unit {0}) → Result E B → Result E B
checked >> rest = checked >>= λ _. rest

-- `if not test: raise error`
abbrev pub raise_unless {κ} : {E : Type κ} → Bool → E → Result E (Unit {0})
raise_unless false e = err e
raise_unless true _ = ok tt

-- What holds of a result, step by step.
module _ {ℓ κ μ} {E : Type κ} {A : Type ℓ} (P : Result E A → Type μ) where
  pub raise_unless_cases :
      (b : Bool) (e : E) (k : Result E A) → P (err e) → (b ≡ true → P k) → P (raise_unless b e >> k)
  raise_unless_cases true e k pe pk = pk refl
  raise_unless_cases false e k pe pk = pe

  pub bind_cases {ν} :
      {B : Type ν} (m : Result E B) (f : B → Result E A)
      → ((e : E) → m ≡ err e → P (err e))
      → ((b : B) → m ≡ ok b → P (f b))
      → P (m >>= f)
  bind_cases (ok b) f pe pf = pf b refl
  bind_cases (err e) f pe pf = pe e refl

-- Of a sequence that returned, the first step did.
pub >>-ok {ℓ κ} :
    {E : Type κ} {A : Type ℓ} (m : Result E (Unit {0})) (k : Result E A) {a : A}
    → (m >> k) ≡ ok a
    → m ≡ ok tt
>>-ok (ok u) k e = refl
>>-ok (err e) k h = ground arith
