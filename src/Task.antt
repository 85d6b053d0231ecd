-- ===== src/Task.antt =====
-- A coroutine that runs to its end over a state: it returns, raises an exception, of which the
-- text is kept, or is canceled (`asyncio.CancelledError`, which `except Exception` lets
-- through).
use golden_retriever.Prelude.{String}

pub data Exit {ℓ} (A : Type ℓ) : Type ℓ where
  returned : A → Exit A
  raised : String → Exit A
  canceled : Exit A

abbrev pub Task {ℓ κ} : Type κ → Type ℓ → Type (ℓ ⊔ κ)
Task S A = S → Exit A × S

module _ {ℓ κ μ} {S : Type κ} {A : Type ℓ} {B : Type μ} where
  abbrev pub and_then : (A → Task S B) → Exit A × S → Exit B × S
  and_then k (returned a, s) = k a s
  and_then k (raised message, s) = (raised message, s)
  and_then k (canceled, s) = (canceled, s)

infixl 5 ◌>>=◌ ◌>>◌
abbrev pub ◌>>=◌ {ℓ κ μ} :
    {S : Type κ} {A : Type ℓ} {B : Type μ} → Task S A → (A → Task S B) → Task S B
(m >>= k) s = and_then k (m s)

abbrev pub ◌>>◌ {ℓ κ} : {S : Type κ} {B : Type ℓ} → Task S (Unit {0}) → Task S B → Task S B
(m >> k) s = and_then (λ _. k) (m s)

abbrev pub return {ℓ κ} : {S : Type κ} {A : Type ℓ} → A → Task S A
return a s = (returned a, s)

-- `try: body; except Exception as exc: handler(str(exc))`
abbrev pub or_handle {ℓ κ} :
    {S : Type κ} {A : Type ℓ} → (String → Task S A) → Exit A × S → Exit A × S
or_handle handler (returned a, s) = (returned a, s)
or_handle handler (raised message, s) = handler message s
or_handle handler (canceled, s) = (canceled, s)

abbrev pub try {ℓ κ} : {S : Type κ} {A : Type ℓ} → Task S A → (String → Task S A) → Task S A
try body handler s = or_handle handler (body s)

-- What holds of the state after a task, by its exit.
module _ {ℓ κ μ} {S : Type κ} where
  abbrev pub Post :
      {A : Type ℓ} → (A → S → Type μ) → (S → Type μ) → (S → Type μ) → Exit A × S → Type μ
  Post Q E C (returned a, s) = Q a s
  Post Q E C (raised message, s) = E s
  Post Q E C (canceled, s) = C s

  pub weaken-Post :
      {A : Type ℓ} (Q Q' : A → S → Type μ) (E C : S → Type μ) (x : Exit A × S)
      → ((a : A) (s : S) → Q a s → Q' a s)
      → Post Q E C x
      → Post Q' E C x
  weaken-Post Q Q' E C (returned a, s) h q = h a s q
  weaken-Post Q Q' E C (raised message, s) h q = q
  weaken-Post Q Q' E C (canceled, s) h q = q

  pub try-Post :
      {A : Type ℓ} (Q : A → S → Type μ) (E E' C : S → Type μ) (m : Task S A)
      (handler : String → Task S A) (s : S)
      → Post Q E C (m s)
      → ((message : String) (s' : S) → E s' → Post Q E' C (handler message s'))
      → Post Q E' C (try m handler s)
  try-Post {A} Q E E' C m handler s p h = go (m s) p
    where
      go : (x : Exit A × S) → Post Q E C x → Post Q E' C (or_handle handler x)
      go (returned a, s') q = q
      go (raised message, s') q = h message s' q
      go (canceled, s') q = q

pub bind-Post {ℓ κ μ ν} :
    {S : Type κ} {A : Type ℓ} {B : Type ν} (Q : A → S → Type μ) (R : B → S → Type μ)
    (E C : S → Type μ) (m : Task S A) (k : A → Task S B) (s : S)
    → Post Q E C (m s)
    → ((a : A) (s' : S) → Q a s' → Post R E C (k a s'))
    → Post R E C (and_then k (m s))
bind-Post {S} {A} Q R E C m k s p h = go (m s) p
  where
    go : (x : Exit A × S) → Post Q E C x → Post R E C (and_then k x)
    go (returned a, s') q = h a s' q
    go (raised message, s') q = q
    go (canceled, s') q = q
