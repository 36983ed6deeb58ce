-- ===== src/Common/Panics.antt =====
-- A call that returns, or ends in `panic()`, which never returns.
use mathlib.Core.Path.{◌≡◌, refl}
use mathlib.Core.Logic.{◌⊎◌, inl, inr}

pub data Outcome {ℓ} (A : Type ℓ) : Type ℓ where
  ok : A → Outcome A
  panic : Outcome A

infixl 5 ◌>>=◌
abbrev pub ◌>>=◌ {ℓ κ} : {A : Type ℓ} {B : Type κ} → Outcome A → (A → Outcome B) → Outcome B
ok a >>= f = f a
panic >>= f = panic

pub Outcome-cases {ℓ} : {A : Type ℓ} (o : Outcome A) → ((a : A) × (o ≡ ok a)) ⊎ (o ≡ panic)
Outcome-cases (ok a) = inl (a, refl)
Outcome-cases panic = inr refl

-- Where a chain of calls returns, its first call has returned, and so has the rest of the chain.
pub returned {ℓ κ} :
    {A : Type ℓ} {B : Type κ} (call : Outcome A) (rest : A → Outcome B) {r : B}
    → (call >>= rest) ≡ ok r
    → (a : A) × (call ≡ ok a) × (rest a ≡ ok r)
returned panic rest e = cc
returned (ok a) rest e = (a, refl, e)
