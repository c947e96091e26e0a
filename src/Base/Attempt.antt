-- ===== src/Base/Attempt.antt =====
-- What a function returns or raises, for errors of any type.
use mathlib.Core.Path.{◌≡◌, refl}

pub data Attempt {ℓ} (E : Type 0) (A : Type ℓ) : Type ℓ where
  returned : A → Attempt E A
  raised : E → Attempt E A

module _ {ℓ κ} {E : Type 0} {A : Type ℓ} {B : Type κ} where
  infixl 5 ◌>>=◌
  abbrev pub ◌>>=◌ : Attempt E A → (A → Attempt E B) → Attempt E B
  returned a >>= next = next a
  raised error >>= next = raised error

  -- What returns at the end has returned at its first step.
  pub >>=-eq-returned :
      (first : Attempt E A) (next : A → Attempt E B) {b : B}
      → (first >>= next) ≡ returned b
      → (a : A) × (first ≡ returned a) × (next a ≡ returned b)
  >>=-eq-returned (returned a) next h = (a, refl, h)
  >>=-eq-returned (raised error) next h = cc

pub returned-injective {ℓ} :
    {E : Type 0} {A : Type ℓ} {a b : A} → Path (Attempt E A) (returned a) (returned b) → a ≡ b
returned-injective h = cc
