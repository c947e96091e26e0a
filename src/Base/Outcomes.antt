-- ===== src/Base/Outcomes.antt =====
-- Predicates on what is returned, found or kept, and how they pass through a step.
use mathlib.Core.Path.{◌≡◌, refl, subst}
use mathlib.Core.Logic.{inl, inr}
use mathlib.Core.Bool.{Bool, true, false}
use mathlib.Core.Option.{Option, none, some}
use mathlib.Core.List.{[], ◌∷◌}
use m365_xdr_cli.Base.Tests.{if◌then◌else◌, Bool-cases}
use m365_xdr_cli.Base.Lists.{All}
use m365_xdr_cli.Base.Strings.{Text, text_eq}
use m365_xdr_cli.Base.Dict.{Dict, lookup, insert, remove}
use m365_xdr_cli.Base.Attempt.{Attempt, returned, raised, ◌>>=◌}

-- The value has the property, if there is one.
abbrev pub Given {ℓ κ} : {A : Type ℓ} → (A → Type κ) → Option A → Type κ
Given P none = Unit
Given P (some a) = P a

-- What is returned has the property.
abbrev pub Returns {ℓ κ} : {E : Type 0} {A : Type ℓ} → (A → Type κ) → Attempt E A → Type κ
Returns P (raised e) = Unit
Returns P (returned a) = P a

module _ {ℓ κ μ ν} {E : Type 0} {A : Type ℓ} {B : Type κ} (P : A → Type μ) (Q : B → Type ν) where
  pub Returns-bind :
      (m : Attempt E A) (k : A → Attempt E B)
      → Returns P m
      → ((a : A) → P a → Returns Q (k a))
      → Returns Q (m >>= k)
  Returns-bind (raised e) k h f = tt
  Returns-bind (returned a) k h f = f a h

  pub Returns-found :
      (m : Attempt E (Option A)) (k : A → Attempt E (Option B))
      → Returns (Given P) m
      → ((a : A) → P a → Returns (Given Q) (k a))
      → Returns (Given Q) (m >>= λ found. elim found [ none ↦ returned none | some a ↦ k a ])
  Returns-found (raised e) k h f = tt
  Returns-found (returned none) k h f = tt
  Returns-found (returned (some a)) k h f = f a h

-- No property.
abbrev pub Always {ℓ} : {A : Type ℓ} → A → Type 0
Always a = Unit

module _ {ℓ} {A : Type ℓ} where
  pub always : {E : Type 0} (m : Attempt E A) → Returns Always m
  always (raised e) = tt
  always (returned a) = tt

  pub found_any : {E : Type 0} (m : Attempt E (Option A)) → Returns (Given Always) m
  found_any (raised e) = tt
  found_any (returned none) = tt
  found_any (returned (some a)) = tt

module _ {ℓ κ} {E : Type 0} {A : Type ℓ} (P : A → Type κ) where
  pub Returns-if :
      (b : Bool) (x y : Attempt E A) → Returns P x → Returns P y → Returns P (if b then x else y)
  Returns-if true x y h k = h
  Returns-if false x y h k = k

  pub Returns-case :
      (b : Bool) (x y : Attempt E A)
      → (b ≡ true → Returns P x)
      → Returns P y
      → Returns P (if b then x else y)
  Returns-case true x y h k = h refl
  Returns-case false x y h k = k

  pub Returns-eq : (m : Attempt E A) (a : A) → m ≡ returned a → Returns P m → P a
  Returns-eq m a e h = subst (Returns P) e h

pub Returns-map {ℓ κ μ} :
    {E : Type 0} {A : Type ℓ} (P : A → Type κ) (Q : A → Type μ) (m : Attempt E A)
    → Returns P m
    → ((a : A) → P a → Q a)
    → Returns Q m
Returns-map P Q (raised e) h f = tt
Returns-map P Q (returned a) h f = f a h

-- What a step returns, as an equation.
pub Returns-self {ℓ} :
    {E : Type 0} {A : Type ℓ} (m : Attempt E A) → Returns (λ (a : A). m ≡ returned a) m
Returns-self (raised e) = tt
Returns-self (returned a) = refl

module _ {ℓ κ} {V : Type ℓ} (P : V → Type κ) where
  -- Every value of the dictionary has the property.
  abbrev pub AllValues : Dict V → Type κ
  AllValues = All (λ (entry : Text × V). P entry.1)

  pub lookup-Given : (k : Text) (d : Dict V) → AllValues d → Given P (lookup k d)
  unfolding lookup
  lookup-Given k [] h = tt
  lookup-Given k ((j, v) ∷ d) (h, hs) = elim (Bool-cases (text_eq k j)) [
    | inl y ↦ rw y h
    | inr n ↦ rw n (lookup-Given k d hs)
  ]

  pub insert-AllValues :
      (k : Text) (v : V) (d : Dict V) → P v → AllValues d → AllValues (insert k v d)
  unfolding insert
  insert-AllValues k v [] p h = (p, tt)
  insert-AllValues k v ((j, w) ∷ d) p (h, hs) = elim (Bool-cases (text_eq k j)) [
    | inl y ↦ rw y (p, hs)
    | inr n ↦ rw n (h, insert-AllValues k v d p hs)
  ]

  pub remove-AllValues : (k : Text) (d : Dict V) → AllValues d → AllValues (remove k d)
  unfolding remove
  remove-AllValues k [] h = tt
  remove-AllValues k ((j, v) ∷ d) (h, hs) = elim (Bool-cases (text_eq k j)) [
    | inl y ↦ rw y (remove-AllValues k d hs)
    | inr n ↦ rw n (h, remove-AllValues k d hs)
  ]
