-- ===== src/Base/Decimal.antt =====
-- `f"{n}"` and `int(text)` for natural numbers in ASCII digits.
use Prim.Native.Nat.{ℕ, zero, suc, ◌+◌, ◌-◌, ◌*◌, ◌/◌, ◌%◌, ◌≤◌, ◌<◌}
use mathlib.Core.Path.{◌≡◌, refl, ap, ◌∙◌}
use mathlib.Core.Logic.{inl, inr}
use mathlib.Core.Bool.{Bool, true, ◌&&◌}
use mathlib.Core.List.{[], ◌∷◌, ◌++◌}
use native.Mathlib.Omega.{arith}
use m365_xdr_cli.Base.Tests.{leb, ltb, if◌then◌else◌, Bool-cases, lt→ltb}
use m365_xdr_cli.Base.Lists.{all, length, length-append, all-append}
use m365_xdr_cli.Base.Strings.{Text}

-- A character of `[0-9]`.
unfoldable pub is_digit : ℕ → Bool
is_digit c = leb 48 c && leb c 57

-- The digits of a number, the last one first; the fuel is more than the number has digits.
unfoldable pub digits_back : ℕ → ℕ → Text
digits_back zero n = []
digits_back (suc fuel) n =
    let rest = digits_back fuel (n / 10) in if ltb n 10 then (48 + n) ∷ [] else (48 + n % 10) ∷ rest

abbrev flip : Text → Text
flip [] = []
flip (c ∷ cs) = flip cs ++ (c ∷ [])

-- `f"{n}"`
unfoldable pub decimal : ℕ → Text
unfolding digits_back
decimal n = flip (digits_back (suc n) n)

-- `int(text)`, with what the digits before it amount to.
unfoldable pub number_from : ℕ → Text → ℕ
number_from n [] = n
number_from n (c ∷ cs) = number_from (n * 10 + (c - 48)) cs

abbrev pub number : Text → ℕ
number = number_from 0

number_from-append :
    (n : ℕ) (xs : Text) (c : ℕ) → number_from n (xs ++ (c ∷ [])) ≡ number_from n xs * 10 + (c - 48)
unfolding number_from
number_from-append n [] c = refl
number_from-append n (x ∷ xs) c = number_from-append (n * 10 + (x - 48)) xs c

number_small : (n : ℕ) → number ((48 + n) ∷ []) ≡ n
unfolding number_from
number_small n = omega arith

number-digits_back : (fuel n : ℕ) → n < fuel → number (flip (digits_back fuel n)) ≡ n
unfolding digits_back
number-digits_back zero n h = absurd (omega arith)
number-digits_back (suc fuel) n h = elim (Bool-cases (ltb n 10)) [
  | inl y ↦ rw y (number_small n)
  | inr m ↦
      let tens : number (flip (digits_back fuel (n / 10))) ≡ n / 10 =
        number-digits_back fuel (n / 10) (ground arith) in
      rw m (
        number_from-append 0 (flip (digits_back fuel (n / 10))) (48 + n % 10)
        ∙ rw tens (omega arith))
]

-- Printing and reading a number gives it back.
pub number-decimal : (n : ℕ) → number (decimal n) ≡ n
unfolding decimal
number-decimal n = number-digits_back (suc n) n (omega arith)

all-is_digit : (fuel n : ℕ) → all is_digit (flip (digits_back fuel n)) ≡ true
unfolding digits_back is_digit
all-is_digit zero n = refl
all-is_digit (suc fuel) n = elim (Bool-cases (ltb n 10)) [
  | inl y ↦ rw y (ground arith)
  | inr m ↦ rw m (
      all-append is_digit (flip (digits_back fuel (n / 10))) ((48 + n % 10) ∷ [])
      ∙ rw (all-is_digit fuel (n / 10)) (ground arith))
]

pub all-decimal : (n : ℕ) → all is_digit (decimal n) ≡ true
unfolding decimal
all-decimal n = all-is_digit (suc n) n

leading :
    (fuel n : ℕ)
    → 0 < n
    → n < fuel
    → (c : ℕ) × (cs : Text) × (flip (digits_back fuel n) ≡ c ∷ cs) × (48 < c)
unfolding digits_back
leading zero n p h = absurd (omega arith)
leading (suc fuel) n p h = elim (Bool-cases (ltb n 10)) [
  | inl y ↦ rw y (48 + n, [], refl, omega arith)
  | inr m ↦
      let (c, cs, e, q) = leading fuel (n / 10) (ground arith) (ground arith) in
      rw m (c, cs ++ ((48 + n % 10) ∷ []), ap (λ x. x ++ ((48 + n % 10) ∷ [])) e, q)
]

-- A positive number does not begin with a zero.
pub decimal-leading : (n : ℕ) → 0 < n → (c : ℕ) × (cs : Text) × (decimal n ≡ c ∷ cs) × (48 < c)
unfolding decimal
decimal-leading n p = leading (suc n) n p (omega arith)

unfoldable pub pow10 : ℕ → ℕ
pow10 zero = 1
pow10 (suc k) = 10 * pow10 k

length-digits_back : (k fuel n : ℕ) → n < pow10 (suc k) → length (flip (digits_back fuel n)) ≤ suc k
unfolding digits_back pow10
length-digits_back k zero n h = omega arith
length-digits_back zero (suc fuel) n h = rw (lt→ltb n 10 (omega arith)) (omega arith)
length-digits_back (suc k) (suc fuel) n h = elim (Bool-cases (ltb n 10)) [
  | inl y ↦ rw y (omega arith)
  | inr m ↦ rw m (
      omega (
        arith,
        length-append (flip (digits_back fuel (n / 10))) ((48 + n % 10) ∷ []),
        length-digits_back k fuel (n / 10) (omega arith),
      ))
]

-- A number below `10 ^ (k + 1)` has at most `k + 1` digits.
pub length-decimal : (k n : ℕ) → n < pow10 (suc k) → length (decimal n) ≤ suc k
unfolding decimal
length-decimal k n h = length-digits_back k (suc n) n h
