-- ===== src/Base/Strings.antt =====
-- Python's `str` as the list of its code points, with the operations that the code uses.
use Prim.Native.Nat.{ℕ, ◌+◌}
use Prim.Native.Char.{code}
use Prim.Native.String.{String}
use mathlib.Core.Path.{◌≡◌, refl, sym, ap, ap₂}
use mathlib.Core.Logic.{inl, inr, ite, dite}
use mathlib.Core.Bool.{Bool, true, false, ◌&&◌, ◌||◌}
use mathlib.Core.List.{List, [], ◌∷◌, ◌++◌, reverse}
use native.Mathlib.Omega.{arith}
use native.Mathlib.Decide.{ℕ_discrete}
use m365_xdr_cli.Base.Tests.{Bool-cases, leb, ◌==◌, if◌then◌else◌}
use m365_xdr_cli.Base.Lists.{Among, any}

abbrev pub Text : Type 0
Text = List ℕ

-- A literal of the source as a text.
abbrev pub codes : String → Text
codes String.[] = []
codes (String.◌∷◌ c s) = code c ∷ codes s

unfoldable pub Text-discrete : Discrete Text
unfolding ℕ_discrete
Text-discrete [] [] = yes refl
Text-discrete [] (y ∷ ys) = no (λ p. cc)
Text-discrete (x ∷ xs) [] = no (λ p. cc)
Text-discrete (x ∷ xs) (y ∷ ys) =
    dite (ℕ_discrete x y)
      (λ p. dite (Text-discrete xs ys) (λ q. yes (ap₂ ◌∷◌ p q)) (λ n. no (λ q. n (cc))))
      (λ n. no (λ q. n (cc)))

-- `a == b`. A split on it yields the equation or its negation.
abbrev pub text_eq : Text → Text → Bool
text_eq a b = ite (Text-discrete a b) true false

-- `a in xs`
abbrev pub contains : Text → List Text → Bool
contains a [] = false
contains a (x ∷ xs) = text_eq a x || contains a xs

pub text_eq_sound : (a b : Text) → text_eq a b ≡ true → a ≡ b
text_eq_sound a b h = ground arith

pub text_eq_self : (a : Text) → text_eq a a ≡ true
text_eq_self a = ground arith

-- `char in text`
abbrev pub has : ℕ → Text → Bool
has c = any (λ x. x == c)

-- `str.isspace` of one code point: the whitespace of the Unicode database.
unfoldable pub is_space : ℕ → Bool
is_space c =
    (leb 0x09 c && leb c 0x0d)
    || (leb 0x1c c && leb c 0x20)
    || c == 0x85
    || c == 0xa0
    || c == 0x1680
    || (leb 0x2000 c && leb c 0x200a)
    || c == 0x2028
    || c == 0x2029
    || c == 0x202f
    || c == 0x205f
    || c == 0x3000

abbrev pub lstrip : Text → Text
lstrip [] = []
lstrip (c ∷ cs) = let rest = lstrip cs in if is_space c then rest else c ∷ cs

-- `text.strip()`
unfoldable pub strip : Text → Text
unfolding is_space
strip text = reverse (lstrip (reverse (lstrip text)))

-- `sep.join(parts)`
abbrev pub join : Text → List Text → Text
join sep [] = []
join sep (p ∷ []) = p
join sep (p ∷ q ∷ rest) = p ++ (sep ++ join sep (q ∷ rest))

-- `text.lower()` of a text of ASCII characters.
unfoldable pub ascii_lower : Text → Text
ascii_lower [] = []
ascii_lower (c ∷ cs) = (if leb b'A' c && leb c b'Z' then c + 32 else c) ∷ ascii_lower cs

-- Equality of lists as sets.
abbrev pub same_names : List Text → List Text → Bool
same_names xs ys = within xs ys && within ys xs
  where
    within : List Text → List Text → Bool
    within [] ys = true
    within (x ∷ rest) ys = contains x ys && within rest ys

-- No text stands twice in the list.
abbrev pub Distinct : List Text → Type 0
Distinct [] = Unit
Distinct (x ∷ rest) = (contains x rest ≡ false) × Distinct rest

pub contains-append :
    (x : Text) (xs : List Text) (y : Text)
    → contains x (xs ++ (y ∷ [])) ≡ (contains x xs || text_eq x y)
contains-append x [] y = ground arith
contains-append x (z ∷ rest) y = ground (arith, contains-append x rest y)

pub Distinct-append :
    (xs : List Text) (y : Text) → Distinct xs → contains y xs ≡ false → Distinct (xs ++ (y ∷ []))
Distinct-append [] y d n = (refl, tt)
Distinct-append (x ∷ rest) y (f, d) n =
    (ground (arith, contains-append x rest y), Distinct-append rest y d (ground arith))

pub contains-Among : (x : Text) (xs : List Text) → contains x xs ≡ true → Among x xs
contains-Among x [] h = absurd (cc)
contains-Among x (y ∷ ys) h = elim (Bool-cases (text_eq x y)) [
  | inl e ↦ inl (text_eq_sound x y e)
  | inr n ↦ inr (contains-Among x ys (rw n at h))
]

pub Among-contains : (x : Text) (xs : List Text) → Among x xs → contains x xs ≡ true
Among-contains x [] h = elim h [ ]
Among-contains x (y ∷ ys) (inl e) = rw (ap (λ (z : Text). text_eq x z) (sym e), text_eq_self x) refl
Among-contains x (y ∷ ys) (inr h) = ground (arith, Among-contains x ys h)
