-- ===== src/Base/Sort.antt =====
-- `sorted`: a stable insertion sort by a Boolean order, and the order of texts.
use Prim.Native.Nat.{ℕ, suc}
use mathlib.Core.Path.{◌≡◌, refl, ap, ◌∙◌}
use mathlib.Core.Logic.{◌⊎◌, inl, inr}
use native.Mathlib.Omega.{arith}
use mathlib.Core.Bool.{Bool, true, false, ◌||◌, ◌&&◌}
use mathlib.Core.List.{List, [], ◌∷◌}
use m365_xdr_cli.Base.Tests.{ltb, ◌==◌, if◌then◌else◌, Bool-cases}
use m365_xdr_cli.Base.Lists.{All, Among, length}
use m365_xdr_cli.Base.Strings.{Text}

module _ {ℓ} {A : Type ℓ} (leb : A → A → Bool) where
  unfoldable pub insert_sorted : A → List A → List A
  insert_sorted x [] = x ∷ []
  insert_sorted x (y ∷ ys) = if leb x y then x ∷ (y ∷ ys) else y ∷ insert_sorted x ys

  unfoldable pub sort_by : List A → List A
  unfolding insert_sorted
  sort_by [] = []
  sort_by (x ∷ xs) = insert_sorted x (sort_by xs)

-- Lists of numbers in lexicographic order: texts by code point, and tuples of numbers.
unfoldable pub lex_leb : List ℕ → List ℕ → Bool
lex_leb [] ys = true
lex_leb (x ∷ xs) [] = false
lex_leb (x ∷ xs) (y ∷ ys) = ltb x y || (x == y && lex_leb xs ys)

-- `sorted(names)`
unfoldable pub sort_texts : List Text → List Text
unfolding sort_by lex_leb
sort_texts = sort_by lex_leb

-- Tuples in lexicographic order: the first parts decide unless they are equal.
abbrev pub then_leb : List ℕ → List ℕ → Bool → Bool
then_leb x y rest = if lex_leb x y then (if lex_leb y x then rest else true) else false

-- The order of tuples of texts.
unfoldable pub texts_leb : List Text → List Text → Bool
texts_leb [] ys = true
texts_leb (x ∷ xs) [] = false
texts_leb (x ∷ xs) (y ∷ ys) = let rest = texts_leb xs ys in then_leb x y rest

module _ {ℓ κ} {A : Type ℓ} (leb : A → A → Bool) (P : A → Type κ) where
  All-insert_sorted : (x : A) (xs : List A) → P x → All P xs → All P (insert_sorted leb x xs)
  unfolding insert_sorted
  All-insert_sorted x [] p a = (p, tt)
  All-insert_sorted x (y ∷ ys) p (q, a) = elim (Bool-cases (leb x y)) [
    | inl t ↦ rw t (p, (q, a))
    | inr t ↦ rw t (q, All-insert_sorted x ys p a)
  ]

  pub All-sort_by : (xs : List A) → All P xs → All P (sort_by leb xs)
  unfolding sort_by
  All-sort_by [] a = tt
  All-sort_by (x ∷ xs) (p, a) = All-insert_sorted x (sort_by leb xs) p (All-sort_by xs a)

module _ {ℓ} {A : Type ℓ} (leb : A → A → Bool) where
  length-insert_sorted : (x : A) (xs : List A) → length (insert_sorted leb x xs) ≡ suc (length xs)
  unfolding insert_sorted
  length-insert_sorted x [] = refl
  length-insert_sorted x (y ∷ ys) = ground (arith, length-insert_sorted x ys)

  pub length-sort_by : (xs : List A) → length (sort_by leb xs) ≡ length xs
  unfolding sort_by
  length-sort_by [] = refl
  length-sort_by (x ∷ xs) = length-insert_sorted x (sort_by leb xs) ∙ ap suc (length-sort_by xs)

module _ {A : Type 0} (leb : A → A → Bool) where
  Among-insert_sorted :
      (z x : A) (xs : List A) → (z ≡ x) ⊎ Among z xs → Among z (insert_sorted leb x xs)
  unfolding insert_sorted
  Among-insert_sorted z x [] m = m
  Among-insert_sorted z x (y ∷ ys) m = go (leb x y) refl (Among-insert_sorted z x ys)
    where
      later :
          ((z ≡ x) ⊎ Among z ys → Among z (insert_sorted leb x ys))
          → (z ≡ x) ⊎ Among z (y ∷ ys)
          → (z ≡ y) ⊎ Among z (insert_sorted leb x ys)
      later ih (inl e) = inr (ih (inl e))
      later ih (inr (inl e)) = inl e
      later ih (inr (inr k)) = inr (ih (inr k))

      go :
          (b : Bool)
          → leb x y ≡ b
          → ((z ≡ x) ⊎ Among z ys → Among z (insert_sorted leb x ys))
          → Among z (if b then x ∷ (y ∷ ys) else y ∷ insert_sorted leb x ys)
      go true e ih = m
      go false e ih = later ih m

  pub Among-sort_by : (z : A) (xs : List A) → Among z xs → Among z (sort_by leb xs)
  unfolding sort_by
  Among-sort_by z [] m = elim m [ ]
  Among-sort_by z (x ∷ xs) (inl e) = Among-insert_sorted z x (sort_by leb xs) (inl e)
  Among-sort_by z (x ∷ xs) (inr m) =
      Among-insert_sorted z x (sort_by leb xs) (inr (Among-sort_by z xs m))
