-- ===== src/Helpers/Literals.antt =====
-- The string literals of an OData filter, as a reader of OData finds them, and those of helpers.py.
use mathlib.Core.Path.{subst}
use mathlib.Core.List.{append_assoc}
use m365_xdr_cli.Base.{
  ℕ, ◌≡◌, refl, sym, ap, ◌∙◌, inl, inr, Bool, true, false, not, Option, none, some, List, [], ◌∷◌,
  ◌++◌, Text, all, ◌==◌, arith, Bool-cases, ==→eq,
}
use m365_xdr_cli.Helpers.{apostrophe, double_quotes, odata_string_literal}

-- Where a reader stands: outside of literals, inside one, or behind an apostrophe inside one.
pub data Mode : Type 0 where
  outside inside behind : Mode

-- A literal that begins here.
abbrev pub push : Text → Option (List Text) → Option (List Text)
push v none = none
push v (some values) = some (v ∷ values)

-- A character in front of the literal that is being read.
abbrev extend : ℕ → Option (List Text) → Option (List Text)
extend c none = none
extend c (some []) = none
extend c (some (v ∷ values)) = some ((c ∷ v) ∷ values)

-- The string literals of a text by the rules of OData: an apostrophe opens and closes a literal, and
-- two of them inside stand for one. `none` where a literal is not closed.
unfoldable pub literals : Mode → Text → Option (List Text)
literals outside [] = some []
literals inside [] = none
literals behind [] = some ([] ∷ [])
literals outside (c ∷ cs) = elim (c == apostrophe) [
  | true ↦ literals inside cs
  | false ↦ literals outside cs
]
literals inside (c ∷ cs) = elim (c == apostrophe) [
  | true ↦ literals behind cs
  | false ↦ extend c (literals inside cs)
]
literals behind (c ∷ cs) = elim (c == apostrophe) [
  | true ↦ extend apostrophe (literals inside cs)
  | false ↦ push [] (literals outside cs)
]

-- No apostrophe stands in front.
abbrev pub Free : Text → Type 0
Free [] = Unit
Free (c ∷ cs) = (c == apostrophe) ≡ false

extend-push : (c : ℕ) (v : Text) (o : Option (List Text)) → extend c (push v o) ≡ push (c ∷ v) o
extend-push c v none = refl
extend-push c v (some values) = refl

literals-ended : (rest : Text) → Free rest → literals behind rest ≡ push [] (literals outside rest)
unfolding literals
literals-ended [] f = refl
literals-ended (c ∷ cs) f = rw (f, literals) refl

literals-double_quotes :
    (v rest : Text)
    → Free rest
    → literals inside (double_quotes v ++ apostrophe ∷ rest) ≡ push v (literals outside rest)
unfolding literals double_quotes
literals-double_quotes [] rest f = literals-ended rest f
literals-double_quotes (c ∷ v) rest f = elim (Bool-cases (c == apostrophe)) [
  | inl y ↦
      let same : c ≡ apostrophe = ==→eq c apostrophe y in
      subst
        (λ (d : ℕ).
          literals inside (double_quotes (d ∷ v) ++ apostrophe ∷ rest)
          ≡ push (d ∷ v) (literals outside rest))
        (sym same)
        (ap (extend apostrophe) (literals-double_quotes v rest f) ∙ extend-push apostrophe v _)
  | inr n ↦
      rw (n, n, literals) (ap (extend c) (literals-double_quotes v rest f) ∙ extend-push c v _)
]

-- Text without apostrophes.
abbrev pub plain : Text → Bool
plain = all (λ c. not (c == apostrophe))

pub literals-plain :
    (text rest : Text) → plain text ≡ true → literals outside (text ++ rest) ≡ literals outside rest
unfolding literals
literals-plain [] rest p = refl
literals-plain (c ∷ cs) rest p = elim (Bool-cases (c == apostrophe)) [
  | inl y ↦ absurd (ground arith)
  | inr n ↦ rw (n, literals) (literals-plain cs rest (ground arith))
]

unfoldable pub push_all : List Text → Option (List Text) → Option (List Text)
push_all [] o = o
push_all (v ∷ vs) o = push v (push_all vs o)

push_all-append :
    (vs ws : List Text) (o : Option (List Text))
    → push_all (vs ++ ws) o ≡ push_all vs (push_all ws o)
unfolding push_all
push_all-append [] ws o = refl
push_all-append (v ∷ vs) ws o = ap (push v) (push_all-append vs ws o)

pub push_all_nil : (vs : List Text) → push_all vs (some []) ≡ some vs
unfolding push_all
push_all_nil [] = refl
push_all_nil (v ∷ vs) = ap (push v) (push_all_nil vs)

-- A part of a filter is read as the values.
abbrev pub Reads : Text → List Text → Type 0
Reads part values =
    (rest : Text)
    → Free rest
    → literals outside (part ++ rest) ≡ push_all values (literals outside rest)

pub Reads-append :
    (part more : Text) (vs ws : List Text)
    → Reads part vs
    → Reads more ws
    → ((rest : Text) → Free rest → Free (more ++ rest))
    → Reads (part ++ more) (vs ++ ws)
Reads-append part more vs ws r q free rest f =
    ap (literals outside) (append_assoc part more rest)
    ∙ (r (more ++ rest) (free rest f)
        ∙ (ap (push_all vs) (q rest f) ∙ sym (push_all-append vs ws (literals outside rest))))

pub Reads-plain : (text : Text) → plain text ≡ true → Reads text []
unfolding push_all
Reads-plain text p rest f = literals-plain text rest p

pub Reads-odata_string_literal : (v : Text) → Reads (odata_string_literal v) (v ∷ [])
unfolding odata_string_literal literals push_all
Reads-odata_string_literal v rest f =
    ap (literals inside) (append_assoc (double_quotes v) (apostrophe ∷ []) rest)
    ∙ literals-double_quotes v rest f
