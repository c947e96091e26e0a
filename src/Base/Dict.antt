-- ===== src/Base/Dict.antt =====
-- Python's `dict` with text keys, in insertion order. A key stands in it at most once.
use mathlib.Core.Path.{◌≡◌, refl}
use mathlib.Core.Bool.{Bool, true, false}
use mathlib.Core.Option.{Option, none, some}
use mathlib.Core.List.{List, [], ◌∷◌}
use native.Mathlib.Omega.{arith}
use m365_xdr_cli.Base.Tests.{if◌then◌else◌}
use m365_xdr_cli.Base.Strings.{Text, text_eq}

abbrev pub Dict {ℓ} : Type ℓ → Type ℓ
Dict V = List (Text × V)

abbrev pub keys {ℓ} : {V : Type ℓ} → Dict V → List Text
keys [] = []
keys ((k, v) ∷ d) = k ∷ keys d

abbrev pub values {ℓ} : {V : Type ℓ} → Dict V → List V
values [] = []
values ((k, v) ∷ d) = v ∷ values d

module _ {ℓ} {V : Type ℓ} where
  -- `d.get(k)`
  unfoldable pub lookup : Text → Dict V → Option V
  lookup k [] = none
  lookup k ((j, v) ∷ d) = if text_eq k j then some v else lookup k d

  -- `d.get(k, default)`
  unfoldable pub lookup_or : Text → Dict V → V → V
  lookup_or k d default = elim (lookup k d) [ none ↦ default | some v ↦ v ]

  -- `k in d`
  unfoldable pub has_key : Text → Dict V → Bool
  has_key k d = elim (lookup k d) [ none ↦ false | some v ↦ true ]

  -- `d[k] = v`
  unfoldable pub insert : Text → V → Dict V → Dict V
  insert k v [] = (k, v) ∷ []
  insert k v ((j, w) ∷ d) = if text_eq k j then (j, v) ∷ d else (j, w) ∷ insert k v d

  -- `d.pop(k, None)`
  unfoldable pub remove : Text → Dict V → Dict V
  remove k [] = []
  remove k ((j, v) ∷ d) = let rest = remove k d in if text_eq k j then rest else (j, v) ∷ rest

  -- `d.setdefault(k, v)`
  unfoldable pub set_default : Text → V → Dict V → Dict V
  set_default k v d = if has_key k d then d else insert k v d

  pub lookup-nil : (k : Text) → lookup k [] ≡ none
  unfolding lookup
  lookup-nil k = refl

  pub lookup-cons :
      (k j : Text) (v : V) (d : Dict V)
      → lookup k ((j, v) ∷ d) ≡ (if text_eq k j then some v else lookup k d)
  unfolding lookup
  lookup-cons k j v d = refl

  pub lookup-insert :
      (j k : Text) (v : V) (d : Dict V)
      → lookup j (insert k v d) ≡ (if text_eq j k then some v else lookup j d)
  unfolding lookup insert
  lookup-insert j k v [] = ground arith
  lookup-insert j k v (_ ∷ d) = ground (arith, lookup-insert j k v d)

  pub lookup-set_default :
      (j k : Text) (v : V) (d : Dict V)
      → lookup j (set_default k v d)
        ≡ (if has_key k d then lookup j d else if text_eq j k then some v else lookup j d)
  unfolding set_default
  lookup-set_default j k v d = ground (arith, lookup-insert j k v d)

  pub lookup_or-insert :
      (j k : Text) (v default : V) (d : Dict V)
      → lookup_or j (insert k v d) default ≡ (if text_eq j k then v else lookup_or j d default)
  unfolding lookup_or
  lookup_or-insert j k v default d = ground (arith, lookup-insert j k v d)

  pub lookup_or-nil : (k : Text) (default : V) → lookup_or k [] default ≡ default
  unfolding lookup_or lookup
  lookup_or-nil k default = refl

  pub lookup-remove :
      (j k : Text) (d : Dict V) → lookup j (remove k d) ≡ (if text_eq j k then none else lookup j d)
  unfolding lookup remove
  lookup-remove j k [] = ground arith
  lookup-remove j k (_ ∷ d) = ground (arith, lookup-remove j k d)
