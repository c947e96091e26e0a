-- ===== src/LiveResponse/SessionAliases/Operations/Assign.antt =====
-- `assign` of session_aliases.py against what a name for a session promises.
use mathlib.Core.Path.{subst}
use m365_xdr_cli.Base.{
  ◌≡◌, refl, sym, ap, ◌∙◌, inl, inr, Bool, true, false, none, some, [], ◌∷◌, Text, text_eq,
  text_eq_sound, contains, Distinct, arith, Bool-cases, text_eq_self,
}
use m365_xdr_cli.Base.Dict.{Dict, keys, lookup, lookup-insert}
use m365_xdr_cli.Base.Attempt.{Attempt, returned, raised}
use m365_xdr_cli.LiveResponse.SessionAliases.Syntax.{AliasError}
use m365_xdr_cli.LiveResponse.SessionAliases.Registry.{Namespace, Binding, Registry, find_alias}
use m365_xdr_cli.LiveResponse.SessionAliases.Registry.Valid.{IsValid}
use m365_xdr_cli.LiveResponse.SessionAliases.Files.{
  holds, Files, has_marker, marker_bytes, read_file,
}
use m365_xdr_cli.LiveResponse.SessionAliases.Operations.{ensure_marker, alias_text, extended}
use m365_xdr_cli.LiveResponse.SessionAliases.Operations.Extend.{alias_text_fresh}

lookup-keys : (k : Text) (ds : Dict Binding) → contains k (keys ds) ≡ false → lookup k ds ≡ none
unfolding lookup
lookup-keys k [] h = refl
lookup-keys k ((j, b) ∷ ds) h = ground (arith, lookup-keys k ds)

lookup-keys_there :
    (k : Text) (ds : Dict Binding) (b : Binding)
    → lookup k ds ≡ some b
    → contains k (keys ds) ≡ true
unfolding lookup
lookup-keys_there k [] b h = absurd (cc)
lookup-keys_there k ((j, c) ∷ ds) b h = ground (arith, lookup-keys_there k ds b)

-- What `_find` returns leads to the session and the machine.
pub lookup-find_alias :
    (ds : Dict Binding) (s m alias : Text)
    → Distinct (keys ds)
    → find_alias ds s m ≡ returned (some alias)
    → lookup alias ds ≡ some (record { session_id = s; machine_id = m })
unfolding lookup find_alias
lookup-find_alias [] s m alias d h = absurd (cc)
lookup-find_alias ((j, b) ∷ ds) s m alias (f, d) h = elim (Bool-cases (text_eq b.session_id s)) [
  | inl y ↦ elim (Bool-cases (text_eq b.machine_id m)) [
    | inl z ↦ ground arith
    | inr z ↦ absurd (ground arith)
  ]
  | inr n ↦
      let there = lookup-find_alias ds s m alias d (ground arith) in
      let held = lookup-keys_there alias ds _ there in ground arith
]

-- The names that `_find` does not know are not changed by a new one.
module _ (r : Registry) (h : IsValid r) (s m : Text) where
  abbrev new_alias : Text
  new_alias = alias_text r.next_alias

  abbrev new_binding : Binding
  new_binding = record { session_id = s; machine_id = m }

  pub new_alias_free : lookup new_alias r.bindings ≡ none
  new_alias_free =
      lookup-keys new_alias r.bindings (alias_text_fresh r.next_alias [] r.bindings h.bound)

  pub extended_named : lookup new_alias (extended r s m).bindings ≡ some new_binding
  unfolding extended
  extended_named =
      lookup-insert new_alias new_alias new_binding r.bindings ∙ rw (text_eq_self new_alias) refl

  pub extended_kept :
      (a : Text) (b : Binding)
      → lookup a r.bindings ≡ some b
      → lookup a (extended r s m).bindings ≡ some b
  unfolding extended
  extended_kept a b e =
      lookup-insert a new_alias new_binding r.bindings ∙ elim (Bool-cases (text_eq a new_alias)) [
        | inl y ↦
            let same = text_eq_sound a new_alias y in
            absurd (taken (sym e ∙ (ap (λ (k : Text). lookup k r.bindings) same ∙ new_alias_free)))
        | inr n ↦ rw n e
      ]
    where
      taken : some b ≡ none → ⊥
      taken p = cc

-- The marker is there behind `_ensure_marker`, and nothing else has changed.
pub record IsMarked (n : Namespace) (f g : Files) : Type 0 where
  pub there : has_marker n g ≡ returned true
  pub private : g.private ≡ f.private
  pub registry : g.registry ≡ f.registry

pub has_marker_written :
    (n : Namespace) (f : Files)
    → has_marker n (record f { marker = holds (marker_bytes n) }) ≡ returned true
unfolding has_marker read_file
has_marker_written n f = rw (text_eq_self (marker_bytes n)) refl

pub ensure_marker-IsMarked :
    (n : Namespace) (f g : Files) → ensure_marker n f ≡ (returned tt, g) → IsMarked n f g
unfolding ensure_marker
ensure_marker-IsMarked n f g h = go (has_marker n f) refl
  where
    go : (o : Attempt AliasError Bool) → has_marker n f ≡ o → IsMarked n f g
    go (raised e) q = absurd (ground arith)
    go (returned true) q =
        let same : f ≡ g = ground arith in
        subst (IsMarked n f) same (record { there = q; private = refl; registry = refl })
    go (returned false) q =
        let k : Files = record f { marker = holds (marker_bytes n) } in
        let marked : has_marker n k ≡ returned true = has_marker_written n f in
        let same : k ≡ g = ground arith in
        subst (IsMarked n f) same (record { there = marked; private = refl; registry = refl })
