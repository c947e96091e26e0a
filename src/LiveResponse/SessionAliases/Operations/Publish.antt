-- ===== src/LiveResponse/SessionAliases/Operations/Publish.antt =====
-- How `assign` of session_aliases.py ends: with a name that is there, or by writing the registry.
use mathlib.Core.Path.{subst}
use m365_xdr_cli.Base.{
  ℕ, ◌+◌, ◌≤◌, ◌≡◌, refl, sym, ap, ◌⊎◌, inl, inr, Bool, true, false, none, some, [], Text,
  ascii_lower, ltb, if◌then◌else◌, Bool-cases,
}
use m365_xdr_cli.Base.Dict.{lookup}
use m365_xdr_cli.Base.Json.{Json}
use m365_xdr_cli.Base.Attempt.{Attempt, returned, raised, returned-injective}
use m365_xdr_cli.LiveResponse.SessionAliases.Syntax.{AliasError, max_alias, is_session, is_device}
use m365_xdr_cli.LiveResponse.SessionAliases.Registry.{
  Namespace, Binding, empty_registry, Registry, to_json, find_alias,
}
use m365_xdr_cli.LiveResponse.SessionAliases.Registry.Valid.{IsValid}
use m365_xdr_cli.LiveResponse.SessionAliases.Registry.Encode.{validate-to_json, unique-to_json}
use m365_xdr_cli.LiveResponse.SessionAliases.Files.{Files, State, has_marker, holds, read_state}
use m365_xdr_cli.LiveResponse.SessionAliases.Files.Reading.{Holds, read_state-Holds}
use m365_xdr_cli.LiveResponse.SessionAliases.Operations.{
  Effect, alias_text, extended, same_registry, max_bytes, publish,
}
use m365_xdr_cli.LiveResponse.SessionAliases.Operations.Extend.{extended-IsValid}
use m365_xdr_cli.LiveResponse.SessionAliases.Operations.Assign.{
  lookup-find_alias, new_alias_free, extended_named, extended_kept,
}

pub raised_not :
    (alias : Text) (g : Files) {e : AliasError} {f : Files}
    → Path (Effect Text) (raised e, f) (returned alias, g)
    → ⊥
raised_not alias g p = clash (ap (λ (x : Effect Text). x.0) p)
  where
    clash : {e : AliasError} → Path (Attempt AliasError Text) (raised e) (returned alias) → ⊥
    clash q = cc

next_extended : (r : Registry) (s m : Text) → (extended r s m).next_alias ≡ r.next_alias + 1
unfolding extended
next_extended r s m = refl

module _ (size : Json → ℕ) (n : Namespace) where
  publish-eq :
      (alias a : Text) (r : Registry) (f g : Files)
      → publish size n alias r f ≡ (returned a, g)
      → (a ≡ alias) × (g ≡ record f { registry = holds (some (to_json n r)) })
  unfolding publish
  publish-eq alias a r f g h = elim (Bool-cases (ltb max_bytes (size (to_json n r)))) [
    | inl y ↦ absurd (raised_not (ap (λ (x : Effect Text). x.0) (rw (y, publish) at h)))
    | inr m ↦ go (read_state n written) (rw (m, publish) at h)
  ]
    where
      written : Files
      written = record f { registry = holds (some (to_json n r)) }

      raised_not : {e : AliasError} → Path (Attempt AliasError Text) (raised e) (returned a) → ⊥
      raised_not p = cc

      go :
          (o : Attempt AliasError State)
          → Path
              (Effect Text)
              (elim o [
                | raised e ↦ (raised e, written)
                | returned s ↦
                    if same_registry s.registry r
                    then (returned alias, written)
                    else (raised AliasError.unverified, written)
              ])
              (returned a, g)
          → (a ≡ alias) × (g ≡ written)
      go (raised e) p = absurd (raised_not (ap (λ (x : Effect Text). x.0) p))
      go (returned s) p = chosen (same_registry s.registry r) p
        where
          chosen :
              (b : Bool)
              → Path
                  (Effect Text)
                  (if b then (returned alias, written) else (raised AliasError.unverified, written))
                  (returned a, g)
              → (a ≡ alias) × (g ≡ written)
          chosen false q = absurd (raised_not (ap (λ (x : Effect Text). x.0) q))
          chosen true q = (
            returned-injective (ap (λ (x : Effect Text). x.0) (sym q)),
            ap (λ (x : Effect Text). x.1) (sym q),
          )

  -- What a name for a session promises: it leads to the session and its machine in the registry that
  -- is there now, every binding from before is still there, and the name is an old one of that
  -- session or a new one, by the number that was next.
  pub record IsGranted (before : Registry) (s m alias : Text) (g : Files) : Type 0 where
    pub after : Registry
    pub now : read_state n g ≡ returned (record { registry = after; present = true; marked = true })
    pub valid : IsValid after
    pub named : lookup alias after.bindings ≡ some (record { session_id = s; machine_id = m })
    pub kept :
        (a : Text) (b : Binding)
        → lookup a before.bindings ≡ some b
        → lookup a after.bindings ≡ some b
    pub new :
        (after ≡ before)
        ⊎ ((lookup alias before.bindings ≡ none)
            × (alias ≡ alias_text before.next_alias)
            × (after.next_alias ≡ before.next_alias + 1))

  -- The files where the registry can be written.
  pub record IsReady (r : Registry) (f : Files) : Type 0 where
    pub private : f.private ≡ true
    pub marker : has_marker n f ≡ returned true
    pub valid : IsValid r
    pub source : (r ≡ empty_registry) ⊎ Holds n f r

  pub publish-IsGranted :
      (r : Registry) (s m alias : Text) (f g : Files)
      → IsReady r f
      → r.next_alias ≤ max_alias
      → is_session s ≡ true
      → is_device m ≡ true
      → ascii_lower m ≡ m
      → find_alias r.bindings s m ≡ returned none
      → publish size n (alias_text r.next_alias) (extended r s m) f ≡ (returned alias, g)
      → IsGranted r s m alias g
  unfolding has_marker
  publish-IsGranted r s m alias f g ready room fs fm lm free h =
      let (named, written) = publish-eq (alias_text r.next_alias) alias (extended r s m) f g h in
      let good = extended-IsValid r s m ready.valid room fs fm lm free in
      let k : Files = record f { registry = holds (some (to_json n (extended r s m))) } in
      let granted : IsGranted r s m (alias_text r.next_alias) k = record {
        after = extended r s m;
        now = read_state-Holds n k (extended r s m) ready.private ready.marker (record {
          value = to_json n (extended r s m);
          content = refl;
          plain = unique-to_json n (extended r s m) good;
          accepted = validate-to_json n (extended r s m) good;
        });
        valid = good;
        named = extended_named r ready.valid s m;
        kept = extended_kept r ready.valid s m;
        new = inr (new_alias_free r ready.valid s m, refl, next_extended r s m);
      } in
      subst (IsGranted r s m alias) (sym written)
        (subst (λ (a : Text). IsGranted r s m a k) (sym named) granted)

  pub found-IsGranted :
      (r : Registry) (s m alias : Text) (f : Files)
      → IsReady r f
      → find_alias r.bindings s m ≡ returned (some alias)
      → IsGranted r s m alias f
  unfolding find_alias
  found-IsGranted r s m alias f ready e = elim ready.source [
    | inl none_there ↦ absurd (
        nothing (
          subst (λ (q : Registry). find_alias q.bindings s m ≡ returned (some alias)) none_there e))
    | inr held ↦ record {
      after = r;
      now = read_state-Holds n f r ready.private ready.marker held;
      valid = ready.valid;
      named = lookup-find_alias r.bindings s m alias ready.valid.distinct e;
      kept = λ a b l. l;
      new = inl refl;
    }
  ]
    where
      nothing : find_alias [] s m ≡ returned (some alias) → ⊥
      nothing p = cc
