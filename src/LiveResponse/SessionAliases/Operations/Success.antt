-- ===== src/LiveResponse/SessionAliases/Operations/Success.antt =====
-- When `assign` of session_aliases.py gives a new name.
use m365_xdr_cli.Base.{
  ℕ, ◌≤◌, ◌≡◌, refl, ap, ◌∙◌, Bool, true, false, none, some, [], ◌∷◌, Text, text_eq_self,
  ascii_lower, ltb, ==-self, arith,
}
use m365_xdr_cli.Base.Dict.{Dict}
use m365_xdr_cli.Base.Json.{Json}
use m365_xdr_cli.Base.Attempt.{returned, raised, >>=-eq-returned}
use m365_xdr_cli.LiveResponse.SessionAliases.Syntax.{max_alias, is_session, is_device, identity}
use m365_xdr_cli.LiveResponse.SessionAliases.Registry.{
  Namespace, Binding, Registry, to_json, find_alias,
}
use m365_xdr_cli.LiveResponse.SessionAliases.Registry.Valid.{IsValid}
use m365_xdr_cli.LiveResponse.SessionAliases.Registry.Encode.{validate-to_json, unique-to_json}
use m365_xdr_cli.LiveResponse.SessionAliases.Files.{
  Files, State, has_marker, marker_bytes, holds, read_private, read_state,
}
use m365_xdr_cli.LiveResponse.SessionAliases.Files.Reading.{
  read_state-Holds, read_state-Source, Source-IsValid,
}
use m365_xdr_cli.LiveResponse.SessionAliases.Operations.{
  Effect, ensure_marker, alias_text, extended, same_bindings, same_registry, max_bytes, publish,
  allocate, assign_locked, assign,
}
use m365_xdr_cli.LiveResponse.SessionAliases.Operations.Extend.{extended-IsValid}
use m365_xdr_cli.LiveResponse.SessionAliases.Operations.Assign.{
  has_marker_written, ensure_marker-IsMarked,
}
use m365_xdr_cli.LiveResponse.SessionAliases.Syntax.Lower.{is_device-lower, lower-lower}

same_bindings_self : (ds : Dict Binding) → same_bindings ds ds ≡ true
unfolding same_bindings
same_bindings_self [] = refl
same_bindings_self ((k, b) ∷ ds) =
    rw (text_eq_self k, text_eq_self b.session_id, text_eq_self b.machine_id, same_bindings_self ds)
      refl

same_registry_self : (r : Registry) → same_registry r r ≡ true
unfolding same_registry
same_registry_self r = rw (==-self r.next_alias, same_bindings_self r.bindings) refl

read_state_marker :
    (n : Namespace) (f : Files) (st : State)
    → f.private ≡ true
    → read_state n f ≡ returned st
    → (b : Bool) × (has_marker n f ≡ returned b)
unfolding read_state read_private
read_state_marker n f st p e =
    let (b, q, rest) = >>=-eq-returned (has_marker n f) _ (simp p at e) in (b, q)

ensure_marker_succeeds :
    (n : Namespace) (f : Files) (b : Bool)
    → has_marker n f ≡ returned b
    → (g : Files) × Path (Effect (Unit {0})) (ensure_marker n f) (returned tt, g)
unfolding ensure_marker
ensure_marker_succeeds n f true q = (f, rw (q, ensure_marker) refl)
ensure_marker_succeeds n f false q =
    let k : Files = record f { marker = holds (marker_bytes n) } in
    (k, rw (q, ensure_marker, has_marker_written n f) refl)

module _ (size : Json → ℕ) (n : Namespace) where
  publish_succeeds :
      (alias : Text) (r : Registry) (f : Files)
      → f.private ≡ true
      → has_marker n f ≡ returned true
      → IsValid r
      → size (to_json n r) ≤ max_bytes
      → (g : Files) × Path (Effect Text) (publish size n alias r f) (returned alias, g)
  unfolding has_marker publish
  publish_succeeds alias r f p m v small =
      (written, rw (publish, fits, read_back, same_registry_self r) refl)
    where
      written : Files
      written = record f { registry = holds (some (to_json n r)) }

      fits : ltb max_bytes (size (to_json n r)) ≡ false
      fits = ground arith

      read_back :
          read_state n written ≡ returned (record { registry = r; present = true; marked = true })
      read_back = read_state-Holds n written r p m (record {
        value = to_json n r;
        content = refl;
        plain = unique-to_json n r v;
        accepted = validate-to_json n r v;
      })

  assign_locked-marked :
      (f k : Files) (st : State) (s m : Text)
      → read_state n f ≡ returned st
      → Path (Effect (Unit {0})) (ensure_marker n f) (returned tt, k)
      → Path (Effect Text) (assign_locked size n f s m) (allocate size n st.registry s m k)
  unfolding assign_locked
  assign_locked-marked f k st s m e marked =
      rw (e, assign_locked)
        (ap
          (λ (o : Effect (Unit {0})). elim o.0 [
            | raised r ↦ (raised r, o.1)
            | returned u ↦ allocate size n st.registry s m o.1
          ])
          marked)

  assign_locked_succeeds :
      (f : Files) (st : State) (s m : Text)
      → f.private ≡ true
      → read_state n f ≡ returned st
      → is_session s ≡ true
      → is_device m ≡ true
      → ascii_lower m ≡ m
      → find_alias st.registry.bindings s m ≡ returned none
      → st.registry.next_alias ≤ max_alias
      → size (to_json n (extended st.registry s m)) ≤ max_bytes
      → (g : Files) × Path
          (Effect Text)
          (assign_locked size n f s m)
          (returned (alias_text st.registry.next_alias), g)
  unfolding allocate
  assign_locked_succeeds f st s m p e fs fm lm free room small =
      let (b, has) = read_state_marker n f st p e in
      let (k, marked) = ensure_marker_succeeds n f b has in
      let mark = ensure_marker-IsMarked n f k marked in
      let (private, source) = read_state-Source n f st e in
      let valid =
        extended-IsValid st.registry s m (Source-IsValid n f st source) room fs fm lm free in
      let (g, done) =
        publish_succeeds (alias_text st.registry.next_alias) (extended st.registry s m) k
          (mark.private ∙ p) mark.there valid small in
      (g, rw (assign_locked-marked f k st s m e marked, allocate, free, fits) done)
    where
      fits : ltb max_alias st.registry.next_alias ≡ false
      fits = ground arith

  -- Valid identifiers that have no name yet get `lr-` and the next number, where the directory is private,
  -- the registry can be read, a number is left, and the registry with the new name is not too large.
  pub assign_succeeds :
      (f : Files) (session machine : Text) (st : State)
      → is_session session ≡ true
      → is_device machine ≡ true
      → f.private ≡ true
      → read_state n f ≡ returned st
      → find_alias st.registry.bindings session (ascii_lower machine) ≡ returned none
      → st.registry.next_alias ≤ max_alias
      → size (to_json n (extended st.registry session (ascii_lower machine))) ≤ max_bytes
      → (g : Files) × Path
          (Effect Text)
          (assign size n f session machine)
          (returned (alias_text st.registry.next_alias), g)
  unfolding identity assign
  assign_succeeds f session machine st fs fm p e free room small =
      let (g, done) =
        assign_locked_succeeds f st session (ascii_lower machine) p e fs
          (is_device-lower machine fm) (lower-lower machine) free room small in
      (g, simp (assign, identified, p, done))
    where
      identified : identity session machine ≡ returned (session, ascii_lower machine)
      identified = rw (identity, fs, fm) refl
