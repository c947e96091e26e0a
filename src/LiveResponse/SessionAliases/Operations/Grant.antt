-- ===== src/LiveResponse/SessionAliases/Operations/Grant.antt =====
-- What `assign` of session_aliases.py has done where it returns.
use mathlib.Core.Path.{subst}
use m365_xdr_cli.Base.{
  ℕ, ◌≡◌, refl, sym, ap, ◌∙◌, inl, inr, Bool, true, false, not, Option, none, some, Text,
  ascii_lower, ltb, if◌then◌else◌, arith, Bool-cases,
}
use m365_xdr_cli.Base.Json.{Json}
use m365_xdr_cli.Base.Attempt.{Attempt, returned, raised, returned-injective}
use m365_xdr_cli.LiveResponse.SessionAliases.Syntax.{
  AliasError, max_alias, is_session, is_device, identity,
}
use m365_xdr_cli.LiveResponse.SessionAliases.Syntax.Lower.{lower-lower, is_device-lower}
use m365_xdr_cli.LiveResponse.SessionAliases.Registry.{Namespace, Registry, find_alias}
use m365_xdr_cli.LiveResponse.SessionAliases.Files.{Files, State, read_state}
use m365_xdr_cli.LiveResponse.SessionAliases.Files.Reading.{read_state-Source, Source-IsValid}
use m365_xdr_cli.LiveResponse.SessionAliases.Operations.{
  Effect, ensure_marker, alias_text, extended, publish, allocate, assign_locked, assign,
}
use m365_xdr_cli.LiveResponse.SessionAliases.Operations.Assign.{ensure_marker-IsMarked}
use m365_xdr_cli.LiveResponse.SessionAliases.Operations.Publish.{
  IsGranted, IsReady, raised_not, publish-IsGranted, found-IsGranted,
}

-- The identifiers that `_identity` lets through.
record IsIdentity (session machine s m : Text) : Type 0 where
  same : s ≡ session
  lower : m ≡ ascii_lower machine
  session_form : is_session session ≡ true
  machine_form : is_device machine ≡ true

identity-IsIdentity :
    (session machine : Text) (p : Text × Text)
    → identity session machine ≡ returned p
    → IsIdentity session machine p.0 p.1
unfolding identity
identity-IsIdentity session machine p h =
    let (f, g, e) = both in
    record {
      same = ap (λ (q : Text × Text). q.0) (sym e);
      lower = ap (λ (q : Text × Text). q.1) (sym e);
      session_form = f;
      machine_form = g;
    }
  where
    both :
        (is_session session ≡ true)
        × (is_device machine ≡ true)
        × Path (Text × Text) (session, ascii_lower machine) p
    both = ground arith

module _ (size : Json → ℕ) (n : Namespace) where
  allocate-IsGranted :
      (r : Registry) (s m alias : Text) (f g : Files)
      → IsReady size n r f
      → is_session s ≡ true
      → is_device m ≡ true
      → ascii_lower m ≡ m
      → allocate size n r s m f ≡ (returned alias, g)
      → IsGranted size n r s m alias g
  unfolding allocate find_alias
  allocate-IsGranted r s m alias f g ready fs fm lm h = go (find_alias r.bindings s m) refl h
    where
      go :
          (o : Attempt AliasError (Option Text))
          → find_alias r.bindings s m ≡ o
          → Path
              (Effect Text)
              (elim o [
                | raised e ↦ (raised e, f)
                | returned (some a) ↦ (returned a, f)
                | returned none ↦
                    if ltb max_alias r.next_alias
                    then (raised AliasError.exhausted, f)
                    else publish size n (alias_text r.next_alias) (extended r s m) f
              ])
              (returned alias, g)
          → IsGranted size n r s m alias g
      go (raised e) q p = absurd (raised_not alias g p)
      go (returned (some a)) q p =
          let same : a ≡ alias = returned-injective (ap (λ (x : Effect Text). x.0) p) in
          let here : f ≡ g = ap (λ (x : Effect Text). x.1) p in
          subst (IsGranted size n r s m alias) here (
            found-IsGranted size n r s m alias f ready
              (q ∙ ap (λ (x : Text). returned (some x)) same))
      go (returned none) q p = elim (Bool-cases (ltb max_alias r.next_alias)) [
        | inl y ↦ absurd (raised_not alias g (rw y at p))
        | inr m_ ↦
            publish-IsGranted size n r s m alias f g ready (ground arith) fs fm lm q (rw m_ at p)
      ]

  assign_locked-IsGranted :
      (s m alias : Text) (f g : Files)
      → is_session s ≡ true
      → is_device m ≡ true
      → ascii_lower m ≡ m
      → assign_locked size n f s m ≡ (returned alias, g)
      → (before : State) × (read_state n f ≡ returned before)
        × IsGranted size n before.registry s m alias g
  unfolding assign_locked
  assign_locked-IsGranted s m alias f g fs fm lm h = go (read_state n f) refl h
    where
      marked :
          (before : State)
          → read_state n f ≡ returned before
          → (o : Effect (Unit {0})) → ensure_marker n f ≡ o
          → Path
              (Effect Text)
              (elim o.0 [
                | raised e ↦ (raised e, o.1)
                | returned u ↦ allocate size n before.registry s m o.1
              ])
              (returned alias, g)
          → IsGranted size n before.registry s m alias g
      marked before q (raised e, k) w p = absurd (raised_not alias g p)
      marked before q (returned u, k) w p =
          let (private, source) = read_state-Source n f before q in
          let mark = ensure_marker-IsMarked n f k w in
          allocate-IsGranted before.registry s m alias k g
            (record {
              private = mark.private ∙ private;
              marker = mark.there;
              valid = Source-IsValid n f before source;
              source = elim source [
                | inl (e, absent_there) ↦ inl e
                | inr (held, there) ↦ inr (record {
                  value = held.value;
                  content = mark.registry ∙ held.content;
                  plain = held.plain;
                  accepted = held.accepted;
                })
              ];
            })
            fs fm lm p

      go :
          (o : Attempt AliasError State)
          → read_state n f ≡ o
          → Path
              (Effect Text)
              (elim o [
                | raised e ↦ (raised e, f)
                | returned st ↦
                    let (outcome, k) = ensure_marker n f in
                    elim outcome [
                      | raised e ↦ (raised e, k)
                      | returned u ↦ allocate size n st.registry s m k
                    ]
              ])
              (returned alias, g)
          → (before : State) × (read_state n f ≡ returned before)
            × IsGranted size n before.registry s m alias g
      go (raised e) q p = absurd (raised_not alias g p)
      go (returned st) q p = (st, q, marked st q (ensure_marker n f) refl p)

  -- Where `assign` returns a name, the registry was read before; the name leads to the session and
  -- to its machine in lower case in the registry that is read from the files now, which is valid; every
  -- binding from before is still there; and either the registry is the same, or the name is `lr-` and
  -- the number that was next, was bound to nothing before, and the next number is one higher.
  pub assign-IsGranted :
      (f g : Files) (session machine alias : Text)
      → assign size n f session machine ≡ (returned alias, g)
      → (before : State) × (read_state n f ≡ returned before)
        × IsGranted size n before.registry session (ascii_lower machine) alias g
  unfolding assign
  assign-IsGranted f g session machine alias h = go (identity session machine) refl h
    where
      private_only :
          (b : Bool)
          → (s m : Text)
          → Path
              (Effect Text)
              (if not b then (raised AliasError.not_private, f) else assign_locked size n f s m)
              (returned alias, g)
          → assign_locked size n f s m ≡ (returned alias, g)
      private_only false s m p = absurd (raised_not alias g p)
      private_only true s m p = p

      go :
          (o : Attempt AliasError (Text × Text))
          → identity session machine ≡ o
          → Path
              (Effect Text)
              (elim o [
                | raised e ↦ (raised e, f)
                | returned (s, m) ↦
                    if not f.private
                    then (raised AliasError.not_private, f)
                    else assign_locked size n f s m
              ])
              (returned alias, g)
          → (before : State) × (read_state n f ≡ returned before)
            × IsGranted size n before.registry session (ascii_lower machine) alias g
      go (raised e) q p = absurd (raised_not alias g p)
      go (returned (s, m)) q p =
          let i = identity-IsIdentity session machine (s, m) q in
          let device = is_device-lower machine i.machine_form in
          assign_locked-IsGranted session (ascii_lower machine) alias f g i.session_form device
            (lower-lower machine)
            (subst (λ (x : Text × Text). assign_locked size n f x.0 x.1 ≡ (returned alias, g))
              (ap (λ (x : Text). (x, m)) i.same ∙ ap (λ (x : Text). (session, x)) i.lower)
              (private_only f.private s m p))
