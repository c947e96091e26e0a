-- ===== src/LiveResponse/SessionAliases/Files/Reading.antt =====
-- What `_read_state` of session_aliases.py has found where it returns.
use mathlib.Core.Path.{subst}
use m365_xdr_cli.Base.{
  ◌≡◌, refl, sym, ap, ◌∙◌, ◌⊎◌, inl, inr, Bool, true, false, not, Option, none, some, arith,
  Bool-cases, if◌then◌else◌,
}
use m365_xdr_cli.Base.Json.{Json, unique}
use m365_xdr_cli.Base.Attempt.{Attempt, returned, raised, >>=-eq-returned, returned-injective}
use m365_xdr_cli.LiveResponse.SessionAliases.Syntax.{AliasError}
use m365_xdr_cli.LiveResponse.SessionAliases.Registry.{
  Namespace, Registry, empty_registry, validate,
}
use m365_xdr_cli.LiveResponse.SessionAliases.Registry.Valid.{IsValid, validate-IsValid}
use m365_xdr_cli.LiveResponse.SessionAliases.Files.{
  File, absent, unsafe, holds, Files, State, read_file, has_marker, loads, check_handles,
  checked_state, state_of, read_private, read_state,
}

-- The registry file holds a value that is valid as the registry.
pub record Holds (n : Namespace) (f : Files) (r : Registry) : Type 0 where
  pub value : Json
  pub content : f.registry ≡ holds (some value)
  pub plain : unique value ≡ true
  pub accepted : validate n value ≡ some r

read_file-eq-some :
    {A : Type 0} (file : File A) (a : A) → read_file file ≡ returned (some a) → file ≡ holds a
unfolding read_file
read_file-eq-some absent a h = absurd (cc)
read_file-eq-some unsafe a h = absurd (cc)
read_file-eq-some (holds b) a h = ap holds (cc)

-- An empty registry, or one that the file holds.
abbrev pub Source : Namespace → Files → State → Type 0
Source n f s =
    ((s.registry ≡ empty_registry) × (s.present ≡ false))
    ⊎ (Holds n f s.registry × (s.present ≡ true))

state_of-Source :
    (n : Namespace) (f : Files) (marked : Bool) (o : Option (Option Json)) (s : State)
    → read_file f.registry ≡ returned o
    → state_of n f marked o ≡ returned s
    → Source n f s
unfolding state_of
state_of-Source n f true none s e h = absurd (cc)
state_of-Source n f false none s e h =
    let (u, c, d) = >>=-eq-returned (check_handles f.handles) _ h in
    subst (Source n f) (returned-injective d) (inl (refl, refl))
state_of-Source n f marked (some none) s e h = absurd (cc)
state_of-Source n f marked (some (some value)) s e h =
    let (v, l, g) = >>=-eq-returned (loads (some value)) _ h in
    elim (Bool-cases (unique value)) [
      | inl y ↦ found v (returned-injective (rw y at l)) y (validate n v) refl g
      | inr m ↦ absurd (refused (rw m at l))
    ]
  where
    refused :
        {v : Json} → Path (Attempt AliasError Json) (raised AliasError.invalid) (returned v) → ⊥
    refused p = cc

    found :
        (v : Json)
        → value ≡ v
        → unique value ≡ true
        → (o : Option Registry) → validate n v ≡ o
        → checked_state marked o ≡ returned s
        → Source n f s
    found v same y none q p = absurd (cc)
    found v same y (some r) q p = subst (Source n f) (returned-injective p) (
        inr (
          record {
            value = value;
            content = read_file-eq-some f.registry (some value) e;
            plain = y;
            accepted = ap (validate n) same ∙ q;
          },
          refl,
        ))

read_private-Source :
    (n : Namespace) (f : Files) (s : State) → read_private n f ≡ returned s → Source n f s
unfolding read_private
read_private-Source n f s h =
    let (marked, e, g) = >>=-eq-returned (has_marker n f) _ h in
    let (content, c, k) = >>=-eq-returned (read_file f.registry) _ g in
    state_of-Source n f marked content s c k

-- A state that is read comes from a private directory, and from the file or from nothing.
pub read_state-Source :
    (n : Namespace) (f : Files) (s : State)
    → read_state n f ≡ returned s
    → (f.private ≡ true) × Source n f s
unfolding read_state
read_state-Source n f s h = go f.private refl h
  where
    go :
        (b : Bool)
        → f.private ≡ b
        → (if not b then raised AliasError.not_private else read_private n f) ≡ returned s
        → (f.private ≡ true) × Source n f s
    go false e q = absurd (cc)
    go true e q = (e, read_private-Source n f s q)

pub Source-IsValid : (n : Namespace) (f : Files) (s : State) → Source n f s → IsValid s.registry
Source-IsValid n f s (inl (e, p)) =
    subst IsValid (sym e)
      (record { low = omega arith; high = omega arith; bound = tt; distinct = tt })
Source-IsValid n f s (inr (h, p)) = validate-IsValid n h.value s.registry h.plain h.accepted

state_of-value :
    (n : Namespace) (f : Files) (marked : Bool) (value : Json) (r : Registry)
    → unique value ≡ true
    → validate n value ≡ some r
    → state_of n f marked (some (some value))
      ≡ returned (record { registry = r; present = true; marked = marked })
unfolding state_of
state_of-value n f marked value r u e = rw u (ap (checked_state marked) e)

-- What is read where the marker is there and the file holds a registry.
pub read_state-Holds :
    (n : Namespace) (f : Files) (r : Registry)
    → f.private ≡ true
    → has_marker n f ≡ returned true
    → Holds n f r
    → read_state n f ≡ returned (record { registry = r; present = true; marked = true })
unfolding read_state read_private read_file
read_state-Holds n f r p m h =
    simp (p, m, h.content, state_of-value n f true h.value r h.plain h.accepted)
