-- ===== src/LiveResponse/SessionAliases/Operations/Runs.antt =====
-- Sequences of calls of session_aliases.py, and a registry that was lost.
use mathlib.Core.Path.{subst}
use m365_xdr_cli.Base.{ℕ, ◌≡◌, refl, sym, ◌∙◌, true, some, Text}
use m365_xdr_cli.Base.Dict.{lookup}
use m365_xdr_cli.Base.Json.{Json}
use m365_xdr_cli.Base.Attempt.{returned, raised, returned-injective}
use m365_xdr_cli.LiveResponse.SessionAliases.Syntax.{AliasError, identity, validate_alias}
use m365_xdr_cli.LiveResponse.SessionAliases.Registry.{Namespace, Binding}
use m365_xdr_cli.LiveResponse.SessionAliases.Files.{
  Files, absent, State, has_marker, read_file, state_of, read_private, read_state,
}
use m365_xdr_cli.LiveResponse.SessionAliases.Operations.{
  assign, assign_locked, resolve, read_adopting,
}
use m365_xdr_cli.LiveResponse.SessionAliases.Operations.Grant.{assign-IsGranted}

module _ (size : Json → ℕ) (n : Namespace) where
  -- Any number of calls of `assign` that return.
  pub data Runs (f : Files) : Files → Type 0 where
    here : Runs f f
    next :
        {g k : Files} (session machine alias : Text)
        → Runs f g
        → assign size n g session machine ≡ (returned alias, k)
        → Runs f k

  -- The name is bound in the registry that is read from the files.
  pub record Bound (f : Files) (a : Text) (b : Binding) : Type 0 where
    pub state : State
    pub read : read_state n f ≡ returned state
    pub bound : lookup a state.registry.bindings ≡ some b

  -- A name that is bound keeps its session and machine through any number of calls of `assign` that
  -- return.
  pub Runs-Bound : {f g : Files} (a : Text) (b : Binding) → Runs f g → Bound f a b → Bound g a b
  Runs-Bound a b here h = h
  Runs-Bound a b (next session machine alias r e) h =
      let there = Runs-Bound a b r h in
      let (before, q, granted) = assign-IsGranted size n _ _ session machine alias e in
      let same : there.state ≡ before = returned-injective (sym there.read ∙ q) in
      record {
        state = record { registry = granted.after; present = true; marked = true };
        read = granted.now;
        bound =
            granted.kept a b
              (subst (λ (s : State). lookup a s.registry.bindings ≡ some b) same there.bound);
      }

  -- The registry is gone, but the marker says that there was one.
  pub record IsLost (f : Files) : Type 0 where
    pub private : f.private ≡ true
    pub marker : has_marker n f ≡ returned true
    pub gone : f.registry ≡ absent

  read_state-lost : (f : Files) → IsLost f → read_state n f ≡ raised AliasError.registry_missing
  unfolding read_state read_private read_file state_of
  read_state-lost f h = simp (h.private, h.marker, h.gone)

  assign_locked-lost :
      (f : Files) (s m : Text)
      → IsLost f
      → assign_locked size n f s m ≡ (raised AliasError.registry_missing, f)
  unfolding assign_locked
  assign_locked-lost f s m h = rw (read_state-lost f h, assign_locked) refl

  read_adopting-lost :
      (f locked : Files)
      → IsLost f
      → read_adopting n f locked ≡ (raised AliasError.registry_missing, locked)
  unfolding read_adopting
  read_adopting-lost f locked h = rw (read_state-lost f h, read_adopting) refl

  -- Where the marker is there and the registry is not, valid identifiers get no name, no valid alias is
  -- resolved, and nothing is written: numbers are not given away a second time.
  pub assign-lost :
      (f locked : Files) (session machine alias : Text) (pair : Text × Text) (name : Text)
      → IsLost f
      → identity session machine ≡ returned pair
      → validate_alias alias ≡ returned name
      → (assign size n f session machine ≡ (raised AliasError.registry_missing, f))
        × (resolve n f locked alias ≡ (raised AliasError.registry_missing, locked))
  unfolding assign resolve
  assign-lost f locked session machine alias (s, m) name h i v = (
    simp (i, assign, h.private, assign_locked-lost f s m h),
    rw (v, resolve, read_adopting-lost f locked h) refl,
  )
