-- ===== src/LiveResponse/SessionAliases/Operations.antt =====
-- The operations of `SessionAliases` in session_aliases.py. A function that writes returns the files
-- also where it raises.
pub mod Extend
pub mod Assign
pub mod Publish
pub mod Grant
pub mod Runs
pub mod Success
use m365_xdr_cli.Base.{
  ℕ, ◌+◌, Bool, true, false, ◌&&◌, not, Option, none, some, List, [], ◌∷◌, ◌++◌, Text, codes,
  text_eq, ltb, ◌==◌, if◌then◌else◌,
}
use m365_xdr_cli.Base.Decimal.{decimal}
use m365_xdr_cli.Base.Dict.{Dict, insert, lookup}
use m365_xdr_cli.Base.Json.{Json}
use m365_xdr_cli.Base.Attempt.{Attempt, returned, raised, ◌>>=◌}
use m365_xdr_cli.LiveResponse.SessionAliases.Syntax.{
  AliasError, max_alias, identity, validate_alias,
}
use m365_xdr_cli.LiveResponse.SessionAliases.Registry.{
  Namespace, Binding, Registry, to_json, find_alias,
}
use m365_xdr_cli.LiveResponse.SessionAliases.Files.{
  File, absent, holds, Files, State, has_marker, marker_bytes, read_state,
}

-- The outcome of a call that may write, and the files behind it.
abbrev pub Effect : Type 0 → Type 0
Effect A = Attempt AliasError A × Files

-- `_ensure_marker`
unfoldable pub ensure_marker : Namespace → Files → Effect (Unit {0})
ensure_marker n f = elim (has_marker n f) [
  | raised e ↦ (raised e, f)
  | returned true ↦ (returned tt, f)
  | returned false ↦
      let g : Files = record f { marker = holds (marker_bytes n) } in
      elim (has_marker n g) [
        | raised e ↦ (raised e, g)
        | returned there ↦
            if there then (returned tt, g) else (raised AliasError.marker_unverified, g)
      ]
]

-- `_read` with `adopt`, under the lock where it is taken: `locked` is what is there by then.
unfoldable pub adopt_registry : Namespace → Files → Effect Registry
adopt_registry n locked = elim (read_state n locked) [
  | raised e ↦ (raised e, locked)
  | returned s ↦
      if not s.present
      then (raised AliasError.disappeared, locked)
      else let (outcome, g) = ensure_marker n locked in
        elim outcome [ raised e ↦ (raised e, g) | returned u ↦ (returned s.registry, g) ]
]

unfoldable pub read_adopting : Namespace → Files → Files → Effect Registry
read_adopting n f locked = elim (read_state n f) [
  | raised e ↦ (raised e, locked)
  | returned s ↦
      if s.present && not s.marked then adopt_registry n locked else (returned s.registry, locked)
]

-- `alias_for`
unfoldable pub alias_for : Namespace → Files → Files → Text → Text → Effect (Option Text)
alias_for n f locked session_id machine_id = elim (identity session_id machine_id) [
  | raised e ↦ (raised e, locked)
  | returned (s, m) ↦
      let (outcome, g) = read_adopting n f locked in
      ((outcome >>= λ r. find_alias r.bindings s m), g)
]

-- `resolve`: the session and the machine of the alias, if it is there.
unfoldable pub resolve : Namespace → Files → Files → Text → Effect (Option Binding)
resolve n f locked alias = elim (validate_alias alias) [
  | raised e ↦ (raised e, locked)
  | returned name ↦
      let (outcome, g) = read_adopting n f locked in
      ((outcome >>= λ r. returned (lookup name r.bindings)), g)
]

-- Equality of registries. JSON keeps the order of a dictionary, so theirs are compared as lists.
unfoldable pub same_bindings : Dict Binding → Dict Binding → Bool
same_bindings [] [] = true
same_bindings ((j, b) ∷ ds) ((k, c) ∷ es) =
    let rest = same_bindings ds es in
    text_eq j k
    && (text_eq b.session_id c.session_id && (text_eq b.machine_id c.machine_id && rest))
same_bindings _ _ = false

unfoldable pub same_registry : Registry → Registry → Bool
same_registry r q = r.next_alias == q.next_alias && same_bindings r.bindings q.bindings

-- `f"lr-{number}"`
abbrev pub alias_text : ℕ → Text
alias_text number = codes "lr-" ++ decimal number

-- The registry with the next alias given away.
unfoldable pub extended : Registry → Text → Text → Registry
extended r session_id machine_id = record {
  next_alias = r.next_alias + 1;
  bindings =
      insert (alias_text r.next_alias) (record { session_id = session_id; machine_id = machine_id })
        r.bindings;
}

-- `_MAX_BYTES`
abbrev pub max_bytes : ℕ
max_bytes = 8_388_608

-- `size` is the length in bytes of what `json.dumps` writes.
module _ (size : Json → ℕ) where
  -- The registry is written and read back.
  unfoldable pub publish : Namespace → Text → Registry → Files → Effect Text
  publish n alias r f =
      if ltb max_bytes (size (to_json n r))
      then (raised AliasError.full, f)
      else let g : Files = record f { registry = holds (some (to_json n r)) } in
        elim (read_state n g) [
          | raised e ↦ (raised e, g)
          | returned s ↦
              if same_registry s.registry r
              then (returned alias, g)
              else (raised AliasError.unverified, g)
        ]

  -- `assign` behind the marker.
  unfoldable pub allocate : Namespace → Registry → Text → Text → Files → Effect Text
  allocate n r session_id machine_id f = elim (find_alias r.bindings session_id machine_id) [
    | raised e ↦ (raised e, f)
    | returned (some alias) ↦ (returned alias, f)
    | returned none ↦
        if ltb max_alias r.next_alias
        then (raised AliasError.exhausted, f)
        else publish n (alias_text r.next_alias) (extended r session_id machine_id) f
  ]

  -- `assign` under the lock.
  unfoldable pub assign_locked : Namespace → Files → Text → Text → Effect Text
  assign_locked n f session_id machine_id = elim (read_state n f) [
    | raised e ↦ (raised e, f)
    | returned s ↦
        let (outcome, g) = ensure_marker n f in
        elim outcome [
          | raised e ↦ (raised e, g)
          | returned u ↦ allocate n s.registry session_id machine_id g
        ]
  ]

  -- `assign`
  unfoldable pub assign : Namespace → Files → Text → Text → Effect Text
  assign n f session_id machine_id = elim (identity session_id machine_id) [
    | raised e ↦ (raised e, f)
    | returned (s, m) ↦
        if not f.private then (raised AliasError.not_private, f) else assign_locked n f s m
  ]
