-- ===== src/LiveResponse/SessionAliases/Registry.antt =====
-- The registry of session_aliases.py: `_empty`, `_validate` and `_find`, and its JSON form.
pub mod Valid
pub mod Encode
use m365_xdr_cli.Base.{
  ℕ, ◌+◌, Bool, true, false, ◌&&◌, not, Option, none, some, List, [], ◌∷◌, Text, codes, text_eq,
  contains, same_names, ascii_lower, ltb, leb, ◌==◌, if◌then◌else◌, ◌>>=◌, ◌>>◌, guard,
}
use Prim.Native.Nat.{max}
use m365_xdr_cli.Base.Dict.{Dict}
use m365_xdr_cli.Base.Json.{Json, Members, whole, text, object, end, member, names, get}
use m365_xdr_cli.Base.Attempt.{Attempt, returned, raised}
use m365_xdr_cli.LiveResponse.SessionAliases.Syntax.{
  AliasError, max_alias, alias_number, is_alias, is_fingerprint, identity,
}

-- `self.tenant` and `self.backend`
pub record Namespace : Type 0 where
  pub tenant : Text
  pub backend : Text

-- The checks of `__init__`
unfoldable pub open_namespace : Text → Text → Attempt AliasError Namespace
open_namespace tenant backend =
    if is_fingerprint tenant && contains backend (codes "portal-cookie" ∷ codes "official" ∷ [])
    then returned (record { tenant = tenant; backend = backend })
    else raised AliasError.bad_namespace

pub record Binding : Type 0 where
  pub session_id : Text
  pub machine_id : Text

-- A registry of one namespace that has been validated.
pub record Registry : Type 0 where
  pub next_alias : ℕ
  pub bindings : Dict Binding

-- `_empty`
abbrev pub empty_registry : Registry
empty_registry = record { next_alias = 1; bindings = [] }

abbrev pub is_whole : ℕ → Option Json → Bool
is_whole n (some (whole k)) = k == n
is_whole n _ = false

abbrev pub is_text : Text → Option Json → Bool
is_text t (some (text u)) = text_eq u t
is_text t _ = false

abbrev pub whole_of : Option Json → Option ℕ
whole_of (some (whole k)) = some k
whole_of _ = none

abbrev pub text_of : Option Json → Option Text
text_of (some (text t)) = some t
text_of _ = none

abbrev pub members_of : Option Json → Option Members
members_of (some (object ms)) = some ms
members_of _ = none

abbrev pub identity_of : Text → Text → Option (Text × Text)
identity_of session_id machine_id = elim (identity session_id machine_id) [
  | returned pair ↦ some pair
  | raised e ↦ none
]

-- One binding.
unfoldable pub check_binding : Text → Option Members → Option Binding
check_binding alias none = none
check_binding alias (some ms) = do
  guard (is_alias alias && text_eq alias (ascii_lower alias))
  guard (same_names (names ms) (codes "session_id" ∷ codes "machine_id" ∷ []))
  session_id ← text_of (get (codes "session_id") ms)
  machine_id ← text_of (get (codes "machine_id") ms)
  (s, m) ← identity_of session_id machine_id
  guard (text_eq m machine_id)
  some (record { session_id = s; machine_id = m })

-- The loop over the bindings, with the sessions seen; it returns the largest number, too.
unfoldable pub check_bindings : Members → List Text → ℕ → Option (Dict Binding × ℕ)
check_bindings end seen maximum = some ([], maximum)
check_bindings (member alias value rest) seen maximum = do
  binding ← check_binding alias (members_of (some value))
  guard (not (contains binding.session_id seen))
  (others, largest) ←
      check_bindings rest (binding.session_id ∷ seen) (max maximum (alias_number alias))
  some ((alias, binding) ∷ others, largest)

-- `_FIELDS`
abbrev pub field_names : List Text
field_names =
    codes "version" ∷ codes "tenant" ∷ codes "backend" ∷ codes "next_alias" ∷ codes "bindings" ∷ []

-- `_validate`; `none` is `_invalid()`.
unfoldable pub validate_members : Namespace → Option Members → Option Registry
validate_members n none = none
validate_members n (some ms) = do
  guard (same_names (names ms) field_names)
  guard (is_whole 1 (get (codes "version") ms))
  guard (is_text n.tenant (get (codes "tenant") ms))
  guard (is_text n.backend (get (codes "backend") ms))
  next ← whole_of (get (codes "next_alias") ms)
  guard (leb 1 next && leb next (max_alias + 1))
  entries ← members_of (get (codes "bindings") ms)
  (bindings, maximum) ← check_bindings entries [] 0
  guard (ltb maximum next)
  some (record { next_alias = next; bindings = bindings })

unfoldable pub validate : Namespace → Json → Option Registry
unfolding validate_members
validate n value = validate_members n (members_of (some value))

-- What `json.dumps` writes of the registry.
unfoldable pub binding_json : Binding → Json
binding_json b = object (
    member (codes "session_id") (text b.session_id)
      (member (codes "machine_id") (text b.machine_id) end))

unfoldable pub bindings_json : Dict Binding → Members
bindings_json [] = end
bindings_json ((alias, b) ∷ rest) = member alias (binding_json b) (bindings_json rest)

unfoldable pub to_json : Namespace → Registry → Json
to_json n r = object (
    member (codes "version") (whole 1) (
      member (codes "tenant") (text n.tenant) (
        member (codes "backend") (text n.backend) (
          member (codes "next_alias") (whole r.next_alias)
            (member (codes "bindings") (object (bindings_json r.bindings)) end)))))

-- `_find`
unfoldable pub find_alias : Dict Binding → Text → Text → Attempt AliasError (Option Text)
find_alias [] session_id machine_id = returned none
find_alias ((alias, b) ∷ rest) session_id machine_id =
    let later = find_alias rest session_id machine_id in
    if text_eq b.session_id session_id
    then (if text_eq b.machine_id machine_id
        then returned (some alias)
        else raised AliasError.device_changed)
    else later
