-- ===== src/LiveResponse/SessionAliases/Files.antt =====
-- The files of one alias registry in session_aliases.py, and what is read from them.
pub mod Reading
use m365_xdr_cli.Base.{
  Bool, true, false, not, Option, none, some, List, [], ◌∷◌, ◌++◌, Text, codes, text_eq,
  if◌then◌else◌,
}
use m365_xdr_cli.Base.Json.{Json, Members, null, object, get, unique}
use m365_xdr_cli.Base.Attempt.{Attempt, returned, raised, ◌>>=◌}
use m365_xdr_cli.LiveResponse.SessionAliases.Syntax.{AliasError, is_session}
use m365_xdr_cli.LiveResponse.SessionAliases.Registry.{
  Namespace, Registry, empty_registry, validate, members_of,
}

-- What `_read_file` finds: nothing, a link, a special file, one with other permissions or one that is
-- too large, or a content.
pub data File (A : Type 0) : Type 0 where
  absent unsafe : File A
  holds : A → File A

-- The directory of a namespace. The content of a JSON file is what `json.loads` makes of its bytes,
-- `none` where it raises; a handle comes with the stem of its name.
pub record Files : Type 0 where
  pub private : Bool
  pub registry : File (Option Json)
  pub marker : File Text
  pub handles : List (Text × File (Option Json))

-- `_read_file`
unfoldable pub read_file : {A : Type 0} → File A → Attempt AliasError (Option A)
read_file absent = returned none
read_file unsafe = raised AliasError.invalid
read_file (holds content) = returned (some content)

-- `_marker_bytes`
abbrev pub marker_bytes : Namespace → Text
marker_bytes n =
    codes "xdr-live-response-aliases-v1\n"
    ++ (n.tenant ++ (codes "\n" ++ (n.backend ++ codes "\n")))

-- `_has_marker`
unfoldable pub has_marker : Namespace → Files → Attempt AliasError Bool
has_marker n f = do
  marker ← read_file f.marker
  elim marker [
    | none ↦ returned false
    | some t ↦ if text_eq t (marker_bytes n) then returned true else raised AliasError.invalid
  ]

abbrev is_set : Option Json → Bool
is_set none = false
is_set (some null) = false
is_set (some _) = true

-- The record of a handle is no object, or it has an alias.
abbrev pub carries_alias : Option Members → Bool
carries_alias none = true
carries_alias (some ms) = is_set (get (codes "alias") ms)

-- `json.loads(data, object_pairs_hook=_object)`
abbrev pub loads : Option Json → Attempt AliasError Json
loads none = raised AliasError.invalid
loads (some value) = if unique value then returned value else raised AliasError.invalid

-- One handle of `_check_uninitialized_handles`, once its file is read.
unfoldable pub check_handle : Option (Option Json) → Attempt AliasError (Unit {0})
check_handle none = returned tt
check_handle (some content) = do
  value ← loads content
  if carries_alias (members_of (some value)) then raised AliasError.handles_remain else returned tt

-- `_check_uninitialized_handles`
unfoldable pub check_handles : List (Text × File (Option Json)) → Attempt AliasError (Unit {0})
check_handles [] = returned tt
check_handles ((stem, file) ∷ rest) =
    let others = check_handles rest in
    if not (is_session stem)
    then others
    else do data_read ← read_file file; checked ← check_handle data_read; others

-- What `_read_state` returns.
pub record State : Type 0 where
  pub registry : Registry
  pub present : Bool
  pub marked : Bool

-- The state that `_validate` lets through.
abbrev pub checked_state : Bool → Option Registry → Attempt AliasError State
checked_state marked none = raised AliasError.invalid
checked_state marked (some r) = returned (record { registry = r; present = true; marked = marked })

-- `_read_state` behind the two files.
unfoldable pub state_of : Namespace → Files → Bool → Option (Option Json) → Attempt AliasError State
state_of n f marked none = if marked then raised AliasError.registry_missing else do
  checked ← check_handles f.handles
  returned (record { registry = empty_registry; present = false; marked = false })
state_of n f marked (some content) = do
  value ← loads content
  checked_state marked (validate n value)

-- `_read_state` in a private directory.
unfoldable pub read_private : Namespace → Files → Attempt AliasError State
read_private n f = do
  marked ← has_marker n f
  content ← read_file f.registry
  state_of n f marked content

-- `_read_state`, with `_check_directory` at its head.
unfoldable pub read_state : Namespace → Files → Attempt AliasError State
read_state n f = if not f.private then raised AliasError.not_private else read_private n f
