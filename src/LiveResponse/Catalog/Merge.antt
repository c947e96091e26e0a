-- ===== src/LiveResponse/Catalog/Merge.antt =====
-- `merge_definitions` of src/xdr_cli/live_response/catalog.py: a session's definitions give the
-- syntax of the remote commands, and the pinned table gives everything else.
pub mod Pins
use m365_xdr_cli.Base.{
  ℕ, Bool, true, false, not, Option, none, some, List, [], ◌∷◌, ◌++◌, ◌<◌, Text, text_eq, contains,
  ltb, ◌==◌, map, if◌then◌else◌,
}
use m365_xdr_cli.Base.Dict.{Dict, lookup}
use m365_xdr_cli.Base.Attempt.{Attempt, returned, raised, ◌>>=◌}
use m365_xdr_cli.Base.Sort.{sort_texts}
use m365_xdr_cli.LiveResponse.Models.{is_local, CommandSpec, ParamSpec, FlagSpec}
use m365_xdr_cli.LiveResponse.Catalog.Sources.{portal}
use m365_xdr_cli.LiveResponse.Catalog.Aliases.{Entry, build_alias_index}

-- `KeyError` for an entry without its id, and the `APIError` for commands that share an alias.
pub data MergeError : Type 0 where
  missing_id shared_alias : MergeError

-- One entry of a definition's `params`, with the defaults of the look-ups that read it; the id has none.
pub record RawParam : Type 0 where
  pub param_id : Option Text
  pub is_hidden : Bool
  pub optional : Bool
  pub valid_values : List Text
  pub name : Option Text
  pub is_path : Bool

-- One entry of a definition's `flags`.
pub record RawFlag : Type 0 where
  pub flag_id : Option Text
  pub short_name : Option Text
  pub long_name : Option Text

-- One entry of the server's command definitions.
pub record Definition : Type 0 where
  pub command_definition_id : Text
  pub params : List RawParam
  pub flags : List RawFlag
  pub aliases : List Text

-- `tuple(…) if choices else None`
abbrev listed_choices : List Text → Option (List Text)
listed_choices [] = none
listed_choices (c ∷ cs) = some (c ∷ cs)

-- `raw[…]`
abbrev pub required_id : Option Text → Attempt MergeError Text
required_id none = raised MergeError.missing_id
required_id (some id) = returned id

abbrev param_of : RawParam → Text → ParamSpec
param_of raw id = record {
  param_id = id;
  required = not raw.optional;
  choices = listed_choices raw.valid_values;
  label = raw.name;
  is_path = raw.is_path;
}

-- The parameters that are not hidden.
unfoldable pub visible_params : List RawParam → Attempt MergeError (List ParamSpec)
visible_params [] = returned []
visible_params (raw ∷ rest) =
    let others = visible_params rest in
    if raw.is_hidden
    then others
    else (required_id raw.param_id >>= λ id.
        others >>= λ params. returned (param_of raw id ∷ params))

-- The flags.
unfoldable pub flag_specs : List RawFlag → Attempt MergeError (List FlagSpec)
flag_specs [] = returned []
flag_specs (raw ∷ rest) = required_id raw.flag_id >>= λ id. flag_specs rest >>= λ flags.
    returned
      (record { flag_id = id; short_name = raw.short_name; long_name = raw.long_name } ∷ flags)

-- `_BY_NAME.get(command_id)`: the dictionary keeps the last specification of a name.
unfoldable pub by_name : Text → List CommandSpec → Option CommandSpec
by_name name [] = none
by_name name (s ∷ rest) = elim (by_name name rest) [
  | some later ↦ some later
  | none ↦ if text_eq name s.name then some s else none
]

-- `[spec for spec in _SPECS if spec.risk is LRRisk.LOCAL]`
unfoldable pub local_specs : List CommandSpec → List CommandSpec
local_specs [] = []
local_specs (s ∷ rest) =
    let others = local_specs rest in if is_local s.risk then s ∷ others else others

-- `{spec.name for spec in specs}`
abbrev pub names_of : List CommandSpec → List Text
names_of = map (λ s. s.name)

-- What the loop over the definitions has collected.
pub record Collected : Type 0 where
  pub specs : List CommandSpec
  pub unclassified : List Text

module _ (lower : Text → Text) where
  -- The aliases that are not the command's own name.
  unfoldable pub other_aliases : Text → List Text → List Text
  other_aliases name [] = []
  other_aliases name (alias ∷ rest) =
      let others = other_aliases name rest in
      if text_eq (lower alias) name then others else alias ∷ others

  -- `replace(pinned, …)` with the syntax of the definition.
  abbrev pub with_syntax : CommandSpec → List ParamSpec → List FlagSpec → List Text → CommandSpec
  with_syntax pinned params flags aliases = record pinned {
    params = params;
    flags = flags;
    aliases = other_aliases pinned.name aliases;
    evidence = portal;
  }

  -- `_definition_spec`
  unfoldable pub definition_spec : CommandSpec → Definition → Attempt MergeError CommandSpec
  definition_spec pinned d = visible_params d.params >>= λ params.
      flag_specs d.flags >>= λ flags. returned (with_syntax pinned params flags d.aliases)

  -- One definition.
  unfoldable pub collect_one :
      List CommandSpec → Definition → Collected → Attempt MergeError Collected
  collect_one pinned d c =
      let command_id = lower d.command_definition_id in
      elim (by_name command_id pinned) [
        | none ↦ returned (record c { unclassified = c.unclassified ++ (command_id ∷ []) })
        | some p ↦
            if contains command_id (names_of (local_specs pinned))
            then returned c
            else (definition_spec p d >>= λ spec.
                returned (record c { specs = c.specs ++ (spec ∷ []) }))
      ]

  unfoldable pub collect_all :
      List CommandSpec → List Definition → Collected → Attempt MergeError Collected
  collect_all pinned [] c = returned c
  collect_all pinned (d ∷ rest) c = collect_one pinned d c >>= λ next. collect_all pinned rest next

  -- The index of what was collected.
  unfoldable pub index_collected : Collected → Attempt MergeError (Dict Entry × List Text)
  index_collected c = elim (build_alias_index lower c.specs) [
    | none ↦ raised MergeError.shared_alias
    | some index ↦ returned (index, sort_texts c.unclassified)
  ]

  -- `merge_definitions` over the pinned table
  unfoldable pub merge_definitions :
      List CommandSpec → List Definition → Attempt MergeError (Dict Entry × List Text)
  merge_definitions pinned definitions =
      collect_all pinned definitions (record { specs = local_specs pinned; unclassified = [] })
      >>= λ c. index_collected c
