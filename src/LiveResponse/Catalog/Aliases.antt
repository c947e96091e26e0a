-- ===== src/LiveResponse/Catalog/Aliases.antt =====
-- `build_alias_index` of src/xdr_cli/live_response/catalog.py.
pub mod Correct
use m365_xdr_cli.Base.{ℕ, zero, suc, ◌==◌, Option, none, some, List, [], ◌∷◌, Text, if◌then◌else◌}
use m365_xdr_cli.Base.Dict.{Dict, lookup, insert}
use m365_xdr_cli.LiveResponse.Models.{CommandSpec}

-- A specification with its place in the list that is indexed: `is` compares the places, since no object
-- stands in the list twice.
abbrev pub Entry : Type 0
Entry = ℕ × CommandSpec

module _ (lower : Text → Text) where
  -- One name of a specification: `setdefault`, and a `ValueError` where another one has the name.
  unfoldable pub add_name : Entry → Text → Dict Entry → Option (Dict Entry)
  add_name entry name index = elim (lookup (lower name) index) [
    | none ↦ some (insert (lower name) entry index)
    | some other ↦ if other.0 == entry.0 then some index else none
  ]

  unfoldable pub add_names : Entry → List Text → Dict Entry → Option (Dict Entry)
  add_names entry [] index = some index
  add_names entry (name ∷ rest) index = elim (add_name entry name index) [
    | none ↦ none
    | some next ↦ add_names entry rest next
  ]

  unfoldable pub add_specs : ℕ → List CommandSpec → Dict Entry → Option (Dict Entry)
  add_specs place [] index = some index
  add_specs place (spec ∷ rest) index =
      elim (add_names (place, spec) (spec.name ∷ spec.aliases) index) [
        | none ↦ none
        | some next ↦ add_specs (suc place) rest next
      ]

  -- `build_alias_index`
  unfoldable pub build_alias_index : List CommandSpec → Option (Dict Entry)
  build_alias_index specs = add_specs 0 specs []
