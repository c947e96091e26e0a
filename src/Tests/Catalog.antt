-- ===== src/Tests/Catalog.antt =====
-- The index and the definitions of a session over a part of the pinned table.
use m365_xdr_cli.Base.{Option, some, Bool, ◌≡◌}
use m365_xdr_cli.LiveResponse.Catalog.Pinned.{specs}
use m365_xdr_cli.Base.{Text-discrete, true, false, none, refl, List, [], ◌∷◌, codes}
use m365_xdr_cli.Base.Dict.{Dict, lookup, insert}
use m365_xdr_cli.LiveResponse.Models.{CommandSpec}
use m365_xdr_cli.LiveResponse.Catalog.Local.{help_spec}
use m365_xdr_cli.LiveResponse.Catalog.Inspection.{dir_spec}
use m365_xdr_cli.LiveResponse.Catalog.Sources.{portal}
use m365_xdr_cli.LiveResponse.Catalog.Aliases.{
  Entry, build_alias_index, add_specs, add_names, add_name,
}
use m365_xdr_cli.LiveResponse.Catalog.Aliases.Correct.{IsIndexOf, build_alias_index-IsIndexOf}
use m365_xdr_cli.LiveResponse.Catalog.Merge.{Definition}
use m365_xdr_cli.Tests.{ascii_lower}

abbrev table : List CommandSpec
table = help_spec ∷ dir_spec ∷ []

abbrev table_index : Dict Entry
table_index =
    (codes "help", (0, help_spec)) ∷ (codes "dir", (1, dir_spec)) ∷ (codes "ls", (1, dir_spec)) ∷ []

build_alias_index-IsIndexOf_example : IsIndexOf ascii_lower table table_index
unfolding build_alias_index add_specs add_names add_name lookup insert Text-discrete
build_alias_index-IsIndexOf_example = build_alias_index-IsIndexOf ascii_lower table table_index refl

-- What a server says of `dir`, and of a command that the table does not know.
abbrev offered : List Definition
offered =
    record {
      command_definition_id = codes "Dir";
      params =
          record {
            param_id = some (codes "path");
            is_hidden = false;
            optional = false;
            valid_values = [];
            name = none;
            is_path = true;
          }
          ∷ [];
      flags = [];
      aliases = codes "DIR" ∷ codes "list" ∷ [];
    }
    ∷ record { command_definition_id = codes "newtool"; params = []; flags = []; aliases = [] }
    ∷ []

abbrev session_dir : CommandSpec
session_dir = record dir_spec {
  params =
      record {
        param_id = codes "path";
        required = true;
        choices = none;
        label = none;
        is_path = true;
      }
      ∷ [];
  flags = [];
  aliases = codes "list" ∷ [];
  evidence = portal;
}

abbrev session_index : Dict Entry
session_index =
    (codes "help", (0, help_spec))
    ∷ (codes "dir", (1, session_dir))
    ∷ (codes "list", (1, session_dir))
    ∷ []

-- Whether an index is built.
abbrev is_built : Option (Dict Entry) → Bool
is_built none = false
is_built (some index) = true

-- No two commands of the pinned table share a name.
pinned_built : is_built (build_alias_index ascii_lower specs) ≡ true
unfolding build_alias_index add_specs add_names add_name lookup insert Text-discrete
pinned_built = refl
