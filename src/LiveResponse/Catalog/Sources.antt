-- ===== src/LiveResponse/Catalog/Sources.antt =====
-- The constants that src/xdr_cli/live_response/catalog.py shares between its specifications.
use m365_xdr_cli.Base.{Bool, false, Option, none, some, List, [], ◌∷◌, Text, codes}
use m365_xdr_cli.LiveResponse.Models.{
  Platform, windows, macos, linux, all_platforms, ParamSpec, FlagSpec, CommandSpec, local, read,
}

abbrev pub docs : Text
docs = codes "https://learn.microsoft.com/en-us/defender-endpoint/live-response"

abbrev pub portal : Text
portal = codes "portal get_command_definitions (V3, Windows session, 2026-10-24)"

abbrev pub frontend : Text
frontend = codes "portal live-response.js 20261021.1 (feature-gated)"

abbrev pub windows_only : List Platform
windows_only = windows ∷ []

abbrev pub macos_only : List Platform
macos_only = macos ∷ []

abbrev pub posix : List Platform
posix = macos ∷ linux ∷ []

-- `_param`
abbrev pub param : Text → Bool → Option Text → Option (List Text) → Bool → ParamSpec
param param_id required label choices is_path = record {
  param_id = param_id;
  required = required;
  choices = choices;
  label = label;
  is_path = is_path;
}

-- `LRFlagSpec(flag_id, short_name, long_name)`
abbrev pub flag : Text → Text → Text → FlagSpec
flag flag_id short_name long_name = record {
  flag_id = flag_id;
  short_name = some short_name;
  long_name = some long_name;
}

-- `_OUTPUT`
abbrev pub output_param : ParamSpec
output_param = param (codes "output") false none (some (codes "json" ∷ codes "table" ∷ [])) false

-- `_local`
abbrev pub local_command : Text → Text → Text → Text → List ParamSpec → CommandSpec
local_command name evidence summary note params = record {
  name = name;
  risk = local;
  platforms = all_platforms;
  evidence = evidence;
  summary = summary;
  aliases = [];
  params = params;
  flags = [];
  risk_by_value = [];
  official_type = none;
  local_note = some note;
  advanced = false;
}

-- `_read`
abbrev pub read_command :
    Text → List Platform → Text → List ParamSpec → List Text → List FlagSpec → CommandSpec
read_command name platforms summary params aliases flags = record {
  name = name;
  risk = read;
  platforms = platforms;
  evidence = portal;
  summary = summary;
  aliases = aliases;
  params = params;
  flags = flags;
  risk_by_value = [];
  official_type = none;
  local_note = none;
  advanced = false;
}
