-- ===== src/LiveResponse/Catalog/Actions.antt =====
-- The commands that collect, place, execute or act of the pinned catalog, _SPECS of src/xdr_cli/live_response/catalog.py.
use m365_xdr_cli.Base.{true, false, none, some, [], ◌∷◌, codes}
use m365_xdr_cli.LiveResponse.Models.{
  CommandSpec, read, collect, place, execute, device_action, all_platforms,
}
use m365_xdr_cli.LiveResponse.Catalog.Sources.{
  portal, docs, frontend, windows_only, macos_only, posix, param, flag,
}

abbrev pub getfile_spec : CommandSpec
getfile_spec = record {
  name = codes "getfile";
  risk = collect;
  platforms = all_platforms;
  evidence = portal;
  summary = codes "Download a file from the device.";
  aliases = codes "download" ∷ codes "get" ∷ codes "download-file" ∷ codes "downloadfile" ∷ [];
  params = (param (codes "path") false (none) (none) true) ∷ [];
  flags = (flag (codes "upload") (codes "u") (codes "upload_to_cloud")) ∷ [];
  risk_by_value = [];
  official_type = some (codes "GetFile");
  local_note = none;
  advanced = false;
}

abbrev pub analyze_spec : CommandSpec
analyze_spec = record {
  name = codes "analyze";
  risk = collect;
  platforms = windows_only;
  evidence = portal;
  summary = codes "Analyze a file or process with incrimination engines.";
  aliases = [];
  params =
      (param (codes "type") true (some (codes "EntityType"))
        (some (codes "file" ∷ codes "process" ∷ [])) false)
      ∷ (param (codes "id") true (some (codes "EntityKey")) (none) false)
      ∷ [];
  flags = [];
  risk_by_value = [];
  official_type = none;
  local_note = none;
  advanced = true;
}

abbrev pub collect_spec : CommandSpec
collect_spec = record {
  name = codes "collect";
  risk = collect;
  platforms = posix;
  evidence = docs;
  summary = codes "Collect a forensics package.";
  aliases = [];
  params = [];
  flags = [];
  risk_by_value = [];
  official_type = none;
  local_note = none;
  advanced = true;
}

abbrev pub processdump_spec : CommandSpec
processdump_spec = record {
  name = codes "processdump";
  risk = collect;
  platforms = all_platforms;
  evidence = frontend;
  summary = codes "Collect a process memory dump.";
  aliases = codes "pdump" ∷ [];
  params = [];
  flags = [];
  risk_by_value = [];
  official_type = none;
  local_note = none;
  advanced = true;
}

abbrev pub putfile_spec : CommandSpec
putfile_spec = record {
  name = codes "putfile";
  risk = place;
  platforms = all_platforms;
  evidence = portal;
  summary = codes "Put a library file on the device.";
  aliases = codes "upload" ∷ codes "upload-file" ∷ codes "put" ∷ [];
  params = (param (codes "id") true (some (codes "FileNameInLibrary")) (none) false) ∷ [];
  flags =
      (flag (codes "overwrite") (codes "o") (codes "overwrite"))
      ∷ (flag (codes "keep") (codes "k") (codes "keep"))
      ∷ [];
  risk_by_value = [];
  official_type = some (codes "PutFile");
  local_note = none;
  advanced = true;
}

abbrev pub run_spec : CommandSpec
run_spec = record {
  name = codes "run";
  risk = execute;
  platforms = all_platforms;
  evidence = portal;
  summary = codes "Run a library script.";
  aliases = codes "execute" ∷ codes "ps" ∷ codes "start" ∷ codes "powershell" ∷ [];
  params =
      (param (codes "id") true (some (codes "FileNameInLibrary")) (none) false)
      ∷ (param (codes "parameters") false (some (codes "ScriptParameters")) (none) false)
      ∷ [];
  flags = [];
  risk_by_value = [];
  official_type = some (codes "RunScript");
  local_note = none;
  advanced = true;
}

abbrev pub remediate_spec : CommandSpec
remediate_spec = record {
  name = codes "remediate";
  risk = execute;
  platforms = all_platforms;
  evidence = portal;
  summary = codes "Remediate an entity, or list remediated entities.";
  aliases = [];
  params =
      (param (codes "type") true (some (codes "EntityType"))
        (some (
          codes "file"
          ∷ codes "process"
          ∷ codes "service"
          ∷ codes "registry"
          ∷ codes "startupfolder"
          ∷ codes "scheduledtask"
          ∷ codes "list"
          ∷ []))
        false)
      ∷ (param (codes "id") false (some (codes "EntityKey")) (none) false)
      ∷ [];
  flags = [];
  risk_by_value = (record { param_id = codes "type"; value = codes "list"; risk = read }) ∷ [];
  official_type = none;
  local_note = none;
  advanced = true;
}

abbrev pub undo_spec : CommandSpec
undo_spec = record {
  name = codes "undo";
  risk = execute;
  platforms = windows_only;
  evidence = portal;
  summary = codes "Restore a remediated entity.";
  aliases = [];
  params =
      (param (codes "type") true (some (codes "EntityType"))
        (some (
          codes "file"
          ∷ codes "service"
          ∷ codes "registry"
          ∷ codes "startupfolder"
          ∷ codes "scheduledtask"
          ∷ []))
        false)
      ∷ (param (codes "id") true (some (codes "EntityKey")) (none) false)
      ∷ [];
  flags = [];
  risk_by_value = [];
  official_type = none;
  local_note = none;
  advanced = true;
}

abbrev pub isolate_spec : CommandSpec
isolate_spec = record {
  name = codes "isolate";
  risk = device_action;
  platforms = macos_only;
  evidence = docs;
  summary = codes "Isolate the device from the network.";
  aliases = [];
  params = [];
  flags = [];
  risk_by_value = [];
  official_type = none;
  local_note = none;
  advanced = true;
}

abbrev pub release_spec : CommandSpec
release_spec = record {
  name = codes "release";
  risk = device_action;
  platforms = macos_only;
  evidence = docs;
  summary = codes "Release the device from isolation.";
  aliases = [];
  params = [];
  flags = [];
  risk_by_value = [];
  official_type = none;
  local_note = none;
  advanced = true;
}

abbrev pub scan_spec : CommandSpec
scan_spec = record {
  name = codes "scan";
  risk = device_action;
  platforms = posix;
  evidence = docs;
  summary = codes "Run a quick antivirus scan.";
  aliases = [];
  params = [];
  flags = [];
  risk_by_value = [];
  official_type = none;
  local_note = none;
  advanced = true;
}
