-- ===== src/LiveResponse/Catalog/Local.antt =====
-- The commands that are answered locally of the pinned catalog, _SPECS of src/xdr_cli/live_response/catalog.py.
use m365_xdr_cli.Base.{true, false, none, some, [], ◌∷◌, codes}
use m365_xdr_cli.LiveResponse.Models.{CommandSpec}
use m365_xdr_cli.LiveResponse.Catalog.Sources.{portal, docs, param, local_command}

abbrev pub help_spec : CommandSpec
help_spec =
    local_command (codes "help") (docs) (codes "Show help for a command.")
      (codes "Answered from the local catalog: xdr device live-response catalog")
      ((param (codes "command") false (none) (none) false) ∷ [])

abbrev pub cls_spec : CommandSpec
cls_spec =
    local_command (codes "cls") (docs) (codes "Clear the console screen.")
      (codes "Console presentation only; not a device action.") ([])

abbrev pub trace_spec : CommandSpec
trace_spec =
    local_command (codes "trace") (docs) (codes "Set console logging mode to debug.")
      (codes "Console presentation only; not a device action.") ([])

abbrev pub connect_spec : CommandSpec
connect_spec =
    local_command (codes "connect") (portal) (codes "Initiate a session.")
      (codes "Use: xdr device live-response connect DEVICE") ([])

abbrev pub jobs_spec : CommandSpec
jobs_spec =
    local_command (codes "jobs") (docs) (codes "Show running jobs.")
      (codes "Use: xdr device live-response history SESSION") ([])

abbrev pub fg_spec : CommandSpec
fg_spec =
    local_command (codes "fg") (portal) (codes "Bring a job to the foreground.")
      (codes "Use: xdr device live-response status SESSION COMMAND_ID --wait SECONDS")
      ((param (codes "command_id") true (some (codes "CommandId")) (none) false) ∷ [])

abbrev pub status_spec : CommandSpec
status_spec =
    local_command (codes "status") (portal) (codes "Show a command's status and output.")
      (codes "Use: xdr device live-response status SESSION COMMAND_ID")
      ((param (codes "command_id") true (some (codes "CommandId")) (none) false) ∷ [])

abbrev pub library_spec : CommandSpec
library_spec =
    local_command (codes "library") (docs) (codes "List or delete library files.")
      (codes "Use: xdr device live-response library list|delete NAME") ([])
