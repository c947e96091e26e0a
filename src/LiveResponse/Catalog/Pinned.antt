-- ===== src/LiveResponse/Catalog/Pinned.antt =====
-- The whole table _SPECS of src/xdr_cli/live_response/catalog.py, in its order.
use m365_xdr_cli.Base.{List, [], ◌∷◌}
use m365_xdr_cli.LiveResponse.Models.{CommandSpec}
use m365_xdr_cli.LiveResponse.Catalog.Local.{
  help_spec, cls_spec, trace_spec, connect_spec, jobs_spec, fg_spec, status_spec, library_spec,
}
use m365_xdr_cli.LiveResponse.Catalog.Inspection.{
  cd_spec, connections_spec, dir_spec, drivers_spec, fileinfo_spec, findfile_spec, persistence_spec,
  processes_spec, registry_spec, scheduledtasks_spec, services_spec, startupfolders_spec,
}
use m365_xdr_cli.LiveResponse.Catalog.Actions.{
  getfile_spec, analyze_spec, collect_spec, processdump_spec, putfile_spec, run_spec,
  remediate_spec, undo_spec, isolate_spec, release_spec, scan_spec,
}

abbrev pub specs : List CommandSpec
specs =
    help_spec ∷ cls_spec ∷ trace_spec ∷ connect_spec ∷ jobs_spec ∷ fg_spec ∷ status_spec
    ∷ library_spec ∷ cd_spec ∷ connections_spec ∷ dir_spec ∷ drivers_spec ∷ fileinfo_spec
    ∷ findfile_spec ∷ persistence_spec ∷ processes_spec ∷ registry_spec ∷ scheduledtasks_spec
    ∷ services_spec ∷ startupfolders_spec ∷ getfile_spec ∷ analyze_spec ∷ collect_spec
    ∷ processdump_spec ∷ putfile_spec ∷ run_spec ∷ remediate_spec ∷ undo_spec ∷ isolate_spec
    ∷ release_spec ∷ scan_spec ∷ []
