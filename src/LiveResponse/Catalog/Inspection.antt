-- ===== src/LiveResponse/Catalog/Inspection.antt =====
-- The commands that inspect the device of the pinned catalog, _SPECS of src/xdr_cli/live_response/catalog.py.
use m365_xdr_cli.Base.{true, false, none, some, [], ◌∷◌, codes}
use m365_xdr_cli.LiveResponse.Models.{CommandSpec, all_platforms}
use m365_xdr_cli.LiveResponse.Catalog.Sources.{
  windows_only, output_param, param, flag, read_command,
}

abbrev pub cd_spec : CommandSpec
cd_spec =
    read_command (codes "cd") all_platforms (codes "Change the session's current directory.")
      ((param (codes "id") true (none) (none) true) ∷ []) ([]) ([])

abbrev pub connections_spec : CommandSpec
connections_spec =
    read_command (codes "connections") windows_only (codes "Show active connections.")
      (output_param ∷ [])
      (codes "tcpview" ∷ codes "get-connection" ∷ codes "get-connections" ∷ codes "connection" ∷ [])
      ([])

abbrev pub dir_spec : CommandSpec
dir_spec =
    read_command (codes "dir") all_platforms (codes "List files and subdirectories.")
      ((param (codes "path") false (none) (none) true) ∷ output_param ∷ []) (codes "ls" ∷ [])
      ((flag (codes "full_path") (codes "f") (codes "full_path"))
        ∷ (flag (codes "path_only") (codes "p") (codes "path_only"))
        ∷ [])

abbrev pub drivers_spec : CommandSpec
drivers_spec =
    read_command (codes "drivers") windows_only (codes "Show installed drivers.")
      ((param (codes "name") false (none) (none) false) ∷ output_param ∷ [])
      (codes "driver" ∷ codes "get-drivers" ∷ codes "get-driver" ∷ []) ([])

abbrev pub fileinfo_spec : CommandSpec
fileinfo_spec =
    read_command (codes "fileinfo") all_platforms (codes "Get information about a file.")
      ((param (codes "path") false (none) (none) true) ∷ []) (codes "file" ∷ []) ([])

abbrev pub findfile_spec : CommandSpec
findfile_spec =
    read_command (codes "findfile") all_platforms (codes "Locate files by name.")
      ((param (codes "name") true (some (codes "FileName")) (none) false) ∷ [])
      (codes "ff" ∷ codes "find-files" ∷ codes "find-file" ∷ codes "findfiles" ∷ []) ([])

abbrev pub persistence_spec : CommandSpec
persistence_spec =
    read_command (codes "persistence") windows_only (codes "Show known persistence methods.") ([])
      (codes "autoruns" ∷ codes "persistencemethod" ∷ codes "persistencemethods" ∷ []) ([])

abbrev pub processes_spec : CommandSpec
processes_spec =
    read_command (codes "processes") all_platforms (codes "Show running processes.")
      ((param (codes "pid") false (none) (none) false)
        ∷ (param (codes "name") false (none) (none) false)
        ∷ output_param
        ∷ [])
      (codes "process" ∷ codes "get-process" ∷ codes "get-processes" ∷ codes "tasklist" ∷ []) ([])

abbrev pub registry_spec : CommandSpec
registry_spec =
    read_command (codes "registry") windows_only (codes "Show registry keys and values.")
      ((param (codes "id") true (none) (none) false) ∷ output_param ∷ [])
      (codes "reg" ∷ codes "get-registry" ∷ []) ([])

abbrev pub scheduledtasks_spec : CommandSpec
scheduledtasks_spec =
    read_command (codes "scheduledtasks") windows_only (codes "Show scheduled tasks.")
      ((param (codes "id") false (some (codes "ScheduledTasksPath")) (none) false)
        ∷ output_param
        ∷ [])
      (codes "schtasks"
        ∷ codes "taskschd"
        ∷ codes "get-scheduledtask"
        ∷ codes "get-scheduledtasks"
        ∷ codes "scheduledtask"
        ∷ [])
      ([])

abbrev pub services_spec : CommandSpec
services_spec =
    read_command (codes "services") windows_only (codes "Show services.")
      ((param (codes "name") false (none) (none) false) ∷ output_param ∷ [])
      (codes "get-services" ∷ codes "get-service" ∷ codes "service" ∷ []) ([])

abbrev pub startupfolders_spec : CommandSpec
startupfolders_spec =
    read_command (codes "startupfolders") windows_only (codes "Show files in startup folders.")
      ((param (codes "path") false (some (codes "FilePathInStartupFolder")) (none) false)
        ∷ (param (codes "name") false (some (codes "FileNameInStartupFolder")) (none) false)
        ∷ output_param
        ∷ [])
      (codes "startupfolder" ∷ codes "startup-folder" ∷ codes "startup-folders" ∷ []) ([])
