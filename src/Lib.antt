-- ===== src/Lib.antt =====
-- gamehub keeps a game library, and the save files of its games, in step between a server and the
-- machines of its users. This library models the server's upload of saves and its cached index,
-- and the client's planning and carrying out of a sync.
--
-- How the parts interact. The server scans its data directory into an index
-- (`Server/Repository`; the saves by `Server/Scan`), says where the saves of each title live
-- (`Server/Bindings`), and takes uploads of saves, one at a time for each save (`Server/Lock`),
-- each checked against a fresh index (`Server/Suffix`, `Server/Upload`). The client fetches the
-- index (`Retry`), compares it with its disk and its state file (`Planner`, which classifies
-- each save by `Saves`), downloads ROMs, assets and firmware (`Transfers`, each file by
-- `Downloads`), carries the save actions out (`SaveStage`, which talks to the server by
-- `Exchange` and records every sync by `Saves`), and drops persisted conflicts that the plan
-- has settled (`Conflicts`). A shortcut of a game does the same for the saves of one title
-- around a launch (`Session`), by the same classification and exchange, and learns where an
-- emulator keeps its trees of saves (`Learned`).
--
-- Which file models which code; the children of a file hold its theorems.
--   Prelude     names of the libraries, Boolean tests, Python dicts, texts, stable sorts, integers
--   Models      src/gamehub_common/models.py: the records of the index
--   Ids         src/gamehub_common/ids.py: ids of saves and bindings
--   Paths       src/gamehub_cli/common/paths.py: relative paths to paths of this machine
--   Machine     the files, clock formats and SHA-256 of the client, an interface
--   Saves       src/gamehub_cli/common/save_sync.py and `SyncState` of
--               src/gamehub_cli/sync/state.py: classify_save_action, record_converged_save_state
--   Planner     src/gamehub_cli/sync/planner.py and discover_local_exact_save_candidates of
--               src/gamehub_cli/emulators/save_resolution.py: Types has the records, Files the loops
--               over systems and titles, Decide one save, SavePlan the loops over saves, Create the
--               whole of create_sync_plan
--   Exchange    the network, disk and clock of one upload or download, and record_uploaded_save and
--               reconcile_upload_conflict of src/gamehub_cli/sync/save_stage.py
--   SaveStage   src/gamehub_cli/sync/save_stage.py: apply_save_stage and its helpers
--   Encoding    src/gamehub_cli/sync/transfer.py: _encode_multipart_body
--   Learned     the learned trees of src/gamehub_cli/emulators/save_resolution.py
--   Session     src/gamehub_cli/shortcuts/save_session.py: Snapshots, Launch and Prelaunch have
--               run_shortcut_prelaunch_save_sync, Creates, Trees and Postexit
--               run_shortcut_postexit_save_sync
--   Conflicts   src/gamehub_cli/sync/save_conflicts.py
--   Transfers   src/gamehub_cli/sync/transfer_stage.py: apply_downloads, _apply_download_group
--   Downloads   src/gamehub_cli/sync/downloads.py and replace_file of
--               src/gamehub_cli/common/fsops.py
--   Backups     src/gamehub_cli/common/fsops.py: the making and the pruning of backups
--   Retry       src/gamehub_cli/sync/index.py: _fetch_json_with_retries
--   Server      src/gamehub_server/save_api.py (Suffix: the rules on suffixes; Lock:
--               _save_upload_lock; Multipart: _stream_part_payload; Backups:
--               _backup_existing_save; Upload: put_save and _write_save_upload),
--               src/gamehub_server/save_index.py (Bindings: build_save_bindings; Scan:
--               scan_save_specs),
--               src/gamehub_server/index_repository.py (Repository)
--   Examples    runs on a small library, and the theorems applied to it
--
-- How state is modelled. An operation that changes an object takes it and returns it; a Python
-- dict is an association list; an exception is a constructor of the result. What the network, the
-- disk, the clock and the other threads do is a field of an interface record: `Machine`,
-- `SaveLocator`, `World`, `Launcher`, `Pool`, `Server`, `Observed`, `Client` and `Faults`. Loops are
-- structural recursion on the list they run over, or on the number of attempts left. Two loops
-- need fuel: that of `Server/Multipart` gets as much as bytes and chunks are left, and the search
-- for a free name in `Backups/Create` one more than there are entries, which is enough. A tree on
-- the disk is a data type (`Server/Scan`); what runs concurrently is a step relation
-- (`Server/Lock`). Sizes, counts and bytes are natural numbers, and times and delays are whole
-- numbers of some unit, whose differences are written as sums.
--
-- Not modelled. Exceptions of the calls that an interface answers: `Machine`, `SaveLocator` and the
-- reads of `World` and `Launcher` always return, so nothing is said of a plan or a session that a
-- file which cannot be read, or a folder which cannot be found out, brings to an end. The headers and
-- fields around a part of an upload, the scan of the titles on the disk, the HTTP clients,
-- configuration, the set-up of emulators before a launch, Steam, controllers, installation and
-- deployment, and everything that is printed or logged.
pub mod Prelude
pub mod Models
pub mod Saves
pub mod Paths
pub mod Ids
pub mod Machine
pub mod Learned
pub mod Session
pub mod Planner
pub mod Exchange
pub mod Encoding
pub mod SaveStage
pub mod Conflicts
pub mod Backups
pub mod Transfers
pub mod Server
pub mod Retry
pub mod Downloads
pub mod Examples
