-- ===== src/Session/Creates.antt =====
-- The files that the exit uploads for the first time, of
-- src/gamehub_cli/shortcuts/save_session.py: those of exact bindings and of learned trees.
use gamehub.Prelude.{String, Bool, true, ◌==◌, none, some, List, [], ◌∷◌, ◌<>◌, if◌then◌else◌}
use gamehub.Prelude.Dict
use gamehub.Prelude.Dict.{Dict}
use gamehub.Models.{SaveSpec, SaveBindingSpec}
use gamehub.Paths.{FilePath}
use gamehub.Saves.{SyncState}
use gamehub.Machine.{Machine, save_id_at}
use gamehub.Exchange.{
  absent, invalid, current, UploadReply, accepted, rejected, failed, World, record_uploaded_save,
  reconcile_upload_conflict,
}
use gamehub.Session.{ShortcutExactBindingSnapshot, Launcher, record_shortcut_save_sync}

module _ (world : World) where
  -- What the loops of the exit carry, and whether an exception has left them.
  pub record Session : Type 0 where
    pub state : SyncState
    pub changed : Bool
    pub env : world.W

  -- A run that is left returns nothing to its caller: its session is what the objects then hold.
  pub data Progress : Type 0 where
    going left : Session → Progress

  abbrev pub session_of : Progress → Session
  session_of (going s) = s
  session_of (left s) = s

  -- What follows, unless an exception has left.
  abbrev pub and_then : (Session → Progress) → Progress → Progress
  and_then next (left s) = left s
  and_then next (going s) = next s

  -- `for item in items: body(item)`
  unfoldable pub run_all {ℓ} : {A : Type ℓ} → (A → Session → Progress) → List A → Session → Progress
  run_all body [] s = going s
  run_all body (item ∷ items) s = and_then (run_all body items) (body item s)

  abbrev pub advance : SyncState → Session → Session
  advance state s = record s { state = state; changed = true }

  abbrev pub note_conflict : String → String → Session → Session
  note_conflict save_id reason s =
      advance
        (record s.state {
          unresolved_save_conflicts = Dict.insert save_id reason s.state.unresolved_save_conflicts;
        })
        s

  abbrev create_failed : String → Session → Session
  create_failed save_id s = note_conflict save_id "create-race-or-upload-failed" s

  -- The `try` with its handlers, on the reply.
  unfoldable pub after_create : String → FilePath → UploadReply → Session → Progress
  after_create save_id path (accepted save) s =
      elim (record_uploaded_save world save_id path save s.state s.env) [
        | none ↦ going (create_failed save_id s)
        | some state ↦ going (advance state s)
      ]
  after_create save_id path (rejected reason absent) s = going (create_failed save_id s)
  after_create save_id path (rejected reason invalid) s = left s
  after_create save_id path (rejected reason (current save)) s =
      elim (reconcile_upload_conflict world save_id path save s.state s.env) [
        | none ↦ going (create_failed save_id s)
        | some state ↦ going (advance state s)
      ]
  after_create save_id path (failed message) s = going (create_failed save_id s)

  -- `_upload_new_save_from_path` in its `try`: no checksum is expected of the server.
  unfoldable pub create_save : SaveBindingSpec → String → String → FilePath → Session → Progress
  unfolding after_create
  create_save binding save_id suffix path s =
      let (reply, env) =
        world.upload ("/v1/saves/" <> save_id) path binding.binding_id suffix none s.env in
      after_create save_id path reply (record s { env = env })

module _ (m : Machine) (launcher : Launcher) (current_saves : Dict SaveSpec) where
  open launcher use {world, exact_destination, binding_root, tree_files}

  -- One candidate of an exact binding, at its path, with its checksum.
  unfoldable pub exact_found :
      SaveBindingSpec → String → FilePath → String → Session world → Progress world
  unfolding create_save record_shortcut_save_sync
  exact_found binding filename path sha s =
      let save_id = save_id_at m (binding.server_rel_dir <> "/" <> filename) in
      elim (Dict.lookup save_id current_saves) [
        | none ↦ create_save world binding save_id filename path s
        | some save ↦
            if sha == save.sha256
            then going
                (advance world (record_shortcut_save_sync world m save path sha s.state s.env) s)
            else going (note_conflict world save_id "create-race-content-mismatch" s)
      ]

  unfoldable pub exact_file :
      ShortcutExactBindingSnapshot → FilePath → String → Session world → Progress world
  unfolding exact_found
  exact_file snapshot root filename s =
      elim (Dict.lookup filename snapshot.local_sha256_by_suffix) [
        | none ↦ going s
        | some before_sha ↦
            let path =
              exact_destination s.env snapshot.binding.system snapshot.binding.kind root filename in
            elim (world.local_sha s.env path) [
              | none ↦ going s
              | some sha ↦ exact_found snapshot.binding filename path sha s
            ]
      ]

  unfoldable pub exact_binding :
      String × ShortcutExactBindingSnapshot → Session world → Progress world
  unfolding run_all exact_file
  exact_binding (binding_id, snapshot) s = elim (binding_root s.env snapshot.binding) [
    | none ↦ going s
    | some root ↦ run_all world (exact_file snapshot root) snapshot.binding.candidate_filenames s
  ]

  unfoldable pub run_exact_binding_sync :
      Dict ShortcutExactBindingSnapshot → Session world → Progress world
  unfolding exact_binding run_all
  run_exact_binding_sync snapshots s = run_all world exact_binding snapshots s
