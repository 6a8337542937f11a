-- ===== src/Session/Launch.antt =====
-- One save before a launch, of src/gamehub_cli/shortcuts/save_session.py: the body of the loop in
-- `run_shortcut_prelaunch_save_sync`, and the loop.
use gamehub.Prelude.{
  String, Bool, true, false, not, ◌&&◌, Option, none, some, List, [], ◌∷◌, ◌<>◌, is_none, is_some,
  option_eq, if◌then◌else◌,
}
use gamehub.Prelude.Dict
use gamehub.Prelude.Dict.{Dict}
use gamehub.Models.{SaveSpec, SaveBindingSpec}
use gamehub.Paths.{FilePath}
use gamehub.Saves.{
  Decision, skip, download, upload_existing, upload_new, conflict, other, Outcome, Mode,
  download_mode, bidirectional, SyncState, lineage_of,
}
use gamehub.Machine.{Machine, binding_id_at}
use gamehub.Planner.Types.{GamehubConfig}
use gamehub.Planner.Decide.{
  time_of, datetime, missed_postexit_upload_reason, resolve_missed_upload_timestamp_decision,
  resolve_save_action,
}
use gamehub.Session.{ShortcutSaveSnapshot, Launcher, record_shortcut_save_sync}

abbrev pub is_bidirectional : Mode → Bool
is_bidirectional download_mode = false
is_bidirectional bidirectional = true

abbrev is_upload_existing : Decision → Bool
is_upload_existing upload_existing = true
is_upload_existing skip = false
is_upload_existing download = false
is_upload_existing upload_new = false
is_upload_existing conflict = false
is_upload_existing (other d) = false

module _ (m : Machine) (launcher : Launcher) (config : GamehubConfig) where
  open launcher use {world}

  -- The loop over the saves of the title carries this.
  pub record Launch : Type 0 where
    pub state : SyncState
    pub snapshots : Dict ShortcutSaveSnapshot
    pub changed : Bool
    pub needs_offline_title : Bool
    pub env : world.W

  abbrev pub keep : String → ShortcutSaveSnapshot → Launch → Launch
  keep save_id snapshot s = record s { snapshots = Dict.insert save_id snapshot s.snapshots }

  abbrev pub note : String → String → SyncState → SyncState
  note save_id reason state = record state {
    unresolved_save_conflicts = Dict.insert save_id reason state.unresolved_save_conflicts;
  }

  -- A save that was played offline before it was ever synced counts as a missed upload, if the
  -- times tell the newer copy.
  unfoldable pub recover_offline : Bool → SaveSpec → FilePath → Option String → Launch → Launch
  recover_offline pending save path local_sha s =
      let lineage = lineage_of s.state save.save_id in
      if pending
        && is_none (Dict.lookup save.save_id s.state.unresolved_save_conflicts)
        && is_some local_sha
        && not (option_eq local_sha (some save.sha256))
        && is_none lineage.local_sha256
        && is_none lineage.remote_sha256
      then elim (resolve_missed_upload_timestamp_decision m config.save_sync.mode
          (some missed_postexit_upload_reason) (time_of (world.updated_at s.env path))
          (datetime save.updated_at)) [
            | none ↦ record s { needs_offline_title = true }
            | some outcome ↦ record s {
              state = note save.save_id missed_postexit_upload_reason s.state;
              changed = true;
            }
          ]
      else s

  -- The call of `resolve_save_action`; the reason is the one that the loop has just set, if any.
  unfoldable pub prelaunch_outcome : SaveSpec → FilePath → Option String → Launch → Outcome
  unfolding resolve_save_action
  prelaunch_outcome save path local_sha s =
      let lineage = lineage_of s.state save.save_id in
      resolve_save_action m save.sha256 local_sha config.save_sync.mode
        config.save_sync.conflict_policy lineage.local_sha256 lineage.remote_sha256
        (Dict.lookup save.save_id s.state.unresolved_save_conflicts)
        (time_of (world.updated_at s.env path)) (datetime save.updated_at)

  -- The snapshot of a save with a path.
  abbrev pub snapshot_of :
      SaveSpec → FilePath → Option String → Bool → Decision → ShortcutSaveSnapshot
  snapshot_of save path local_sha allow decision = record {
    destination = some path;
    local_sha256 = local_sha;
    remote_sha256 = save.sha256;
    allow_postexit_upload = allow;
    pending_postexit_upload = is_upload_existing decision;
  }

  -- After `stream_to_destination_atomic`, which raised the given text or nothing.
  unfoldable pub after_stream :
      SaveSpec → FilePath → Option String → Option String → Launch → Launch
  unfolding record_shortcut_save_sync
  after_stream save path local_sha (some message) s =
      keep save.save_id (snapshot_of save path local_sha true download) s
  after_stream save path local_sha none s = elim (world.local_sha s.env path) [
    | none ↦ keep save.save_id (snapshot_of save path none true download) s
    | some sha ↦ keep save.save_id (snapshot_of save path (some sha) true download) (record s {
      state = record_shortcut_save_sync world m save path sha s.state s.env;
      changed = true;
    })
  ]

  unfoldable pub carry_out : SaveSpec → FilePath → Option String → Outcome → Launch → Launch
  unfolding after_stream
  carry_out save path local_sha (conflict, reason) s =
      keep save.save_id (snapshot_of save path local_sha false conflict)
        (record s { state = note save.save_id reason s.state; changed = true })
  carry_out save path local_sha (download, reason) s =
      let (failure, env) = world.fetch ("/v1/saves/" <> save.save_id) path save.sha256 s.env in
      after_stream save path local_sha failure (record s { env = env })
  carry_out save path local_sha (skip, reason) s =
      keep save.save_id (snapshot_of save path local_sha true skip) s
  carry_out save path local_sha (upload_existing, reason) s =
      keep save.save_id (snapshot_of save path local_sha true upload_existing) s
  carry_out save path local_sha (upload_new, reason) s =
      keep save.save_id (snapshot_of save path local_sha true upload_new) s
  carry_out save path local_sha (other d, reason) s =
      keep save.save_id (snapshot_of save path local_sha true (other d)) s

  abbrev pub no_path : SaveSpec → ShortcutSaveSnapshot
  no_path save = record {
    destination = none;
    local_sha256 = none;
    remote_sha256 = save.sha256;
    allow_postexit_upload = false;
    pending_postexit_upload = false;
  }

  -- The body of the loop, on the destination.
  unfoldable pub prelaunch_at : Bool → SaveSpec → Option FilePath → Launch → Launch
  unfolding recover_offline prelaunch_outcome carry_out
  prelaunch_at pending save none s = keep save.save_id (no_path save) s
  prelaunch_at pending save (some path) s =
      let local_sha = world.local_sha s.env path in
      let recovered = recover_offline pending save path local_sha s in
      carry_out save path local_sha (prelaunch_outcome save path local_sha recovered) recovered

  unfoldable pub prelaunch_save : Bool → Dict SaveBindingSpec → SaveSpec → Launch → Launch
  unfolding prelaunch_at
  prelaunch_save pending bindings save s =
      prelaunch_at pending save
        (launcher.save_destination s.env save s.state.save_binding_roots
          (Dict.lookup (binding_id_at m save.title_id save.kind) bindings))
        s

  unfoldable pub prelaunch_saves : Bool → Dict SaveBindingSpec → List SaveSpec → Launch → Launch
  unfolding prelaunch_save
  prelaunch_saves pending bindings [] s = s
  prelaunch_saves pending bindings (save ∷ saves) s =
      prelaunch_saves pending bindings saves (prelaunch_save pending bindings save s)
