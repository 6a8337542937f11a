-- ===== src/Session/Postexit.antt =====
-- `run_shortcut_postexit_save_sync` of src/gamehub_cli/shortcuts/save_session.py: what the exit of a
-- game uploads.
use gamehub.Prelude.{
  Option, ℕ, String, Bool, false, not, ◌&&◌, ◌||◌, ◌==◌, none, some, List, [], ◌∷◌, ◌<>◌, is_empty,
  if◌then◌else◌,
}
use gamehub.Prelude.Dict
use gamehub.Prelude.Dict.{Dict}
use gamehub.Models.{SaveSpec, LibraryIndex}
use gamehub.Paths.{FilePath}
use gamehub.Saves.{SyncState}
use gamehub.Machine.{Machine, binding_id_at}
use gamehub.Exchange.{
  absent, invalid, current, UploadReply, accepted, rejected, failed, record_uploaded_save,
  reconcile_upload_conflict,
}
use gamehub.Planner.Types.{GamehubConfig}
use gamehub.Planner.SavePlan.{canonical_suffix_from_rel_path}
use gamehub.Session.{
  Payload, ShortcutSaveSnapshot, ShortcutSaveContext, iter_title_saves, should_sync_shortcut_saves,
  should_attempt_postexit_upload, Launcher, record_missed_postexit_upload,
  mark_missed_postexit_uploads_from_snapshots,
}
use gamehub.Session.Launch.{is_bidirectional}
use gamehub.Session.Creates.{
  Session, Progress, going, left, run_all, and_then, advance, note_conflict, run_exact_binding_sync,
}
use gamehub.Session.Trees.{run_tree_sync}

module _ (m : Machine) (launcher : Launcher) where
  open launcher use {world, reachable}

  -- The handler of other exceptions: an upload that failed because the server is gone was missed.
  unfoldable pub upload_failed : String → FilePath → String → Session world → Session world
  unfolding record_missed_postexit_upload
  upload_failed save_id path sha s =
      let (there, env) = reachable s.env in
      let missed = record_missed_postexit_upload world save_id path sha s.state env in
      if there
      then record s { env = env }
      else record { state = missed.0; changed = missed.1 || s.changed; env = env }

  -- The `try` with its handlers, on the reply.
  unfoldable pub after_update :
      String → FilePath → String → UploadReply → Session world → Progress world
  unfolding upload_failed
  after_update save_id path sha (accepted save) s =
      elim (record_uploaded_save world save_id path save s.state s.env) [
        | none ↦ going (upload_failed save_id path sha s)
        | some state ↦ going (advance world state s)
      ]
  after_update save_id path sha (rejected reason absent) s =
      going (note_conflict world save_id reason s)
  after_update save_id path sha (rejected reason invalid) s = left s
  after_update save_id path sha (rejected reason (current save)) s =
      elim (reconcile_upload_conflict world save_id path save s.state s.env) [
        | none ↦ going (note_conflict world save_id reason s)
        | some state ↦ going (advance world state s)
      ]
  after_update save_id path sha (failed message) s = going (upload_failed save_id path sha s)

  -- `_upload_save_from_path` in its `try`: the server shall still have the checksum of the index.
  unfoldable pub update_save :
      String → SaveSpec → FilePath → String → Session world → Progress world
  unfolding after_update
  update_save save_id save path sha s = elim (canonical_suffix_from_rel_path save.rel_path) [
    | none ↦ going (upload_failed save_id path sha s)
    | some suffix ↦
        let (reply, env) =
          world.upload ("/v1/saves/" <> save.save_id) path (binding_id_at m save.title_id save.kind)
            suffix (some save.sha256) s.env in
        after_update save_id path sha reply (record s { env = env })
  ]

  -- A local save that has changed, against the index of the exit.
  unfoldable pub offer_save :
      Dict SaveSpec
      → String
      → ShortcutSaveSnapshot
      → FilePath
      → String
      → Session world
      → Progress world
  unfolding update_save
  offer_save current_saves save_id snapshot path sha s = elim (Dict.lookup save_id current_saves) [
    | none ↦ going (note_conflict world save_id "remote-changed-during-session" s)
    | some save ↦
        if save.sha256 == snapshot.remote_sha256
        then update_save save_id save path sha s
        else going (note_conflict world save_id "remote-changed-during-session" s)
  ]

  -- The body of the loop over the snapshots, on the destination.
  unfoldable pub postexit_at :
      Dict SaveSpec
      → String
      → ShortcutSaveSnapshot
      → Option FilePath
      → Session world
      → Progress world
  unfolding offer_save should_attempt_postexit_upload
  postexit_at current_saves save_id snapshot none s = going s
  postexit_at current_saves save_id snapshot (some path) s = elim (world.local_sha s.env path) [
    | none ↦ going s
    | some sha ↦
        if snapshot.allow_postexit_upload && should_attempt_postexit_upload snapshot (some sha)
        then offer_save current_saves save_id snapshot path sha s
        else going s
  ]

  unfoldable pub postexit_save :
      Dict SaveSpec → String × ShortcutSaveSnapshot → Session world → Progress world
  unfolding postexit_at
  postexit_save current_saves (save_id, snapshot) s =
      postexit_at current_saves save_id snapshot snapshot.destination s

  -- `{save.save_id: save for save in title_saves}`
  unfoldable pub saves_by_id : List SaveSpec → Dict SaveSpec → Dict SaveSpec
  saves_by_id [] d = d
  saves_by_id (save ∷ saves) d = saves_by_id saves (Dict.insert save.save_id save d)

  module _ (is_hex_char : ℕ → Bool) where
    -- The three loops, one after the other.
    unfoldable pub postexit_loops :
        Dict SaveSpec → ShortcutSaveContext → Session world → Progress world
    unfolding run_all postexit_save run_exact_binding_sync run_tree_sync
    postexit_loops current_saves context s =
        let updated = run_all world (postexit_save current_saves) context.save_snapshots s in
        let created =
          and_then world
            (run_exact_binding_sync m launcher current_saves context.exact_binding_snapshots)
            updated in
        and_then world (run_tree_sync m launcher current_saves is_hex_char context.tree_snapshots)
          created

    unfoldable pub no_snapshots : ShortcutSaveContext → Bool
    no_snapshots context =
        is_empty context.save_snapshots
        && is_empty context.exact_binding_snapshots
        && is_empty context.tree_snapshots

    abbrev pub opening : SyncState → world.W → Session world
    opening state env = record { state = state; changed = false; env = env }

    abbrev pub missed_all : ShortcutSaveContext → SyncState → world.W → Session world
    missed_all context state env =
        let missed =
          mark_missed_postexit_uploads_from_snapshots world context.save_snapshots (state, false)
            env in
        record { state = missed.0; changed = missed.1; env = env }

    -- The part after the server has answered: the title, and the index with the world after it.
    unfoldable pub postexit_online :
        ShortcutSaveContext
        → SyncState
        → world.W
        → Option String
        → Option LibraryIndex × world.W
        → Progress world
    unfolding iter_title_saves postexit_loops saves_by_id
    postexit_online context state env1 none (index, env2) = going (opening state env1)
    postexit_online context state env1 (some title_id) (none, env2) =
        going (missed_all context state env2)
    postexit_online context state env1 (some title_id) (some library, env2) =
        postexit_loops (saves_by_id (iter_title_saves library title_id) []) context
          (opening state env2)

    unfoldable pub run_shortcut_postexit_save_sync :
        GamehubConfig → Payload → ShortcutSaveContext → SyncState → world.W → Progress world
    unfolding should_sync_shortcut_saves mark_missed_postexit_uploads_from_snapshots postexit_online
        no_snapshots
    run_shortcut_postexit_save_sync config payload context state env =
        let (there, env1) = reachable env in
        if not (is_bidirectional config.save_sync.mode) || no_snapshots context
        then going (opening state env)
        else if not (should_sync_shortcut_saves m payload config)
        then going (opening state env)
        else if not there
        then going (missed_all context state env1)
        else postexit_online context state env1 payload.title_id (launcher.load_index env1)
