-- ===== src/Session.antt =====
-- src/gamehub_cli/shortcuts/save_session.py: the saves of one title around a launch of its shortcut.
-- Here are the snapshots that the launch leaves for the exit, the tables of offline titles and
-- missed uploads, and the interface of what the session calls. Its reads of local files return:
-- the exceptions of the file system that would end a run are left out.
pub mod Snapshots
pub mod Launch
pub mod Prelaunch
pub mod Creates
pub mod Trees
pub mod Postexit
pub mod Honest
pub mod Guarded
pub mod Missed
use gamehub.Prelude.{
  String, Bool, true, false, not, ◌&&◌, ◌||◌, ◌==◌, Option, none, some, List, [], ◌∷◌, ◌<>◌, any,
  is_empty, is_none, is_some, map, option_eq, select, truthy, if◌then◌else◌,
}
use gamehub.Prelude.Dict
use gamehub.Prelude.Dict.{Dict}
use gamehub.Prelude.Sort.{sort_by}
use gamehub.Models.{SaveKind, SaveSpec, SaveBindingSpec, LibraryIndex}
use gamehub.Paths.{FilePath}
use gamehub.Saves.{SyncState, SaveBindingRootRecord, lineage_of}
use gamehub.Machine.{Machine}
use gamehub.Exchange.{World, settle}
use gamehub.Planner.Types.{GamehubConfig}
use gamehub.Planner.SavePlan.{contains}
use gamehub.Planner.Decide.{missed_postexit_upload_reason}

-- What a session reads of `ShortcutLaunchPayload`.
pub record Payload : Type 0 where
  pub title_id : Option String
  pub system : Option String

pub record ShortcutSaveSnapshot : Type 0 where
  pub destination : Option FilePath
  pub local_sha256 : Option String
  pub remote_sha256 : String
  pub allow_postexit_upload : Bool
  pub pending_postexit_upload : Bool

pub record ShortcutTreeSnapshot : Type 0 where
  pub binding : SaveBindingSpec
  pub before : Dict String
  pub canonical_roots : List String

pub record ShortcutExactBindingSnapshot : Type 0 where
  pub binding : SaveBindingSpec
  pub local_sha256_by_suffix : Dict (Option String)

pub record ShortcutSaveContext : Type 0 where
  pub save_snapshots : Dict ShortcutSaveSnapshot
  pub exact_binding_snapshots : Dict ShortcutExactBindingSnapshot
  pub tree_snapshots : Dict ShortcutTreeSnapshot

abbrev pub no_context : ShortcutSaveContext
no_context = record { save_snapshots = []; exact_binding_snapshots = []; tree_snapshots = [] }

-- `now` is `timestamp_now_utc()`; the second component is the result.
unfoldable pub mark_offline_shortcut_title : Option String → String → SyncState → SyncState × Bool
mark_offline_shortcut_title none now state = (state, false)
mark_offline_shortcut_title (some title_id) now state =
    if truthy title_id
    then (
      record state {
        offline_shortcut_titles = Dict.insert title_id now state.offline_shortcut_titles;
      },
      not (option_eq (Dict.lookup title_id state.offline_shortcut_titles) (some now)),
    )
    else (state, false)

unfoldable pub clear_offline_shortcut_title : Option String → SyncState → SyncState × Bool
clear_offline_shortcut_title none state = (state, false)
clear_offline_shortcut_title (some title_id) state =
    if truthy title_id
    then (
      record state { offline_shortcut_titles = Dict.erase title_id state.offline_shortcut_titles },
      is_some (Dict.lookup title_id state.offline_shortcut_titles),
    )
    else (state, false)

unfoldable pub iter_title_saves : LibraryIndex → String → List SaveSpec
unfolding sort_by
iter_title_saves index title_id =
    sort_by (λ (save : SaveSpec). save.system ∷ save.rel_path ∷ save.save_id ∷ [])
      (select (λ (save : SaveSpec). save.title_id == title_id) index.saves)

unfoldable pub should_attempt_postexit_upload : ShortcutSaveSnapshot → Option String → Bool
should_attempt_postexit_upload snapshot none = false
should_attempt_postexit_upload snapshot (some local_sha) =
    snapshot.pending_postexit_upload || not (option_eq (some local_sha) snapshot.local_sha256)

changed_path : Dict String → String × String → Bool
changed_path before (rel_path, sha) = not (option_eq (Dict.lookup rel_path before) (some sha))

unfoldable pub changed_tree_paths : Dict String → Dict String → List String
unfolding changed_path sort_by
changed_tree_paths before after =
    sort_by (λ (path : String). path ∷ [])
      (map (λ (e : String × String). e.0) (select (changed_path before) after))

unfoldable pub should_sync_shortcut_saves : Machine → Payload → GamehubConfig → Bool
should_sync_shortcut_saves m payload config =
    let filtered : Bool = elim payload.system [
      | none ↦ false
      | some system ↦
          not (is_empty config.save_sync.systems)
          && truthy system
          && not (contains config.save_sync.systems (m.upper system))
    ] in
    let titled : Bool = elim payload.title_id [ none ↦ false | some title_id ↦ truthy title_id ] in
    config.save_sync.enabled && titled && not filtered

-- What a session calls: `world`, and the server and the emulators' folders.
pub record Launcher : Type 1 where
  pub world : World
  -- `ensure_managed_macos_n64_retroarch_runtime`: whether it raises
  pub ensure_runtime : world.W → Bool × world.W
  -- `_shortcut_server_reachable_or_warn`
  pub reachable : world.W → Bool × world.W
  -- `_load_shortcut_index_or_warn`, `_load_shortcut_save_bindings_or_warn`
  pub load_index : world.W → Option LibraryIndex × world.W
  pub load_bindings : world.W → Option (List SaveBindingSpec) × world.W
  -- `resolve_local_save_destination`, `resolve_binding_local_root`,
  -- `resolve_exact_local_save_destination`
  pub save_destination :
      world.W → SaveSpec → Dict SaveBindingRootRecord → Option SaveBindingSpec → Option FilePath
  pub binding_root : world.W → SaveBindingSpec → Option FilePath
  pub exact_destination : world.W → String → SaveKind → FilePath → String → FilePath
  -- the files below the root of a binding, by their paths in order, with their checksums
  pub tree_files : world.W → SaveBindingSpec → Option (List (String × String))

module _ (world : World) where
  open world use {W, local_sha, updated_at}

  -- The second component is the result: whether anything is new.
  unfoldable pub record_missed_postexit_upload :
      String → FilePath → String → SyncState → W → SyncState × Bool
  record_missed_postexit_upload save_id path sha state env =
      let lineage = lineage_of state save_id in
      let updated = updated_at env path in
      (
        record state {
          save_lineage =
              Dict.insert save_id
                (record lineage {
                  local_sha256 = some sha;
                  local_updated_at = elim updated [
                    | none ↦ lineage.local_updated_at
                    | some t ↦ some t
                  ];
                })
                state.save_lineage;
          unresolved_save_conflicts =
              Dict.insert save_id missed_postexit_upload_reason state.unresolved_save_conflicts;
        },
        is_none (Dict.lookup save_id state.save_lineage)
            || not (option_eq lineage.local_sha256 (some sha))
            || (is_some updated && not (option_eq lineage.local_updated_at updated))
            || not (
                option_eq (Dict.lookup save_id state.unresolved_save_conflicts)
                  (some missed_postexit_upload_reason)),
      )

  -- The body of the loop, on the destination.
  unfoldable pub mark_missed :
      String → ShortcutSaveSnapshot → Option FilePath → SyncState × Bool → W → SyncState × Bool
  unfolding should_attempt_postexit_upload record_missed_postexit_upload
  mark_missed save_id snapshot none s env = s
  mark_missed save_id snapshot (some path) s env = elim (local_sha env path) [
    | none ↦ s
    | some sha ↦
        let recorded = record_missed_postexit_upload save_id path sha s.0 env in
        if snapshot.allow_postexit_upload && should_attempt_postexit_upload snapshot (some sha)
        then (recorded.0, recorded.1 || s.1)
        else s
  ]

  unfoldable pub mark_missed_postexit_uploads_from_snapshots :
      Dict ShortcutSaveSnapshot → SyncState × Bool → W → SyncState × Bool
  unfolding mark_missed
  mark_missed_postexit_uploads_from_snapshots [] s env = s
  mark_missed_postexit_uploads_from_snapshots ((save_id, snapshot) ∷ snapshots) s env =
      mark_missed_postexit_uploads_from_snapshots snapshots
        (mark_missed save_id snapshot snapshot.destination s env) env

  module _ (m : Machine) where
    unfoldable pub record_shortcut_save_sync :
        SaveSpec → FilePath → String → SyncState → W → SyncState
    unfolding settle
    record_shortcut_save_sync save path sha state env =
        settle world save.save_id path sha save.sha256 (m.utc_text save.updated_at) state env
