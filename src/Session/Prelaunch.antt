-- ===== src/Session/Prelaunch.antt =====
-- `run_shortcut_prelaunch_save_sync` of src/gamehub_cli/shortcuts/save_session.py: what a launch
-- downloads first, and the snapshots that it leaves for the exit.
use gamehub.Prelude.{
  ℕ, String, Bool, true, false, not, ◌&&◌, ◌||◌, ◌==◌, Option, none, some, List, [], any, is_some,
  map, select, if◌then◌else◌,
}
use gamehub.Prelude.Dict
use gamehub.Prelude.Dict.{Dict}
use gamehub.Models.{
  SaveKind, battery, memory_card, per_game, SaveSpec, SaveBindingSpec, LibraryIndex,
}
use gamehub.Saves.{SyncState}
use gamehub.Machine.{Machine}
use gamehub.Planner.Types.{GamehubConfig}
use gamehub.Planner.SavePlan.{bindings_by_id_from}
use gamehub.Session.{
  Payload, ShortcutSaveContext, no_context, mark_offline_shortcut_title,
  clear_offline_shortcut_title, iter_title_saves, should_sync_shortcut_saves, Launcher,
}
use gamehub.Session.Snapshots.{canonical_roots_by_binding, snapshot_bindings}
use gamehub.Session.Launch.{is_bidirectional, Launch, prelaunch_saves}

abbrev is_memory_card : SaveKind → Bool
is_memory_card battery = false
is_memory_card memory_card = true
is_memory_card per_game = false

module _ (m : Machine) (launcher : Launcher) (config : GamehubConfig) where
  open launcher use {world}

  -- A catalog for uploads, or for the memory cards of "PSX".
  unfoldable pub load_catalog : List SaveSpec → world.W → Option (List SaveBindingSpec) × world.W
  load_catalog title_saves env =
      let needs_psx =
        any (λ (save : SaveSpec). m.upper save.system == "PSX" && is_memory_card save.kind)
          title_saves in
      let first =
        if is_bidirectional config.save_sync.mode
        then launcher.load_bindings env
        else (none, env) in
      elim first.0 [
        | none ↦ if needs_psx then launcher.load_bindings first.1 else first
        | some bindings ↦ first
      ]

  abbrev pub of_title : String → Option (List SaveBindingSpec) → List SaveBindingSpec
  of_title title_id none = []
  of_title title_id (some bindings) =
      select (λ (binding : SaveBindingSpec). binding.title_id == title_id) bindings

  -- The end of the run: the context, whether the state has changed, the state and the world.
  abbrev pub Prepared : Type 0
  Prepared = Option (ShortcutSaveContext × Bool) × SyncState × world.W

  abbrev pub mark_offline_if_bidirectional : Payload → SyncState → world.W → SyncState × Bool
  mark_offline_if_bidirectional payload state env =
      if is_bidirectional config.save_sync.mode
      then mark_offline_shortcut_title payload.title_id (world.now env) state
      else (state, false)

  -- The start of the loop over the saves.
  abbrev pub opening : SyncState → world.W → Launch m launcher config
  opening state env = record {
    state = state;
    snapshots = [];
    changed = false;
    needs_offline_title = false;
    env = env;
  }

  abbrev pub is_pending : String → SyncState → Bool
  is_pending title_id state =
      is_bidirectional config.save_sync.mode
      && is_some (Dict.lookup title_id state.offline_shortcut_titles)

  unfoldable pub close_title :
      Payload → Bool → ShortcutSaveContext → Launch m launcher config → Prepared
  unfolding clear_offline_shortcut_title
  close_title payload pending context s =
      let cleared = clear_offline_shortcut_title payload.title_id s.state in
      if pending && not s.needs_offline_title
      then (some (context, cleared.1 || s.changed), cleared.0, s.env)
      else (some (context, s.changed), s.state, s.env)

  module _ (is_hex_char : ℕ → Bool) where
    unfoldable pub with_catalog :
        Payload
        → String
        → List SaveSpec
        → SyncState
        → Option (List SaveBindingSpec) × world.W
        → Prepared
    unfolding canonical_roots_by_binding snapshot_bindings prelaunch_saves close_title
    with_catalog payload title_id title_saves state (catalog, env) =
        let bindings = of_title title_id catalog in
        let bindings_by_id = bindings_by_id_from bindings [] in
        let remote_ids = map (λ (save : SaveSpec). save.save_id) title_saves in
        let pending = is_pending title_id state in
        elim (canonical_roots_by_binding m title_saves bindings_by_id) [
          | none ↦ (none, state, env)
          | some roots ↦
              let context =
                if is_bidirectional config.save_sync.mode
                then snapshot_bindings m launcher is_hex_char roots remote_ids env bindings
                    no_context
                else no_context in
              let done =
                prelaunch_saves m launcher config pending bindings_by_id title_saves
                  (opening state env) in
              close_title payload pending (record context { save_snapshots = done.snapshots }) done
        ]

    -- The part after the server has answered: the title, and the index.
    unfoldable pub prelaunch_online :
        Payload → SyncState → world.W → Option String → Option LibraryIndex → Prepared
    unfolding mark_offline_shortcut_title iter_title_saves load_catalog with_catalog
    prelaunch_online payload state env title none =
        let lost = mark_offline_if_bidirectional payload state env in
        (some (no_context, lost.1), lost.0, env)
    prelaunch_online payload state env none (some library) = (some (no_context, false), state, env)
    prelaunch_online payload state env (some title_id) (some library) =
        let title_saves = iter_title_saves library title_id in
        with_catalog payload title_id title_saves state (load_catalog title_saves env)

    -- `none` in the result is an exception: of the runtime set-up, or a save without a suffix.
    unfoldable pub run_shortcut_prelaunch_save_sync : Payload → SyncState → world.W → Prepared
    unfolding should_sync_shortcut_saves mark_offline_shortcut_title prelaunch_online
    run_shortcut_prelaunch_save_sync payload state env =
        let (raises, env1) = launcher.ensure_runtime env in
        let (reachable, env2) = launcher.reachable env1 in
        let (index, env3) = launcher.load_index env2 in
        let offline = mark_offline_if_bidirectional payload state env2 in
        if raises
        then (none, state, env1)
        else if not (should_sync_shortcut_saves m payload config)
        then (some (no_context, false), state, env1)
        else if not reachable
        then (some (no_context, offline.1), offline.0, env2)
        else prelaunch_online payload state env3 payload.title_id index
