-- ===== src/Session/Honest/Run.antt =====
-- The whole run before a launch tells every change.
use gamehub.Prelude.{
  ℕ, ◌≡◌, ◌∙◌, refl, subst, inl, inr, ◌⊎◌, String, Bool, true, false, not, ◌&&◌, Option, none, some,
  List, [], Bool-cases, Option-cases, arith,
}
use gamehub.Models.{SaveSpec, SaveBindingSpec, LibraryIndex}
use gamehub.Saves.{SyncState}
use gamehub.Machine.{Machine}
use gamehub.Planner.Types.{GamehubConfig}
use gamehub.Planner.SavePlan.{bindings_by_id_from}
use gamehub.Session.{
  Payload, Launcher, ShortcutSaveContext, no_context, mark_offline_shortcut_title,
  clear_offline_shortcut_title, should_sync_shortcut_saves, iter_title_saves,
}
use gamehub.Session.Snapshots.{canonical_roots_by_binding}
use gamehub.Session.Launch.{Launch, is_bidirectional, prelaunch_saves}
use gamehub.Session.Prelaunch.{
  Prepared, of_title, opening, is_pending, mark_offline_if_bidirectional, close_title, with_catalog,
  prelaunch_online, run_shortcut_prelaunch_save_sync,
}
use gamehub.Session.Honest.Launch.{prelaunch_saves-Tells, mark_offline_lem, clear_offline_lem}

module _ (m : Machine) (launcher : Launcher) (config : GamehubConfig) where
  open launcher use {world}

  -- Whether a run reports a change; one that an exception leaves does not.
  abbrev reported : Prepared m launcher config → Bool
  reported (none, state, env) = false
  reported (some (context, changed), state, env) = changed

  abbrev Tells : SyncState → Prepared m launcher config → Type 0
  Tells state p = (reported p ≡ true) ⊎ (p.1 ≡ state)

  mark_offline-Tells :
      (payload : Payload) (state : SyncState) (env env' : world.W)
      → let marked = mark_offline_if_bidirectional m launcher config payload state env in
        Tells state (some (no_context, marked.1), marked.0, env')
  mark_offline-Tells payload state env env' =
      let marked = mark_offline_shortcut_title payload.title_id (world.now env) state in
      elim (Bool-cases (is_bidirectional config.save_sync.mode)) [
        | inr e ↦ rw e (inr refl)
        | inl e ↦ elim (Bool-cases marked.1) [
          | inl e' ↦ rw e (inl e')
          | inr e' ↦ rw e (inr (mark_offline_lem payload.title_id (world.now env) state e'))
        ]
      ]

  close_title-Tells :
      (payload : Payload) (pending : Bool) (context : ShortcutSaveContext) (state : SyncState)
      (s : Launch m launcher config)
      → (s.changed ≡ true) ⊎ ((s.state ≡ state) × (s.changed ≡ false))
      → Tells state (close_title m launcher config payload pending context s)
  unfolding close_title
  close_title-Tells payload pending context state s h =
      let cleared = clear_offline_shortcut_title payload.title_id s.state in
      elim (Bool-cases (pending && not s.needs_offline_title)) [
        | inr e ↦ elim h [
          | inl changed ↦ rw (close_title, e) (inl changed)
          | inr same ↦ rw (close_title, e) (inr same.0)
        ]
        | inl e ↦ elim (Bool-cases cleared.1) [
          | inl e' ↦ rw (close_title, e) (inl (ground (arith, e')))
          | inr e' ↦ elim h [
            | inl changed ↦ rw (close_title, e) (inl (ground (arith, e', changed)))
            | inr same ↦
                rw (close_title, e) (inr (clear_offline_lem payload.title_id s.state e' ∙ same.0))
          ]
        ]
      ]

  module _ (is_hex_char : ℕ → Bool) where
    with_catalog-Tells :
        (payload : Payload) (title_id : String) (title_saves : List SaveSpec) (state : SyncState)
        (loaded : Option (List SaveBindingSpec) × world.W)
        → Tells state
            (with_catalog m launcher config is_hex_char payload title_id title_saves state loaded)
    unfolding with_catalog
    with_catalog-Tells payload title_id title_saves state (catalog, env) =
        let bindings_by_id = bindings_by_id_from (of_title m launcher config title_id catalog) [] in
        let pending = is_pending m launcher config title_id state in
        let start = opening m launcher config state env in
        elim (Option-cases (canonical_roots_by_binding m title_saves bindings_by_id)) [
          | inl e ↦ rw (with_catalog, e) (inr refl)
          | inr (roots, e) ↦
              rw (with_catalog, e)
                (close_title-Tells payload pending _ state
                  (prelaunch_saves m launcher config pending bindings_by_id title_saves start)
                  (prelaunch_saves-Tells m launcher config pending bindings_by_id title_saves
                    start))
        ]

    prelaunch_online-Tells :
        (payload : Payload) (state : SyncState) (env : world.W) (title : Option String)
        (index : Option LibraryIndex)
        → Tells state (prelaunch_online m launcher config is_hex_char payload state env title index)
    unfolding prelaunch_online
    prelaunch_online-Tells payload state env title none = mark_offline-Tells payload state env env
    prelaunch_online-Tells payload state env none (some library) = inr refl
    prelaunch_online-Tells payload state env (some title_id) (some library) =
        with_catalog-Tells payload title_id (iter_title_saves library title_id) state _

    run-Tells :
        (payload : Payload) (state : SyncState) (env : world.W)
        → Tells state
            (run_shortcut_prelaunch_save_sync m launcher config is_hex_char payload state env)
    unfolding run_shortcut_prelaunch_save_sync
    run-Tells payload state env =
        let (raises, env1) = launcher.ensure_runtime env in
        let (reachable, env2) = launcher.reachable env1 in
        elim (Bool-cases raises) [
          | inl e ↦ rw (run_shortcut_prelaunch_save_sync, e) (inr refl)
          | inr e ↦ elim (Bool-cases (not (should_sync_shortcut_saves m payload config))) [
            | inl e' ↦ rw (run_shortcut_prelaunch_save_sync, e, e') (inr refl)
            | inr e' ↦ elim (Bool-cases (not reachable)) [
              | inl e'' ↦
                  rw (run_shortcut_prelaunch_save_sync, e, e', e'')
                    (mark_offline-Tells payload state env2 env2)
              | inr e'' ↦
                  rw (run_shortcut_prelaunch_save_sync, e, e', e'')
                    (prelaunch_online-Tells payload state _ payload.title_id _)
            ]
          ]
        ]

    -- A run before a launch that returns, and reports no change, has left the state as it was,
    -- whatever the server answers and the local files hold. Nothing is said of a run that an
    -- exception leaves.
    pub run_shortcut_prelaunch_save_sync-reports :
        (payload : Payload) (state : SyncState) (env : world.W) (context : ShortcutSaveContext)
        (state' : SyncState) (env' : world.W)
        → run_shortcut_prelaunch_save_sync m launcher config is_hex_char payload state env
          ≡ (some (context, false), state', env')
        → state' ≡ state
    run_shortcut_prelaunch_save_sync-reports payload state env context state' env' h =
        elim (subst (Tells state) h (run-Tells payload state env)) [
          | inl e ↦ absurd (ground (arith, e))
          | inr e ↦ e
        ]
