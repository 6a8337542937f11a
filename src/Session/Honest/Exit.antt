-- ===== src/Session/Honest/Exit.antt =====
-- The whole exit tells every change.
use gamehub.Prelude.{
  ℕ, ◌≡◌, ◌∙◌, refl, subst, inl, inr, ◌⊎◌, String, Bool, true, false, not, ◌&&◌, ◌||◌, ◌==◌, Option,
  none, some, [], ◌∷◌, Bool-cases, Option-cases, arith,
}
use gamehub.Prelude.Dict
use gamehub.Prelude.Dict.{Dict}
use gamehub.Models.{SaveSpec, LibraryIndex}
use gamehub.Paths.{FilePath}
use gamehub.Saves.{SyncState}
use gamehub.Machine.{Machine}
use gamehub.Exchange.{
  World, UploadReply, accepted, rejected, failed, absent, invalid, current, record_uploaded_save,
  reconcile_upload_conflict,
}
use gamehub.Planner.Types.{GamehubConfig}
use gamehub.Planner.SavePlan.{canonical_suffix_from_rel_path}
use gamehub.Session.{
  Payload, Launcher, ShortcutSaveSnapshot, ShortcutSaveContext, should_attempt_postexit_upload,
  should_sync_shortcut_saves, record_missed_postexit_upload, iter_title_saves, mark_missed,
  mark_missed_postexit_uploads_from_snapshots,
}
use gamehub.Session.Launch.{is_bidirectional}
use gamehub.Session.Creates.{Session, going, session_of, run_all, and_then, run_exact_binding_sync}
use gamehub.Session.Trees.{run_tree_sync}
use gamehub.Session.Postexit.{
  upload_failed, after_update, update_save, offer_save, postexit_at, postexit_save, postexit_online,
  saves_by_id, postexit_loops, opening, missed_all, run_shortcut_postexit_save_sync, no_snapshots,
}
use gamehub.Session.Honest.{Tells, and_then-Tells, run_all-Tells, record_missed_lem}
use gamehub.Session.Honest.Creates.{run_exact_binding_sync-Tells}
use gamehub.Session.Honest.Trees.{run_tree_sync-Tells}

-- A pair of a state and a report, as the tables of missed uploads return it.
abbrev Reports : SyncState × Bool → SyncState × Bool → Type 0
Reports s t = (t.1 ≡ true) ⊎ ((t.0 ≡ s.0) × (t.1 ≡ s.1))

module _ (world : World) where
  -- Recording a missed upload after other changes.
  missed-Reports :
      (save_id : String) (path : FilePath) (sha : String) (s : SyncState × Bool) (env : world.W)
      → let recorded = record_missed_postexit_upload world save_id path sha s.0 env in
        Reports s (recorded.0, recorded.1 || s.1)
  missed-Reports save_id path sha s env =
      let recorded = record_missed_postexit_upload world save_id path sha s.0 env in
      elim (Bool-cases recorded.1) [
        | inl e ↦ inl (ground (arith, e))
        | inr e ↦ inr (record_missed_lem world save_id path sha s.0 env e, ground (arith, e))
      ]

  mark_missed-Reports :
      (save_id : String) (snapshot : ShortcutSaveSnapshot) (destination : Option FilePath)
      (s : SyncState × Bool) (env : world.W)
      → Reports s (mark_missed world save_id snapshot destination s env)
  unfolding mark_missed
  mark_missed-Reports save_id snapshot none s env = inr (refl, refl)
  mark_missed-Reports save_id snapshot (some path) s env =
      elim (Option-cases (world.local_sha env path)) [
        | inl e ↦ rw (mark_missed, e) (inr (refl, refl))
        | inr (sha, e) ↦
            elim (Bool-cases (
              snapshot.allow_postexit_upload
              && should_attempt_postexit_upload snapshot (some sha))) [
                | inl e' ↦ rw (mark_missed, e, e') (missed-Reports save_id path sha s env)
                | inr e' ↦ rw (mark_missed, e, e') (inr (refl, refl))
              ]
      ]

  Reports-trans : (s t u : SyncState × Bool) → Reports s t → Reports t u → Reports s u
  Reports-trans s t u g (inl h) = inl h
  Reports-trans s t u (inl g) (inr h) = inl (h.1 ∙ g)
  Reports-trans s t u (inr g) (inr h) = inr (h.0 ∙ g.0, h.1 ∙ g.1)

  mark_all-Reports :
      (snapshots : Dict ShortcutSaveSnapshot) (s : SyncState × Bool) (env : world.W)
      → Reports s (mark_missed_postexit_uploads_from_snapshots world snapshots s env)
  unfolding mark_missed_postexit_uploads_from_snapshots
  mark_all-Reports [] s env = inr (refl, refl)
  mark_all-Reports ((save_id, snapshot) ∷ snapshots) s env =
      Reports-trans s _ _ (mark_missed-Reports save_id snapshot snapshot.destination s env)
        (mark_all-Reports snapshots _ env)

module _ (m : Machine) (launcher : Launcher) where
  open launcher use {world, reachable}

  upload_failed-Tells :
      (save_id : String) (path : FilePath) (sha : String) (s : Session world)
      → Tells world s (upload_failed m launcher save_id path sha s)
  unfolding upload_failed
  upload_failed-Tells save_id path sha s = elim (Bool-cases (reachable s.env).0) [
    | inl e ↦ rw (upload_failed, e) (inr (refl, refl))
    | inr e ↦
        rw (upload_failed, e)
          (missed-Reports world save_id path sha (s.state, s.changed) (reachable s.env).1)
  ]

  after_update-Tells :
      (save_id : String) (path : FilePath) (sha : String) (reply : UploadReply) (s : Session world)
      → Tells world s (session_of world (after_update m launcher save_id path sha reply s))
  unfolding after_update
  after_update-Tells save_id path sha (accepted save) s =
      elim (Option-cases (record_uploaded_save world save_id path save s.state s.env)) [
        | inl e ↦ rw (e, session_of) (upload_failed-Tells save_id path sha s)
        | inr (state, e) ↦ rw (e, session_of) (inl refl)
      ]
  after_update-Tells save_id path sha (rejected reason absent) s = inl refl
  after_update-Tells save_id path sha (rejected reason invalid) s = inr (refl, refl)
  after_update-Tells save_id path sha (rejected reason (current save)) s =
      elim (Option-cases (reconcile_upload_conflict world save_id path save s.state s.env)) [
        | inl e ↦ rw (e, session_of) (inl refl)
        | inr (state, e) ↦ rw (e, session_of) (inl refl)
      ]
  after_update-Tells save_id path sha (failed message) s = upload_failed-Tells save_id path sha s

  update_save-Tells :
      (save_id : String) (save : SaveSpec) (path : FilePath) (sha : String) (s : Session world)
      → Tells world s (session_of world (update_save m launcher save_id save path sha s))
  unfolding update_save
  update_save-Tells save_id save path sha s =
      elim (Option-cases (canonical_suffix_from_rel_path save.rel_path)) [
        | inl e ↦ rw (e, session_of) (upload_failed-Tells save_id path sha s)
        | inr (suffix, e) ↦ rw (e, session_of) (after_update-Tells save_id path sha _ _)
      ]

  offer_save-Tells :
      (current_saves : Dict SaveSpec) (save_id : String) (snapshot : ShortcutSaveSnapshot)
      (path : FilePath) (sha : String) (s : Session world)
      → Tells world s
          (session_of world (offer_save m launcher current_saves save_id snapshot path sha s))
  unfolding offer_save
  offer_save-Tells current_saves save_id snapshot path sha s =
      elim (Option-cases (Dict.lookup save_id current_saves)) [
        | inl e ↦ rw (e, session_of) (inl refl)
        | inr (save, e) ↦ elim (Bool-cases (save.sha256 == snapshot.remote_sha256)) [
          | inl e' ↦ rw (e, e', session_of) (update_save-Tells save_id save path sha s)
          | inr e' ↦ rw (e, e', session_of) (inl refl)
        ]
      ]

  postexit_at-Tells :
      (current_saves : Dict SaveSpec) (save_id : String) (snapshot : ShortcutSaveSnapshot)
      (destination : Option FilePath) (s : Session world)
      → Tells world s
          (session_of world (postexit_at m launcher current_saves save_id snapshot destination s))
  unfolding postexit_at
  postexit_at-Tells current_saves save_id snapshot none s = inr (refl, refl)
  postexit_at-Tells current_saves save_id snapshot (some path) s =
      elim (Option-cases (world.local_sha s.env path)) [
        | inl e ↦ rw (e, session_of) (inr (refl, refl))
        | inr (sha, e) ↦
            elim (Bool-cases (
              snapshot.allow_postexit_upload
              && should_attempt_postexit_upload snapshot (some sha))) [
                | inl e' ↦
                    rw (e, e', session_of)
                      (offer_save-Tells current_saves save_id snapshot path sha s)
                | inr e' ↦ rw (e, e', session_of) (inr (refl, refl))
              ]
      ]

  postexit_save-Tells :
      (current_saves : Dict SaveSpec) (entry : String × ShortcutSaveSnapshot) (s : Session world)
      → Tells world s (session_of world (postexit_save m launcher current_saves entry s))
  unfolding postexit_save
  postexit_save-Tells current_saves (save_id, snapshot) s =
      postexit_at-Tells current_saves save_id snapshot snapshot.destination s

  module _ (is_hex_char : ℕ → Bool) where
    postexit_loops-Tells :
        (current_saves : Dict SaveSpec) (context : ShortcutSaveContext) (s : Session world)
        → Tells world s
            (session_of world (postexit_loops m launcher is_hex_char current_saves context s))
    unfolding postexit_loops
    postexit_loops-Tells current_saves context s =
        let exact =
          run_exact_binding_sync m launcher current_saves context.exact_binding_snapshots in
        let trees = run_tree_sync m launcher current_saves is_hex_char context.tree_snapshots in
        let updated =
          run_all world (postexit_save m launcher current_saves) context.save_snapshots s in
        and_then-Tells world s trees (and_then world exact updated)
          (and_then-Tells world s exact updated
            (run_all-Tells world (postexit_save m launcher current_saves)
              (postexit_save-Tells current_saves) context.save_snapshots s)
            (run_exact_binding_sync-Tells m launcher current_saves context.exact_binding_snapshots))
          (run_tree_sync-Tells m launcher current_saves is_hex_char context.tree_snapshots)

    missed_all-Tells :
        (context : ShortcutSaveContext) (state : SyncState) (before env : world.W)
        → Tells world
            (opening m launcher is_hex_char state before)
            (missed_all m launcher is_hex_char context state env)
    missed_all-Tells context state before env =
        mark_all-Reports world context.save_snapshots (state, false) env

    postexit_online-Tells :
        (context : ShortcutSaveContext) (state : SyncState) (before env1 : world.W)
        (title_id : Option String) (index : Option LibraryIndex × world.W)
        → Tells world (opening m launcher is_hex_char state before) (
            session_of world
              (postexit_online m launcher is_hex_char context state env1 title_id index))
    unfolding postexit_online
    postexit_online-Tells context state before env1 none (index, env2) = inr (refl, refl)
    postexit_online-Tells context state before env1 (some title_id) (none, env2) =
        missed_all-Tells context state before env2
    postexit_online-Tells context state before env1 (some title_id) (some library, env2) =
        postexit_loops-Tells (saves_by_id m launcher (iter_title_saves library title_id) []) context
          (opening m launcher is_hex_char state env2)

    run_shortcut_postexit_save_sync-Tells :
        (config : GamehubConfig) (payload : Payload) (context : ShortcutSaveContext)
        (state : SyncState) (env : world.W)
        → Tells world (opening m launcher is_hex_char state env) (
            session_of world (
              run_shortcut_postexit_save_sync m launcher is_hex_char config payload context state
                env))
    unfolding run_shortcut_postexit_save_sync
    run_shortcut_postexit_save_sync-Tells config payload context state env =
        elim (Bool-cases (
          not (is_bidirectional config.save_sync.mode)
          || no_snapshots m launcher is_hex_char context)) [
            | inl e ↦ rw (e, session_of) (inr (refl, refl))
            | inr e ↦ elim (Bool-cases (not (should_sync_shortcut_saves m payload config))) [
              | inl e' ↦ rw (e, e', session_of) (inr (refl, refl))
              | inr e' ↦ elim (Bool-cases (not (reachable env).0)) [
                | inl e'' ↦
                    rw (e, e', e'', session_of)
                      (missed_all-Tells context state env (reachable env).1)
                | inr e'' ↦
                    rw (e, e', e'', session_of)
                      (postexit_online-Tells context state env (reachable env).1 payload.title_id
                        (launcher.load_index (reachable env).1))
              ]
            ]
          ]

    -- An exit that returns, and reports no change, has left the state as it was, whatever the server
    -- answers and the local files hold. Nothing is said of a run that an exception leaves.
    pub run_shortcut_postexit_save_sync-reports :
        (config : GamehubConfig) (payload : Payload) (context : ShortcutSaveContext)
        (state : SyncState) (env : world.W) (s : Session world)
        → run_shortcut_postexit_save_sync m launcher is_hex_char config payload context state env
          ≡ going s
        → s.changed ≡ false
        → s.state ≡ state
    run_shortcut_postexit_save_sync-reports config payload context state env s h unchanged =
        let told =
          subst (λ q. Tells world (opening m launcher is_hex_char state env) (session_of world q)) h
            (run_shortcut_postexit_save_sync-Tells config payload context state env) in
        elim told [ inl e ↦ absurd (ground (arith, e, unchanged)) | inr e ↦ e.0 ]
