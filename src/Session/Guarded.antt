-- ===== src/Session/Guarded.antt =====
-- When the exit of a game offers a save to the server, and what a conflict or a failed download
-- before the launch means for it.
use gamehub.Prelude.{
  ◌≡◌, refl, ◌∙◌, ==_refl, inl, inr, ◌⊎◌, String, Bool, true, false, ◌&&◌, ◌==◌, ◌<>◌, Option, none,
  some, option_eq, Bool-cases, Option-cases, arith,
}
use gamehub.Prelude.Dict
use gamehub.Prelude.Dict.{Dict}
use gamehub.Models.{SaveSpec}
use gamehub.Paths.{FilePath}
use gamehub.Saves.{conflict, download, Outcome}
use gamehub.Machine.{Machine, binding_id_at}
use gamehub.Exchange.{UploadReply}
use gamehub.Planner.Types.{GamehubConfig}
use gamehub.Planner.SavePlan.{canonical_suffix_from_rel_path}
use gamehub.Session.{ShortcutSaveSnapshot, should_attempt_postexit_upload, Launcher}
use gamehub.Session.Launch.{
  Launch, snapshot_of, recover_offline, prelaunch_outcome, after_stream, carry_out, prelaunch_at,
}
use gamehub.Session.Creates.{Session, going, session_of}
use gamehub.Session.Postexit.{update_save, offer_save, postexit_at, postexit_save, after_update}

module _ (m : Machine) (launcher : Launcher) where
  open launcher use {world}

  -- What must hold for an upload of the save to be offered.
  pub record IsOffered (current_saves : Dict SaveSpec) (save_id : String)
      (snapshot : ShortcutSaveSnapshot) (destination : Option FilePath) (s : Session world)
      : Type 0 where
    pub path : FilePath
    pub here : destination ≡ some path
    pub allowed : snapshot.allow_postexit_upload ≡ true
    pub sha : String
    pub there : world.local_sha s.env path ≡ some sha
    pub changed :
        (snapshot.pending_postexit_upload ≡ true)
        ⊎ (option_eq (some sha) snapshot.local_sha256 ≡ false)
    pub save : SaveSpec
    pub listed : Dict.lookup save_id current_saves ≡ some save
    pub unmoved : save.sha256 ≡ snapshot.remote_sha256

  attempt_lem :
      (snapshot : ShortcutSaveSnapshot) (sha : String)
      → (snapshot.allow_postexit_upload && should_attempt_postexit_upload snapshot (some sha))
        ≡ true
      → (snapshot.allow_postexit_upload ≡ true)
        × ((snapshot.pending_postexit_upload ≡ true)
            ⊎ (option_eq (some sha) snapshot.local_sha256 ≡ false))
  unfolding should_attempt_postexit_upload
  attempt_lem snapshot sha h = elim (Bool-cases snapshot.pending_postexit_upload) [
    | inl e ↦ (ground (arith, h), inl e)
    | inr e ↦ (ground (arith, h), inr (ground (arith, e, h)))
  ]

  postexit_at-guarded :
      (current_saves : Dict SaveSpec) (save_id : String) (snapshot : ShortcutSaveSnapshot)
      (destination : Option FilePath) (s : Session world)
      → ((session_of world
            (postexit_at m launcher current_saves save_id snapshot destination s)).env
          ≡ s.env)
        ⊎ IsOffered current_saves save_id snapshot destination s
  unfolding postexit_at offer_save
  postexit_at-guarded current_saves save_id snapshot none s = inl refl
  postexit_at-guarded current_saves save_id snapshot (some path) s =
      elim (Option-cases (world.local_sha s.env path)) [
        | inl e ↦ inl (rw (e, session_of) refl)
        | inr (sha, e) ↦
            elim (Bool-cases (
              snapshot.allow_postexit_upload
              && should_attempt_postexit_upload snapshot (some sha))) [
                | inr a ↦ inl (rw (e, a, session_of) refl)
                | inl a ↦ elim (Option-cases (Dict.lookup save_id current_saves)) [
                  | inl none_there ↦ inl (rw (e, a, none_there, session_of) refl)
                  | inr (save, listed) ↦ elim (Bool-cases (save.sha256 == snapshot.remote_sha256)) [
                    | inr moved ↦ inl (rw (e, a, listed, moved, session_of) refl)
                    | inl same ↦ inr (record {
                      path = path;
                      here = refl;
                      allowed = (attempt_lem snapshot sha a).0;
                      sha = sha;
                      there = e;
                      changed = (attempt_lem snapshot sha a).1;
                      save = save;
                      listed = listed;
                      unmoved = ground (arith, same);
                    })
                  ]
                ]
              ]
      ]

  -- The loop of the exit over the saves that the launch listed does not call the server for one of
  -- them unless its snapshot allows an upload, the local file is there and has changed since the
  -- launch or was pending, and the index of the exit still has the checksum of the launch. The two
  -- later loops, over files without a save and over learned trees, are not spoken of.
  pub postexit_save-guarded :
      (current_saves : Dict SaveSpec) (save_id : String) (snapshot : ShortcutSaveSnapshot)
      (s : Session world)
      → ((session_of world (postexit_save m launcher current_saves (save_id, snapshot) s)).env
          ≡ s.env)
        ⊎ IsOffered current_saves save_id snapshot snapshot.destination s
  unfolding postexit_save
  postexit_save-guarded current_saves save_id snapshot s =
      postexit_at-guarded current_saves save_id snapshot snapshot.destination s

  -- A snapshot that forbids uploads.
  forbidden_lem :
      (current_saves : Dict SaveSpec) (save_id : String) (snapshot : ShortcutSaveSnapshot)
      (destination : Option FilePath) (s : Session world)
      → snapshot.allow_postexit_upload ≡ false
      → postexit_at m launcher current_saves save_id snapshot destination s ≡ going s
  unfolding postexit_at
  forbidden_lem current_saves save_id snapshot none s h = refl
  forbidden_lem current_saves save_id snapshot (some path) s h = ground (arith, h)

  -- A snapshot that allows them, of a save that has changed and not moved.
  offered_lem :
      (current_saves : Dict SaveSpec) (save_id : String) (snapshot : ShortcutSaveSnapshot)
      (path : FilePath) (sha : String) (save : SaveSpec) (s : Session world)
      → world.local_sha s.env path ≡ some sha
      → (snapshot.allow_postexit_upload && should_attempt_postexit_upload snapshot (some sha))
        ≡ true
      → Dict.lookup save_id current_saves ≡ some save
      → (save.sha256 == snapshot.remote_sha256) ≡ true
      → postexit_at m launcher current_saves save_id snapshot (some path) s
        ≡ update_save m launcher save_id save path sha s
  unfolding postexit_at offer_save
  offered_lem current_saves save_id snapshot path sha save s there a listed same =
      rw (postexit_at, there, a, offer_save, listed, same) refl

  module _ (config : GamehubConfig) where
    -- A save before the launch: the state after the offline titles, and the outcome.
    abbrev pub recovered :
        Bool → SaveSpec → FilePath → Launch m launcher config → Launch m launcher config
    recovered pending save path s =
        recover_offline m launcher config pending save path (world.local_sha s.env path) s

    abbrev pub outcome : Bool → SaveSpec → FilePath → Launch m launcher config → Outcome
    outcome pending save path s =
        prelaunch_outcome m launcher config save path (world.local_sha s.env path)
          (recovered pending save path s)

    -- A save that is in conflict before the launch is left alone by the exit's loop over the saves
    -- that the launch listed, whatever the game has written and the server holds by then. The two
    -- later loops, over files without a save and over learned trees, are not spoken of.
    pub prelaunch_conflict-kept :
        (pending : Bool) (save : SaveSpec) (path : FilePath) (reason : String)
        (s : Launch m launcher config) (current_saves : Dict SaveSpec) (later : Session world)
        → outcome pending save path s ≡ (conflict, reason)
        → (snapshot : ShortcutSaveSnapshot) × (Dict.lookup save.save_id
              (prelaunch_at m launcher config pending save (some path) s).snapshots
            ≡ some snapshot)
          × (postexit_save m launcher current_saves (save.save_id, snapshot) later ≡ going later)
    unfolding prelaunch_at carry_out postexit_save
    prelaunch_conflict-kept pending save path reason s current_saves later h =
        let snapshot =
          snapshot_of m launcher config save path (world.local_sha s.env path) false conflict in
        rw h (
          snapshot,
          Dict.lookup-insert_self save.save_id snapshot (recovered pending save path s).snapshots,
          forbidden_lem current_saves save.save_id snapshot (some path) later refl,
        )

    -- A download that fails before the launch still leaves a snapshot that allows uploads. When the
    -- game then changes the old local copy and the server has not moved, the exit uploads that copy
    -- with the checksum of the newer version, which this machine never had, as the expected one.
    pub failed_download-overwrites :
        (pending : Bool) (save : SaveSpec) (path : FilePath) (reason message : String)
        (s : Launch m launcher config) (env env' : world.W) (current_saves : Dict SaveSpec)
        (later : Session world) (sha suffix : String) (reply : UploadReply)
        → outcome pending save path s ≡ (download, reason)
        → world.fetch
            ("/v1/saves/" <> save.save_id)
            path
            save.sha256
            (recovered pending save path s).env
          ≡ (some message, env)
        → world.local_sha later.env path ≡ some sha
        → option_eq (some sha) (world.local_sha s.env path) ≡ false
        → Dict.lookup save.save_id current_saves ≡ some save
        → canonical_suffix_from_rel_path save.rel_path ≡ some suffix
        → world.upload
            ("/v1/saves/" <> save.save_id)
            path
            (binding_id_at m save.title_id save.kind)
            suffix
            (some save.sha256)
            later.env
          ≡ (reply, env')
        → (snapshot : ShortcutSaveSnapshot) × (Dict.lookup save.save_id
              (prelaunch_at m launcher config pending save (some path) s).snapshots
            ≡ some snapshot)
          × (postexit_save m launcher current_saves (save.save_id, snapshot) later
              ≡ after_update m launcher save.save_id path sha reply (record later { env = env' }))
    unfolding prelaunch_at carry_out after_stream postexit_save update_save
        should_attempt_postexit_upload
    failed_download-overwrites pending save path reason message s env env' current_saves later sha
          suffix reply h fetched there differs listed suffixed uploaded =
        let snapshot =
          snapshot_of m launcher config save path (world.local_sha s.env path) true download in
        rw (h, fetched)
          (
            snapshot,
            Dict.lookup-insert_self save.save_id snapshot (recovered pending save path s).snapshots,
            offered_lem current_saves save.save_id snapshot path sha save later there
                  (ground (arith, differs)) listed (==_refl save.sha256)
                ∙ rw (update_save, suffixed, uploaded) refl,
          )
