-- ===== src/Examples/Sessions.antt =====
-- A launch and its exit, on the small library.
use gamehub.Prelude.{
  Option, ℕ, ◌≡◌, ◌⊎◌, refl, true, false, Bool, [], ◌∷◌, none, some, if◌then◌else◌, string_dec, leb,
  ◌&&◌, option_eq,
}
use gamehub.Prelude.Dict
use gamehub.Models.{SaveSpec}
use gamehub.Saves.{
  SyncState, download, conflict, bidirectional, download_mode, lineage_of, classify_save_action,
}
use gamehub.Exchange.{World, accepted}
use gamehub.Planner.SavePlan.{bindings_by_id_from, canonical_suffix_from_rel_path}
use gamehub.Planner.Decide.{resolve_missed_upload_timestamp_decision}
use gamehub.Session.{Payload, Launcher, ShortcutSaveSnapshot, ShortcutSaveContext, no_context}
use gamehub.Session.Launch.{Launch, recover_offline, prelaunch_outcome, prelaunch_at}
use gamehub.Session.Prelaunch.{opening, run_shortcut_prelaunch_save_sync}
use gamehub.Session.Creates.{Session, going, session_of}
use gamehub.Session.Postexit.{postexit_save, after_update, run_shortcut_postexit_save_sync}
use gamehub.Session.Honest.Exit.{run_shortcut_postexit_save_sync-reports}
use gamehub.Session.Honest.Run.{run_shortcut_prelaunch_save_sync-reports}
use gamehub.Session.Guarded.{
  IsOffered, postexit_save-guarded, recovered, outcome, prelaunch_conflict-kept,
  failed_download-overwrites,
}
use gamehub.Examples.{machine, config, library, save_spec, binding_spec, no_state}
use gamehub.Examples.Stages.{world}

abbrev pub is_hex : ℕ → Bool
is_hex c = leb 48 c && leb c 57

-- A server that is there, in front of the given exchange.
abbrev pub launcher : World → Launcher
launcher w = record {
  world = w;
  ensure_runtime = λ env. (false, env);
  reachable = λ env. (true, env);
  load_index = λ env. (some library, env);
  load_bindings = λ env. (some (binding_spec ∷ []), env);
  save_destination = λ env save roots binding. some ("/" ∷ "saves" ∷ "quest.srm" ∷ []);
  binding_root = λ env binding. some ("/" ∷ "saves" ∷ []);
  exact_destination = λ env system kind root filename. "/" ∷ "saves" ∷ filename ∷ [];
  tree_files = λ env binding. none;
}

abbrev payload : Payload
payload = record { title_id = some "title_1"; system = some "SNES" }

abbrev unchanged_snapshot : ShortcutSaveSnapshot
unchanged_snapshot = record {
  destination = some ("/" ∷ "saves" ∷ "quest.srm" ∷ []);
  local_sha256 = some "local";
  remote_sha256 = "remote";
  allow_postexit_upload = true;
  pending_postexit_upload = false;
}

abbrev context : ShortcutSaveContext
context = record no_context { save_snapshots = ("save_0123456789abcdef", unchanged_snapshot) ∷ [] }

abbrev pub session : Session world
session = record { state = no_state; changed = false; env = tt }

exit_reports_nothing :
    run_shortcut_postexit_save_sync machine
      (launcher world)
      is_hex
      (config true bidirectional)
      payload
      context
      no_state
      tt
    ≡ going session
unfolding run_shortcut_postexit_save_sync
exit_reports_nothing = refl

run_shortcut_postexit_save_sync-reports_example : session.state ≡ no_state
run_shortcut_postexit_save_sync-reports_example =
    run_shortcut_postexit_save_sync-reports machine (launcher world) is_hex
      (config true bidirectional) payload context no_state tt session exit_reports_nothing refl

-- The run before a launch in download mode, and the context that it hands to the exit.
abbrev launched : Option (ShortcutSaveContext × Bool) × SyncState × Unit {0}
launched =
    run_shortcut_prelaunch_save_sync machine (launcher world) (config true download_mode) is_hex
      payload no_state tt

abbrev handed_on : ShortcutSaveContext
handed_on = elim launched.0 [ none ↦ no_context | some entry ↦ entry.0 ]

launch_reports_nothing : launched ≡ (some (handed_on, false), no_state, tt)
unfolding run_shortcut_prelaunch_save_sync Dict.lookup bindings_by_id_from
    resolve_missed_upload_timestamp_decision classify_save_action
launch_reports_nothing = refl

run_shortcut_prelaunch_save_sync-reports_example : launched.1 ≡ no_state
unfolding run_shortcut_prelaunch_save_sync Dict.lookup bindings_by_id_from
    resolve_missed_upload_timestamp_decision classify_save_action
run_shortcut_prelaunch_save_sync-reports_example =
    run_shortcut_prelaunch_save_sync-reports machine (launcher world) (config true download_mode)
      is_hex payload no_state tt handed_on no_state tt launch_reports_nothing

abbrev current_saves : Dict.Dict SaveSpec
current_saves = ("save_0123456789abcdef", save_spec) ∷ []

postexit_save-guarded_example :
    ((session_of world (
        postexit_save machine
          (launcher world)
          current_saves
          ("save_0123456789abcdef", unchanged_snapshot)
          session)).env
      ≡ tt)
    ⊎ IsOffered machine
        (launcher world)
        current_saves
        "save_0123456789abcdef"
        unchanged_snapshot
        (some ("/" ∷ "saves" ∷ "quest.srm" ∷ []))
        session
postexit_save-guarded_example =
    postexit_save-guarded machine (launcher world) current_saves "save_0123456789abcdef"
      unchanged_snapshot session

abbrev launch : Launch machine (launcher world) (config true bidirectional)
launch = opening machine (launcher world) (config true bidirectional) no_state tt

in_conflict :
    outcome machine
      (launcher world)
      (config true bidirectional)
      false
      save_spec
      ("/" ∷ "saves" ∷ "quest.srm" ∷ [])
      launch
    ≡ (conflict, "lineage-missing-manual")
unfolding prelaunch_outcome string_dec resolve_missed_upload_timestamp_decision Dict.lookup
    recover_offline classify_save_action lineage_of
in_conflict = refl

prelaunch_conflict-kept_example :
    (snapshot : ShortcutSaveSnapshot) × (Dict.lookup "save_0123456789abcdef"
        (prelaunch_at machine
          (launcher world)
          (config true bidirectional)
          false
          save_spec
          (some ("/" ∷ "saves" ∷ "quest.srm" ∷ []))
          launch).snapshots
      ≡ some snapshot)
    × (postexit_save machine
          (launcher world)
          current_saves
          ("save_0123456789abcdef", snapshot)
          session
        ≡ going session)
prelaunch_conflict-kept_example =
    prelaunch_conflict-kept machine (launcher world) (config true bidirectional) false save_spec
      ("/" ∷ "saves" ∷ "quest.srm" ∷ []) "lineage-missing-manual" launch current_saves session
      in_conflict

-- A server that has a newer version but breaks off every download; the game writes in between.
abbrev breaking_world : World
breaking_world = record world {
  W = Bool;
  upload = λ url path binding_id suffix expected w. (accepted save_spec, w);
  fetch = λ url path expected w. (some "timeout", w);
  local_sha = λ w path. some (if w then "played" else "local");
  updated_at = λ w path. some "later";
  now = λ w. "now";
}

abbrev pub synced : SyncState
synced = record no_state {
  save_lineage =
      (
        "save_0123456789abcdef",
        record {
          local_sha256 = some "local";
          remote_sha256 = some "old";
          local_updated_at = none;
          remote_updated_at = none;
          synced_at = none;
        },
      )
      ∷ [];
}

abbrev breaking_launch : Launch machine (launcher breaking_world) (config true bidirectional)
breaking_launch = opening machine (launcher breaking_world) (config true bidirectional) synced false

abbrev breaking_session : Session breaking_world
breaking_session = record { state = synced; changed = false; env = true }

to_download :
    outcome machine
      (launcher breaking_world)
      (config true bidirectional)
      false
      save_spec
      ("/" ∷ "saves" ∷ "quest.srm" ∷ [])
      breaking_launch
    ≡ (download, "remote-changed-local-unchanged")
unfolding prelaunch_outcome string_dec resolve_missed_upload_timestamp_decision Dict.lookup
    recover_offline classify_save_action lineage_of
to_download = refl

suffix_of_save : canonical_suffix_from_rel_path save_spec.rel_path ≡ some "quest.srm"
unfolding canonical_suffix_from_rel_path
suffix_of_save = refl

listed : Dict.lookup "save_0123456789abcdef" current_saves ≡ some save_spec
unfolding Dict.lookup string_dec
listed = refl

unplayed :
    breaking_world.fetch "/v1/saves/save_0123456789abcdef"
      ("/" ∷ "saves" ∷ "quest.srm" ∷ [])
      "remote"
      (recovered machine
        (launcher breaking_world)
        (config true bidirectional)
        false
        save_spec
        ("/" ∷ "saves" ∷ "quest.srm" ∷ [])
        breaking_launch).env
    ≡ (some "timeout", false)
unfolding recover_offline
unplayed = refl

written : option_eq (some "played") (some "local") ≡ false
unfolding string_dec
written = refl

failed_download-overwrites_example :
    (snapshot : ShortcutSaveSnapshot) × (Dict.lookup "save_0123456789abcdef"
        (prelaunch_at machine
          (launcher breaking_world)
          (config true bidirectional)
          false
          save_spec
          (some ("/" ∷ "saves" ∷ "quest.srm" ∷ []))
          breaking_launch).snapshots
      ≡ some snapshot)
    × (postexit_save machine
          (launcher breaking_world)
          current_saves
          ("save_0123456789abcdef", snapshot)
          breaking_session
        ≡ after_update machine
            (launcher breaking_world)
            "save_0123456789abcdef"
            ("/" ∷ "saves" ∷ "quest.srm" ∷ [])
            "played"
            (accepted save_spec)
            breaking_session)
failed_download-overwrites_example =
    failed_download-overwrites machine (launcher breaking_world) (config true bidirectional) false
      save_spec ("/" ∷ "saves" ∷ "quest.srm" ∷ []) "remote-changed-local-unchanged" "timeout"
      breaking_launch false true current_saves breaking_session "played" "quest.srm"
      (accepted save_spec) to_download unplayed refl written listed suffix_of_save refl
