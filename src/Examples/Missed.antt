-- ===== src/Examples/Missed.antt =====
-- An upload that an exit missed, one that it made, and the roots that it learned.
use gamehub.Prelude.{
  ◌≡◌, refl, not, ◌==◌, String, text_ne, List, [], ◌∷◌, none, some, All, string_dec,
}
use gamehub.Prelude.Dict
use gamehub.Prelude.Int.{pos}
use gamehub.Models.{Strategy, learned_tree, dolphin_gc_gci_tree, SaveBindingSpec}
use gamehub.Saves.{download, bidirectional, manual, lineage_of, classify_save_action}
use gamehub.Saves.Converged.{next_decision, three_way}
use gamehub.Exchange.{accepted}
use gamehub.Planner.Decide.{text, datetime, normalize_utc_seconds}
use gamehub.Planner.Decide.Missed.{newer_wins}
use gamehub.Session.Creates.{session_of}
use gamehub.Session.Postexit.{after_update}
use gamehub.Session.Missed.{
  missed, decide_next, missed_upload-newer_wins, missed_upload-lost_at_tie, after_update-settled,
}
use gamehub.Learned.{
  learn_binding_root, canonical_root_for_learned_path, materialized_root_for_learned_path,
}
use gamehub.Learned.Roots.{learn_binding_root-All}
use gamehub.Examples.{machine, save_spec, binding_spec}
use gamehub.Examples.Stages.{world}
use gamehub.Examples.Sessions.{is_hex, launcher, session, synced}

local_time : normalize_utc_seconds machine (text "later") ≡ some (pos 9)
unfolding normalize_utc_seconds
local_time = refl

remote_time : normalize_utc_seconds machine (datetime "earlier") ≡ some (pos 7)
unfolding normalize_utc_seconds
remote_time = refl

missed_upload-newer_wins_example :
    decide_next machine world
      (missed machine world "save_0123456789abcdef" ("/" ∷ "saves" ∷ []) "played" synced tt)
      "save_0123456789abcdef"
      "remote"
      "local"
      manual
      (text "later")
      (datetime "earlier")
    ≡ newer_wins
        (pos 9)
        (pos 7)
        (classify_save_action "remote"
          (some "local")
          bidirectional
          manual
          (some "played")
          (lineage_of synced "save_0123456789abcdef").remote_sha256).0
missed_upload-newer_wins_example =
    missed_upload-newer_wins machine world "save_0123456789abcdef" ("/" ∷ "saves" ∷ []) "played"
      synced tt "remote" "local" manual (text "later") (datetime "earlier") (pos 9) (pos 7)
      (text_ne "local" "remote" refl) local_time remote_time

recorded_base : (lineage_of synced "save_0123456789abcdef").remote_sha256 ≡ some "old"
unfolding lineage_of Dict.lookup string_dec
recorded_base = refl

same_time : normalize_utc_seconds machine (datetime "later") ≡ some (pos 9)
unfolding normalize_utc_seconds
same_time = refl

missed_upload-lost_at_tie_example :
    decide_next machine world
      (missed machine world "save_0123456789abcdef" ("/" ∷ "saves" ∷ []) "played" synced tt)
      "save_0123456789abcdef"
      "remote"
      "played"
      manual
      (text "later")
      (datetime "later")
    ≡ download
missed_upload-lost_at_tie_example =
    missed_upload-lost_at_tie machine world "save_0123456789abcdef" ("/" ∷ "saves" ∷ []) "played"
      synced tt "remote" "old" manual (text "later") (datetime "later") (pos 9)
      (text_ne "played" "remote" refl) recorded_base (text_ne "remote" "old" refl) local_time
      same_time

after_update-settled_example :
    (Dict.lookup "save_0123456789abcdef"
        (session_of world (
          after_update machine
            (launcher world)
            "save_0123456789abcdef"
            ("/" ∷ "saves" ∷ [])
            "played"
            (accepted save_spec)
            session)).state.unresolved_save_conflicts
      ≡ none)
    × (next_decision
          (session_of world (
            after_update machine
              (launcher world)
              "save_0123456789abcdef"
              ("/" ∷ "saves" ∷ [])
              "played"
              (accepted save_spec)
              session)).state
          "save_0123456789abcdef"
          "newer"
          "local"
          manual
        ≡ three_way (not ("local" == "local")) (not ("newer" == "remote")) manual)
after_update-settled_example =
    after_update-settled machine (launcher world) "save_0123456789abcdef" ("/" ∷ "saves" ∷ [])
      "played" "local" save_spec session "newer" "local" manual refl (text_ne "local" "newer" refl)

abbrev gamecube_binding : SaveBindingSpec
gamecube_binding = record binding_spec {
  strategy = learned_tree;
  learn_rule = some dolphin_gc_gci_tree;
}

abbrev changed_paths : List String
changed_paths = "USA/Card A/quest.gci" ∷ "USA/Card A/quest2.gci" ∷ []

root_learned :
    learn_binding_root is_hex gamecube_binding changed_paths ≡ some ("USA/Card A", "USA/Card A")
unfolding learn_binding_root canonical_root_for_learned_path materialized_root_for_learned_path
root_learned = refl

learn_binding_root-All_example :
    (◌≡◌ {A = Strategy} learned_tree learned_tree)
    × All
        (λ path.
          (canonical_root_for_learned_path is_hex (some dolphin_gc_gci_tree) path
            ≡ some "USA/Card A")
          × (materialized_root_for_learned_path is_hex (some dolphin_gc_gci_tree) path
              ≡ some "USA/Card A"))
        changed_paths
learn_binding_root-All_example =
    learn_binding_root-All is_hex gamecube_binding changed_paths "USA/Card A" "USA/Card A"
      root_learned
