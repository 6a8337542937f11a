-- ===== src/Examples/Saves.antt =====
-- The classification of one save, run and proved on concrete inputs.
use gamehub.Prelude.{
  ◌≡◌, ◌≢◌, ◌⊎◌, refl, String, text_ne, Option, none, some, not, ◌==◌, string_dec,
}
use gamehub.Saves.{
  download, conflict, bidirectional, manual, prefer_local, prefer_server, classify_save_action,
}
use gamehub.Saves.Safety.{download_keeps_local_changes, classify_symmetric, swap, mirror}
use gamehub.Saves.Converged.{recorded, next_decision, three_way, classify-record_converged}
use gamehub.Examples.{no_state}

both_changed :
    classify_save_action "r1" (some "l1") bidirectional manual (some "b") (some "b")
    ≡ (conflict, "both-changed-manual")
unfolding classify_save_action string_dec
both_changed = refl

remote_moved :
    (classify_save_action "r1" (some "b") bidirectional manual (some "b") (some "b")).0 ≡ download
unfolding classify_save_action string_dec
remote_moved = refl

not_server : manual ≢ prefer_server
not_server e = cc

download_keeps_local_changes_example :
    ((◌≡◌ {A = Option String} (some "b") none) ⊎ (◌≡◌ {A = Option String} (some "b") (some "b")))
    × ((r : String) × (◌≡◌ {A = Option String} (some "b") (some r)) × ("r1" ≢ r))
download_keeps_local_changes_example =
    download_keeps_local_changes "r1" "b" bidirectional manual (some "b") (some "b") not_server
      remote_moved

classify_symmetric_example :
    (classify_save_action "l1" (some "r1") bidirectional (swap prefer_local) (some "b") none).0
    ≡ mirror (classify_save_action "r1" (some "l1") bidirectional prefer_local none (some "b")).0
classify_symmetric_example = classify_symmetric "r1" "l1" prefer_local none (some "b")

classify-record_converged_example :
    next_decision (recorded "s" "l" "r" none "u" "n" no_state) "s" "r" "l2" manual
    ≡ three_way (not ("l2" == "l")) (not ("r" == "r")) manual
classify-record_converged_example =
    classify-record_converged "s" "l" "r" none "u" "n" no_state "r" "l2" manual
      (text_ne "l2" "r" refl)
