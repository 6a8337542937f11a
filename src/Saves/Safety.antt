-- ===== src/Saves/Safety.antt =====
-- What `classify_save_action` never does: lose a change on either side without being told to.
use gamehub.Prelude.{String, ◌≡◌, refl, ◌≢◌, ◌⊎◌, inl, inr, Option, none, some, arith}
use gamehub.Saves.{
  Decision, skip, download, upload_existing, upload_new, conflict, other, Mode, download_mode,
  bidirectional, ConflictPolicy, manual, prefer_server, prefer_local, classify_save_action,
  classify_drift,
}

-- In download mode the outcome is a download of a save that is missing here, or a skip: the server
-- is never written to, and a local save is never overwritten or put in conflict.
pub download_mode_outcome :
    (remote : String) (local : Option String) (policy : ConflictPolicy)
    (base_l base_r : Option String)
    → (((classify_save_action remote local download_mode policy base_l base_r).0 ≡ download)
        × (local ≡ none))
      ⊎ (((classify_save_action remote local download_mode policy base_l base_r).0 ≡ skip)
          × (local ≢ none))
unfolding classify_save_action
download_mode_outcome remote none policy base_l base_r = ground arith
download_mode_outcome remote (some l) policy base_l base_r = ground arith

-- Unless the policy prefers the server, a save that exists here is downloaded over only if the
-- server's copy moved away from the recorded one, and the local copy is the recorded one or none
-- was recorded.
pub download_keeps_local_changes :
    (remote l : String) (mode : Mode) (policy : ConflictPolicy) (base_l base_r : Option String)
    → policy ≢ prefer_server
    → (classify_save_action remote (some l) mode policy base_l base_r).0 ≡ download
    → ((base_l ≡ none) ⊎ (base_l ≡ some l)) × ((r : String) × (base_r ≡ some r) × (remote ≢ r))
unfolding classify_save_action
download_keeps_local_changes remote l download_mode policy base_l base_r p h = ground arith
download_keeps_local_changes remote l bidirectional manual base_l none p h = ground arith
download_keeps_local_changes remote l bidirectional manual none (some b) p h =
    (inl refl, (b, refl, ground arith))
download_keeps_local_changes remote l bidirectional manual (some a) (some b) p h =
    (inr (ground arith), (b, refl, ground arith))
download_keeps_local_changes remote l bidirectional prefer_server base_l base_r p h =
    absurd (p refl)
download_keeps_local_changes remote l bidirectional prefer_local base_l none p h = ground arith
download_keeps_local_changes remote l bidirectional prefer_local none (some b) p h =
    (inl refl, (b, refl, ground arith))
download_keeps_local_changes remote l bidirectional prefer_local (some a) (some b) p h =
    (inr (ground arith), (b, refl, ground arith))

-- The policy for the other side.
abbrev pub swap : ConflictPolicy → ConflictPolicy
swap manual = manual
swap prefer_server = prefer_local
swap prefer_local = prefer_server

-- The decision for the other side.
abbrev pub mirror : Decision → Decision
mirror download = upload_existing
mirror upload_existing = download
mirror skip = skip
mirror upload_new = upload_new
mirror conflict = conflict
mirror (other s) = other s

drift_mirror :
    (remote l : String) (policy : ConflictPolicy) (base_l base_r : Option String)
    → (classify_drift l remote (swap policy) base_r base_l).0
      ≡ mirror (classify_drift remote l policy base_l base_r).0
unfolding classify_drift
drift_mirror remote l manual base_l base_r = ground arith
drift_mirror remote l _ base_l base_r = ground arith

-- Bidirectional mode favours neither side: with the two copies, their recorded versions and the
-- policy exchanged, the decision is the mirrored one, for every policy and whatever was recorded.
pub classify_symmetric :
    (remote l : String) (policy : ConflictPolicy) (base_l base_r : Option String)
    → (classify_save_action l (some remote) bidirectional (swap policy) base_r base_l).0
      ≡ mirror (classify_save_action remote (some l) bidirectional policy base_l base_r).0
unfolding classify_save_action
classify_symmetric remote l policy base_l base_r =
    unfold classify_save_action in ground (arith, drift_mirror remote l policy base_l base_r)
