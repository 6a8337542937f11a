-- ===== src/Planner/Decide/Missed.antt =====
-- When the timestamps overrule the classification.
use gamehub.Prelude.{String, ◌≡◌, ◌≢◌, Option, none, some, arith, if◌then◌else◌}
use gamehub.Prelude.Int.{ℤ, pos, negsuc, lt_ℤ}
use gamehub.Saves.{
  Decision, download, upload_existing, download_mode, bidirectional, ConflictPolicy,
  classify_save_action,
}
use gamehub.Machine.{Machine}
use gamehub.Planner.Decide.{
  TimeValue, missed_postexit_upload_reason, normalize_utc_seconds, newer_side,
  resolve_missed_upload_timestamp_decision, resolve_save_action,
}

-- The newer side's decision, or the given one where neither is newer.
abbrev pub newer_wins : ℤ → ℤ → Decision → Decision
newer_wins l r tie = if lt_ℤ r l then upload_existing else if lt_ℤ l r then download else tie

abbrev decision_or : Decision → Option (Decision × String) → Decision
decision_or tie none = tie
decision_or tie (some outcome) = outcome.0

module _ (m : Machine) where
  newer_side_lem :
      (l r : ℤ) (tie : Decision)
      → decision_or tie (newer_side m (some l) (some r)) ≡ newer_wins l r tie
  unfolding newer_side
  newer_side_lem (pos a) (pos b) tie = ground arith
  newer_side_lem (pos a) (negsuc b) tie = ground arith
  newer_side_lem (negsuc a) (pos b) tie = ground arith
  newer_side_lem (negsuc a) (negsuc b) tie = ground arith

  -- After a missed upload, with two copies that differ and both times known, the newer copy wins in
  -- bidirectional mode whatever the lineage and the policy say; at equal times they decide.
  pub resolve_save_action-missed :
      (save_sha l : String) (policy : ConflictPolicy) (base_l base_r : Option String)
      (local_updated remote_updated : TimeValue) (a b : ℤ)
      → l ≢ save_sha
      → normalize_utc_seconds m local_updated ≡ some a
      → normalize_utc_seconds m remote_updated ≡ some b
      → (resolve_save_action m save_sha
          (some l)
          bidirectional
          policy
          base_l
          base_r
          (some missed_postexit_upload_reason)
          local_updated
          remote_updated).0
        ≡ newer_wins a b
            (classify_save_action save_sha (some l) bidirectional policy base_l base_r).0
  unfolding resolve_save_action resolve_missed_upload_timestamp_decision
  resolve_save_action-missed save_sha l policy base_l base_r local_updated remote_updated a b ne ha
        hb =
      rw (ha, hb)
        (ground (
          arith,
          newer_side_lem a b
              (classify_save_action save_sha (some l) bidirectional policy base_l base_r).0,
        ))

  -- In download mode the timestamps change nothing.
  pub resolve_save_action-download_mode :
      (save_sha : String) (local_sha : Option String) (policy : ConflictPolicy)
      (base_l base_r unresolved : Option String) (local_updated remote_updated : TimeValue)
      → resolve_save_action m save_sha local_sha download_mode policy base_l base_r unresolved
          local_updated remote_updated
        ≡ classify_save_action save_sha local_sha download_mode policy base_l base_r
  unfolding resolve_save_action resolve_missed_upload_timestamp_decision
  resolve_save_action-download_mode save_sha local_sha policy base_l base_r unresolved local_updated
        remote_updated =
      ground arith
