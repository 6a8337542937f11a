-- ===== src/Saves/Converged.antt =====
-- What a recorded sync leaves in the tables, and what it means for the next plan.
use gamehub.Prelude.{
  String, ◌≡◌, ◌≢◌, Option, none, some, arith, Bool, true, false, not, ◌==◌, if◌then◌else◌,
}
use gamehub.Prelude.Dict
use gamehub.Saves.{SaveLineageRecord}
use gamehub.Saves.{
  Decision, download, upload_existing, conflict, bidirectional, ConflictPolicy, manual,
  prefer_server, prefer_local, SyncState, classify_save_action, record_converged_save_state,
  lineage_of,
}

-- The decision for one save in bidirectional mode, with a lineage.
abbrev decide : SaveLineageRecord → String → String → ConflictPolicy → Decision
decide lineage remote l policy =
    (classify_save_action remote (some l) bidirectional policy lineage.local_sha256
      lineage.remote_sha256).0

-- The same, with the lineage that the state holds for the save.
abbrev pub next_decision : SyncState → String → String → String → ConflictPolicy → Decision
next_decision state save_id remote l policy = decide (lineage_of state save_id) remote l policy

-- The three-way rule: what to do when the local and the remote copy have changed, or not, since
-- the recorded sync.
abbrev by_policy : ConflictPolicy → Decision
by_policy manual = conflict
by_policy prefer_server = download
by_policy prefer_local = upload_existing

abbrev pub three_way : Bool → Bool → ConflictPolicy → Decision
three_way true false policy = upload_existing
three_way false true policy = download
three_way true true policy = by_policy policy
three_way false false policy = by_policy policy

three_way-classify :
    (remote l base_l base_r : String) (policy : ConflictPolicy) (lineage : SaveLineageRecord)
    → l ≢ remote
    → lineage.local_sha256 ≡ some base_l
    → lineage.remote_sha256 ≡ some base_r
    → decide lineage remote l policy ≡ three_way (not (l == base_l)) (not (remote == base_r)) policy
unfolding classify_save_action
three_way-classify remote l base_l base_r manual lineage ne hl hr = rw (hl, hr) (ground arith)
three_way-classify remote l base_l base_r _ lineage ne hl hr = rw (hl, hr) (ground arith)

module _ (save_id local_sha remote_sha : String) (local_updated : Option String)
    (remote_updated now : String) (state : SyncState) where
  abbrev pub recorded : SyncState
  recorded =
      record_converged_save_state save_id local_sha remote_sha local_updated remote_updated now
        state

  lineage_of-recorded :
      ((lineage_of recorded save_id).local_sha256 ≡ some local_sha)
      × ((lineage_of recorded save_id).remote_sha256 ≡ some remote_sha)
  unfolding lineage_of record_converged_save_state
  lineage_of-recorded =
      (rw (Dict.lookup-insert_self, lineage_of), rw (Dict.lookup-insert_self, lineage_of))

  -- The tables of checksums and of conflicts after a recorded sync.
  pub record_converged_settles :
      (k : String)
      → (Dict.lookup k recorded.save_checksums
          ≡ (if k == save_id then some local_sha else Dict.lookup k state.save_checksums))
        × (Dict.lookup k recorded.unresolved_save_conflicts
            ≡ (if k == save_id then none else Dict.lookup k state.unresolved_save_conflicts))
  unfolding record_converged_save_state
  record_converged_settles k =
      (Dict.lookup-insert k save_id local_sha _, Dict.lookup-erase k save_id _)

  -- After a recorded sync, two copies that differ are decided by the three-way rule: a change on
  -- one side alone travels to the other under every policy, and the policy decides otherwise.
  pub classify-record_converged :
      (remote l : String) (policy : ConflictPolicy)
      → l ≢ remote
      → next_decision recorded save_id remote l policy
        ≡ three_way (not (l == local_sha)) (not (remote == remote_sha)) policy
  classify-record_converged remote l policy ne =
      three_way-classify remote l local_sha remote_sha policy (lineage_of recorded save_id) ne
        lineage_of-recorded.0 lineage_of-recorded.1
