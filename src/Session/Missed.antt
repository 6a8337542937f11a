-- ===== src/Session/Missed.antt =====
-- What a missed upload means for the next sync, and what a finished one does.
use gamehub.Prelude.{◌≡◌, ◌≢◌, refl, ◌∙◌, String, not, ◌==◌, Option, none, some, arith}
use gamehub.Prelude.Dict
use gamehub.Prelude.Int.{ℤ, pos, negsuc}
use gamehub.Models.{SaveSpec}
use gamehub.Paths.{FilePath}
use gamehub.Saves.{
  Decision, download, bidirectional, ConflictPolicy, SyncState, lineage_of, classify_save_action,
}
use gamehub.Saves.Converged.{
  three_way, next_decision, record_converged_settles, classify-record_converged,
}
use gamehub.Machine.{Machine}
use gamehub.Exchange.{World, accepted, settle, record_uploaded_save}
use gamehub.Planner.Decide.{
  TimeValue, missed_postexit_upload_reason, normalize_utc_seconds, resolve_save_action,
}
use gamehub.Planner.Decide.Missed.{newer_wins, resolve_save_action-missed}
use gamehub.Session.{record_missed_postexit_upload, Launcher}
use gamehub.Session.Creates.{Session, session_of}
use gamehub.Session.Postexit.{after_update}

module _ (m : Machine) (world : World) where
  -- The decision of the next sync or launch for a save, with what the state holds for it.
  abbrev pub decide_next :
      SyncState → String → String → String → ConflictPolicy → TimeValue → TimeValue → Decision
  decide_next state save_id remote l policy local_updated remote_updated =
      (resolve_save_action m remote (some l) bidirectional policy
        (lineage_of state save_id).local_sha256 (lineage_of state save_id).remote_sha256
        (Dict.lookup save_id state.unresolved_save_conflicts) local_updated remote_updated).0

  abbrev pub missed : String → FilePath → String → SyncState → world.W → SyncState
  missed save_id path sha state env =
      (record_missed_postexit_upload world save_id path sha state env).0

  missed-unresolved :
      (save_id : String) (path : FilePath) (sha : String) (state : SyncState) (env : world.W)
      → Dict.lookup save_id (missed save_id path sha state env).unresolved_save_conflicts
        ≡ some missed_postexit_upload_reason
  unfolding record_missed_postexit_upload
  missed-unresolved save_id path sha state env = Dict.lookup-insert_self save_id _ _

  missed-lineage :
      (save_id : String) (path : FilePath) (sha : String) (state : SyncState) (env : world.W)
      → ((lineage_of (missed save_id path sha state env) save_id).local_sha256 ≡ some sha)
        × ((lineage_of (missed save_id path sha state env) save_id).remote_sha256
            ≡ (lineage_of state save_id).remote_sha256)
  unfolding record_missed_postexit_upload lineage_of
  missed-lineage save_id path sha state env =
      (rw (lineage_of, Dict.lookup-insert_self) refl, rw (lineage_of, Dict.lookup-insert_self) refl)

  decided :
      (unresolved ll lr base_l base_r : Option String) (remote l : String) (policy : ConflictPolicy)
      (local_updated remote_updated : TimeValue) (a b : ℤ)
      → unresolved ≡ some missed_postexit_upload_reason
      → ll ≡ base_l
      → lr ≡ base_r
      → l ≢ remote
      → normalize_utc_seconds m local_updated ≡ some a
      → normalize_utc_seconds m remote_updated ≡ some b
      → (resolve_save_action m remote
          (some l)
          bidirectional
          policy
          ll
          lr
          unresolved
          local_updated
          remote_updated).0
        ≡ newer_wins a b (classify_save_action remote (some l) bidirectional policy base_l base_r).0
  decided unresolved ll lr base_l base_r remote l policy local_updated remote_updated a b hu hl hr
        ne ha hb =
      rw (hu, hl, hr)
        (resolve_save_action-missed m remote l policy base_l base_r local_updated remote_updated a b
          ne ha hb)

  tie : (a : ℤ) (d : Decision) → newer_wins a a d ≡ d
  tie (pos a) d = ground arith
  tie (negsuc a) d = ground arith

  classified :
      (sha remote base : String) (policy : ConflictPolicy) (lr : Option String)
      → lr ≡ some base
      → sha ≢ remote
      → remote ≢ base
      → (classify_save_action remote (some sha) bidirectional policy (some sha) lr).0 ≡ download
  unfolding classify_save_action
  classified sha remote base policy lr e ne moved = rw e (ground arith)

  -- After a missed upload the newer of two copies that differ wins at the next sync or launch, with
  -- both times known, whatever the policy; at equal seconds the decision is that of a save whose
  -- recorded local version is the one that was not uploaded.
  pub missed_upload-newer_wins :
      (save_id : String) (path : FilePath) (sha : String) (state : SyncState) (env : world.W)
      (remote l : String) (policy : ConflictPolicy) (local_updated remote_updated : TimeValue)
      (a b : ℤ)
      → l ≢ remote
      → normalize_utc_seconds m local_updated ≡ some a
      → normalize_utc_seconds m remote_updated ≡ some b
      → decide_next
          (missed save_id path sha state env)
          save_id
          remote
          l
          policy
          local_updated
          remote_updated
        ≡ newer_wins a b
            (classify_save_action remote
              (some l)
              bidirectional
              policy
              (some sha)
              (lineage_of state save_id).remote_sha256).0
  missed_upload-newer_wins save_id path sha state env remote l policy local_updated remote_updated a
        b ne ha hb =
      decided (Dict.lookup save_id (missed save_id path sha state env).unresolved_save_conflicts)
        (lineage_of (missed save_id path sha state env) save_id).local_sha256
        (lineage_of (missed save_id path sha state env) save_id).remote_sha256 (some sha)
        (lineage_of state save_id).remote_sha256 remote l policy local_updated remote_updated a b
        (missed-unresolved save_id path sha state env) (missed-lineage save_id path sha state env).0
        (missed-lineage save_id path sha state env).1 ne ha hb

  -- The same save when its copy has not changed again, both copies are of the same second, and the
  -- server's has moved on from the recorded one: it is downloaded over the copy that was to be
  -- uploaded, under every policy.
  pub missed_upload-lost_at_tie :
      (save_id : String) (path : FilePath) (sha : String) (state : SyncState) (env : world.W)
      (remote base : String) (policy : ConflictPolicy) (local_updated remote_updated : TimeValue)
      (a : ℤ)
      → sha ≢ remote
      → (lineage_of state save_id).remote_sha256 ≡ some base
      → remote ≢ base
      → normalize_utc_seconds m local_updated ≡ some a
      → normalize_utc_seconds m remote_updated ≡ some a
      → decide_next
          (missed save_id path sha state env)
          save_id
          remote
          sha
          policy
          local_updated
          remote_updated
        ≡ download
  missed_upload-lost_at_tie save_id path sha state env remote base policy local_updated
        remote_updated a ne recorded moved ha hb =
      missed_upload-newer_wins save_id path sha state env remote sha policy local_updated
        remote_updated a a ne ha hb
      ∙ tie a _
      ∙ classified sha remote base policy (lineage_of state save_id).remote_sha256 recorded ne moved

module _ (m : Machine) (launcher : Launcher) where
  open launcher use {world}

  -- An upload at the exit that the server accepts settles its save: no conflict is left for it, and
  -- two copies that differ later are decided by the three-way rule against the uploaded version.
  pub after_update-settled :
      (save_id : String) (path : FilePath) (sha sha' : String) (save : SaveSpec) (s : Session world)
      (remote l : String) (policy : ConflictPolicy)
      → world.local_sha s.env path ≡ some sha'
      → l ≢ remote
      → (Dict.lookup save_id
            (session_of world (
              after_update m launcher save_id path sha
                (accepted save)
                s)).state.unresolved_save_conflicts
          ≡ none)
        × (next_decision
              (session_of world (after_update m launcher save_id path sha (accepted save) s)).state
              save_id
              remote
              l
              policy
            ≡ three_way (not (l == sha')) (not (remote == save.sha256)) policy)
  unfolding after_update record_uploaded_save settle
  after_update-settled save_id path sha sha' save s remote l policy there ne =
      rw (there, session_of)
        (
          ground (
            arith,
            (record_converged_settles save_id sha' save.sha256 (world.updated_at s.env path)
                save.updated_at (world.now s.env) s.state save_id).1,
          ),
          classify-record_converged save_id sha' save.sha256 (world.updated_at s.env path)
              save.updated_at (world.now s.env) s.state remote l policy ne,
        )
