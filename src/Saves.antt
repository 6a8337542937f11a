-- ===== src/Saves.antt =====
-- src/gamehub_cli/common/save_sync.py: what to do with one save, and the record of a sync, with
-- `SyncState` of src/gamehub_cli/sync/state.py, whose tables that record changes.
pub mod Safety
pub mod Converged
pub mod SameAt
use gamehub.Prelude.{
  ℕ, String, Bool, true, false, not, ◌&&◌, ◌||◌, ◌==◌, truthy, is_some, Option, none, some,
  if◌then◌else◌,
}
use gamehub.Prelude.Dict
use gamehub.Prelude.Dict.{Dict}

-- The `decision` of an action; `other` is any text that no branch of the code produces.
pub data Decision : Type 0 where
  skip download upload_existing upload_new conflict : Decision
  other : String → Decision

-- `config.save_sync.mode`
pub data Mode : Type 0 where
  download_mode bidirectional : Mode

-- `config.save_sync.conflict_policy`
pub data ConflictPolicy : Type 0 where
  manual prefer_server prefer_local : ConflictPolicy

-- A decision with its reason.
abbrev pub Outcome : Type 0
Outcome = Decision × String

resolve_conflict_policy_outcome : ConflictPolicy → Outcome → Outcome → Outcome → Outcome
resolve_conflict_policy_outcome prefer_server server local by_hand = server
resolve_conflict_policy_outcome prefer_local server local by_hand = local
resolve_conflict_policy_outcome manual server local by_hand = by_hand

-- `lineage is not None and sha != lineage`
abbrev pub changed : Option String → String → Bool
changed none sha = false
changed (some base) sha = not (sha == base)

-- The rest of `classify_save_action`, once both copies exist and differ and uploads are allowed.
classify_drift : String → String → ConflictPolicy → Option String → Option String → Outcome
unfolding resolve_conflict_policy_outcome
classify_drift save_sha256 local_sha256 policy lineage_local_sha lineage_remote_sha =
    let lineage_present = is_some lineage_local_sha || is_some lineage_remote_sha in
    let local_changed = changed lineage_local_sha local_sha256 in
    let remote_changed = changed lineage_remote_sha save_sha256 in
    if not lineage_present
    then resolve_conflict_policy_outcome policy (download, "lineage-missing-prefer-server")
        (upload_existing, "lineage-missing-prefer-local") (conflict, "lineage-missing-manual")
    else if local_changed && not remote_changed
    then (upload_existing, "local-changed-remote-unchanged")
    else if remote_changed && not local_changed
    then (download, "remote-changed-local-unchanged")
    else if local_changed && remote_changed
    then resolve_conflict_policy_outcome policy (download, "both-changed-prefer-server")
        (upload_existing, "both-changed-prefer-local") (conflict, "both-changed-manual")
    else resolve_conflict_policy_outcome policy (download, "lineage-ambiguous-prefer-server")
        (upload_existing, "lineage-ambiguous-prefer-local") (conflict, "lineage-ambiguous-manual")

unfoldable pub classify_save_action :
    String → Option String → Mode → ConflictPolicy → Option String → Option String → Outcome
unfolding classify_drift
classify_save_action save_sha256 none mode policy lineage_local lineage_remote =
    (download, "local-missing")
classify_save_action save_sha256 (some local_sha256) download_mode policy lineage_local
      lineage_remote =
    if local_sha256 == save_sha256
    then (skip, "already-synced")
    else (skip, "download-mode-local-drift")
classify_save_action save_sha256 (some local_sha256) bidirectional policy lineage_local
      lineage_remote =
    if local_sha256 == save_sha256
    then (skip, "already-synced")
    else classify_drift save_sha256 local_sha256 policy lineage_local lineage_remote

-- A `TypedDict` with `total=False`: each key may be missing.
pub record SaveLineageRecord : Type 0 where
  pub local_sha256 : Option String
  pub remote_sha256 : Option String
  pub local_updated_at : Option String
  pub remote_updated_at : Option String
  pub synced_at : Option String

-- `lineage.get(...)` on `save_lineage.get(save_id, {})`
abbrev pub no_lineage : SaveLineageRecord
no_lineage = record {
  local_sha256 = none;
  remote_sha256 = none;
  local_updated_at = none;
  remote_updated_at = none;
  synced_at = none;
}

-- `value or default`, for a text that may be `None`.
abbrev pub or_text : Option String → String → String
or_text none default = default
or_text (some value) default = if truthy value then value else default

-- `now` is `timestamp_now_utc()`.
unfoldable pub build_save_lineage_record :
    String → String → Option String → String → Option String → String → SaveLineageRecord
build_save_lineage_record local_sha remote_sha local_updated remote_updated synced_at now =
    let synced = or_text synced_at now in
    record {
      local_sha256 = some local_sha;
      remote_sha256 = some remote_sha;
      local_updated_at = some (or_text local_updated synced);
      remote_updated_at = some remote_updated;
      synced_at = some synced;
    }

pub record SaveBindingRootRecord : Type 0 where
  pub canonical_root : String
  pub materialized_root : String

pub record SyncState : Type 0 where
  pub downloaded_checksums : Dict String
  pub firmware_checksums : Dict String
  pub save_checksums : Dict String
  pub save_lineage : Dict SaveLineageRecord
  pub save_binding_roots : Dict SaveBindingRootRecord
  pub offline_shortcut_titles : Dict String
  pub unresolved_save_conflicts : Dict String
  pub last_sync : Option String
  pub bootstrap_version : Option ℕ

-- The three mappings that the callers pass are tables of one `SyncState`.
unfoldable pub record_converged_save_state :
    String → String → String → Option String → String → String → SyncState → SyncState
unfolding build_save_lineage_record
record_converged_save_state save_id local_sha remote_sha local_updated remote_updated now state =
    record state {
      save_checksums = Dict.insert save_id local_sha state.save_checksums;
      save_lineage =
          Dict.insert save_id
            (build_save_lineage_record local_sha remote_sha local_updated remote_updated none now)
            state.save_lineage;
      unresolved_save_conflicts = Dict.erase save_id state.unresolved_save_conflicts;
    }

-- `state.save_lineage.get(save_id, {})`
unfoldable pub lineage_of : SyncState → String → SaveLineageRecord
lineage_of state save_id = elim (Dict.lookup save_id state.save_lineage) [
  | none ↦ no_lineage
  | some lineage ↦ lineage
]
