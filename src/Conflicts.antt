-- ===== src/Conflicts.antt =====
-- src/gamehub_cli/sync/save_conflicts.py: which persisted conflicts are still actionable, and the
-- removal of the others.
pub mod Pruned
use gamehub.Prelude.{
  String, Bool, true, false, ◌&&◌, ◌||◌, ◌==◌, is_empty, all, select, Option, none, some, List, [],
  ◌∷◌, ◌++◌, if◌then◌else◌,
}
use gamehub.Prelude.Dict
use gamehub.Prelude.Dict.{Dict}
use gamehub.Prelude.Sort.{sort_by}
use gamehub.Prelude.Text.{starts_with}
use gamehub.Paths.{FilePath}
use gamehub.Saves.{Decision, skip, or_text, SyncState, record_converged_save_state}
use gamehub.Planner.Types.{SavePlanAction, SyncPlan}
use gamehub.Planner.Decide.{missed_postexit_upload_reason}

pub data PersistedConflictScope : Type 0 where
  save binding : PersistedConflictScope

pub record PersistedConflictRecord : Type 0 where
  pub conflict_id : String
  pub reason : String
  pub scope : PersistedConflictScope

pub record PersistedConflictCleanupCandidate : Type 0 where
  pub conflict_id : String
  pub reason : String
  pub scope : PersistedConflictScope
  pub action : Option SavePlanAction

pub record PersistedConflictClassification : Type 0 where
  pub actionable_save_conflicts : List PersistedConflictRecord
  pub actionable_binding_conflicts : List PersistedConflictRecord
  pub cleanup_candidates : List PersistedConflictCleanupCandidate

unfoldable pub actionable_conflicts : PersistedConflictClassification → List PersistedConflictRecord
actionable_conflicts c = c.actionable_save_conflicts ++ c.actionable_binding_conflicts

unfoldable pub conflict_scope : String → String → PersistedConflictScope
conflict_scope conflict_id reason =
    if reason == "save-binding-root-ambiguous" || starts_with conflict_id "savebind_"
    then binding
    else save

unfoldable pub is_transient_orphan_save_reason : String → Bool
is_transient_orphan_save_reason reason =
    starts_with reason "create-race-"
    || reason == missed_postexit_upload_reason
    || reason == "remote-changed-during-session"

abbrev is_skip : Decision → Bool
is_skip skip = true
is_skip _ = false

-- `action.decision == "skip" and action.reason == "already-synced"`
abbrev already_synced : SavePlanAction → Bool
already_synced action = is_skip action.decision && action.reason == "already-synced"

-- What becomes of one conflict.
pub data Verdict : Type 0 where
  keep_save keep_binding : Verdict
  cleanup : Option SavePlanAction → Verdict

-- `{action.save_id: action for action in plan.save_actions}`
unfoldable pub actions_by_save_id : List SavePlanAction → Dict SavePlanAction → Dict SavePlanAction
actions_by_save_id [] d = d
actions_by_save_id (a ∷ actions) d = actions_by_save_id actions (Dict.insert a.save_id a d)

module _ (plan : SyncPlan) where
  -- `actions_by_binding_id.get(conflict_id, [])`
  abbrev binding_actions : String → List SavePlanAction
  binding_actions conflict_id = select (λ a. a.binding_id == conflict_id) plan.save_actions

  save_verdict : String → Option SavePlanAction → Verdict
  unfolding is_transient_orphan_save_reason
  save_verdict reason none =
      if is_transient_orphan_save_reason reason then cleanup none else keep_save
  save_verdict reason (some action) =
      if already_synced action then cleanup (some action) else keep_save

  -- The body of the loop, by its branches.
  unfoldable pub verdict : String → String → Verdict
  unfolding conflict_scope save_verdict
  verdict conflict_id reason = elim (conflict_scope conflict_id reason) [
    | binding ↦
        if is_empty (binding_actions conflict_id)
          || all already_synced (binding_actions conflict_id)
        then cleanup none
        else keep_binding
    | save ↦ save_verdict reason (Dict.lookup conflict_id (actions_by_save_id plan.save_actions []))
  ]

  file_under :
      String → String → Verdict → PersistedConflictClassification → PersistedConflictClassification
  file_under conflict_id reason keep_save c = record c {
    actionable_save_conflicts =
        c.actionable_save_conflicts
        ++ record { conflict_id = conflict_id; reason = reason; scope = save } ∷ [];
  }
  file_under conflict_id reason keep_binding c = record c {
    actionable_binding_conflicts =
        c.actionable_binding_conflicts
        ++ record { conflict_id = conflict_id; reason = reason; scope = binding } ∷ [];
  }
  file_under conflict_id reason (cleanup action) c = record c {
    cleanup_candidates =
        c.cleanup_candidates
        ++ record {
          conflict_id = conflict_id;
          reason = reason;
          scope = conflict_scope conflict_id reason;
          action = action;
        }
          ∷ [];
  }

  unfoldable pub classify_items :
      Dict String → PersistedConflictClassification → PersistedConflictClassification
  unfolding verdict file_under
  classify_items [] c = c
  classify_items ((conflict_id, reason) ∷ items) c =
      classify_items items (file_under conflict_id reason (verdict conflict_id reason) c)

  unfoldable pub classify_persisted_save_conflicts : SyncState → PersistedConflictClassification
  unfolding classify_items
  classify_persisted_save_conflicts state =
      classify_items
        (sort_by (λ (conflict_id, reason). conflict_id ∷ reason ∷ [])
          state.unresolved_save_conflicts)
        (record {
          actionable_save_conflicts = [];
          actionable_binding_conflicts = [];
          cleanup_candidates = [];
        })

  -- `updated_at` is `local_file_updated_at`, `now` the clock when a conflict is settled.
  module _ (updated_at : FilePath → Option String) (now : String → String) where
    settle_action : String → SavePlanAction → Option FilePath → SyncState → SyncState
    settle_action conflict_id action none state = record state {
      unresolved_save_conflicts = Dict.erase conflict_id state.unresolved_save_conflicts;
    }
    settle_action conflict_id action (some destination) state =
        record_converged_save_state conflict_id (or_text action.local_sha256 action.expected_sha256)
          action.expected_sha256 (updated_at destination) action.remote_updated_at (now conflict_id)
          state

    prune_one : String → Option SavePlanAction → SyncState → SyncState
    unfolding settle_action
    prune_one conflict_id none state = record state {
      unresolved_save_conflicts = Dict.erase conflict_id state.unresolved_save_conflicts;
    }
    prune_one conflict_id (some action) state =
        settle_action conflict_id action action.destination state

    unfoldable pub prune_candidates : List PersistedConflictCleanupCandidate → SyncState → SyncState
    unfolding prune_one
    prune_candidates [] state = state
    prune_candidates (candidate ∷ candidates) state =
        prune_candidates candidates (prune_one candidate.conflict_id candidate.action state)

    unfoldable pub prune_persisted_save_conflicts :
        SyncState → PersistedConflictClassification × SyncState
    unfolding prune_candidates
    prune_persisted_save_conflicts state =
        let classification = classify_persisted_save_conflicts state in
        (classification, prune_candidates classification.cleanup_candidates state)
