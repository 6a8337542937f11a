-- ===== src/Planner/Types.antt =====
-- The records of src/gamehub_cli/sync/planner.py, and what it reads of `GamehubConfig`
-- (src/gamehub_cli/common/config.py).
use gamehub.Prelude.{ℕ, ◌+◌, String, Bool, Option, List, [], length}
use gamehub.Prelude.Dict.{Dict}
use gamehub.Models.{SaveKind}
use gamehub.Paths.{FilePath}
use gamehub.Saves.{Decision, Mode, ConflictPolicy}

pub record PlanAction : Type 0 where
  pub kind : String
  pub system : String
  pub label : String
  pub url : String
  pub destination : FilePath
  pub expected_sha256 : String
  pub content_id : String
  pub size_bytes : ℕ

pub record SavePlanAction : Type 0 where
  pub save_id : String
  pub binding_id : String
  pub title_id : String
  pub system : String
  pub kind : SaveKind
  pub decision : Decision
  pub reason : String
  pub url : String
  pub destination : Option FilePath
  pub canonical_suffix : String
  pub expected_sha256 : String
  pub size_bytes : ℕ
  pub remote_updated_at : String
  pub local_sha256 : Option String

pub record SyncPlan : Type 0 where
  pub firmware_actions : List PlanAction
  pub content_actions : List PlanAction
  pub blocked_systems : Dict String
  pub skipped_titles : ℕ
  pub save_actions : List SavePlanAction

abbrev pub empty_plan : SyncPlan
empty_plan = record {
  firmware_actions = [];
  content_actions = [];
  blocked_systems = [];
  skipped_titles = 0;
  save_actions = [];
}

unfoldable pub total_actions : SyncPlan → ℕ
total_actions plan =
    length plan.firmware_actions + length plan.content_actions + length plan.save_actions

pub record SaveSyncConfig : Type 0 where
  pub enabled : Bool
  pub mode : Mode
  pub conflict_policy : ConflictPolicy
  pub systems : List String

pub record GamehubConfig : Type 0 where
  pub library_dir : FilePath
  pub roms_dir : Option FilePath
  pub firmware_dir : FilePath
  pub save_sync : SaveSyncConfig
