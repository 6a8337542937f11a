-- ===== src/Planner/Create.antt =====
-- `create_sync_plan`: the loops in their order.
use gamehub.Prelude.{Bool, Option, none, some, List}
use gamehub.Models.{SaveBindingSpec, LibraryIndex}
use gamehub.Saves.{SyncState}
use gamehub.Machine.{Machine}
use gamehub.Planner.Types.{SyncPlan, GamehubConfig}
use gamehub.Planner.Files.{plan_files}
use gamehub.Planner.SavePlan.{SaveLocator, plan_saves}

-- `none` is the `ValueError` of a save whose path has no parts.
unfoldable pub create_sync_plan :
    Machine
    → SaveLocator
    → LibraryIndex
    → GamehubConfig
    → SyncState
    → Bool
    → Option (List SaveBindingSpec)
    → Option SyncPlan
create_sync_plan m locator index config state verify save_bindings =
    elim (plan_saves m locator config state save_bindings index.saves) [
      | none ↦ none
      | some actions ↦
          some (record (plan_files m config state verify index) { save_actions = actions })
    ]
