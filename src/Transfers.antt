-- ===== src/Transfers.antt =====
-- src/gamehub_cli/sync/transfer_stage.py: the downloads of a plan, one after the other or by a pool
-- of threads. The transfers themselves are `Downloads`' (here a parameter), and so is the order in
-- which the pool's transfers complete. Printing is left out.
pub mod Recorded
use gamehub.Prelude.{
  ℕ, String, Bool, true, false, max, min, leb, is_empty, Option, none, some, List, [], ◌∷◌, length,
  if◌then◌else◌,
}
use gamehub.Prelude.Dict
use gamehub.Prelude.Dict.{Dict}
use gamehub.Saves.{SyncState}
use gamehub.Planner.Types.{PlanAction, SyncPlan}

-- `_download_one` and the thread pool, over a state of the world.
pub record Pool : Type 1 where
  pub W : Type 0
  -- the text of the exception, if the download raises one
  pub download_one : PlanAction → W → Option String × W
  -- every submitted action with its result, as `as_completed` yields them
  pub as_completed : ℕ → List PlanAction → W → List (PlanAction × Option String) × W

-- `state_checksums[action.content_id] = action.expected_sha256`
abbrev pub record_checksum : PlanAction → Dict String → Dict String
record_checksum action checksums = Dict.insert action.content_id action.expected_sha256 checksums

-- The loop over completed futures; `future.result()` raises what the download raised.
unfoldable pub collect :
    List (PlanAction × Option String) → Dict String → Option String × Dict String
collect [] checksums = (none, checksums)
collect ((action, some error) ∷ rest) checksums = (some error, checksums)
collect ((action, none) ∷ rest) checksums = collect rest (record_checksum action checksums)

module _ (pool : Pool) where
  -- The error that leaves the group, the checksums and the world.
  abbrev pub Group : Type 0
  Group = record { error : Option String; checksums : Dict String; world : pool.W }

  unfoldable pub one_by_one : List PlanAction → Dict String → pool.W → Group
  one_by_one [] checksums w = record { error = none; checksums = checksums; world = w }
  one_by_one (action ∷ actions) checksums w =
      let answer = pool.download_one action w in
      let rest = one_by_one actions (record_checksum action checksums) answer.1 in
      elim answer.0 [
        | some error ↦ record { error = some error; checksums = checksums; world = answer.1 }
        | none ↦ rest
      ]

  in_parallel : ℕ → List PlanAction → Dict String → pool.W → Group
  unfolding collect
  in_parallel workers actions checksums w =
      let completed = pool.as_completed workers actions w in
      let collected = collect completed.0 checksums in
      record { error = collected.0; checksums = collected.1; world = completed.1 }

  unfoldable pub apply_download_group : ℕ → List PlanAction → Dict String → pool.W → Group
  unfolding one_by_one in_parallel
  apply_download_group max_parallel_downloads actions checksums w =
      let workers = min (max 1 max_parallel_downloads) (length actions) in
      if is_empty actions
      then record { error = none; checksums = checksums; world = w }
      else if leb workers 1
      then one_by_one actions checksums w
      else in_parallel workers actions checksums w

  -- Firmware first: an error there leaves the content alone.
  unfoldable pub apply_downloads :
      ℕ → SyncPlan → SyncState → pool.W → Option String × SyncState × pool.W
  apply_downloads max_parallel_downloads plan state w =
      let firmware =
        apply_download_group max_parallel_downloads plan.firmware_actions state.firmware_checksums
          w in
      let content =
        apply_download_group max_parallel_downloads plan.content_actions state.downloaded_checksums
          firmware.world in
      elim firmware.error [
        | some error ↦
            (some error, record state { firmware_checksums = firmware.checksums }, firmware.world)
        | none ↦ (
          content.error,
          record state {
            firmware_checksums = firmware.checksums;
            downloaded_checksums = content.checksums;
          },
          content.world,
        )
      ]
