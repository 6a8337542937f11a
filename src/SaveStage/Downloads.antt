-- ===== src/SaveStage/Downloads.antt =====
-- A save that was downloaded, and one whose transfer failed.
use gamehub.Prelude.{◌≡◌, ◌≢◌, String, false, not, none, some, ◌==◌, arith}
use gamehub.Prelude.Dict
use gamehub.Paths.{FilePath}
use gamehub.Saves.{download, ConflictPolicy, record_converged_save_state}
use gamehub.Saves.Converged.{
  three_way, next_decision, record_converged_settles, classify-record_converged,
}
use gamehub.Planner.Types.{SavePlanAction}
use gamehub.SaveStage.{Stage, stage_of, after_fetch, download_action, act}
use gamehub.Exchange.{World, settle}

module _ (world : World) where
  downloaded_stage :
      (action : SavePlanAction) (s : Stage world) (path : FilePath) (env : world.W)
      → action.destination ≡ some path
      → world.fetch action.url path action.expected_sha256 s.env ≡ (none, env)
      → (stage_of world (act world false action download s)).state
        ≡ record_converged_save_state action.save_id action.expected_sha256 action.expected_sha256
            (world.updated_at env path)
            action.remote_updated_at
            (world.now env)
            s.state
  unfolding act download_action after_fetch settle
  downloaded_stage action s path env here fetched = rw (here, fetched)

  -- A download that succeeds settles its save: no conflict is left for it, and two copies that
  -- differ later are decided by the three-way rule against the downloaded version.
  pub act-downloaded :
      (action : SavePlanAction) (s : Stage world) (path : FilePath) (env : world.W)
      (remote l : String) (policy : ConflictPolicy)
      → action.destination ≡ some path
      → world.fetch action.url path action.expected_sha256 s.env ≡ (none, env)
      → l ≢ remote
      → let after = (stage_of world (act world false action download s)).state in
        (Dict.lookup action.save_id after.unresolved_save_conflicts ≡ none)
        × (next_decision after action.save_id remote l policy
            ≡ three_way
                (not (l == action.expected_sha256))
                (not (remote == action.expected_sha256))
                policy)
  act-downloaded action s path env remote l policy here fetched ne =
      rw (downloaded_stage action s path env here fetched) (
        ground (
          arith,
          (record_converged_settles action.save_id action.expected_sha256 action.expected_sha256
              (world.updated_at env path) action.remote_updated_at (world.now env) s.state
              action.save_id).1,
        ),
        classify-record_converged action.save_id action.expected_sha256 action.expected_sha256
            (world.updated_at env path) action.remote_updated_at (world.now env) s.state remote l
            policy ne,
      )
