-- ===== src/SaveStage/Account.antt =====
-- Every planned action is counted once.
use gamehub.Prelude.{
  ℕ, ◌+◌, ◌≡◌, Bool, true, false, Option, none, some, List, [], ◌∷◌, length, length-append, arith,
  Option-cases, inl, inr, String, suc,
}
use gamehub.Paths.{FilePath}
use gamehub.Saves.{
  Decision, skip, download, upload_existing, upload_new, conflict, other, SyncState,
}
use gamehub.Planner.Types.{SavePlanAction, SyncPlan}
use gamehub.SaveStage.{
  Tally, Stage, Progress, going, left, SaveStageResult, finished, after_upload, upload_action,
  after_fetch, download_action, act, run_actions, apply_save_stage, conclude, start,
}
use gamehub.Exchange.{
  World, UploadReply, accepted, rejected, failed, absent, invalid, current, record_uploaded_save,
  reconcile_upload_conflict,
}

-- All the actions that a tally counts.
abbrev pub total : Tally → ℕ
total t = t.downloaded + t.uploaded + t.conflicts + t.skipped + length t.failures

module _ (world : World) where
  -- The loop goes on with `n` more actions counted, or it was left.
  abbrev Counts : ℕ → Stage world → Progress world → Type 0
  Counts n s (going s') = total s'.tally ≡ total s.tally + n
  Counts n s (left s') = Unit

  Counts-step :
      (k : ℕ) (s s' : Stage world) (p : Progress world)
      → Counts 1 s (going s')
      → Counts k s' p
      → Counts (suc k) s p
  Counts-step k s s' (going s'') c d = omega (arith, c, d)
  Counts-step k s s' (left s'') c d = tt

  after_upload-Counts :
      (action : SavePlanAction) (path : FilePath) (reply : UploadReply) (s : Stage world)
      → Counts 1 s (after_upload world action path reply s)
  unfolding after_upload
  after_upload-Counts action path (accepted save) s =
      elim (Option-cases (record_uploaded_save world action.save_id path save s.state s.env)) [
        | inl e ↦ rw (e, Counts) (omega (arith, length-append {0} s.tally.failures))
        | inr (state, e) ↦ rw (e, Counts) (omega arith)
      ]
  after_upload-Counts action path (rejected reason absent) s = omega arith
  after_upload-Counts action path (rejected reason invalid) s = tt
  after_upload-Counts action path (rejected reason (current save)) s =
      elim (Option-cases (reconcile_upload_conflict world action.save_id path save s.state s.env)) [
        | inl e ↦ rw (e, Counts) (omega arith)
        | inr (state, e) ↦ rw (e, Counts) (omega arith)
      ]
  after_upload-Counts action path (failed message) s =
      omega (arith, length-append {0} s.tally.failures)

  upload_action-Counts :
      (dry_run : Bool) (action : SavePlanAction) (expected : Option String)
      (destination : Option FilePath) (s : Stage world)
      → Counts 1 s (upload_action world dry_run action expected destination s)
  unfolding upload_action
  upload_action-Counts true action expected destination s = omega arith
  upload_action-Counts false action expected none s =
      omega (arith, length-append {0} s.tally.failures)
  upload_action-Counts false action expected (some path) s = after_upload-Counts action path _ _

  after_fetch-Counts :
      (action : SavePlanAction) (path : FilePath) (failure : Option String) (s : Stage world)
      → Counts 1 s (after_fetch world action path failure s)
  unfolding after_fetch
  after_fetch-Counts action path (some message) s =
      omega (arith, length-append {0} s.tally.failures)
  after_fetch-Counts action path none s = omega arith

  download_action-Counts :
      (dry_run : Bool) (action : SavePlanAction) (destination : Option FilePath) (s : Stage world)
      → Counts 1 s (download_action world dry_run action destination s)
  unfolding download_action
  download_action-Counts true action destination s = omega arith
  download_action-Counts false action none s = omega (arith, length-append {0} s.tally.failures)
  download_action-Counts false action (some path) s = after_fetch-Counts action path _ _

  act-Counts :
      (dry_run : Bool) (action : SavePlanAction) (decision : Decision) (s : Stage world)
      → Counts 1 s (act world dry_run action decision s)
  unfolding act
  act-Counts dry_run action skip s = omega arith
  act-Counts dry_run action upload_existing s = upload_action-Counts dry_run action _ _ s
  act-Counts dry_run action upload_new s = upload_action-Counts dry_run action _ _ s
  act-Counts dry_run action conflict s = omega arith
  act-Counts dry_run action (other d) s = omega arith
  act-Counts dry_run action download s = download_action-Counts dry_run action _ s

  run_actions-Counts :
      (dry_run : Bool) (actions : List SavePlanAction) (s : Stage world)
      → Counts (length actions) s (run_actions world dry_run actions s)
  unfolding run_actions
  run_actions-Counts dry_run [] s = omega arith
  run_actions-Counts dry_run (action ∷ actions) s =
      next (act world dry_run action action.decision s)
        (act-Counts dry_run action action.decision s) (run_actions-Counts dry_run actions)
    where
      next :
          (p : Progress world)
          → Counts 1 s p
          → ((s' : Stage world) → Counts (length actions) s' (run_actions world dry_run actions s'))
          → Counts
              (suc (length actions))
              s
              (elim p [ left s' ↦ left s' | going s' ↦ run_actions world dry_run actions s' ])
      next (left s') c rest = tt
      next (going s') c rest = Counts-step (length actions) s s' _ c (rest s')

  -- A stage that finishes has planned as many actions as it counts as downloaded, uploaded, put in
  -- conflict and skipped: no action is lost and none is counted twice, dry run or not.
  pub apply_save_stage-counts :
      (dry_run : Bool) (plan : SyncPlan) (state : SyncState) (env : world.W) (r : SaveStageResult)
      → (apply_save_stage world dry_run plan state env).0 ≡ finished r
      → (r.planned ≡ length plan.save_actions)
        × (r.planned ≡ r.downloaded + r.uploaded + r.conflicts + r.skipped)
  unfolding apply_save_stage
  apply_save_stage-counts dry_run plan state env r h =
      concluded plan.save_actions _ r
        (run_actions-Counts dry_run plan.save_actions (start world state env)) h
    where
      concluded :
          (actions : List SavePlanAction) (p : Progress world) (r : SaveStageResult)
          → Counts (length actions) (start world state env) p
          → conclude world actions p ≡ finished r
          → (r.planned ≡ length actions)
            × (r.planned ≡ r.downloaded + r.uploaded + r.conflicts + r.skipped)
      concluded actions (left s) r c h = cc
      concluded actions (going s) r c h = ground arith
