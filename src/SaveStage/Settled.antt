-- ===== src/SaveStage/Settled.antt =====
-- What the stage does to the tables of one save.
use gamehub.Prelude.{
  ◌≢◌, inl, inr, String, Bool, true, false, Option, none, some, List, [], ◌∷◌, All, Option-cases,
}
use gamehub.Paths.{FilePath}
use gamehub.Saves.{Decision, skip, download, upload_existing, upload_new, conflict, other}
use gamehub.Planner.Types.{SavePlanAction}
use gamehub.Saves.SameAt.{SameAt, SameAt-refl, SameAt-trans, note-SameAt}
use gamehub.Exchange.Settled.{
  settle-SameAt, record_uploaded_save-SameAt, reconcile_upload_conflict-SameAt,
}
use gamehub.Exchange.{
  World, UploadReply, accepted, rejected, failed, absent, invalid, current, record_uploaded_save,
  reconcile_upload_conflict,
}
use gamehub.SaveStage.{
  note_conflict, Stage, Progress, going, left, stage_of, after_upload, upload_action, after_fetch,
  download_action, act, run_actions,
}

module _ (k : String) (world : World) where
  note_conflict-SameAt :
      (action : SavePlanAction) (reason : String) (s : Stage world)
      → k ≢ action.save_id
      → SameAt k (note_conflict world action reason s).state s.state
  note_conflict-SameAt action reason s ne = note-SameAt k action.save_id reason s.state ne

  after_upload-SameAt :
      (action : SavePlanAction) (path : FilePath) (reply : UploadReply) (s : Stage world)
      → k ≢ action.save_id
      → SameAt k (stage_of world (after_upload world action path reply s)).state s.state
  unfolding after_upload
  after_upload-SameAt action path (accepted save) s ne =
      elim (Option-cases (record_uploaded_save world action.save_id path save s.state s.env)) [
        | inl e ↦ rw (e, stage_of) (SameAt-refl k s.state)
        | inr (state, e) ↦
            rw (e, stage_of)
              (record_uploaded_save-SameAt k world action.save_id path save s.state s.env state ne
                e)
      ]
  after_upload-SameAt action path (rejected reason absent) s ne =
      note_conflict-SameAt action reason s ne
  after_upload-SameAt action path (rejected reason invalid) s ne = SameAt-refl k s.state
  after_upload-SameAt action path (rejected reason (current save)) s ne =
      elim (Option-cases (reconcile_upload_conflict world action.save_id path save s.state s.env)) [
        | inl e ↦ rw (e, stage_of) (note_conflict-SameAt action reason s ne)
        | inr (state, e) ↦
            rw (e, stage_of)
              (reconcile_upload_conflict-SameAt k world action.save_id path save s.state s.env state
                ne e)
      ]
  after_upload-SameAt action path (failed message) s ne = SameAt-refl k s.state

  upload_action-SameAt :
      (dry_run : Bool) (action : SavePlanAction) (expected : Option String)
      (destination : Option FilePath) (s : Stage world)
      → k ≢ action.save_id
      → SameAt k
          (stage_of world (upload_action world dry_run action expected destination s)).state
          s.state
  unfolding upload_action
  upload_action-SameAt true action expected destination s ne = SameAt-refl k s.state
  upload_action-SameAt false action expected none s ne = SameAt-refl k s.state
  upload_action-SameAt false action expected (some path) s ne =
      let answer =
        world.upload action.url path action.binding_id action.canonical_suffix expected s.env in
      after_upload-SameAt action path answer.0 (record s { env = answer.1 }) ne

  after_fetch-SameAt :
      (action : SavePlanAction) (path : FilePath) (failure : Option String) (s : Stage world)
      → k ≢ action.save_id
      → SameAt k (stage_of world (after_fetch world action path failure s)).state s.state
  unfolding after_fetch
  after_fetch-SameAt action path (some message) s ne = SameAt-refl k s.state
  after_fetch-SameAt action path none s ne =
      settle-SameAt k world action.save_id path _ _ _ s.state s.env ne

  download_action-SameAt :
      (dry_run : Bool) (action : SavePlanAction) (destination : Option FilePath) (s : Stage world)
      → k ≢ action.save_id
      → SameAt k (stage_of world (download_action world dry_run action destination s)).state s.state
  unfolding download_action
  download_action-SameAt true action destination s ne = SameAt-refl k s.state
  download_action-SameAt false action none s ne = SameAt-refl k s.state
  download_action-SameAt false action (some path) s ne =
      let answer = world.fetch action.url path action.expected_sha256 s.env in
      after_fetch-SameAt action path answer.0 (record s { env = answer.1 }) ne

  act-SameAt :
      (dry_run : Bool) (action : SavePlanAction) (decision : Decision) (s : Stage world)
      → k ≢ action.save_id
      → SameAt k (stage_of world (act world dry_run action decision s)).state s.state
  unfolding act
  act-SameAt dry_run action skip s ne = SameAt-refl k s.state
  act-SameAt dry_run action upload_existing s ne = upload_action-SameAt dry_run action _ _ s ne
  act-SameAt dry_run action upload_new s ne = upload_action-SameAt dry_run action _ _ s ne
  act-SameAt dry_run action conflict s ne = note_conflict-SameAt action action.reason s ne
  act-SameAt dry_run action (other d) s ne = SameAt-refl k s.state
  act-SameAt dry_run action download s ne = download_action-SameAt dry_run action _ s ne

  -- Whatever the network answers, the stage leaves the checksum, the lineage and the conflict of
  -- a save alone that is not among its actions.
  pub run_actions-SameAt :
      (dry_run : Bool) (actions : List SavePlanAction) (s : Stage world)
      → All (λ a. k ≢ a.save_id) actions
      → SameAt k (stage_of world (run_actions world dry_run actions s)).state s.state
  unfolding run_actions
  run_actions-SameAt dry_run [] s h = SameAt-refl k s.state
  run_actions-SameAt dry_run (action ∷ actions) s h =
      next (act world dry_run action action.decision s)
        (act-SameAt dry_run action action.decision s h.0)
        (λ s'. run_actions-SameAt dry_run actions s' h.1)
    where
      next :
          (p : Progress world)
          → SameAt k (stage_of world p).state s.state
          → ((s' : Stage world)
              → SameAt k (stage_of world (run_actions world dry_run actions s')).state s'.state)
          → SameAt k
              (stage_of world (elim p [
                | left s' ↦ left s'
                | going s' ↦ run_actions world dry_run actions s'
              ])).state
              s.state
      next (left s') c rest = c
      next (going s') c rest = SameAt-trans k (rest s') c
