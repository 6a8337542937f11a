-- ===== src/SaveStage.antt =====
-- src/gamehub_cli/sync/save_stage.py: the save actions of a plan, carried out one after the other.
-- What the stage prints is left out.
pub mod Account
pub mod DryRun
pub mod Settled
pub mod Downloads
use gamehub.Prelude.{
  ℕ, ◌+◌, String, Bool, true, false, ◌==◌, Option, none, some, List, [], ◌∷◌, ◌++◌, length,
  if◌then◌else◌,
}
use gamehub.Prelude.Dict
use gamehub.Models.{SaveSpec}
use gamehub.Paths.{FilePath}
use gamehub.Saves.{
  Decision, skip, download, upload_existing, upload_new, conflict, other, SyncState,
  record_converged_save_state,
}
use gamehub.Exchange.{
  CurrentPayload, absent, invalid, current, UploadReply, accepted, rejected, failed, World, settle,
  record_uploaded_save, reconcile_upload_conflict,
}
use gamehub.Planner.Types.{SavePlanAction, SyncPlan}

pub record Tally : Type 0 where
  pub downloaded : ℕ
  pub uploaded : ℕ
  pub conflicts : ℕ
  pub skipped : ℕ
  pub failures : List (String × String)

abbrev pub no_tally : Tally
no_tally = record { downloaded = 0; uploaded = 0; conflicts = 0; skipped = 0; failures = [] }

pub record SaveStageResult : Type 0 where
  pub planned : ℕ
  pub downloaded : ℕ
  pub uploaded : ℕ
  pub conflicts : ℕ
  pub skipped : ℕ

-- `SaveStageError` with its failures; `crashed` is an exception that no handler of the stage sees.
pub data StageOutcome : Type 0 where
  finished : SaveStageResult → StageOutcome
  save_stage_error : List (String × String) → StageOutcome
  crashed : StageOutcome

module _ (world : World) where
  open world use {W, upload, fetch}

  pub record Stage : Type 0 where
    pub state : SyncState
    pub tally : Tally
    pub env : W

  -- The loop goes on, or an exception leaves it.
  pub data Progress : Type 0 where
    going left : Stage → Progress

  abbrev pub stage_of : Progress → Stage
  stage_of (going s) = s
  stage_of (left s) = s

  abbrev pub count_download : Tally → Tally
  count_download t = record t { downloaded = t.downloaded + 1 }

  abbrev pub count_upload : Tally → Tally
  count_upload t = record t { uploaded = t.uploaded + 1 }

  abbrev pub count_conflict : Tally → Tally
  count_conflict t = record t { conflicts = t.conflicts + 1 }

  abbrev pub count_skip : Tally → Tally
  count_skip t = record t { skipped = t.skipped + 1 }

  abbrev pub add_failure : String → String → Tally → Tally
  add_failure save_id message t = record t { failures = t.failures ++ (save_id, message) ∷ [] }

  abbrev note_conflict : SavePlanAction → String → Stage → Stage
  note_conflict action reason s = record s {
    state = record s.state {
      unresolved_save_conflicts =
          Dict.insert action.save_id reason s.state.unresolved_save_conflicts;
    };
    tally = count_conflict s.tally;
  }

  abbrev note_failure : SavePlanAction → String → Stage → Stage
  note_failure action message s = record s { tally = add_failure action.save_id message s.tally }

  -- The `try` with its handlers, on the reply.
  unfoldable pub after_upload : SavePlanAction → FilePath → UploadReply → Stage → Progress
  after_upload action path (accepted save) s =
      elim (record_uploaded_save world action.save_id path save s.state s.env) [
        | none ↦ going (note_failure action "Uploaded save missing after local upload" s)
        | some state ↦ going (record s { state = state; tally = count_upload s.tally })
      ]
  after_upload action path (rejected reason absent) s = going (note_conflict action reason s)
  after_upload action path (rejected reason invalid) s = left s
  after_upload action path (rejected reason (current save)) s =
      elim (reconcile_upload_conflict world action.save_id path save s.state s.env) [
        | none ↦ going (note_conflict action reason s)
        | some state ↦ going (record s { state = state; tally = count_upload s.tally })
      ]
  after_upload action path (failed message) s = going (note_failure action message s)

  unfoldable pub upload_action :
      Bool → SavePlanAction → Option String → Option FilePath → Stage → Progress
  upload_action true action expected destination s =
      going (record s { tally = count_upload s.tally })
  upload_action false action expected none s = going (note_failure action "save-path-unavailable" s)
  upload_action false action expected (some path) s =
      let (reply, env) =
        upload action.url path action.binding_id action.canonical_suffix expected s.env in
      after_upload action path reply (record s { env = env })

  after_fetch : SavePlanAction → FilePath → Option String → Stage → Progress
  unfolding settle
  after_fetch action path (some message) s = going (note_failure action message s)
  after_fetch action path none s = going (record s {
    state =
        settle world action.save_id path action.expected_sha256 action.expected_sha256
          action.remote_updated_at s.state s.env;
    tally = count_download s.tally;
  })

  unfoldable pub download_action : Bool → SavePlanAction → Option FilePath → Stage → Progress
  unfolding after_fetch
  download_action true action destination s = going (record s { tally = count_download s.tally })
  download_action false action none s = going (note_failure action "save-path-unavailable" s)
  download_action false action (some path) s =
      let (failure, env) = fetch action.url path action.expected_sha256 s.env in
      after_fetch action path failure (record s { env = env })

  -- The body of the loop over `plan.save_actions`.
  unfoldable pub act : Bool → SavePlanAction → Decision → Stage → Progress
  act dry_run action skip s = going (record s { tally = count_skip s.tally })
  act dry_run action upload_existing s =
      upload_action dry_run action (some action.expected_sha256) action.destination s
  act dry_run action upload_new s = upload_action dry_run action none action.destination s
  act dry_run action conflict s = going (note_conflict action action.reason s)
  act dry_run action (other d) s = going (record s { tally = count_skip s.tally })
  act dry_run action download s = download_action dry_run action action.destination s

  unfoldable pub run_actions : Bool → List SavePlanAction → Stage → Progress
  run_actions dry_run [] s = going s
  run_actions dry_run (action ∷ actions) s = elim (act dry_run action action.decision s) [
    | left s' ↦ left s'
    | going s' ↦ run_actions dry_run actions s'
  ]

  conclude : List SavePlanAction → Progress → StageOutcome
  conclude actions (left s) = crashed
  conclude actions (going s) = elim s.tally.failures [
    | [] ↦ finished (record {
      planned = length actions;
      downloaded = s.tally.downloaded;
      uploaded = s.tally.uploaded;
      conflicts = s.tally.conflicts;
      skipped = s.tally.skipped;
    })
    | f ∷ fs ↦ save_stage_error (f ∷ fs)
  ]

  abbrev pub start : SyncState → W → Stage
  start state env = record { state = state; tally = no_tally; env = env }

  unfoldable pub apply_save_stage : Bool → SyncPlan → SyncState → W → StageOutcome × SyncState × W
  unfolding conclude
  apply_save_stage dry_run plan state env =
      let done = run_actions dry_run plan.save_actions (start state env) in
      (conclude plan.save_actions done, (stage_of done).state, (stage_of done).env)
