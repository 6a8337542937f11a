-- ===== src/Examples/Stages.antt =====
-- The stages of a sync, on the plans of the small library.
use mathlib.Core.List.{Mem, mem-cons, not-mem-nil}
use mathlib.Core.Logic.Or
use mathlib.Core.List.Perm
use gamehub.Prelude.{
  ◌≡◌, ◌≢◌, refl, ◌+◌, true, false, not, ◌==◌, String, text_ne, length, List, [], ◌∷◌, Option, none,
  some, All, map, ap, arith,
}
use gamehub.Prelude.Dict
use gamehub.Prelude.Dict.{NodupKeys}
use gamehub.Saves.{skip, download, conflict, manual}
use gamehub.Saves.Converged.{next_decision, three_way}
use gamehub.SaveStage.{
  Stage, finished, apply_save_stage, act, download_action, run_actions, stage_of, start,
}
use gamehub.Exchange.{World, accepted}
use gamehub.SaveStage.Account.{apply_save_stage-counts}
use gamehub.SaveStage.DryRun.{SameButConflicts, apply_save_stage-dry}
use gamehub.Saves.SameAt.{SameAt}
use gamehub.SaveStage.Settled.{run_actions-SameAt}
use gamehub.SaveStage.Downloads.{act-downloaded}
use gamehub.Conflicts.{prune_persisted_save_conflicts}
use gamehub.Conflicts.Pruned.{survivor, prune-survivors}
use gamehub.Planner.Types.{PlanAction, SavePlanAction, SyncPlan}
use gamehub.Transfers.{Pool, apply_download_group}
use gamehub.Transfers.Recorded.{IsConsistent, CompletesAll, apply_download_group-records}
use gamehub.Examples.{no_state, save_spec, save_plan_action, plan_of, plan_action}

-- A server that accepts every upload and serves every file.
abbrev pub world : World
world = record {
  W = Unit {0};
  upload = λ url path binding_id suffix expected w. (accepted save_spec, w);
  fetch = λ url path expected w. (none, w);
  local_sha = λ w path. some "local";
  updated_at = λ w path. some "later";
  now = λ w. "now";
}

abbrev stage : Stage world
stage = start world no_state tt

abbrev plan : SyncPlan
plan = plan_of (
    save_plan_action "save_1" download
    ∷ save_plan_action "save_2" skip
    ∷ save_plan_action "save_3" conflict
    ∷ [])

stage_finishes :
    (apply_save_stage world false plan no_state tt).0
    ≡ finished (record { planned = 3; downloaded = 1; uploaded = 0; conflicts = 1; skipped = 1 })
unfolding apply_save_stage run_actions act download_action
stage_finishes = refl

apply_save_stage-counts_example : (3 ≡ length plan.save_actions) × (3 ≡ 1 + 0 + 1 + 1)
apply_save_stage-counts_example =
    apply_save_stage-counts world false plan no_state tt
      (record { planned = 3; downloaded = 1; uploaded = 0; conflicts = 1; skipped = 1 })
      stage_finishes

apply_save_stage-dry_example :
    ((r : _) × ((apply_save_stage world true plan no_state tt).0 ≡ finished r))
    × SameButConflicts (apply_save_stage world true plan no_state tt).1 no_state
    × ((apply_save_stage world true plan no_state tt).2 ≡ tt)
apply_save_stage-dry_example = apply_save_stage-dry world plan no_state tt

others : All (λ (a : SavePlanAction). "save_0123456789abcdef" ≢ a.save_id) plan.save_actions
others = (
  text_ne "save_0123456789abcdef" "save_1" refl,
  (
    text_ne "save_0123456789abcdef" "save_2" refl,
    (text_ne "save_0123456789abcdef" "save_3" refl, tt),
  ),
)

run_actions-SameAt_example :
    SameAt "save_0123456789abcdef"
      (stage_of world (run_actions world false plan.save_actions stage)).state
      no_state
run_actions-SameAt_example =
    run_actions-SameAt "save_0123456789abcdef" world false plan.save_actions stage others

act-downloaded_example :
    (Dict.lookup "save_0123456789abcdef"
        (stage_of world (
          act world false
            (save_plan_action "save_0123456789abcdef" download)
            download
            stage)).state.unresolved_save_conflicts
      ≡ none)
    × (next_decision
          (stage_of world (
            act world false
              (save_plan_action "save_0123456789abcdef" download)
              download
              stage)).state
          "save_0123456789abcdef"
          "remote"
          "played"
          manual
        ≡ three_way (not ("played" == "remote")) (not ("remote" == "remote")) manual)
act-downloaded_example =
    act-downloaded world (save_plan_action "save_0123456789abcdef" download) stage
      ("/" ∷ "saves" ∷ "quest.srm" ∷ []) tt "remote" "played" manual refl refl
      (text_ne "played" "remote" refl)

unique_conflicts : NodupKeys no_state.unresolved_save_conflicts
unique_conflicts = (refl, tt)

prune-survivors_example :
    Dict.lookup "save_0123456789abcdef"
      (prune_persisted_save_conflicts
        (plan_of (save_plan_action "save_0123456789abcdef" skip ∷ []))
        (λ path. none)
        (λ id. "now")
        no_state).1.unresolved_save_conflicts
    ≡ survivor
        (plan_of (save_plan_action "save_0123456789abcdef" skip ∷ []))
        (λ path. none)
        (λ id. "now")
        "save_0123456789abcdef"
        (Dict.lookup "save_0123456789abcdef" no_state.unresolved_save_conflicts)
prune-survivors_example =
    prune-survivors (plan_of (save_plan_action "save_0123456789abcdef" skip ∷ [])) (λ path. none)
      (λ id. "now") "save_0123456789abcdef" no_state unique_conflicts

-- Downloads that all succeed, and complete in the order of the list.
complete_one : PlanAction → PlanAction × Option String
complete_one a = (a, none)

abbrev pool : Pool
pool = record {
  W = Unit {0};
  download_one = λ action w. (none, w);
  as_completed = λ workers actions w. (map complete_one actions, w);
}

completed :
    (actions : List PlanAction)
    → map (λ (e : PlanAction × Option String). e.0) (map complete_one actions) ≡ actions
unfolding complete_one
completed [] = refl
completed (a ∷ actions) = ap (λ rest. a ∷ rest) (completed actions)

pool-CompletesAll : CompletesAll pool
pool-CompletesAll workers actions w = rw (completed actions) (Perm.refl actions)

abbrev pair : List PlanAction
pair = plan_action "file_1" ∷ plan_action "file_2" ∷ []

remote_pair : (a : PlanAction) → Mem a pair → (a.expected_sha256 == "remote") ≡ true
remote_pair a m =
    Or.elim (hlevel) (mem-cons.0 m) (λ e. ground arith)
      (λ m'. Or.elim (hlevel) (mem-cons.0 m') (λ e. ground arith) (λ m''. absurd (not-mem-nil m'')))

pair-IsConsistent : IsConsistent pair
pair-IsConsistent a b ma mb e = ground (arith, remote_pair a ma, remote_pair b mb)

pair_raises_nothing : (apply_download_group pool 4 pair [] tt).error ≡ none
unfolding apply_download_group complete_one
pair_raises_nothing = refl

apply_download_group-records_example :
    Dict.lookup "file_2" (apply_download_group pool 4 pair [] tt).checksums ≡ some "remote"
apply_download_group-records_example =
    apply_download_group-records pool pool-CompletesAll 4 pair [] tt (plan_action "file_2")
      pair-IsConsistent pair_raises_nothing (mem-cons.1 (Or.inr (mem-cons.1 (Or.inl refl))))
