-- ===== src/SaveStage/DryRun.antt =====
-- A dry run transfers nothing.
use gamehub.Prelude.{◌≡◌, refl, ap, ◌∙◌, true, List, [], ◌∷◌, length}
use gamehub.Saves.{Decision, skip, SyncState}
use gamehub.Planner.Types.{SavePlanAction, SyncPlan}
use gamehub.SaveStage.{
  Stage, Progress, going, left, SaveStageResult, finished, upload_action, download_action, act,
  run_actions, conclude, stage_of, start, apply_save_stage,
}
use gamehub.Exchange.{World}

-- The same tables, except for the unresolved conflicts.
abbrev pub SameButConflicts : SyncState → SyncState → Type 0
SameButConflicts a b = a ≡ record b { unresolved_save_conflicts = a.unresolved_save_conflicts }

SameButConflicts-trans :
    (a b c : SyncState) → SameButConflicts a b → SameButConflicts b c → SameButConflicts a c
SameButConflicts-trans a b c h k =
    h
    ∙ ap (λ (t : SyncState). record t { unresolved_save_conflicts = a.unresolved_save_conflicts }) k

module _ (world : World) where
  -- The loop goes on with the same world, no new failure and at most new conflicts.
  abbrev Dry : Stage world → Progress world → Type 0
  Dry s (going s') =
      (s'.env ≡ s.env) × SameButConflicts s'.state s.state × (s'.tally.failures ≡ s.tally.failures)
  Dry s (left s') = ⊥

  act-Dry :
      (action : SavePlanAction) (decision : Decision) (s : Stage world)
      → Dry s (act world true action decision s)
  unfolding act upload_action download_action
  act-Dry action skip s = (refl, refl, refl)
  act-Dry action _ s = (refl, refl, refl)

  run_actions-Dry :
      (actions : List SavePlanAction) (s : Stage world) → Dry s (run_actions world true actions s)
  unfolding run_actions
  run_actions-Dry [] s = (refl, refl, refl)
  run_actions-Dry (action ∷ actions) s =
      next (act world true action action.decision s) (act-Dry action action.decision s)
        (run_actions-Dry actions)
    where
      join : (s' : Stage world) (p : Progress world) → Dry s (going s') → Dry s' p → Dry s p
      join s' (going s'') c d =
          (d.0 ∙ c.0, SameButConflicts-trans s''.state s'.state s.state d.1 c.1, d.2 ∙ c.2)
      join s' (left s'') c d = d

      next :
          (p : Progress world)
          → Dry s p
          → ((s' : Stage world) → Dry s' (run_actions world true actions s'))
          → Dry s (elim p [ left s' ↦ left s' | going s' ↦ run_actions world true actions s' ])
      next (left s') c rest = c
      next (going s') c rest = join s' _ c (rest s')

  -- A dry run always finishes, leaves the world as it is (nothing is uploaded or downloaded) and
  -- changes no table but the one of unresolved conflicts.
  pub apply_save_stage-dry :
      (plan : SyncPlan) (state : SyncState) (env : world.W)
      → let done = apply_save_stage world true plan state env in
        ((r : SaveStageResult) × (done.0 ≡ finished r))
        × SameButConflicts done.1 state
        × (done.2 ≡ env)
  unfolding apply_save_stage conclude
  apply_save_stage-dry plan state env =
      concluded (run_actions world true plan.save_actions (start world state env))
        (run_actions-Dry plan.save_actions (start world state env))
    where
      concluded :
          (p : Progress world)
          → Dry (start world state env) p
          → ((r : SaveStageResult) × (conclude world plan.save_actions p ≡ finished r))
            × SameButConflicts (stage_of world p).state state
            × ((stage_of world p).env ≡ env)
      concluded (left s) d = absurd d
      concluded (going s) d = (
        (
          record {
            planned = length plan.save_actions;
            downloaded = s.tally.downloaded;
            uploaded = s.tally.uploaded;
            conflicts = s.tally.conflicts;
            skipped = s.tally.skipped;
          },
          rw (d.2, conclude),
        ),
        d.1,
        d.0,
      )
