-- ===== src/Examples/Plans.antt =====
-- Plans of the small library.
use gamehub.Prelude.{
  ◌≡◌, ◌⊎◌, refl, Bool, true, false, any, length, select, List, [], ◌∷◌, none, some, All,
}
use gamehub.Prelude.Sort.{sort_by}
use gamehub.Saves.{skip, download, bidirectional, download_mode, Mode}
use gamehub.Planner.Types.{SavePlanAction}
use gamehub.Planner.Files.{plan_files, system_map_from}
use gamehub.Planner.Files.Contents.{wanted_titles, is_blocked, plan_files-contents}
use gamehub.Planner.Files.Blocked.{blocked_in, lacks_firmware, plan_files-blocked}
use gamehub.Planner.SavePlan.{
  plan_saves, filtered_out, indexed_save_actions, save_action, canonical_suffix_from_rel_path,
}
use gamehub.Planner.SavePlan.Limits.{plan_saves-disabled}
use gamehub.Planner.SavePlan.Modes.{plan_saves-download_mode, plan_saves-filtered}
use gamehub.Examples.{machine, locator, library, config, no_state, binding_spec, save_spec}

plan_files-contents_example :
    ((plan_files machine (config true bidirectional) no_state false library).content_actions
      ≡ wanted_titles machine
          (config true bidirectional)
          no_state
          false
          (plan_files machine (config true bidirectional) no_state false library).blocked_systems
          library.titles)
    × ((plan_files machine (config true bidirectional) no_state false library).skipped_titles
        ≡ length (
            select
              (is_blocked machine
                (config true bidirectional)
                no_state
                false
                (plan_files machine
                  (config true bidirectional)
                  no_state
                  false
                  library).blocked_systems)
              library.titles))
plan_files-contents_example =
    plan_files-contents machine (config true bidirectional) no_state false library

plan_files-blocked_example :
    blocked_in machine
      (config true bidirectional)
      no_state
      false
      "psx"
      (plan_files machine (config true bidirectional) no_state false library)
    ≡ any
        (lacks_firmware machine (config true bidirectional) no_state false "psx")
        (system_map_from library.systems [])
plan_files-blocked_example =
    plan_files-blocked machine (config true bidirectional) no_state false library "psx"

-- What `plan_saves` returns for the small library.
abbrev planned : Bool → Mode → List SavePlanAction
planned enabled mode =
    elim (plan_saves machine locator (config enabled mode) no_state (some (binding_spec ∷ []))
      (save_spec ∷ [])) [ none ↦ [] | some actions ↦ actions ]

planned_disabled :
    plan_saves machine locator
      (config false bidirectional)
      no_state
      (some (binding_spec ∷ []))
      (save_spec ∷ [])
    ≡ some (planned false bidirectional)
unfolding plan_saves indexed_save_actions sort_by save_action canonical_suffix_from_rel_path
planned_disabled = refl

planned_enabled :
    plan_saves machine locator
      (config true bidirectional)
      no_state
      (some (binding_spec ∷ []))
      (save_spec ∷ [])
    ≡ some (planned true bidirectional)
unfolding plan_saves indexed_save_actions sort_by save_action canonical_suffix_from_rel_path
planned_enabled = refl

planned_download :
    plan_saves machine locator
      (config true download_mode)
      no_state
      (some (binding_spec ∷ []))
      (save_spec ∷ [])
    ≡ some (planned true download_mode)
unfolding plan_saves indexed_save_actions sort_by save_action canonical_suffix_from_rel_path
planned_download = refl

plan_saves-disabled_example : All (λ a. a.decision ≡ skip) (planned false bidirectional)
plan_saves-disabled_example =
    plan_saves-disabled machine locator (config false bidirectional) no_state
      (some (binding_spec ∷ [])) (save_spec ∷ []) (planned false bidirectional) refl
      planned_disabled

plan_saves-download_mode_example :
    All (λ a. (a.decision ≡ skip) ⊎ (a.decision ≡ download)) (planned true download_mode)
plan_saves-download_mode_example =
    plan_saves-download_mode machine locator (config true download_mode) no_state
      (some (binding_spec ∷ [])) (save_spec ∷ []) (planned true download_mode) refl planned_download

plan_saves-filtered_example :
    All
      (λ a.
        (a.decision ≡ skip)
        ⊎ (filtered_out machine locator (config true bidirectional) a.system ≡ false))
      (planned true bidirectional)
plan_saves-filtered_example =
    plan_saves-filtered machine locator (config true bidirectional) no_state
      (some (binding_spec ∷ [])) (save_spec ∷ []) (planned true bidirectional) planned_enabled
