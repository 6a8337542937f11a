-- ===== src/Planner/Files/Contents.antt =====
-- Exactly which ROMs and assets a plan downloads.
use mathlib.Core.List.{append-nil, append_assoc}
use native.Mathlib.Nat.{add-zero}
use gamehub.Prelude.{
  ◌+◌, ◌≡◌, refl, ap, ◌∙◌, String, Bool, not, inl, inr, is_some, List, [], ◌∷◌, ◌++◌, map, select,
  length, arith, Bool-cases, if◌then◌else◌,
}
use gamehub.Prelude.Dict
use gamehub.Prelude.Dict.{Dict}
use gamehub.Prelude.Sort.{sort_by}
use gamehub.Models.{FirmwareSpec, SystemSpec, AssetSpec, TitleEntry, LibraryIndex}
use gamehub.Saves.{SyncState}
use gamehub.Machine.{Machine}
use gamehub.Planner.Types.{PlanAction, SyncPlan, empty_plan, GamehubConfig}
use gamehub.Planner.Files.{
  rom_ok, rom_action, asset_ok, asset_action, plan_assets, title_step, plan_titles, plan_systems,
  plan_files, firmware_step, plan_firmware, system_map_from,
}

module _ (m : Machine) (config : GamehubConfig) (state : SyncState) (verify : Bool) where
  abbrev wanted_assets : TitleEntry → List AssetSpec → List PlanAction
  wanted_assets title assets =
      map (asset_action m config state verify title)
        (select (λ asset. not (asset_ok m config state verify asset)) assets)

  -- The downloads for one title: its ROM and its assets, as far as they are not up to date.
  abbrev pub wanted : TitleEntry → List PlanAction
  wanted title =
      (if rom_ok m config state verify title
        then []
        else rom_action m config state verify title ∷ [])
      ++ wanted_assets title title.assets

  abbrev pub is_blocked : Dict String → TitleEntry → Bool
  is_blocked blocked title = is_some (Dict.lookup title.system blocked)

  -- The downloads for a library, without the titles of blocked systems.
  abbrev pub wanted_titles : Dict String → List TitleEntry → List PlanAction
  wanted_titles blocked [] = []
  wanted_titles blocked (title ∷ titles) =
      (if is_blocked blocked title then [] else wanted title) ++ wanted_titles blocked titles

  plan_assets_lem :
      (title : TitleEntry) (assets : List AssetSpec) (plan : SyncPlan)
      → plan_assets m config state verify title assets plan
        ≡ record plan { content_actions = plan.content_actions ++ wanted_assets title assets }
  unfolding plan_assets
  plan_assets_lem title [] plan = rw append-nil
  plan_assets_lem title (asset ∷ assets) plan =
      elim (Bool-cases (asset_ok m config state verify asset)) [
        | inl e ↦ rw e (plan_assets_lem title assets plan)
        | inr e ↦ rw e (plan_assets_lem title assets _ ∙ rw append_assoc)
      ]

  title_step_lem :
      (title : TitleEntry) (plan : SyncPlan)
      → title_step m config state verify title plan ≡ (
          if is_blocked plan.blocked_systems title
          then record plan { skipped_titles = plan.skipped_titles + 1 }
          else record plan { content_actions = plan.content_actions ++ wanted title })
  unfolding title_step
  title_step_lem title plan = elim (Bool-cases (rom_ok m config state verify title)) [
    | inl e ↦ rw (e, plan_assets_lem title title.assets)
    | inr e ↦ rw (e, plan_assets_lem title title.assets, append_assoc)
  ]

  pub plan_titles_lem :
      (titles : List TitleEntry) (plan : SyncPlan)
      → plan_titles m config state verify titles plan ≡ record plan {
        content_actions = plan.content_actions ++ wanted_titles plan.blocked_systems titles;
        skipped_titles =
            plan.skipped_titles + length (select (is_blocked plan.blocked_systems) titles);
      }
  unfolding plan_titles
  plan_titles_lem [] plan = rw (append-nil, add-zero)
  plan_titles_lem (title ∷ titles) plan =
      elim (Bool-cases (is_blocked plan.blocked_systems title)) [
        | inl e ↦ rw (title_step_lem, e) (plan_titles_lem titles _ ∙ ground arith)
        | inr e ↦ rw (title_step_lem, e) (plan_titles_lem titles _ ∙ rw append_assoc)
      ]

  firmware_step-frame :
      (name : String) (f : FirmwareSpec) (plan : SyncPlan)
      → let after = firmware_step m config state verify name f plan in
        (after.content_actions ≡ plan.content_actions)
        × (after.skipped_titles ≡ plan.skipped_titles)
  unfolding firmware_step
  firmware_step-frame name f plan = ground arith

  plan_firmware-frame :
      (name : String) (fs : List FirmwareSpec) (plan : SyncPlan)
      → let after = plan_firmware m config state verify name fs plan in
        (after.content_actions ≡ plan.content_actions)
        × (after.skipped_titles ≡ plan.skipped_titles)
  unfolding plan_firmware
  plan_firmware-frame name [] plan = (refl, refl)
  plan_firmware-frame name (f ∷ fs) plan =
      let here = firmware_step-frame name f plan in
      let next = plan_firmware-frame name fs (firmware_step m config state verify name f plan) in
      (next.0 ∙ here.0, next.1 ∙ here.1)

  plan_systems-frame :
      (entries : Dict SystemSpec) (plan : SyncPlan)
      → let after = plan_systems m config state verify entries plan in
        (after.content_actions ≡ plan.content_actions)
        × (after.skipped_titles ≡ plan.skipped_titles)
  unfolding plan_systems
  plan_systems-frame [] plan = (refl, refl)
  plan_systems-frame ((name, system) ∷ rest) plan =
      let here = plan_firmware-frame name system.firmware plan in
      let next =
        plan_systems-frame rest (plan_firmware m config state verify name system.firmware plan) in
      (next.0 ∙ here.0, next.1 ∙ here.1)

  plan_titles_fresh :
      (titles : List TitleEntry) (plan : SyncPlan)
      → plan.content_actions ≡ []
      → plan.skipped_titles ≡ 0
      → let after = plan_titles m config state verify titles plan in
        (after.content_actions ≡ wanted_titles after.blocked_systems titles)
        × (after.skipped_titles ≡ length (select (is_blocked after.blocked_systems) titles))
  plan_titles_fresh titles plan none_yet none_skipped = rw (plan_titles_lem titles plan) (
    ap (λ done. done ++ wanted_titles plan.blocked_systems titles) none_yet,
    omega (arith, none_skipped),
  )

  -- The plan downloads, in the order of the index, exactly the ROMs and assets that are not up to
  -- date of the titles whose system is not blocked, and counts exactly the titles of blocked
  -- systems as skipped.
  pub plan_files-contents :
      (index : LibraryIndex)
      → let plan = plan_files m config state verify index in
        (plan.content_actions ≡ wanted_titles plan.blocked_systems index.titles)
        × (plan.skipped_titles ≡ length (select (is_blocked plan.blocked_systems) index.titles))
  unfolding plan_files
  plan_files-contents index =
      let systems = sort_by (λ (name, _). name ∷ []) (system_map_from index.systems []) in
      let start = plan_systems-frame systems empty_plan in
      plan_titles_fresh index.titles (plan_systems m config state verify systems empty_plan) start.0
        start.1
