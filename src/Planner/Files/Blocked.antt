-- ===== src/Planner/Files/Blocked.antt =====
-- Exactly which systems a plan blocks.
use gamehub.Prelude.{
  ◌≡◌, ap, ◌∙◌, String, Bool, not, ◌&&◌, ◌||◌, ◌==◌, is_some, List, [], ◌∷◌, any, arith,
}
use gamehub.Prelude.Dict
use gamehub.Prelude.Dict.{Dict}
use gamehub.Prelude.Sort.{sort_by, any-sort_by}
use gamehub.Models.{FirmwareSpec, SystemSpec, LibraryIndex}
use gamehub.Saves.{SyncState}
use gamehub.Machine.{Machine}
use gamehub.Planner.Types.{SyncPlan, empty_plan, GamehubConfig}
use gamehub.Planner.Files.Contents.{plan_titles_lem}
use gamehub.Planner.Files.{
  firmware_ok, firmware_step, plan_firmware, plan_systems, system_map_from, plan_files,
}

module _ (m : Machine) (config : GamehubConfig) (state : SyncState) (verify : Bool) where
  -- The firmware is required, and `_firmware_ok` does not accept it.
  abbrev pub required_missing : String → FirmwareSpec → Bool
  required_missing name f = f.required && not (firmware_ok m config state verify name f)

  -- The system lacks a required firmware.
  abbrev pub lacks_firmware : String → String × SystemSpec → Bool
  lacks_firmware wanted (name, system) =
      wanted == name && any (required_missing name) system.firmware

  abbrev pub blocked_in : String → SyncPlan → Bool
  blocked_in wanted plan = is_some (Dict.lookup wanted plan.blocked_systems)

  firmware_step-blocked :
      (wanted name : String) (f : FirmwareSpec) (plan : SyncPlan)
      → blocked_in wanted (firmware_step m config state verify name f plan)
        ≡ (blocked_in wanted plan || (wanted == name && required_missing name f))
  unfolding firmware_step
  firmware_step-blocked wanted name f plan =
      ground
        (arith, Dict.lookup-insert wanted name "Missing required firmware" plan.blocked_systems)

  plan_firmware-blocked :
      (wanted name : String) (fs : List FirmwareSpec) (plan : SyncPlan)
      → blocked_in wanted (plan_firmware m config state verify name fs plan)
        ≡ (blocked_in wanted plan || (wanted == name && any (required_missing name) fs))
  unfolding plan_firmware
  plan_firmware-blocked wanted name [] plan = ground arith
  plan_firmware-blocked wanted name (f ∷ fs) plan = ground (
    arith,
    firmware_step-blocked wanted name f plan,
    plan_firmware-blocked wanted name fs (firmware_step m config state verify name f plan),
  )

  plan_systems-blocked :
      (wanted : String) (entries : Dict SystemSpec) (plan : SyncPlan)
      → blocked_in wanted (plan_systems m config state verify entries plan)
        ≡ (blocked_in wanted plan || any (lacks_firmware wanted) entries)
  unfolding plan_systems
  plan_systems-blocked wanted [] plan = ground arith
  plan_systems-blocked wanted ((name, system) ∷ rest) plan = ground (
    arith,
    plan_firmware-blocked wanted name system.firmware plan,
    plan_systems-blocked wanted rest
        (plan_firmware m config state verify name system.firmware plan),
  )

  -- A system is blocked exactly when the index has it with a required firmware for which
  -- `_firmware_ok` fails: there is no such file here, or verification is on and its checksum is not
  -- the indexed one, or the state remembers a checksum that is not the indexed one.
  pub plan_files-blocked :
      (index : LibraryIndex) (wanted : String)
      → blocked_in wanted (plan_files m config state verify index)
        ≡ any (lacks_firmware wanted) (system_map_from index.systems [])
  unfolding plan_files
  plan_files-blocked index wanted =
      let systems = sort_by (λ (name, _). name ∷ []) (system_map_from index.systems []) in
      let start = plan_systems m config state verify systems empty_plan in
      ap (λ (plan : SyncPlan). blocked_in wanted plan)
        (plan_titles_lem m config state verify index.titles start)
      ∙ plan_systems-blocked wanted systems empty_plan
      ∙ rw Dict.lookup-nil
          (any-sort_by _ (lacks_firmware wanted) (system_map_from index.systems []))
