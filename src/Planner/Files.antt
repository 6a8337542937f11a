-- ===== src/Planner/Files.antt =====
-- Firmware, ROMs and assets: the first two loops of `create_sync_plan`. The plan that Python
-- mutates is passed along.
pub mod Contents
pub mod Blocked
use gamehub.Prelude.{
  ℕ, ◌+◌, String, ◌<>◌, Bool, true, false, not, ◌&&◌, ◌==◌, nat_eq, is_some, Option, none, some,
  List, [], ◌∷◌, ◌++◌, if◌then◌else◌,
}
use gamehub.Prelude.Dict
use gamehub.Prelude.Dict.{Dict}
use gamehub.Prelude.Sort.{sort_by}
use gamehub.Models.{asset_kind_text, FirmwareSpec, SystemSpec, AssetSpec, TitleEntry, LibraryIndex}
use gamehub.Paths.{FilePath, ◌∕◌, from_rel_path, resolve_rom_destination}
use gamehub.Saves.{SyncState}
use gamehub.Machine.{Machine}
use gamehub.Planner.Types.{PlanAction, SyncPlan, empty_plan, GamehubConfig}

module _ (m : Machine) where
  size_differs : FilePath → Option ℕ → Bool
  size_differs path none = false
  size_differs path (some expected) = not (nat_eq (m.size path) expected)

  unfoldable pub is_file_valid : FilePath → String → Bool → Option ℕ → Bool
  unfolding size_differs
  is_file_valid path expected_sha256 verify expected_size_bytes =
      if not (m.exists path)
      then false
      else if size_differs path expected_size_bytes
      then false
      else if verify
      then m.sha256_file path == expected_sha256
      else true

-- `known is None or known == sha256`
abbrev pub known_agrees : Option String → String → Bool
known_agrees none sha256 = true
known_agrees (some known) sha256 = known == sha256

module _ (m : Machine) (config : GamehubConfig) (state : SyncState) (verify : Bool) where
  abbrev pub firmware_key : String → FirmwareSpec → String
  firmware_key system_name firmware = system_name <> "/" <> firmware.filename

  abbrev pub firmware_destination : String → FirmwareSpec → FilePath
  firmware_destination system_name firmware = config.firmware_dir ∕ system_name ∕ firmware.filename

  unfoldable pub firmware_ok : String → FirmwareSpec → Bool
  firmware_ok system_name firmware =
      is_file_valid m (firmware_destination system_name firmware) firmware.sha256 verify none
      && known_agrees (Dict.lookup (firmware_key system_name firmware) state.firmware_checksums)
          firmware.sha256

  abbrev pub firmware_action : String → FirmwareSpec → PlanAction
  firmware_action system_name firmware = record {
    kind = "firmware";
    system = system_name;
    label = firmware.filename;
    url = "/v1/firmware/" <> system_name <> "/" <> firmware.filename;
    destination = firmware_destination system_name firmware;
    expected_sha256 = firmware.sha256;
    content_id = firmware_key system_name firmware;
    size_bytes = 0;
  }

  -- The body of the loop over `system.firmware`.
  unfoldable pub firmware_step : String → FirmwareSpec → SyncPlan → SyncPlan
  firmware_step system_name firmware plan =
      if firmware_ok system_name firmware then plan else record plan {
        firmware_actions = plan.firmware_actions ++ firmware_action system_name firmware ∷ [];
        blocked_systems =
            if firmware.required
            then Dict.insert system_name "Missing required firmware" plan.blocked_systems
            else plan.blocked_systems;
      }

  unfoldable pub plan_firmware : String → List FirmwareSpec → SyncPlan → SyncPlan
  plan_firmware system_name [] plan = plan
  plan_firmware system_name (f ∷ fs) plan =
      plan_firmware system_name fs (firmware_step system_name f plan)

  -- The loop over `sorted(system_map)`, on its entries.
  unfoldable pub plan_systems : Dict SystemSpec → SyncPlan → SyncPlan
  plan_systems [] plan = plan
  plan_systems ((system_name, system) ∷ rest) plan =
      plan_systems rest (plan_firmware system_name system.firmware plan)

  abbrev pub rom_destination : TitleEntry → FilePath
  rom_destination title =
      resolve_rom_destination m.casefold config.library_dir config.roms_dir title.rom.rel_path

  unfoldable pub rom_ok : TitleEntry → Bool
  rom_ok title =
      is_file_valid m (rom_destination title) title.rom.sha256 verify (some title.rom.size_bytes)
      && known_agrees (Dict.lookup title.rom.file_id state.downloaded_checksums) title.rom.sha256

  abbrev pub rom_action : TitleEntry → PlanAction
  rom_action title = record {
    kind = "rom";
    system = title.system;
    label = title.title_name <> " ROM";
    url = "/v1/files/" <> title.rom.file_id;
    destination = rom_destination title;
    expected_sha256 = title.rom.sha256;
    content_id = title.rom.file_id;
    size_bytes = title.rom.size_bytes;
  }

  abbrev pub asset_destination : AssetSpec → FilePath
  asset_destination asset = from_rel_path m.casefold config.library_dir asset.rel_path none

  unfoldable pub asset_ok : AssetSpec → Bool
  asset_ok asset =
      is_file_valid m (asset_destination asset) asset.sha256 verify (some asset.size_bytes)
      && known_agrees (Dict.lookup asset.asset_id state.downloaded_checksums) asset.sha256

  abbrev pub asset_action : TitleEntry → AssetSpec → PlanAction
  asset_action title asset = record {
    kind = "asset:" <> asset_kind_text asset.kind;
    system = title.system;
    label = title.title_name <> " " <> asset_kind_text asset.kind;
    url = "/v1/assets/" <> asset.asset_id;
    destination = asset_destination asset;
    expected_sha256 = asset.sha256;
    content_id = asset.asset_id;
    size_bytes = asset.size_bytes;
  }

  abbrev add_content : SyncPlan → PlanAction → SyncPlan
  add_content plan action = record plan { content_actions = plan.content_actions ++ action ∷ [] }

  unfoldable pub plan_assets : TitleEntry → List AssetSpec → SyncPlan → SyncPlan
  plan_assets title [] plan = plan
  plan_assets title (asset ∷ assets) plan =
      plan_assets title assets
        (if asset_ok asset then plan else add_content plan (asset_action title asset))

  -- The body of the loop over `index.titles`.
  unfoldable pub title_step : TitleEntry → SyncPlan → SyncPlan
  unfolding plan_assets
  title_step title plan =
      if is_some (Dict.lookup title.system plan.blocked_systems)
      then record plan { skipped_titles = plan.skipped_titles + 1 }
      else plan_assets title title.assets
          (if rom_ok title then plan else add_content plan (rom_action title))

  unfoldable pub plan_titles : List TitleEntry → SyncPlan → SyncPlan
  plan_titles [] plan = plan
  plan_titles (title ∷ titles) plan = plan_titles titles (title_step title plan)

-- `{system.name: system for system in index.systems}`
unfoldable pub system_map_from : List SystemSpec → Dict SystemSpec → Dict SystemSpec
system_map_from [] d = d
system_map_from (system ∷ systems) d = system_map_from systems (Dict.insert system.name system d)

-- Both loops, from an empty plan.
unfoldable pub plan_files : Machine → GamehubConfig → SyncState → Bool → LibraryIndex → SyncPlan
plan_files m config state verify index = plan_titles m config state verify index.titles (
    plan_systems m config state verify
      (sort_by (λ (name, _). name ∷ []) (system_map_from index.systems [])) empty_plan)
