-- ===== src/Examples.antt =====
-- A small library, machine, plan and server, on which the children run the operations and apply the
-- theorems.
pub mod Saves
pub mod Plans
pub mod Stages
pub mod Uploads
pub mod Index
pub mod Fetches
pub mod Downloads
pub mod Locks
pub mod Bindings
pub mod Sessions
pub mod Missed
pub mod Multipart
pub mod Backups
pub mod Scan
use gamehub.Prelude.{
  String, Bool, true, false, ◌==◌, Option, none, some, List, [], ◌∷◌, if◌then◌else◌,
}
use gamehub.Prelude.Int.{pos}
use gamehub.Models.{
  battery, retroarch_saves, exact_files, grid, FirmwareSpec, SystemSpec, AssetSpec, TitleEntry,
  SaveSpec, SaveBindingSpec, LibraryIndex,
}
use gamehub.Saves.{Decision, SyncState, Mode, ConflictPolicy, manual}
use gamehub.Machine.{Machine}
use gamehub.Planner.Types.{PlanAction, SavePlanAction, SyncPlan, empty_plan, GamehubConfig}
use gamehub.Planner.SavePlan.{SaveLocator}

-- A machine on which every file exists, with one content and one time.
abbrev pub machine : Machine
machine = record {
  exists = λ path. true;
  is_file = λ path. true;
  size = λ path. 8;
  sha256_file = λ path. "local";
  mtime_text = λ path. "later";
  casefold = λ t. t;
  upper = λ t. if t == "snes" then "SNES" else t;
  sha256_text = λ t. "0123456789abcdef0123456789abcdef";
  utc_text = λ t. t;
  fromisoformat = λ t. some t;
  utc_seconds = λ t. some (if t == "later" then pos 9 else pos 7);
}

abbrev pub firmware : FirmwareSpec
firmware = record { filename = "bios.bin"; sha256 = "bios"; required = true }

abbrev pub snes : SystemSpec
snes = record {
  name = "snes";
  rom_extensions = ".sfc" ∷ [];
  default_emulator = "retroarch";
  launch_template = "retroarch {rom}";
  firmware = [];
}

abbrev pub psx : SystemSpec
psx = record {
  name = "psx";
  rom_extensions = ".cue" ∷ [];
  default_emulator = "retroarch";
  launch_template = "retroarch {rom}";
  firmware = firmware ∷ [];
}

abbrev pub title : String → TitleEntry
title system = record {
  title_id = "title_1";
  system = system;
  title_name = "Quest";
  title_rel_dir = "roms/quest";
  emulator = "retroarch";
  launch_template = "retroarch {rom}";
  rom = record {
    file_id = "file_1";
    rel_path = "roms/quest/quest.sfc";
    sha256 = "remote";
    size_bytes = 8;
    extension = ".sfc";
  };
  assets =
      record {
        asset_id = "asset_1";
        kind = grid;
        rel_path = "assets/quest/grid.png";
        sha256 = "picture";
        size_bytes = 9;
      }
      ∷ [];
}

abbrev pub save_spec : SaveSpec
save_spec = record {
  save_id = "save_0123456789abcdef";
  title_id = "title_1";
  system = "snes";
  kind = battery;
  rel_path = "saves/snes/quest/battery/quest.srm";
  sha256 = "remote";
  size_bytes = 8;
  updated_at = "earlier";
  portable = true;
}

abbrev pub binding_spec : SaveBindingSpec
binding_spec = record {
  binding_id = "savebind_0123456789abcdef";
  title_id = "title_1";
  system = "snes";
  kind = battery;
  server_rel_dir = "saves/snes/quest/battery";
  local_root = retroarch_saves;
  strategy = exact_files;
  candidate_filenames = "quest.srm" ∷ "quest.sav" ∷ [];
  learn_rule = none;
  portable = true;
}

abbrev pub library : LibraryIndex
library = record {
  systems = psx ∷ snes ∷ [];
  titles = title "psx" ∷ title "snes" ∷ [];
  saves = save_spec ∷ [];
}

abbrev pub config : Bool → Mode → GamehubConfig
config enabled mode = record {
  library_dir = "/" ∷ "library" ∷ [];
  roms_dir = none;
  firmware_dir = "/" ∷ "firmware" ∷ [];
  save_sync = record {
    enabled = enabled;
    mode = mode;
    conflict_policy = manual;
    systems = "SNES" ∷ [];
  };
}

abbrev pub no_state : SyncState
no_state = record {
  downloaded_checksums = [];
  firmware_checksums = [];
  save_checksums = [];
  save_lineage = [];
  save_binding_roots = [];
  offline_shortcut_titles = [];
  unresolved_save_conflicts = ("save_0123456789abcdef", "target-exists") ∷ [];
  last_sync = none;
  bootstrap_version = none;
}

-- Every save file is found, below one root.
abbrev pub locator : SaveLocator
locator = record {
  resolve_binding_local_root = λ binding. some ("/" ∷ "saves" ∷ []);
  existing_exact_path = λ binding root filename. some ("/" ∷ "saves" ∷ filename ∷ []);
  resolve_local_save_destination = λ save roots binding. some ("/" ∷ "saves" ∷ "quest.srm" ∷ []);
}

abbrev pub save_plan_action : String → Decision → SavePlanAction
save_plan_action save_id decision = record {
  save_id = save_id;
  binding_id = "savebind_0123456789abcdef";
  title_id = "title_1";
  system = "snes";
  kind = battery;
  decision = decision;
  reason = "already-synced";
  url = "/v1/saves/1";
  destination = some ("/" ∷ "saves" ∷ "quest.srm" ∷ []);
  canonical_suffix = "quest.srm";
  expected_sha256 = "remote";
  size_bytes = 8;
  remote_updated_at = "earlier";
  local_sha256 = some "local";
}

abbrev pub plan_of : List SavePlanAction → SyncPlan
plan_of actions = record empty_plan { save_actions = actions }

abbrev pub plan_action : String → PlanAction
plan_action content_id = record {
  kind = "rom";
  system = "snes";
  label = "Quest";
  url = "/v1/files/1";
  destination = "/" ∷ "library" ∷ [];
  expected_sha256 = "remote";
  content_id = content_id;
  size_bytes = 8;
}
