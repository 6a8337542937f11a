-- ===== src/Models.antt =====
-- src/gamehub_common/models.py: the documents that the server serves and the client plans from.
-- A `Literal` is a data type. A datetime is known by its `isoformat()` text.
use gamehub.Prelude.{ℕ, String, Bool, Option, List}

pub data SaveKind : Type 0 where
  battery memory_card per_game : SaveKind

-- The text of a kind, which f-strings and sort keys use.
abbrev pub kind_text : SaveKind → String
kind_text battery = "battery"
kind_text memory_card = "memory_card"
kind_text per_game = "per_game"

pub data LocalRoot : Type 0 where
  retroarch_saves retroarch_saves_psx pcsx2_memcards dolphin_gc dolphin_wii azahar_sdmc : LocalRoot

pub data Strategy : Type 0 where
  exact_files learned_tree : Strategy

pub data LearnRule : Type 0 where
  dolphin_gc_gci_tree dolphin_wii_title_tree azahar_title_data_tree : LearnRule

pub data AssetKind : Type 0 where
  grid hero logo icon : AssetKind

abbrev pub asset_kind_text : AssetKind → String
asset_kind_text grid = "grid"
asset_kind_text hero = "hero"
asset_kind_text logo = "logo"
asset_kind_text icon = "icon"

pub record FirmwareSpec : Type 0 where
  pub filename : String
  pub sha256 : String
  pub required : Bool

pub record SystemSpec : Type 0 where
  pub name : String
  pub rom_extensions : List String
  pub default_emulator : String
  pub launch_template : String
  pub firmware : List FirmwareSpec

pub record AssetSpec : Type 0 where
  pub asset_id : String
  pub kind : AssetKind
  pub rel_path : String
  pub sha256 : String
  pub size_bytes : ℕ

pub record RomSpec : Type 0 where
  pub file_id : String
  pub rel_path : String
  pub sha256 : String
  pub size_bytes : ℕ
  pub extension : String

pub record TitleEntry : Type 0 where
  pub title_id : String
  pub system : String
  pub title_name : String
  pub title_rel_dir : String
  pub emulator : String
  pub launch_template : String
  pub rom : RomSpec
  pub assets : List AssetSpec

pub record SaveSpec : Type 0 where
  pub save_id : String
  pub title_id : String
  pub system : String
  pub kind : SaveKind
  pub rel_path : String
  pub sha256 : String
  pub size_bytes : ℕ
  pub updated_at : String
  pub portable : Bool

pub record SaveBindingSpec : Type 0 where
  pub binding_id : String
  pub title_id : String
  pub system : String
  pub kind : SaveKind
  pub server_rel_dir : String
  pub local_root : LocalRoot
  pub strategy : Strategy
  pub candidate_filenames : List String
  pub learn_rule : Option LearnRule
  pub portable : Bool

pub record LibraryIndex : Type 0 where
  pub systems : List SystemSpec
  pub titles : List TitleEntry
  pub saves : List SaveSpec
