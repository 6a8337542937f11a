-- ===== src/Server/Bindings.antt =====
-- `build_save_bindings` of src/gamehub_server/save_index.py, with the validators of `SaveBindingSpec`
-- of src/gamehub_common/models.py: where the saves of each title live. `none` is an exception: a
-- `ValueError` for a title without a name, or the error of a validator.
pub mod Coherent
use gamehub.Prelude.{
  String, ◌<>◌, Bool, true, false, not, ◌&&◌, ◌||◌, ◌==◌, any, truthy, is_none, is_some, is_empty,
  Option, none, some, List, [], ◌∷◌, ◌++◌, map, if◌then◌else◌,
}
use gamehub.Prelude.Dict
use gamehub.Prelude.Dict.{Dict}
use gamehub.Prelude.Sort.{sort_by}
use gamehub.Prelude.Text.{strip, strip_slash, split, join, starts_with, has_char}
use gamehub.Paths.{posix_parts}
use gamehub.Ids.{make_save_binding_id}
use gamehub.Models.{
  SaveKind, battery, memory_card, per_game, kind_text, LocalRoot, retroarch_saves,
  retroarch_saves_psx, pcsx2_memcards, dolphin_gc, dolphin_wii, azahar_sdmc, Strategy, exact_files,
  learned_tree, LearnRule, dolphin_gc_gci_tree, dolphin_wii_title_tree, azahar_title_data_tree,
  TitleEntry, SaveBindingSpec,
}

-- `SAVE_KIND_PORTABILITY`
abbrev pub save_kind_portability : SaveKind → Bool
save_kind_portability battery = true
save_kind_portability memory_card = true
save_kind_portability per_game = false

-- `_BATTERY_SAVE_SUFFIXES`
abbrev pub battery_save_suffixes : Dict (List String)
battery_save_suffixes =
    ("GB", ".srm" ∷ [])
    ∷ ("GBA", ".srm" ∷ [])
    ∷ ("GBC", ".srm" ∷ [])
    ∷ ("GEN_MD", ".srm" ∷ [])
    ∷ ("N64", ".srm" ∷ ".eep" ∷ ".fla" ∷ ".mpk" ∷ [])
    ∷ ("NDS", ".srm" ∷ [])
    ∷ ("NES", ".srm" ∷ [])
    ∷ ("SNES", ".srm" ∷ [])
    ∷ []

-- All but the last, and the last.
unsnoc : String → List String → List String × String
unsnoc s [] = ([], s)
unsnoc s (t ∷ ts) = let rest = unsnoc t ts in (s ∷ rest.0, rest.1)

-- The name without its suffix: what follows the last dot, unless that dot is the first or the last
-- character.
without_suffix : String → String
unfolding split join unsnoc
without_suffix name = elim (split b'.' name) [
  | [] ↦ name
  | s ∷ ss ↦
      let cut = unsnoc s ss in if join "." cut.0 == "" || cut.1 == "" then name else join "." cut.0
]

-- `PurePosixPath(title_rel_dir).with_suffix("").name`
unfoldable pub save_title_dir_name : String → Option String
unfolding posix_parts unsnoc without_suffix
save_title_dir_name title_rel_dir = elim (posix_parts title_rel_dir) [
  | [] ↦ none
  | s ∷ ss ↦
      let name = (unsnoc s ss).1 in
      if starts_with name "/" then none else some (without_suffix name)
]

unfoldable pub server_save_binding_dir : String → String → SaveKind → String
server_save_binding_dir system dir_name kind =
    "saves" <> "/" <> system <> "/" <> dir_name <> "/" <> kind_text kind

has_duplicates : List String → Bool
has_duplicates [] = false
has_duplicates (s ∷ ss) = any (λ t. s == t) ss || has_duplicates ss

unfoldable pub validate_candidate_filenames : List String → Option (List String)
unfolding has_duplicates strip
validate_candidate_filenames value =
    let normalized = map strip value in
    if any (λ s. not (truthy s)) normalized || has_duplicates normalized
    then none
    else some normalized

abbrev pub is_traversal : String → Bool
is_traversal part = part == "" || part == "." || part == ".."

unfoldable pub validate_server_rel_dir : String → Option String
unfolding strip strip_slash has_char split
validate_server_rel_dir value =
    let normalized = strip_slash (strip value) in
    if not (truthy normalized)
      || has_char 92 normalized
      || starts_with normalized "/"
      || any is_traversal (split b'/' normalized)
    then none
    else some normalized

-- Whether `validate_strategy_fields` lets a rule pass, given the fields before it.
unfoldable pub validate_strategy_fields : Strategy → List String → Option LearnRule → Bool
validate_strategy_fields exact_files candidates rule = is_none rule && not (is_empty candidates)
validate_strategy_fields learned_tree candidates rule = is_some rule && is_empty candidates

-- `SaveBindingSpec(...)`
unfoldable pub validated : SaveBindingSpec → Option SaveBindingSpec
unfolding validate_candidate_filenames validate_server_rel_dir validate_strategy_fields
validated b = elim (validate_server_rel_dir b.server_rel_dir) [
  | none ↦ none
  | some dir ↦ elim (validate_candidate_filenames b.candidate_filenames) [
    | none ↦ none
    | some names ↦
        if validate_strategy_fields b.strategy names b.learn_rule
        then some (record b { server_rel_dir = dir; candidate_filenames = names })
        else none
  ]
]

unfoldable pub all_validated : List SaveBindingSpec → Option (List SaveBindingSpec)
unfolding validated
all_validated [] = some []
all_validated (b ∷ bs) =
    let rest = all_validated bs in
    elim (validated b) [
      | none ↦ none
      | some b' ↦ elim rest [ none ↦ none | some bs' ↦ some (b' ∷ bs') ]
    ]

module _ (upper : String → String) (sha256_text : String → String) where
  binding :
      TitleEntry
      → String
      → SaveKind
      → LocalRoot
      → Strategy
      → List String
      → Option LearnRule
      → SaveBindingSpec
  binding title dir_name kind root strategy names rule = record {
    binding_id = make_save_binding_id sha256_text title.title_id kind;
    title_id = title.title_id;
    system = title.system;
    kind = kind;
    server_rel_dir = server_save_binding_dir title.system dir_name kind;
    local_root = root;
    strategy = strategy;
    candidate_filenames = names;
    learn_rule = rule;
    portable = save_kind_portability kind;
  }

  battery_bindings : TitleEntry → String → Option (List String) → List SaveBindingSpec
  unfolding binding
  battery_bindings title dir_name none = []
  battery_bindings title dir_name (some suffixes) =
      binding title dir_name battery retroarch_saves exact_files
        (map (λ suffix. title.title_name <> suffix) suffixes) none
      ∷ []

  card_bindings : TitleEntry → String → String → List SaveBindingSpec
  unfolding binding
  card_bindings title dir_name system_name =
      (if system_name == "PSX"
        then binding title dir_name memory_card retroarch_saves_psx exact_files
            (("GH_" <> title.title_id <> "_1.mcd")
              ∷ ("GH_" <> title.title_id <> "_2.mcd")
              ∷ (title.title_name <> ".srm")
              ∷ (title.title_name <> "_1.mcd")
              ∷ (title.title_name <> "_2.mcd")
              ∷ [])
            none
          ∷ []
        else [])
      ++ (if system_name == "PS2"
          then binding title dir_name memory_card pcsx2_memcards exact_files
              (("GH_" <> title.title_id <> "_1.ps2") ∷ ("GH_" <> title.title_id <> "_2.ps2") ∷ [])
              none
            ∷ []
          else [])

  learned_binding : TitleEntry → String → LocalRoot → LearnRule → SaveBindingSpec
  unfolding binding
  learned_binding title dir_name root rule =
      binding title dir_name per_game root learned_tree [] (some rule)

  tree_bindings : TitleEntry → String → String → List SaveBindingSpec
  unfolding learned_binding
  tree_bindings title dir_name system_name =
      (if system_name == "GC"
        then learned_binding title dir_name dolphin_gc dolphin_gc_gci_tree ∷ []
        else [])
      ++ (if system_name == "WII"
          then learned_binding title dir_name dolphin_wii dolphin_wii_title_tree ∷ []
          else [])
      ++ (if system_name == "N3DS"
          then learned_binding title dir_name azahar_sdmc azahar_title_data_tree ∷ []
          else [])

  -- The bindings of one title, before the validators.
  unfoldable pub title_bindings : TitleEntry → String → List SaveBindingSpec
  unfolding battery_bindings card_bindings tree_bindings
  title_bindings title dir_name =
      let system_name = upper title.system in
      battery_bindings title dir_name (Dict.lookup system_name battery_save_suffixes)
      ++ card_bindings title dir_name system_name
      ++ tree_bindings title dir_name system_name

  unfoldable pub bindings_of_titles : List TitleEntry → Option (List SaveBindingSpec)
  unfolding title_bindings save_title_dir_name all_validated
  bindings_of_titles [] = some []
  bindings_of_titles (title ∷ titles) =
      let rest = bindings_of_titles titles in
      elim (save_title_dir_name title.title_rel_dir) [
        | none ↦ none
        | some dir_name ↦ elim (all_validated (title_bindings title dir_name)) [
          | none ↦ none
          | some bindings ↦ elim rest [ none ↦ none | some others ↦ some (bindings ++ others) ]
        ]
      ]

  unfoldable pub build_save_bindings : List TitleEntry → Option (List SaveBindingSpec)
  unfolding bindings_of_titles
  build_save_bindings titles = elim (bindings_of_titles titles) [
    | none ↦ none
    | some bindings ↦ some (
        sort_by
          (λ (b : SaveBindingSpec). b.system ∷ b.title_id ∷ kind_text b.kind ∷ b.binding_id ∷ [])
          bindings)
  ]
