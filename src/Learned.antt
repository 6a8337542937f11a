-- ===== src/Learned.antt =====
-- The learned trees of src/gamehub_cli/emulators/save_resolution.py: which paths of an emulator's
-- folder are saves, the roots that a set of changed paths has, and the suffix under which the server
-- knows a path. Whether a character is a hexadecimal digit asks Unicode, and is a parameter.
pub mod Roots
use gamehub.Prelude.{
  ℕ, String, Bool, true, false, not, ◌&&◌, ◌||◌, ◌==◌, nat_eq, ltb, leb, any, all, is_empty, length,
  take, drop, Option, none, some, List, [], ◌∷◌, ◌++◌, select, if◌then◌else◌,
}
use gamehub.Prelude.Dict.{Dict}
use gamehub.Prelude.Text.{join, text_length, all_chars}
use gamehub.Paths.{normalized_posix_parts}
use gamehub.Models.{
  Strategy, exact_files, learned_tree, LearnRule, dolphin_gc_gci_tree, dolphin_wii_title_tree,
  azahar_title_data_tree, SaveBindingSpec,
}
use gamehub.Server.Suffix.{is_server_generated_save_backup_name, last_text}

abbrev pub part : List String → ℕ → String
part parts n = elim (drop n parts) [ [] ↦ "" | p ∷ ps ↦ p ]

abbrev among : String → List String → Bool
among s texts = any (λ t. s == t) texts

-- `parts[:len(prefix)] == prefix`
abbrev pub has_prefix : List String → List String → Bool
has_prefix parts [] = true
has_prefix [] (q ∷ prefix) = false
has_prefix (p ∷ parts) (q ∷ prefix) = p == q && has_prefix parts prefix

module _ (is_hex_char : ℕ → Bool) where
  unfoldable pub is_hex_segment : String → ℕ → Bool
  unfolding text_length all_chars
  is_hex_segment value n = nat_eq (text_length value) n && all_chars is_hex_char value

  -- The test that the code repeats for each rule.
  unfoldable pub fits_rule : LearnRule → List String → Bool
  unfolding is_hex_segment
  fits_rule dolphin_gc_gci_tree parts =
      leb 3 (length parts)
      && among (part parts 0) ("USA" ∷ "EUR" ∷ "JAP" ∷ [])
      && among (part parts 1) ("Card A" ∷ "Card B" ∷ [])
  fits_rule dolphin_wii_title_tree parts =
      leb 4 (length parts)
      && part parts 0 == "title"
      && is_hex_segment (part parts 1) 8
      && is_hex_segment (part parts 2) 8
  fits_rule azahar_title_data_tree parts =
      leb 8 (length parts)
      && part parts 0 == "Nintendo 3DS"
      && is_hex_segment (part parts 1) 32
      && is_hex_segment (part parts 2) 32
      && part parts 3 == "title"
      && is_hex_segment (part parts 4) 8
      && is_hex_segment (part parts 5) 8
      && part parts 6 == "data"

  -- The root as the server knows it, and as it lies on this machine.
  abbrev pub canonical_parts : LearnRule → List String → List String
  canonical_parts dolphin_gc_gci_tree parts = take 2 parts
  canonical_parts dolphin_wii_title_tree parts = take 3 parts
  canonical_parts azahar_title_data_tree parts = drop 3 (take 7 parts)

  abbrev pub materialized_parts : LearnRule → List String → List String
  materialized_parts dolphin_gc_gci_tree parts = take 2 parts
  materialized_parts dolphin_wii_title_tree parts = take 3 parts
  materialized_parts azahar_title_data_tree parts = take 7 parts

  root_of : (LearnRule → List String → List String) → Option LearnRule → String → Option String
  unfolding fits_rule normalized_posix_parts join
  root_of select_parts none rel_path = none
  root_of select_parts (some rule) rel_path =
      let parts = normalized_posix_parts rel_path in
      if fits_rule rule parts then some (join "/" (select_parts rule parts)) else none

  unfoldable pub canonical_root_for_learned_path : Option LearnRule → String → Option String
  unfolding root_of
  canonical_root_for_learned_path rule rel_path = root_of canonical_parts rule rel_path

  unfoldable pub materialized_root_for_learned_path : Option LearnRule → String → Option String
  unfolding root_of
  materialized_root_for_learned_path rule rel_path = root_of materialized_parts rule rel_path

  matches_rule : Option LearnRule → String → Bool
  unfolding fits_rule normalized_posix_parts
  matches_rule none rel_path = false
  matches_rule (some rule) rel_path = fits_rule rule (normalized_posix_parts rel_path)

  unfoldable pub matches_learned_tree_path : Strategy → Option LearnRule → String → Bool
  unfolding matches_rule
  matches_learned_tree_path exact_files rule rel_path = true
  matches_learned_tree_path learned_tree rule rel_path = matches_rule rule rel_path

  allowed_root : List String → Option String → Bool
  allowed_root roots none = false
  allowed_root roots (some root) = among root roots

  -- The files below the root, in the order of their paths, each with its checksum.
  unfoldable pub snapshot_binding_tree :
      SaveBindingSpec → List String → Option (List (String × String)) → Dict String
  unfolding matches_learned_tree_path allowed_root canonical_root_for_learned_path
      is_server_generated_save_backup_name
  snapshot_binding_tree binding canonical_roots none = []
  snapshot_binding_tree binding canonical_roots (some files) =
      select
        (λ (rel_path, sha).
          not (is_server_generated_save_backup_name (last_text (normalized_posix_parts rel_path)))
          && matches_learned_tree_path binding.strategy binding.learn_rule rel_path
          && (is_empty canonical_roots
              || allowed_root canonical_roots
                  (canonical_root_for_learned_path binding.learn_rule rel_path)))
        files

  -- One root for all paths, or `none`: a path without a root, or two roots.
  unfoldable pub common_root : (String → Option String) → List String → Option String
  common_root root [] = none
  common_root root (path ∷ []) = root path
  common_root root (path ∷ path' ∷ paths) =
      let rest = common_root root (path' ∷ paths) in
      elim (root path) [
        | none ↦ none
        | some r ↦ elim rest [ none ↦ none | some r' ↦ if r == r' then some r else none ]
      ]

  unfoldable pub learn_binding_root : SaveBindingSpec → List String → Option (String × String)
  unfolding common_root
  learn_binding_root binding changed_relative_paths = elim binding.strategy [
    | exact_files ↦ none
    | learned_tree ↦
        elim (common_root (canonical_root_for_learned_path binding.learn_rule)
          changed_relative_paths) [
            | none ↦ none
            | some canonical ↦
                elim (common_root (materialized_root_for_learned_path binding.learn_rule)
                  changed_relative_paths) [
                    | none ↦ none
                    | some materialized ↦ some (canonical, materialized)
                  ]
          ]
  ]

suffix_of : Option LearnRule → List String → List String → Option String
unfolding join
suffix_of none root_parts remainder = none
suffix_of (some dolphin_gc_gci_tree) root_parts remainder =
    some (join "/" (root_parts ++ remainder))
suffix_of (some dolphin_wii_title_tree) root_parts remainder =
    some (join "/" (root_parts ++ remainder))
suffix_of (some azahar_title_data_tree) root_parts remainder =
    if ltb (length root_parts) 7 then none else some (join "/" (drop 3 root_parts ++ remainder))

unfoldable pub canonical_suffix_for_learned_path : SaveBindingSpec → String → String → Option String
unfolding suffix_of normalized_posix_parts
canonical_suffix_for_learned_path binding rel_path materialized_root =
    let parts = normalized_posix_parts rel_path in
    let root_parts = normalized_posix_parts materialized_root in
    if leb (length parts) (length root_parts) || not (has_prefix parts root_parts)
    then none
    else suffix_of binding.learn_rule root_parts (drop (length root_parts) parts)
