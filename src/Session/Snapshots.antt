-- ===== src/Session/Snapshots.antt =====
-- The roots and snapshots that a launch takes, of src/gamehub_cli/shortcuts/save_session.py.
use gamehub.Prelude.{
  ℕ, String, Bool, Option, none, some, List, [], ◌∷◌, ◌<>◌, length, ltb, take, if◌then◌else◌,
}
use gamehub.Prelude.Dict
use gamehub.Prelude.Dict.{Dict}
use gamehub.Prelude.Sort.{sort_by}
use gamehub.Prelude.Text.{join}
use gamehub.Models.{
  SaveSpec, exact_files, learned_tree, LearnRule, dolphin_gc_gci_tree, dolphin_wii_title_tree,
  azahar_title_data_tree, SaveBindingSpec,
}
use gamehub.Paths.{FilePath, normalized_posix_parts}
use gamehub.Machine.{Machine, save_id_at, binding_id_at}
use gamehub.Planner.SavePlan.{contains, canonical_suffix_from_rel_path}
use gamehub.Learned.{snapshot_binding_tree}
use gamehub.Session.{ShortcutExactBindingSnapshot, ShortcutSaveContext, Launcher}

-- The first `n` parts, where there are more.
root_below : ℕ → List String → Option String
unfolding join
root_below n parts = if ltb n (length parts) then some (join "/" (take n parts)) else none

root_by_rule : Option LearnRule → List String → Option String
unfolding root_below
root_by_rule none parts = none
root_by_rule (some dolphin_gc_gci_tree) parts = root_below 2 parts
root_by_rule (some dolphin_wii_title_tree) parts = root_below 3 parts
root_by_rule (some azahar_title_data_tree) parts = root_below 4 parts

-- `none` is the `ValueError` of the suffix.
unfoldable pub canonical_root_for_indexed_save : SaveBindingSpec → SaveSpec → Option (Option String)
unfolding root_by_rule canonical_suffix_from_rel_path normalized_posix_parts
canonical_root_for_indexed_save binding save = elim (canonical_suffix_from_rel_path save.rel_path) [
  | none ↦ none
  | some suffix ↦ some (root_by_rule binding.learn_rule (normalized_posix_parts suffix))
]

-- A set of roots, in order.
add_root : String → List String → List String
unfolding sort_by
add_root root roots =
    if contains roots root then roots else sort_by (λ (r : String). r ∷ []) (root ∷ roots)

abbrev roots_at : Dict (List String) → String → List String
roots_at roots binding_id = elim (Dict.lookup binding_id roots) [ none ↦ [] | some found ↦ found ]

module _ (m : Machine) where
  -- The loop, on the roots found so far.
  roots_from :
      Dict SaveBindingSpec → List SaveSpec → Dict (List String) → Option (Dict (List String))
  unfolding canonical_root_for_indexed_save add_root
  roots_from bindings [] roots = some roots
  roots_from bindings (save ∷ saves) roots =
      elim (Dict.lookup (binding_id_at m save.title_id save.kind) bindings) [
        | none ↦ roots_from bindings saves roots
        | some binding ↦ elim binding.strategy [
          | exact_files ↦ roots_from bindings saves roots
          | learned_tree ↦ elim (canonical_root_for_indexed_save binding save) [
            | none ↦ none
            | some none ↦ roots_from bindings saves roots
            | some (some root) ↦ roots_from bindings saves (
                Dict.insert binding.binding_id (add_root root (roots_at roots binding.binding_id))
                  roots)
          ]
        ]
      ]

  unfoldable pub canonical_roots_by_binding :
      List SaveSpec → Dict SaveBindingSpec → Option (Dict (List String))
  unfolding roots_from
  canonical_roots_by_binding title_saves bindings = roots_from bindings title_saves []

  module _ (launcher : Launcher) (is_hex_char : ℕ → Bool) where
    open launcher use {world, exact_destination, binding_root, tree_files}

    files_before :
        SaveBindingSpec
        → List String
        → FilePath
        → world.W
        → List String
        → Dict (Option String)
        → Dict (Option String)
    files_before binding remote_ids root env [] found = found
    files_before binding remote_ids root env (filename ∷ filenames) found =
        let path = exact_destination env binding.system binding.kind root filename in
        files_before binding remote_ids root env filenames (
          if contains remote_ids (save_id_at m (binding.server_rel_dir <> "/" <> filename))
          then found
          else Dict.insert filename (world.local_sha env path) found)

    exact_snapshot : SaveBindingSpec → Dict (Option String) → Option ShortcutExactBindingSnapshot
    exact_snapshot binding [] = none
    exact_snapshot binding (f ∷ files) =
        some (record { binding = binding; local_sha256_by_suffix = f ∷ files })

    unfoldable pub snapshot_exact_binding :
        SaveBindingSpec → List String → world.W → Option ShortcutExactBindingSnapshot
    unfolding files_before exact_snapshot
    snapshot_exact_binding binding remote_ids env = elim binding.strategy [
      | learned_tree ↦ none
      | exact_files ↦ elim (binding_root env binding) [
        | none ↦ none
        | some root ↦
            exact_snapshot binding
              (files_before binding remote_ids root env binding.candidate_filenames [])
      ]
    ]

    -- The body of the loop over the bindings of the title.
    snapshot_binding :
        Dict (List String)
        → List String
        → world.W
        → SaveBindingSpec
        → ShortcutSaveContext
        → ShortcutSaveContext
    unfolding snapshot_exact_binding snapshot_binding_tree
    snapshot_binding roots remote_ids env binding context = elim binding.strategy [
      | learned_tree ↦ record context {
        tree_snapshots =
            Dict.insert binding.binding_id
              (record {
                binding = binding;
                before =
                    snapshot_binding_tree is_hex_char binding (roots_at roots binding.binding_id)
                      (tree_files env binding);
                canonical_roots = roots_at roots binding.binding_id;
              })
              context.tree_snapshots;
      }
      | exact_files ↦ elim (snapshot_exact_binding binding remote_ids env) [
        | none ↦ context
        | some snapshot ↦ record context {
          exact_binding_snapshots =
              Dict.insert binding.binding_id snapshot context.exact_binding_snapshots;
        }
      ]
    ]

    unfoldable pub snapshot_bindings :
        Dict (List String)
        → List String
        → world.W
        → List SaveBindingSpec
        → ShortcutSaveContext
        → ShortcutSaveContext
    unfolding snapshot_binding
    snapshot_bindings roots remote_ids env [] context = context
    snapshot_bindings roots remote_ids env (binding ∷ bindings) context =
        snapshot_bindings roots remote_ids env bindings
          (snapshot_binding roots remote_ids env binding context)
