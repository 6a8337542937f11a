-- ===== src/Session/Trees.antt =====
-- The exit and the learned trees, of src/gamehub_cli/shortcuts/save_session.py: the roots that it
-- learns, and the files that it uploads from them for the first time.
use gamehub.Prelude.{
  false, ℕ, String, Bool, true, not, ◌&&◌, ◌||◌, ◌==◌, Option, none, some, List, [], ◌∷◌, ◌<>◌,
  is_empty, is_some, map, option_eq, if◌then◌else◌,
}
use gamehub.Prelude.Dict
use gamehub.Prelude.Dict.{Dict}
use gamehub.Prelude.Sort.{sort_by}
use gamehub.Models.{SaveSpec, SaveBindingSpec}
use gamehub.Paths.{FilePath, joinpath, posix_parts}
use gamehub.Saves.{SaveBindingRootRecord}
use gamehub.Machine.{Machine, save_id_at}
use gamehub.Exchange.{World}
use gamehub.Learned.{snapshot_binding_tree, learn_binding_root, canonical_suffix_for_learned_path}
use gamehub.Session.{ShortcutTreeSnapshot, Launcher, changed_tree_paths}
use gamehub.Session.Creates.{Session, Progress, going, run_all, create_save}

module _ (world : World) where
  -- `save_binding_roots.get(binding_id) == next_root`
  pub same_root : Option SaveBindingRootRecord → String → String → Bool
  same_root none canonical materialized = false
  same_root (some root) canonical materialized =
      root.canonical_root == canonical && root.materialized_root == materialized

  -- The exit keeps the root that it has learned, if it is new.
  unfoldable pub keep_root : SaveBindingSpec → String → String → Session world → Session world
  unfolding same_root
  keep_root binding canonical materialized s =
      if same_root (Dict.lookup binding.binding_id s.state.save_binding_roots) canonical
        materialized
      then s
      else record s {
        state = record s.state {
          save_binding_roots =
              Dict.insert binding.binding_id
                (record { canonical_root = canonical; materialized_root = materialized })
                s.state.save_binding_roots;
        };
        changed = true;
      }

  -- `unresolved_save_conflicts.pop(binding_id, None)`
  unfoldable pub drop_conflict : String → Session world → Session world
  drop_conflict binding_id s = record s {
    state = record s.state {
      unresolved_save_conflicts = Dict.erase binding_id s.state.unresolved_save_conflicts;
    };
    changed = is_some (Dict.lookup binding_id s.state.unresolved_save_conflicts) || s.changed;
  }

  -- The paths have no common root: the old root goes, and a conflict is noted.
  unfoldable pub ambiguous_root : String → Session world → Session world
  ambiguous_root binding_id s = record s {
    state = record s.state {
      save_binding_roots = Dict.erase binding_id s.state.save_binding_roots;
      unresolved_save_conflicts =
          Dict.insert binding_id "save-binding-root-ambiguous" s.state.unresolved_save_conflicts;
    };
    changed =
        is_some (Dict.lookup binding_id s.state.save_binding_roots)
        || s.changed
        || not (
            option_eq (Dict.lookup binding_id s.state.unresolved_save_conflicts)
              (some "save-binding-root-ambiguous"));
  }

module _ (m : Machine) (launcher : Launcher) (current_saves : Dict SaveSpec) where
  open launcher use {world, binding_root, tree_files}

  -- One path of a learned tree.
  unfoldable pub tree_file :
      SaveBindingSpec → String → FilePath → String → Session world → Progress world
  unfolding create_save canonical_suffix_for_learned_path joinpath posix_parts
  tree_file binding materialized root rel_path s =
      let source = joinpath root (posix_parts rel_path) in
      elim (canonical_suffix_for_learned_path binding rel_path materialized) [
        | none ↦ going s
        | some suffix ↦
            let save_id = save_id_at m (binding.server_rel_dir <> "/" <> suffix) in
            elim (Dict.lookup save_id current_saves) [
              | some save ↦ going s
              | none ↦ elim (world.local_sha s.env source) [
                | none ↦ going s
                | some sha ↦ create_save world binding save_id suffix source s
              ]
            ]
      ]

  abbrev pub paths_of : Dict String → List String
  paths_of after = sort_by (λ (p : String). p ∷ []) (map (λ (e : String × String). e.0) after)

  module _ (is_hex_char : ℕ → Bool) where
    -- The changed paths of a tree, or all of them where nothing has changed.
    abbrev pub learned_paths : Dict String → Dict String → List String
    learned_paths before after =
        if is_empty (changed_tree_paths before after)
        then paths_of after
        else changed_tree_paths before after

    unfoldable pub learned_tree_files :
        SaveBindingSpec → Dict String → String → Session world → Progress world
    unfolding run_all tree_file sort_by
    learned_tree_files binding after materialized s = elim (binding_root s.env binding) [
      | none ↦ going s
      | some root ↦ run_all world (tree_file binding materialized root) (paths_of after) s
    ]

    -- The body of the loop over the trees, on the files below the root.
    unfoldable pub tree_binding :
        String → ShortcutTreeSnapshot → Dict String → Session world → Progress world
    unfolding changed_tree_paths learn_binding_root keep_root drop_conflict ambiguous_root
        learned_tree_files
    tree_binding binding_id snapshot after s =
        let binding = snapshot.binding in
        if is_empty (learned_paths snapshot.before after)
        then going s
        else elim (learn_binding_root is_hex_char binding (learned_paths snapshot.before after)) [
          | none ↦ going (ambiguous_root world binding_id s)
          | some (canonical, materialized) ↦
              learned_tree_files binding after materialized
                (drop_conflict world binding_id (keep_root world binding canonical materialized s))
        ]

    unfoldable pub tree_now : String × ShortcutTreeSnapshot → Session world → Progress world
    unfolding tree_binding snapshot_binding_tree
    tree_now (binding_id, snapshot) s =
        tree_binding binding_id snapshot
          (snapshot_binding_tree is_hex_char snapshot.binding snapshot.canonical_roots
            (tree_files s.env snapshot.binding))
          s

    unfoldable pub run_tree_sync : Dict ShortcutTreeSnapshot → Session world → Progress world
    unfolding tree_now run_all
    run_tree_sync snapshots s = run_all world tree_now snapshots s
