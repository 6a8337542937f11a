-- ===== src/Session/Honest/Trees.antt =====
-- The learned trees of the exit tell every change.
use gamehub.Prelude.{
  ℕ, refl, ap, sym, inl, inr, String, Bool, ◌<>◌, option_eq, option_eq-some, is_empty, some,
  Bool-cases, Option-cases, arith,
}
use gamehub.Prelude.Dict
use gamehub.Prelude.Dict.{Dict}
use gamehub.Models.{SaveSpec, SaveBindingSpec}
use gamehub.Paths.{FilePath, joinpath, posix_parts}
use gamehub.Machine.{Machine, save_id_at}
use gamehub.Exchange.{World}
use gamehub.Learned.{learn_binding_root, canonical_suffix_for_learned_path}
use gamehub.Session.{Launcher, ShortcutTreeSnapshot}
use gamehub.Session.Creates.{Session, session_of}
use gamehub.Session.Trees.{
  same_root, keep_root, drop_conflict, ambiguous_root, tree_file, paths_of, learned_paths,
  learned_tree_files, tree_binding, tree_now, run_tree_sync,
}
use gamehub.Session.Honest.{Tells, Tells-trans, run_all-Tells}
use gamehub.Session.Honest.Creates.{create_save-Tells}

module _ (world : World) where
  keep_root-Tells :
      (binding : SaveBindingSpec) (canonical materialized : String) (s : Session world)
      → Tells world s (keep_root world binding canonical materialized s)
  unfolding keep_root
  keep_root-Tells binding canonical materialized s =
      elim (Bool-cases (
        same_root world (Dict.lookup binding.binding_id s.state.save_binding_roots) canonical
          materialized)) [
            | inl e ↦ rw (keep_root, e) (inr (refl, refl))
            | inr e ↦ rw (keep_root, e) (inl refl)
          ]

  drop_conflict-Tells :
      (binding_id : String) (s : Session world) → Tells world s (drop_conflict world binding_id s)
  unfolding drop_conflict
  drop_conflict-Tells binding_id s =
      elim (Option-cases (Dict.lookup binding_id s.state.unresolved_save_conflicts)) [
        | inr (reason, e) ↦ inl (ground (arith, e))
        | inl e ↦ inr (
          ap (λ (conflicts : Dict String). record s.state { unresolved_save_conflicts = conflicts })
              (Dict.erase_absent binding_id s.state.unresolved_save_conflicts e),
          ground (arith, e),
        )
      ]

  ambiguous_root-Tells :
      (binding_id : String) (s : Session world) → Tells world s (ambiguous_root world binding_id s)
  unfolding ambiguous_root
  ambiguous_root-Tells binding_id s =
      let conflicts = s.state.unresolved_save_conflicts in
      let reason : String = "save-binding-root-ambiguous" in
      elim (Option-cases (Dict.lookup binding_id s.state.save_binding_roots)) [
        | inr (root, e) ↦ inl (ground (arith, e))
        | inl e ↦ elim (Bool-cases (option_eq (Dict.lookup binding_id conflicts) (some reason))) [
          | inr e' ↦ inl (ground (arith, e, e'))
          | inl e' ↦
              let p = Dict.erase_absent binding_id s.state.save_binding_roots e in
              let q =
                Dict.insert_same binding_id reason conflicts
                  (sym (option_eq-some (Dict.lookup binding_id conflicts) reason e')) in
              inr (
                λ i. record s.state { save_binding_roots = p i; unresolved_save_conflicts = q i },
                ground (arith, e, e'),
              )
        ]
      ]

module _ (m : Machine) (launcher : Launcher) (current_saves : Dict SaveSpec) where
  open launcher use {world, binding_root, tree_files}

  tree_file-Tells :
      (binding : SaveBindingSpec) (materialized : String) (root : FilePath) (rel_path : String)
      (s : Session world)
      → Tells world s (
          session_of world
            (tree_file m launcher current_saves binding materialized root rel_path s))
  unfolding tree_file
  tree_file-Tells binding materialized root rel_path s =
      let source = joinpath root (posix_parts rel_path) in
      elim (Option-cases (canonical_suffix_for_learned_path binding rel_path materialized)) [
        | inl e ↦ rw (e, session_of) (inr (refl, refl))
        | inr (suffix, e) ↦
            let save_id = save_id_at m (binding.server_rel_dir <> "/" <> suffix) in
            elim (Option-cases (Dict.lookup save_id current_saves)) [
              | inr (save, e') ↦ rw (e, e', session_of) (inr (refl, refl))
              | inl e' ↦ elim (Option-cases (world.local_sha s.env source)) [
                | inl e'' ↦ rw (e, e', e'', session_of) (inr (refl, refl))
                | inr (sha, e'') ↦
                    rw (e, e', e'', session_of)
                      (create_save-Tells world binding save_id suffix source s)
              ]
            ]
      ]

  module _ (is_hex_char : ℕ → Bool) where
    learned_tree_files-Tells :
        (binding : SaveBindingSpec) (after : Dict String) (materialized : String)
        (s : Session world)
        → Tells world s (
            session_of world (
              learned_tree_files m launcher current_saves is_hex_char binding after materialized s))
    unfolding learned_tree_files
    learned_tree_files-Tells binding after materialized s =
        elim (Option-cases (binding_root s.env binding)) [
          | inl e ↦ rw (e, session_of) (inr (refl, refl))
          | inr (root, e) ↦
              rw (e, session_of)
                (run_all-Tells world (tree_file m launcher current_saves binding materialized root)
                  (tree_file-Tells binding materialized root)
                  (paths_of m launcher current_saves after) s)
        ]

    tree_binding-Tells :
        (binding_id : String) (snapshot : ShortcutTreeSnapshot) (after : Dict String)
        (s : Session world)
        → Tells world s (
            session_of world
              (tree_binding m launcher current_saves is_hex_char binding_id snapshot after s))
    unfolding tree_binding
    tree_binding-Tells binding_id snapshot after s =
        let binding = snapshot.binding in
        let paths = learned_paths m launcher current_saves is_hex_char snapshot.before after in
        elim (Bool-cases (is_empty paths)) [
          | inl e ↦ rw (e, session_of) (inr (refl, refl))
          | inr e ↦ elim (Option-cases (learn_binding_root is_hex_char binding paths)) [
            | inl e' ↦ rw (e, e', session_of) (ambiguous_root-Tells world binding_id s)
            | inr ((canonical, materialized), e') ↦
                let kept = keep_root world binding canonical materialized s in
                let dropped = drop_conflict world binding_id kept in
                rw (e, e', session_of)
                  (Tells-trans world s dropped
                    (session_of world (
                      learned_tree_files m launcher current_saves is_hex_char binding after
                        materialized dropped))
                    (Tells-trans world s kept dropped
                      (keep_root-Tells world binding canonical materialized s)
                      (drop_conflict-Tells world binding_id kept))
                    (learned_tree_files-Tells binding after materialized dropped))
          ]
        ]

    tree_now-Tells :
        (entry : String × ShortcutTreeSnapshot) (s : Session world)
        → Tells world s (session_of world (tree_now m launcher current_saves is_hex_char entry s))
    unfolding tree_now
    tree_now-Tells (binding_id, snapshot) s = tree_binding-Tells binding_id snapshot _ s

    pub run_tree_sync-Tells :
        (snapshots : Dict ShortcutTreeSnapshot) (s : Session world)
        → Tells world s
            (session_of world (run_tree_sync m launcher current_saves is_hex_char snapshots s))
    unfolding run_tree_sync
    run_tree_sync-Tells snapshots s =
        run_all-Tells world (tree_now m launcher current_saves is_hex_char) tree_now-Tells snapshots
          s
