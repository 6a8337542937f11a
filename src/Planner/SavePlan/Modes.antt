-- ===== src/Planner/SavePlan/Modes.antt =====
-- Download mode and the filter on systems: what they keep a plan from doing to saves.
use gamehub.Prelude.{
  String, ◌≡◌, refl, ◌⊎◌, inl, inr, true, false, not, Option, none, some, List, [], ◌∷◌, arith, All,
  All-append, Bool-cases, Option-cases,
}
use gamehub.Prelude.Sort.{sort_by-All}
use gamehub.Models.{SaveSpec, SaveBindingSpec, Strategy, exact_files, learned_tree}
use gamehub.Paths.{FilePath}
use gamehub.Saves.{skip, download, download_mode, SyncState, lineage_of}
use gamehub.Saves.Safety.{download_mode_outcome}
use gamehub.Machine.{Machine, local_file_sha256, local_file_updated_at}
use gamehub.Planner.Types.{SavePlanAction, GamehubConfig}
use gamehub.Planner.Decide.{resolve_save_action, time_of, datetime}
use gamehub.Planner.Decide.Missed.{resolve_save_action-download_mode}
use gamehub.Planner.SavePlan.Limits.{
  All-map, All-imp, All-each, All-select, select-All, decide-of, plan_saves-All,
}
use gamehub.Planner.SavePlan.{
  SaveLocator, filtered_out, active_save_bindings, files_of, candidates_of, candidates_from,
  discover_local_exact_save_candidates, local_only_action, plan_local_only_exact_saves, decide_save,
  plan_saves, contains,
}
use gamehub.Prelude.Dict

abbrev Reads : SavePlanAction → Type 0
Reads a = (a.decision ≡ skip) ⊎ (a.decision ≡ download)

module _ (m : Machine) (locator : SaveLocator) (config : GamehubConfig) (state : SyncState) where
  local_only-Reads :
      (ids : List String) (bindings : List SaveBindingSpec)
      → config.save_sync.mode ≡ download_mode
      → All Reads (plan_local_only_exact_saves m locator config ids bindings)
  unfolding plan_local_only_exact_saves local_only_action
  local_only-Reads ids bindings mode =
      All-map Reads (local_only_action m locator config) _
        (All-each (λ c. Reads (local_only_action m locator config c)) _ (λ c. rw mode (inl refl)))

  resolved-Reads :
      (save_sha : String) (local_sha : Option String)
      (lineage_l lineage_r unresolved local_time : Option String) (updated : String)
      → let outcome =
          resolve_save_action m save_sha local_sha download_mode config.save_sync.conflict_policy
            lineage_l lineage_r unresolved
            (time_of local_time)
            (datetime updated) in
        (outcome.0 ≡ skip) ⊎ (outcome.0 ≡ download)
  resolved-Reads save_sha local_sha lineage_l lineage_r unresolved local_time updated =
      rw resolve_save_action-download_mode
        (elim (download_mode_outcome save_sha local_sha config.save_sync.conflict_policy lineage_l
          lineage_r) [ inl h ↦ inr h.0 | inr h ↦ inl h.0 ])

  decide-Reads :
      (save : SaveSpec) (destination : Option FilePath)
      → config.save_sync.mode ≡ download_mode
      → let decision = (decide_save m locator config state save destination).0.0 in
        (decision ≡ skip) ⊎ (decision ≡ download)
  unfolding decide_save
  decide-Reads save none mode = ground arith
  decide-Reads save (some path) mode = rw mode (
      ground (
        arith,
        resolved-Reads save.sha256 (local_file_sha256 m path)
            (lineage_of state save.save_id).local_sha256
            (lineage_of state save.save_id).remote_sha256
            (Dict.lookup save.save_id state.unresolved_save_conflicts)
            (local_file_updated_at m path) save.updated_at,
      ))

  -- In download mode every save action of a plan is a skip or a download: nothing is uploaded and
  -- no conflict is raised, whatever the lineage, the policy and a missed upload say.
  pub plan_saves-download_mode :
      (bindings : Option (List SaveBindingSpec)) (saves : List SaveSpec)
      (actions : List SavePlanAction)
      → config.save_sync.mode ≡ download_mode
      → plan_saves m locator config state bindings saves ≡ some actions
      → All (λ a. (a.decision ≡ skip) ⊎ (a.decision ≡ download)) actions
  plan_saves-download_mode bindings saves actions mode =
      plan_saves-All m locator config state Reads bindings saves actions
        (λ ids. local_only-Reads ids _ mode)
        (λ by_id save a h.
          rw (decide-of m locator config state by_id save a h).0 (decide-Reads save _ mode))

  -- The system passes the filter.
  abbrev Passes : String → Type 0
  Passes system = filtered_out m locator config system ≡ false

  files_of-Passes :
      (binding : SaveBindingSpec) (root : FilePath) (filenames : List String)
      → Passes binding.system
      → All (λ c. Passes c.system) (files_of m locator binding root filenames)
  unfolding files_of
  files_of-Passes binding root [] p = tt
  files_of-Passes binding root (f ∷ fs) p =
      elim (Option-cases (locator.existing_exact_path binding root f)) [
        | inl e ↦ rw (e, All) (files_of-Passes binding root fs p)
        | inr (path, e) ↦ rw (e, All) (p, files_of-Passes binding root fs p)
      ]

  candidates_of-Passes :
      (binding : SaveBindingSpec) (strategy : Strategy)
      → Passes binding.system
      → All (λ c. Passes c.system) (candidates_of m locator binding strategy)
  unfolding candidates_of
  candidates_of-Passes binding learned_tree p = tt
  candidates_of-Passes binding exact_files p =
      elim (Option-cases (locator.resolve_binding_local_root binding)) [
        | inl e ↦ rw (e, All) tt
        | inr (root, e) ↦ rw (e, All) (files_of-Passes binding root binding.candidate_filenames p)
      ]

  candidates_from-Passes :
      (bindings : List SaveBindingSpec)
      → All (λ b. not (filtered_out m locator config b.system) ≡ true) bindings
      → All (λ c. Passes c.system) (candidates_from m locator bindings)
  unfolding candidates_from
  candidates_from-Passes [] h = tt
  candidates_from-Passes (b ∷ bs) h =
      All-append _ (candidates_of m locator b b.strategy) (candidates_from m locator bs)
        (candidates_of-Passes b b.strategy (ground (arith, h.0))) (candidates_from-Passes bs h.1)

  active-Passes :
      (bindings : Option (List SaveBindingSpec))
      → All
          (λ b. not (filtered_out m locator config b.system) ≡ true)
          (active_save_bindings m locator config bindings)
  unfolding active_save_bindings
  active-Passes none = tt
  active-Passes (some bindings) = elim (Bool-cases config.save_sync.enabled) [
    | inl e ↦ rw e (select-All _ bindings)
    | inr e ↦ rw e tt
  ]

  local_only-Passes :
      (ids : List String) (bindings : Option (List SaveBindingSpec))
      → All
          (λ a. (a.decision ≡ skip) ⊎ Passes a.system)
          (plan_local_only_exact_saves m locator config ids
            (active_save_bindings m locator config bindings))
  unfolding plan_local_only_exact_saves discover_local_exact_save_candidates local_only_action
  local_only-Passes ids bindings =
      All-map (λ a. (a.decision ≡ skip) ⊎ Passes a.system) (local_only_action m locator config) _
        (All-select _ (λ c. not (contains ids c.save_id)) _
          (All-imp (λ c. Passes c.system) _ (λ c p. inr p) _
            (sort_by-All _ (λ c. Passes c.system) _
              (candidates_from-Passes (active_save_bindings m locator config bindings)
                (active-Passes bindings)))))

  decide-Passes :
      (save : SaveSpec) (destination : Option FilePath)
      → ((decide_save m locator config state save destination).0.0 ≡ skip) ⊎ Passes save.system
  unfolding decide_save
  decide-Passes save destination = elim (Bool-cases (filtered_out m locator config save.system)) [
    | inl e ↦ inl (ground arith)
    | inr e ↦ inr e
  ]

  -- With a filter on systems, every save action of a plan for a system outside it is a skip.
  pub plan_saves-filtered :
      (bindings : Option (List SaveBindingSpec)) (saves : List SaveSpec)
      (actions : List SavePlanAction)
      → plan_saves m locator config state bindings saves ≡ some actions
      → All (λ a. (a.decision ≡ skip) ⊎ (filtered_out m locator config a.system ≡ false)) actions
  plan_saves-filtered bindings saves actions =
      plan_saves-All m locator config state (λ a. (a.decision ≡ skip) ⊎ Passes a.system) bindings
        saves actions (λ ids. local_only-Passes ids bindings)
        (λ by_id save a h.
          let same = decide-of m locator config state by_id save a h in
          rw (same.0, same.1) (decide-Passes save _))
