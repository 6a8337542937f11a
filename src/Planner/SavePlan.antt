-- ===== src/Planner/SavePlan.antt =====
-- The saves of a plan: `discover_local_exact_save_candidates` of
-- src/gamehub_cli/emulators/save_resolution.py and the last loops of `create_sync_plan`.
pub mod Limits
pub mod Modes
use gamehub.Prelude.{
  ℕ, String, ◌<>◌, Bool, true, false, not, ◌&&◌, ◌==◌, ltb, is_empty, Option, none, some, List, [],
  ◌∷◌, ◌++◌, map, any, select, drop, length, if◌then◌else◌,
}
use gamehub.Prelude.Dict
use gamehub.Prelude.Dict.{Dict}
use gamehub.Prelude.Sort.{sort_by}
use gamehub.Prelude.Text.{join}
use gamehub.Models.{
  SaveKind, kind_text, SaveSpec, SaveBindingSpec, Strategy, exact_files, learned_tree,
}
use gamehub.Paths.{FilePath, normalized_posix_parts}
use gamehub.Saves.{
  Decision, skip, upload_new, download, upload_existing, conflict, other, Mode, download_mode,
  bidirectional, Outcome, SyncState, SaveBindingRootRecord, lineage_of,
}
use gamehub.Machine.{Machine, local_file_sha256, local_file_updated_at, save_id_at, binding_id_at}
use gamehub.Planner.Types.{SavePlanAction, GamehubConfig}
use gamehub.Planner.Decide.{resolve_save_action, datetime, time_of}

-- Where the emulators of this machine keep their saves: what the planner calls of
-- src/gamehub_cli/emulators/save_resolution.py.
pub record SaveLocator : Type 0 where
  pub resolve_binding_local_root : SaveBindingSpec → Option FilePath
  pub existing_exact_path : SaveBindingSpec → FilePath → String → Option FilePath
  pub resolve_local_save_destination :
      SaveSpec → Dict SaveBindingRootRecord → Option SaveBindingSpec → Option FilePath

pub record LocalSaveCandidate : Type 0 where
  pub binding_id : String
  pub title_id : String
  pub system : String
  pub kind : SaveKind
  pub save_id : String
  pub canonical_suffix : String
  pub path : FilePath
  pub sha256 : String
  pub size_bytes : ℕ

-- `text in texts`
abbrev pub contains : List String → String → Bool
contains texts t = any (λ s. t == s) texts

abbrev pub decision_text : Decision → String
decision_text skip = "skip"
decision_text download = "download"
decision_text upload_existing = "upload_existing"
decision_text upload_new = "upload_new"
decision_text conflict = "conflict"
decision_text (other s) = s

module _ (m : Machine) (locator : SaveLocator) where
  open locator use {resolve_binding_local_root, existing_exact_path, resolve_local_save_destination}

  candidate_at : SaveBindingSpec → String → FilePath → LocalSaveCandidate
  candidate_at binding filename path = record {
    binding_id = binding.binding_id;
    title_id = binding.title_id;
    system = binding.system;
    kind = binding.kind;
    save_id = save_id_at m (binding.server_rel_dir <> "/" <> filename);
    canonical_suffix = filename;
    path = path;
    sha256 = m.sha256_file path;
    size_bytes = m.size path;
  }

  files_of : SaveBindingSpec → FilePath → List String → List LocalSaveCandidate
  unfolding candidate_at
  files_of binding root [] = []
  files_of binding root (filename ∷ filenames) =
      let rest = files_of binding root filenames in
      elim (existing_exact_path binding root filename) [
        | none ↦ rest
        | some path ↦ candidate_at binding filename path ∷ rest
      ]

  candidates_of : SaveBindingSpec → Strategy → List LocalSaveCandidate
  unfolding files_of
  candidates_of binding exact_files = elim (resolve_binding_local_root binding) [
    | none ↦ []
    | some root ↦ files_of binding root binding.candidate_filenames
  ]
  candidates_of binding learned_tree = []

  candidates_from : List SaveBindingSpec → List LocalSaveCandidate
  unfolding candidates_of
  candidates_from [] = []
  candidates_from (binding ∷ bindings) =
      candidates_of binding binding.strategy ++ candidates_from bindings

  unfoldable pub discover_local_exact_save_candidates :
      List SaveBindingSpec → List LocalSaveCandidate
  unfolding candidates_from
  discover_local_exact_save_candidates bindings =
      sort_by
        (λ (c : LocalSaveCandidate). c.system ∷ c.title_id ∷ c.canonical_suffix ∷ c.save_id ∷ [])
        (candidates_from bindings)

  module _ (config : GamehubConfig) where
    -- `config.save_sync.systems and system.upper() not in config.save_sync.systems`
    abbrev pub filtered_out : String → Bool
    filtered_out system =
        not (is_empty config.save_sync.systems)
        && not (contains config.save_sync.systems (m.upper system))

    unfoldable pub active_save_bindings : Option (List SaveBindingSpec) → List SaveBindingSpec
    active_save_bindings none = []
    active_save_bindings (some bindings) =
        if not config.save_sync.enabled
        then []
        else select (λ binding. not (filtered_out binding.system)) bindings

    local_only_outcome : Mode → Outcome
    local_only_outcome download_mode = (skip, "download-mode-local-new")
    local_only_outcome bidirectional = (upload_new, "local-only-create")

    local_only_action : LocalSaveCandidate → SavePlanAction
    unfolding local_only_outcome
    local_only_action candidate =
        let (decision, reason) = local_only_outcome config.save_sync.mode in
        record {
          save_id = candidate.save_id;
          binding_id = candidate.binding_id;
          title_id = candidate.title_id;
          system = candidate.system;
          kind = candidate.kind;
          decision = decision;
          reason = reason;
          url = "/v1/saves/" <> candidate.save_id;
          destination = some candidate.path;
          canonical_suffix = candidate.canonical_suffix;
          expected_sha256 = candidate.sha256;
          size_bytes = candidate.size_bytes;
          remote_updated_at = "";
          local_sha256 = some candidate.sha256;
        }

    -- Candidates that the server does not have, as actions.
    unfoldable pub plan_local_only_exact_saves :
        List String → List SaveBindingSpec → List SavePlanAction
    unfolding local_only_action
    plan_local_only_exact_saves remote_save_ids bindings = map local_only_action (
        select (λ c. not (contains remote_save_ids c.save_id))
          (discover_local_exact_save_candidates bindings))

    module _ (state : SyncState) where
      -- The decision, its reason and the local checksum for an indexed save.
      unfoldable pub decide_save : SaveSpec → Option FilePath → Outcome × Option String
      decide_save save destination =
          if not config.save_sync.enabled
          then ((skip, "save-sync-disabled"), none)
          else if filtered_out save.system
          then ((skip, "system-filtered"), none)
          else elim destination [
            | none ↦ ((skip, "save-path-unavailable"), none)
            | some path ↦
                let local_sha = local_file_sha256 m path in
                let lineage = lineage_of state save.save_id in
                (
                  resolve_save_action m save.sha256 local_sha config.save_sync.mode
                      config.save_sync.conflict_policy lineage.local_sha256 lineage.remote_sha256
                      (Dict.lookup save.save_id state.unresolved_save_conflicts)
                      (time_of (local_file_updated_at m path)) (datetime save.updated_at),
                  local_sha,
                )
          ]

-- `parts[-1]`, or `none` for the `ValueError` on a path without parts
last_part : List String → Option String
last_part [] = none
last_part (s ∷ []) = some s
last_part (s ∷ t ∷ r) = last_part (t ∷ r)

unfoldable pub canonical_suffix_from_rel_path : String → Option String
unfolding normalized_posix_parts last_part join
canonical_suffix_from_rel_path rel_path =
    let parts = normalized_posix_parts rel_path in
    if ltb (length parts) 5 then last_part parts else some (join "/" (drop 4 parts))

module _ (m : Machine) (locator : SaveLocator) (config : GamehubConfig) (state : SyncState)
    (bindings_by_id : Dict SaveBindingSpec) where
  abbrev pub save_destination : SaveSpec → Option FilePath
  save_destination save =
      locator.resolve_local_save_destination save state.save_binding_roots
        (Dict.lookup (binding_id_at m save.title_id save.kind) bindings_by_id)

  -- The body of the loop over `index.saves`; `none` for the `ValueError` of the suffix.
  unfoldable pub save_action : SaveSpec → Option SavePlanAction
  save_action save =
      let destination = save_destination save in
      let decided = decide_save m locator config state save destination in
      elim (canonical_suffix_from_rel_path save.rel_path) [
        | none ↦ none
        | some suffix ↦ some (record {
          save_id = save.save_id;
          binding_id = binding_id_at m save.title_id save.kind;
          title_id = save.title_id;
          system = save.system;
          kind = save.kind;
          decision = decided.0.0;
          reason = decided.0.1;
          url = "/v1/saves/" <> save.save_id;
          destination = destination;
          canonical_suffix = suffix;
          expected_sha256 = save.sha256;
          size_bytes = save.size_bytes;
          remote_updated_at = m.utc_text save.updated_at;
          local_sha256 = decided.1;
        })
      ]

  unfoldable pub indexed_save_actions : List SaveSpec → Option (List SavePlanAction)
  indexed_save_actions [] = some []
  indexed_save_actions (save ∷ saves) =
      let rest = indexed_save_actions saves in
      elim (save_action save) [
        | none ↦ none
        | some action ↦ elim rest [ none ↦ none | some actions ↦ some (action ∷ actions) ]
      ]

-- `{binding.binding_id: binding for binding in active_bindings}`
unfoldable pub bindings_by_id_from :
    List SaveBindingSpec → Dict SaveBindingSpec → Dict SaveBindingSpec
bindings_by_id_from [] d = d
bindings_by_id_from (binding ∷ bindings) d =
    bindings_by_id_from bindings (Dict.insert binding.binding_id binding d)

abbrev pub save_key : SaveSpec → List String
save_key save = save.system ∷ save.title_id ∷ save.rel_path ∷ save.save_id ∷ []

abbrev action_key : SavePlanAction → List String
action_key a =
    a.system
    ∷ a.title_id
    ∷ kind_text a.kind
    ∷ decision_text a.decision
    ∷ a.canonical_suffix
    ∷ a.save_id
    ∷ []

-- All save actions of a plan, in its order.
unfoldable pub plan_saves :
    Machine
    → SaveLocator
    → GamehubConfig
    → SyncState
    → Option (List SaveBindingSpec)
    → List SaveSpec
    → Option (List SavePlanAction)
plan_saves m locator config state save_bindings saves =
    let active = active_save_bindings m locator config save_bindings in
    let remote_ids = map (λ (save : SaveSpec). save.save_id) saves in
    let local_only = plan_local_only_exact_saves m locator config remote_ids active in
    elim (indexed_save_actions m locator config state (bindings_by_id_from active [])
      (sort_by save_key saves)) [
        | none ↦ none
        | some indexed ↦ some (sort_by action_key (local_only ++ indexed))
      ]
