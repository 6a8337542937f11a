-- ===== src/Conflicts/Pruned.antt =====
-- Which conflicts a pruning removes.
use gamehub.Prelude.{
  ◌≡◌, refl, ◌∙◌, String, Bool, true, false, ◌&&◌, ◌||◌, ◌==◌, any, Option, none, some, List, [],
  ◌∷◌, ◌++◌, arith, if◌then◌else◌,
}
use gamehub.Prelude.Dict
use gamehub.Prelude.Dict.{Dict, NodupKeys}
use gamehub.Prelude.Sort.{sort_by, any-sort_by}
use gamehub.Paths.{FilePath}
use gamehub.Saves.{SyncState, record_converged_save_state}
use gamehub.Planner.Types.{SavePlanAction, SyncPlan}
use gamehub.Conflicts.{
  Verdict, keep_save, keep_binding, cleanup, verdict, file_under, PersistedConflictClassification,
  PersistedConflictCleanupCandidate, classify_items, classify_persisted_save_conflicts,
  settle_action, prune_one, prune_candidates, prune_persisted_save_conflicts,
}

abbrev pub is_cleanup : Verdict → Bool
is_cleanup (cleanup action) = true
is_cleanup keep_save = false
is_cleanup keep_binding = false

abbrev by_item : String × String → List String
by_item (conflict_id, reason) = conflict_id ∷ reason ∷ []

abbrev none_yet : PersistedConflictClassification
none_yet = record {
  actionable_save_conflicts = [];
  actionable_binding_conflicts = [];
  cleanup_candidates = [];
}

-- The conflict is among the candidates.
abbrev listed : String → List PersistedConflictCleanupCandidate → Bool
listed k candidates = any (λ (c : PersistedConflictCleanupCandidate). k == c.conflict_id) candidates

any-append :
    {A : Type 0} (test : A → Bool) (xs ys : List A)
    → any test (xs ++ ys) ≡ (any test xs || any test ys)
any-append test [] ys = refl
any-append test (x ∷ xs) ys = ground (arith, any-append test xs ys)

module _ (plan : SyncPlan) (k : String) where
  file_under-listed :
      (conflict_id reason : String) (v : Verdict) (c : PersistedConflictClassification)
      → listed k (file_under plan conflict_id reason v c).cleanup_candidates
        ≡ (listed k c.cleanup_candidates || (k == conflict_id && is_cleanup v))
  unfolding file_under
  file_under-listed conflict_id reason keep_save c = ground arith
  file_under-listed conflict_id reason keep_binding c = ground arith
  file_under-listed conflict_id reason (cleanup action) c = rw any-append (ground arith)

  classify_items-listed :
      (items : Dict String) (c : PersistedConflictClassification)
      → listed k (classify_items plan items c).cleanup_candidates ≡ (
          listed k c.cleanup_candidates
          || any (λ (e : String × String). k == e.0 && is_cleanup (verdict plan e.0 e.1)) items)
  unfolding classify_items
  classify_items-listed [] c = ground arith
  classify_items-listed ((conflict_id, reason) ∷ items) c = ground (
    arith,
    classify_items-listed items
        (file_under plan conflict_id reason (verdict plan conflict_id reason) c),
    file_under-listed conflict_id reason (verdict plan conflict_id reason) c,
  )

module _ (plan : SyncPlan) (updated_at : FilePath → Option String) (now : String → String)
    (k : String) where
  settle_action-unresolved :
      (conflict_id : String) (action : SavePlanAction) (destination : Option FilePath)
      (state : SyncState)
      → (settle_action plan updated_at now conflict_id action destination
          state).unresolved_save_conflicts
        ≡ Dict.erase conflict_id state.unresolved_save_conflicts
  unfolding settle_action record_converged_save_state
  settle_action-unresolved conflict_id action none state = refl
  settle_action-unresolved conflict_id action (some d) state = refl

  prune_one-unresolved :
      (conflict_id : String) (action : Option SavePlanAction) (state : SyncState)
      → (prune_one plan updated_at now conflict_id action state).unresolved_save_conflicts
        ≡ Dict.erase conflict_id state.unresolved_save_conflicts
  unfolding prune_one
  prune_one-unresolved conflict_id none state = refl
  prune_one-unresolved conflict_id (some action) state =
      settle_action-unresolved conflict_id action action.destination state

  prune_candidates-unresolved :
      (candidates : List PersistedConflictCleanupCandidate) (state : SyncState)
      → Dict.lookup k
          (prune_candidates plan updated_at now candidates state).unresolved_save_conflicts
        ≡ (if listed k candidates then none else Dict.lookup k state.unresolved_save_conflicts)
  unfolding prune_candidates
  prune_candidates-unresolved [] state = refl
  prune_candidates-unresolved (c ∷ cs) state = ground (
    arith,
    prune_candidates-unresolved cs (prune_one plan updated_at now c.conflict_id c.action state),
    prune_one-unresolved c.conflict_id c.action state,
    Dict.lookup-erase k c.conflict_id state.unresolved_save_conflicts,
  )

  -- What pruning leaves of a conflict: itself, unless its verdict is cleanup.
  abbrev pub survivor : Option String → Option String
  survivor none = none
  survivor (some reason) = if is_cleanup (verdict plan k reason) then none else some reason

  -- Pruning removes exactly the conflicts whose verdict is cleanup: for every id, the table of
  -- unresolved conflicts keeps an actionable conflict with its reason and gains no other.
  pub prune-survivors :
      (state : SyncState)
      → NodupKeys state.unresolved_save_conflicts
      → Dict.lookup k
          (prune_persisted_save_conflicts plan updated_at now state).1.unresolved_save_conflicts
        ≡ survivor (Dict.lookup k state.unresolved_save_conflicts)
  unfolding prune_persisted_save_conflicts classify_persisted_save_conflicts
  prune-survivors state unique =
      let conflicts = state.unresolved_save_conflicts in
      let candidates = (classify_persisted_save_conflicts plan state).cleanup_candidates in
      let cleans = λ (j r : String). is_cleanup (verdict plan j r) in
      let found : listed k candidates
          ≡ elim (Dict.lookup k conflicts) [ none ↦ false | some r ↦ cleans k r ] =
        classify_items-listed plan k (sort_by by_item conflicts) none_yet
        ∙ any-sort_by by_item (λ (e : String × String). k == e.0 && cleans e.0 e.1) conflicts
        ∙ Dict.any-lookup k cleans conflicts unique in
      prune_candidates-unresolved candidates state ∙ survives (Dict.lookup k conflicts) _ found
    where
      survives :
          (o : Option String) (gone : Bool)
          → gone ≡ elim o [ none ↦ false | some r ↦ is_cleanup (verdict plan k r) ]
          → (if gone then none else o) ≡ survivor o
      survives none gone e = rw e
      survives (some r) gone e = rw e
