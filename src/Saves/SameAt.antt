-- ===== src/Saves/SameAt.antt =====
-- What leaves the tables of one save alone.
use gamehub.Prelude.{◌≡◌, ◌≢◌, refl, ◌∙◌, String, Option, arith}
use gamehub.Prelude.Dict
use gamehub.Saves.{SyncState, record_converged_save_state}

module _ (k : String) where
  -- The tables hold the same for the save `k`.
  pub record SameAt (a b : SyncState) : Type 0 where
    pub checksum : Dict.lookup k a.save_checksums ≡ Dict.lookup k b.save_checksums
    pub lineage : Dict.lookup k a.save_lineage ≡ Dict.lookup k b.save_lineage
    pub unresolved :
        Dict.lookup k a.unresolved_save_conflicts ≡ Dict.lookup k b.unresolved_save_conflicts

  pub SameAt-refl : (a : SyncState) → SameAt a a
  SameAt-refl a = record { checksum = refl; lineage = refl; unresolved = refl }

  pub SameAt-trans : {a b c : SyncState} → SameAt a b → SameAt b c → SameAt a c
  SameAt-trans g h = record {
    checksum = g.checksum ∙ h.checksum;
    lineage = g.lineage ∙ h.lineage;
    unresolved = g.unresolved ∙ h.unresolved;
  }

  pub record_converged-SameAt :
      (save_id l r : String) (local_updated : Option String) (u now : String) (state : SyncState)
      → k ≢ save_id
      → SameAt (record_converged_save_state save_id l r local_updated u now state) state
  unfolding record_converged_save_state
  record_converged-SameAt save_id l r local_updated u now state ne = record {
    checksum = ground (arith, Dict.lookup-insert k save_id l state.save_checksums);
    lineage = Dict.lookup-insert k save_id _ state.save_lineage ∙ ground arith;
    unresolved = ground (arith, Dict.lookup-erase k save_id state.unresolved_save_conflicts);
  }

  pub note-SameAt :
      (save_id reason : String) (state : SyncState)
      → k ≢ save_id
      → SameAt
          (record state {
            unresolved_save_conflicts = Dict.insert save_id reason state.unresolved_save_conflicts;
          })
          state
  note-SameAt save_id reason state ne = record {
    checksum = refl;
    lineage = refl;
    unresolved =
        ground (arith, Dict.lookup-insert k save_id reason state.unresolved_save_conflicts);
  }
