-- ===== src/Exchange/Settled.antt =====
-- What recording an exchange leaves alone.
use gamehub.Prelude.{◌≡◌, ◌≢◌, subst, String, some, Option-cases, inl, inr, arith}
use gamehub.Models.{SaveSpec}
use gamehub.Paths.{FilePath}
use gamehub.Saves.{SyncState}
use gamehub.Saves.SameAt.{SameAt, record_converged-SameAt}
use gamehub.Exchange.{World, settle, record_uploaded_save, reconcile_upload_conflict}

module _ (k : String) (world : World) where
  pub settle-SameAt :
      (save_id : String) (path : FilePath) (l r u : String) (state : SyncState) (env : world.W)
      → k ≢ save_id
      → SameAt k (settle world save_id path l r u state env) state
  unfolding settle
  settle-SameAt save_id path l r u state env ne =
      record_converged-SameAt k save_id l r _ u _ state ne

  pub record_uploaded_save-SameAt :
      (save_id : String) (path : FilePath) (save : SaveSpec) (state : SyncState) (env : world.W)
      (after : SyncState)
      → k ≢ save_id
      → record_uploaded_save world save_id path save state env ≡ some after
      → SameAt k after state
  unfolding record_uploaded_save
  record_uploaded_save-SameAt save_id path save state env after ne h =
      elim (Option-cases (world.local_sha env path)) [
        | inl e ↦ absurd (ground arith)
        | inr (sha, e) ↦
            let same : settle world save_id path sha save.sha256 save.updated_at state env ≡ after =
              ground arith in
            subst (λ s. SameAt k s state) same (settle-SameAt save_id path sha _ _ state env ne)
      ]

  pub reconcile_upload_conflict-SameAt :
      (save_id : String) (path : FilePath) (save : SaveSpec) (state : SyncState) (env : world.W)
      (after : SyncState)
      → k ≢ save_id
      → reconcile_upload_conflict world save_id path save state env ≡ some after
      → SameAt k after state
  unfolding reconcile_upload_conflict
  reconcile_upload_conflict-SameAt save_id path save state env after ne h =
      elim (Option-cases (world.local_sha env path)) [
        | inl e ↦ absurd (ground arith)
        | inr (sha, e) ↦
            let same : settle world save_id path sha save.sha256 save.updated_at state env ≡ after =
              ground arith in
            subst (λ s. SameAt k s state) same (settle-SameAt save_id path sha _ _ state env ne)
      ]
