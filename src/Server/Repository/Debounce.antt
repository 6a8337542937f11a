-- ===== src/Server/Repository/Debounce.antt =====
-- A source change is picked up only after it has been stable.
use gamehub.Prelude.{ℕ, ◌+◌, ◌≤◌, ◌<◌, ◌≡◌, true, false, none, some, List, [], ◌∷◌, All, arith}
use gamehub.Server.Repository.{
  Observed, Limits, Repository, served, refresh_if_due, should_refresh_for_ttl,
  observe_source_signature, load_checked, load_seen, load_signed, load, poll_loop,
}

module _ {Bundle : Type 0} (limits : Limits) where
  -- No change has been pending since before `t`.
  abbrev pub PendingFrom : ℕ → Repository Bundle → Type 0
  PendingFrom t repo = elim repo.pending_since [ none ↦ Unit {0} | some since ↦ t ≤ since ]

  -- The cycle falls into the window of `stable_seconds` from `t` on.
  abbrev pub Within : ℕ → Observed Bundle → Type 0
  Within t now = (t ≤ now.observed_at) × (now.observed_at < t + limits.stable_seconds)

  cycle-quiet :
      (t : ℕ) (bundle : Bundle) (now : Observed Bundle) (repo : Repository Bundle)
      → limits.refresh_seconds ≡ 0
      → repo.cache ≡ some bundle
      → PendingFrom t repo
      → Within t now
      → let after = (load limits false true now repo).0 in
        (after.cache ≡ some bundle) × PendingFrom t after
  unfolding load load_checked load_seen load_signed refresh_if_due observe_source_signature
      should_refresh_for_ttl served
  cycle-quiet t bundle now repo ttl cached pending within = ground arith

  -- Without a TTL, poll cycles that fall into one window of `stable_seconds` rebuild nothing,
  -- whatever they observe: the cached index stays, as long as no change was pending before.
  pub poll_loop-quiet :
      (t : ℕ) (bundle : Bundle) (cycles : List (Observed Bundle)) (repo : Repository Bundle)
      → limits.refresh_seconds ≡ 0
      → repo.cache ≡ some bundle
      → PendingFrom t repo
      → All (Within t) cycles
      → (poll_loop limits cycles repo).cache ≡ some bundle
  unfolding poll_loop
  poll_loop-quiet t bundle [] repo ttl cached pending within = cached
  poll_loop-quiet t bundle (now ∷ cycles) repo ttl cached pending within =
      let next = cycle-quiet t bundle now repo ttl cached pending within.0 in
      poll_loop-quiet t bundle cycles _ ttl next.0 next.1 within.1
