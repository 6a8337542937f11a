-- ===== src/Server/Repository/Serves.antt =====
-- What a call of `load` returns, and what it leaves cached, exceptions included.
use gamehub.Prelude.{
  ◌≡◌, refl, ◌⊎◌, inl, inr, String, Bool, true, false, ◌&&◌, ◌∙◌, ℕ, ap, sym, subst, Option, none,
  some, arith, Option-cases, Bool-cases, is_none,
}
use gamehub.Server.Repository.{
  Observed, Limits, Repository, rebuild_locked, after_failure, installed, complete_build, served,
  refresh_if_due, should_refresh_for_ttl, observe_source_signature, load_signed, load_seen,
  load_checked, load,
}

module _ {Bundle : Type 0} (limits : Limits) where
  -- The cache holds the index that it had or the one that was just built, and an exception has one
  -- of the reasons `E`.
  abbrev Keeps : Type 0 → Bundle → Observed Bundle → Repository Bundle × Bool → Type 0
  Keeps E old now (repo, raised) =
      ((bundle : Bundle) × (repo.cache ≡ some bundle)
        × ((bundle ≡ old) ⊎ (now.built ≡ some bundle)))
      × ((raised ≡ false) ⊎ E)

  failure-cache :
      (repo : Repository Bundle) (signature : Option String) (now : Observed Bundle) (old : Bundle)
      → repo.cache ≡ some old
      → (after_failure limits repo signature now).cache ≡ some old
  unfolding after_failure
  failure-cache repo none now old h = ground arith
  failure-cache repo (some signature) now old h = ground arith

  -- Why a rebuild may raise.
  abbrev RebuildRaises : Option String → Bool → Observed Bundle → Type 0
  RebuildRaises signature raise_on_error now =
      ((raise_on_error ≡ true) × (now.built ≡ none))
      ⊎ ((now.encodes ≡ false) ⊎ ((signature ≡ none) × (now.signature_after ≡ none)))

  complete-Keeps :
      (repo : Repository Bundle) (signature : Option String) (raise_on_error : Bool)
      (now : Observed Bundle) (old bundle : Bundle)
      → repo.cache ≡ some bundle
      → now.built ≡ some bundle
      → Keeps
          (RebuildRaises signature raise_on_error now)
          old
          now
          (complete_build limits repo signature now)
  unfolding complete_build installed
  complete-Keeps repo signature raise_on_error now old bundle c e = elim (Bool-cases now.encodes) [
    | inr f ↦ rw (f, Keeps) ((bundle, c, inr e), inr (inr (inl refl)))
    | inl t ↦ signed signature t
  ]
    where
      signed :
          (signature : Option String)
          → now.encodes ≡ true
          → Keeps
              (RebuildRaises signature raise_on_error now)
              old
              now
              (complete_build limits repo signature now)
      signed (some source) t = rw (t, Keeps) ((bundle, c, inr e), inl refl)
      signed none t = elim (Option-cases now.signature_after) [
        | inl n ↦ rw (t, n, Keeps) ((bundle, c, inr e), inr (inr (inr (refl, refl))))
        | inr (source, n) ↦ rw (t, n, Keeps) ((bundle, c, inr e), inl refl)
      ]

  rebuild-Keeps :
      (repo : Repository Bundle) (signature : Option String) (reason : String)
      (raise_on_error : Bool) (now : Observed Bundle) (old : Bundle)
      → repo.cache ≡ some old
      → Keeps
          (RebuildRaises signature raise_on_error now)
          old
          now
          (rebuild_locked limits repo signature reason raise_on_error now)
  unfolding rebuild_locked
  rebuild-Keeps repo signature reason true now old h = elim (Option-cases now.built) [
    | inl e ↦ rw (e, Keeps) ((old, h, inl refl), inr (inl (refl, refl)))
    | inr (bundle, e) ↦
        let begun = record repo { last_refresh_reason = some reason; cache = some bundle } in
        let same : rebuild_locked limits repo signature reason true now
            ≡ complete_build limits begun signature now =
          rw e refl in
        subst (Keeps (RebuildRaises signature true now) old now) (sym same)
          (complete-Keeps begun signature true now old bundle refl e)
  ]
  rebuild-Keeps repo signature reason false now old h = elim (Option-cases now.built) [
    | inl e ↦
        rw (e, Keeps)
          (rw (stored, Keeps) ((old, failure-cache _ signature _ old h, inl refl), inl refl))
    | inr (bundle, e) ↦
        let begun = record repo { last_refresh_reason = some reason; cache = some bundle } in
        let same : rebuild_locked limits repo signature reason false now
            ≡ complete_build limits begun signature now =
          rw e refl in
        subst (Keeps (RebuildRaises signature false now) old now) (sym same)
          (complete-Keeps begun signature false now old bundle refl e)
  ]
    where
      stored : is_none repo.cache ≡ false
      stored = ap is_none h

  observe-cache :
      (repo : Repository Bundle) (signature : String) (at : ℕ) (wall : String)
      → (observe_source_signature limits repo signature at wall).0.cache ≡ repo.cache
  unfolding observe_source_signature
  observe-cache repo signature at wall = ground arith

  -- A rebuild that was given a signature and keeps the cached index.
  quiet_lem :
      (signature : String) (now : Observed Bundle) (old : Bundle) (after : Repository Bundle × Bool)
      → Keeps (RebuildRaises (some signature) false now) old now after
      → Keeps (now.encodes ≡ false) old now after
  quiet_lem signature now old after (kept, inl e) = (kept, inl e)
  quiet_lem signature now old after (kept, inr (inl e)) = (kept, absurd (ground (arith, e.0)))
  quiet_lem signature now old after (kept, inr (inr (inl e))) = (kept, inr e)
  quiet_lem signature now old after (kept, inr (inr (inr e))) = (kept, absurd (ground (arith, e.0)))

  refresh-Keeps :
      (signature : String) (now : Observed Bundle) (old : Bundle) (due : Repository Bundle × Bool)
      → due.0.cache ≡ some old
      → Keeps (now.encodes ≡ false) old now (refresh_if_due limits due signature now)
  unfolding refresh_if_due
  refresh-Keeps signature now old (repo, true) h =
      quiet_lem signature now old
        (rebuild_locked limits repo (some signature) "source_change" false now)
        (rebuild-Keeps repo (some signature) "source_change" false now old h)
  refresh-Keeps signature now old (repo, false) h =
      elim (Bool-cases (
        is_none repo.pending_source_signature
        && should_refresh_for_ttl limits repo now.observed_at)) [
          | inl e ↦
              rw (refresh_if_due, e)
                (quiet_lem signature now old
                  (rebuild_locked limits repo (some signature) "ttl" false now)
                  (rebuild-Keeps repo (some signature) "ttl" false now old h))
          | inr e ↦ rw (refresh_if_due, e) ((old, h, inl refl), inl refl)
        ]

  -- Why a call may raise although an index is cached: forced, or not, with or without a look at the
  -- sources.
  abbrev pub Raises : Bool → Bool → Observed Bundle → Type 0
  Raises true check_sources now = RebuildRaises none true now
  Raises false false now = ⊥
  Raises false true now = (now.signature ≡ none) ⊎ (now.encodes ≡ false)

  load_signed-Keeps :
      (signature : String) (now : Observed Bundle) (repo : Repository Bundle) (old : Bundle)
      → repo.cache ≡ some old
      → Keeps (now.encodes ≡ false) old now (load_signed limits repo signature now)
  unfolding load_signed
  load_signed-Keeps signature now repo old h =
      let seen = observe_source_signature limits repo signature now.observed_at now.wall in
      let same : load_signed limits repo signature now ≡ refresh_if_due limits seen signature now =
        rw (ap is_none h) refl in
      subst (Keeps (now.encodes ≡ false) old now) (sym same) (
        refresh-Keeps signature now old seen
          (observe-cache repo signature now.observed_at now.wall ∙ h))

  weaken_lem :
      {E F : Type 0} (now : Observed Bundle) (old : Bundle) (after : Repository Bundle × Bool)
      → (E → F)
      → Keeps E old now after
      → Keeps F old now after
  weaken_lem now old after f (kept, inl e) = (kept, inl e)
  weaken_lem now old after f (kept, inr e) = (kept, inr (f e))

  load_seen-Keeps :
      (seen : Option String) (now : Observed Bundle) (repo : Repository Bundle) (old : Bundle)
      → now.signature ≡ seen
      → repo.cache ≡ some old
      → Keeps (Raises false true now) old now (load_seen limits repo seen now)
  unfolding load_seen
  load_seen-Keeps none now repo old e h = ((old, h, inl refl), inr (inl e))
  load_seen-Keeps (some signature) now repo old e h =
      weaken_lem now old (load_signed limits repo signature now) (λ f. inr f)
        (load_signed-Keeps signature now repo old h)

  load_checked-Keeps :
      (check_sources : Bool) (now : Observed Bundle) (repo : Repository Bundle) (old : Bundle)
      → repo.cache ≡ some old
      → Keeps (Raises false check_sources now) old now (load_checked limits repo check_sources now)
  unfolding load_checked
  load_checked-Keeps false now repo old h =
      let stored : is_none repo.cache ≡ false = ap is_none h in
      rw (stored, Keeps) ((old, h, inl refl), inl refl)
  load_checked-Keeps true now repo old h = load_seen-Keeps now.signature now repo old refl h

  -- What `load` returns and leaves, with the reasons `E` for an exception.
  abbrev pub Returned :
      Type 0 → Bundle → Observed Bundle → Repository Bundle × Option Bundle → Type 0
  Returned E old now after =
      (bundle : Bundle) × (after.0.cache ≡ some bundle)
      × ((bundle ≡ old) ⊎ (now.built ≡ some bundle))
      × ((after.1 ≡ some bundle) ⊎ ((after.1 ≡ none) × E))

  served-Returned :
      {E : Type 0} (now : Observed Bundle) (old : Bundle) (repo : Repository Bundle) (raised : Bool)
      → Keeps E old now (repo, raised)
      → Returned E old now (served limits (repo, raised))
  unfolding served
  served-Returned now old repo true (kept, inl e) = absurd (ground (arith, e))
  served-Returned now old repo true ((bundle, c, origin), inr e) =
      (bundle, c, origin, inr (refl, e))
  served-Returned now old repo false ((bundle, c, origin), e) = (bundle, c, origin, inl c)

  -- No call of `load` loses a cached index, exceptions included: it leaves the index that was cached
  -- or the one that this call built, and returns what it leaves. It raises only for these reasons.
  -- A forced one: the build fails, the payload cannot be encoded, or the signature of the data
  -- directory cannot be read after the build. One that looks at the sources: the signature cannot
  -- be read before, or the payload cannot be encoded. One that does not look never raises.
  pub load-serves :
      (force_refresh check_sources : Bool) (now : Observed Bundle) (repo : Repository Bundle)
      (old : Bundle)
      → repo.cache ≡ some old
      → Returned
          (Raises force_refresh check_sources now)
          old
          now
          (load limits force_refresh check_sources now repo)
  unfolding load
  load-serves true check_sources now repo old h =
      let rebuilt = rebuild_locked limits repo none "forced" true now in
      served-Returned now old rebuilt.0 rebuilt.1 (rebuild-Keeps repo none "forced" true now old h)
  load-serves false check_sources now repo old h =
      let checked = load_checked limits repo check_sources now in
      served-Returned now old checked.0 checked.1 (load_checked-Keeps check_sources now repo old h)
