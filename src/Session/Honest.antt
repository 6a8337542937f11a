-- ===== src/Session/Honest.antt =====
-- Whether the result of an exit tells that the state has changed: the caller saves it only then.
pub mod Creates
pub mod Trees
pub mod Exit
pub mod Launch
pub mod Run
use gamehub.Prelude.{
  ℕ, ◌≡◌, refl, ap, sym, ◌∙◌, ◌⊎◌, inl, inr, String, Bool, true, false, Option, none, some, List,
  [], ◌∷◌, option_eq, option_eq-some, is_some, not, ◌&&◌, Bool-cases, Option-cases, arith,
}
use gamehub.Prelude.Dict
use gamehub.Prelude.Dict.{Dict}
use gamehub.Paths.{FilePath}
use gamehub.Saves.{SyncState, SaveLineageRecord, lineage_of}
use gamehub.Exchange.{World}
use gamehub.Planner.Decide.{missed_postexit_upload_reason}
use gamehub.Session.{record_missed_postexit_upload}
use gamehub.Session.Creates.{Session, Progress, going, left, session_of, run_all, and_then, advance}

module _ (world : World) where
  -- A step that does not report a change has left the state and the report alone.
  abbrev pub Tells : Session world → Session world → Type 0
  Tells s t = (t.changed ≡ true) ⊎ ((t.state ≡ s.state) × (t.changed ≡ s.changed))

  pub Tells-trans : (s t u : Session world) → Tells s t → Tells t u → Tells s u
  Tells-trans s t u g (inl h) = inl h
  Tells-trans s t u (inl g) (inr h) = inl (h.1 ∙ g)
  Tells-trans s t u (inr g) (inr h) = inr (h.0 ∙ g.0, h.1 ∙ g.1)

  pub and_then-Tells :
      (s : Session world) (next : Session world → Progress world) (p : Progress world)
      → Tells s (session_of world p)
      → ((t : Session world) → Tells t (session_of world (next t)))
      → Tells s (session_of world (and_then world next p))
  and_then-Tells s next (left t) one h = one
  and_then-Tells s next (going t) one h = Tells-trans s t (session_of world (next t)) one (h t)

  pub run_all-Tells {ℓ} :
      {A : Type ℓ} (body : A → Session world → Progress world)
      → ((item : A) (s : Session world) → Tells s (session_of world (body item s)))
      → (items : List A) (s : Session world)
      → Tells s (session_of world (run_all world body items s))
  unfolding run_all
  run_all-Tells body h [] s = inr (refl, refl)
  run_all-Tells body h (item ∷ items) s =
      and_then-Tells s (run_all world body items) (body item s) (h item s)
        (run_all-Tells body h items)

  same_time :
      (a updated : Option String)
      → (is_some updated && not (option_eq a updated)) ≡ false
      → ◌≡◌ {A = Option String} (elim updated [ none ↦ a | some t ↦ some t ]) a
  same_time a none h = refl
  same_time none (some t) h = absurd (ground arith)
  same_time (some a) (some t) h = ground arith

  lineage_found :
      (save_id : String) (state : SyncState) (lin : SaveLineageRecord)
      → Dict.lookup save_id state.save_lineage ≡ some lin
      → Dict.lookup save_id state.save_lineage ≡ some (lineage_of state save_id)
  unfolding lineage_of
  lineage_found save_id state lin e = rw (lineage_of, e) refl

  -- A missed upload that is reported as known has been recorded before.
  pub record_missed_lem :
      (save_id : String) (path : FilePath) (sha : String) (state : SyncState) (env : world.W)
      → (record_missed_postexit_upload world save_id path sha state env).1 ≡ false
      → (record_missed_postexit_upload world save_id path sha state env).0 ≡ state
  unfolding record_missed_postexit_upload
  record_missed_lem save_id path sha state env h =
      let lin = lineage_of state save_id in
      let conflicts = state.unresolved_save_conflicts in
      elim (Option-cases (Dict.lookup save_id state.save_lineage)) [
        | inl e ↦ absurd (ground (arith, e, h))
        | inr (found, e) ↦
            let p : some sha ≡ lin.local_sha256 =
              option_eq-some lin.local_sha256 sha (ground (arith, h)) in
            let q =
              same_time lin.local_updated_at (world.updated_at env path) (ground (arith, h)) in
            let r = Dict.insert_same save_id missed_postexit_upload_reason conflicts (
              sym (
                option_eq-some (Dict.lookup save_id conflicts) missed_postexit_upload_reason
                  (ground (arith, h)))) in
            let t =
              Dict.insert_same save_id lin state.save_lineage
                (lineage_found save_id state found e) in
            ap
              (λ (next : SaveLineageRecord). record state {
                save_lineage = Dict.insert save_id next state.save_lineage;
                unresolved_save_conflicts =
                    Dict.insert save_id missed_postexit_upload_reason conflicts;
              })
              (λ i. record lin { local_sha256 = p i; local_updated_at = q i })
            ∙ (λ i. record state { save_lineage = t i; unresolved_save_conflicts = r i })
      ]
