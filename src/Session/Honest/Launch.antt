-- ===== src/Session/Honest/Launch.antt =====
-- The saves before a launch tell every change.
use gamehub.Prelude.{
  ◌≡◌, ◌∙◌, refl, ap, sym, inl, inr, ◌⊎◌, String, Bool, true, false, not, ◌&&◌, Option, none, some,
  List, [], ◌∷◌, is_none, is_some, option_eq, option_eq-some, truthy, Bool-cases, Option-cases,
  arith,
}
use gamehub.Prelude.Dict
use gamehub.Prelude.Dict.{Dict}
use gamehub.Models.{SaveSpec, SaveBindingSpec}
use gamehub.Paths.{FilePath}
use gamehub.Saves.{
  skip, download, upload_existing, upload_new, conflict, other, Outcome, SyncState, lineage_of,
}
use gamehub.Machine.{Machine}
use gamehub.Planner.Types.{GamehubConfig}
use gamehub.Planner.Decide.{
  time_of, datetime, missed_postexit_upload_reason, resolve_missed_upload_timestamp_decision,
}
use gamehub.Session.{Launcher, mark_offline_shortcut_title, clear_offline_shortcut_title}
use gamehub.Session.Launch.{
  Launch, recover_offline, prelaunch_outcome, after_stream, carry_out, prelaunch_at, prelaunch_save,
  prelaunch_saves,
}

module _ (m : Machine) (launcher : Launcher) (config : GamehubConfig) where
  open launcher use {world}

  abbrev pub Tells : Launch m launcher config → Launch m launcher config → Type 0
  Tells s t = (t.changed ≡ true) ⊎ ((t.state ≡ s.state) × (t.changed ≡ s.changed))

  Tells-trans : (s t u : Launch m launcher config) → Tells s t → Tells t u → Tells s u
  Tells-trans s t u g (inl h) = inl h
  Tells-trans s t u (inl g) (inr h) = inl (h.1 ∙ g)
  Tells-trans s t u (inr g) (inr h) = inr (h.0 ∙ g.0, h.1 ∙ g.1)

  recover_offline-Tells :
      (pending : Bool) (save : SaveSpec) (path : FilePath) (local_sha : Option String)
      (s : Launch m launcher config)
      → Tells s (recover_offline m launcher config pending save path local_sha s)
  unfolding recover_offline
  recover_offline-Tells pending save path local_sha s =
      let lineage = lineage_of s.state save.save_id in
      elim (Bool-cases (
        pending
        && is_none (Dict.lookup save.save_id s.state.unresolved_save_conflicts)
        && is_some local_sha
        && not (option_eq local_sha (some save.sha256))
        && is_none lineage.local_sha256
        && is_none lineage.remote_sha256)) [
          | inr e ↦ rw (recover_offline, e) (inr (refl, refl))
          | inl e ↦
              elim (Option-cases (
                resolve_missed_upload_timestamp_decision m config.save_sync.mode
                  (some missed_postexit_upload_reason) (time_of (world.updated_at s.env path))
                  (datetime save.updated_at))) [
                    | inl e' ↦ rw (recover_offline, e, e') (inr (refl, refl))
                    | inr (outcome, e') ↦ rw (recover_offline, e, e') (inl refl)
                  ]
        ]

  after_stream-Tells :
      (save : SaveSpec) (path : FilePath) (local_sha failure : Option String)
      (s : Launch m launcher config)
      → Tells s (after_stream m launcher config save path local_sha failure s)
  unfolding after_stream
  after_stream-Tells save path local_sha (some message) s = inr (refl, refl)
  after_stream-Tells save path local_sha none s = elim (Option-cases (world.local_sha s.env path)) [
    | inl e ↦ rw (after_stream, e) (inr (refl, refl))
    | inr (sha, e) ↦ rw (after_stream, e) (inl refl)
  ]

  carry_out-Tells :
      (save : SaveSpec) (path : FilePath) (local_sha : Option String) (outcome : Outcome)
      (s : Launch m launcher config)
      → Tells s (carry_out m launcher config save path local_sha outcome s)
  unfolding carry_out
  carry_out-Tells save path local_sha (conflict, reason) s = inl refl
  carry_out-Tells save path local_sha (download, reason) s =
      after_stream-Tells save path local_sha _ _
  carry_out-Tells save path local_sha (skip, reason) s = inr (refl, refl)
  carry_out-Tells save path local_sha (upload_existing, reason) s = inr (refl, refl)
  carry_out-Tells save path local_sha (upload_new, reason) s = inr (refl, refl)
  carry_out-Tells save path local_sha (other d, reason) s = inr (refl, refl)

  prelaunch_at-Tells :
      (pending : Bool) (save : SaveSpec) (destination : Option FilePath)
      (s : Launch m launcher config)
      → Tells s (prelaunch_at m launcher config pending save destination s)
  unfolding prelaunch_at
  prelaunch_at-Tells pending save none s = inr (refl, refl)
  prelaunch_at-Tells pending save (some path) s =
      let local_sha = world.local_sha s.env path in
      let recovered = recover_offline m launcher config pending save path local_sha s in
      let outcome = prelaunch_outcome m launcher config save path local_sha recovered in
      Tells-trans s recovered (carry_out m launcher config save path local_sha outcome recovered)
        (recover_offline-Tells pending save path local_sha s)
        (carry_out-Tells save path local_sha outcome recovered)

  pub prelaunch_saves-Tells :
      (pending : Bool) (bindings : Dict SaveBindingSpec) (saves : List SaveSpec)
      (s : Launch m launcher config)
      → Tells s (prelaunch_saves m launcher config pending bindings saves s)
  unfolding prelaunch_saves prelaunch_save
  prelaunch_saves-Tells pending bindings [] s = inr (refl, refl)
  prelaunch_saves-Tells pending bindings (save ∷ saves) s =
      let next = prelaunch_save m launcher config pending bindings save s in
      Tells-trans s next (prelaunch_saves m launcher config pending bindings saves next)
        (prelaunch_at-Tells pending save _ s) (prelaunch_saves-Tells pending bindings saves next)

pub mark_offline_lem :
    (title_id : Option String) (now : String) (state : SyncState)
    → (mark_offline_shortcut_title title_id now state).1 ≡ false
    → (mark_offline_shortcut_title title_id now state).0 ≡ state
unfolding mark_offline_shortcut_title
mark_offline_lem none now state h = refl
mark_offline_lem (some title_id) now state h = elim (Bool-cases (truthy title_id)) [
  | inr e ↦ rw e refl
  | inl e ↦
      elim (Bool-cases
        (option_eq (Dict.lookup title_id state.offline_shortcut_titles) (some now))) [
          | inr e' ↦ absurd (ground (arith, e, e', h))
          | inl e' ↦ rw e (
              ap (λ (titles : Dict String). record state { offline_shortcut_titles = titles })
                (Dict.insert_same title_id now state.offline_shortcut_titles (
                  sym
                    (option_eq-some (Dict.lookup title_id state.offline_shortcut_titles) now e'))))
        ]
]

pub clear_offline_lem :
    (title_id : Option String) (state : SyncState)
    → (clear_offline_shortcut_title title_id state).1 ≡ false
    → (clear_offline_shortcut_title title_id state).0 ≡ state
unfolding clear_offline_shortcut_title
clear_offline_lem none state h = refl
clear_offline_lem (some title_id) state h = elim (Bool-cases (truthy title_id)) [
  | inr e ↦ rw e refl
  | inl e ↦ elim (Option-cases (Dict.lookup title_id state.offline_shortcut_titles)) [
    | inr (t, e') ↦ absurd (ground (arith, e, e', h))
    | inl e' ↦ rw e (
        ap (λ (titles : Dict String). record state { offline_shortcut_titles = titles })
          (Dict.erase_absent title_id state.offline_shortcut_titles e'))
  ]
]
