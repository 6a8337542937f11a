-- ===== src/Session/Honest/Creates.antt =====
-- The files that the exit uploads for the first time tell every change.
use gamehub.Prelude.{refl, inl, inr, String, ◌==◌, ◌<>◌, Bool-cases, Option-cases}
use gamehub.Prelude.Dict
use gamehub.Prelude.Dict.{Dict}
use gamehub.Models.{SaveSpec, SaveBindingSpec}
use gamehub.Paths.{FilePath}
use gamehub.Machine.{Machine, save_id_at}
use gamehub.Exchange.{
  World, UploadReply, accepted, rejected, failed, absent, invalid, current, record_uploaded_save,
  reconcile_upload_conflict,
}
use gamehub.Session.{Launcher, ShortcutExactBindingSnapshot}
use gamehub.Session.Creates.{
  Session, session_of, after_create, create_save, exact_found, exact_file, exact_binding,
  run_exact_binding_sync,
}
use gamehub.Session.Honest.{Tells, run_all-Tells}

module _ (world : World) where
  after_create-Tells :
      (save_id : String) (path : FilePath) (reply : UploadReply) (s : Session world)
      → Tells world s (session_of world (after_create world save_id path reply s))
  unfolding after_create
  after_create-Tells save_id path (accepted save) s =
      elim (Option-cases (record_uploaded_save world save_id path save s.state s.env)) [
        | inl e ↦ rw (e, session_of) (inl refl)
        | inr (state, e) ↦ rw (e, session_of) (inl refl)
      ]
  after_create-Tells save_id path (rejected reason absent) s = inl refl
  after_create-Tells save_id path (rejected reason invalid) s = inr (refl, refl)
  after_create-Tells save_id path (rejected reason (current save)) s =
      elim (Option-cases (reconcile_upload_conflict world save_id path save s.state s.env)) [
        | inl e ↦ rw (e, session_of) (inl refl)
        | inr (state, e) ↦ rw (e, session_of) (inl refl)
      ]
  after_create-Tells save_id path (failed message) s = inl refl

  pub create_save-Tells :
      (binding : SaveBindingSpec) (save_id suffix : String) (path : FilePath) (s : Session world)
      → Tells world s (session_of world (create_save world binding save_id suffix path s))
  unfolding create_save
  create_save-Tells binding save_id suffix path s = after_create-Tells save_id path _ _

module _ (m : Machine) (launcher : Launcher) (current_saves : Dict SaveSpec) where
  open launcher use {world, exact_destination, binding_root}

  exact_found-Tells :
      (binding : SaveBindingSpec) (filename : String) (path : FilePath) (sha : String)
      (s : Session world)
      → Tells world s
          (session_of world (exact_found m launcher current_saves binding filename path sha s))
  unfolding exact_found
  exact_found-Tells binding filename path sha s =
      let save_id = save_id_at m (binding.server_rel_dir <> "/" <> filename) in
      elim (Option-cases (Dict.lookup save_id current_saves)) [
        | inl e ↦ rw (e, session_of) (create_save-Tells world binding save_id filename path s)
        | inr (save, e) ↦ elim (Bool-cases (sha == save.sha256)) [
          | inl e' ↦ rw (e, e', session_of) (inl refl)
          | inr e' ↦ rw (e, e', session_of) (inl refl)
        ]
      ]

  exact_file-Tells :
      (snapshot : ShortcutExactBindingSnapshot) (root : FilePath) (filename : String)
      (s : Session world)
      → Tells world s
          (session_of world (exact_file m launcher current_saves snapshot root filename s))
  unfolding exact_file
  exact_file-Tells snapshot root filename s =
      let path =
        exact_destination s.env snapshot.binding.system snapshot.binding.kind root filename in
      elim (Option-cases (Dict.lookup filename snapshot.local_sha256_by_suffix)) [
        | inl e ↦ rw (e, session_of) (inr (refl, refl))
        | inr (before_sha, e) ↦ elim (Option-cases (world.local_sha s.env path)) [
          | inl e' ↦ rw (e, e', session_of) (inr (refl, refl))
          | inr (sha, e') ↦
              rw (e, e', session_of) (exact_found-Tells snapshot.binding filename path sha s)
        ]
      ]

  exact_binding-Tells :
      (entry : String × ShortcutExactBindingSnapshot) (s : Session world)
      → Tells world s (session_of world (exact_binding m launcher current_saves entry s))
  unfolding exact_binding
  exact_binding-Tells (binding_id, snapshot) s =
      elim (Option-cases (binding_root s.env snapshot.binding)) [
        | inl e ↦ rw (e, session_of) (inr (refl, refl))
        | inr (root, e) ↦
            rw (e, session_of)
              (run_all-Tells world (exact_file m launcher current_saves snapshot root)
                (exact_file-Tells snapshot root) snapshot.binding.candidate_filenames s)
      ]

  pub run_exact_binding_sync-Tells :
      (snapshots : Dict ShortcutExactBindingSnapshot) (s : Session world)
      → Tells world s
          (session_of world (run_exact_binding_sync m launcher current_saves snapshots s))
  unfolding run_exact_binding_sync
  run_exact_binding_sync-Tells snapshots s =
      run_all-Tells world (exact_binding m launcher current_saves) exact_binding-Tells snapshots s
