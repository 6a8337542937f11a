-- ===== src/Server/Upload/Guards.antt =====
-- When an upload writes at all: the compare-and-swap on the checksum.
use gamehub.Prelude.{
  ◌≡◌, refl, String, ◌<>◌, Bool, true, false, is_some, Option, none, some, List, arith, subst, ◌==◌,
  Option-cases, inl, inr, first,
}
use gamehub.Prelude.Dict
use gamehub.Prelude.Text.{strip}
use gamehub.Models.{SaveSpec, SaveBindingSpec}
use gamehub.Ids.{make_save_id}
use gamehub.Server.Suffix.{ok, >>=-ok, normalize_canonical_suffix, validate_binding_suffix}
use gamehub.Server.Upload.{
  Server, Disk, UploadRequest, PutPlan, create, update, plan_write, plan_binding, plan_index,
  put_plan, save_spec_from, expected_sha, field_or_empty,
}

module _ (server : Server) where
  open server use {scan, sha256_text, within_saves_root}

  -- An update goes to a save that the index and the disk both have, and whose indexed checksum is
  -- the one that the client expects.
  abbrev pub MayUpdate : List SaveSpec → String → Option String → Disk → String → Type 0
  MayUpdate saves save_id expected disk path =
      (current : SaveSpec) × (save_spec_from server saves save_id ≡ some current)
      × (expected ≡ some current.sha256)
      × (is_some (Dict.lookup path disk) ≡ true)
      × (make_save_id sha256_text path ≡ save_id)
      × (within_saves_root path ≡ true)

  -- A creation goes to a path that neither the index nor the disk has, and names no checksum.
  abbrev pub MayCreate : List SaveSpec → String → Option String → Disk → String → Type 0
  MayCreate saves save_id expected disk path =
      (save_spec_from server saves save_id ≡ none)
      × (expected ≡ none)
      × (is_some (Dict.lookup path disk) ≡ false)
      × (make_save_id sha256_text path ≡ save_id)
      × (within_saves_root path ≡ true)

  abbrev pub Allowed : List SaveSpec → String → Option String → Disk → PutPlan server → Type 0
  Allowed saves save_id expected disk (create path) = MayCreate saves save_id expected disk path
  Allowed saves save_id expected disk (update path) = MayUpdate saves save_id expected disk path

  plan_write-Allowed :
      (saves : List SaveSpec) (binding : SaveBindingSpec) (suffix rel save_id : String)
      (expected : Option String) (disk : Disk) (found : Option SaveSpec) (there : Bool)
      (plan : PutPlan server)
      → save_spec_from server saves save_id ≡ found
      → is_some (Dict.lookup rel disk) ≡ there
      → make_save_id sha256_text rel ≡ save_id
      → within_saves_root rel ≡ true
      → plan_write server saves binding suffix rel expected found there ≡ ok plan
      → Allowed saves save_id expected disk plan
  unfolding plan_write
  plan_write-Allowed saves binding suffix rel save_id expected disk none true plan f t i w h =
      absurd (cc)
  plan_write-Allowed saves binding suffix rel save_id expected disk (some c) false plan f t i w h =
      absurd (cc)
  plan_write-Allowed saves binding suffix rel save_id none disk none false plan f t i w h =
      let (_, _, e) = >>=-ok (validate_binding_suffix saves binding suffix false) _ h in
      let same : create rel ≡ plan = ground arith in
      subst (Allowed saves save_id none disk) same (f, refl, t, i, w)
  plan_write-Allowed saves binding suffix rel save_id (some x) disk none false plan f t i w h =
      let (_, _, e) = >>=-ok (validate_binding_suffix saves binding suffix false) _ h in
      absurd (ground arith)
  plan_write-Allowed saves binding suffix rel save_id none disk (some c) true plan f t i w h =
      let (_, _, e) = >>=-ok (validate_binding_suffix saves binding suffix true) _ h in
      absurd (ground arith)
  plan_write-Allowed saves binding suffix rel save_id (some x) disk (some c) true plan f t i w h =
      let (_, _, e) = >>=-ok (validate_binding_suffix saves binding suffix true) _ h in
      let same : update rel ≡ plan = ground arith in
      let sha : some x ≡ some c.sha256 = ground arith in
      subst (Allowed saves save_id (some x) disk) same (c, f, sha, t, i, w)

  plan_binding-Allowed :
      (saves : List SaveSpec) (binding : Option SaveBindingSpec) (save_id suffix : String)
      (expected : Option String) (disk : Disk) (plan : PutPlan server)
      → plan_binding server saves binding save_id suffix expected disk ≡ ok plan
      → Allowed saves save_id expected disk plan
  unfolding plan_binding
  plan_binding-Allowed saves none save_id suffix expected disk plan h = absurd (cc)
  plan_binding-Allowed saves (some binding) save_id suffix expected disk plan h =
      let rel = binding.server_rel_dir <> "/" <> suffix in
      plan_write-Allowed saves binding suffix rel save_id expected disk
        (save_spec_from server saves save_id) (is_some (Dict.lookup rel disk)) plan refl refl
        (ground arith) (ground arith) (ground arith)

  -- Whatever `put_save` is going to write, the fresh index allows it: it creates a file only where
  -- neither the index nor the disk has one and no checksum was named, and overwrites one only if the
  -- client named its current checksum; in both cases the path is the one that the save id stands
  -- for, below the saves root.
  pub put_plan-Allowed :
      (request : UploadRequest server) (disk : Disk) (plan : PutPlan server)
      → put_plan server request disk ≡ ok plan
      → (saves : List SaveSpec) × (bindings : List SaveBindingSpec) × (scan disk
          ≡ some (saves, bindings))
        × Allowed saves request.save_id (expected_sha server request.fields) disk plan
  unfolding put_plan plan_index
  put_plan-Allowed request disk plan h =
      let (suffix, _, e) =
        >>=-ok
          (normalize_canonical_suffix (field_or_empty server "canonical_suffix" request.fields)) _
          h in
      elim (Option-cases (scan disk)) [
        | inl none_scanned ↦ absurd (ground arith)
        | inr ((saves, bindings), scanned) ↦ (
          saves,
          bindings,
          scanned,
          plan_binding-Allowed saves
              (first
                (λ (b : SaveBindingSpec).
                  b.binding_id == strip (field_or_empty server "binding_id" request.fields))
                bindings)
              request.save_id suffix (expected_sha server request.fields) disk plan (ground arith),
        )
      ]
