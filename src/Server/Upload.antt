-- ===== src/Server/Upload.antt =====
-- `_write_save_upload` and `put_save` of src/gamehub_server/save_api.py, after the multipart body has
-- been parsed and for a request that holds the lock of its save. The disk is a dict from paths below
-- the data directory to contents; the index scan, symbolic links and the faults of the file system
-- are parameters. Error texts leave out the numbers and ids that the source formats into them.
pub mod Writes
pub mod Guards
use gamehub.Prelude.{
  ℕ, ◌+◌, String, ◌<>◌, Bool, true, false, not, ltb, ◌==◌, is_none, is_some, option_eq, truthy,
  Option, none, some, List, [], ◌∷◌, ◌++◌, length, first, if◌then◌else◌, string_dec,
}
use gamehub.Prelude.Dict
use gamehub.Prelude.Dict.{Dict}
pub use gamehub.Server.Backups.{Bytes, Disk, Fault, read_only_volume, os_error}
use gamehub.Server.Backups.{BackupCalls, backup_existing_save}
use gamehub.Prelude.Text.{strip}
use gamehub.Models.{SaveSpec, SaveBindingSpec}
use gamehub.Ids.{make_save_id}
use gamehub.Server.Suffix.{
  HttpError, detail, conflict, unhandled, Answer, ok, err, ◌>>=◌, normalize_canonical_suffix,
  validate_binding_suffix,
}

-- The calls of `_write_save_upload` that may raise an `OSError`.
pub data WriteStep : Type 0 where
  mkdir open_part sync replace unlink : WriteStep

pub record Server : Type 0 where
  -- `build_index`: the saves and the bindings, or `none` where it raises
  pub scan : Disk → Option (List SaveSpec × List SaveBindingSpec)
  pub sha256_text : String → String
  -- `path.resolve()` is below the saves root
  pub within_saves_root : String → Bool
  pub backups : BackupCalls
  pub faults : WriteStep → Option Fault

-- `path.with_suffix(f"{path.suffix}.part")`
abbrev pub part_of : String → String
part_of path = path <> ".part"

-- The reads of the upload, up to its first empty chunk: their length and content, or what had been
-- written when the limit was passed.
pub data Received : Type 0 where
  complete : ℕ → Bytes → Received
  too_large : Bytes → Received

unfoldable pub receive : ℕ → List Bytes → ℕ → Bytes → Received
receive max_upload_bytes [] bytes_written content = complete bytes_written content
receive max_upload_bytes ([] ∷ chunks) bytes_written content = complete bytes_written content
receive max_upload_bytes ((b ∷ chunk) ∷ chunks) bytes_written content =
    let bytes_written' = bytes_written + length (b ∷ chunk) in
    let rest = receive max_upload_bytes chunks bytes_written' (content ++ (b ∷ chunk)) in
    if ltb max_upload_bytes bytes_written' then too_large content else rest

module _ (server : Server) where
  open server use {scan, sha256_text, within_saves_root, backups, faults}

  -- `with suppress(OSError): part_path.unlink(missing_ok=True)`
  discard_part : String → Disk → Disk
  discard_part path disk = elim (faults unlink) [
    | none ↦ Dict.erase (part_of path) disk
    | some fault ↦ disk
  ]

  storage_error : Fault → HttpError
  storage_error read_only_volume =
      detail 500
        "Server data volume is read-only; save uploads require a writable GAMEHUB_DATA_DIR mount"
  storage_error (os_error message) = detail 500 ("Failed to store save upload: " <> message)

  -- The handler for an `OSError`.
  give_up : String → Fault → Disk → Answer ℕ × Disk
  unfolding discard_part storage_error
  give_up path fault disk = (err (storage_error fault), discard_part path disk)

  -- One guarded call, then the rest.
  guarded : String → Option Fault → Disk → (Disk → Answer ℕ × Disk) → Answer ℕ × Disk
  unfolding give_up
  guarded path (some fault) disk rest = give_up path fault disk
  guarded path none disk rest = rest disk

  -- `part_path.replace(path)`
  move_part : String → Bytes → Disk → Disk
  move_part path content disk = Dict.insert path content (Dict.erase (part_of path) disk)

  write_part : String → ℕ → Received → Disk → Answer ℕ × Disk
  unfolding guarded move_part discard_part
  write_part path max_upload_bytes (too_large content) disk =
      let written = Dict.insert (part_of path) content disk in
      (err (detail 413 "Save upload exceeds maximum allowed size"), discard_part path written)
  write_part path max_upload_bytes (complete n content) disk =
      let written = Dict.insert (part_of path) content disk in
      guarded path (faults sync) written
        λ d. guarded path (faults replace) d λ d'. (ok n, move_part path content d')

  backup_first : String → Bool → Disk → Disk × Option Fault
  unfolding backup_existing_save
  backup_first path true disk = (disk, none)
  backup_first path false disk = backup_existing_save backups path disk

  unfoldable pub write_save_upload : String → List Bytes → Bool → ℕ → Disk → Answer ℕ × Disk
  unfolding write_part backup_first guarded
  write_save_upload path chunks create max_upload_bytes disk = guarded path (faults mkdir) disk λ d.
      let backed = backup_first path create d in
      guarded path backed.1 backed.0 λ d'. guarded path (faults open_part) d' λ d''.
        write_part path max_upload_bytes (receive max_upload_bytes chunks 0 [])
          (Dict.insert (part_of path) [] d'')

  pub record UploadRequest : Type 0 where
    pub save_id : String
    pub fields : Dict String
    pub chunks : List Bytes

  -- `fields.get(name, "")`
  abbrev field_or_empty : String → Dict String → String
  field_or_empty name fields = elim (Dict.lookup name fields) [ none ↦ "" | some v ↦ v ]

  -- `expected_remote_sha256.strip() or None`
  abbrev or_none : String → Option String
  or_none s = if truthy s then some s else none

  abbrev pub expected_sha : Dict String → Option String
  expected_sha fields = elim (Dict.lookup "expected_remote_sha256" fields) [
    | none ↦ none
    | some v ↦ or_none (strip v)
  ]

  unfoldable pub save_spec_from : List SaveSpec → String → Option SaveSpec
  save_spec_from saves save_id = first (λ save. save.save_id == save_id) saves

  -- What the guards of `put_save` allow: a new file or an overwritten one.
  pub data PutPlan : Type 0 where
    create update : String → PutPlan

  -- The checks on the save that the index and the disk have.
  plan_write :
      List SaveSpec
      → SaveBindingSpec
      → String
      → String
      → Option String
      → Option SaveSpec
      → Bool
      → Answer PutPlan
  plan_write saves binding suffix rel_path expected none true =
      err (conflict "target-exists-unindexed" none)
  plan_write saves binding suffix rel_path expected (some current) false =
      err (conflict "indexed-save-missing-file" (some current))
  plan_write saves binding suffix rel_path expected none false =
      validate_binding_suffix saves binding suffix false >>= λ _.
      (if is_some expected
        then err (detail 400 "expected_remote_sha256 is only valid for existing saves")
        else ok (create rel_path))
  plan_write saves binding suffix rel_path none (some current) true =
      validate_binding_suffix saves binding suffix true >>= λ _.
      err (conflict "target-exists" (some current))
  plan_write saves binding suffix rel_path (some expected) (some current) true =
      validate_binding_suffix saves binding suffix true >>= λ _.
      (if not (current.sha256 == expected)
        then err (conflict "remote-sha-mismatch" (some current))
        else ok (update rel_path))

  plan_binding :
      List SaveSpec
      → Option SaveBindingSpec
      → String
      → String
      → Option String
      → Disk
      → Answer PutPlan
  unfolding plan_write
  plan_binding saves none save_id suffix expected disk = err (detail 404 "Unknown binding_id")
  plan_binding saves (some binding) save_id suffix expected disk =
      let rel_path = binding.server_rel_dir <> "/" <> suffix in
      if not (make_save_id sha256_text rel_path == save_id)
      then err (detail 400 "save_id does not match binding_id + canonical_suffix")
      else if not (within_saves_root rel_path)
      then err (detail 400 "Resolved save path escapes saves root")
      else plan_write saves binding suffix rel_path expected (save_spec_from saves save_id)
          (is_some (Dict.lookup rel_path disk))

  plan_index :
      Option (List SaveSpec × List SaveBindingSpec)
      → String
      → String
      → String
      → Option String
      → Disk
      → Answer PutPlan
  unfolding plan_binding
  plan_index none binding_id save_id suffix expected disk = err unhandled
  plan_index (some (saves, bindings)) binding_id save_id suffix expected disk =
      plan_binding saves (first (λ (b : SaveBindingSpec). b.binding_id == binding_id) bindings)
        save_id suffix expected disk

  -- Everything that `put_save` checks before it writes, in its order.
  unfoldable pub put_plan : UploadRequest → Disk → Answer PutPlan
  unfolding plan_index
  put_plan request disk =
      let binding_id = strip (field_or_empty "binding_id" request.fields) in
      normalize_canonical_suffix (field_or_empty "canonical_suffix" request.fields) >>= λ suffix.
      (if not (truthy binding_id)
        then err (detail 400 "binding_id is required")
        else plan_index (scan disk) binding_id request.save_id suffix (expected_sha request.fields)
            disk)

  -- The save of the refreshed index; the status is 201 for a new file.
  refreshed : ℕ → String → Option (List SaveSpec × List SaveBindingSpec) → Answer (ℕ × SaveSpec)
  refreshed status save_id none = err unhandled
  refreshed status save_id (some (saves, bindings)) = elim (save_spec_from saves save_id) [
    | none ↦ err (detail 500 "Uploaded save missing after refresh")
    | some save ↦ ok (status, save)
  ]

  answer_for : ℕ → String → Answer ℕ × Disk → Answer (ℕ × SaveSpec) × Disk
  unfolding refreshed
  answer_for status save_id (err e, disk) = (err e, disk)
  answer_for status save_id (ok n, disk) = (refreshed status save_id (scan disk), disk)

  carry_out : ℕ → UploadRequest → Answer PutPlan → Disk → Answer (ℕ × SaveSpec) × Disk
  unfolding answer_for
  carry_out max_upload_bytes request (err e) disk = (err e, disk)
  carry_out max_upload_bytes request (ok (create path)) disk =
      answer_for 201 request.save_id
        (write_save_upload path request.chunks true max_upload_bytes disk)
  carry_out max_upload_bytes request (ok (update path)) disk =
      answer_for 200 request.save_id
        (write_save_upload path request.chunks false max_upload_bytes disk)

  unfoldable pub put_save : ℕ → UploadRequest → Disk → Answer (ℕ × SaveSpec) × Disk
  unfolding carry_out
  put_save max_upload_bytes request disk =
      carry_out max_upload_bytes request (put_plan request disk) disk
