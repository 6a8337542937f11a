-- ===== src/Exchange.antt =====
-- What the client exchanges with the server about one save, and how it records it: `World` is the
-- network, the disk and the clock, a state that uploads and downloads change. `record_uploaded_save`
-- and `reconcile_upload_conflict` are those of src/gamehub_cli/sync/save_stage.py, which the stage and
-- the sessions of shortcuts share.
pub mod Settled
use gamehub.Prelude.{String, ◌==◌, Option, none, some, if◌then◌else◌}
use gamehub.Models.{SaveSpec}
use gamehub.Paths.{FilePath}
use gamehub.Saves.{SyncState, record_converged_save_state}

-- The `current` entry of a 409 answer: absent, an object that `SaveSpec` refuses, or a save.
pub data CurrentPayload : Type 0 where
  absent invalid : CurrentPayload
  current : SaveSpec → CurrentPayload

-- What `upload_file_to_server` and `SaveSpec.model_validate` on its result come to: a save, a
-- `SaveUploadConflictError` with its text, or the text of another exception.
pub data UploadReply : Type 0 where
  accepted : SaveSpec → UploadReply
  rejected : String → CurrentPayload → UploadReply
  failed : String → UploadReply

pub record World : Type 1 where
  pub W : Type 0
  -- `upload_file_to_server`: url, source, binding id, suffix, expected remote checksum
  pub upload : String → FilePath → String → String → Option String → W → UploadReply × W
  -- `stream_to_destination_atomic`: url, destination, expected checksum; the text of an exception
  pub fetch : String → FilePath → String → W → Option String × W
  -- `local_file_sha256`, `local_file_updated_at`, `timestamp_now_utc`
  pub local_sha : W → FilePath → Option String
  pub updated_at : W → FilePath → Option String
  pub now : W → String

module _ (world : World) where
  open world use {W, local_sha, updated_at, now}

  -- `record_converged_save_state` at this moment, with the file's own time.
  unfoldable pub settle : String → FilePath → String → String → String → SyncState → W → SyncState
  settle save_id path local_sha256 remote_sha256 remote_updated state env =
      record_converged_save_state save_id local_sha256 remote_sha256 (updated_at env path)
        remote_updated (now env) state

  -- `record_uploaded_save`, or `none` for its `ValueError`.
  unfoldable pub record_uploaded_save :
      String → FilePath → SaveSpec → SyncState → W → Option SyncState
  record_uploaded_save save_id path save state env = elim (local_sha env path) [
    | none ↦ none
    | some sha ↦ some (settle save_id path sha save.sha256 save.updated_at state env)
  ]

  -- The state after `reconcile_upload_conflict` returned a save, or `none` where it returned `None`.
  unfoldable pub reconcile_upload_conflict :
      String → FilePath → SaveSpec → SyncState → W → Option SyncState
  reconcile_upload_conflict save_id path save state env = elim (local_sha env path) [
    | none ↦ none
    | some sha ↦
        if save.sha256 == sha
        then some (settle save_id path sha save.sha256 save.updated_at state env)
        else none
  ]
