-- ===== src/Machine.antt =====
-- What the client reads of its machine: files, the clock's formats, Unicode and SHA-256. None of it
-- is code of the repository, so it is a record of functions that the definitions take, with
-- `local_file_sha256` and `local_file_updated_at` of src/gamehub_cli/common/save_sync.py on top. Its functions return: that a
-- call of the file system may raise is left out.
use gamehub.Prelude.{ℕ, String, Bool, not, ◌||◌, Option, none, some, if◌then◌else◌}
use gamehub.Prelude.Int.{ℤ}
use gamehub.Models.{SaveKind}
use gamehub.Ids.{make_save_id, make_save_binding_id}
use gamehub.Paths.{FilePath}

pub record Machine : Type 0 where
  -- `path.exists()`, `path.is_file()`, `path.stat().st_size`
  pub exists : FilePath → Bool
  pub is_file : FilePath → Bool
  pub size : FilePath → ℕ
  -- `sha256_file(path)`
  pub sha256_file : FilePath → String
  -- `datetime.fromtimestamp(path.stat().st_mtime, tz=utc).isoformat()`
  pub mtime_text : FilePath → String
  -- `text.casefold()`, `text.upper()`
  pub casefold : String → String
  pub upper : String → String
  -- `sha256(text.encode()).hexdigest()`
  pub sha256_text : String → String
  -- a datetime, by its ISO text: `value.astimezone(utc).isoformat()`
  pub utc_text : String → String
  -- `datetime.fromisoformat(text)`, or `none` for a `ValueError`
  pub fromisoformat : String → Option String
  -- `int(value.astimezone(utc).timestamp())`, or `none` where `tzinfo` is `None`
  pub utc_seconds : String → Option ℤ

module _ (m : Machine) where
  unfoldable pub local_file_sha256 : FilePath → Option String
  local_file_sha256 path =
      if not (m.exists path) || not (m.is_file path) then none else some (m.sha256_file path)

  unfoldable pub local_file_updated_at : FilePath → Option String
  local_file_updated_at path =
      if not (m.exists path) || not (m.is_file path) then none else some (m.mtime_text path)

  abbrev pub save_id_at : String → String
  save_id_at server_relative_path = make_save_id m.sha256_text server_relative_path

  abbrev pub binding_id_at : String → SaveKind → String
  binding_id_at title_id kind = make_save_binding_id m.sha256_text title_id kind
