-- ===== src/Ids.antt =====
-- src/gamehub_common/ids.py: stable ids, from the first 16 digits of a SHA-256 (a parameter).
use gamehub.Prelude.{String, ◌<>◌}
use gamehub.Prelude.Text.{take_text}
use gamehub.Models.{SaveKind, kind_text}

module _ (sha256_text : String → String) where
  unfoldable pub stable_id : String → String → String
  unfolding take_text
  stable_id prefix payload = prefix <> "_" <> take_text 16 (sha256_text payload)

  unfoldable pub make_save_id : String → String
  unfolding stable_id
  make_save_id server_relative_path = stable_id "save" server_relative_path

  unfoldable pub make_save_binding_id : String → SaveKind → String
  unfolding stable_id
  make_save_binding_id title_id kind = stable_id "savebind" (title_id <> ":" <> kind_text kind)
