-- ===== src/Downloads.antt =====
-- `download_with_atomic_write` of src/gamehub_cli/sync/downloads.py and `replace_file` of
-- src/gamehub_cli/common/fsops.py: a download goes to a part file, is checked, and then takes the
-- place of its destination. What the network and the file system do in one download is a record of
-- faults; errors are texts. The digest over the chunks is the digest of their concatenation.
pub mod Checked
use gamehub.Prelude.{
  ℕ, String, ◌<>◌, Bool, true, false, not, ◌==◌, is_some, Option, none, some, List, [], ◌∷◌, ◌++◌,
  if◌then◌else◌,
}
use gamehub.Prelude.Dict
use gamehub.Prelude.Dict.{Dict}

abbrev pub Bytes : Type 0
Bytes = List ℕ

abbrev pub Disk : Type 0
Disk = Dict Bytes

-- An `OSError`, and whether `_should_fallback_replace` accepts it, or whether it is a
-- `PermissionError`, where the code asks for that.
pub data Fault : Type 0 where
  special plain : String → Fault

abbrev pub message : Fault → String
message (special text) = text
message (plain text) = text

pub record Faults : Type 0 where
  -- `mkdir` or `open` fails
  pub prepare : Option String
  -- `httpx` is there; what the response yields, and the error that ends it or the writing
  pub httpx : Bool
  pub chunks : List Bytes
  pub stream : Option String
  pub rename : Option Fault
  -- a failing copy, and what it leaves in the destination
  pub copy : Option (Bytes × String)
  pub unlink : Option Fault
  pub truncate : Option String

-- The loop over `iter_bytes` passes over empty chunks, the one over `read` stops at the first.
unfoldable pub received : Bool → List Bytes → Bytes
received httpx [] = []
received true (chunk ∷ chunks) = chunk ++ received true chunks
received false ([] ∷ chunks) = []
received false ((b ∷ chunk) ∷ chunks) = (b ∷ chunk) ++ received false chunks

-- The error that leaves a function, if any, and the disk afterwards.
abbrev pub Effect : Type 0
Effect = Option String × Disk

-- `path.open("wb")`, `truncate(0)`
abbrev emptied : Option String → String → Disk → Effect
emptied none path disk = (none, Dict.insert path [] disk)
emptied (some text) path disk = (some text, disk)

-- `_cleanup_part_file`
unfoldable pub cleanup_part_file : Faults → String → Disk → Effect
cleanup_part_file faults path disk = elim faults.unlink [
  | none ↦ (none, Dict.erase path disk)
  | some (plain text) ↦ (some text, disk)
  | some (special text) ↦
      if not (is_some (Dict.lookup path disk))
      then (none, disk)
      else emptied faults.truncate path disk
]

-- The end of the fallback: the source is removed, or emptied where that fails.
remove_source : Faults → String → Disk → Effect
remove_source faults source disk = elim faults.unlink [
  | none ↦ (none, Dict.erase source disk)
  | some fault ↦ emptied faults.truncate source disk
]

copy_over : Faults → String → String → Bytes → Disk → Effect
unfolding remove_source
copy_over faults source destination content disk = elim faults.copy [
  | some (partial, text) ↦ (some text, Dict.insert destination partial disk)
  | none ↦ remove_source faults source (Dict.insert destination content disk)
]

-- `content` is what the source holds.
unfoldable pub replace_file : Faults → String → String → Bytes → Disk → Effect
unfolding copy_over
replace_file faults source destination content disk = elim faults.rename [
  | none ↦ (none, Dict.insert destination content (Dict.erase source disk))
  | some (plain text) ↦ (some text, disk)
  | some (special text) ↦ copy_over faults source destination content disk
]

module _ (sha256 : Bytes → String) where
  -- The error of the cleanup takes the place of the checksum's.
  mismatch : Effect → Effect
  mismatch (none, disk) = (some "Checksum mismatch", disk)
  mismatch (some text, disk) = (some text, disk)

  check_and_replace : Faults → String → String → Bytes → Disk → Effect
  unfolding mismatch
  check_and_replace faults destination expected_sha256 content disk =
      let part_path = destination <> ".part" in
      if not (sha256 content == expected_sha256)
      then mismatch (cleanup_part_file faults part_path disk)
      else replace_file faults part_path destination content disk

  unfoldable pub download_with_atomic_write : Faults → String → String → Disk → Effect
  unfolding check_and_replace
  download_with_atomic_write faults destination expected_sha256 disk =
      let content = received faults.httpx faults.chunks in
      let written = Dict.insert (destination <> ".part") content disk in
      elim faults.prepare [
        | some text ↦ (some text, disk)
        | none ↦ elim faults.stream [
          | some text ↦ (some text, written)
          | none ↦ check_and_replace faults destination expected_sha256 content written
        ]
      ]
