-- ===== src/Server/Backups.antt =====
-- `_backup_existing_save` of src/gamehub_server/save_api.py and the pruning of the backups that the
-- server makes. The disk is a dict from paths below the data directory to contents. What the clock,
-- the case of names and the calls of the file system do is a record of parameters.
pub mod Kept
use gamehub.Prelude.{
  ℕ, String, ◌<>◌, Bool, ltb, take, drop, length, Option, none, some, List, [], ◌∷◌, ◌++◌, map,
  select, if◌then◌else◌, string_dec,
}
use gamehub.Prelude.Dict
use gamehub.Prelude.Dict.{Dict}
use gamehub.Prelude.Text.{split}
use gamehub.Backups.{SortKey, parse_gamehub_backup_name, sort_descending, is_of, unlink_all}
use gamehub.Backups.Create.{free_name}
use gamehub.Server.Suffix.{last_text, same_parts}

abbrev pub Bytes : Type 0
Bytes = List ℕ

abbrev pub Disk : Type 0
Disk = Dict Bytes

-- An `OSError`, and whether its errno is EROFS.
pub data Fault : Type 0 where
  read_only_volume : Fault
  os_error : String → Fault

-- What a backup meets.
pub record BackupCalls : Type 0 where
  -- the clock, `str` and `casefold`
  pub stamp : String
  pub str : ℕ → String
  pub casefold : String → String
  -- paths that are there and no regular files
  pub others : List String
  -- whether `shutil.copy2` raises, and what it has then left under the new name
  pub copy_fault : Option Fault
  pub torn : Option Bytes
  -- the number of backups that are removed before an `unlink` raises
  pub unlink_fault : Option (ℕ × Fault)
  pub keep_limit : ℕ

-- `path.name` and the parts of `path.parent`
unfoldable pub name_of : String → String
unfolding split last_text
name_of path = last_text (split b'/' path)

all_but_last : List String → List String
all_but_last [] = []
all_but_last (s ∷ []) = []
all_but_last (s ∷ t ∷ r) = s ∷ all_but_last (t ∷ r)

unfoldable pub parent_of : String → List String
unfolding split all_but_last
parent_of path = all_but_last (split b'/' path)

abbrev pub paths_in : Disk → List String
paths_in disk = map (λ (e : String × Bytes). e.0) disk

module _ (calls : BackupCalls) where
  open calls use {stamp, str, casefold, others, copy_fault, torn, unlink_fault, keep_limit}

  -- `_sort_server_save_backups`; the keys are those of the client, with the name of the save first.
  unfoldable pub server_keyed : List String → List (SortKey × String)
  unfolding parse_gamehub_backup_name name_of
  server_keyed [] = []
  server_keyed (path ∷ paths) =
      let rest = server_keyed paths in
      elim (parse_gamehub_backup_name (name_of path)) [
        | none ↦ rest
        | some parsed ↦
            (
              (
                parsed.stamp,
                parsed.collision,
                parsed.original_name <> "\0" <> casefold (name_of path),
                path,
              ),
              path,
            )
            ∷ rest
      ]

  unfoldable pub sort_server_save_backups : List String → List String
  unfolding server_keyed sort_descending
  sort_server_save_backups paths =
      map (λ (e : SortKey × String). e.1) (sort_descending (server_keyed paths))

  -- The files beside the save that are backups of it.
  unfoldable pub server_family : String → Disk → List String
  unfolding parse_gamehub_backup_name is_of name_of parent_of
  server_family path disk =
      select (λ p. is_of casefold (name_of path) (parse_gamehub_backup_name (name_of p)))
        (select (λ p. same_parts (parent_of p) (parent_of path)) (paths_in disk))

  -- The removal of the pruned ones, up to an `OSError`.
  unfoldable pub unlink_pruned : List String → Disk → Option (ℕ × Fault) → Disk × Option Fault
  unfolding unlink_all
  unlink_pruned pruned disk none = (unlink_all casefold pruned disk, none)
  unlink_pruned pruned disk (some (k, fault)) =
      if ltb k (length pruned)
      then (unlink_all casefold (take k pruned) disk, some fault)
      else (unlink_all casefold pruned disk, none)

  unfoldable pub prune_server_save_backups : String → Disk → Disk × Option Fault
  unfolding sort_server_save_backups server_family unlink_pruned
  prune_server_save_backups path disk =
      unlink_pruned (drop keep_limit (sort_server_save_backups (server_family path disk))) disk
        unlink_fault

  -- What a copy that raised has left.
  unfoldable pub left_by_copy : String → Disk → Option Bytes → Disk
  left_by_copy candidate disk none = disk
  left_by_copy candidate disk (some content) = Dict.insert candidate content disk

  unfoldable pub copy_to : String → String → Bytes → Disk → Option Fault → Disk × Option Fault
  unfolding left_by_copy prune_server_save_backups
  copy_to path candidate content disk none =
      prune_server_save_backups path (Dict.insert candidate content disk)
  copy_to path candidate content disk (some fault) = (left_by_copy candidate disk torn, some fault)

  -- The name is missing only if the search runs out of fuel, which is more than there are entries.
  unfoldable pub copy_save : String → Bytes → Disk → Option String → Disk × Option Fault
  unfolding copy_to
  copy_save path content disk none = (disk, none)
  copy_save path content disk (some candidate) = copy_to path candidate content disk copy_fault

  -- The disk afterwards, and the `OSError` that leaves the call.
  unfoldable pub backup_existing_save : String → Disk → Disk × Option Fault
  unfolding copy_save free_name
  backup_existing_save path disk = elim (Dict.lookup path disk) [
    | none ↦ (disk, none)
    | some content ↦
        copy_save path content disk (free_name casefold str (paths_in disk ++ others) path stamp)
  ]
