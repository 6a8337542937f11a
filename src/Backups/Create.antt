-- ===== src/Backups/Create.antt =====
-- `backup_existing_file` of src/gamehub_cli/common/fsops.py: a copy of a file under a free name, and
-- the pruning of its older backups. The stamp is the clock's, and `str` prints a number.
use gamehub.Prelude.{
  ℕ, zero, suc, String, Bool, ◌==◌, ◌<>◌, any, ltb, length, Option, none, some, List, ◌++◌, map,
  if◌then◌else◌,
}
use gamehub.Prelude.Dict
use gamehub.Prelude.Dict.{Dict}
use gamehub.Backups.{prune_backup_family}

-- The regular files, and the names of the other entries.
pub record Directory {ℓ} (C : Type ℓ) : Type ℓ where
  pub files : Dict C
  pub others : List String

pub data BackupResult {ℓ} (C : Type ℓ) : Type ℓ where
  no_file invalid_limit out_of_fuel : BackupResult C
  backed_up : String → List String → Directory C → BackupResult C

abbrev pub is_in : List String → String → Bool
is_in names name = any (λ n. name == n) names

module _ (casefold : String → String) (str : ℕ → String) where
  abbrev pub plain : String → String → String
  plain name stamp = name <> "." <> stamp <> ".bak"

  abbrev pub numbered : String → String → ℕ → String
  numbered name stamp n = (name <> "." <> stamp <> ".") <> (str n <> ".bak")

  -- `while candidate.exists()`, on fuel.
  unfoldable pub free_from : ℕ → List String → String → String → ℕ → Option String
  free_from zero entries name stamp n = none
  free_from (suc fuel) entries name stamp n =
      let rest = free_from fuel entries name stamp (suc n) in
      if is_in entries (numbered name stamp n) then rest else some (numbered name stamp n)

  -- One more number than there are entries.
  unfoldable pub free_name : List String → String → String → Option String
  unfolding free_from
  free_name entries name stamp =
      if is_in entries (plain name stamp)
      then free_from (suc (length entries)) entries name stamp 1
      else some (plain name stamp)

  module _ {ℓ} {C : Type ℓ} where
    abbrev pub entries_of : Directory C → List String
    entries_of d = map (λ (e : String × C). e.0) d.files ++ d.others

    -- The copy, and the pruning.
    unfoldable pub copy_and_prune : String → ℕ → C → Directory C → Option String → BackupResult C
    unfolding prune_backup_family
    copy_and_prune name keep_limit content d none = out_of_fuel
    copy_and_prune name keep_limit content d (some created) =
        let (files, pruned) =
          prune_backup_family casefold name keep_limit (Dict.insert created content d.files) in
        backed_up created pruned (record d { files = files })

    unfoldable pub backup_existing_file : String → ℕ → String → Directory C → BackupResult C
    unfolding free_name copy_and_prune
    backup_existing_file name keep_limit stamp d = elim (Dict.lookup name d.files) [
      | none ↦ no_file
      | some content ↦
          if ltb keep_limit 1
          then invalid_limit
          else copy_and_prune name keep_limit content d (free_name (entries_of d) name stamp)
    ]
