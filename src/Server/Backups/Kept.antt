-- ===== src/Server/Backups/Kept.antt =====
-- A backup leaves the file itself alone.
use gamehub.Prelude.{
  ℕ, zero, suc, ◌≡◌, ◌∙◌, refl, ap, String, Bool, true, false, ◌==◌, Option, none, some, List, [],
  ◌∷◌, ◌++◌, map, select, take, drop, All, ltb, length, arith, Bool-cases, Option-cases, inl, inr,
}
use gamehub.Prelude.Dict
use gamehub.Prelude.Dict.{Dict}
use gamehub.Backups.{
  SortKey, parse_gamehub_backup_name, sort_key_lt, insert_descending, sort_descending, is_of,
  unlink_all,
}
use gamehub.Backups.Shorter.{not_own_backup}
use gamehub.Backups.Create.{plain, numbered, is_in, free_from, free_name}
use gamehub.Server.Suffix.{same_parts}
use gamehub.Server.Backups.{
  Bytes, Disk, Fault, BackupCalls, name_of, parent_of, paths_in, server_keyed,
  sort_server_save_backups, server_family, unlink_pruned, prune_server_save_backups, left_by_copy,
  copy_to, copy_save, backup_existing_save,
}

module _ (calls : BackupCalls) (path : String) where
  open calls use {stamp, str, casefold, others, copy_fault, torn, unlink_fault, keep_limit}

  abbrev Other : String → Type 0
  Other p = (path == p) ≡ false

  -- A name that the search finds is not taken.
  abbrev Fresh : List String → Option String → Type 0
  Fresh entries none = Unit
  Fresh entries (some candidate) = is_in entries candidate ≡ false

  free_from-Fresh :
      (fuel n : ℕ) (entries : List String)
      → Fresh entries (free_from casefold str fuel entries path stamp n)
  unfolding free_from
  free_from-Fresh zero n entries = tt
  free_from-Fresh (suc fuel) n entries =
      elim (Bool-cases (is_in entries (numbered casefold str path stamp n))) [
        | inr e ↦ rw (free_from, e) e
        | inl e ↦ rw (free_from, e) (free_from-Fresh fuel (suc n) entries)
      ]

  free_name-Fresh :
      (entries : List String) → Fresh entries (free_name casefold str entries path stamp)
  unfolding free_name
  free_name-Fresh entries = elim (Bool-cases (is_in entries (plain casefold str path stamp))) [
    | inr e ↦ rw (free_name, e) e
    | inl e ↦ rw (free_name, e) (free_from-Fresh (suc (length entries)) 1 entries)
  ]

  -- A file that is there is among the entries, so a new name is another one.
  fresh-Other :
      (candidate : String) (disk : Disk) (content : Bytes)
      → Dict.lookup path disk ≡ some content
      → is_in (paths_in disk ++ others) candidate ≡ false
      → Other candidate
  unfolding Dict.lookup
  fresh-Other candidate [] content h fresh = absurd (ground (arith, h))
  fresh-Other candidate ((j, v) ∷ disk) content h fresh = elim (Bool-cases (path == j)) [
    | inl e ↦ ground (arith, e, fresh)
    | inr e ↦ fresh-Other candidate disk content (ground (arith, e, h)) (ground (arith, fresh))
  ]

  unlink_all-keeps :
      (paths : List String) (disk : Disk)
      → All Other paths
      → Dict.lookup path (unlink_all casefold paths disk) ≡ Dict.lookup path disk
  unfolding unlink_all
  unlink_all-keeps [] disk hs = refl
  unlink_all-keeps (p ∷ paths) disk hs =
      unlink_all-keeps paths (Dict.erase p disk) hs.1
      ∙ Dict.lookup-erase path p disk
      ∙ ground (arith, hs.0)

  -- The members of the family are other files.
  is_backup : String → Bool
  is_backup p = is_of casefold (name_of path) (parse_gamehub_backup_name (name_of p))

  is_backup-Other : (p : String) → is_backup p ≡ true → Other p
  unfolding is_backup
  is_backup-Other p h = elim (Bool-cases (path == p)) [
    | inr e ↦ e
    | inl e ↦
        let same : path ≡ p = ground (arith, e) in
        absurd (ground (arith, h, ap is_backup same, not_own_backup casefold (name_of path)))
  ]

  select-Other : (paths : List String) → All Other (select is_backup paths)
  select-Other [] = tt
  select-Other (p ∷ paths) = elim (Bool-cases (is_backup p)) [
    | inl e ↦ rw e (is_backup-Other p e, select-Other paths)
    | inr e ↦ rw e (select-Other paths)
  ]

  abbrev OtherKeyed : SortKey × String → Type 0
  OtherKeyed entry = Other entry.1

  server_keyed-All :
      (paths : List String) → All Other paths → All OtherKeyed (server_keyed calls paths)
  unfolding server_keyed
  server_keyed-All [] hs = tt
  server_keyed-All (p ∷ paths) hs = elim (Option-cases (parse_gamehub_backup_name (name_of p))) [
    | inl e ↦ rw (server_keyed, e) (server_keyed-All paths hs.1)
    | inr (parsed, e) ↦ rw (server_keyed, e) (hs.0, server_keyed-All paths hs.1)
  ]

  insert_descending-All :
      (x : SortKey × String) (ys : List (SortKey × String))
      → OtherKeyed x
      → All OtherKeyed ys
      → All OtherKeyed (insert_descending x ys)
  unfolding insert_descending
  insert_descending-All x [] h hs = (h, hs)
  insert_descending-All x (y ∷ ys) h hs = elim (Bool-cases (sort_key_lt x.0 y.0)) [
    | inl e ↦ rw e (hs.0, insert_descending-All x ys h hs.1)
    | inr e ↦ rw e (h, hs)
  ]

  sort_descending-All :
      (xs : List (SortKey × String)) → All OtherKeyed xs → All OtherKeyed (sort_descending xs)
  unfolding sort_descending
  sort_descending-All [] hs = hs
  sort_descending-All (x ∷ xs) hs =
      insert_descending-All x (sort_descending xs) hs.0 (sort_descending-All xs hs.1)

  map-All :
      (xs : List (SortKey × String))
      → All OtherKeyed xs
      → All Other (map (λ (e : SortKey × String). e.1) xs)
  map-All [] hs = tt
  map-All (x ∷ xs) hs = (hs.0, map-All xs hs.1)

  drop-All : (k : ℕ) (xs : List String) → All Other xs → All Other (drop k xs)
  drop-All zero xs hs = hs
  drop-All (suc k) [] hs = tt
  drop-All (suc k) (x ∷ xs) hs = drop-All k xs hs.1

  take-All : (k : ℕ) (xs : List String) → All Other xs → All Other (take k xs)
  take-All zero xs hs = tt
  take-All (suc k) [] hs = tt
  take-All (suc k) (x ∷ xs) hs = (hs.0, take-All k xs hs.1)

  unlink_pruned-keeps :
      (pruned : List String) (disk : Disk) (fault : Option (ℕ × Fault))
      → All Other pruned
      → Dict.lookup path (unlink_pruned calls pruned disk fault).0 ≡ Dict.lookup path disk
  unfolding unlink_pruned
  unlink_pruned-keeps pruned disk none hs = unlink_all-keeps pruned disk hs
  unlink_pruned-keeps pruned disk (some (k, fault)) hs = elim (Bool-cases (ltb k (length pruned))) [
    | inl e ↦ rw e (unlink_all-keeps (take k pruned) disk (take-All k pruned hs))
    | inr e ↦ rw e (unlink_all-keeps pruned disk hs)
  ]

  prune-keeps :
      (disk : Disk)
      → Dict.lookup path (prune_server_save_backups calls path disk).0 ≡ Dict.lookup path disk
  unfolding prune_server_save_backups sort_server_save_backups server_family is_backup
  prune-keeps disk =
      let beside = select (λ p. same_parts (parent_of p) (parent_of path)) (paths_in disk) in
      let keyed = server_keyed calls (select is_backup beside) in
      let sorted = map (λ (e : SortKey × String). e.1) (sort_descending keyed) in
      unlink_pruned-keeps (drop keep_limit sorted) disk unlink_fault (
        drop-All keep_limit sorted (
          map-All (sort_descending keyed) (
            sort_descending-All keyed
              (server_keyed-All (select is_backup beside) (select-Other beside)))))

  insert-keeps :
      (candidate : String) (content : Bytes) (disk : Disk)
      → Other candidate
      → Dict.lookup path (Dict.insert candidate content disk) ≡ Dict.lookup path disk
  insert-keeps candidate content disk h =
      ground (arith, h, Dict.lookup-insert path candidate content disk)

  copy_to-keeps :
      (candidate : String) (content : Bytes) (disk : Disk) (fault : Option Fault)
      → Other candidate
      → Dict.lookup path (copy_to calls path candidate content disk fault).0 ≡ Dict.lookup path disk
  unfolding copy_to
  copy_to-keeps candidate content disk none h =
      prune-keeps (Dict.insert candidate content disk) ∙ insert-keeps candidate content disk h
  copy_to-keeps candidate content disk (some fault) h = left torn
    where
      left :
          (torn : Option Bytes)
          → Dict.lookup path (left_by_copy calls candidate disk torn) ≡ Dict.lookup path disk
      left none = unfold left_by_copy in refl
      left (some part) = unfold left_by_copy in insert-keeps candidate part disk h

  copy_save-keeps :
      (content : Bytes) (disk : Disk) (found : Option String)
      → Dict.lookup path disk ≡ some content
      → Fresh (paths_in disk ++ others) found
      → Dict.lookup path (copy_save calls path content disk found).0 ≡ Dict.lookup path disk
  unfolding copy_save
  copy_save-keeps content disk none h fresh = refl
  copy_save-keeps content disk (some candidate) h fresh =
      copy_to-keeps candidate content disk copy_fault (fresh-Other candidate disk content h fresh)

  -- Whatever a backup of the save does, it leaves the save itself as it was.
  pub backup_existing_save-keeps :
      (disk : Disk)
      → Dict.lookup path (backup_existing_save calls path disk).0 ≡ Dict.lookup path disk
  unfolding backup_existing_save
  backup_existing_save-keeps disk = elim (Option-cases (Dict.lookup path disk)) [
    | inl e ↦
        let same : backup_existing_save calls path disk ≡ (disk, none) =
          rw (backup_existing_save, e) refl in
        ap (λ (r : Disk × Option Fault). Dict.lookup path r.0) same
    | inr (content, e) ↦
        let found = free_name casefold str (paths_in disk ++ others) path stamp in
        let same : backup_existing_save calls path disk ≡ copy_save calls path content disk found =
          rw (backup_existing_save, e) refl in
        ap (λ (r : Disk × Option Fault). Dict.lookup path r.0) same
        ∙ copy_save-keeps content disk found e (free_name-Fresh (paths_in disk ++ others))
  ]
