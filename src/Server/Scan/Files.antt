-- ===== src/Server/Scan/Files.antt =====
-- `_iter_save_files` of src/gamehub_server/save_index.py: the files that are saves, without an order.
use mathlib.Core.List.Perm
use gamehub.Prelude.{
  String, Bool, true, false, ◌&&◌, Bool-cases, inl, inr, List, [], ◌∷◌, ◌++◌, if◌then◌else◌,
}
use gamehub.Models.{SaveKind}
use gamehub.Server.Suffix.{is_server_generated_save_backup_name}
use gamehub.Server.Scan.{
  Entry, Entries, link, special, file, directory, nil, entry, FoundFile, name_of, is_per_game,
  gather, in_order, save_files, save_files_each, iter_save_files,
}
use gamehub.Server.Scan.Reordered.{Same, guarded, Same-trans, in_order-Same, gather-Same}

-- No links, and directories only below "per_game".
unfoldable mutual
  pub is_clean : SaveKind → Entry → Bool
  is_clean kind (link name) = false
  is_clean kind (special name) = true
  is_clean kind (file name st) = true
  is_clean kind (directory name es) = is_per_game kind && all_clean kind es

  pub all_clean : SaveKind → Entries → Bool
  all_clean kind nil = true
  all_clean kind (entry e es) = is_clean kind e && all_clean kind es

-- The files that are no backups, with their paths.
unfoldable mutual
  unfolding is_server_generated_save_backup_name

  pub files_in : List String → Entry → List FoundFile
  files_in path (link name) = []
  files_in path (special name) = []
  files_in path (file name st) =
      if is_server_generated_save_backup_name name then [] else (path ++ name ∷ [], st) ∷ []
  files_in path (directory name es) = all_files (path ++ name ∷ []) es

  pub all_files : List String → Entries → List FoundFile
  all_files path nil = []
  all_files path (entry e es) = files_in path e ++ all_files path es

module _ (lower : String → String) where
  mutual
    unfolding save_files is_clean files_in in_order gather

    save_files-Same :
        (kind : SaveKind) (path : List String) (e : Entry)
        → Same (save_files lower kind path e) (guarded (is_clean kind e) (files_in path e))
    save_files-Same kind path (link name) = tt
    save_files-Same kind path (special name) = Perm.refl []
    save_files-Same kind path (file name st) =
        elim (Bool-cases (is_server_generated_save_backup_name name)) [
          | inl e ↦ rw e (Perm.refl [])
          | inr e ↦ rw e (Perm.refl _)
        ]
    save_files-Same kind path (directory name es) = elim (Bool-cases (is_per_game kind)) [
      | inl e ↦ rw e (
          Same-trans _ _ _ (in_order-Same lower (save_files_each lower kind (path ++ name ∷ []) es))
            (each_file-Same kind (path ++ name ∷ []) es))
      | inr e ↦ rw e tt
    ]

    each_file-Same :
        (kind : SaveKind) (path : List String) (es : Entries)
        → Same
            (gather (save_files_each lower kind path es))
            (guarded (all_clean kind es) (all_files path es))
    each_file-Same kind path nil = Perm.refl []
    each_file-Same kind path (entry e es) =
        gather-Same (name_of e) (save_files lower kind path e) (save_files_each lower kind path es)
          (is_clean kind e) (all_clean kind es) (files_in path e) (all_files path es)
          (save_files-Same kind path e) (each_file-Same kind path es)

  pub iter_save_files-Same :
      (kind : SaveKind) (path : List String) (es : Entries)
      → Same (iter_save_files lower kind path es) (guarded (all_clean kind es) (all_files path es))
  unfolding iter_save_files
  iter_save_files-Same kind path es =
      Same-trans _ _ _ (in_order-Same lower (save_files_each lower kind path es))
        (each_file-Same kind path es)
