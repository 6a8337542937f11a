-- ===== src/Server/Scan/Indexed.antt =====
-- The layout of saves that the server accepts, and the saves of such a layout, without an order.
use mathlib.Core.List.Perm
use mathlib.Core.Option
use gamehub.Prelude.{
  ℕ, String, Bool, true, false, ◌&&◌, ◌==◌, any, Bool-cases, Option-cases, inl, inr, Option, none,
  some, List, [], ◌∷◌, ◌++◌, map,
}
use gamehub.Models.{SaveKind, SaveSpec}
use gamehub.Server.Scan.{
  Entry, link, special, file, directory, IndexedSaveBinding, FoundFile, parse_save_kind,
  iter_save_files, save_spec, scan_kind, scan_title, scan_system,
}
use gamehub.Server.Scan.Reordered.{Same, guarded, all_of, list_of, each-Same}
use gamehub.Server.Scan.Files.{all_clean, all_files, iter_save_files-Same}

module _ (lower : String → String) (hash_sha256 : List String → String → ℕ → ℕ → String)
    (relative_unix : List String → String) (timestamp : ℕ → String)
    (sha256_text : String → String) where
  abbrev spec_of : IndexedSaveBinding → SaveKind → FoundFile → SaveSpec × List String
  spec_of = save_spec lower hash_sha256 relative_unix timestamp sha256_text

  -- A directory that is named for a kind of save.
  abbrev pub is_kind_dir : Entry → Bool
  is_kind_dir (link name) = false
  is_kind_dir (special name) = false
  is_kind_dir (file name st) = false
  is_kind_dir (directory name es) = elim (parse_save_kind name) [
    | none ↦ false
    | some kind ↦ all_clean kind es
  ]

  abbrev pub kind_saves : IndexedSaveBinding → List String → Entry → List (SaveSpec × List String)
  kind_saves binding path (link name) = []
  kind_saves binding path (special name) = []
  kind_saves binding path (file name st) = []
  kind_saves binding path (directory name es) = elim (parse_save_kind name) [
    | none ↦ []
    | some kind ↦ map (spec_of binding kind) (all_files (path ++ name ∷ []) es)
  ]

  map-Same :
      {A B : Type 0} (f : A → B) (r : Option (List A)) (b : Bool) (xs : List A)
      → Same r (guarded b xs)
      → Same (Option.map (map f) r) (guarded b (map f xs))
  map-Same f none true xs h = absurd h
  map-Same f none false xs h = tt
  map-Same f (some ys) true xs h = Perm.map f h
  map-Same f (some ys) false xs h = absurd h

  scan_kind-Same :
      (binding : IndexedSaveBinding) (path : List String) (e : Entry)
      → Same
          (scan_kind lower hash_sha256 relative_unix timestamp sha256_text binding path e)
          (guarded (is_kind_dir e) (kind_saves binding path e))
  unfolding scan_kind
  scan_kind-Same binding path (link name) = tt
  scan_kind-Same binding path (special name) = tt
  scan_kind-Same binding path (file name st) = tt
  scan_kind-Same binding path (directory name es) = elim (Option-cases (parse_save_kind name)) [
    | inl e ↦ rw (scan_kind, is_kind_dir, kind_saves, e) tt
    | inr (kind, e) ↦
        rw (scan_kind, is_kind_dir, kind_saves, e)
          (map-Same (spec_of binding kind) (iter_save_files lower kind (path ++ name ∷ []) es)
            (all_clean kind es) (all_files (path ++ name ∷ []) es)
            (iter_save_files-Same lower kind (path ++ name ∷ []) es))
  ]

  module _ (system_catalog : List String)
      (title_bindings : String → String → Option IndexedSaveBinding) where
    -- A directory that is named for an indexed title of the system.
    abbrev pub is_title_dir : String → Entry → Bool
    is_title_dir system_name (link name) = false
    is_title_dir system_name (special name) = false
    is_title_dir system_name (file name st) = false
    is_title_dir system_name (directory name es) = elim (title_bindings system_name name) [
      | none ↦ false
      | some b ↦ all_of is_kind_dir es
    ]

    abbrev pub title_saves : String → List String → Entry → List (SaveSpec × List String)
    title_saves system_name path (link name) = []
    title_saves system_name path (special name) = []
    title_saves system_name path (file name st) = []
    title_saves system_name path (directory name es) = elim (title_bindings system_name name) [
      | none ↦ []
      | some binding ↦ list_of (kind_saves binding (path ++ name ∷ [])) es
    ]

    -- A directory that is named for a system of the catalog.
    abbrev pub is_system_dir : Entry → Bool
    is_system_dir (link name) = false
    is_system_dir (special name) = false
    is_system_dir (file name st) = false
    is_system_dir (directory name es) =
        any (λ s. name == s) system_catalog && all_of (is_title_dir name) es

    abbrev pub system_saves : List String → Entry → List (SaveSpec × List String)
    system_saves path (link name) = []
    system_saves path (special name) = []
    system_saves path (file name st) = []
    system_saves path (directory name es) = list_of (title_saves name (path ++ name ∷ [])) es

    scan_title-Same :
        (system_name : String) (path : List String) (e : Entry)
        → Same
            (scan_title lower hash_sha256 relative_unix timestamp sha256_text system_catalog
              title_bindings system_name path e)
            (guarded (is_title_dir system_name e) (title_saves system_name path e))
    unfolding scan_title
    scan_title-Same system_name path (link name) = tt
    scan_title-Same system_name path (special name) = tt
    scan_title-Same system_name path (file name st) = tt
    scan_title-Same system_name path (directory name es) =
        elim (Option-cases (title_bindings system_name name)) [
          | inl e ↦ rw (scan_title, is_title_dir, title_saves, e) tt
          | inr (binding, e) ↦
              rw (scan_title, is_title_dir, title_saves, e)
                (each-Same lower
                  (scan_kind lower hash_sha256 relative_unix timestamp sha256_text binding
                    (path ++ name ∷ []))
                  is_kind_dir (kind_saves binding (path ++ name ∷ []))
                  (scan_kind-Same binding (path ++ name ∷ [])) es)
        ]

    pub scan_system-Same :
        (path : List String) (e : Entry)
        → Same
            (scan_system lower hash_sha256 relative_unix timestamp sha256_text system_catalog
              title_bindings path e)
            (guarded (is_system_dir e) (system_saves path e))
    unfolding scan_system
    scan_system-Same path (link name) = tt
    scan_system-Same path (special name) = tt
    scan_system-Same path (file name st) = tt
    scan_system-Same path (directory name es) =
        elim (Bool-cases (any (λ s. name == s) system_catalog)) [
          | inr e ↦ rw e tt
          | inl e ↦ rw e (
              each-Same lower
                (scan_title lower hash_sha256 relative_unix timestamp sha256_text system_catalog
                  title_bindings name (path ++ name ∷ []))
                (is_title_dir name) (title_saves name (path ++ name ∷ []))
                (scan_title-Same name (path ++ name ∷ [])) es)
        ]
