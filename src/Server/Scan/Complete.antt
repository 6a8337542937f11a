-- ===== src/Server/Scan/Complete.antt =====
-- The index of the saves: what is in it, and when the scan refuses.
use mathlib.Core.List.Perm
use mathlib.Core.List.{Perm}
use gamehub.Prelude.{
  ℕ, String, Bool, true, false, Option, none, some, List, [], ◌∷◌, map, All, ◌≡◌, refl,
}
use gamehub.Prelude.Dict
use gamehub.Prelude.Dict.{Dict}
use gamehub.Models.{SaveSpec}
use gamehub.Server.Scan.{
  Entries, IndexedSaveBinding, in_order, each, scan_system, paths_of, scan_save_specs,
}
use gamehub.Server.Scan.Reordered.{Same, guarded, all_of, list_of, each-Same}
use gamehub.Server.Scan.Indexed.{is_system_dir, system_saves, scan_system-Same}
use gamehub.Server.Scan.Paths.{
  AllSome, Identified, Names, each-AllSome, scan_system-All, paths_of-All,
}

module _ (lower : String → String) (hash_sha256 : List String → String → ℕ → ℕ → String)
    (relative_unix : List String → String) (timestamp : ℕ → String) (sha256_text : String → String)
    (system_catalog : List String)
    (title_bindings : String → String → Option IndexedSaveBinding) where
  -- The saves of a layout, system by system.
  abbrev pub layout_saves : Entries → List (SaveSpec × List String)
  layout_saves = list_of (
      system_saves lower hash_sha256 relative_unix timestamp sha256_text system_catalog
        title_bindings ("saves" ∷ []))

  abbrev pub is_layout : Entries → Bool
  is_layout = all_of (
      is_system_dir lower hash_sha256 relative_unix timestamp sha256_text system_catalog
        title_bindings)

  -- What a scan returns for a tree.
  abbrev pub IsIndex : Entries → Option (List SaveSpec × Dict (List String)) → Type 0
  IsIndex root none = is_layout root ≡ false
  IsIndex root (some (specs, save_paths)) =
      (is_layout root ≡ true)
      × Perm specs (map (λ (e : SaveSpec × List String). e.0) (layout_saves root))
      × All
          (λ (s : SaveSpec).
            Names lower hash_sha256 relative_unix timestamp sha256_text s.save_id
              (Dict.lookup s.save_id save_paths))
          specs

  abbrev finish :
      Option (List (SaveSpec × List String)) → Option (List SaveSpec × Dict (List String))
  finish none = none
  finish (some saves) = some (map (λ (e : SaveSpec × List String). e.0) saves, paths_of [] saves)

  finish-IsIndex :
      (root : Entries) (found : Option (List (SaveSpec × List String))) (b : Bool)
      → is_layout root ≡ b
      → Same found (guarded b (layout_saves root))
      → AllSome (Identified lower hash_sha256 relative_unix timestamp sha256_text) found
      → IsIndex root (finish found)
  finish-IsIndex root none true e h hs = absurd h
  finish-IsIndex root none false e h hs = e
  finish-IsIndex root (some saves) false e h hs = absurd h
  finish-IsIndex root (some saves) true e h hs = (
    e,
    Perm.map (λ (e : SaveSpec × List String). e.0) h,
    paths_of-All lower hash_sha256 relative_unix timestamp sha256_text [] saves hs,
  )

  -- The scan of the saves fails exactly on a tree that is no layout: each directory below the root
  -- is a system of the catalog, each below a system an indexed title, each below a title a kind of
  -- save, and nothing is a link or, but for saves of "per_game", nested. On a layout the index lists
  -- each file that is no backup once, with the title, the kind, the path and the hash that its place
  -- gives it, in some order, and the path kept under the id of a save has that id.
  pub scan_save_specs-IsIndex :
      (root : Entries)
      → IsIndex root (
          scan_save_specs lower hash_sha256 relative_unix timestamp sha256_text system_catalog
            title_bindings root)
  unfolding scan_save_specs
  scan_save_specs-IsIndex root =
      finish-IsIndex root
        (in_order lower (
          each
            (scan_system lower hash_sha256 relative_unix timestamp sha256_text system_catalog
              title_bindings ("saves" ∷ []))
            root))
        (is_layout root) refl
        (each-Same lower _ _ _
          (scan_system-Same lower hash_sha256 relative_unix timestamp sha256_text system_catalog
            title_bindings ("saves" ∷ []))
          root)
        (each-AllSome (Identified lower hash_sha256 relative_unix timestamp sha256_text) lower _
          (scan_system-All lower hash_sha256 relative_unix timestamp sha256_text system_catalog
            title_bindings ("saves" ∷ []))
          root)
