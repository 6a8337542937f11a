-- ===== src/Server/Scan/Paths.antt =====
-- Where the files of the saves are: the second result of the scan.
use mathlib.Core.Option
use gamehub.Prelude.{
  ℕ, String, ◌==◌, any, All, All-append, Bool-cases, Option-cases, inl, inr, Option, none, some,
  List, [], ◌∷◌, ◌++◌, map, ◌≡◌, refl, arith,
}
use gamehub.Prelude.Dict
use gamehub.Prelude.Dict.{Dict}
use gamehub.Prelude.Sort.{sort_by-All}
use gamehub.Ids.{make_save_id}
use gamehub.Models.{SaveKind, SaveSpec}
use gamehub.Server.Scan.{
  Entry, Entries, link, special, file, directory, nil, entry, IndexedSaveBinding, FoundFile,
  parse_save_kind, both, gather, each, in_order, iter_save_files, save_spec, scan_kind, scan_title,
  scan_system, paths_of,
}

module _ {A : Type 0} (P : A → Type 0) where
  abbrev pub AllSome : Option (List A) → Type 0
  AllSome none = Unit
  AllSome (some xs) = All P xs

  both-AllSome : (r s : Option (List A)) → AllSome r → AllSome s → AllSome (both r s)
  unfolding both
  both-AllSome none s h h' = tt
  both-AllSome (some xs) none h h' = tt
  both-AllSome (some xs) (some ys) h h' = All-append P xs ys h h'

  gather-AllSome :
      (rs : List (String × Option (List A)))
      → All (λ (r : String × Option (List A)). AllSome r.1) rs
      → AllSome (gather rs)
  unfolding gather
  gather-AllSome [] hs = tt
  gather-AllSome (r ∷ rs) hs = both-AllSome r.1 (gather rs) hs.0 (gather-AllSome rs hs.1)

  each-All :
      (scan : Entry → Option (List A))
      → ((e : Entry) → AllSome (scan e))
      → (es : Entries) → All (λ (r : String × Option (List A)). AllSome r.1) (each scan es)
  unfolding each
  each-All scan h nil = tt
  each-All scan h (entry e es) = (h e, each-All scan h es)

  pub each-AllSome :
      (lower : String → String) (scan : Entry → Option (List A))
      → ((e : Entry) → AllSome (scan e))
      → (es : Entries) → AllSome (in_order lower (each scan es))
  unfolding in_order
  each-AllSome lower scan h es = gather-AllSome _ (
      sort_by-All (λ (r : String × Option (List A)). lower r.0 ∷ []) (λ r. AllSome r.1)
        (each scan es) (each-All scan h es))

module _ (lower : String → String) (hash_sha256 : List String → String → ℕ → ℕ → String)
    (relative_unix : List String → String) (timestamp : ℕ → String)
    (sha256_text : String → String) where
  abbrev pub Identified : SaveSpec × List String → Type 0
  Identified e = make_save_id sha256_text (relative_unix e.1) ≡ e.0.save_id

  abbrev spec_of : IndexedSaveBinding → SaveKind → FoundFile → SaveSpec × List String
  spec_of = save_spec lower hash_sha256 relative_unix timestamp sha256_text

  specs-All :
      (binding : IndexedSaveBinding) (kind : SaveKind) (found : Option (List FoundFile))
      → AllSome Identified (Option.map (map (spec_of binding kind)) found)
  unfolding save_spec
  specs-All binding kind none = tt
  specs-All binding kind (some []) = tt
  specs-All binding kind (some (f ∷ fs)) = (refl, specs-All binding kind (some fs))

  scan_kind-All :
      (binding : IndexedSaveBinding) (path : List String) (e : Entry)
      → AllSome Identified
          (scan_kind lower hash_sha256 relative_unix timestamp sha256_text binding path e)
  unfolding scan_kind
  scan_kind-All binding path (link name) = tt
  scan_kind-All binding path (special name) = tt
  scan_kind-All binding path (file name st) = tt
  scan_kind-All binding path (directory name es) = elim (Option-cases (parse_save_kind name)) [
    | inl e ↦ rw (scan_kind, e) tt
    | inr (kind, e) ↦
        rw (scan_kind, e)
          (specs-All binding kind (iter_save_files lower kind (path ++ name ∷ []) es))
  ]

  module _ (system_catalog : List String)
      (title_bindings : String → String → Option IndexedSaveBinding) where
    scan_title-All :
        (system_name : String) (path : List String) (e : Entry)
        → AllSome Identified (
            scan_title lower hash_sha256 relative_unix timestamp sha256_text system_catalog
              title_bindings system_name path e)
    unfolding scan_title
    scan_title-All system_name path (link name) = tt
    scan_title-All system_name path (special name) = tt
    scan_title-All system_name path (file name st) = tt
    scan_title-All system_name path (directory name es) =
        elim (Option-cases (title_bindings system_name name)) [
          | inl e ↦ rw (scan_title, e) tt
          | inr (binding, e) ↦
              rw (scan_title, e)
                (each-AllSome Identified lower
                  (scan_kind lower hash_sha256 relative_unix timestamp sha256_text binding
                    (path ++ name ∷ []))
                  (scan_kind-All binding (path ++ name ∷ [])) es)
        ]

    pub scan_system-All :
        (path : List String) (e : Entry)
        → AllSome Identified (
            scan_system lower hash_sha256 relative_unix timestamp sha256_text system_catalog
              title_bindings path e)
    unfolding scan_system
    scan_system-All path (link name) = tt
    scan_system-All path (special name) = tt
    scan_system-All path (file name st) = tt
    scan_system-All path (directory name es) =
        elim (Bool-cases (any (λ s. name == s) system_catalog)) [
          | inr e ↦ rw e tt
          | inl e ↦ rw e (
              each-AllSome Identified lower
                (scan_title lower hash_sha256 relative_unix timestamp sha256_text system_catalog
                  title_bindings name (path ++ name ∷ []))
                (scan_title-All name (path ++ name ∷ [])) es)
        ]

  -- The path under an id is one whose id it is.
  abbrev pub Names : String → Option (List String) → Type 0
  Names save_id none = ⊥
  Names save_id (some path) = make_save_id sha256_text (relative_unix path) ≡ save_id

  paths_of-Names :
      (save_id : String) (d : Dict (List String)) (saves : List (SaveSpec × List String))
      → All Identified saves
      → Names save_id (Dict.lookup save_id d)
      → Names save_id (Dict.lookup save_id (paths_of d saves))
  unfolding paths_of
  paths_of-Names save_id d [] hs h = h
  paths_of-Names save_id d ((spec, path) ∷ saves) hs h =
      paths_of-Names save_id (Dict.insert spec.save_id path d) saves hs.1
        (elim (Bool-cases (save_id == spec.save_id)) [
          | inl e ↦ rw (Dict.lookup-insert save_id spec.save_id path d, e) (ground (arith, e, hs.0))
          | inr e ↦ rw (Dict.lookup-insert save_id spec.save_id path d, e) h
        ])

  pub paths_of-All :
      (d : Dict (List String)) (saves : List (SaveSpec × List String))
      → All Identified saves
      → All
          (λ (s : SaveSpec). Names s.save_id (Dict.lookup s.save_id (paths_of d saves)))
          (map (λ (e : SaveSpec × List String). e.0) saves)
  unfolding paths_of
  paths_of-All d [] hs = tt
  paths_of-All d ((spec, path) ∷ saves) hs = (
    paths_of-Names spec.save_id (Dict.insert spec.save_id path d) saves hs.1
        (rw (Dict.lookup-insert_self spec.save_id path d) hs.0),
    paths_of-All (Dict.insert spec.save_id path d) saves hs.1,
  )
