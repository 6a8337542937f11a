-- ===== src/Server/Scan.antt =====
-- `scan_save_specs` of src/gamehub_server/save_index.py: the index of the saves on the server's disk.
-- The hash of a file, the path from the data root, the clock's text and the case of names are
-- parameters. `none` is an exception: a malformed layout.
pub mod Reordered
pub mod Files
pub mod Indexed
pub mod Paths
pub mod Complete
use gamehub.Prelude.{
  ℕ, String, Bool, true, false, ◌==◌, any, Option, none, some, List, [], ◌∷◌, ◌++◌, map,
  if◌then◌else◌,
}
use mathlib.Core.Option
use gamehub.Prelude.Dict
use gamehub.Prelude.Dict.{Dict}
use gamehub.Prelude.Sort.{sort_by}
use gamehub.Ids.{make_save_id}
use gamehub.Models.{SaveKind, battery, memory_card, per_game, SaveSpec}
use gamehub.Server.Bindings.{save_kind_portability}
use gamehub.Server.Suffix.{is_server_generated_save_backup_name}

pub record Stat : Type 0 where
  pub st_size : ℕ
  pub st_mtime_ns : ℕ

-- What a directory lists, in the order of the disk: symbolic links, files, directories, and the rest.
mutual
  pub data Entry : Type 0 where
    link special : String → Entry
    file : String → Stat → Entry
    directory : String → Entries → Entry

  pub data Entries : Type 0 where
    nil : Entries
    entry : Entry → Entries → Entries

pub record IndexedSaveBinding : Type 0 where
  pub title_id : String
  pub system : String

-- A path from the data root, and what `stat` says of it.
abbrev pub FoundFile : Type 0
FoundFile = List String × Stat

abbrev pub name_of : Entry → String
name_of (link name) = name
name_of (special name) = name
name_of (file name st) = name
name_of (directory name es) = name

unfoldable pub parse_save_kind : String → Option SaveKind
parse_save_kind value =
    if value == "battery"
    then some battery
    else if value == "memory_card"
    then some memory_card
    else if value == "per_game"
    then some per_game
    else none

abbrev pub is_per_game : SaveKind → Bool
is_per_game battery = false
is_per_game memory_card = false
is_per_game per_game = true

-- One result after another; an exception ends them all.
unfoldable pub both {ℓ} : {A : Type ℓ} → Option (List A) → Option (List A) → Option (List A)
both none rest = none
both (some xs) none = none
both (some xs) (some ys) = some (xs ++ ys)

unfoldable pub gather {ℓ} : {A : Type ℓ} → List (String × Option (List A)) → Option (List A)
unfolding both
gather [] = some []
gather (r ∷ rs) = both r.1 (gather rs)

-- The results for the entries of a directory, each with its name.
unfoldable pub each {ℓ} :
    {A : Type ℓ} → (Entry → Option (List A)) → Entries → List (String × Option (List A))
each f nil = []
each f (entry e es) = (name_of e, f e) ∷ each f es

module _ (lower : String → String) where
  -- `for ... in sorted(....iterdir(), key=lambda item: item.name.lower())`
  unfoldable pub in_order {ℓ} : {A : Type ℓ} → List (String × Option (List A)) → Option (List A)
  unfolding gather sort_by
  in_order rs = gather (sort_by (λ (r : String × _). lower r.0 ∷ []) rs)

  unfoldable mutual
    unfolding gather sort_by both in_order is_server_generated_save_backup_name

    pub save_files : SaveKind → List String → Entry → Option (List FoundFile)
    save_files kind path (link name) = none
    save_files kind path (special name) = some []
    save_files kind path (file name st) =
        if is_server_generated_save_backup_name name
        then some []
        else some ((path ++ name ∷ [], st) ∷ [])
    save_files kind path (directory name es) =
        let nested = in_order (save_files_each kind (path ++ name ∷ []) es) in
        if is_per_game kind then nested else none

    pub save_files_each : SaveKind → List String → Entries → List (String × Option (List FoundFile))
    save_files_each kind path nil = []
    save_files_each kind path (entry e es) =
        (name_of e, save_files kind path e) ∷ save_files_each kind path es

  unfoldable pub iter_save_files : SaveKind → List String → Entries → Option (List FoundFile)
  unfolding save_files in_order
  iter_save_files kind path es = in_order (save_files_each kind path es)

-- `save_paths`, each path under its id.
unfoldable pub paths_of : Dict (List String) → List (SaveSpec × List String) → Dict (List String)
paths_of save_paths [] = save_paths
paths_of save_paths ((spec, path) ∷ saves) =
    paths_of (Dict.insert spec.save_id path save_paths) saves

module _ (lower : String → String) (hash_sha256 : List String → String → ℕ → ℕ → String)
    (relative_unix : List String → String) (timestamp : ℕ → String)
    (sha256_text : String → String) where
  unfoldable pub save_spec : IndexedSaveBinding → SaveKind → FoundFile → SaveSpec × List String
  save_spec binding kind (path, st) =
      let save_rel = relative_unix path in
      (
        record {
          save_id = make_save_id sha256_text save_rel;
          title_id = binding.title_id;
          system = binding.system;
          kind = kind;
          rel_path = save_rel;
          sha256 = hash_sha256 path save_rel st.st_size st.st_mtime_ns;
          size_bytes = st.st_size;
          updated_at = timestamp st.st_mtime_ns;
          portable = save_kind_portability kind;
        },
        path,
      )

  -- The saves below one directory of a title.
  unfoldable pub scan_kind :
      IndexedSaveBinding → List String → Entry → Option (List (SaveSpec × List String))
  unfolding parse_save_kind iter_save_files save_spec
  scan_kind binding path (link name) = none
  scan_kind binding path (special name) = none
  scan_kind binding path (file name st) = none
  scan_kind binding path (directory name es) = elim (parse_save_kind name) [
    | none ↦ none
    | some kind ↦
        Option.map (map (save_spec binding kind))
          (iter_save_files lower kind (path ++ name ∷ []) es)
  ]

  module _ (system_catalog : List String)
      (title_bindings : String → String → Option IndexedSaveBinding) where
    unfoldable pub scan_title :
        String → List String → Entry → Option (List (SaveSpec × List String))
    unfolding scan_kind in_order each
    scan_title system_name path (link name) = none
    scan_title system_name path (special name) = none
    scan_title system_name path (file name st) = none
    scan_title system_name path (directory name es) = elim (title_bindings system_name name) [
      | none ↦ none
      | some binding ↦ in_order lower (each (scan_kind binding (path ++ name ∷ [])) es)
    ]

    unfoldable pub scan_system : List String → Entry → Option (List (SaveSpec × List String))
    unfolding scan_title in_order each
    scan_system path (link name) = none
    scan_system path (special name) = none
    scan_system path (file name st) = none
    scan_system path (directory name es) =
        if any (λ s. name == s) system_catalog
        then in_order lower (each (scan_title name (path ++ name ∷ [])) es)
        else none

    unfoldable pub scan_save_specs : Entries → Option (List SaveSpec × Dict (List String))
    unfolding scan_system in_order each paths_of
    scan_save_specs saves_root =
        elim (in_order lower (each (scan_system ("saves" ∷ [])) saves_root)) [
          | none ↦ none
          | some saves ↦ some (map (λ (e : SaveSpec × List String). e.0) saves, paths_of [] saves)
        ]
