-- ===== src/Paths.antt =====
-- src/gamehub_cli/common/paths.py and the pure paths of `pathlib` that it uses: where a relative
-- path of the index lands on this machine. `casefold` is Unicode's, a parameter.
use gamehub.Prelude.{
  String, Bool, false, not, ◌&&◌, ◌||◌, ◌==◌, Option, none, some, List, [], ◌∷◌, ◌++◌,
  if◌then◌else◌, select, truthy, string_dec,
}
use gamehub.Prelude.Text.{strip, strip_slashes, split, join, starts_with}

-- The parts of a path; the root of an absolute one is a part, "/" or "//".
abbrev pub FilePath : Type 0
FilePath = List String

-- The text of the root of `PurePosixPath(s)`: exactly two leading slashes are kept as they are.
unfoldable pub posix_root : String → List String
posix_root s =
    if starts_with s "///"
    then "/" ∷ []
    else if starts_with s "//"
    then "//" ∷ []
    else if starts_with s "/"
    then "/" ∷ []
    else []

-- `PurePosixPath(s).parts`
unfoldable pub posix_parts : String → List String
unfolding posix_root split string_dec
posix_parts s =
    posix_root s ++ select (λ part. not (part == "") && not (part == ".")) (split b'/' s)

-- `path / s`
infixl 66 ◌∕◌
unfoldable pub ◌∕◌ : FilePath → String → FilePath
unfolding posix_parts
path ∕ s = if starts_with s "/" then posix_parts s else path ++ posix_parts s

-- `path.joinpath(*parts)`
unfoldable pub joinpath : FilePath → List String → FilePath
unfolding ◌∕◌
joinpath path [] = path
joinpath path (s ∷ parts) = joinpath (path ∕ s) parts

unfoldable pub normalized_posix_parts : String → List String
unfolding posix_parts
normalized_posix_parts rel_path =
    select (λ part. not ((part == "") || (part == "."))) (posix_parts rel_path)

module _ (casefold : String → String) where
  -- `parts and parts[0].casefold() == folded`
  head_is : List String → String → Bool
  head_is [] folded = false
  head_is (part ∷ parts) folded = casefold part == folded

  unfoldable pub from_rel_path : FilePath → String → Option String → FilePath
  unfolding joinpath normalized_posix_parts head_is strip strip_slashes
  from_rel_path base rel_path none = joinpath base (normalized_posix_parts rel_path)
  from_rel_path base rel_path (some preferred_root) =
      let parts = normalized_posix_parts rel_path in
      let preferred = strip_slashes (strip preferred_root) in
      if not (truthy preferred)
      then joinpath base parts
      else if head_is parts (casefold preferred)
      then joinpath base parts
      else joinpath base (preferred ∷ parts)

  tail_parts : List String → List String
  tail_parts [] = []
  tail_parts (part ∷ parts) = parts

  unfoldable pub strip_rel_path_root : String → String → String
  unfolding normalized_posix_parts head_is strip strip_slashes join tail_parts
  strip_rel_path_root rel_path root =
      let parts = normalized_posix_parts rel_path in
      let normalized_root = casefold (strip_slashes (strip root)) in
      if not (truthy normalized_root)
      then join "/" parts
      else if head_is parts normalized_root
      then join "/" (tail_parts parts)
      else join "/" parts

  unfoldable pub resolve_rom_destination : FilePath → Option FilePath → String → FilePath
  unfolding from_rel_path strip_rel_path_root
  resolve_rom_destination library_dir none rel_path =
      from_rel_path library_dir rel_path (some "roms")
  resolve_rom_destination library_dir (some roms_dir) rel_path =
      from_rel_path roms_dir (strip_rel_path_root rel_path "roms") none
