-- ===== src/Backups.antt =====
-- The backups of src/gamehub_cli/common/fsops.py: their names, their order, and which of them are
-- pruned. A directory is its regular files; `casefold` is Unicode's, a parameter.
pub mod Shorter
pub mod Pruned
pub mod Create
pub mod Created
use Prim.Native.Char.{code}
use Prim.Native.String.{String}
use Prim.Native.Nat.{Ordering}
use mathlib.Core.List.{reverse}
use gamehub.Prelude.{
  ℕ, suc, ◌+◌, ◌*◌, ◌-◌, Bool, true, false, not, ◌&&◌, ◌||◌, ◌==◌, ltb, leb, nat_eq, any, drop,
  Option, none, some, List, [], ◌∷◌, map, select, compare_text, string_dec, if◌then◌else◌,
}
use gamehub.Prelude.Dict
use gamehub.Prelude.Dict.{Dict}
use gamehub.Prelude.Text.{split, join, text_length, all_chars, has_char, chomp, drop_text}
use gamehub.Prelude.Digits.{is_decimal, decimal_value}
use gamehub.Server.Suffix.{is_digits, is_stamp, is_stem}

pub record BackupFilename : Type 0 where
  pub original_name : String
  pub stamp : String
  pub collision : ℕ

-- `int(text)` on digits
int_from : ℕ → String → ℕ
int_from n String.[] = n
int_from n (String.◌∷◌ c s) = int_from (n * 10 + decimal_value (code c)) s

-- The parts of a name at its dots, the last first, without ".bak". The name before the stamp is as
-- long as possible.
stamped_name : ℕ → List String → Option BackupFilename
unfolding join
stamped_name collision [] = none
stamped_name collision (stamp ∷ stem) =
    if is_stamp stamp && is_stem stem
    then some
        (record { original_name = join "." (reverse stem); stamp = stamp; collision = collision })
    else none

collided_name : List String → Option BackupFilename
unfolding stamped_name int_from decimal_value
collided_name [] = none
collided_name (number ∷ rest) =
    if is_digits number then stamped_name (int_from 0 number) rest else none

or_else : Option BackupFilename → Option BackupFilename → Option BackupFilename
or_else none second = second
or_else (some first) second = some first

bak_name : List String → Option BackupFilename
unfolding stamped_name collided_name or_else
bak_name [] = none
bak_name (suffix ∷ parts) =
    if suffix == "bak" then or_else (stamped_name 0 parts) (collided_name parts) else none

unfoldable pub parse_gamehub_backup_name : String → Option BackupFilename
unfolding bak_name split text_length all_chars chomp has_char is_decimal string_dec
parse_gamehub_backup_name filename = bak_name (reverse (split b'.' (chomp filename)))

-- The keys by which backups are sorted, and their comparison: stamp, collision, the name without its
-- case, and the path, which in one directory is the name.
abbrev pub SortKey : Type 0
SortKey = String × ℕ × String × String

-- `s < t`, and on equal texts what the rest of the key says
text_lt : String → String → Bool → Bool
text_lt s t rest = elim (compare_text s t) [
  | Ordering.lt ↦ true
  | Ordering.gt ↦ false
  | Ordering.eq ↦ rest
]

unfoldable pub sort_key_lt : SortKey → SortKey → Bool
unfolding text_lt
sort_key_lt (s, n, t, p) (s', n', t', p') =
    text_lt s s' (ltb n n' || (nat_eq n n' && text_lt t t' (text_lt p p' false)))

-- `ordered.sort(reverse=True)`
unfoldable pub insert_descending :
    SortKey × String → List (SortKey × String) → List (SortKey × String)
unfolding sort_key_lt
insert_descending x [] = x ∷ []
insert_descending x (y ∷ ys) =
    let rest = insert_descending x ys in if sort_key_lt x.0 y.0 then y ∷ rest else x ∷ y ∷ ys

unfoldable pub sort_descending : List (SortKey × String) → List (SortKey × String)
unfolding insert_descending
sort_descending [] = []
sort_descending (x ∷ xs) = insert_descending x (sort_descending xs)

module _ (casefold : String → String) where
  -- Names that are not backups are left out.
  unfoldable pub keyed : List String → List (SortKey × String)
  unfolding parse_gamehub_backup_name
  keyed [] = []
  keyed (name ∷ names) =
      let rest = keyed names in
      elim (parse_gamehub_backup_name name) [
        | none ↦ rest
        | some parsed ↦ ((parsed.stamp, parsed.collision, casefold name, name), name) ∷ rest
      ]

  unfoldable pub sort_gamehub_backups : List String → List String
  unfolding keyed sort_descending
  sort_gamehub_backups names = map (λ (e : SortKey × String). e.1) (sort_descending (keyed names))

  unfoldable pub stale_gamehub_backups : List String → ℕ → List String
  unfolding sort_gamehub_backups
  stale_gamehub_backups names keep_limit = drop keep_limit (sort_gamehub_backups names)

  unfoldable pub is_of : String → Option BackupFilename → Bool
  is_of original_name none = false
  is_of original_name (some parsed) = parsed.original_name == original_name

  -- `name.endswith(".bak")`
  ends_in_bak : String → Bool
  unfolding text_length drop_text string_dec
  ends_in_bak name = drop_text (text_length name - 4) name == ".bak"

  -- A backup of the file.
  unfoldable pub is_backup_of : String → String → Bool
  unfolding parse_gamehub_backup_name is_of ends_in_bak
  is_backup_of original_name name =
      ends_in_bak name && is_of original_name (parse_gamehub_backup_name name)

  unfoldable pub family {ℓ} : {C : Type ℓ} → String → Dict C → List String
  unfolding is_backup_of
  family original_name files =
      select (is_backup_of original_name) (map (λ (e : String × _). e.0) files)

  unfoldable pub unlink_all {ℓ} : {C : Type ℓ} → List String → Dict C → Dict C
  unlink_all [] files = files
  unlink_all (name ∷ names) files = unlink_all names (Dict.erase name files)

  -- The files after `prune_backup_family`, and the pruned names. A limit below 0 raises.
  unfoldable pub prune_backup_family {ℓ} : {C : Type ℓ} → String → ℕ → Dict C → Dict C × List String
  unfolding family stale_gamehub_backups unlink_all
  prune_backup_family original_name keep_limit files =
      let pruned = stale_gamehub_backups (family original_name files) keep_limit in
      (unlink_all pruned files, pruned)
