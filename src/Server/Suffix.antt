-- ===== src/Server/Suffix.antt =====
-- Which path below a binding an upload may name: `_normalize_canonical_suffix` and the learned-tree
-- rules of src/gamehub_server/save_api.py, with `is_server_generated_save_backup_name` of
-- src/gamehub_server/save_index.py.
pub mod Normal
use mathlib.Core.List.{reverse}
use mathlib.Core.Path.{◌≡◌, refl}
use gamehub.Prelude.{
  ℕ, zero, suc, String, ◌<>◌, Bool, true, false, not, ◌&&◌, ◌||◌, ◌==◌, nat_eq, leb, ltb, is_empty,
  truthy, Option, none, some, List, [], ◌∷◌, any, take, length, string_dec, if◌then◌else◌,
}
use gamehub.Prelude.Text.{
  strip, split, join, starts_with, text_length, drop_text, all_chars, has_char, chomp,
}
use gamehub.Models.{
  LearnRule, dolphin_gc_gci_tree, dolphin_wii_title_tree, azahar_title_data_tree, SaveSpec,
  SaveBindingSpec, Strategy, exact_files, learned_tree,
}
use gamehub.Prelude.Digits.{is_decimal}
use gamehub.Paths.{posix_parts}

-- `HTTPException`: its status and its detail, or the `reason` and the `current` save of its detail.
pub data HttpError : Type 0 where
  detail : ℕ → String → HttpError
  conflict : String → Option SaveSpec → HttpError
  -- an exception that no handler of the request sees
  unhandled : HttpError

infixl 5 ◌>>=◌
pub data Answer {ℓ} (A : Type ℓ) : Type ℓ where
  ok : A → Answer A
  err : HttpError → Answer A

abbrev pub ◌>>=◌ {ℓ κ} : {A : Type ℓ} {B : Type κ} → Answer A → (A → Answer B) → Answer B
ok a >>= f = f a
err e >>= f = err e

-- Inversion of a successful bind.
pub >>=-ok {ℓ κ} :
    {A : Type ℓ} {B : Type κ} (m : Answer A) (f : A → Answer B) {b : B}
    → (m >>= f) ≡ ok b
    → (a : A) × (m ≡ ok a) × (f a ≡ ok b)
>>=-ok (ok a) f h = (a, refl, h)
>>=-ok (err e) f h = absurd (cc)

-- `\d+` and `\d{14}` on a whole part
abbrev pub is_digits : String → Bool
is_digits s = truthy s && all_chars is_decimal s

abbrev pub is_stamp : String → Bool
is_stamp s = nat_eq (text_length s) 14 && all_chars is_decimal s

-- `.+` on what the parts before stand for, the last first: not empty, and without a line break
abbrev pub is_stem : List String → Bool
is_stem [] = false
is_stem (s ∷ []) = truthy s && not (has_char 10 s)
is_stem (s ∷ t ∷ r) = not (any (has_char 10) (s ∷ t ∷ r))

stamped : List String → Bool
stamped [] = false
stamped (s ∷ rest) = is_stamp s && is_stem rest

backup_parts : List String → Bool
unfolding stamped
backup_parts [] = false
backup_parts (s ∷ []) = false
backup_parts (s ∷ t ∷ rest) = s == "bak" && (stamped (t ∷ rest) || (is_digits t && stamped rest))

-- `^.+\.\d{14}(?:\.\d+)?\.bak$`
unfoldable pub is_server_generated_save_backup_name : String → Bool
unfolding backup_parts split text_length all_chars chomp has_char is_decimal string_dec
is_server_generated_save_backup_name filename = backup_parts (reverse (split b'.' (chomp filename)))

unfoldable pub last_text : List String → String
last_text [] = ""
last_text (s ∷ []) = s
last_text (s ∷ t ∷ r) = last_text (t ∷ r)

abbrev is_bad_part : String → Bool
is_bad_part part = part == "" || part == "." || part == ".."

-- The checks after the text was stripped.
check_suffix : String → Answer String
check_suffix value =
    let parts = posix_parts value in
    let normalized = join "/" parts in
    if not (truthy value)
    then err (detail 400 "canonical_suffix is required")
    else if starts_with value "/" || has_char 92 value
    then err (detail 400 "canonical_suffix must be a normalized POSIX relative path")
    else if is_empty parts || any is_bad_part parts
    then err (detail 400 "canonical_suffix contains invalid path segments")
    else if not (normalized == value)
    then err (detail 400 "canonical_suffix must be normalized")
    else if is_server_generated_save_backup_name (last_text parts)
    then err (detail 400 "canonical_suffix cannot target a GAMEHUB backup file")
    else ok normalized

unfoldable pub normalize_canonical_suffix : String → Answer String
unfolding check_suffix strip posix_parts join has_char is_server_generated_save_backup_name
    last_text string_dec
normalize_canonical_suffix raw = check_suffix (strip raw)

abbrev is_hex : ℕ → Bool
is_hex c = (leb b'0' c && leb c b'9') || (leb b'a' c && leb c b'f') || (leb b'A' c && leb c b'F')

unfoldable pub is_hex_segment : String → ℕ → Bool
unfolding text_length all_chars
is_hex_segment value n =
    if not (nat_eq (text_length value) n) then false else all_chars is_hex value

-- `parts[i]`, where the length has been checked
abbrev part : List String → ℕ → String
part [] i = ""
part (s ∷ parts) zero = s
part (s ∷ parts) (suc i) = part parts i

abbrev among : String → List String → Bool
among s texts = any (λ t. s == t) texts

unfoldable pub learned_root_prefix : Option LearnRule → String → Answer (List String)
unfolding posix_parts is_hex_segment string_dec
learned_root_prefix none suffix = err (detail 400 "Unsupported learned-tree rule")
learned_root_prefix (some dolphin_gc_gci_tree) suffix =
    let parts = posix_parts suffix in
    if ltb (length parts) 3
      || not (among (part parts 0) ("USA" ∷ "EUR" ∷ "JAP" ∷ []))
      || not (among (part parts 1) ("Card A" ∷ "Card B" ∷ []))
    then err (detail 400 "canonical_suffix does not match dolphin_gc_gci_tree")
    else ok (take 2 parts)
learned_root_prefix (some dolphin_wii_title_tree) suffix =
    let parts = posix_parts suffix in
    if ltb (length parts) 4
      || not (part parts 0 == "title")
      || not (is_hex_segment (part parts 1) 8)
      || not (is_hex_segment (part parts 2) 8)
    then err (detail 400 "canonical_suffix does not match dolphin_wii_title_tree")
    else ok (take 3 parts)
learned_root_prefix (some azahar_title_data_tree) suffix =
    let parts = posix_parts suffix in
    if ltb (length parts) 5
      || not (part parts 0 == "title")
      || not (is_hex_segment (part parts 1) 8)
      || not (is_hex_segment (part parts 2) 8)
      || not (part parts 3 == "data")
    then err (detail 400 "canonical_suffix does not match azahar_title_data_tree")
    else ok (take 4 parts)

abbrev pub same_parts : List String → List String → Bool
same_parts [] [] = true
same_parts [] (t ∷ ts) = false
same_parts (s ∷ ss) [] = false
same_parts (s ∷ ss) (t ∷ ts) = s == t && same_parts ss ts

-- The suffixes of the binding's saves, then the set of their roots.
suffixes_under : String → List SaveSpec → List String
suffixes_under prefix [] = []
suffixes_under prefix (save ∷ saves) =
    let rest = suffixes_under prefix saves in
    if starts_with save.rel_path prefix
    then drop_text (text_length prefix) save.rel_path ∷ rest
    else rest

roots_of : Option LearnRule → List String → Answer (List (List String))
roots_of rule [] = ok []
roots_of rule (suffix ∷ suffixes) = learned_root_prefix rule suffix >>= λ root.
    roots_of rule suffixes >>= λ roots. ok (root ∷ roots)

one_root : List (List String) → Answer (Option (List String))
one_root [] = ok none
one_root (root ∷ roots) =
    if any (λ other. not (same_parts root other)) roots
    then err (detail 500 "Inconsistent learned-tree root in indexed saves")
    else ok (some root)

unfoldable pub binding_existing_root_prefix :
    List SaveSpec → SaveBindingSpec → Answer (Option (List String))
unfolding suffixes_under roots_of one_root text_length drop_text
binding_existing_root_prefix saves binding =
    roots_of binding.learn_rule (suffixes_under (binding.server_rel_dir <> "/") saves) >>= one_root

root_allowed : List String → Option (List String) → Answer (Unit {0})
root_allowed root none = ok tt
root_allowed root (some existing) =
    if same_parts root existing then ok tt else err (conflict "binding-root-mismatch" none)

check_strategy : List SaveSpec → SaveBindingSpec → String → Bool → Strategy → Answer (Unit {0})
unfolding root_allowed
check_strategy saves binding suffix target_exists exact_files =
    if not target_exists && not (among suffix binding.candidate_filenames)
    then err (detail 400 "canonical_suffix is not allowed for this binding")
    else ok tt
check_strategy saves binding suffix target_exists learned_tree =
    learned_root_prefix binding.learn_rule suffix >>= λ root.
    binding_existing_root_prefix saves binding >>= root_allowed root

-- `saves` are those of the cached index, which the caller has just refreshed.
unfoldable pub validate_binding_suffix :
    List SaveSpec → SaveBindingSpec → String → Bool → Answer (Unit {0})
unfolding check_strategy
validate_binding_suffix saves binding suffix target_exists =
    check_strategy saves binding suffix target_exists binding.strategy
