-- ===== src/Server/Suffix/Normal.antt =====
-- Where an accepted suffix leads.
use gamehub.Prelude.{
  ◌≡◌, ◌∙◌, refl, sym, ap, subst, String, ◌<>◌, Bool, true, false, not, ◌&&◌, ◌||◌, ◌==◌, any,
  is_empty, select, List, [], ◌∷◌, ◌++◌, arith, Bool-cases, inl, inr, if◌then◌else◌,
}
use mathlib.Core.List
use text.Mathlib.TextEquality.{starts_with_iff}
use text.Mathlib.TextLemmas.{append_assoc}
use text.Mathlib.TextPositions.{starts_with_of_prefix}
use gamehub.Prelude.Text.{strip, starts_with, split}
use gamehub.Paths.{posix_parts, posix_root}
use gamehub.Server.Suffix.{
  ok, is_bad_part, check_suffix, normalize_canonical_suffix, is_server_generated_save_backup_name,
  last_text,
}

abbrev go_up : List String → List String
go_up [] = []
go_up (s ∷ []) = []
go_up (s ∷ t ∷ r) = s ∷ go_up (t ∷ r)

-- One step of the file system from a directory: "" and "." stay, ".." goes up.
abbrev pub step : List String → String → List String
step base part =
    if part == "" || part == "."
    then base
    else if part == ".."
    then go_up base
    else base ++ part ∷ []

-- Where a path leads from a directory.
abbrev pub resolve : List String → List String → List String
resolve base [] = base
resolve base (part ∷ parts) = resolve (step base part) parts

abbrev is_kept : String → Bool
is_kept part = not (part == "") && not (part == ".")

step-good :
    (base : List String) (part : String)
    → is_kept part ≡ true
    → is_bad_part part ≡ false
    → step base part ≡ base ++ part ∷ []
step-good base part e good = ground (arith, e, good)

step-dropped : (base : List String) (part : String) → is_kept part ≡ false → step base part ≡ base
step-dropped base part e = ground (arith, e)

-- Without bad parts, a path leads to what it names.
resolve-kept :
    (parts base : List String)
    → any is_bad_part (select is_kept parts) ≡ false
    → resolve base parts ≡ base ++ select is_kept parts
resolve-kept [] base h = sym (List.append-nil base)
resolve-kept (part ∷ parts) base h = elim (Bool-cases (is_kept part)) [
  | inl e ↦
      let all : any is_bad_part (part ∷ select is_kept parts) ≡ false =
        subst (λ l. any is_bad_part l ≡ false) (chosen e) h in
      ap (λ b. resolve b parts) (step-good base part e (ground (arith, all)))
      ∙ resolve-kept parts (base ++ part ∷ []) (ground (arith, all))
      ∙ List.append_assoc base (part ∷ []) (select is_kept parts)
      ∙ ap (λ l. base ++ l) (sym (chosen e))
  | inr e ↦
      ap (λ b. resolve b parts) (step-dropped base part e)
      ∙ resolve-kept parts base (subst (λ l. any is_bad_part l ≡ false) (left_out e) h)
      ∙ ap (λ l. base ++ l) (sym (left_out e))
]
  where
    chosen : is_kept part ≡ true → select is_kept (part ∷ parts) ≡ part ∷ select is_kept parts
    chosen e = rw e refl

    left_out : is_kept part ≡ false → select is_kept (part ∷ parts) ≡ select is_kept parts
    left_out e = rw e refl

-- What begins with two slashes begins with one.
slash_lem : (s rest : String) → starts_with s "/" ≡ false → starts_with s ("/" <> rest) ≡ false
slash_lem s rest h = elim (Bool-cases (starts_with s ("/" <> rest))) [
  | inr e ↦ e
  | inl e ↦
      let (tail, same) = (starts_with_iff s ("/" <> rest)).0 e in
      absurd (
        ground (
          arith,
          h,
          starts_with_of_prefix "/" s (rest <> tail, sym (append_assoc "/" rest tail) ∙ same),
        ))
]

posix_root-relative : (s : String) → starts_with s "/" ≡ false → posix_root s ≡ []
unfolding posix_root
posix_root-relative s h =
    let two : starts_with s "//" ≡ false = slash_lem s "/" h in
    let three : starts_with s "///" ≡ false = slash_lem s "//" h in rw (three, two, h) refl

last_text-append :
    (base parts : List String)
    → is_empty parts ≡ false
    → last_text (base ++ parts) ≡ last_text parts
unfolding last_text
last_text-append [] parts h = refl
last_text-append (s ∷ []) [] h = absurd (ground (arith, h))
last_text-append (s ∷ []) (t ∷ r) h = refl
last_text-append (s ∷ t ∷ base) parts h = last_text-append (t ∷ base) parts h

-- What the checks let through: the stripped text, and what they found of its parts.
abbrev IsChecked : String → String → Type 0
IsChecked value suffix =
    (suffix ≡ value)
    × (is_empty (posix_parts suffix) ≡ false)
    × (any is_bad_part (posix_parts suffix) ≡ false)
    × (starts_with suffix "/" ≡ false)
    × (is_server_generated_save_backup_name (last_text (posix_parts suffix)) ≡ false)

check_suffix-ok : (value suffix : String) → check_suffix value ≡ ok suffix → IsChecked value suffix
unfolding check_suffix
check_suffix-ok value suffix h =
    let same : suffix ≡ value = ground arith in
    rw same (refl, ground arith, ground arith, ground arith, ground arith)

-- Where the suffix leads from any directory: to a path below it, by at least one part, and not to a
-- backup that the server makes.
abbrev pub IsBelow : List String → List String → Type 0
IsBelow base target =
    (below : List String) × (target ≡ base ++ below)
    × (is_empty below ≡ false)
    × (is_server_generated_save_backup_name (last_text target) ≡ false)

-- A suffix that the server accepts cannot leave the directory that it is appended to: it is the
-- stripped text, and following its parts from that directory, one by one and with every ".." taken
-- as a step up, leads strictly below it, to a file whose name is not that of a backup.
pub normalize_canonical_suffix-safe :
    (raw suffix : String) (base : List String)
    → normalize_canonical_suffix raw ≡ ok suffix
    → (suffix ≡ strip raw) × IsBelow base (resolve base (split b'/' suffix))
unfolding posix_parts
normalize_canonical_suffix-safe raw suffix base h =
    let (same, some_part, good, relative, no_backup) =
      check_suffix-ok (strip raw) suffix (unfold normalize_canonical_suffix in h) in
    let parts = select is_kept (split b'/' suffix) in
    let whole : posix_parts suffix ≡ parts =
      ap (λ root. root ++ parts) (posix_root-relative suffix relative) in
    let there : resolve base (split b'/' suffix) ≡ base ++ parts =
      resolve-kept (split b'/' suffix) base (subst (λ l. any is_bad_part l ≡ false) whole good) in
    let nonempty : is_empty parts ≡ false = subst (λ l. is_empty l ≡ false) whole some_part in
    (
      same,
      (
        parts,
        there,
        nonempty,
        ap (λ l. is_server_generated_save_backup_name (last_text l)) there
            ∙ ap is_server_generated_save_backup_name (last_text-append base parts nonempty)
            ∙ subst (λ l. is_server_generated_save_backup_name (last_text l) ≡ false) whole
                no_backup,
      ),
    )
