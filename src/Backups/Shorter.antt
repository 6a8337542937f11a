-- ===== src/Backups/Shorter.antt =====
-- A backup has a longer name than the file that it is of.
use text.Mathlib.TextLemmas.{nil-append, cons-append}
use mathlib.Core.List.{reverse}
use mathlib.Core.List
use gamehub.Prelude.{
  ℕ, suc, ◌+◌, ◌≤◌, ◌<◌, ◌≡◌, refl, String, ◌<>◌, false, ◌&&◌, ◌==◌, Option, none, some, List, [],
  ◌∷◌, arith, Bool-cases, inl, inr, nat_eq, ap,
}
use Prim.Native.Char.{Char, code}
use gamehub.Prelude.Text.{split, add_front, join, text_length, chomp}
use gamehub.Server.Suffix.{is_stamp, is_stem, is_digits}
use gamehub.Backups.{
  BackupFilename, stamped_name, collided_name, or_else, bak_name, parse_gamehub_backup_name, is_of,
}

-- The length of texts that are joined by a character, and one more.
abbrev total : List String → ℕ
total [] = 0
total (s ∷ ss) = suc (text_length s) + total ss

total-reverse_aux : (xs ys : List String) → total (List.reverse_aux xs ys) ≡ total xs + total ys
total-reverse_aux [] ys = omega arith
total-reverse_aux (x ∷ xs) ys = omega (arith, total-reverse_aux xs (x ∷ ys))

total-reverse : (xs : List String) → total (reverse xs) ≡ total xs
total-reverse xs = omega (arith, total-reverse_aux xs [])

text_length-append : (s t : String) → text_length (s <> t) ≡ text_length s + text_length t
unfolding text_length
text_length-append String.[] t = omega (arith, ap text_length (nil-append t))
text_length-append (String.◌∷◌ c s) t =
    omega (arith, ap text_length (cons-append c s t), text_length-append s t)

length-join : (xs : List String) → text_length (join "." xs) ≤ total xs
unfolding join text_length
length-join [] = omega arith
length-join (x ∷ []) = omega arith
length-join (x ∷ y ∷ r) = omega (
  arith,
  text_length-append x ("." <> join "." (y ∷ r)),
  text_length-append "." (join "." (y ∷ r)),
  length-join (y ∷ r),
)

total-add_front :
    (c : Char) (n : ℕ) (parts : List String)
    → total parts ≡ suc n
    → total (add_front c parts) ≡ suc (suc n)
unfolding add_front text_length
total-add_front c n [] h = absurd (omega (arith, h))
total-add_front c n (s ∷ r) h = omega (arith, h)

total-split : (sep : ℕ) (s : String) → total (split sep s) ≡ suc (text_length s)
unfolding split text_length
total-split sep String.[] = refl
total-split sep (String.◌∷◌ c s) = elim (Bool-cases (nat_eq (code c) sep)) [
  | inl e ↦ rw e (omega (arith, total-split sep s))
  | inr e ↦ rw e (total-add_front c (text_length s) (split sep s) (total-split sep s))
]

length-chomp : (s : String) → text_length (chomp s) ≤ text_length s
unfolding chomp text_length
length-chomp String.[] = omega arith
length-chomp (String.◌∷◌ c s) = elim (Bool-cases (nat_eq (code c) 10 && (s == ""))) [
  | inl e ↦ rw e (omega arith)
  | inr e ↦ rw e (omega (arith, length-chomp s))
]

-- A parsed name is shorter than `n`.
abbrev Below : ℕ → Option BackupFilename → Type 0
Below n none = Unit
Below n (some parsed) = text_length parsed.original_name < n

stamped_name-Below : (k : ℕ) (parts : List String) → Below (total parts) (stamped_name k parts)
unfolding stamped_name
stamped_name-Below k [] = tt
stamped_name-Below k (stamp ∷ stem) = elim (Bool-cases (is_stamp stamp && is_stem stem)) [
  | inl e ↦
      rw (stamped_name, e, Below) (omega (arith, length-join (reverse stem), total-reverse stem))
  | inr e ↦ rw (stamped_name, e, Below) tt
]

Below-le : (m n : ℕ) (o : Option BackupFilename) → m ≤ n → Below m o → Below n o
Below-le m n none le h = tt
Below-le m n (some parsed) le h = omega (arith, le, h)

collided_name-Below : (parts : List String) → Below (total parts) (collided_name parts)
unfolding collided_name
collided_name-Below [] = tt
collided_name-Below (number ∷ rest) = elim (Bool-cases (is_digits number)) [
  | inl e ↦
      rw (collided_name, e)
        (Below-le (total rest) (total (number ∷ rest)) _ (omega arith) (stamped_name-Below _ rest))
  | inr e ↦ rw (collided_name, e, Below) tt
]

or_else-Below :
    (n : ℕ) (o o' : Option BackupFilename) → Below n o → Below n o' → Below n (or_else o o')
unfolding or_else
or_else-Below n none o' h h' = h'
or_else-Below n (some parsed) o' h h' = h

-- Without the last part, a name is shorter by a character at least.
bak_name-Below : (n : ℕ) (parts : List String) → total parts ≤ suc n → Below n (bak_name parts)
unfolding bak_name
bak_name-Below n [] le = tt
bak_name-Below n (suffix ∷ parts) le = elim (Bool-cases (suffix == "bak")) [
  | inl e ↦
      rw (bak_name, e)
        (Below-le (total parts) n (or_else (stamped_name 0 parts) (collided_name parts))
          (omega (arith, le))
          (or_else-Below (total parts) (stamped_name 0 parts) (collided_name parts)
            (stamped_name-Below 0 parts) (collided_name-Below parts)))
  | inr e ↦ rw (bak_name, e, Below) tt
]

parse-Below : (name : String) → Below (text_length name) (parse_gamehub_backup_name name)
unfolding parse_gamehub_backup_name
parse-Below name = bak_name-Below (text_length name) (reverse (split b'.' (chomp name))) (
    omega (
      arith,
      total-reverse (split b'.' (chomp name)),
      total-split b'.' (chomp name),
      length-chomp name,
    ))

module _ (casefold : String → String) where
  is_of-Below :
      (name : String) (o : Option BackupFilename)
      → Below (text_length name) o
      → is_of casefold name o ≡ false
  unfolding is_of
  is_of-Below name none h = refl
  is_of-Below name (some parsed) h = elim (Bool-cases (parsed.original_name == name)) [
    | inr e ↦ e
    | inl e ↦
        let same : parsed.original_name ≡ name = ground (arith, e) in
        absurd (omega (arith, h, ap text_length same))
  ]

  -- No file is a backup of itself.
  pub not_own_backup :
      (name : String) → is_of casefold name (parse_gamehub_backup_name name) ≡ false
  not_own_backup name = is_of-Below name (parse_gamehub_backup_name name) (parse-Below name)
