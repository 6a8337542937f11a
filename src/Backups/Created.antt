-- ===== src/Backups/Created.antt =====
-- A backup always finds a free name, and costs no file but older backups.
use text.Mathlib.TextLemmas.{append_cancel_left, append_cancel_right}
use gamehub.Prelude.{
  ℕ, zero, suc, ◌≤◌, ◌<◌, ◌≡◌, ◌≢◌, ◌∙◌, String, Bool, true, false, not, ◌==◌, ◌<>◌, Option, none,
  some, List, [], ◌∷◌, length, select, ltb, inl, inr, ◌⊎◌, Bool-cases, arith, if◌then◌else◌,
}
use gamehub.Prelude.Dict
use gamehub.Prelude.Dict.{Dict}
use gamehub.Backups.{is_backup_of, family}
use gamehub.Backups.Create.{
  Directory, BackupResult, no_file, invalid_limit, out_of_fuel, backed_up, is_in, plain, numbered,
  free_from, free_name, entries_of, copy_and_prune, backup_existing_file,
}
use gamehub.Backups.Pruned.{prune_backup_family-bounds, prune_backup_family-keeps}

length-select_le : (p : String → Bool) (l : List String) → length (select p l) ≤ length l
length-select_le p [] = omega arith
length-select_le p (n ∷ l) = ground (arith, length-select_le p l)

-- Removing a name that is there.
length-select_lt :
    (name : String) (l : List String)
    → is_in l name ≡ true
    → length (select (λ n. not (name == n)) l) < length l
length-select_lt name [] h = absurd (ground arith)
length-select_lt name (n ∷ l) h = elim (Bool-cases (name == n)) [
  | inl e ↦ rw e (omega (arith, length-select_le (λ m. not (name == m)) l))
  | inr e ↦ rw e (omega (arith, length-select_lt name l (ground (arith, e, h))))
]

is_in-select :
    (name other : String) (l : List String)
    → name ≢ other
    → is_in l other ≡ true
    → is_in (select (λ n. not (name == n)) l) other ≡ true
is_in-select name other [] ne h = absurd (ground arith)
is_in-select name other (n ∷ l) ne h = elim (Bool-cases (other == n)) [
  | inl e ↦ ground (arith, e, ne)
  | inr e ↦ ground (arith, e, is_in-select name other l ne (ground (arith, e, h)))
]

module _ (casefold : String → String) (str : ℕ → String)
    (str_inj : (a b : ℕ) → str a ≡ str b → a ≡ b) (name stamp : String) where
  numbered_inj :
      (a b : ℕ) → numbered casefold str name stamp a ≡ numbered casefold str name stamp b → a ≡ b
  numbered_inj a b h = str_inj a b (
      append_cancel_right (str a) (str b) ".bak"
        (append_cancel_left (name <> "." <> stamp <> ".") (str a <> ".bak") (str b <> ".bak") h))

  -- `f` numbered names from `n` on are taken.
  abbrev Taken : List String → ℕ → ℕ → Type 0
  Taken entries n zero = Unit
  Taken entries n (suc f) =
      (is_in entries (numbered casefold str name stamp n) ≡ true) × Taken entries (suc n) f

  Taken-select :
      (entries : List String) (k n f : ℕ)
      → k < n
      → Taken entries n f
      → Taken (select (λ m. not (numbered casefold str name stamp k == m)) entries) n f
  Taken-select entries k n zero lt h = tt
  Taken-select entries k n (suc f) lt h = (
    is_in-select (numbered casefold str name stamp k) (numbered casefold str name stamp n) entries
        (λ e. absurd (omega (arith, lt, numbered_inj k n e))) h.0,
    Taken-select entries k (suc n) f (omega (arith, lt)) h.1,
  )

  -- There are at least as many entries as taken names.
  Taken-length : (f n : ℕ) (entries : List String) → Taken entries n f → f ≤ length entries
  Taken-length zero n entries h = omega arith
  Taken-length (suc f) n entries h = omega (
    arith,
    length-select_lt (numbered casefold str name stamp n) entries h.0,
    Taken-length f (suc n) (select (λ m. not (numbered casefold str name stamp n == m)) entries)
        (Taken-select entries n (suc n) f (omega arith) h.1),
  )

  Found : List String → Option String → Type 0
  Found entries none = ⊥
  Found entries (some created) = is_in entries created ≡ false

  free_from-Found :
      (fuel n : ℕ) (entries : List String)
      → Found entries (free_from casefold str fuel entries name stamp n) ⊎ Taken entries n fuel
  unfolding free_from Found
  free_from-Found zero n entries = inr tt
  free_from-Found (suc fuel) n entries =
      elim (Bool-cases (is_in entries (numbered casefold str name stamp n))) [
        | inr e ↦ inl (rw (free_from, e) e)
        | inl e ↦ elim (free_from-Found fuel (suc n) entries) [
          | inl found ↦ inl (rw (free_from, e) found)
          | inr taken ↦ inr (e, taken)
        ]
      ]

  free_name-Found :
      (entries : List String) → Found entries (free_name casefold str entries name stamp)
  unfolding free_name Found
  free_name-Found entries = elim (Bool-cases (is_in entries (plain casefold str name stamp))) [
    | inr e ↦ rw (free_name, e) e
    | inl e ↦ elim (free_from-Found (suc (length entries)) 1 entries) [
      | inl found ↦ rw (free_name, e) found
      | inr taken ↦ absurd (omega (arith, Taken-length (suc (length entries)) 1 entries taken))
    ]
  ]

  module _ {C : Type 0} where
    -- What a backup leaves: the copy under a new name, few enough backups, and the file `k`.
    abbrev pub IsSafe : ℕ → C → Directory C → String → BackupResult C → Type 0
    IsSafe keep_limit content d k no_file = ⊥
    IsSafe keep_limit content d k invalid_limit = ⊥
    IsSafe keep_limit content d k out_of_fuel = ⊥
    IsSafe keep_limit content d k (backed_up created pruned after) =
        (is_in (entries_of casefold str d) created ≡ false)
        × (length (family casefold name after.files) ≤ keep_limit)
        × (Dict.lookup k after.files
            ≡ (if k == created then some content else Dict.lookup k d.files))

    copy_and_prune-IsSafe :
        (keep_limit : ℕ) (content : C) (d : Directory C) (k : String) (found : Option String)
        → is_backup_of casefold name k ≡ false
        → Found (entries_of casefold str d) found
        → IsSafe keep_limit content d k
            (copy_and_prune casefold str name keep_limit content d found)
    unfolding copy_and_prune Found
    copy_and_prune-IsSafe keep_limit content d k none other h = absurd h
    copy_and_prune-IsSafe keep_limit content d k (some created) other h = (
      h,
      prune_backup_family-bounds casefold name keep_limit (Dict.insert created content d.files),
      prune_backup_family-keeps casefold name keep_limit (Dict.insert created content d.files) k
            other
          ∙ Dict.lookup-insert k created content d.files,
    )

    -- A backup of a file that is there, with a limit of at least 1 and numbers that print
    -- differently, always ends: it finds a name that nothing has, and leaves at most as many
    -- backups of the file as the limit says. A file that is none of these backups is as it was,
    -- or is the copy.
    pub backup_existing_file-IsSafe :
        (keep_limit : ℕ) (content : C) (d : Directory C) (k : String)
        → Dict.lookup name d.files ≡ some content
        → 1 ≤ keep_limit
        → is_backup_of casefold name k ≡ false
        → IsSafe keep_limit content d k (backup_existing_file casefold str name keep_limit stamp d)
    unfolding backup_existing_file
    backup_existing_file-IsSafe keep_limit content d k here le other =
        let enough : ltb keep_limit 1 ≡ false = ground (arith, le) in
        rw (backup_existing_file, here, enough)
          (copy_and_prune-IsSafe keep_limit content d k
            (free_name casefold str (entries_of casefold str d) name stamp) other
            (free_name-Found (entries_of casefold str d)))
