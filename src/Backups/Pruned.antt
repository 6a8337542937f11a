-- ===== src/Backups/Pruned.antt =====
-- What pruning the backups of a file leaves.
use gamehub.Prelude.{
  ℕ, zero, suc, ◌≤◌, ◌≡◌, refl, ap, ◌∙◌, sym, String, Bool, true, false, not, ◌==◌, List, [], ◌∷◌,
  map, length, any, drop, select, All, inl, inr, Bool-cases, Option-cases, arith,
}
use gamehub.Prelude.Dict
use gamehub.Prelude.Dict.{Dict}
use gamehub.Backups.{
  SortKey, parse_gamehub_backup_name, sort_key_lt, insert_descending, sort_descending, keyed,
  sort_gamehub_backups, stale_gamehub_backups, is_of, is_backup_of, family, unlink_all,
  prune_backup_family,
}

abbrev count : (String → Bool) → List String → ℕ
count p names = length (select p names)

abbrev is_in : List String → String → Bool
is_in names name = any (λ n. name == n) names

abbrev names_of : List (SortKey × String) → List String
names_of = map (λ (e : SortKey × String). e.1)

-- Sorting changes no count.
count-insert_descending :
    (p : String → Bool) (x : SortKey × String) (ys : List (SortKey × String))
    → count p (names_of (insert_descending x ys)) ≡ count p (x.1 ∷ names_of ys)
unfolding insert_descending
count-insert_descending p x [] = refl
count-insert_descending p x (y ∷ ys) = elim (Bool-cases (sort_key_lt x.0 y.0)) [
  | inr e ↦ rw e refl
  | inl e ↦ rw e (ground (arith, count-insert_descending p x ys))
]

count-sort_descending :
    (p : String → Bool) (xs : List (SortKey × String))
    → count p (names_of (sort_descending xs)) ≡ count p (names_of xs)
unfolding sort_descending
count-sort_descending p [] = refl
count-sort_descending p (x ∷ xs) =
    count-insert_descending p x (sort_descending xs) ∙ ground (arith, count-sort_descending p xs)

-- At most `k` entries are not among those after the first `k`.
count_outside :
    (names stale : List String) (k : ℕ)
    → All (λ name. is_in stale name ≡ true) (drop k names)
    → count (λ name. not (is_in stale name)) names ≤ k
count_outside [] stale k h = omega arith
count_outside (n ∷ names) stale zero h = ground (arith, h.0, count_outside names stale zero h.1)
count_outside (n ∷ names) stale (suc k) h = ground (arith, count_outside names stale k h)

All-weaken :
    (n : String) (l names : List String)
    → All (λ name. is_in l name ≡ true) names
    → All (λ name. is_in (n ∷ l) name ≡ true) names
All-weaken n l [] h = tt
All-weaken n l (m ∷ names) h = (ground (arith, h.0), All-weaken n l names h.1)

is_in_self : (l : List String) → All (λ name. is_in l name ≡ true) l
is_in_self [] = tt
is_in_self (n ∷ l) = (ground arith, All-weaken n l l (is_in_self l))

count-drop : (p : String → Bool) (k : ℕ) (l : List String) → count p (drop k l) ≤ count p l
count-drop p zero l = omega arith
count-drop p (suc k) [] = omega arith
count-drop p (suc k) (n ∷ l) = ground (arith, count-drop p k l)

is_in-count :
    (name : String) (l : List String) → count (λ n. name == n) l ≡ 0 → is_in l name ≡ false
is_in-count name [] h = refl
is_in-count name (n ∷ l) h = ground (arith, h, is_in-count name l)

==_sound : (s t : String) → (s == t) ≡ true → s ≡ t
==_sound s t h = ground (arith, h)

select_all : (l : List String) → select (λ n. not (is_in [] n)) l ≡ l
select_all [] = refl
select_all (n ∷ l) = ap (λ l. n ∷ l) (select_all l)

select_both :
    (n : String) (names l : List String)
    → select (λ m. not (is_in names m)) (select (λ m. not (n == m)) l)
      ≡ select (λ m. not (is_in (n ∷ names) m)) l
select_both n names [] = refl
select_both n names (m ∷ l) = ground (arith, select_both n names l)

count_swap :
    (p q : String → Bool) (l : List String) → length (select p (select q l)) ≡ count q (select p l)
count_swap p q [] = refl
count_swap p q (m ∷ l) = ground (arith, count_swap p q l)

module _ (casefold : String → String) (original_name : String) where
  abbrev test : String → Bool
  test = is_backup_of casefold original_name

  -- Backups of the file all have a key.
  keyed-backup :
      (names : List String) → names_of (keyed casefold (select test names)) ≡ select test names
  unfolding keyed is_backup_of is_of
  keyed-backup [] = refl
  keyed-backup (n ∷ names) = elim (Bool-cases (test n)) [
    | inr e ↦ rw e (keyed-backup names)
    | inl e ↦ elim (Option-cases (parse_gamehub_backup_name n)) [
      | inl e' ↦ absurd (ground (arith, e, e'))
      | inr (parsed, e') ↦ rw (e, keyed, e') (ap (λ l. n ∷ l) (keyed-backup names))
    ]
  ]

  count-sorted :
      (p : String → Bool) (names : List String)
      → count p (sort_gamehub_backups casefold (select test names)) ≡ count p (select test names)
  unfolding sort_gamehub_backups
  count-sorted p names =
      count-sort_descending p (keyed casefold (select test names))
      ∙ ap (count p) (keyed-backup names)

  count_other :
      (name : String) (names : List String)
      → test name ≡ false
      → count (λ n. name == n) (select test names) ≡ 0
  count_other name [] h = refl
  count_other name (n ∷ names) h = elim (Bool-cases (test n)) [
    | inr e ↦ rw e (count_other name names h)
    | inl e ↦ elim (Bool-cases (name == n)) [
      | inr e' ↦ rw (e, e') (count_other name names h)
      | inl e' ↦ absurd (ground (arith, e, h, ap test (==_sound name n e')))
    ]
  ]

  module _ {ℓ} {C : Type ℓ} where
    keys : Dict C → List String
    keys = map (λ (e : String × C). e.0)

    keys-erase :
        (k : String) (d : Dict C) → keys (Dict.erase k d) ≡ select (λ n. not (k == n)) (keys d)
    unfolding keys Dict.erase
    keys-erase k [] = refl
    keys-erase k ((j, v) ∷ d) = elim (Bool-cases (k == j)) [
      | inl e ↦ rw e (keys-erase k d)
      | inr e ↦ rw e (ap (λ l. j ∷ l) (keys-erase k d))
    ]

    lookup-unlink_all :
        (k : String) (names : List String) (d : Dict C)
        → is_in names k ≡ false
        → Dict.lookup k (unlink_all casefold names d) ≡ Dict.lookup k d
    unfolding unlink_all
    lookup-unlink_all k [] d h = refl
    lookup-unlink_all k (n ∷ names) d h =
        lookup-unlink_all k names (Dict.erase n d) (ground (arith, h))
        ∙ Dict.lookup-erase k n d
        ∙ ground (arith, h)

    keys-unlink_all :
        (names : List String) (d : Dict C)
        → keys (unlink_all casefold names d) ≡ select (λ n. not (is_in names n)) (keys d)
    unfolding unlink_all
    keys-unlink_all [] d = sym (select_all (keys d))
    keys-unlink_all (n ∷ names) d =
        keys-unlink_all names (Dict.erase n d)
        ∙ ap (select (λ n. not (is_in names n))) (keys-erase n d)
        ∙ select_both n names (keys d)

    -- Pruning the backups of a file leaves at most as many of them as the limit says.
    pub prune_backup_family-bounds :
        (keep_limit : ℕ) (files : Dict C)
        → length (
            family casefold original_name
              (prune_backup_family casefold original_name keep_limit files).0)
          ≤ keep_limit
    unfolding prune_backup_family family stale_gamehub_backups keys
    prune_backup_family-bounds keep_limit files =
        let names = select test (keys files) in
        let sorted = sort_gamehub_backups casefold names in
        let stale = drop keep_limit sorted in
        omega (
          arith,
          ap (λ l. length (select test l)) (keys-unlink_all stale files),
          count_swap test (λ n. not (is_in stale n)) (keys files),
          count-sorted (λ n. not (is_in stale n)) (keys files),
          count_outside sorted stale keep_limit (is_in_self stale),
        )

    -- Pruning the backups of a file leaves every other file as it was: all that are not backups, and
    -- the backups of other files.
    pub prune_backup_family-keeps :
        (keep_limit : ℕ) (files : Dict C) (name : String)
        → is_backup_of casefold original_name name ≡ false
        → Dict.lookup name (prune_backup_family casefold original_name keep_limit files).0
          ≡ Dict.lookup name files
    unfolding prune_backup_family family stale_gamehub_backups keys
    prune_backup_family-keeps keep_limit files name h =
        let sorted = sort_gamehub_backups casefold (select test (keys files)) in
        lookup-unlink_all name (drop keep_limit sorted) files (
          is_in-count name (drop keep_limit sorted) (
            omega (
              arith,
              count-drop (λ n. name == n) keep_limit sorted,
              count-sorted (λ n. name == n) (keys files),
              count_other name (keys files) h,
            )))
