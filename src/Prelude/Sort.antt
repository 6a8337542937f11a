-- ===== src/Prelude/Sort.antt =====
-- `sorted(items, key=...)` for keys that are tuples of texts: stable insertion by the code points.
use Prim.Native.Nat.{suc, Ordering}
use Prim.Native.String.{String, compare}
use mathlib.Core.Path.{◌≡◌, refl}
use mathlib.Core.Logic.{inl, inr}
use mathlib.Core.Bool.{Bool, true, false, ◌||◌}
use mathlib.Core.List.{List, [], ◌∷◌, Perm}
use mathlib.Core.List.Perm
use native.Mathlib.Omega.{arith}
use gamehub.Prelude.Tests.{Bool-cases, if◌then◌else◌}
use gamehub.Prelude.Lists.{length, any, All}

-- `a < b` on tuples
unfoldable pub key_lt : List String → List String → Bool
key_lt [] [] = false
key_lt [] (t ∷ ts) = true
key_lt (s ∷ ss) [] = false
key_lt (s ∷ ss) (t ∷ ts) =
    let rest = key_lt ss ts in
    elim (compare s t) [ Ordering.lt ↦ true | Ordering.eq ↦ rest | Ordering.gt ↦ false ]

module _ {ℓ} {A : Type ℓ} (key : A → List String) where
  insert_sorted : A → List A → List A
  insert_sorted x [] = x ∷ []
  insert_sorted x (y ∷ ys) =
      let rest = insert_sorted x ys in if key_lt (key y) (key x) then y ∷ rest else x ∷ y ∷ ys

  unfoldable pub sort_by : List A → List A
  unfolding insert_sorted key_lt
  sort_by [] = []
  sort_by (x ∷ xs) = insert_sorted x (sort_by xs)

  insert_sorted-perm : (x : A) (ys : List A) → Perm (insert_sorted x ys) (x ∷ ys)
  unfolding insert_sorted
  insert_sorted-perm x [] = Perm.refl _
  insert_sorted-perm x (y ∷ ys) = elim (Bool-cases (key_lt (key y) (key x))) [
    | inl e ↦ rw e (Perm.trans (Perm.cons y (insert_sorted-perm x ys)) (Perm.swap _ _ _))
    | inr e ↦ rw e (Perm.refl _)
  ]

  -- Sorting only reorders.
  pub sort_by-perm : (xs : List A) → Perm (sort_by xs) xs
  unfolding sort_by
  sort_by-perm [] = Perm.refl _
  sort_by-perm (x ∷ xs) =
      Perm.trans (insert_sorted-perm x (sort_by xs)) (Perm.cons x (sort_by-perm xs))

  insert_sorted-All {κ} :
      (P : A → Type κ) (x : A) (ys : List A) → P x → All P ys → All P (insert_sorted x ys)
  unfolding insert_sorted
  insert_sorted-All P x [] h hs = (h, hs)
  insert_sorted-All P x (y ∷ ys) h hs = elim (Bool-cases (key_lt (key y) (key x))) [
    | inl e ↦ rw e (hs.0, insert_sorted-All P x ys h hs.1)
    | inr e ↦ rw e (h, hs)
  ]

  pub sort_by-All {κ} : (P : A → Type κ) (xs : List A) → All P xs → All P (sort_by xs)
  unfolding sort_by
  sort_by-All P [] hs = hs
  sort_by-All P (x ∷ xs) hs = insert_sorted-All P x (sort_by xs) hs.0 (sort_by-All P xs hs.1)

  length-insert_sorted : (x : A) (ys : List A) → length (insert_sorted x ys) ≡ suc (length ys)
  unfolding insert_sorted
  length-insert_sorted x [] = refl
  length-insert_sorted x (y ∷ ys) = ground (arith, length-insert_sorted x ys)

  pub length-sort_by : (xs : List A) → length (sort_by xs) ≡ length xs
  unfolding sort_by
  length-sort_by [] = refl
  length-sort_by (x ∷ xs) = omega (arith, length-insert_sorted x (sort_by xs), length-sort_by xs)

  any-insert_sorted :
      (test : A → Bool) (x : A) (ys : List A)
      → any test (insert_sorted x ys) ≡ (test x || any test ys)
  unfolding insert_sorted
  any-insert_sorted test x [] = refl
  any-insert_sorted test x (y ∷ ys) = ground (arith, any-insert_sorted test x ys)

  pub any-sort_by : (test : A → Bool) (xs : List A) → any test (sort_by xs) ≡ any test xs
  unfolding sort_by
  any-sort_by test [] = refl
  any-sort_by test (x ∷ xs) =
      ground (arith, any-insert_sorted test x (sort_by xs), any-sort_by test xs)

  module _ {κ} (R : List A → List A → Type κ) (same : (xs : List A) → R xs xs)
      (step : (x : A) (ys zs : List A) → R ys zs → R (x ∷ ys) (x ∷ zs))
      (exchange : (x y : A) (ys : List A) → R (x ∷ y ∷ ys) (y ∷ x ∷ ys))
      (join : (xs ys zs : List A) → R xs ys → R ys zs → R xs zs) where
    insert_sorted-related : (x : A) (ys : List A) → R (insert_sorted x ys) (x ∷ ys)
    unfolding insert_sorted
    insert_sorted-related x [] = same (x ∷ [])
    insert_sorted-related x (y ∷ ys) = elim (Bool-cases (key_lt (key y) (key x))) [
      | inl e ↦ rw e (join _ _ _ (step y _ _ (insert_sorted-related x ys)) (exchange y x ys))
      | inr e ↦ rw e (same (x ∷ y ∷ ys))
    ]

    -- A relation that reordering respects holds of the sorted list and the list.
    pub sort_by-related : (xs : List A) → R (sort_by xs) xs
    unfolding sort_by
    sort_by-related [] = same []
    sort_by-related (x ∷ xs) =
        join _ _ _ (insert_sorted-related x (sort_by xs)) (step x _ _ (sort_by-related xs))
