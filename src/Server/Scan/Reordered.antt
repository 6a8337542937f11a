-- ===== src/Server/Scan/Reordered.antt =====
-- The results of a scan, but for their order.
use mathlib.Core.List.Perm
use mathlib.Core.List.{Perm, perm_middle}
use gamehub.Prelude.{String, Bool, true, false, ◌&&◌, Option, none, some, List, [], ◌∷◌, ◌++◌}
use gamehub.Prelude.Sort.{sort_by-related}
use gamehub.Server.Scan.{Entry, Entries, nil, entry, both, gather, each, in_order}

abbrev pub all_of : (Entry → Bool) → Entries → Bool
all_of test nil = true
all_of test (entry e es) = test e && all_of test es

module _ {A : Type 0} where
  abbrev pub Same : Option (List A) → Option (List A) → Type 0
  Same none none = Unit
  Same none (some ys) = ⊥
  Same (some xs) none = ⊥
  Same (some xs) (some ys) = Perm xs ys

  -- The list of a layout that is well-formed.
  abbrev pub guarded : Bool → List A → Option (List A)
  guarded true xs = some xs
  guarded false xs = none

  pub Same-refl : (r : Option (List A)) → Same r r
  Same-refl none = tt
  Same-refl (some xs) = Perm.refl xs

  pub Same-trans : (r s t : Option (List A)) → Same r s → Same s t → Same r t
  Same-trans none none none h h' = tt
  Same-trans none none (some zs) h h' = h'
  Same-trans none (some ys) t h h' = absurd h
  Same-trans (some xs) none t h h' = absurd h
  Same-trans (some xs) (some ys) none h h' = h'
  Same-trans (some xs) (some ys) (some zs) h h' = Perm.trans h h'

  both-Same :
      (r s : Option (List A)) (b c : Bool) (xs ys : List A)
      → Same r (guarded b xs)
      → Same s (guarded c ys)
      → Same (both r s) (guarded (b && c) (xs ++ ys))
  unfolding both
  both-Same none s true c xs ys h h' = absurd h
  both-Same none s false c xs ys h h' = tt
  both-Same (some vs) s false c xs ys h h' = absurd h
  both-Same (some vs) none true true xs ys h h' = absurd h'
  both-Same (some vs) none true false xs ys h h' = tt
  both-Same (some vs) (some ws) true true xs ys h h' = Perm.append h h'
  both-Same (some vs) (some ws) true false xs ys h h' = absurd h'

  both-right : (r s t : Option (List A)) → Same s t → Same (both r s) (both r t)
  unfolding both
  both-right none s t h = tt
  both-right (some xs) none none h = tt
  both-right (some xs) none (some zs) h = h
  both-right (some xs) (some ys) none h = h
  both-right (some xs) (some ys) (some zs) h = Perm.append_left xs h

  exchange_lists : (xs ys zs : List A) → Perm (xs ++ (ys ++ zs)) (ys ++ (xs ++ zs))
  exchange_lists [] ys zs = Perm.refl (ys ++ zs)
  exchange_lists (x ∷ xs) ys zs =
      Perm.trans (Perm.cons x (exchange_lists xs ys zs)) (Perm.symm (perm_middle ys (xs ++ zs)))

  both-exchange : (r s t : Option (List A)) → Same (both r (both s t)) (both s (both r t))
  unfolding both
  both-exchange none none t = tt
  both-exchange none (some ys) none = tt
  both-exchange none (some ys) (some zs) = tt
  both-exchange (some xs) none none = tt
  both-exchange (some xs) none (some zs) = tt
  both-exchange (some xs) (some ys) none = tt
  both-exchange (some xs) (some ys) (some zs) = exchange_lists xs ys zs

  -- Sorting the entries of a directory changes only the order of what is found.
  pub in_order-Same :
      (lower : String → String) (rs : List (String × Option (List A)))
      → Same (in_order lower rs) (gather rs)
  unfolding in_order gather
  in_order-Same lower rs =
      sort_by-related (λ (r : String × Option (List A)). lower r.0 ∷ [])
        (λ qs qs'. Same (gather qs) (gather qs')) (λ qs. Same-refl (gather qs))
        (λ q qs qs' h. both-right q.1 (gather qs) (gather qs') h)
        (λ q q' qs. both-exchange q.1 q'.1 (gather qs))
        (λ qs qs' qs''. Same-trans (gather qs) (gather qs') (gather qs'')) rs

  pub gather-Same :
      (name : String) (r : Option (List A)) (rs : List (String × Option (List A)))
      → (b c : Bool) (xs ys : List A) → Same r (guarded b xs)
      → Same (gather rs) (guarded c ys)
      → Same (gather ((name, r) ∷ rs)) (guarded (b && c) (xs ++ ys))
  unfolding gather
  gather-Same name r rs = both-Same r (gather rs)

  -- What all entries hold.
  abbrev pub list_of : (Entry → List A) → Entries → List A
  list_of f nil = []
  list_of f (entry e es) = f e ++ list_of f es

  gather-each :
      (scan : Entry → Option (List A)) (test : Entry → Bool) (f : Entry → List A)
      → ((e : Entry) → Same (scan e) (guarded (test e) (f e)))
      → (es : Entries) → Same (gather (each scan es)) (guarded (all_of test es) (list_of f es))
  unfolding each gather
  gather-each scan test f h nil = Perm.refl []
  gather-each scan test f h (entry e es) =
      both-Same (scan e) (gather (each scan es)) (test e) (all_of test es) (f e) (list_of f es)
        (h e) (gather-each scan test f h es)

  -- A scan of a directory, from the scan of its entries.
  pub each-Same :
      (lower : String → String)
      → (scan : Entry → Option (List A)) (test : Entry → Bool) (f : Entry → List A)
      → ((e : Entry) → Same (scan e) (guarded (test e) (f e)))
      → (es : Entries)
      → Same (in_order lower (each scan es)) (guarded (all_of test es) (list_of f es))
  each-Same lower scan test f h es =
      Same-trans (in_order lower (each scan es)) (gather (each scan es)) _
        (in_order-Same lower (each scan es)) (gather-each scan test f h es)
