-- ===== src/Prelude/Dict.antt =====
-- Python dicts with text keys, in insertion order. Proofs elsewhere go by the laws.
use Prim.Native.String.{String}
use mathlib.Core.Path.{◌≡◌, refl, ap}
use mathlib.Core.Logic.{inl, inr}
use mathlib.Core.Option.{Option, none, some}
use mathlib.Core.List.{List, [], ◌∷◌}
use native.Mathlib.Omega.{arith}
use mathlib.Core.Bool.{Bool, false, ◌&&◌}
use gamehub.Prelude.Lists.{any}
use gamehub.Prelude.Tests.{◌==◌, Bool-cases, if◌then◌else◌}

abbrev pub Dict {ℓ} : Type ℓ → Type ℓ
Dict V = List (String × V)

module _ {ℓ} {V : Type ℓ} where
  -- `d.get(k)`
  unfoldable pub lookup : String → Dict V → Option V
  lookup k [] = none
  lookup k ((j, v) ∷ d) = if k == j then some v else lookup k d

  -- `d[k] = v`
  unfoldable pub insert : String → V → Dict V → Dict V
  insert k v [] = (k, v) ∷ []
  insert k v ((j, w) ∷ d) = if k == j then (k, v) ∷ d else (j, w) ∷ insert k v d

  -- `d.pop(k, None)`
  unfoldable pub erase : String → Dict V → Dict V
  erase k [] = []
  erase k ((j, w) ∷ d) = let rest = erase k d in if k == j then rest else (j, w) ∷ rest

  pub lookup-nil : (k : String) → ◌≡◌ {A = Option V} (lookup k []) none
  unfolding lookup
  lookup-nil k = refl

  pub lookup-cons :
      (j k : String) (v : V) (d : Dict V)
      → lookup j ((k, v) ∷ d) ≡ (if j == k then some v else lookup j d)
  unfolding lookup
  lookup-cons j k v d = refl

  pub lookup-insert :
      (j k : String) (v : V) (d : Dict V)
      → lookup j (insert k v d) ≡ (if j == k then some v else lookup j d)
  unfolding lookup insert
  lookup-insert j k v [] = refl
  lookup-insert j k v ((i, w) ∷ d) = ground (arith, lookup-insert j k v d)

  pub lookup-erase :
      (j k : String) (d : Dict V) → lookup j (erase k d) ≡ (if j == k then none else lookup j d)
  unfolding lookup erase
  lookup-erase j k [] = ground arith
  lookup-erase j k ((i, w) ∷ d) = ground (arith, lookup-erase j k d)

  pub lookup-insert_self : (k : String) (v : V) (d : Dict V) → lookup k (insert k v d) ≡ some v
  lookup-insert_self k v d = ground (arith, lookup-insert k k v d)

  pub lookup-erase_self : (k : String) (d : Dict V) → lookup k (erase k d) ≡ none
  lookup-erase_self k d = ground (arith, lookup-erase k k d)

  -- Writing what is there, or removing what is not, changes nothing.
  pub insert_same : (k : String) (v : V) (d : Dict V) → lookup k d ≡ some v → insert k v d ≡ d
  unfolding lookup insert
  insert_same k v [] h = absurd (ground arith)
  insert_same k v ((j, w) ∷ d) h = elim (Bool-cases (k == j)) [
    | inl e ↦ ground (arith, e, h)
    | inr e ↦ rw e (ap (λ rest. (j, w) ∷ rest) (insert_same k v d (ground (arith, e, h))))
  ]

  pub erase_absent : (k : String) (d : Dict V) → lookup k d ≡ none → erase k d ≡ d
  unfolding lookup erase
  erase_absent k [] h = refl
  erase_absent k ((j, w) ∷ d) h = elim (Bool-cases (k == j)) [
    | inl e ↦ absurd (ground (arith, e, h))
    | inr e ↦ rw e (ap (λ rest. (j, w) ∷ rest) (erase_absent k d (ground (arith, e, h))))
  ]

  -- No key is listed twice, as in every Python dict.
  abbrev pub NodupKeys : Dict V → Type 0
  NodupKeys [] = Unit
  NodupKeys ((k, v) ∷ d) = (any (λ (e : String × V). k == e.0) d ≡ false) × NodupKeys d

  absent-any :
      (k : String) (test : String → V → Bool) (d : Dict V)
      → any (λ (e : String × V). k == e.0) d ≡ false
      → any (λ (e : String × V). k == e.0 && test e.0 e.1) d ≡ false
  absent-any k test [] h = refl
  absent-any k test ((j, v) ∷ d) h = ground (arith, absent-any k test d)

  -- Whether an entry of the key passes a test, by a search and by a lookup.
  pub any-lookup :
      (k : String) (test : String → V → Bool) (d : Dict V)
      → NodupKeys d
      → any (λ (e : String × V). k == e.0 && test e.0 e.1) d
        ≡ elim (lookup k d) [ none ↦ false | some v ↦ test k v ]
  unfolding lookup
  any-lookup k test [] u = refl
  any-lookup k test ((j, v) ∷ d) u =
      ground (arith, any-lookup k test d u.1, absent-any j test d u.0)
