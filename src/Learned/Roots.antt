-- ===== src/Learned/Roots.antt =====
-- What a learned root says of the paths that it was learned from.
use gamehub.Prelude.{
  ℕ, ◌≡◌, String, Bool, Option, some, List, [], ◌∷◌, All, arith, Option-cases, inl, inr,
}
use gamehub.Models.{learned_tree, SaveBindingSpec}
use gamehub.Learned.{
  canonical_root_for_learned_path, materialized_root_for_learned_path, common_root,
  learn_binding_root,
}

All-both :
    {A : Type 0} (P Q : A → Type 0) (xs : List A) → All P xs → All Q xs → All (λ x. P x × Q x) xs
All-both P Q [] p q = tt
All-both P Q (x ∷ xs) p q = ((p.0, q.0), All-both P Q xs p.1 q.1)

module _ (is_hex_char : ℕ → Bool) where
  common_root-All :
      (root : String → Option String) (paths : List String) (r : String)
      → common_root is_hex_char root paths ≡ some r
      → All (λ path. root path ≡ some r) paths
  unfolding common_root
  common_root-All root [] r h = tt
  common_root-All root (path ∷ []) r h = (h, tt)
  common_root-All root (path ∷ path' ∷ paths) r h = elim (Option-cases (root path)) [
    | inl e ↦ absurd (ground arith)
    | inr (r', e) ↦ elim (Option-cases (common_root is_hex_char root (path' ∷ paths))) [
      | inl e' ↦ absurd (ground (arith, e, e', h))
      | inr (r'', e') ↦ (
        ground (arith, e, e', h),
        common_root-All root (path' ∷ paths) r (ground (arith, e, e', h)),
      )
    ]
  ]

  -- A learned pair of roots is the pair of every path that it was learned from: all of them are
  -- saves by the rule of the binding, with the same canonical and the same materialized root.
  pub learn_binding_root-All :
      (binding : SaveBindingSpec) (paths : List String) (canonical materialized : String)
      → learn_binding_root is_hex_char binding paths ≡ some (canonical, materialized)
      → (binding.strategy ≡ learned_tree)
        × All
            (λ path.
              (canonical_root_for_learned_path is_hex_char binding.learn_rule path ≡ some canonical)
              × (materialized_root_for_learned_path is_hex_char binding.learn_rule path
                  ≡ some materialized))
            paths
  unfolding learn_binding_root
  learn_binding_root-All binding paths canonical materialized h =
      let rule = binding.learn_rule in
      elim (Option-cases
        (common_root is_hex_char (canonical_root_for_learned_path is_hex_char rule) paths)) [
          | inl e ↦ absurd (ground arith)
          | inr (c, e) ↦
              elim (Option-cases (
                common_root is_hex_char (materialized_root_for_learned_path is_hex_char rule)
                  paths)) [
                    | inl e' ↦ absurd (ground arith)
                    | inr (m, e') ↦ (
                      ground arith,
                      All-both
                          (λ path.
                            canonical_root_for_learned_path is_hex_char rule path ≡ some canonical)
                          (λ path.
                            materialized_root_for_learned_path is_hex_char rule path
                            ≡ some materialized)
                          paths
                          (common_root-All (canonical_root_for_learned_path is_hex_char rule) paths
                            canonical (ground arith))
                          (common_root-All (materialized_root_for_learned_path is_hex_char rule)
                            paths materialized (ground arith)),
                    )
                  ]
        ]
