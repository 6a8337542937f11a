-- ===== src/Server/Multipart/Search.antt =====
-- Searching a buffer for the marker, when more bytes follow the buffer.
use gamehub.Prelude.{
  ℕ, zero, suc, ◌+◌, ◌≤◌, ◌≡◌, refl, ap, ◌∙◌, sym, true, false, none, some, [], ◌∷◌, ◌++◌, length,
  take, drop, Bool-cases, Option-cases, inl, inr, subst, arith,
}
use gamehub.Server.Multipart.{Bytes, is_prefix, find}

pub append_assoc : (a b c : Bytes) → (a ++ b) ++ c ≡ a ++ (b ++ c)
append_assoc [] b c = refl
append_assoc (x ∷ a) b c = ap (λ l. x ∷ l) (append_assoc a b c)

pub append_nil : (a : Bytes) → a ++ [] ≡ a
append_nil [] = refl
append_nil (x ∷ a) = ap (λ l. x ∷ l) (append_nil a)

pub is_prefix-append : (m l r : Bytes) → length m ≤ length l → is_prefix m (l ++ r) ≡ is_prefix m l
unfolding is_prefix
is_prefix-append [] l r h = refl
is_prefix-append (x ∷ m) [] r h = absurd (omega (arith, h))
is_prefix-append (x ∷ m) (y ∷ l) r h = rw (is_prefix-append m l r (omega (arith, h))) refl

pub length-is_prefix : (m l : Bytes) → is_prefix m l ≡ true → length m ≤ length l
unfolding is_prefix
length-is_prefix [] l h = omega arith
length-is_prefix (x ∷ m) [] h = absurd (ground arith)
length-is_prefix (x ∷ m) (y ∷ l) h = omega (arith, length-is_prefix m l (ground (arith, h)))

-- No marker begins at the first `n` places.
abbrev pub Clear : Bytes → ℕ → Bytes → Type 0
Clear m zero l = Unit
Clear m (suc n) [] = Unit
Clear m (suc n) (x ∷ l) = (is_prefix m (x ∷ l) ≡ false) × Clear m n l

pub find-some :
    (m b r : Bytes) (i : ℕ)
    → find m b ≡ some i
    → Clear m i (b ++ r) × (i + length m ≤ length b) × (is_prefix m (drop i b) ≡ true)
unfolding find
find-some m [] r i h = absurd (ground arith)
find-some m (x ∷ b) r i h = elim (Bool-cases (is_prefix m (x ∷ b))) [
  | inl e ↦
      let zero_there : zero ≡ i = ground (arith, e, h) in
      subst
        (λ i.
          Clear m i (x ∷ (b ++ r))
          × (i + length m ≤ suc (length b))
          × (is_prefix m (drop i (x ∷ b)) ≡ true))
        zero_there (tt, omega (arith, length-is_prefix m (x ∷ b) e), e)
  | inr e ↦ elim (Option-cases (find m b)) [
    | inl e' ↦ absurd (ground (arith, e, e', h))
    | inr (j, e') ↦
        let later : suc j ≡ i = ground (arith, e, e', h) in
        let found = find-some m b r j e' in
        subst
          (λ i.
            Clear m i (x ∷ (b ++ r))
            × (i + length m ≤ suc (length b))
            × (is_prefix m (drop i (x ∷ b)) ≡ true))
          later
          (
            (is_prefix-append m (x ∷ b) r (omega (arith, found.1)) ∙ e, found.0),
            omega (arith, found.1),
            found.2,
          )
  ]
]

pub find-none :
    (m b r : Bytes) (n : ℕ) → find m b ≡ none → n + length m ≤ length b → Clear m n (b ++ r)
unfolding find
find-none m b r zero h le = tt
find-none m [] r (suc n) h le = absurd (omega (arith, le))
find-none m (x ∷ b) r (suc n) h le = elim (Bool-cases (is_prefix m (x ∷ b))) [
  | inl e ↦ absurd (ground (arith, e, h))
  | inr e ↦ elim (Option-cases (find m b)) [
    | inr (j, e') ↦ absurd (ground (arith, e, e', h))
    | inl e' ↦ (
      is_prefix-append m (x ∷ b) r (omega (arith, le)) ∙ e,
      find-none m b r n e' (omega (arith, le)),
    )
  ]
]

pub drop-append : (n : ℕ) (b r : Bytes) → n ≤ length b → drop n (b ++ r) ≡ drop n b ++ r
drop-append zero b r h = refl
drop-append (suc n) [] r h = absurd (omega (arith, h))
drop-append (suc n) (x ∷ b) r h = drop-append n b r (omega (arith, h))

pub take-append : (n : ℕ) (b r : Bytes) → n ≤ length b → take n (b ++ r) ≡ take n b
take-append zero b r h = refl
take-append (suc n) [] r h = absurd (omega (arith, h))
take-append (suc n) (x ∷ b) r h = ap (λ l. x ∷ l) (take-append n b r (omega (arith, h)))

pub length-drop_le : (n : ℕ) (b : Bytes) → n ≤ length b → length (drop n b) + n ≡ length b
length-drop_le zero b h = omega arith
length-drop_le (suc n) [] h = absurd (omega (arith, h))
length-drop_le (suc n) (x ∷ b) h = omega (arith, length-drop_le n b (omega (arith, h)))

drop-nil : (n : ℕ) → ◌≡◌ {A = Bytes} (drop n []) []
drop-nil zero = refl
drop-nil (suc n) = refl

pub drop-drop : (i j n : ℕ) (b : Bytes) → i + j ≡ n → drop j (drop i b) ≡ drop n b
drop-drop zero j n b h = ap (λ n. drop n b) (omega (arith, h))
drop-drop (suc i) j n [] h = drop-nil j ∙ sym (drop-nil n)
drop-drop (suc i) j zero (x ∷ b) h = absurd (omega (arith, h))
drop-drop (suc i) j (suc n) (x ∷ b) h = drop-drop i j n b (omega (arith, h))
