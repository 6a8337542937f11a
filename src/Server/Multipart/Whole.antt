-- ===== src/Server/Multipart/Whole.antt =====
-- One part of an upload in the whole of its bytes, an independent description, and how the reader's
-- chunks make up that whole.
use gamehub.Prelude.{
  ℕ, zero, suc, ◌+◌, ◌≤◌, ◌<◌, ◌≡◌, refl, ap, ◌∙◌, sym, Bool, true, false, ◌&&◌, Option, none, some,
  List, [], ◌∷◌, ◌++◌, length, take, drop, ltb, nat_eq, inl, inr, Bool-cases, Option-cases, arith,
  if◌then◌else◌,
}
use gamehub.Server.Multipart.{
  Bytes, is_prefix, find, Source, streaming, ended, Reader, fill_from, fill_to_from,
  boundary_marker,
}
use gamehub.Server.Multipart.Search.{Clear, append_assoc}

-- The whole that is left to read.
abbrev pub joined : List Bytes → Bytes
joined [] = []
joined (chunk ∷ chunks) = chunk ++ joined chunks

abbrev pub pending : Source → Bytes
pending ended = []
pending (streaming chunks) = joined chunks

abbrev pub whole : Reader → Bytes
whole r = r.buffer ++ pending r.source

-- A payload, whether the part is the last one, and what follows.
abbrev pub Found : Type 0
Found = Option (Bytes × Bool × Bytes)

abbrev pub prepend : Bytes → Found → Found
prepend out none = none
prepend out (some (payload, final, rest)) = some (out ++ payload, final, rest)

pub prepend_nil : (f : Found) → prepend [] f ≡ f
prepend_nil none = refl
prepend_nil (some (payload, final, rest)) = refl

pub prepend-prepend : (a b : Bytes) (f : Found) → prepend (a ++ b) f ≡ prepend a (prepend b f)
prepend-prepend a b none = refl
prepend-prepend a b (some (payload, final, rest)) =
    ap (λ (l : Bytes). some (l, final, rest)) (append_assoc a b payload)

-- What stands behind a boundary: a line end, or two dashes after the last part.
abbrev pub closing_suffix : Bytes → Option (Bool × Bytes)
closing_suffix [] = none
closing_suffix (a ∷ []) = none
closing_suffix (a ∷ b ∷ rest) =
    if nat_eq a 13 && nat_eq b 10
    then some (false, rest)
    else if nat_eq a 45 && nat_eq b 45
    then some (true, rest)
    else none

module _ (boundary : Bytes) where
  abbrev pub marker : Bytes
  marker = boundary_marker boundary none

  -- A boundary that ends a part, at the start of the bytes.
  unfoldable pub closing : Bytes → Option (Bool × Bytes)
  closing l = if is_prefix marker l then closing_suffix (drop (length marker) l) else none

  -- The part ends here, or the byte belongs to the payload.
  abbrev here_or : Option (Bool × Bytes) → ℕ → Found → Found
  here_or (some (final, after)) x rest = some ([], final, after)
  here_or none x rest = prepend (x ∷ []) rest

  -- The part ends at the first boundary that ends one.
  unfoldable pub part_of : Bytes → Found
  unfolding closing
  part_of [] = none
  part_of (x ∷ l) = here_or (closing (x ∷ l)) x (part_of l)

  pub part_of-closing :
      (l : Bytes) (final : Bool) (rest : Bytes)
      → closing l ≡ some (final, rest)
      → part_of l ≡ some ([], final, rest)
  unfolding part_of closing is_prefix
  part_of-closing [] final rest h = absurd (ground (arith, h))
  part_of-closing (x ∷ l) final rest h = ap (λ c. here_or c x (part_of l)) h

  part_of-open :
      (x : ℕ) (l : Bytes) → closing (x ∷ l) ≡ none → part_of (x ∷ l) ≡ prepend (x ∷ []) (part_of l)
  unfolding part_of
  part_of-open x l h = ap (λ c. here_or c x (part_of l)) h

  closing-clear : (l : Bytes) → is_prefix marker l ≡ false → closing l ≡ none
  unfolding closing
  closing-clear l h = rw h refl

  -- Places without a marker belong to the payload.
  pub part_of-skip :
      (n : ℕ) (l : Bytes)
      → Clear marker n l
      → n ≤ length l
      → part_of l ≡ prepend (take n l) (part_of (drop n l))
  part_of-skip zero l clear le = sym (prepend_nil (part_of l))
  part_of-skip (suc n) [] clear le = absurd (omega (arith, le))
  part_of-skip (suc n) (x ∷ l) clear le =
      part_of-open x l (closing-clear (x ∷ l) clear.0)
      ∙ ap (prepend (x ∷ [])) (part_of-skip n l clear.1 (omega (arith, le)))
      ∙ sym (prepend-prepend (x ∷ []) (take n l) (part_of (drop n l)))

  -- A marker that ends no part belongs to the payload too, by its first byte.
  pub part_of-pass :
      (i : ℕ) (l : Bytes)
      → Clear marker i l
      → i < length l
      → closing (drop i l) ≡ none
      → part_of l ≡ prepend (take (suc i) l) (part_of (drop (suc i) l))
  part_of-pass i [] clear lt h = absurd (omega (arith, lt))
  part_of-pass zero (x ∷ l) clear lt h = part_of-open x l h
  part_of-pass (suc i) (x ∷ l) clear lt h =
      part_of-open x l (closing-clear (x ∷ l) clear.0)
      ∙ ap (prepend (x ∷ [])) (part_of-pass i l clear.1 (omega (arith, lt)) h)
      ∙ sym (prepend-prepend (x ∷ []) (take (suc i) l) (part_of (drop (suc i) l)))

  -- What a marker closes, by the bytes behind it.
  pub closing-suffix :
      (l suffix : Bytes)
      → is_prefix marker l ≡ true
      → drop (length marker) l ≡ suffix
      → closing l ≡ closing_suffix suffix
  unfolding closing
  closing-suffix l suffix h e = rw (h, e) refl

  short_suffix : (l : Bytes) → length l < 2 → closing_suffix l ≡ none
  short_suffix [] h = refl
  short_suffix (a ∷ []) h = refl
  short_suffix (a ∷ b ∷ l) h = absurd (omega (arith, h))

  drop_short : (n : ℕ) (l : Bytes) → length l < n + 2 → length (drop n l) < 2
  drop_short zero l h = omega (arith, h)
  drop_short (suc n) [] h = omega arith
  drop_short (suc n) (x ∷ l) h = drop_short n l (omega (arith, h))

  closing-short : (l : Bytes) → length l < length marker + 2 → closing l ≡ none
  unfolding closing
  closing-short l h = elim (Bool-cases (is_prefix marker l)) [
    | inr e ↦ rw e refl
    | inl e ↦ rw e (short_suffix (drop (length marker) l) (drop_short (length marker) l h))
  ]

  -- Too few bytes for a boundary that ends a part.
  pub part_of-short : (l : Bytes) → length l < length marker + 2 → part_of l ≡ none
  unfolding part_of
  part_of-short [] h = refl
  part_of-short (x ∷ l) h = rw (closing-short (x ∷ l) h, part_of-short l (omega (arith, h))) refl

  -- No marker at all.
  pub part_of-none : (l : Bytes) → find marker l ≡ none → part_of l ≡ none
  unfolding find part_of
  part_of-none [] h = refl
  part_of-none (x ∷ l) h = elim (Bool-cases (is_prefix marker (x ∷ l))) [
    | inl e ↦ absurd (ground (arith, e, h))
    | inr e ↦ elim (Option-cases (find marker l)) [
      | inr (j, e') ↦ absurd (ground (arith, e, e', h))
      | inl e' ↦
          part_of-open x l (closing-clear (x ∷ l) e) ∙ ap (prepend (x ∷ [])) (part_of-none l e')
    ]
  ]

-- Reading moves bytes from the chunks to the buffer.
pub whole-fill_from :
    (b : Bytes) (chunks : List Bytes) → whole (fill_from b chunks) ≡ b ++ joined chunks
unfolding fill_from
whole-fill_from b [] = refl
whole-fill_from b ([] ∷ chunks) = whole-fill_from b chunks
whole-fill_from b ((x ∷ chunk) ∷ chunks) = append_assoc b (x ∷ chunk) (joined chunks)

pub whole-fill_to_from :
    (n : ℕ) (b : Bytes) (chunks : List Bytes) → whole (fill_to_from n b chunks) ≡ b ++ joined chunks
unfolding fill_to_from
whole-fill_to_from n b [] = elim (Bool-cases (ltb (length b) n)) [
  | inl e ↦ rw e refl
  | inr e ↦ rw e refl
]
whole-fill_to_from n b (chunk ∷ chunks) = elim (Bool-cases (ltb (length b) n)) [
  | inl e ↦ rw e (whole-fill_to_from n (b ++ chunk) chunks ∙ append_assoc b chunk (joined chunks))
  | inr e ↦ rw e refl
]
