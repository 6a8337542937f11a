-- ===== src/Server/Multipart/Refined.antt =====
-- The reader of parts against the whole of the bytes: how they were cut into chunks makes no
-- difference.
use gamehub.Prelude.{
  ℕ, ◌+◌, ◌≤◌, ◌<◌, ◌≡◌, refl, ap, ◌∙◌, sym, Bool, true, false, Option, none, some, List, [], ◌∷◌,
  ◌++◌, length, length-append, take, drop, ltb, ◌⊎◌, inl, inr, subst, Bool-cases, arith,
}
use gamehub.Server.Multipart.{
  Bytes, Source, streaming, ended, Reader, fill_from, fill_to_from, fill_to, Part, part, malformed,
  too_large, out_of_fuel, fits, on_chunk, weight, source_weight,
}
use gamehub.Server.Multipart.Search.{Clear, append_assoc, append_nil, length-drop_le}
use gamehub.Server.Multipart.Whole.{
  joined, pending, whole, Found, prepend, prepend-prepend, marker, part_of, part_of-skip,
  part_of-short,
}

abbrev pub load : Reader → ℕ
load r = length r.buffer + source_weight r.source

pub load-fill_from :
    (b : Bytes) (chunks : List Bytes) → load (fill_from b chunks) < length b + weight chunks
unfolding fill_from
load-fill_from b [] = omega arith
load-fill_from b ([] ∷ chunks) = omega (arith, load-fill_from b chunks)
load-fill_from b ((x ∷ chunk) ∷ chunks) = omega (arith, length-append b (x ∷ chunk))

-- Enough bytes, or all that there are, none of them lost.
abbrev pub Filled : ℕ → Bytes → Source → Reader → Type 0
Filled n b source r =
    (whole r ≡ b ++ pending source)
    × (load r ≤ length b + source_weight source)
    × ((n ≤ length r.buffer) ⊎ (pending r.source ≡ []))
    × (length b ≤ length r.buffer)

fill_to_from-Filled :
    (n : ℕ) (b : Bytes) (chunks : List Bytes)
    → Filled n b (streaming chunks) (fill_to_from n b chunks)
unfolding fill_to_from
fill_to_from-Filled n b [] = elim (Bool-cases (ltb (length b) n)) [
  | inl e ↦ rw e (refl, omega arith, inr refl, omega arith)
  | inr e ↦ rw e (refl, omega arith, inl (ground (arith, e)), omega arith)
]
fill_to_from-Filled n b (chunk ∷ chunks) = elim (Bool-cases (ltb (length b) n)) [
  | inr e ↦ rw e (refl, omega arith, inl (ground (arith, e)), omega arith)
  | inl e ↦
      let h = fill_to_from-Filled n (b ++ chunk) chunks in
      rw e (
        h.0 ∙ append_assoc b chunk (joined chunks),
        omega (arith, h.1, length-append b chunk),
        h.2,
        omega (arith, h.3, length-append b chunk),
      )
]

pub fill_to-Filled :
    (n : ℕ) (b : Bytes) (source : Source)
    → Filled n b source (fill_to n (record { buffer = b; source = source }))
unfolding fill_to
fill_to-Filled n b ended = (refl, omega arith, inr refl, omega arith)
fill_to-Filled n b (streaming chunks) = fill_to_from-Filled n b chunks

module _ (limit : Option ℕ) where
  -- A result of the reader against the part in the whole: the payload if it fits, with the bytes
  -- that follow, 413 if it does not, and one of the two errors where no part ends.
  abbrev pub Refines : Found → Part → Type 0
  Refines (some (payload, final, rest)) (part read last r) =
      (fits limit (length payload) ≡ true)
      × (read ≡ payload)
      × (last ≡ final)
      × ((final ≡ true) ⊎ (whole r ≡ rest))
  Refines (some (payload, final, rest)) too_large = fits limit (length payload) ≡ false
  Refines (some (payload, final, rest)) malformed = ⊥
  Refines (some (payload, final, rest)) out_of_fuel = ⊥
  Refines none (part read last r) = ⊥
  Refines none too_large = Unit
  Refines none malformed = Unit
  Refines none out_of_fuel = ⊥

  too_long : (lim : Option ℕ) (a b : ℕ) → fits lim a ≡ false → a ≤ b → fits lim b ≡ false
  too_long none a b h le = absurd (ground (arith, h))
  too_long (some max) a b h le = ground (arith, h, le)

  over-Refines :
      (out : Bytes) (f : Found)
      → fits limit (length out) ≡ false
      → Refines (prepend out f) too_large
  over-Refines out none h = tt
  over-Refines out (some (payload, final, rest)) h =
      too_long limit (length out) (length (out ++ payload)) h
        (omega (arith, length-append out payload))

  module _ (boundary : Bytes) where
    on_chunk-Refines :
        (out chunk : Bytes) (next : Bytes → Part) (f : Found)
        → fits limit (length out) ≡ true
        → (fits limit (length (out ++ chunk)) ≡ true
            → Refines (prepend (out ++ chunk) f) (next (out ++ chunk)))
        → Refines (prepend (out ++ chunk) f) (on_chunk boundary limit out chunk next)
    unfolding on_chunk
    on_chunk-Refines out [] next f fitting h =
        subst (λ o. Refines (prepend (out ++ []) f) (next o)) (append_nil out)
          (h (subst (λ o. fits limit (length o) ≡ true) (sym (append_nil out)) fitting))
    on_chunk-Refines out (b ∷ chunk) next f fitting h =
        elim (Bool-cases (fits limit (length (out ++ b ∷ chunk)))) [
          | inl e ↦ rw e (h e)
          | inr e ↦ rw e (over-Refines (out ++ b ∷ chunk) f e)
        ]

    -- A reader of what is left, right for fewer than `n` turns.
    abbrev pub Reads : ℕ → (Bytes → Reader → Part) → Type 0
    Reads n again =
        (out b : Bytes) (source : Source)
        → length b + source_weight source < n
        → fits limit (length out) ≡ true
        → Refines (prepend out (part_of boundary (b ++ pending source)))
            (again out (record { buffer = b; source = source }))

    -- The part ends at the marker at `i`.
    pub ends-Refines :
        (out b : Bytes) (source : Source) (i : ℕ) (final : Bool) (rest : Bytes) (r : Reader)
        → fits limit (length out) ≡ true
        → part_of boundary (b ++ pending source) ≡ prepend (take i b) (some ([], final, rest))
        → (final ≡ true) ⊎ (whole r ≡ rest)
        → Refines
            (prepend out (part_of boundary (b ++ pending source)))
            (on_chunk boundary limit out (take i b) (λ out'. part out' final r))
    ends-Refines out b source i final rest r fitting e rests =
        let here : Found = some ([], final, rest) in
        subst (λ f. Refines f (on_chunk boundary limit out (take i b) (λ out'. part out' final r)))
          (prepend-prepend out (take i b) here ∙ ap (prepend out) (sym e))
          (on_chunk-Refines out (take i b) (λ out'. part out' final r) here fitting
            (λ fitting'. (
              subst (λ o. fits limit (length o) ≡ true) (sym (append_nil (out ++ take i b)))
                  fitting',
              sym (append_nil (out ++ take i b)),
              refl,
              rests,
            )))

    -- Bytes of the payload, and then the rest.
    pub goes_on-Refines :
        (out b chunk : Bytes) (source : Source) (again : Bytes → Part) (f : Found)
        → fits limit (length out) ≡ true
        → part_of boundary (b ++ pending source) ≡ prepend chunk f
        → (fits limit (length (out ++ chunk)) ≡ true
            → Refines (prepend (out ++ chunk) f) (again (out ++ chunk)))
        → Refines
            (prepend out (part_of boundary (b ++ pending source)))
            (on_chunk boundary limit out chunk again)
    goes_on-Refines out b chunk source again f fitting e h =
        subst (λ f'. Refines f' (on_chunk boundary limit out chunk again))
          (prepend-prepend out chunk f ∙ ap (prepend out) (sym e))
          (on_chunk-Refines out chunk again f fitting h)

    pub none-Refines :
        (out l : Bytes)
        → part_of boundary l ≡ none
        → Refines (prepend out (part_of boundary l)) malformed
    none-Refines out l e = rw e tt

    -- Fewer than two bytes behind the marker, and no more to come.
    pub cut_short :
        (b : Bytes) (source : Source) (i : ℕ)
        → Clear (marker boundary) i (b ++ pending source)
        → i + length (marker boundary) ≤ length b
        → (i + length (marker boundary) + 2 ≤ length b) ⊎ (pending source ≡ [])
        → length (drop (i + length (marker boundary)) b) < 2
        → part_of boundary (b ++ pending source) ≡ none
    cut_short b source i clear le (inl enough) short = absurd (
        omega (
          arith,
          enough,
          short,
          length-drop_le (i + length (marker boundary)) b (omega (arith, le)),
        ))
    cut_short b source i clear le (inr nothing) short =
        let l = b ++ pending source in
        part_of-skip boundary i l clear (omega (arith, le, length-append b (pending source)))
        ∙ ap (prepend (take i l)) (
            part_of-short boundary (drop i l) (
              omega (
                arith,
                le,
                short,
                ap length nothing,
                length-append b (pending source),
                length-drop_le i l (omega (arith, le, length-append b (pending source))),
                length-drop_le (i + length (marker boundary)) b (omega (arith, le)),
              )))
