-- ===== src/Server/Multipart/Independent.antt =====
-- Every turn of the reader keeps to the whole of the bytes, and so does the reader.
use gamehub.Prelude.{
  ℕ, zero, suc, ◌+◌, ◌-◌, ◌≤◌, ◌≡◌, refl, ap, ◌∙◌, sym, Bool, true, false, ◌&&◌, Option, none, some,
  [], ◌∷◌, ◌++◌, length, length-append, take, drop, nat_eq, leb, ◌⊎◌, inl, inr, subst, Bool-cases,
  Option-cases, arith,
}
use gamehub.Server.Multipart.{
  Bytes, is_prefix, find, Source, streaming, ended, Reader, fill_from, fill_to, Part, fits,
  after_last, at_suffix, scan, turn, stream_part, source_weight, stream_part_payload,
}
use gamehub.Server.Multipart.Search.{
  Clear, append_nil, is_prefix-append, find-some, find-none, drop-append, take-append,
  length-drop_le, drop-drop,
}
use gamehub.Server.Multipart.Whole.{
  joined, pending, whole, prepend, prepend_nil, closing_suffix, marker, closing, closing-suffix,
  part_of, part_of-closing, part_of-pass, part_of-skip, part_of-none, whole-fill_from,
}
use gamehub.Server.Multipart.Refined.{
  load, load-fill_from, fill_to-Filled, Refines, Reads, ends-Refines, goes_on-Refines, none-Refines,
  cut_short,
}

module _ (limit : Option ℕ) (boundary : Bytes) where
  -- What the bytes behind a marker in the buffer close.
  closing_at :
      (b r : Bytes) (i : ℕ) (suffix : Bytes)
      → i + length (marker boundary) ≤ length b
      → is_prefix (marker boundary) (drop i b) ≡ true
      → drop (i + length (marker boundary)) b ≡ suffix
      → closing boundary (drop i (b ++ r)) ≡ closing_suffix (suffix ++ r)
  closing_at b r i suffix le found e =
      let m = marker boundary in
      let enough : length m ≤ length (drop i b) =
        omega (arith, le, length-drop_le i b (omega (arith, le))) in
      ap (closing boundary) (drop-append i b r (omega (arith, le)))
      ∙ closing-suffix boundary (drop i b ++ r) (suffix ++ r)
          (is_prefix-append m (drop i b) r enough ∙ found)
          (drop-append (length m) (drop i b) r enough
            ∙ ap (λ l. l ++ r) (drop-drop i (length m) (i + length m) b refl ∙ e))

  -- A part that ends at the marker at `i`.
  part_at :
      (b r : Bytes) (i : ℕ) (final : Bool) (rest : Bytes)
      → Clear (marker boundary) i (b ++ r)
      → i ≤ length b
      → closing boundary (drop i (b ++ r)) ≡ some (final, rest)
      → part_of boundary (b ++ r) ≡ prepend (take i b) (some ([], final, rest))
  part_at b r i final rest clear le h =
      part_of-skip boundary i (b ++ r) clear (omega (arith, le, length-append b r))
      ∙ ap (prepend (take i (b ++ r))) (part_of-closing boundary (drop i (b ++ r)) final rest h)
      ∙ ap (λ l. prepend l (some ([], final, rest))) (take-append i b r le)

  -- A marker at `i` that ends no part.
  passes_at :
      (b r : Bytes) (i : ℕ)
      → Clear (marker boundary) i (b ++ r)
      → suc i ≤ length b
      → closing boundary (drop i (b ++ r)) ≡ none
      → part_of boundary (b ++ r)
        ≡ prepend (take (suc i) b) (part_of boundary (drop (suc i) b ++ r))
  passes_at b r i clear le h =
      part_of-pass boundary i (b ++ r) clear (omega (arith, le, length-append b r)) h
      ∙ ap (λ l. prepend l (part_of boundary (drop (suc i) (b ++ r)))) (take-append (suc i) b r le)
      ∙ ap (λ l. prepend (take (suc i) b) (part_of boundary l)) (drop-append (suc i) b r le)

  at_suffix-Refines :
      (n : ℕ) (again : Bytes → Reader → Part) (reads : Reads limit boundary n again) (out b : Bytes)
      (source : Source) (i : ℕ) (suffix : Bytes)
      → length b + source_weight source ≤ n
      → fits limit (length out) ≡ true
      → Clear (marker boundary) i (b ++ pending source)
      → i + length (marker boundary) ≤ length b
      → is_prefix (marker boundary) (drop i b) ≡ true
      → (i + length (marker boundary) + 2 ≤ length b) ⊎ (pending source ≡ [])
      → drop (i + length (marker boundary)) b ≡ suffix
      → Refines limit
          (prepend out (part_of boundary (b ++ pending source)))
          (at_suffix boundary limit again out i (record { buffer = b; source = source }) suffix)
  unfolding at_suffix
  at_suffix-Refines n again reads out b source i [] lt fitting clear le found filled e =
      none-Refines limit boundary out (b ++ pending source)
        (cut_short limit boundary b source i clear le filled (omega (arith, ap length e)))
  at_suffix-Refines n again reads out b source i (x ∷ []) lt fitting clear le found filled e =
      none-Refines limit boundary out (b ++ pending source)
        (cut_short limit boundary b source i clear le filled (omega (arith, ap length e)))
  at_suffix-Refines n again reads out b source i (x ∷ y ∷ rest) lt fitting clear le found filled e =
      let r = pending source in
      let i_le : i ≤ length b = omega (arith, le) in
      let sure : suc i ≤ length b = omega (arith, le) in
      let closes = closing_at b r i (x ∷ y ∷ rest) le found e in
      elim (Bool-cases (nat_eq x 13 && nat_eq y 10)) [
        | inl line ↦ rw line (
            ends-Refines limit boundary out b source i false (rest ++ r)
              (record { buffer = rest; source = source }) fitting
              (part_at b r i false (rest ++ r) clear i_le (closes ∙ rw line refl)) (inr refl))
        | inr line ↦ elim (Bool-cases (nat_eq x 45 && nat_eq y 45)) [
          | inl last ↦
              rw (line, last)
                (ends-Refines limit boundary out b source i true (rest ++ r)
                  (after_last boundary limit (record { buffer = rest; source = source })) fitting
                  (part_at b r i true (rest ++ r) clear i_le (closes ∙ rw (line, last) refl))
                  (inl refl))
          | inr last ↦
              rw (line, last)
                (goes_on-Refines limit boundary out b (take (suc i) b) source
                  (λ out'. again out' (record { buffer = drop (suc i) b; source = source }))
                  (part_of boundary (drop (suc i) b ++ r)) fitting
                  (passes_at b r i clear sure (closes ∙ rw (line, last) refl))
                  (reads (out ++ take (suc i) b) (drop (suc i) b) source
                    (omega (arith, lt, length-drop_le (suc i) b sure))))
        ]
      ]

  -- Places without a marker.
  skips_at :
      (b r : Bytes) (n : ℕ)
      → n ≤ length b
      → Clear (marker boundary) n (b ++ r)
      → part_of boundary (b ++ r) ≡ prepend (take n b) (part_of boundary (drop n b ++ r))
  skips_at b r n le clear =
      part_of-skip boundary n (b ++ r) clear (omega (arith, le, length-append b r))
      ∙ ap (λ l. prepend l (part_of boundary (drop n (b ++ r)))) (take-append n b r le)
      ∙ ap (λ l. prepend (take n b) (part_of boundary l)) (drop-append n b r le)

  Clear-emit :
      (b r : Bytes)
      → find (marker boundary) b ≡ none
      → Clear (marker boundary) (length b - (length (marker boundary) + 4)) (b ++ r)
  Clear-emit b r absent =
      let m = marker boundary in
      elim (Bool-cases (leb (length m + 4) (length b))) [
        | inl e ↦ find-none m b r (length b - (length m + 4)) absent (ground (arith, e))
        | inr e ↦
            let nothing : zero ≡ length b - (length m + 4) = ground (arith, e) in
            subst (λ n. Clear m n (b ++ r)) nothing tt
      ]

  -- The marker is still there when more bytes follow.
  prefix_kept :
      (b b' r r' : Bytes) (i : ℕ)
      → b' ++ r' ≡ b ++ r
      → i + length (marker boundary) ≤ length b
      → length b ≤ length b'
      → is_prefix (marker boundary) (drop i b) ≡ true
      → is_prefix (marker boundary) (drop i b') ≡ true
  prefix_kept b b' r r' i same le longer h =
      let m = marker boundary in
      sym (
        is_prefix-append m (drop i b') r'
          (omega (arith, le, longer, length-drop_le i b' (omega (arith, le, longer)))))
      ∙ ap (is_prefix m) (sym (drop-append i b' r' (omega (arith, le, longer))))
      ∙ ap (λ l. is_prefix m (drop i l)) same
      ∙ ap (is_prefix m) (drop-append i b r (omega (arith, le)))
      ∙ is_prefix-append m (drop i b) r (omega (arith, le, length-drop_le i b (omega (arith, le))))
      ∙ h

  scan-Refines :
      (n : ℕ) (again : Bytes → Reader → Part) (reads : Reads limit boundary n again) (out b : Bytes)
      (source : Source)
      → length b + source_weight source ≤ n
      → fits limit (length out) ≡ true
      → find (marker boundary) b ≡ none
      → Refines limit
          (prepend out (part_of boundary (b ++ pending source)))
          (scan boundary limit again out b source)
  unfolding scan
  scan-Refines n again reads out b ended lt fitting absent =
      none-Refines limit boundary out (b ++ [])
        (ap (part_of boundary) (append_nil b) ∙ part_of-none boundary b absent)
  scan-Refines n again reads out b (streaming chunks) lt fitting absent =
      let emit = length b - (length (marker boundary) + 4) in
      let emit_le : emit ≤ length b = omega arith in
      let next = fill_from (drop emit b) chunks in
      goes_on-Refines limit boundary out b (take emit b) (streaming chunks)
        (λ out'. again out' next) (part_of boundary (drop emit b ++ joined chunks)) fitting
        (skips_at b (joined chunks) emit emit_le (Clear-emit b (joined chunks) absent))
        (λ fitting'.
          subst
            (λ l.
              Refines limit (prepend (out ++ take emit b) (part_of boundary l))
                (again (out ++ take emit b) next))
            (whole-fill_from (drop emit b) chunks)
            (reads (out ++ take emit b) next.buffer next.source
              (omega
                (arith, lt, load-fill_from (drop emit b) chunks, length-drop_le emit b emit_le))
              fitting'))

  turn-Refines :
      (n : ℕ) (again : Bytes → Reader → Part) (reads : Reads limit boundary n again) (out b : Bytes)
      (source : Source)
      → length b + source_weight source ≤ n
      → fits limit (length out) ≡ true
      → Refines limit
          (prepend out (part_of boundary (b ++ pending source)))
          (turn boundary limit again out (record { buffer = b; source = source }))
  unfolding turn
  turn-Refines n again reads out b source lt fitting =
      elim (Option-cases (find (marker boundary) b)) [
        | inl e ↦ rw (turn, e) (scan-Refines n again reads out b source lt fitting e)
        | inr (i, e) ↦
            let m = marker boundary in
            let filled = fill_to (i + length m + 2) (record { buffer = b; source = source }) in
            let enough = fill_to-Filled (i + length m + 2) b source in
            let there = find-some m b (pending source) i e in
            rw (turn, e)
              (subst
                (λ l.
                  Refines limit (prepend out (part_of boundary l)) (
                    at_suffix boundary limit again out i filled
                      (drop (i + length m) filled.buffer)))
                enough.0
                (at_suffix-Refines n again reads out filled.buffer filled.source i
                  (drop (i + length m) filled.buffer) (omega (arith, lt, enough.1)) fitting
                  (subst (Clear m i) (sym enough.0) there.0) (omega (arith, there.1, enough.3))
                  (prefix_kept b filled.buffer (pending source) (pending filled.source) i enough.0
                    there.1 enough.3 there.2)
                  enough.2 refl))
      ]

  stream_part-Refines : (fuel : ℕ) → Reads limit boundary fuel (stream_part boundary limit fuel)
  unfolding stream_part
  stream_part-Refines zero out b source lt fitting = absurd (omega (arith, lt))
  stream_part-Refines (suc fuel) out b source lt fitting =
      turn-Refines fuel (stream_part boundary limit fuel) (stream_part-Refines fuel) out b source
        (omega (arith, lt)) fitting

  fits_nothing : (lim : Option ℕ) → fits lim 0 ≡ true
  fits_nothing none = refl
  fits_nothing (some max) = ground arith

  -- Reading a part, however its bytes are cut into chunks: the loop ends; the payload is what stands
  -- before the first boundary that ends a part in the whole of the bytes, if it fits the limit; the
  -- next part begins right behind that boundary; a longer payload gives 413; and bytes without such
  -- a boundary give 400 or 413.
  pub stream_part_payload-Refines :
      (r : Reader)
      → Refines limit (part_of boundary (whole r)) (stream_part_payload boundary limit r)
  unfolding stream_part_payload
  stream_part_payload-Refines r =
      subst (λ f. Refines limit f (stream_part_payload boundary limit r))
        (prepend_nil (part_of boundary (whole r)))
        (stream_part-Refines (suc (load r)) [] r.buffer r.source (omega arith) (fits_nothing limit))
