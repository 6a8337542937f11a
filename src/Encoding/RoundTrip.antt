-- ===== src/Encoding/RoundTrip.antt =====
-- The client's encoding of an upload, read back by the server.
use gamehub.Prelude.{
  ℕ, ◌≡◌, refl, ap, ◌∙◌, Bool, true, Option, some, [], ◌∷◌, ◌++◌, length, length-append, take, drop,
  subst, arith,
}
use gamehub.Server.Multipart.{
  Bytes, crlf, dashes, is_prefix, Reader, Part, part, malformed, too_large, out_of_fuel, fits,
  stream_part_payload,
}
use gamehub.Server.Multipart.Search.{Clear, append_nil}
use gamehub.Server.Multipart.Whole.{
  whole, prepend, marker, closing-suffix, part_of, part_of-closing, part_of-skip,
}
use gamehub.Server.Multipart.Refined.{Refines}
use gamehub.Server.Multipart.Independent.{stream_part_payload-Refines}
use gamehub.Encoding.{file_tail}

is_prefix_self : (m l : Bytes) → is_prefix m (m ++ l) ≡ true
unfolding is_prefix
is_prefix_self [] l = refl
is_prefix_self (x ∷ m) l = ground (arith, is_prefix_self m l)

drop_self : (m l : Bytes) → drop (length m) (m ++ l) ≡ l
drop_self [] l = refl
drop_self (x ∷ m) l = drop_self m l

take_self : (m l : Bytes) → take (length m) (m ++ l) ≡ m
take_self [] l = refl
take_self (x ∷ m) l = ap (λ l. x ∷ l) (take_self m l)

part_lem :
    (limit : Option ℕ) (payload rest : Bytes) (final : Bool) (p : Part)
    → fits limit (length payload) ≡ true
    → Refines limit (some (payload, final, rest)) p
    → (r : Reader) × (p ≡ part payload final r)
part_lem limit payload rest final (part read last r) fitting h = (r, (λ i. part (h.1 i) (h.2 i) r))
part_lem limit payload rest final too_large fitting h = absurd (ground (arith, fitting, h))
part_lem limit payload rest final malformed fitting h = absurd h
part_lem limit payload rest final out_of_fuel fitting h = absurd h

module _ (boundary : Bytes) where
  -- The file of an encoded upload in the whole of its bytes.
  part_of-file_tail :
      (payload : Bytes)
      → Clear (marker boundary) (length payload) (file_tail boundary payload)
      → part_of boundary (file_tail boundary payload) ≡ some (payload, true, crlf)
  unfolding file_tail
  part_of-file_tail payload clear =
      let m = marker boundary in
      let behind : Bytes = m ++ (dashes ++ crlf) in
      let l = payload ++ (crlf ++ (dashes ++ (boundary ++ (dashes ++ crlf)))) in
      part_of-skip boundary (length payload) l clear
        (omega (arith, length-append payload (crlf ++ (dashes ++ (boundary ++ (dashes ++ crlf))))))
      ∙ ap (λ t. prepend t (part_of boundary (drop (length payload) l))) (take_self payload behind)
      ∙ ap (λ d. prepend payload (part_of boundary d)) (drop_self payload behind)
      ∙ ap (prepend payload) (
          part_of-closing boundary behind true crlf (
            closing-suffix boundary behind (dashes ++ crlf) (is_prefix_self m (dashes ++ crlf))
              (drop_self m (dashes ++ crlf))))
      ∙ ap (λ (t : Bytes). some (t, true, crlf)) (append_nil payload)

  -- Whatever chunks the body of an upload arrives in, the server reads the payload that the client
  -- encoded as the last part, if it fits the limit and no boundary begins inside it.
  pub stream_part_payload-file_tail :
      (limit : Option ℕ) (payload : Bytes) (r : Reader)
      → whole r ≡ file_tail boundary payload
      → Clear (marker boundary) (length payload) (file_tail boundary payload)
      → fits limit (length payload) ≡ true
      → (after : Reader) × (stream_part_payload boundary limit r ≡ part payload true after)
  stream_part_payload-file_tail limit payload r arrived clear fitting =
      part_lem limit payload crlf true (stream_part_payload boundary limit r) fitting (
        subst (λ f. Refines limit f (stream_part_payload boundary limit r))
          (ap (part_of boundary) arrived ∙ part_of-file_tail payload clear)
          (stream_part_payload-Refines limit boundary r))
