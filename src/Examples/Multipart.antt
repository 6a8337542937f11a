-- ===== src/Examples/Multipart.antt =====
-- A small upload, in three chunks that cut its boundary.
use gamehub.Prelude.{◌≡◌, refl, true, some, [], ◌∷◌, length}
use gamehub.Server.Multipart.{Bytes, is_prefix, Reader, streaming, part, stream_part_payload}
use gamehub.Server.Multipart.Search.{Clear}
use gamehub.Server.Multipart.Whole.{whole, marker, part_of}
use gamehub.Server.Multipart.Refined.{Refines}
use gamehub.Server.Multipart.Independent.{stream_part_payload-Refines}
use gamehub.Encoding.{file_tail}
use gamehub.Encoding.RoundTrip.{stream_part_payload-file_tail}

-- The boundary "b" and the payload "\r\n-x", in the tail "\r\n-x\r\n--b--\r\n".
abbrev payload : Bytes
payload = 13 ∷ 10 ∷ 45 ∷ 120 ∷ []

abbrev reader : Reader
reader = record {
  buffer = 13 ∷ 10 ∷ [];
  source =
      streaming
        ((45 ∷ 120 ∷ 13 ∷ []) ∷ (10 ∷ 45 ∷ 45 ∷ []) ∷ (98 ∷ 45 ∷ []) ∷ (45 ∷ 13 ∷ 10 ∷ []) ∷ []);
}

stream_part_payload-Refines_example :
    Refines
      (some 8)
      (part_of (98 ∷ []) (whole reader))
      (stream_part_payload (98 ∷ []) (some 8) reader)
stream_part_payload-Refines_example = stream_part_payload-Refines (some 8) (98 ∷ []) reader

arrived : whole reader ≡ file_tail (98 ∷ []) payload
unfolding file_tail
arrived = refl

no_boundary_inside : Clear (marker (98 ∷ [])) (length payload) (file_tail (98 ∷ []) payload)
unfolding file_tail is_prefix
no_boundary_inside = (refl, (refl, (refl, (refl, tt))))

stream_part_payload-file_tail_example :
    (after : Reader) × (stream_part_payload (98 ∷ []) (some 8) reader ≡ part payload true after)
stream_part_payload-file_tail_example =
    stream_part_payload-file_tail (98 ∷ []) (some 8) payload reader arrived no_boundary_inside refl
