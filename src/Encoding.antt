-- ===== src/Encoding.antt =====
-- src/gamehub_cli/sync/transfer.py: the body of an upload without httpx, `_encode_multipart_body`.
-- `str.encode("utf-8")` is a parameter.
pub mod RoundTrip
use gamehub.Prelude.{String, ◌<>◌, List, [], ◌∷◌, ◌++◌}
use gamehub.Prelude.Dict.{Dict}
use gamehub.Server.Multipart.{Bytes, crlf, dashes}

-- The bytes from the payload of the file to the end.
unfoldable pub file_tail : Bytes → Bytes → Bytes
file_tail boundary payload = payload ++ (crlf ++ (dashes ++ (boundary ++ (dashes ++ crlf))))

module _ (utf8 : String → Bytes) where
  unfoldable pub encode_field : Bytes → String → String → Bytes
  encode_field boundary key value =
      dashes
      ++ boundary
      ++ crlf
      ++ utf8 ("Content-Disposition: form-data; name=\"" <> key <> "\"\r\n\r\n")
      ++ utf8 value
      ++ crlf

  unfoldable pub encode_fields : Bytes → Dict String → Bytes
  unfolding encode_field
  encode_fields boundary [] = []
  encode_fields boundary ((key, value) ∷ fields) =
      encode_field boundary key value ++ encode_fields boundary fields

  unfoldable pub encode_multipart_body : Dict String → String → Bytes → String → Bytes
  unfolding encode_fields file_tail
  encode_multipart_body fields filename payload boundary =
      encode_fields (utf8 boundary) fields
      ++ dashes
      ++ utf8 boundary
      ++ crlf
      ++ utf8 (
          "Content-Disposition: form-data; name=\"file\"; filename=\"" <> filename
          <> "\"\r\nContent-Type: application/octet-stream\r\n\r\n")
      ++ file_tail (utf8 boundary) payload
