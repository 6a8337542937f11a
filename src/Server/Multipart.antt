-- ===== src/Server/Multipart.antt =====
-- src/gamehub_server/save_api.py: how an upload is read from the chunks of a request
-- (_MultipartReader.fill, _stream_part_payload), and the body that src/gamehub_cli/sync/transfer.py
-- builds for it (_encode_multipart_body). A byte is a number; the reader's `done` is the end of its
-- source.

pub mod Search
pub mod Whole
pub mod Refined
pub mod Independent
use gamehub.Prelude.{
  ℕ, zero, suc, ◌+◌, ◌-◌, Bool, true, false, ◌&&◌, String, Option, none, some, List, [], ◌∷◌, ◌++◌,
  length, take, drop, ltb, leb, nat_eq, if◌then◌else◌,
}

abbrev pub Bytes : Type 0
Bytes = List ℕ

abbrev pub crlf : Bytes
crlf = 13 ∷ 10 ∷ []

abbrev pub dashes : Bytes
dashes = 45 ∷ 45 ∷ []

-- `text.startswith(prefix)` on bytes
unfoldable pub is_prefix : Bytes → Bytes → Bool
is_prefix [] l = true
is_prefix (m ∷ ms) [] = false
is_prefix (m ∷ ms) (b ∷ l) = nat_eq m b && is_prefix ms l

-- `buffer.find(marker)` for a marker that is not empty; `none` is -1.
unfoldable pub find : Bytes → Bytes → Option ℕ
unfolding is_prefix
find marker [] = none
find marker (b ∷ l) =
    let rest = find marker l in
    if is_prefix marker (b ∷ l) then some 0 else elim rest [ none ↦ none | some i ↦ some (suc i) ]

-- What is left of the request: chunks, or nothing once its end was seen.
pub data Source : Type 0 where
  streaming : List Bytes → Source
  ended : Source

pub record Reader : Type 0 where
  pub buffer : Bytes
  pub source : Source

-- `_MultipartReader.fill`
unfoldable pub fill_from : Bytes → List Bytes → Reader
fill_from buffer [] = record { buffer = buffer; source = ended }
fill_from buffer ([] ∷ chunks) = fill_from buffer chunks
fill_from buffer ((b ∷ chunk) ∷ chunks) = record {
  buffer = buffer ++ b ∷ chunk;
  source = streaming chunks;
}

-- `while len(buffer) < n and await fill(): pass`
unfoldable pub fill_to_from : ℕ → Bytes → List Bytes → Reader
fill_to_from n buffer [] =
    if ltb (length buffer) n
    then record { buffer = buffer; source = ended }
    else record { buffer = buffer; source = streaming [] }
fill_to_from n buffer (chunk ∷ chunks) =
    let more = fill_to_from n (buffer ++ chunk) chunks in
    if ltb (length buffer) n
    then more
    else record { buffer = buffer; source = streaming (chunk ∷ chunks) }

unfoldable pub fill_to : ℕ → Reader → Reader
unfolding fill_to_from
fill_to n r = elim r.source [ ended ↦ r | streaming chunks ↦ fill_to_from n r.buffer chunks ]

-- The bytes and chunks that are left bound the number of turns.
abbrev pub weight : List Bytes → ℕ
weight [] = 1
weight (chunk ∷ chunks) = suc (length chunk) + weight chunks

abbrev pub source_weight : Source → ℕ
source_weight ended = 0
source_weight (streaming chunks) = weight chunks

-- The end of the part: its payload, whether it is the last part, and the reader after it; or the
-- two errors, 400 and 413. The loop runs on fuel.
pub data Part : Type 0 where
  part : Bytes → Bool → Reader → Part
  malformed too_large out_of_fuel : Part

-- `bytes_received <= max_upload_bytes`; a field has no limit.
abbrev pub fits : Option ℕ → ℕ → Bool
fits none n = true
fits (some max_upload_bytes) n = leb n max_upload_bytes

module _ (boundary : Bytes) (limit : Option ℕ) where
  abbrev pub boundary_marker : Bytes
  boundary_marker = crlf ++ dashes ++ boundary

  -- `on_chunk`, on what was written so far; an empty chunk is not written.
  unfoldable pub on_chunk : Bytes → Bytes → (Bytes → Part) → Part
  on_chunk out [] next = next out
  on_chunk out (b ∷ chunk) next =
      if fits limit (length (out ++ b ∷ chunk)) then next (out ++ b ∷ chunk) else too_large

  -- After the last boundary: one more read, and the line end is dropped.
  skip_line_end : Reader → Reader
  unfolding is_prefix
  skip_line_end r = if is_prefix crlf r.buffer then record r { buffer = drop 2 r.buffer } else r

  unfoldable pub after_last : Reader → Reader
  unfolding skip_line_end fill_from
  after_last r = elim r.source [
    | ended ↦ skip_line_end r
    | streaming chunks ↦
        skip_line_end (if ltb (length r.buffer) 2 then fill_from r.buffer chunks else r)
  ]

  -- A marker at `i`, with what the buffer holds behind it; fewer than two bytes are the end of the
  -- request.
  unfoldable pub at_suffix : (Bytes → Reader → Part) → Bytes → ℕ → Reader → Bytes → Part
  unfolding on_chunk after_last
  at_suffix again out i r [] = malformed
  at_suffix again out i r (a ∷ []) = malformed
  at_suffix again out i r (a ∷ b ∷ rest) =
      if nat_eq a 13 && nat_eq b 10
      then on_chunk out (take i r.buffer) (λ out'. part out' false (record r { buffer = rest }))
      else if nat_eq a 45 && nat_eq b 45
      then on_chunk out (take i r.buffer)
          (λ out'. part out' true (after_last (record r { buffer = rest })))
      else on_chunk out (take (suc i) r.buffer)
          (λ out'. again out' (record r { buffer = drop (suc i) r.buffer }))

  -- No marker in the buffer: all but the bytes that may begin one are written.
  unfoldable pub scan : (Bytes → Reader → Part) → Bytes → Bytes → Source → Part
  unfolding on_chunk fill_from
  scan again out buffer ended = malformed
  scan again out buffer (streaming chunks) =
      let emit = length buffer - (length boundary_marker + 4) in
      on_chunk out (take emit buffer) (λ out'. again out' (fill_from (drop emit buffer) chunks))

  -- The body of the loop.
  unfoldable pub turn : (Bytes → Reader → Part) → Bytes → Reader → Part
  unfolding find fill_to at_suffix scan
  turn again out r = elim (find boundary_marker r.buffer) [
    | none ↦ scan again out r.buffer r.source
    | some i ↦
        let filled = fill_to (i + length boundary_marker + 2) r in
        at_suffix again out i filled (drop (i + length boundary_marker) filled.buffer)
  ]

  unfoldable pub stream_part : ℕ → Bytes → Reader → Part
  unfolding turn
  stream_part zero out r = out_of_fuel
  stream_part (suc fuel) out r = turn (stream_part fuel) out r

  unfoldable pub stream_part_payload : Reader → Part
  unfolding stream_part
  stream_part_payload r = stream_part (suc (length r.buffer + source_weight r.source)) [] r
