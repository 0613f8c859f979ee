-- ===== src/Canon/Tests/Records.antt =====
-- The theorems on the records of internal/canon at concrete inputs.
use icelake.Prelude.{ℕ, ◌≡◌, ◌⊎◌, ◌↔◌, ℤ, pos, refl, none, some, [], ◌∷◌}
use icelake.Prelude.{All}
use icelake.Errdef.{ok}
use icelake.Canon.Record.Layout.{row_layout}
use icelake.Canon.Record.RoundTrip.{encode_iff, decode-encode, encode-decode}
use icelake.Canon.Cursor.{cursor}
use icelake.Canon.Cursor.Reads.{rest, byte_at_cases}
use icelake.Canon.Record.Layout.{Fits, row_layout}
use icelake.Canon.Remap.Lookup.{value_of}
use icelake.Canon.Remap.Meaning.{value_of-remap, remap-Fits}
use icelake.Canon.Remap.Shapes.{Keeps, Accepts, compatible_shapes_iff}
use icelake.Canon.Remap.Transcoding.{decode-transcode}
use icelake.Canon.Record.{Row}
use icelake.Canon.Cursor.{advance, byte_at}
use icelake.Canon.Record.{encode, decode}
use icelake.Canon.Remap.{compatible_shapes}
use icelake.Canon.Tests.{
  all_code, table, shape, row, payload, later, moved, moved_payload, row_encoded, row_decoded,
  row_remapped, payload_transcoded, payload-IsByte, shape-AllKnown, later-AllKnown, row-IsGoCell,
  row-Fits,
}

decode-encode_example : decode [] shape payload ≡ ok row
decode-encode_example = decode-encode table [] shape row payload row-IsGoCell row_encoded

encode-decode_example : encode [] shape row ≡ ok payload
encode-decode_example =
    encode-decode table [] shape row payload shape-AllKnown payload-IsByte row_decoded

encode_iff_example :
    (encode table shape row ≡ ok payload)
    ↔ (Fits shape.fields row × (payload ≡ row_layout shape.fields row))
encode_iff_example = encode_iff table shape row payload

decode-transcode_example :
    (r : Row) × (out : Row) × (decode table shape payload ≡ ok r)
    × (decode table later moved_payload ≡ ok out)
    × ((id : ℤ) → value_of later.fields out id ≡ value_of shape.fields r id)
decode-transcode_example =
    decode-transcode table shape later payload moved_payload shape-AllKnown later-AllKnown
      payload-IsByte payload_transcoded

value_of-remap_example : value_of later.fields moved (pos 1) ≡ value_of shape.fields row (pos 1)
value_of-remap_example = value_of-remap table shape later row moved (pos 1) row_remapped

remap-Fits_example : Fits later.fields moved
remap-Fits_example = remap-Fits table shape later row moved later-AllKnown row-Fits row_remapped

compatible_shapes_iff_example :
    (compatible_shapes table shape later ≡ ok tt)
    ↔ All (Keeps later.fields) shape.fields × All (Accepts shape.fields) later.fields
compatible_shapes_iff_example = compatible_shapes_iff table shape later

shapes_compatible : compatible_shapes table shape later ≡ ok tt
unfolding all_code
shapes_compatible = refl

byte_at_cases_example :
    ((byte_at (cursor table) ≡ none) × (rest (cursor table) ≡ []))
    ⊎ ((b : ℕ) × (byte_at (cursor table) ≡ some (b, advance (cursor table) 1))
        × (rest (cursor table) ≡ b ∷ rest (advance (cursor table) 1)))
byte_at_cases_example = byte_at_cases (cursor table)
