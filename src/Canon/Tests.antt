-- ===== src/Canon/Tests.antt =====
-- Concrete runs of internal/canon, and the data of its examples. A hash that returns its input
-- stands for SHA-256.
mod Records
mod Shapes
use icelake.Prelude.{
  ℕ, ◌≡◌, ◌⊎◌, ◌↔◌, ◌<◌, ℤ, pos, negsuc, refl, true, false, none, some, List, [], ◌∷◌, ◌++◌, arith,
}
use icelake.Prelude.{All, IsByte, be32, be64, length, uint32_of, uint64_of, bytes_eq}
use icelake.Errdef.{Bytes, ok}
use icelake.Canon.Hash.{Collide}
use icelake.Canon.Record.Layout.{row_layout}
use icelake.Canon.Record.RoundTrip.{encode_iff, decode-encode, encode-decode}
use icelake.Canon.Descriptor.Canonical.{
  IsCanonical, from_fields-IsCanonical, parse_descriptor-IsCanonical,
}
use icelake.Canon.Descriptor.Canonical.{parse_descriptor-encoded, from_fields-iceberg_fields}
use icelake.Canon.Descriptor.Identity.{from_fields_perm, fingerprint_identity}
use icelake.Prelude.{◌≤◌}
use icelake.Canon.Shape.{max_value_bytes}
use icelake.Canon.Cursor.{cursor}
use icelake.Canon.Cursor.Reads.{rest, byte_at_cases, bytes_cases}
use icelake.Canon.Record.{IsGoCell}
use icelake.Canon.Record.Layout.{Fits, row_layout}
use icelake.Canon.Record.Strict.{AllKnown}
use icelake.Canon.Columns.Layout.{
  IsValid, descriptor_layout, check_fields-IsValid, encode_descriptor-layout,
}
use icelake.Canon.Columns.Reading.{Ascends, decode_descriptor-layout}
use icelake.Canon.Columns.Strict.{decode_descriptor_inv}
use icelake.Canon.Remap.Lookup.{value_of}
use icelake.Canon.Remap.Meaning.{value_of-remap, remap-Fits}
use icelake.Canon.Remap.Shapes.{Keeps, Accepts, LacksRequired, compatible_shapes_iff, remap_cases}
use icelake.Canon.Remap.Transcoding.{transcode-remap, decode-transcode}
use icelake.Canon.Batch.Identity.{batch_hash_identity, batch_hash-ne-fingerprint}
use mathlib.Core.List.Permᴰ
use icelake.Canon.Shape.{Field, Descriptor, long, string, decimal}
use icelake.Canon.Record.{Row, int64_value, string_value}
use icelake.Canon.Iceberg.{NestedField, int64_type, string_type, decimal_type, iceberg_fields}
use icelake.Canon.Descriptor.{fingerprint_domain}
use icelake.Canon.Batch.Identity.{batch_layout}
use icelake.Canon.Shape.{tag, of_tag, is_decimal, known_kind, fixed_width}
use icelake.Canon.Cursor.{advance, remaining, byte_at, bytes, uint32}
use icelake.Canon.Iceberg.{kind_of, describe_field, describe_fields}
use icelake.Canon.Record.{
  as_bool, as_int32, as_int64, as_float32, as_float64, as_string, as_bytes, check_value_len,
  append_bytes, append_kind, append_value, append_column,
}
use icelake.Canon.Record.{
  append_columns, encode, bool_of, fixed_value, text_value, read_fixed, read_prefixed, read_value,
  read_some, read_column, read_columns, decode,
}
use icelake.Canon.Columns.{
  is_empty, check_decimal, check_digits, check_field, check_fields, append_digits, append_field,
  append_fields, encode_descriptor, read_decimal, read_digits, read_name,
}
use icelake.Canon.Columns.{
  read_id, read_kind, read_flags, read_field, read_fields, read_body, decode_descriptor,
}
use icelake.Canon.Descriptor.{
  insert_field, sort_fields, check_unique, check_unique_ids, fingerprint, new_descriptor,
  parse_descriptor, from_fields, index_of_field_id,
}
use icelake.Canon.Remap.{
  same_type, has_id, check_removed, field_at, check_want, check_wants, compatible_shapes, cell_at,
  remap_value, remap_column, remap_columns, remap,
}
use icelake.Canon.Remap.{transcode}
use icelake.Canon.Batch.{
  write_chunk, write_checked, write_payloads, preimage, refuse_empty, batch_hash,
}

unfoldable pub all_code : Unit {0}
unfolding be32 be64 uint32_of uint64_of bytes_eq tag of_tag is_decimal known_kind fixed_width
    advance remaining byte_at bytes uint32 kind_of describe_field describe_fields as_bool as_int32
    as_int64 as_float32 as_float64 as_string as_bytes check_value_len append_bytes append_kind
    append_value append_column append_columns encode bool_of fixed_value text_value read_fixed
    read_prefixed read_value read_some read_column read_columns decode is_empty check_decimal
    check_digits check_field check_fields append_digits append_field append_fields encode_descriptor
    read_decimal read_digits read_name read_id read_kind read_flags read_field read_fields read_body
    decode_descriptor insert_field sort_fields check_unique check_unique_ids fingerprint
    new_descriptor parse_descriptor from_fields index_of_field_id same_type has_id check_removed
    field_at check_want check_wants compatible_shapes cell_at remap_value remap_column remap_columns
    remap transcode write_chunk write_checked write_payloads preimage refuse_empty batch_hash
all_code = tt

abbrev pub toy_hash : Bytes → Bytes
toy_hash b = b

abbrev pub table : Bytes
table = b't' ∷ []

-- Columns a (1, long, required), b (2, string, optional), c (3, decimal(4, 2), optional).
abbrev pub fields : List Field
fields =
    record {
      id = pos 1;
      name = b'a' ∷ [];
      kind = long;
      precision = pos 0;
      scale = pos 0;
      required = true;
    }
    ∷ record {
      id = pos 2;
      name = b'b' ∷ [];
      kind = string;
      precision = pos 0;
      scale = pos 0;
      required = false;
    }
    ∷ record {
      id = pos 3;
      name = b'c' ∷ [];
      kind = decimal;
      precision = pos 4;
      scale = pos 2;
      required = false;
    }
    ∷ []

abbrev pub bytes_of_fields : Bytes
bytes_of_fields =
    1 ∷ 0 ∷ 0 ∷ 0 ∷ 3 ∷ 0 ∷ 0 ∷ 0 ∷ 1 ∷ 3 ∷ 1 ∷ 0 ∷ 0 ∷ 0 ∷ 1 ∷ b'a' ∷ 0 ∷ 0 ∷ 0 ∷ 2 ∷ 8 ∷ 0 ∷ 0 ∷ 0
    ∷ 0 ∷ 1 ∷ b'b' ∷ 0 ∷ 0 ∷ 0 ∷ 3 ∷ 6 ∷ 0 ∷ 4 ∷ 2 ∷ 0 ∷ 0 ∷ 0 ∷ 1 ∷ b'c' ∷ []

abbrev pub shape : Descriptor
shape = record {
  fields = fields;
  encoded = bytes_of_fields;
  fp = fingerprint_domain ++ bytes_of_fields;
}

abbrev pub nested_a : NestedField
nested_a = record { id = pos 1; name = b'a' ∷ []; field_type = int64_type; required = true }

abbrev pub nested_b : NestedField
nested_b = record { id = pos 2; name = b'b' ∷ []; field_type = string_type; required = false }

abbrev pub nested_c : NestedField
nested_c = record {
  id = pos 3;
  name = b'c' ∷ [];
  field_type = decimal_type (pos 4) (pos 2);
  required = false;
}

abbrev pub row : Row
row = some (int64_value (negsuc 0)) ∷ some (string_value (b'h' ∷ b'i' ∷ [])) ∷ none ∷ []

abbrev pub payload : Bytes
payload =
    1 ∷ 255 ∷ 255 ∷ 255 ∷ 255 ∷ 255 ∷ 255 ∷ 255 ∷ 255 ∷ 1 ∷ 0 ∷ 0 ∷ 0 ∷ 2 ∷ b'h' ∷ b'i' ∷ 0 ∷ []

-- A later shape of the table: `b` has moved to the front, and `d` is new.
abbrev pub later : Descriptor
later = record {
  fields =
      record {
        id = pos 2;
        name = b'B' ∷ [];
        kind = string;
        precision = pos 0;
        scale = pos 0;
        required = false;
      }
      ∷ record {
        id = pos 1;
        name = b'a' ∷ [];
        kind = long;
        precision = pos 0;
        scale = pos 0;
        required = true;
      }
      ∷ record {
        id = pos 3;
        name = b'c' ∷ [];
        kind = decimal;
        precision = pos 4;
        scale = pos 2;
        required = false;
      }
      ∷ record {
        id = pos 4;
        name = b'd' ∷ [];
        kind = long;
        precision = pos 0;
        scale = pos 0;
        required = false;
      }
      ∷ [];
  encoded = [];
  fp = [];
}

abbrev pub moved : Row
moved = some (string_value (b'h' ∷ b'i' ∷ [])) ∷ some (int64_value (negsuc 0)) ∷ none ∷ none ∷ []

abbrev pub moved_payload : Bytes
moved_payload =
    1 ∷ 1 ∷ 0 ∷ 0 ∷ 0 ∷ 2 ∷ b'h' ∷ b'i' ∷ 255 ∷ 255 ∷ 255 ∷ 255 ∷ 255 ∷ 255 ∷ 255 ∷ 255 ∷ 0 ∷ 0 ∷ []

pub row_encoded : encode table shape row ≡ ok payload
unfolding all_code
row_encoded = refl

pub row_decoded : decode table shape payload ≡ ok row
unfolding all_code
row_decoded = refl

pub shape_described : from_fields toy_hash table (nested_c ∷ nested_a ∷ nested_b ∷ []) ≡ ok shape
unfolding all_code
shape_described = refl

pub shape_parsed : parse_descriptor toy_hash bytes_of_fields ≡ ok shape
unfolding all_code
shape_parsed = refl

pub row_remapped : remap table shape later row ≡ ok moved
unfolding all_code
row_remapped = refl

pub payload_transcoded : transcode table shape later payload ≡ ok moved_payload
unfolding all_code
payload_transcoded = refl

pub batch_hashed :
    batch_hash toy_hash table table shape (payload ∷ [])
    ≡ ok (batch_layout table table bytes_of_fields (payload ∷ []))
unfolding all_code
batch_hashed = refl

pub payload-IsByte : All IsByte payload
payload-IsByte = ground arith

pub shape-AllKnown : AllKnown shape.fields
unfolding all_code
shape-AllKnown = ground arith

pub later-AllKnown : AllKnown later.fields
unfolding all_code
later-AllKnown = ground arith

pub row-IsGoCell : All IsGoCell row
row-IsGoCell = ground arith

pub shape-IsCanonical : IsCanonical toy_hash shape
shape-IsCanonical =
    from_fields-IsCanonical toy_hash table (nested_c ∷ nested_a ∷ nested_b ∷ []) shape_described

pub row-Fits : Fits shape.fields row
row-Fits = ((encode_iff table shape row payload).0 row_encoded).0
