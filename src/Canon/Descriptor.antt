-- ===== src/Canon/Descriptor.antt =====
-- internal/canon/descriptor.go: building a recorded schema shape from Iceberg columns or from its
-- stored bytes. SHA-256 with its hex rendering is the parameter `sha256_hex`.
pub mod Sorting
pub mod Canonical
pub mod Identity
use icelake.Prelude.{ℕ, suc, ℤ, pos, not}
use icelake.Prelude.{
  Option, none, some, List, [], ◌∷◌, ◌++◌, length, ltb, ◌==◌, if◌then◌else◌, bytes_eq,
}
use icelake.Prelude.{ltb_ℤ, ◌==ℤ◌}
use icelake.Errdef.{Bytes}
use icelake.Errdef.{Result, ok, refuse_if, ◌>>=◌, ◌>>◌}
use icelake.Canon.Shape.{Field, Descriptor}
use icelake.Canon.Shape.{max_value_bytes}
use icelake.Canon.Iceberg.{NestedField, describe_fields}
use icelake.Canon.Columns.{
  unsupported, malformed, check_fields, encode_descriptor, decode_descriptor,
}

-- "icelake/schema-fp/v1\n"
abbrev pub fingerprint_domain : Bytes
fingerprint_domain =
    b'i' ∷ b'c' ∷ b'e' ∷ b'l' ∷ b'a' ∷ b'k' ∷ b'e' ∷ b'/' ∷ b's' ∷ b'c' ∷ b'h' ∷ b'e' ∷ b'm' ∷ b'a'
    ∷ b'-' ∷ b'f' ∷ b'p' ∷ b'/' ∷ b'v' ∷ b'1' ∷ 10 ∷ []

-- `slices.SortFunc` by id. It is not stable; which of two columns with one id comes first shows
-- only in the name that the refusal below carries.
unfoldable pub insert_field : Field → List Field → List Field
insert_field f [] = f ∷ []
insert_field f (g ∷ fs) = if ltb_ℤ g.id f.id then g ∷ insert_field f fs else f ∷ g ∷ fs

unfoldable pub sort_fields : List Field → List Field
sort_fields [] = []
sort_fields (f ∷ fs) = insert_field f (sort_fields fs)

-- The scan of neighbours: `previous` is the column before.
unfoldable pub check_unique : Bytes → Field → List Field → Result (Unit {0})
check_unique table previous [] = ok tt
check_unique table previous (f ∷ fs) = do
  refuse_if (f.id ==ℤ previous.id) (unsupported table f.name f.id)
  check_unique table f fs

unfoldable pub check_unique_ids : Bytes → List Field → Result (Unit {0})
check_unique_ids table [] = ok tt
check_unique_ids table (f ∷ fs) = check_unique table f fs

module _ (sha256_hex : Bytes → Bytes) where
  unfoldable pub fingerprint : Bytes → Bytes
  fingerprint encoded = sha256_hex (fingerprint_domain ++ encoded)

  unfoldable pub new_descriptor : Bytes → List Field → Result Descriptor
  new_descriptor table fields = do
    refuse_if (ltb max_value_bytes (length fields)) (unsupported table [] (pos 0))
    check_fields table fields
    ok (record {
      fields = fields;
      encoded = encode_descriptor fields;
      fp = fingerprint (encode_descriptor fields);
    })

  unfoldable pub parse_descriptor : Bytes → Result Descriptor
  parse_descriptor b = do
    fields ← decode_descriptor b
    d ← new_descriptor [] fields
    refuse_if (not (bytes_eq d.encoded b)) malformed
    ok d

  unfoldable pub from_fields : Bytes → List NestedField → Result Descriptor
  from_fields table src = do
    refuse_if (length src == 0) (unsupported table [] (pos 0))
    described ← describe_fields table src
    check_unique_ids table (sort_fields described)
    new_descriptor table (sort_fields described)

-- `IndexOfFieldID`: the position of the column with an id.
unfoldable pub index_of_field_id : List Field → ℤ → Option ℕ
index_of_field_id [] id = none
index_of_field_id (f ∷ fs) id =
    if f.id ==ℤ id
    then some 0
    else elim (index_of_field_id fs id) [ none ↦ none | some i ↦ some (suc i) ]
