-- ===== src/Canon/Columns.antt =====
-- internal/canon/descriptor.go: the validation of columns in `newDescriptor`, their serialized form
-- (`encodeDescriptor`), and reading it back (`decodeDescriptor`).
pub mod Layout
pub mod Reading
pub mod Strict
use icelake.Prelude.{ℕ, zero, suc, ◌*◌, ◌/◌, ◌%◌, ℤ, pos, Bool, true, false, not, ◌||◌}
use icelake.Prelude.{List, [], ◌∷◌, ◌++◌, length, ltb, ◌==◌, if◌then◌else◌}
use icelake.Prelude.{ltb_ℤ, ◌==ℤ◌, be32, to_uint32, to_uint8}
use icelake.Errdef.{Bytes, Error, encoding_error, unsupported_type, format}
use icelake.Errdef.{Result, ok, need, refuse_if, ◌>>=◌, ◌>>◌}
use icelake.Canon.Shape.{Kind}
use icelake.Canon.Shape.{Field, tag, of_tag, known_kind, is_decimal}
use icelake.Canon.Shape.{max_value_bytes, max_int32, max_decimal_precision, descriptor_version}
use icelake.Canon.Cursor.{Cursor, cursor, remaining, byte_at, bytes, uint32}

abbrev pub unsupported : Bytes → Bytes → ℤ → Error
unsupported table name id = encoding_error unsupported_type table name id

unfoldable pub is_empty : Bytes → Bool
is_empty [] = true
is_empty (b ∷ bs) = false

unfoldable pub check_decimal : Bytes → Field → Result (Unit {0})
check_decimal table f = do
  refuse_if (ltb_ℤ f.precision (pos 1) || ltb_ℤ max_decimal_precision f.precision)
      (unsupported table f.name f.id)
  refuse_if (ltb_ℤ f.scale (pos 0) || ltb_ℤ f.precision f.scale) (unsupported table f.name f.id)

-- The decimal clause of the validation loop, or the clause for every other kind.
unfoldable pub check_digits : Bytes → Field → Result (Unit {0})
check_digits table f =
    if is_decimal f.kind
    then check_decimal table f
    else refuse_if (not (f.precision ==ℤ pos 0) || not (f.scale ==ℤ pos 0))
        (unsupported table f.name f.id)

-- One round of the validation loop of `newDescriptor`.
unfoldable pub check_field : Bytes → Field → Result (Unit {0})
check_field table f = do
  refuse_if (ltb_ℤ f.id (pos 1) || ltb_ℤ (pos max_int32) f.id) (unsupported table f.name f.id)
  refuse_if (is_empty f.name) (unsupported table f.name f.id)
  refuse_if (ltb max_value_bytes (length f.name)) (unsupported table f.name f.id)
  k ← need (known_kind f.kind) (unsupported table f.name f.id)
  check_digits table f

unfoldable pub check_fields : Bytes → List Field → Result (Unit {0})
check_fields table [] = ok tt
check_fields table (f ∷ fs) = do check_field table f; check_fields table fs

abbrev flags_of : Field → ℕ
flags_of f = if f.required then 0x01 else 0x00

unfoldable pub append_digits : Bytes → Field → Bytes
append_digits out f =
    if is_decimal f.kind then out ++ to_uint8 f.precision ∷ to_uint8 f.scale ∷ [] else out

-- One round of the loop of `encodeDescriptor`.
unfoldable pub append_field : Bytes → Field → Bytes
append_field out f =
    let start = ((out ++ be32 (to_uint32 f.id)) ++ tag f.kind ∷ []) ++ flags_of f ∷ [] in
    (append_digits start f ++ be32 (length f.name)) ++ f.name

unfoldable pub append_fields : Bytes → List Field → Bytes
append_fields out [] = out
append_fields out (f ∷ fs) = append_fields (append_field out f) fs

unfoldable pub encode_descriptor : List Field → Bytes
encode_descriptor fields = append_fields ((descriptor_version ∷ []) ++ be32 (length fields)) fields

abbrev pub malformed : Error
malformed = encoding_error format [] [] (pos 0)

unfoldable pub read_decimal : Cursor → Result (ℤ × ℤ × Cursor)
read_decimal c = do
  (precision, c1) ← need (byte_at c) malformed
  (scale, c2) ← need (byte_at c1) malformed
  ok (pos precision, pos scale, c2)

unfoldable pub read_digits : Cursor → Kind → Result (ℤ × ℤ × Cursor)
unfolding read_decimal
read_digits c k = if is_decimal k then read_decimal c else ok (pos 0, pos 0, c)

-- A column's name, behind its length.
unfoldable pub read_name : Cursor → Result (Bytes × Cursor)
read_name c = do (n, c1) ← need (uint32 c) malformed; need (bytes c1 n) malformed

-- A column's id, which must follow the one before.
unfoldable pub read_id : ℤ → Cursor → Result (ℕ × Cursor)
read_id previous c = do
  (id, c1) ← need (uint32 c) malformed
  refuse_if (ltb id 1 || ltb max_int32 id) malformed
  refuse_if (not (ltb_ℤ previous (pos id))) malformed
  ok (id, c1)

unfoldable pub read_kind : Cursor → Result (Kind × Cursor)
read_kind c = do
  (t, c1) ← need (byte_at c) malformed
  k ← need (known_kind (of_tag t)) malformed
  ok (k, c1)

-- `flags &^ flagRequired` is `flags / 2 * 2`, and `flags & flagRequired` is `flags % 2`.
unfoldable pub read_flags : Cursor → Result (Bool × Cursor)
read_flags c = do
  (flags, c1) ← need (byte_at c) malformed
  refuse_if (not (flags / 2 * 2 == 0)) malformed
  ok (not (flags % 2 == 0), c1)

-- One round of the loop of `decodeDescriptor`.
unfoldable pub read_field : ℤ → Cursor → Result (Field × Cursor)
read_field previous c = do
  (id, c1) ← read_id previous c
  (k, c2) ← read_kind c1
  (required, c3) ← read_flags c2
  (precision, scale, c4) ← read_digits c3 k
  (name, c5) ← read_name c4
  ok (
    record {
      id = pos id;
      name = name;
      kind = k;
      precision = precision;
      scale = scale;
      required = required;
    },
    c5,
  )

unfoldable pub read_fields : ℕ → ℤ → Cursor → Result (List Field × Cursor)
read_fields zero previous c = ok ([], c)
read_fields (suc n) previous c = do
  (f, c1) ← read_field previous c
  (fs, c2) ← read_fields n f.id c1
  ok (f ∷ fs, c2)

-- What follows the column count.
unfoldable pub read_body : ℕ → Cursor → Result (List Field)
read_body count c = do
  refuse_if (count == 0) malformed
  refuse_if (ltb (remaining c) count) malformed
  (fields, c') ← read_fields count (pos 0) c
  refuse_if (not (remaining c' == 0)) malformed
  ok fields

unfoldable pub decode_descriptor : Bytes → Result (List Field)
decode_descriptor b = do
  (version, c1) ← need (byte_at (cursor b)) malformed
  refuse_if (not (version == descriptor_version)) malformed
  (count, c2) ← need (uint32 c1) malformed
  read_body count c2
