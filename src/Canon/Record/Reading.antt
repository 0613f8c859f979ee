-- ===== src/Canon/Record/Reading.antt =====
-- `Decode` in canon/record.go on bytes in the documented layout.
use icelake.Prelude.{ℕ, ◌≤◌, ◌≡◌, refl, sym, ap, ◌∙◌, true, false, Option, none, some}
use icelake.Prelude.{List, [], ◌∷◌, ◌++◌, append_assoc, append-nil, length}
use icelake.Prelude.{be32, be64, to_uint32, to_uint64, arith, Bool-cases, inl, inr}
use icelake.Prelude.{
  uint32_of, uint64_of, to_int32, to_int64, to_int32-to_uint32, to_int64-to_uint64,
}
use icelake.Prelude.{
  length-be32, length-be64, uint32_of-be32, uint64_of-be64, to_uint32-lt, to_uint64-lt,
}
use icelake.Prelude.{All, ℤ, IsInt32, IsInt64}
use icelake.Errdef.{Bytes, ok}
use icelake.Canon.Shape.{Kind}
use icelake.Canon.Shape.{Field, Descriptor, max_value_bytes, fixed_width}
use icelake.Canon.Cursor.{Cursor, cursor}
use icelake.Canon.Cursor.Reads.{
  rest, remaining-eq, Yields, byte_at-Reads, bytes-Reads, uint32-Reads,
}
use icelake.Canon.Record.{Value, int32_value, int64_value, float32_value, float64_value}
use icelake.Canon.Record.{Row, IsGoValue, IsGoCell, fixed_value}
use icelake.Canon.Record.{text_value, read_fixed, read_prefixed, read_value, read_some, read_column}
use icelake.Canon.Record.{read_columns, decode}
use icelake.Canon.Record.Layout.{Holds, hold_boolean, hold_int, hold_long, hold_float, hold_double}
use icelake.Canon.Record.Layout.{
  hold_decimal, hold_timestamp_tz, hold_string, hold_binary, HoldsCell, Fits,
}
use icelake.Canon.Record.Layout.{value_layout, cell_layout, columns_layout, row_layout}

-- A fixed-width value whose bytes are next is read, and the cursor stops behind it.
read_fixed-Yields :
    (width : ℕ) (c : Cursor) (table : Bytes) (f : Field) (raw r : Bytes) (v : Value)
    → rest c ≡ raw ++ r
    → length raw ≡ width
    → fixed_value f.kind raw table f ≡ ok v
    → Yields (read_fixed width c table f) v r
unfolding read_fixed
read_fixed-Yields width c table f raw r v h l e =
    let (c', read, left) = bytes-Reads c raw r width h l in (c', rw (read, e), left)

read_prefixed-Yields :
    (c : Cursor) (table : Bytes) (f : Field) (s r : Bytes)
    → rest c ≡ (be32 (length s) ++ s) ++ r
    → length s ≤ max_value_bytes
    → Yields (read_prefixed c table f) (text_value f.kind s) r
unfolding read_prefixed
read_prefixed-Yields c table f s r h l =
    let (c', size, text) =
      uint32-Reads c (length s) (s ++ r) (h ∙ append_assoc (be32 (length s)) s r) (omega arith) in
    let (c'', read, left) = bytes-Reads c' s r (length s) text refl in (c'', rw (size, read), left)

int32_read :
    (z : ℤ) → IsInt32 z → int32_value (to_int32 (uint32_of (be32 (to_uint32 z)))) ≡ int32_value z
int32_read z g = rw (uint32_of-be32 _ (to_uint32-lt z), to_int32-to_uint32 z g)

int64_read :
    (z : ℤ) → IsInt64 z → int64_value (to_int64 (uint64_of (be64 (to_uint64 z)))) ≡ int64_value z
int64_read z g = rw (uint64_of-be64 _ (to_uint64-lt z), to_int64-to_uint64 z g)

module _ (c : Cursor) (table : Bytes) (f : Field) (r : Bytes) {k : Kind} (kind : f.kind ≡ k) where
  read_value_fixed :
      (width : ℕ) (raw : Bytes) (v : Value)
      → fixed_width k ≡ some width
      → length raw ≡ width
      → fixed_value k raw table f ≡ ok v
      → rest c ≡ raw ++ r
      → Yields (read_value c table f) v r
  unfolding read_value
  read_value_fixed width raw v w l e h =
      let w' : fixed_width f.kind ≡ some width = ap fixed_width kind ∙ w in
      rw (w', read_value)
        (read_fixed-Yields width c table f raw r v h l
          (ap (λ j. fixed_value j raw table f) kind ∙ e))

  read_value_prefixed :
      (s : Bytes)
      → fixed_width k ≡ none
      → length s ≤ max_value_bytes
      → rest c ≡ (be32 (length s) ++ s) ++ r
      → Yields (read_value c table f) (text_value k s) r
  unfolding read_value
  read_value_prefixed s w l h =
      let w' : fixed_width f.kind ≡ none = ap fixed_width kind ∙ w in
      let (c', read, left) = read_prefixed-Yields c table f s r h l in
      rw (w', read_value) (c', cc, left)

-- A value in its documented form is read back. `fixed_width` and `fixed_value` unfold to the case
-- of the value's constructor.
read_value-Yields :
    {k : Kind} {v : Value} (c : Cursor) (table : Bytes) (f : Field) (r : Bytes)
    → f.kind ≡ k
    → Holds k v
    → IsGoValue v
    → rest c ≡ value_layout v ++ r
    → Yields (read_value c table f) v r
unfolding fixed_width fixed_value text_value
read_value-Yields c table f r k (hold_boolean true) g h =
    read_value_fixed c table f r k 1 (0x01 ∷ []) _ refl refl refl h
read_value-Yields c table f r k (hold_boolean false) g h =
    read_value_fixed c table f r k 1 (0x00 ∷ []) _ refl refl refl h
read_value-Yields c table f r k (hold_int z) g h =
    read_value_fixed c table f r k 4 _ _ refl (length-be32 _) (ap ok (int32_read z g)) h
read_value-Yields c table f r k (hold_long z) g h =
    read_value_fixed c table f r k 8 _ _ refl (length-be64 _) (ap ok (int64_read z g)) h
read_value-Yields c table f r k (hold_float n) g h =
    read_value_fixed c table f r k 4 _ _ refl (length-be32 _)
      (ap (λ m. ok (float32_value m)) (uint32_of-be32 n g)) h
read_value-Yields c table f r k (hold_double n) g h =
    read_value_fixed c table f r k 8 _ _ refl (length-be64 _)
      (ap (λ m. ok (float64_value m)) (uint64_of-be64 n g)) h
read_value-Yields c table f r k (hold_decimal z) g h =
    read_value_fixed c table f r k 8 _ _ refl (length-be64 _) (ap ok (int64_read z g)) h
read_value-Yields c table f r k (hold_timestamp_tz z) g h =
    read_value_fixed c table f r k 8 _ _ refl (length-be64 _) (ap ok (int64_read z g)) h
read_value-Yields c table f r k (hold_string s l) g h = read_value_prefixed c table f r k s refl l h
read_value-Yields c table f r k (hold_binary s l) g h = read_value_prefixed c table f r k s refl l h

read_some-Yields :
    (c : Cursor) (table : Bytes) (f : Field) (v : Value) (r : Bytes)
    → Holds f.kind v
    → IsGoValue v
    → rest c ≡ value_layout v ++ r
    → Yields (read_some c table f) (some v) r
unfolding read_some
read_some-Yields c table f v r holds g h =
    let (c', read, left) = read_value-Yields c table f r refl holds g h in (c', rw read, left)

read_column-Yields :
    (c : Cursor) (table : Bytes) (f : Field) (v : Option Value) (r : Bytes)
    → HoldsCell f v
    → IsGoCell v
    → rest c ≡ cell_layout f v ++ r
    → Yields (read_column c table f) v r
unfolding read_column
read_column-Yields c table f none r holds g h =
    let (c', read, left) = byte_at-Reads c 0x00 r (ground arith) in (c', ground arith, left)
read_column-Yields c table f (some v) r holds g h = elim (Bool-cases f.required) [
  | inl req ↦
      let (c', read, left) = read_some-Yields c table f v r holds g (ground arith) in
      (c', ground arith, left)
  | inr opt ↦
      let (c', byte, left) = byte_at-Reads c 0x01 (value_layout v ++ r) (ground arith) in
      let (c'', read, left') = read_some-Yields c' table f v r holds g left in
      (c'', ground arith, left')
]

read_columns-Yields :
    (c : Cursor) (table : Bytes) (fs : List Field) (row : Row) (r : Bytes)
    → Fits fs row
    → All IsGoCell row
    → rest c ≡ columns_layout fs row ++ r
    → Yields (read_columns c table fs) row r
unfolding read_columns
read_columns-Yields c table [] [] r fits g h = (c, refl, h)
read_columns-Yields c table (f ∷ fs) (v ∷ row) r (holds, fits) (g, gs) h =
    let (c', read, left) =
      read_column-Yields c table f v (columns_layout fs row ++ r) holds g
        (h ∙ append_assoc (cell_layout f v) (columns_layout fs row) r) in
    let (c'', reads, left') = read_columns-Yields c' table fs row r fits gs left in
    (c'', rw read (rw reads), left')
read_columns-Yields c table [] (v ∷ row) r fits g h = absurd fits
read_columns-Yields c table (f ∷ fs) [] r fits g h = absurd fits

-- `Decode` reads back every row in its documented form.
pub decode-row_layout :
    (table : Bytes) (d : Descriptor) (row : Row)
    → Fits d.fields row
    → All IsGoCell row
    → decode table d (row_layout d.fields row) ≡ ok row
unfolding decode
decode-row_layout table d row fits g =
    let start : Cursor = cursor (row_layout d.fields row) in
    let (c, version, left) = byte_at-Reads start 0x01 (columns_layout d.fields row) refl in
    let (c', read, left') =
      read_columns-Yields c table d.fields row [] fits g (left ∙ sym (append-nil _)) in
    rw version (rw read (rw (remaining-eq c', left')))
