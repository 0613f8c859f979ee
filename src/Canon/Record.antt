-- ===== src/Canon/Record.antt =====
-- internal/canon/record.go: `Encode` and `Decode` of one record's payload.
pub mod Layout
pub mod Reading
pub mod Strict
pub mod RoundTrip
use icelake.Prelude.{ℕ, ◌+◌, ◌<◌, ◌^◌, ◌≡◌, ℤ, pos, Bool, true, false, Option, none, some, not}
use icelake.Prelude.{
  List, [], ◌∷◌, ◌++◌, length, ltb, ◌==◌, if◌then◌else◌, All, IsByte, IsInt32, IsInt64,
}
use icelake.Prelude.{be32, be64, uint32_of, uint64_of, to_uint32, to_uint64, to_int32, to_int64}
use icelake.Errdef.{Bytes, Error, encoding_error, unsupported_type, value, format}
use icelake.Errdef.{Result, ok, err, need, refuse_if, ◌>>=◌, ◌>>◌}
use icelake.Canon.Shape.{
  Kind, boolean, int, long, float, double, decimal, timestamp_tz, string, binary,
}
use icelake.Canon.Shape.{unknown, Field, Descriptor, fixed_width, max_value_bytes, encoding_version}
use icelake.Canon.Cursor.{Cursor, cursor, remaining, byte_at, bytes, uint32}

-- The dynamic type and value behind a non-nil `any`. A float is its IEEE bit pattern, which
-- `Float32bits` and `Float64bits` return; `other` is every Go type that no column accepts.
pub data Value : Type 0 where
  bool_value : Bool → Value
  int32_value : ℤ → Value
  int64_value : ℤ → Value
  float32_value : ℕ → Value
  float64_value : ℕ → Value
  string_value : Bytes → Value
  bytes_value : Bytes → Value
  other : Value

-- `none` is the nil interface, a null.
abbrev pub Row : Type 0
Row = List (Option Value)

-- What Go's types say of a value: its range, and that a string is made of bytes.
abbrev pub IsGoValue : Value → Type 0
IsGoValue (bool_value b) = Unit
IsGoValue (int32_value z) = IsInt32 z
IsGoValue (int64_value z) = IsInt64 z
IsGoValue (float32_value n) = n < 2 ^ 32
IsGoValue (float64_value n) = n < 2 ^ 64
IsGoValue (string_value s) = All IsByte s
IsGoValue (bytes_value s) = All IsByte s
IsGoValue other = Unit

abbrev pub IsGoCell : Option Value → Type 0
IsGoCell none = Unit
IsGoCell (some v) = IsGoValue v

-- The type assertions `v.(bool)`, `v.(int32)` and so on.
unfoldable pub as_bool : Value → Option Bool
as_bool (bool_value b) = some b
as_bool _ = none

unfoldable pub as_int32 : Value → Option ℤ
as_int32 (int32_value z) = some z
as_int32 _ = none

unfoldable pub as_int64 : Value → Option ℤ
as_int64 (int64_value z) = some z
as_int64 _ = none

unfoldable pub as_float32 : Value → Option ℕ
as_float32 (float32_value n) = some n
as_float32 _ = none

unfoldable pub as_float64 : Value → Option ℕ
as_float64 (float64_value n) = some n
as_float64 _ = none

unfoldable pub as_string : Value → Option Bytes
as_string (string_value s) = some s
as_string _ = none

unfoldable pub as_bytes : Value → Option Bytes
as_bytes (bytes_value s) = some s
as_bytes _ = none

-- A refusal about one column.
abbrev column_error : Bytes → Field → Error
column_error table f = encoding_error value table f.name f.id

unfoldable pub check_value_len : Bytes → Field → ℕ → Result (Unit {0})
check_value_len table f n = refuse_if (ltb max_value_bytes n) (column_error table f)

unfoldable pub append_bytes : Bytes → Bytes → Field → Bytes → Result Bytes
unfolding check_value_len
append_bytes out table f s = do
  check_value_len table f (length s)
  ok ((out ++ be32 (length s)) ++ s)

-- The switch of `appendValue` on the column's kind.
unfoldable pub append_kind : Kind → Bytes → Bytes → Field → Value → Result Bytes
unfolding as_bool as_int32 as_int64 as_float32 as_float64 as_string as_bytes append_bytes
append_kind boolean out table f v = do
  b ← need (as_bool v) (column_error table f)
  if b then ok (out ++ 0x01 ∷ []) else ok (out ++ 0x00 ∷ [])
append_kind int out table f v = do
  n ← need (as_int32 v) (column_error table f)
  ok (out ++ be32 (to_uint32 n))
append_kind float out table f v = do
  x ← need (as_float32 v) (column_error table f)
  ok (out ++ be32 x)
append_kind double out table f v = do
  x ← need (as_float64 v) (column_error table f)
  ok (out ++ be64 x)
append_kind string out table f v = do
  s ← need (as_string v) (column_error table f)
  append_bytes out table f s
append_kind binary out table f v = do
  s ← need (as_bytes v) (column_error table f)
  append_bytes out table f s
append_kind (unknown t) out table f v = err (encoding_error unsupported_type table f.name f.id)
append_kind _ out table f v = do
  n ← need (as_int64 v) (column_error table f)
  ok (out ++ be64 (to_uint64 n))

unfoldable pub append_value : Bytes → Bytes → Field → Value → Result Bytes
append_value out table f v = append_kind f.kind out table f v

-- One round of `Encode`'s loop: the presence byte of an optional column, then the value.
unfoldable pub append_column : Bytes → Bytes → Field → Option Value → Result Bytes
append_column out table f none =
    if f.required then err (column_error table f) else ok (out ++ 0x00 ∷ [])
append_column out table f (some v) =
    append_value (if not f.required then out ++ 0x01 ∷ [] else out) table f v

abbrev pub row_error : Bytes → Error
row_error table = encoding_error value table [] (pos 0)

-- The loop over the columns. `Encode` has compared the lengths: the two last clauses, where the
-- source would index past an end, are not reached from it.
unfoldable pub append_columns : Bytes → Bytes → List Field → Row → Result Bytes
append_columns out table [] [] = ok out
append_columns out table (f ∷ fs) (v ∷ row) = do
  out' ← append_column out table f v
  append_columns out' table fs row
append_columns out table [] (v ∷ row) = err (row_error table)
append_columns out table (f ∷ fs) [] = err (row_error table)

unfoldable pub encode : Bytes → Descriptor → Row → Result Bytes
encode table d row = do
  refuse_if (not (length row == length d.fields)) (row_error table)
  append_columns (encoding_version ∷ []) table d.fields row

-- A refusal about the payload as a whole, and about a column's bytes.
abbrev pub malformed : Bytes → Error
malformed table = encoding_error format table [] (pos 0)

abbrev column_malformed : Bytes → Field → Error
column_malformed table f = encoding_error format table f.name f.id

-- The inner switch of `readValue`, on the bytes of a fixed-width value.
unfoldable pub bool_of : Bytes → Bytes → Field → Result Value
bool_of (b ∷ _) table f =
    if b == 0x00
    then ok (bool_value false)
    else if b == 0x01
    then ok (bool_value true)
    else err (column_malformed table f)
bool_of [] table f = err (column_malformed table f)

unfoldable pub fixed_value : Kind → Bytes → Bytes → Field → Result Value
unfolding bool_of
fixed_value boolean raw table f = bool_of raw table f
fixed_value int raw table f = ok (int32_value (to_int32 (uint32_of raw)))
fixed_value float raw table f = ok (float32_value (uint32_of raw))
fixed_value double raw table f = ok (float64_value (uint64_of raw))
fixed_value _ raw table f = ok (int64_value (to_int64 (uint64_of raw)))

unfoldable pub text_value : Kind → Bytes → Value
text_value string raw = string_value raw
text_value _ raw = bytes_value raw

unfoldable pub read_fixed : ℕ → Cursor → Bytes → Field → Result (Value × Cursor)
read_fixed width c table f = do
  (raw, c') ← need (bytes c width) (column_malformed table f)
  v ← fixed_value f.kind raw table f
  ok (v, c')

unfoldable pub read_prefixed : Cursor → Bytes → Field → Result (Value × Cursor)
unfolding text_value
read_prefixed c table f = do
  (n, c') ← need (uint32 c) (column_malformed table f)
  (raw, c'') ← need (bytes c' n) (column_malformed table f)
  ok (text_value f.kind raw, c'')

unfoldable pub read_value : Cursor → Bytes → Field → Result (Value × Cursor)
read_value c table f = elim (fixed_width f.kind) [
  | some width ↦ read_fixed width c table f
  | none ↦ read_prefixed c table f
]

unfoldable pub read_some : Cursor → Bytes → Field → Result (Option Value × Cursor)
read_some c table f = do (v, c') ← read_value c table f; ok (some v, c')

-- One round of `Decode`'s loop.
unfoldable pub read_column : Cursor → Bytes → Field → Result (Option Value × Cursor)
read_column c table f = if f.required then read_some c table f else do
  (present, c') ← need (byte_at c) (malformed table)
  if present == 0x00
      then ok (none, c')
      else if present == 0x01
      then read_some c' table f
      else err (malformed table)

unfoldable pub read_columns : Cursor → Bytes → List Field → Result (Row × Cursor)
read_columns c table [] = ok ([], c)
read_columns c table (f ∷ fs) = do
  (v, c') ← read_column c table f
  (row, c'') ← read_columns c' table fs
  ok (v ∷ row, c'')

unfoldable pub decode : Bytes → Descriptor → Bytes → Result Row
decode table d payload = do
  (version, c) ← need (byte_at (cursor payload)) (malformed table)
  refuse_if (not (version == encoding_version)) (malformed table)
  (row, c') ← read_columns c table d.fields
  refuse_if (not (remaining c' == 0)) (malformed table)
  ok row
