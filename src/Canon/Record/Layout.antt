-- ===== src/Canon/Record/Layout.antt =====
-- internal/canon/doc.go, "Record payload layout": the byte form of a record as the package
-- documents it, independent of any buffer, and `Encode` against it.
use icelake.Prelude.{
  ℕ, ◌≤◌, suc, ◌≡◌, ℤ, refl, sym, ap, ◌∙◌, Bool, true, false, Option, none, some, not,
}
use icelake.Prelude.{List, [], ◌∷◌, ◌++◌, append_assoc, append-nil, length, ◌==◌, if◌then◌else◌}
use icelake.Prelude.{be32, be64, to_uint32, to_uint64, arith, ==_iff}
use icelake.Errdef.{Bytes, ok, refuse_if, >>=-eq-ok}
use icelake.Canon.Shape.{
  Kind, boolean, int, long, float, double, decimal, timestamp_tz, string, binary,
}
use icelake.Canon.Shape.{Field, Descriptor, max_value_bytes, encoding_version}
use icelake.Canon.Record.{Value, bool_value, int32_value, int64_value, float32_value, float64_value}
use icelake.Canon.Record.{string_value, bytes_value, other, Row, append_kind, append_value}
use icelake.Canon.Record.{append_column, append_columns, row_error, encode}

-- Which Go value a column of each kind holds. A text must fit its four-byte length prefix.
pub data Holds : Kind → Value → Type 0 where
  hold_boolean : (b : Bool) → Holds boolean (bool_value b)
  hold_int : (z : ℤ) → Holds int (int32_value z)
  hold_long : (z : ℤ) → Holds long (int64_value z)
  hold_float : (n : ℕ) → Holds float (float32_value n)
  hold_double : (n : ℕ) → Holds double (float64_value n)
  hold_decimal : (z : ℤ) → Holds decimal (int64_value z)
  hold_timestamp_tz : (z : ℤ) → Holds timestamp_tz (int64_value z)
  hold_string : (s : Bytes) → length s ≤ max_value_bytes → Holds string (string_value s)
  hold_binary : (s : Bytes) → length s ≤ max_value_bytes → Holds binary (bytes_value s)

abbrev pub HoldsCell : Field → Option Value → Type 0
HoldsCell f none = f.required ≡ false
HoldsCell f (some v) = Holds f.kind v

-- A row as long as the shape, with a value of the column's type or a permitted null in each place.
abbrev pub Fits : List Field → Row → Type 0
Fits [] [] = Unit
Fits (f ∷ fs) (v ∷ row) = HoldsCell f v × Fits fs row
Fits [] (v ∷ row) = ⊥
Fits (f ∷ fs) [] = ⊥

abbrev pub value_layout : Value → Bytes
value_layout (bool_value b) = (if b then 0x01 else 0x00) ∷ []
value_layout (int32_value z) = be32 (to_uint32 z)
value_layout (int64_value z) = be64 (to_uint64 z)
value_layout (float32_value n) = be32 n
value_layout (float64_value n) = be64 n
value_layout (string_value s) = be32 (length s) ++ s
value_layout (bytes_value s) = be32 (length s) ++ s
value_layout other = []

abbrev presence : Field → ℕ → Bytes
presence f b = if f.required then [] else b ∷ []

abbrev pub cell_layout : Field → Option Value → Bytes
cell_layout f none = presence f 0x00
cell_layout f (some v) = presence f 0x01 ++ value_layout v

abbrev pub columns_layout : List Field → Row → Bytes
columns_layout (f ∷ fs) (v ∷ row) = cell_layout f v ++ columns_layout fs row
columns_layout _ _ = []

abbrev pub row_layout : List Field → Row → Bytes
row_layout fs row = 0x01 ∷ columns_layout fs row

-- A value that its column holds is appended in its documented form.
append_kind-Holds :
    {k : Kind} {v : Value} (out table : Bytes) (f : Field)
    → Holds k v
    → append_kind k out table f v ≡ ok (out ++ value_layout v)
unfolding append_kind
append_kind-Holds out table f (hold_boolean true) = refl
append_kind-Holds out table f (hold_boolean false) = refl
append_kind-Holds out table f (hold_int z) = refl
append_kind-Holds out table f (hold_long z) = refl
append_kind-Holds out table f (hold_float n) = refl
append_kind-Holds out table f (hold_double n) = refl
append_kind-Holds out table f (hold_decimal z) = refl
append_kind-Holds out table f (hold_timestamp_tz z) = refl
append_kind-Holds out table f (hold_string s h) =
    ground (arith, append_assoc out (be32 (length s)) s)
append_kind-Holds out table f (hold_binary s h) =
    ground (arith, append_assoc out (be32 (length s)) s)

-- Whatever is appended, the column holds.
Holds-of-append_kind :
    (k : Kind) (v : Value) (out table : Bytes) (f : Field) {out' : Bytes}
    → append_kind k out table f v ≡ ok out'
    → Holds k v
unfolding append_kind
Holds-of-append_kind boolean (bool_value b) out table f h = hold_boolean b
Holds-of-append_kind int (int32_value z) out table f h = hold_int z
Holds-of-append_kind long (int64_value z) out table f h = hold_long z
Holds-of-append_kind float (float32_value n) out table f h = hold_float n
Holds-of-append_kind double (float64_value n) out table f h = hold_double n
Holds-of-append_kind decimal (int64_value z) out table f h = hold_decimal z
Holds-of-append_kind timestamp_tz (int64_value z) out table f h = hold_timestamp_tz z
Holds-of-append_kind string (string_value s) out table f h = hold_string s (ground arith)
Holds-of-append_kind binary (bytes_value s) out table f h = hold_binary s (ground arith)
Holds-of-append_kind _ _ out table f h = absurd (cc)

append_column-HoldsCell :
    (out table : Bytes) (f : Field) (v : Option Value)
    → HoldsCell f v
    → append_column out table f v ≡ ok (out ++ cell_layout f v)
unfolding append_column append_value
append_column-HoldsCell out table f none h = rw h
append_column-HoldsCell out table f (some v) h = ground (
  arith,
  append_kind-Holds out table f h,
  append_kind-Holds (out ++ 0x01 ∷ []) table f h,
  append_assoc out (0x01 ∷ []) (value_layout v),
)

HoldsCell-of-append_column :
    (out table : Bytes) (f : Field) (v : Option Value) {out' : Bytes}
    → append_column out table f v ≡ ok out'
    → HoldsCell f v
unfolding append_column append_value
HoldsCell-of-append_column out table f none h = ground arith
HoldsCell-of-append_column out table f (some v) h = Holds-of-append_kind f.kind v _ table f h

append_columns-Fits :
    (out table : Bytes) (fs : List Field) (row : Row)
    → Fits fs row
    → append_columns out table fs row ≡ ok (out ++ columns_layout fs row)
unfolding append_columns
append_columns-Fits out table [] [] h = ap ok (sym (append-nil out))
append_columns-Fits out table (f ∷ fs) (v ∷ row) (h, hs) =
    rw (append_column-HoldsCell out table f v h) (
      append_columns-Fits (out ++ cell_layout f v) table fs row hs
      ∙ ap ok (append_assoc out (cell_layout f v) (columns_layout fs row)))
append_columns-Fits out table [] (v ∷ row) h = absurd h
append_columns-Fits out table (f ∷ fs) [] h = absurd h

Fits-of-append_columns :
    (out table : Bytes) (fs : List Field) (row : Row) {out' : Bytes}
    → append_columns out table fs row ≡ ok out'
    → Fits fs row
unfolding append_columns
Fits-of-append_columns out table [] [] h = tt
Fits-of-append_columns out table (f ∷ fs) (v ∷ row) h =
    let (mid, e, rest) = >>=-eq-ok (append_column out table f v) _ h in
    (HoldsCell-of-append_column out table f v e, Fits-of-append_columns mid table fs row rest)
Fits-of-append_columns out table [] (v ∷ row) h = cc
Fits-of-append_columns out table (f ∷ fs) [] h = cc

Fits-length : (fs : List Field) (row : Row) → Fits fs row → length row ≡ length fs
Fits-length [] [] h = refl
Fits-length (f ∷ fs) (v ∷ row) h = ap suc (Fits-length fs row h.1)
Fits-length [] (v ∷ row) h = absurd h
Fits-length (f ∷ fs) [] h = absurd h

-- `Encode` writes the documented form of every row that fits the shape.
pub encode-Fits :
    (table : Bytes) (d : Descriptor) (row : Row)
    → Fits d.fields row
    → encode table d row ≡ ok (row_layout d.fields row)
unfolding encode
encode-Fits table d row h =
    rw ((==_iff _ _).1 (Fits-length d.fields row h))
      (append_columns-Fits (encoding_version ∷ []) table d.fields row h)

-- A row that `Encode` accepts fits the shape.
pub Fits-of-encode :
    (table : Bytes) (d : Descriptor) (row : Row) {payload : Bytes}
    → encode table d row ≡ ok payload
    → Fits d.fields row
unfolding encode
Fits-of-encode table d row h =
    let start : Bytes = encoding_version ∷ [] in
    let (_, _, e) =
      >>=-eq-ok (refuse_if (not (length row == length d.fields)) (row_error table))
        (λ _. append_columns start table d.fields row) h in
    Fits-of-append_columns start table d.fields row e
