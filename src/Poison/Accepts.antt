-- ===== src/Poison/Accepts.antt =====
-- poison.go against the list of representable values in its comment, and the encoder that runs
-- behind it.
use icelake.Prelude.{
  ap, ◌∙◌, ◌+◌, zero, get_elem?, ℕ, suc, ◌≤◌, ◌<◌, ◌^◌, ◌≡◌, ◌≤ℤ◌, not, refl, ◌↔◌, ℤ, pos, negsuc,
  true, false,
}
use icelake.Prelude.{Option, none, some, List, [], ◌∷◌, length, ==_iff, All, arith}
use icelake.Errdef.{Bytes, ok, refuse_if, poison_error, decimal_range}
use icelake.Canon.Shape.{
  Kind, boolean, int, long, float, double, decimal, timestamp_tz, string, binary,
}
use icelake.Canon.Shape.{Field, Descriptor, max_value_bytes, is_decimal}
use icelake.Canon.Record.{Value, bool_value, int32_value, int64_value, float32_value, float64_value}
use icelake.Canon.Record.{string_value, bytes_value, Row, encode, as_string, as_bytes, as_int64}
use icelake.Canon.Record.Layout.{
  Holds, hold_boolean, hold_int, hold_long, hold_float, hold_double, hold_decimal,
}
use icelake.Canon.Record.Layout.{
  hold_timestamp_tz, hold_string, hold_binary, Fits, row_layout, encode-Fits,
}
use icelake.Canon.Columns.Layout.{IsValid, Digits}
use icelake.Poison.Utf8.{valid_string}
use icelake.Poison.{
  powers, pow10, within, fits_precision, check_len, check_string, check_binary, check_decimal,
}
use icelake.Poison.{check_kind, check_cell, check_cells, check_poison}

abbrev magnitude : ℤ → ℕ
magnitude (pos n) = n
magnitude (negsuc n) = suc n

-- At most `precision` decimal digits.
abbrev HasDigits : ℤ → ℤ → Type 0
HasDigits (pos precision) v = magnitude v < 10 ^ precision
HasDigits (negsuc n) v = Unit

-- What a column can represent of a value of its own Go type.
abbrev Represents : Kind → ℤ → Value → Type 0
Represents string precision (string_value s) =
    (valid_string s ≡ true) × (length s ≤ max_value_bytes)
Represents binary precision (bytes_value s) = length s ≤ max_value_bytes
Represents decimal precision (int64_value v) = HasDigits precision v
Represents _ precision v = Unit

abbrev RepresentsCell : Field → Option Value → Type 0
RepresentsCell f none = Unit
RepresentsCell f (some v) = Represents f.kind f.precision v

abbrev pub AllRepresented : List Field → Row → Type 0
AllRepresented (f ∷ fs) (v ∷ row) = RepresentsCell f v × AllRepresented fs row
AllRepresented _ _ = Unit

-- The Go type of a column's values, and a null only where it is allowed.
abbrev HasType : Kind → Value → Type 0
HasType boolean (bool_value b) = Unit
HasType int (int32_value z) = Unit
HasType long (int64_value z) = Unit
HasType float (float32_value n) = Unit
HasType double (float64_value n) = Unit
HasType decimal (int64_value z) = Unit
HasType timestamp_tz (int64_value z) = Unit
HasType string (string_value s) = Unit
HasType binary (bytes_value s) = Unit
HasType _ v = ⊥

abbrev CellHasType : Field → Option Value → Type 0
CellHasType f none = f.required ≡ false
CellHasType f (some v) = HasType f.kind v

abbrev RowHasType : List Field → Row → Type 0
RowHasType [] [] = Unit
RowHasType (f ∷ fs) (v ∷ row) = CellHasType f v × RowHasType fs row
RowHasType _ _ = ⊥

-- Every entry of a table is the power of ten at its index, counted from `k`.
abbrev IsTable : ℕ → List ℕ → Type 0
IsTable k [] = Unit
IsTable k (x ∷ xs) = (x ≡ 10 ^ k) × IsTable (suc k) xs

get_elem?-table :
    (k : ℕ) (xs : List ℕ) (n : ℕ)
    → IsTable k xs
    → n < length xs
    → get_elem? xs n ≡ some (10 ^ (k + n))
get_elem?-table k [] n t h = absurd (omega arith)
get_elem?-table k (x ∷ xs) zero t h = ap some (t.0 ∙ ap (λ i. 10 ^ i) (omega arith))
get_elem?-table k (x ∷ xs) (suc n) t h =
    get_elem?-table (suc k) xs n t.1 (omega arith) ∙ ap (λ i. some (10 ^ i)) (omega arith)

powers-IsTable : IsTable 0 powers
powers-IsTable = ground arith

pow10_at : (n : ℕ) → n ≤ 18 → pow10 (pos n) ≡ some (10 ^ n)
unfolding pow10
pow10_at n h =
    get_elem?-table 0 powers n powers-IsTable (omega (arith, h))
    ∙ ap (λ i. some (10 ^ i)) (omega arith)

within_iff : (v : ℤ) (limit : ℕ) → (within v limit ≡ true) ↔ (magnitude v < limit)
unfolding within
within_iff (pos n) limit = (λ h. ground arith, λ h. ground arith)
within_iff (negsuc n) limit = (λ h. ground arith, λ h. ground arith)

-- `fitsPrecision` of a declarable precision is that the value has at most so many digits.
fits_precision_iff :
    (v : ℤ) (precision : ℕ)
    → 1 ≤ precision
    → precision ≤ 18
    → (fits_precision v (pos precision) ≡ true) ↔ (magnitude v < 10 ^ precision)
unfolding fits_precision
fits_precision_iff v n low high =
    let w = within_iff v (10 ^ n) in
    let at_ = pow10_at n high in (λ h. w.0 (ground (arith, at_)), λ h. ground (arith, at_, w.1 h))

check_len_iff :
    (table : Bytes) (f : Field) (n : ℕ) → (check_len table f n ≡ ok tt) ↔ (n ≤ max_value_bytes)
unfolding check_len
check_len_iff table f n = (λ h. ground arith, λ h. ground arith)

check_decimal_iff :
    (table : Bytes) (f : Field) (v : ℤ)
    → Digits true f.precision f.scale
    → (check_decimal table f (some v) ≡ ok tt) ↔ HasDigits f.precision v
unfolding check_decimal
check_decimal_iff table f v d = digits f.precision d.0 d.1
  where
    digits :
        (p : ℤ)
        → pos 1 ≤ℤ p
        → p ≤ℤ pos 18
        → (refuse_if (not (fits_precision v p)) (poison_error decimal_range table f.name) ≡ ok tt)
          ↔ HasDigits p v
    digits (pos n) low high =
        let fits = fits_precision_iff v n (omega (arith, low)) (omega (arith, high)) in
        (λ h. fits.0 (ground arith), λ h. ground (arith, fits.1 h))
    digits (negsuc n) low high = absurd (omega (arith, low))

check_string_iff :
    (table : Bytes) (f : Field) (s : Bytes)
    → (check_string table f (some s) ≡ ok tt)
      ↔ ((valid_string s ≡ true) × (length s ≤ max_value_bytes))
unfolding check_string
check_string_iff table f s =
    let len = check_len_iff table f (length s) in
    (λ h. (ground arith, len.0 (ground arith)), λ h. ground (arith, h.0, len.1 h.1))

-- The check of a value, by the kind of its column.
check_kind_iff :
    (k : Kind) (table : Bytes) (f : Field) (v : Value)
    → Digits (is_decimal k) f.precision f.scale
    → (check_kind k table f v ≡ ok tt) ↔ Represents k f.precision v
unfolding check_kind as_string as_bytes as_int64 is_decimal
check_kind_iff string table f (string_value s) d = check_string_iff table f s
check_kind_iff string table f _ d = (λ h. tt, λ h. unfold check_string in refl)
check_kind_iff binary table f (bytes_value s) d =
    unfold check_binary in check_len_iff table f (length s)
check_kind_iff binary table f _ d = (λ h. tt, λ h. unfold check_binary in refl)
check_kind_iff decimal table f (int64_value v) d = check_decimal_iff table f v d
check_kind_iff decimal table f _ d = (λ h. tt, λ h. unfold check_decimal in refl)
check_kind_iff _ table f v d = (λ h. tt, λ h. refl)

check_cell_iff :
    (table : Bytes) (f : Field) (v : Option Value)
    → IsValid f
    → (check_cell table f v ≡ ok tt) ↔ RepresentsCell f v
unfolding check_cell
check_cell_iff table f none valid = (λ h. tt, λ h. refl)
check_cell_iff table f (some v) valid = check_kind_iff f.kind table f v valid.digits

check_cells_iff :
    (table : Bytes) (fs : List Field) (row : Row)
    → All IsValid fs
    → (check_cells table fs row ≡ ok tt) ↔ AllRepresented fs row
unfolding check_cells
check_cells_iff table [] row valid = (λ h. tt, λ h. refl)
check_cells_iff table (f ∷ fs) [] valid = (λ h. tt, λ h. refl)
check_cells_iff table (f ∷ fs) (v ∷ row) valid =
    let cell = check_cell_iff table f v valid.0 in
    let more = check_cells_iff table fs row valid.1 in
    (
      λ h. (cell.0 (ground arith), more.0 (ground arith)),
      λ h. ground (arith, cell.1 h.0, more.1 h.1),
    )

-- For a row as long as a shape of valid columns, the poison check passes exactly when every string
-- is valid UTF-8, every string and binary value fits its length prefix, and every decimal value has
-- no more digits than its column's precision.
pub check_poison_iff :
    (table : Bytes) (d : Descriptor) (row : Row)
    → All IsValid d.fields
    → length row ≡ length d.fields
    → (check_poison table d row ≡ ok tt) ↔ AllRepresented d.fields row
unfolding check_poison
check_poison_iff table d row valid l =
    let cells = check_cells_iff table d.fields row valid in
    let same = (==_iff (length row) (length d.fields)).1 l in
    (λ h. cells.0 (ground (arith, same)), λ h. ground (arith, same, cells.1 h))

Represents-Holds :
    (k : Kind) (precision : ℤ) (v : Value) → HasType k v → Represents k precision v → Holds k v
Represents-Holds boolean p (bool_value b) t r = hold_boolean b
Represents-Holds int p (int32_value z) t r = hold_int z
Represents-Holds long p (int64_value z) t r = hold_long z
Represents-Holds float p (float32_value n) t r = hold_float n
Represents-Holds double p (float64_value n) t r = hold_double n
Represents-Holds decimal p (int64_value z) t r = hold_decimal z
Represents-Holds timestamp_tz p (int64_value z) t r = hold_timestamp_tz z
Represents-Holds string p (string_value s) t r = hold_string s r.1
Represents-Holds binary p (bytes_value s) t r = hold_binary s r
Represents-Holds _ p v t r = absurd t

AllRepresented-Fits :
    (fs : List Field) (row : Row) → RowHasType fs row → AllRepresented fs row → Fits fs row
AllRepresented-Fits [] [] t r = tt
AllRepresented-Fits (f ∷ fs) (none ∷ row) t r = (t.0, AllRepresented-Fits fs row t.1 r.1)
AllRepresented-Fits (f ∷ fs) (some v ∷ row) t r =
    (Represents-Holds f.kind f.precision v t.0 r.0, AllRepresented-Fits fs row t.1 r.1)
AllRepresented-Fits [] (v ∷ row) t r = absurd t
AllRepresented-Fits (f ∷ fs) [] t r = absurd t

RowHasType-length : (fs : List Field) (row : Row) → RowHasType fs row → length row ≡ length fs
RowHasType-length [] [] t = refl
RowHasType-length (f ∷ fs) (v ∷ row) t = ap suc (RowHasType-length fs row t.1)
RowHasType-length [] (v ∷ row) t = absurd t
RowHasType-length (f ∷ fs) [] t = absurd t

-- Under a shape of valid columns, a row of the columns' Go types, with nulls in optional columns
-- only, that passes the poison check is encoded: no value of it can be refused at a flush.
pub encode-check_poison :
    (table : Bytes) (d : Descriptor) (row : Row)
    → All IsValid d.fields
    → RowHasType d.fields row
    → check_poison table d row ≡ ok tt
    → encode table d row ≡ ok (row_layout d.fields row)
encode-check_poison table d row valid typed h =
    let represented =
      (check_poison_iff table d row valid (RowHasType-length d.fields row typed)).0 h in
    encode-Fits table d row (AllRepresented-Fits d.fields row typed represented)
