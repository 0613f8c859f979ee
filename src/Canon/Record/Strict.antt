-- ===== src/Canon/Record/Strict.antt =====
-- canon/record.go: which bytes `Decode` accepts.
use icelake.Prelude.{ℕ, ◌≤◌, ◌≡◌, refl, sym, ap, Bool, true, false, Option, none, some, not}
use icelake.Prelude.{List, [], ◌∷◌, ◌++◌, append_assoc, append-nil, length, ◌==◌, subst}
use icelake.Prelude.{be32, be64, to_uint32, to_uint64, arith, Bool-cases, Option-cases, inl, inr}
use icelake.Prelude.{
  uint32_of, uint64_of, to_int32, to_int64, to_uint32-to_int32, to_uint64-to_int64,
}
use icelake.Prelude.{be32-uint32_of, be64-uint64_of, to_int32-IsInt32, to_int64-IsInt64}
use icelake.Prelude.{All, IsByte, All-append, ℤ, IsInt64}
use icelake.Errdef.{Bytes, Result, ok, ◌>>◌, >>=-eq-ok, ok-injective, refuse_if}
use icelake.Canon.Shape.{
  Kind, boolean, int, long, float, double, decimal, timestamp_tz, string, binary,
}
use icelake.Canon.Shape.{unknown, Field, Descriptor, max_value_bytes, fixed_width}
use icelake.Canon.Shape.{IsKnown, known_kind}
use icelake.Canon.Cursor.{Cursor, cursor, remaining, uint32, advance}
use icelake.Canon.Cursor.Reads.{rest, byte_at_cases, bytes_cases, uint32_inv, rest-IsByte, no_rest}
use icelake.Canon.Record.{Value, bool_value, int64_value}
use icelake.Canon.Record.{Row, IsGoValue, IsGoCell, bool_of, fixed_value}
use icelake.Canon.Record.{text_value, read_fixed, read_prefixed, read_value, read_some, read_column}
use icelake.Canon.Record.{read_columns, decode, malformed}
use icelake.Canon.Record.Layout.{Holds, hold_boolean, hold_int, hold_long, hold_float, hold_double}
use icelake.Canon.Record.Layout.{
  hold_decimal, hold_timestamp_tz, hold_string, hold_binary, HoldsCell, Fits,
}
use icelake.Canon.Record.Layout.{value_layout, cell_layout, columns_layout, row_layout}

-- `raw` is the layout of a value of the kind `k`.
abbrev IsLayout : Kind → Bytes → Value → Type 0
IsLayout k raw v = (raw ≡ value_layout v) × Holds k v × IsGoValue v

int32_layout :
    (raw : Bytes)
    → length raw ≡ 4
    → All IsByte raw
    → raw ≡ be32 (to_uint32 (to_int32 (uint32_of raw)))
int32_layout raw l b =
    let (same, small) = be32-uint32_of raw l b in rw (to_uint32-to_int32 _ small) (sym same)

int64_layout :
    (raw : Bytes)
    → length raw ≡ 8
    → All IsByte raw
    → raw ≡ be64 (to_uint64 (to_int64 (uint64_of raw)))
int64_layout raw l b =
    let (same, small) = be64-uint64_of raw l b in rw (to_uint64-to_int64 _ small) (sym same)

IsInt64-IsGoValue :
    (raw : Bytes) → length raw ≡ 8 → All IsByte raw → IsInt64 (to_int64 (uint64_of raw))
IsInt64-IsGoValue raw l b = to_int64-IsInt64 _ (be64-uint64_of raw l b).1

-- Eight bytes read as an int64, in each of the three kinds that hold one.
module _ (raw : Bytes) (l : length raw ≡ 8) (b : All IsByte raw) (k : Kind) where
  long-IsLayout :
      {v : Value}
      → ((z : ℤ) → Holds k (int64_value z))
      → ok (int64_value (to_int64 (uint64_of raw))) ≡ ok v
      → IsLayout k raw v
  long-IsLayout holds h =
      subst (IsLayout k raw) (ok-injective h)
        (int64_layout raw l b, holds _, IsInt64-IsGoValue raw l b)

bool_of_inv :
    (x : ℕ) (table : Bytes) (f : Field) {v : Value}
    → bool_of (x ∷ []) table f ≡ ok v
    → (b : Bool) × (x ∷ [] ≡ value_layout (bool_value b)) × (bool_value b ≡ v)
unfolding bool_of
bool_of_inv x table f h = elim (Bool-cases (x == 0x00)) [
  | inl zero_ ↦ (false, ground arith, ground arith)
  | inr other_ ↦ (true, ground arith, ground arith)
]

fixed_value_inv :
    (k : Kind) (width : ℕ) (raw table : Bytes) (f : Field) {v : Value}
    → fixed_width k ≡ some width
    → length raw ≡ width
    → All IsByte raw
    → fixed_value k raw table f ≡ ok v
    → IsLayout k raw v
unfolding fixed_value fixed_width
fixed_value_inv boolean width [] table f w l b h = cc
fixed_value_inv boolean width (x ∷ []) table f w l b h =
    let (a, same, e) = bool_of_inv x table f h in
    subst (IsLayout boolean (x ∷ [])) e (same, hold_boolean a, tt)
fixed_value_inv boolean width (x ∷ y ∷ raw) table f w l b h = absurd (ground arith)
fixed_value_inv int width raw table f w l b h =
    let l' : length raw ≡ 4 = ground arith in
    subst (IsLayout int raw) (ok-injective h)
      (int32_layout raw l' b, hold_int _, to_int32-IsInt32 _ (be32-uint32_of raw l' b).1)
fixed_value_inv float width raw table f w l b h =
    let (same, small) = be32-uint32_of raw (ground arith) b in
    subst (IsLayout float raw) (ok-injective h) (sym same, hold_float _, small)
fixed_value_inv double width raw table f w l b h =
    let (same, small) = be64-uint64_of raw (ground arith) b in
    subst (IsLayout double raw) (ok-injective h) (sym same, hold_double _, small)
fixed_value_inv long width raw table f w l b h = long-IsLayout raw (ground arith) b long hold_long h
fixed_value_inv decimal width raw table f w l b h =
    long-IsLayout raw (ground arith) b decimal hold_decimal h
fixed_value_inv timestamp_tz width raw table f w l b h =
    long-IsLayout raw (ground arith) b timestamp_tz hold_timestamp_tz h
fixed_value_inv string width raw table f w l b h = cc
fixed_value_inv binary width raw table f w l b h = cc
fixed_value_inv (unknown t) width raw table f w l b h = cc

read_fixed_inv :
    (width : ℕ) (c : Cursor) (table : Bytes) (f : Field) {v : Value} {c' : Cursor}
    → fixed_width f.kind ≡ some width
    → All IsByte (rest c)
    → read_fixed width c table f ≡ ok (v, c')
    → (rest c ≡ value_layout v ++ rest c') × Holds f.kind v × IsGoValue v
unfolding read_fixed
read_fixed_inv width c table f {v} {c'} w b h = elim (bytes_cases c width) [
  | inl (e, _) ↦ cc
  | inr (raw, e, left, l) ↦
      let value_read : fixed_value f.kind raw table f ≡ ok v = ground arith in
      let moved : advance c width ≡ c' = ground arith in
      let (same, holds, go) =
        fixed_value_inv f.kind width raw table f w l
          ((All-append IsByte raw _).0 (subst (All IsByte) left b)).0 value_read in
      (cc, holds, go)
]

text_value_holds :
    (k : Kind) (s : Bytes)
    → fixed_width k ≡ none
    → IsKnown k
    → length s ≤ max_value_bytes
    → All IsByte s
    → IsLayout k (be32 (length s) ++ s) (text_value k s)
unfolding fixed_width known_kind text_value
text_value_holds string s w known l b = (refl, hold_string s l, b)
text_value_holds binary s w known l b = (refl, hold_binary s l, b)
text_value_holds boolean s w known l b = cc
text_value_holds _ s w known l b = cc

read_prefixed_inv :
    (c : Cursor) (table : Bytes) (f : Field) {v : Value} {c' : Cursor}
    → fixed_width f.kind ≡ none
    → IsKnown f.kind
    → All IsByte (rest c)
    → read_prefixed c table f ≡ ok (v, c')
    → (rest c ≡ value_layout v ++ rest c') × Holds f.kind v × IsGoValue v
unfolding read_prefixed
read_prefixed_inv c table f {v} {c'} w known b h = elim (Option-cases (uint32 c)) [
  | inl e ↦ cc
  | inr ((n, c1), size) ↦
      let (left, small) = uint32_inv c b size in
      elim (bytes_cases c1 n) [
        | inl (e, _) ↦ cc
        | inr (s, e, left', l) ↦
            let text : text_value f.kind s ≡ v = ground arith in
            let moved : advance c1 n ≡ c' = ground arith in
            let b' =
              (All-append IsByte s _).0 (subst (All IsByte) left' (rest-IsByte _ _ _ left b)) in
            let whole = text_value_holds f.kind s w known (omega arith) b'.0 in
            let (same, holds, go) = subst (IsLayout f.kind (be32 (length s) ++ s)) text whole in
            (cc (append_assoc (be32 n) s (rest c')), holds, go)
      ]
]

read_value_inv :
    (c : Cursor) (table : Bytes) (f : Field) {v : Value} {c' : Cursor}
    → IsKnown f.kind
    → All IsByte (rest c)
    → read_value c table f ≡ ok (v, c')
    → (rest c ≡ value_layout v ++ rest c') × Holds f.kind v × IsGoValue v
unfolding read_value
read_value_inv c table f known b h = elim (Option-cases (fixed_width f.kind)) [
  | inl w ↦ read_prefixed_inv c table f w known b (rw (w, read_value) at h)
  | inr (width, w) ↦ read_fixed_inv width c table f w b (rw (w, read_value) at h)
]

abbrev CellRead : Cursor → Field → Option Value → Cursor → Type 0
CellRead c f v c' = (rest c ≡ cell_layout f v ++ rest c') × HoldsCell f v × IsGoCell v

read_some_inv :
    (c : Cursor) (table : Bytes) (f : Field) {v : Option Value} {c' : Cursor}
    → IsKnown f.kind
    → All IsByte (rest c)
    → read_some c table f ≡ ok (v, c')
    → (w : Value) × (some w ≡ v)
      × (rest c ≡ value_layout w ++ rest c')
      × Holds f.kind w
      × IsGoValue w
unfolding read_some
read_some_inv c table f {v} {c'} known b h =
    let ((w, c1), e, e') = >>=-eq-ok (read_value c table f) _ h in
    let stop : c1 ≡ c' = ground arith in
    let (left, holds, go) = read_value_inv c table f known b e in (w, ground arith, cc, holds, go)

read_column_inv :
    (c : Cursor) (table : Bytes) (f : Field) {v : Option Value} {c' : Cursor}
    → IsKnown f.kind
    → All IsByte (rest c)
    → read_column c table f ≡ ok (v, c')
    → CellRead c f v c'
unfolding read_column
read_column_inv c table f {v} {c'} known b h = elim (Bool-cases f.required) [
  | inl req ↦
      let (w, e, left, holds, go) =
        read_some_inv c table f {v = v} {c' = c'} known b (ground arith) in
      subst (λ u. CellRead c f u c') e (ground arith, holds, go)
  | inr opt ↦ elim (byte_at_cases c) [
    | inl (e, _) ↦ absurd (ground arith)
    | inr (x, e, left) ↦ elim (Bool-cases (x == 0x00)) [
      | inl absent ↦
          let none_ : none ≡ v = ground arith in
          let stop : advance c 1 ≡ c' = ground arith in
          subst (λ u. CellRead c f u c') none_ (ground arith, opt, tt)
      | inr not_absent ↦
          let present : x ≡ 0x01 = ground arith in
          let (w, e', left', holds, go) =
            read_some_inv (advance c 1) table f {v = v} {c' = c'} known
              (rest-IsByte (x ∷ []) _ _ left b) (ground arith) in
          subst (λ u. CellRead c f u c') e' (ground arith, holds, go)
    ]
  ]
]

abbrev pub AllKnown : List Field → Type 0
AllKnown = All (λ (f : Field). IsKnown f.kind)

read_columns_inv :
    (c : Cursor) (table : Bytes) (fs : List Field) {row : Row} {c' : Cursor}
    → AllKnown fs
    → All IsByte (rest c)
    → read_columns c table fs ≡ ok (row, c')
    → (rest c ≡ columns_layout fs row ++ rest c') × Fits fs row × All IsGoCell row
unfolding read_columns
read_columns_inv c table [] {row} {c'} known b h =
    let empty : [] ≡ row = ground arith in
    let stop : c ≡ c' = ground arith in
    subst (λ r. (rest c ≡ columns_layout [] r ++ rest c') × Fits [] r × All IsGoCell r) empty
      (ap rest stop, tt, tt)
read_columns_inv c table (f ∷ fs) {row} {c'} (k, ks) b h =
    let ((v, c1), e, h1) = >>=-eq-ok (read_column c table f) _ h in
    let ((vs, c2), e', h2) = >>=-eq-ok (read_columns c1 table fs) _ h1 in
    let (left, holds, go) = read_column_inv c table f k b e in
    let (left', fits, gos) = read_columns_inv c1 table fs ks (rest-IsByte _ _ _ left b) e' in
    let stop : c2 ≡ c' = ground arith in
    let rows : v ∷ vs ≡ row = ground arith in
    subst (λ r. (rest c ≡ columns_layout (f ∷ fs) r ++ rest c') × Fits (f ∷ fs) r × All IsGoCell r)
      rows
      (
        cc (append_assoc (cell_layout f v) (columns_layout fs vs) (rest c')),
        (holds, fits),
        (go, gos),
      )

-- The end of `Decode`: no byte is left.
abbrev finish : Bytes → Row × Cursor → Result Row
finish table p = refuse_if (not (remaining p.1 == 0)) (malformed table) >> ok p.0

-- What `Decode` accepts is the documented form of the row that it returns, and the row fits.
pub decode_inv :
    (table : Bytes) (d : Descriptor) (payload : Bytes) {row : Row}
    → AllKnown d.fields
    → All IsByte payload
    → decode table d payload ≡ ok row
    → (payload ≡ row_layout d.fields row) × Fits d.fields row × All IsGoCell row
unfolding decode
decode_inv table d payload {row} known b h = elim (byte_at_cases (cursor payload)) [
  | inl (e, _) ↦ absurd (ground arith)
  | inr (x, e, left) ↦
      let version : x ≡ 0x01 = ground arith in
      let start : Cursor = advance (cursor payload) 1 in
      let ((row', c'), read, done) =
        >>=-eq-ok (read_columns start table d.fields) (finish table) {w = row} (ground arith) in
      let same : row' ≡ row = ground arith in
      let ended : rest c' ≡ [] = no_rest c' (ground arith) in
      let (left', fits, go) =
        read_columns_inv start table d.fields known (rest-IsByte (x ∷ []) _ _ left b) read in
      subst (λ r. (payload ≡ row_layout d.fields r) × Fits d.fields r × All IsGoCell r) same
        (cc (append-nil (columns_layout d.fields row')), fits, go)
]
