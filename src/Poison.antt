-- ===== src/Poison.antt =====
-- poison.go: the check of a record's values before it is staged.
pub mod Utf8
pub mod Accepts
mod Tests
use icelake.Prelude.{
  ℕ, ◌^◌, ℤ, pos, negsuc, Bool, true, false, not, ◌||◌, ◌&&◌, Option, none, some, List, [], ◌∷◌,
  length,
}
use icelake.Prelude.{suc, ltb, leb, ◌==◌, if◌then◌else◌, ltb_ℤ, get_elem?}
use icelake.Errdef.{
  Bytes, poison_error, invalid_utf8, decimal_range, too_long, Result, ok, err, refuse_if, ◌>>=◌,
  ◌>>◌,
}
use icelake.Canon.Shape.{Kind, string, binary, decimal, Field, Descriptor, max_value_bytes}
use icelake.Canon.Record.{Value, Row, as_string, as_bytes, as_int64}
use icelake.Poison.Utf8.{valid_string}

-- The table `pow10`. Past its end, where Go would panic, there is no entry.
abbrev pub powers : List ℕ
powers =
    1 ∷ 10 ∷ 100 ∷ 1000 ∷ 10000 ∷ 100000 ∷ 1000000 ∷ 10000000 ∷ 100000000 ∷ 1000000000 ∷ 10000000000
    ∷ 100000000000 ∷ 1000000000000 ∷ 10000000000000 ∷ 100000000000000 ∷ 1000000000000000
    ∷ 10000000000000000 ∷ 100000000000000000 ∷ 1000000000000000000 ∷ []

unfoldable pub pow10 : ℤ → Option ℕ
pow10 (pos n) = get_elem? powers n
pow10 (negsuc n) = none

-- `v > -limit && v < limit`, for a limit above zero.
unfoldable pub within : ℤ → ℕ → Bool
within (pos n) limit = ltb n limit
within (negsuc n) limit = ltb (suc n) limit

-- Below 1 or past the table's end, every value fits.
unfoldable pub fits_precision : ℤ → ℤ → Bool
fits_precision v precision =
    if ltb_ℤ precision (pos 1)
    then true
    else elim (pow10 precision) [ none ↦ true | some limit ↦ within v limit ]

unfoldable pub check_len : Bytes → Field → ℕ → Result (Unit {0})
check_len table f n =
    if leb n max_value_bytes then ok tt else err (poison_error too_long table f.name)

unfoldable pub check_string : Bytes → Field → Option Bytes → Result (Unit {0})
check_string table f none = ok tt
check_string table f (some s) = do
  refuse_if (not (valid_string s)) (poison_error invalid_utf8 table f.name)
  check_len table f (length s)

unfoldable pub check_binary : Bytes → Field → Option Bytes → Result (Unit {0})
check_binary table f none = ok tt
check_binary table f (some raw) = check_len table f (length raw)

unfoldable pub check_decimal : Bytes → Field → Option ℤ → Result (Unit {0})
check_decimal table f none = ok tt
check_decimal table f (some v) =
    refuse_if (not (fits_precision v f.precision)) (poison_error decimal_range table f.name)

-- The switch on the column's kind. A value of another Go type is left for the encoder to refuse.
unfoldable pub check_kind : Kind → Bytes → Field → Value → Result (Unit {0})
check_kind string table f v = check_string table f (as_string v)
check_kind binary table f v = check_binary table f (as_bytes v)
check_kind decimal table f v = check_decimal table f (as_int64 v)
check_kind _ table f v = ok tt

unfoldable pub check_cell : Bytes → Field → Option Value → Result (Unit {0})
check_cell table f none = ok tt
check_cell table f (some v) = check_kind f.kind table f v

-- The loop over the columns of a row as long as the shape.
unfoldable pub check_cells : Bytes → List Field → Row → Result (Unit {0})
check_cells table (f ∷ fs) (v ∷ row) = do check_cell table f v; check_cells table fs row
check_cells table _ _ = ok tt

unfoldable pub check_poison : Bytes → Descriptor → Row → Result (Unit {0})
check_poison table d row =
    if not (length row == length d.fields) then ok tt else check_cells table d.fields row
