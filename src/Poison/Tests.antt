-- ===== src/Poison/Tests.antt =====
-- Concrete runs of poison.go, and its theorems at concrete rows.
use icelake.Prelude.{◌≡◌, refl, ◌↔◌, pos, negsuc, true, false, none, some, [], ◌∷◌, All, arith}
use icelake.Errdef.{poison_error, invalid_utf8, decimal_range, ok, err}
use icelake.Canon.Shape.{Descriptor, string, decimal, is_decimal, known_kind}
use icelake.Canon.Record.{Row, int64_value, string_value, encode, as_string, as_bytes, as_int64}
use icelake.Canon.Record.Layout.{row_layout}
use icelake.Canon.Columns.Layout.{IsValid}
use icelake.Poison.Utf8.{first_byte, next_state, at_start, run, valid_string}
use icelake.Poison.{
  pow10, within, fits_precision, check_len, check_string, check_binary, check_decimal,
}
use icelake.Poison.{check_kind, check_cell, check_cells, check_poison}
use icelake.Poison.Accepts.{AllRepresented, check_poison_iff, encode-check_poison}

unfoldable all_code : Unit {0}
unfolding first_byte next_state at_start run valid_string pow10 within fits_precision check_len
    check_string check_binary check_decimal check_kind check_cell check_cells check_poison as_string
    as_bytes as_int64 is_decimal known_kind
all_code = tt

abbrev shape : Descriptor
shape = record {
  fields =
      record {
        id = pos 1;
        name = b's' ∷ [];
        kind = string;
        precision = pos 0;
        scale = pos 0;
        required = true;
      }
      ∷ record {
        id = pos 2;
        name = b'p' ∷ [];
        kind = decimal;
        precision = pos 4;
        scale = pos 2;
        required = false;
      }
      ∷ [];
  encoded = [];
  fp = [];
}

-- "é", and the largest value of decimal(4, 2) below zero.
abbrev fine : Row
fine = some (string_value (0xC3 ∷ 0xA9 ∷ [])) ∷ some (int64_value (negsuc 9998)) ∷ []

abbrev torn : Row
torn = some (string_value (0xC3 ∷ [])) ∷ none ∷ []

abbrev wide : Row
wide = some (string_value []) ∷ some (int64_value (pos 10000)) ∷ []

fine_accepted : check_poison [] shape fine ≡ ok tt
unfolding all_code
fine_accepted = refl

torn_refused : check_poison [] shape torn ≡ err (poison_error invalid_utf8 [] (b's' ∷ []))
unfolding all_code
torn_refused = refl

wide_refused : check_poison [] shape wide ≡ err (poison_error decimal_range [] (b'p' ∷ []))
unfolding all_code
wide_refused = refl

shape-IsValid : All IsValid shape.fields
unfolding all_code
shape-IsValid = (
  record {
    id_low = omega arith;
    id_high = omega arith;
    named = omega arith;
    short = omega arith;
    known = refl;
    digits = (refl, refl);
  },
  (
    record {
      id_low = omega arith;
      id_high = omega arith;
      named = omega arith;
      short = omega arith;
      known = refl;
      digits = (omega arith, omega arith, omega arith, omega arith);
    },
    tt,
  ),
)

check_poison_iff_example : (check_poison [] shape fine ≡ ok tt) ↔ AllRepresented shape.fields fine
check_poison_iff_example = check_poison_iff [] shape fine shape-IsValid refl

encode-check_poison_example : encode [] shape fine ≡ ok (row_layout shape.fields fine)
encode-check_poison_example =
    encode-check_poison [] shape fine shape-IsValid (tt, (tt, tt)) fine_accepted
