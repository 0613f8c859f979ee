-- ===== src/Canon/Iceberg.antt =====
-- internal/canon/descriptor.go: `describeField` and `IcebergFields`, between an Iceberg column and a
-- canonical one. The Iceberg types are iceberg-go's, as far as the two switches read them.
pub mod Inverse
use icelake.Prelude.{ℤ, pos, Bool}
use icelake.Prelude.{Option, none, some, List, [], ◌∷◌}
use icelake.Errdef.{Bytes, encoding_error, unsupported_type}
use icelake.Errdef.{Result, ok, need, ◌>>=◌}
use icelake.Canon.Shape.{
  Kind, boolean, int, long, float, double, decimal, timestamp_tz, string, binary,
}
use icelake.Canon.Shape.{unknown, Field}

-- iceberg-go's column, as far as this package reads one: `other_type` is every type that the
-- switch of `describeField` has no case for.
pub data IcebergType : Type 0 where
  boolean_type int32_type int64_type float32_type float64_type : IcebergType
  string_type binary_type timestamp_tz_type other_type : IcebergType
  decimal_type : ℤ → ℤ → IcebergType

pub record NestedField : Type 0 where
  pub id : ℤ
  pub name : Bytes
  pub field_type : IcebergType
  pub required : Bool

-- The canonical kind of a type with its precision and scale.
unfoldable pub kind_of : IcebergType → Option (Kind × ℤ × ℤ)
kind_of boolean_type = some (boolean, pos 0, pos 0)
kind_of int32_type = some (int, pos 0, pos 0)
kind_of int64_type = some (long, pos 0, pos 0)
kind_of float32_type = some (float, pos 0, pos 0)
kind_of float64_type = some (double, pos 0, pos 0)
kind_of string_type = some (string, pos 0, pos 0)
kind_of binary_type = some (binary, pos 0, pos 0)
kind_of timestamp_tz_type = some (timestamp_tz, pos 0, pos 0)
kind_of (decimal_type precision scale) = some (decimal, precision, scale)
kind_of other_type = none

unfoldable pub describe_field : Bytes → NestedField → Result Field
describe_field table nf = do
  (k, p, s) ← need (kind_of nf.field_type) (encoding_error unsupported_type table nf.name nf.id)
  ok (record {
    id = nf.id;
    name = nf.name;
    kind = k;
    precision = p;
    scale = s;
    required = nf.required;
  })

unfoldable pub describe_fields : Bytes → List NestedField → Result (List Field)
describe_fields table [] = ok []
describe_fields table (nf ∷ src) = do
  f ← describe_field table nf
  fields ← describe_fields table src
  ok (f ∷ fields)

-- The inverse mapping. A kind outside the nine leaves Go's nil type, `other_type` here.
pub iceberg_type : Kind → ℤ → ℤ → IcebergType
iceberg_type boolean p s = boolean_type
iceberg_type int p s = int32_type
iceberg_type long p s = int64_type
iceberg_type float p s = float32_type
iceberg_type double p s = float64_type
iceberg_type decimal p s = decimal_type p s
iceberg_type timestamp_tz p s = timestamp_tz_type
iceberg_type string p s = string_type
iceberg_type binary p s = binary_type
iceberg_type (unknown t) p s = other_type

abbrev pub iceberg_field : Field → NestedField
iceberg_field f = record {
  id = f.id;
  name = f.name;
  field_type = iceberg_type f.kind f.precision f.scale;
  required = f.required;
}

pub iceberg_fields : List Field → List NestedField
iceberg_fields [] = []
iceberg_fields (f ∷ fs) = iceberg_field f ∷ iceberg_fields fs
