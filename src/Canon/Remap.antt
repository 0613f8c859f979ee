-- ===== src/Canon/Remap.antt =====
-- internal/canon/remap.go: moving a row decoded under one recorded shape onto another by permanent
-- field id, and re-encoding a stored payload.
pub mod Lookup
pub mod Meaning
pub mod Shapes
pub mod Transcoding
use icelake.Prelude.{
  ℕ, zero, suc, ℤ, pos, Bool, true, false, not, ◌||◌, Option, none, some, List, [], ◌∷◌,
}
use icelake.Prelude.{length, ◌==◌, ◌==ℤ◌, if◌then◌else◌}
use icelake.Errdef.{
  Bytes, Error, staging_schema_error, StagingSchemaKind, field_removed, field_required,
}
use icelake.Errdef.{
  field_retyped, encoding_error, value, Result, ok, err, need, refuse_if, ◌>>=◌, ◌>>◌,
}
use icelake.Canon.Shape.{Kind, Field, Descriptor, tag}
use icelake.Canon.Record.{Value, Row, row_error, encode, decode}
use icelake.Canon.Descriptor.{index_of_field_id}

-- Go's `have.Kind != want.Kind || have.Precision != want.Precision || have.Scale != want.Scale`.
unfoldable pub same_type : Field → Field → Bool
same_type have want =
    if tag have.kind == tag want.kind
    then (if have.precision ==ℤ want.precision then have.scale ==ℤ want.scale else false)
    else false

unfoldable pub has_id : List Field → ℤ → Bool
has_id fs id = elim (index_of_field_id fs id) [ none ↦ false | some i ↦ true ]

-- The first loop: no column of the source shape may be missing from the target.
unfoldable pub check_removed : Bytes → List Field → List Field → Result (Unit {0})
check_removed table to [] = ok tt
check_removed table to (f ∷ from) = do
  refuse_if (not (has_id to f.id)) (staging_schema_error table f.id field_removed)
  check_removed table to from

-- `from.fields[j]`; an index from the same slice is in range.
unfoldable pub field_at : List Field → ℕ → Option Field
field_at [] i = none
field_at (f ∷ fs) zero = some f
field_at (f ∷ fs) (suc i) = field_at fs i

unfoldable pub check_want : Bytes → List Field → Field → Result (Unit {0})
check_want table from want = elim (index_of_field_id from want.id) [
  | none ↦ refuse_if want.required (staging_schema_error table want.id field_required)
  | some j ↦ do
    have ← need (field_at from j) (staging_schema_error table want.id field_retyped)
    refuse_if (not (same_type have want)) (staging_schema_error table want.id field_retyped)
]

-- The second loop, over the target shape.
unfoldable pub check_wants : Bytes → List Field → List Field → Result (Unit {0})
check_wants table from [] = ok tt
check_wants table from (want ∷ to) = do check_want table from want; check_wants table from to

unfoldable pub compatible_shapes : Bytes → Descriptor → Descriptor → Result (Unit {0})
compatible_shapes table from to = do
  check_removed table to.fields from.fields
  check_wants table from.fields to.fields

-- `row[j]`; the row is as long as the source shape.
unfoldable pub cell_at : Row → ℕ → Option Value
cell_at [] i = none
cell_at (v ∷ row) zero = v
cell_at (v ∷ row) (suc i) = cell_at row i

unfoldable pub remap_value : Bytes → Field → Option Value → Result (Option Value)
remap_value table want none =
    if want.required then err (staging_schema_error table want.id field_required) else ok none
remap_value table want (some v) = ok (some v)

unfoldable pub remap_column : Bytes → List Field → Row → Field → Result (Option Value)
remap_column table from row want = elim (index_of_field_id from want.id) [
  | none ↦ ok none
  | some j ↦ remap_value table want (cell_at row j)
]

unfoldable pub remap_columns : Bytes → List Field → Row → List Field → Result Row
remap_columns table from row [] = ok []
remap_columns table from row (want ∷ to) = do
  v ← remap_column table from row want
  out ← remap_columns table from row to
  ok (v ∷ out)

unfoldable pub remap : Bytes → Descriptor → Descriptor → Row → Result Row
remap table from to row = do
  refuse_if (not (length row == length from.fields)) (row_error table)
  compatible_shapes table from to
  remap_columns table from.fields row to.fields

unfoldable pub transcode : Bytes → Descriptor → Descriptor → Bytes → Result Bytes
transcode table from to payload = do
  row ← decode table from payload
  remapped ← remap table from to row
  encode table to remapped
