-- ===== src/Canon/Remap/Shapes.antt =====
-- `CompatibleShapes` of canon/remap.go against the rule in its comment, and the refusals of `Remap`.
use icelake.Prelude.{In}
use icelake.Prelude.{◌≡◌, ℤ, true, false, Option, none, some, List, [], ◌∷◌, refl, sym, ◌∙◌}
use icelake.Prelude.{length, ==ℤ_iff, ==_iff, arith, inl, inr, ◌⊎◌, ◌↔◌, Bool-cases, All, subst}
use icelake.Errdef.{Bytes, Result, ok, err}
use icelake.Errdef.{staging_schema_error, field_required}
use icelake.Canon.Shape.{Field, Descriptor, tag}
use icelake.Canon.Record.{Value, Row}
use icelake.Canon.Remap.{
  same_type, has_id, check_removed, check_want, check_wants, compatible_shapes,
}
use icelake.Canon.Remap.{cell_at, remap_value, remap_column, remap_columns, remap}
use icelake.Canon.Remap.Lookup.{value_of, column_of, index_cases}

-- The target has a column with the id of `f`.
abbrev pub Keeps : List Field → Field → Type 0
Keeps to f = (g : Field) × (column_of to f.id ≡ some g)

abbrev SameType : Field → Field → Type 0
SameType have want =
    (tag have.kind ≡ tag want.kind) × (have.precision ≡ want.precision) × (have.scale ≡ want.scale)

-- The source has no such column and the target's is optional, or both have it at one type.
abbrev pub Accepts : List Field → Field → Type 0
Accepts from want =
    ((column_of from want.id ≡ none) × (want.required ≡ false))
    ⊎ ((have : Field) × (column_of from want.id ≡ some have) × SameType have want)

has_id_iff :
    (fs : List Field) (id : ℤ) → (has_id fs id ≡ true) ↔ ((g : Field) × (column_of fs id ≡ some g))
unfolding has_id
has_id_iff fs id = elim (index_cases fs id) [
  | inl (e, gone, _) ↦
      (λ h. absurd (ground (arith, e)), λ (g, found). absurd (ground (arith, gone, found)))
  | inr (i, g, (e, found, _, _, _)) ↦ (λ h. (g, found), λ _. ground (arith, e))
]

same_type_iff : (have want : Field) → (same_type have want ≡ true) ↔ SameType have want
unfolding same_type
same_type_iff have want = (
  λ h. (
    ground arith,
    (==ℤ_iff have.precision want.precision).0 (ground arith),
    (==ℤ_iff have.scale want.scale).0 (ground arith),
  ),
  λ s. ground (
    arith,
    s.0,
    (==ℤ_iff have.precision want.precision).1 s.1,
    (==ℤ_iff have.scale want.scale).1 s.2,
  ),
)

check_removed_iff :
    (table : Bytes) (to from : List Field)
    → (check_removed table to from ≡ ok tt) ↔ All (Keeps to) from
unfolding check_removed
check_removed_iff table to [] = (λ h. tt, λ h. refl)
check_removed_iff table to (f ∷ from) =
    let more = check_removed_iff table to from in
    let one = has_id_iff to f.id in
    (λ h. (one.0 (ground arith), more.0 (ground arith)), λ k. ground (arith, one.1 k.0, more.1 k.1))

check_want_iff :
    (table : Bytes) (from : List Field) (want : Field)
    → (check_want table from want ≡ ok tt) ↔ Accepts from want
unfolding check_want
check_want_iff table from want = elim (index_cases from want.id) [
  | inl (e, gone, _) ↦ (
    λ h. inl (gone, ground (arith, e)),
    λ a. elim a [
      | inl (_, optional) ↦ ground (arith, e, optional)
      | inr (have, found, _) ↦ absurd (ground (arith, gone, found))
    ],
  )
  | inr (i, f, (e, found, at_, _, _)) ↦ (
    λ h. inr (f, found, (same_type_iff f want).0 (ground (arith, e, at_))),
    λ a. elim a [
      | inl (gone, _) ↦ absurd (ground (arith, gone, found))
      | inr (have, found', same) ↦
          let here : have ≡ f = ground (arith, found, found') in
          let typed = (same_type_iff f want).1 (subst (λ x. SameType x want) here same) in
          ground (arith, e, at_, typed)
    ],
  )
]

check_wants_iff :
    (table : Bytes) (from to : List Field)
    → (check_wants table from to ≡ ok tt) ↔ All (Accepts from) to
unfolding check_wants
check_wants_iff table from [] = (λ h. tt, λ h. refl)
check_wants_iff table from (want ∷ to) =
    let one = check_want_iff table from want in
    let more = check_wants_iff table from to in
    (λ h. (one.0 (ground arith), more.0 (ground arith)), λ a. ground (arith, one.1 a.0, more.1 a.1))

-- `CompatibleShapes` passes exactly when the target has every column id of the source and each of its
-- own columns either is optional with an id that the source lacks, or has the kind, precision and
-- scale of the source's column with its id.
pub compatible_shapes_iff :
    (table : Bytes) (from to : Descriptor)
    → (compatible_shapes table from to ≡ ok tt)
      ↔ All (Keeps to.fields) from.fields × All (Accepts from.fields) to.fields
unfolding compatible_shapes
compatible_shapes_iff table from to =
    let kept = check_removed_iff table to.fields from.fields in
    let wanted = check_wants_iff table from.fields to.fields in
    (
      λ h. (kept.0 (ground arith), wanted.0 (ground arith)),
      λ a. ground (arith, kept.1 a.0, wanted.1 a.1),
    )

-- The refusal that compatible shapes leave: a required column whose id has no value in the row.
abbrev pub LacksRequired : Bytes → List Field → List Field → Row → Result Row → Type 0
LacksRequired table from to row result =
    (want : Field) × In want to
    × (want.required ≡ true)
    × (value_of from row want.id ≡ none)
    × (result ≡ err (staging_schema_error table want.id field_required))

remap_value_cases :
    (table : Bytes) (want : Field) (v : Option Value)
    → (remap_value table want v ≡ ok v)
      ⊎ ((v ≡ none)
          × (want.required ≡ true)
          × (remap_value table want v ≡ err (staging_schema_error table want.id field_required)))
unfolding remap_value
remap_value_cases table want (some v) = inl refl
remap_value_cases table want none = elim (Bool-cases want.required) [
  | inl req ↦ inr (refl, req, rw req)
  | inr opt ↦ inl (rw opt)
]

remap_column_cases :
    (table : Bytes) (from : List Field) (row : Row) (want : Field)
    → length row ≡ length from
    → ((v : Option Value) × (remap_column table from row want ≡ ok v))
      ⊎ ((want.required ≡ true)
          × (value_of from row want.id ≡ none)
          × (remap_column table from row want
              ≡ err (staging_schema_error table want.id field_required)))
unfolding remap_column
remap_column_cases table from row want l = elim (index_cases from want.id) [
  | inl (e, _, _) ↦ inl (none, ground (arith, e))
  | inr (i, f, (e, _, _, _, cell)) ↦ elim (remap_value_cases table want (cell_at row i)) [
    | inl kept ↦ inl (cell_at row i, ground (arith, e, kept))
    | inr (null, req, refused) ↦ inr (req, sym (cell row l) ∙ null, ground (arith, e, refused))
  ]
]

remap_columns_cases :
    (table : Bytes) (from : List Field) (row : Row) (to : List Field)
    → length row ≡ length from
    → ((out : Row) × (remap_columns table from row to ≡ ok out))
      ⊎ LacksRequired table from to row (remap_columns table from row to)
unfolding remap_columns
remap_columns_cases table from row [] l = inl ([], refl)
remap_columns_cases table from row (want ∷ to) l = elim (remap_column_cases table from row want l) [
  | inr (req, null, refused) ↦ inr (want, inl refl, req, null, rw refused)
  | inl (v, e) ↦ elim (remap_columns_cases table from row to l) [
    | inl (vs, es) ↦ inl (v ∷ vs, rw (e, es))
    | inr (w, there, req, null, refused) ↦ inr (w, inr there, req, null, rw (e, refused))
  ]
]

-- Between compatible shapes, `Remap` of a row of the source's length either succeeds or refuses with
-- `field_required` at a required target column for whose id the row has no value.
pub remap_cases :
    (table : Bytes) (from to : Descriptor) (row : Row)
    → length row ≡ length from.fields
    → compatible_shapes table from to ≡ ok tt
    → ((out : Row) × (remap table from to row ≡ ok out))
      ⊎ LacksRequired table from.fields to.fields row (remap table from to row)
unfolding remap
remap_cases table from to row l c =
    let same = (==_iff (length row) (length from.fields)).1 l in
    elim (remap_columns_cases table from.fields row to.fields l) [
      | inl (out, e) ↦ inl (out, rw same (rw c e))
      | inr (w, there, req, null, refused) ↦ inr (w, there, req, null, rw same (rw c refused))
    ]
