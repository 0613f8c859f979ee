-- ===== src/Canon/Remap/Meaning.antt =====
-- canon/remap.go: what `Remap` does to a row, read by field id.
use icelake.Prelude.{◌≡◌, ℤ, true, false, Option, none, some, List, [], ◌∷◌, refl, sym, ap, ◌∙◌}
use icelake.Prelude.{length, ◌==ℤ◌, ==ℤ_iff, if◌then◌else◌, arith, inl, inr, ◌⊎◌, Bool-cases, subst}
use icelake.Errdef.{Bytes, ok, >>=-eq-ok, ok-injective}
use icelake.Canon.Shape.{Kind, Field, Descriptor, tag, of_tag, of_tag-tag, IsKnown, known_kind}
use icelake.Canon.Record.{Value, Row}
use icelake.Canon.Record.Layout.{Holds, HoldsCell, Fits, hold_boolean, hold_int, hold_long}
use icelake.Canon.Record.Layout.{
  hold_float, hold_double, hold_decimal, hold_timestamp_tz, hold_string,
}
use icelake.Canon.Record.Layout.{hold_binary}
use icelake.Canon.Record.Strict.{AllKnown}
use icelake.Canon.Descriptor.{index_of_field_id}
use icelake.Canon.Remap.{
  same_type, has_id, check_removed, check_want, check_wants, compatible_shapes,
}
use icelake.Canon.Remap.{cell_at, remap_value, remap_column, remap_columns, remap}
use icelake.Canon.Remap.Lookup.{value_of, column_of, IsAbsent, index_cases}

has_id_cons :
    (f : Field) (fs : List Field) (id : ℤ)
    → has_id (f ∷ fs) id ≡ (if f.id ==ℤ id then true else has_id fs id)
unfolding has_id index_of_field_id
has_id_cons f fs id = ground arith

remap_value_inv :
    (table : Bytes) (want : Field) (cell : Option Value) {v : Option Value}
    → remap_value table want cell ≡ ok v
    → (v ≡ cell) × (v ≡ none → want.required ≡ false)
unfolding remap_value
remap_value_inv table want none h = (ground arith, λ e. ground arith)
remap_value_inv table want (some w) h = (ground arith, λ e. ground arith)

-- A remapped cell is the source row's value for the column's id.
pub remap_column_inv :
    (table : Bytes) (from : List Field) (row : Row) (want : Field) {v : Option Value}
    → length row ≡ length from
    → remap_column table from row want ≡ ok v
    → (v ≡ value_of from row want.id) × (IsAbsent from want.id ⊎ (v ≡ none → want.required ≡ false))
unfolding remap_column
remap_column_inv table from row want {v} l h = elim (index_cases from want.id) [
  | inl (e, gone, lost) ↦ (ground (arith, lost row), inl (e, gone, lost))
  | inr (i, f, (e, _, _, _, cell)) ↦
      let picked : remap_value table want (cell_at row i) ≡ ok v = ground arith in
      let (same, req) = remap_value_inv table want (cell_at row i) picked in
      (same ∙ cell row l, inr req)
]

value_of-cons :
    (from : List Field) (row : Row) (want : Field) (to : List Field) (v : Option Value) (vs : Row)
    (id : ℤ)
    → v ≡ value_of from row want.id
    → value_of to vs id ≡ (if has_id to id then value_of from row id else none)
    → value_of (want ∷ to) (v ∷ vs) id
      ≡ (if has_id (want ∷ to) id then value_of from row id else none)
value_of-cons from row want to v vs id same ih = elim (Bool-cases (want.id ==ℤ id)) [
  | inl e ↦
      rw (has_id_cons want to id, e)
        (unfold value_of in rw e (same ∙ ap (value_of from row) ((==ℤ_iff want.id id).0 e)))
  | inr e ↦ rw (has_id_cons want to id, e) (unfold value_of in rw e ih)
]

remap_columns_inv :
    (table : Bytes) (from : List Field) (row : Row) (to : List Field) {out : Row} (id : ℤ)
    → length row ≡ length from
    → remap_columns table from row to ≡ ok out
    → value_of to out id ≡ (if has_id to id then value_of from row id else none)
unfolding remap_columns
remap_columns_inv table from row [] {out} id l h = unfold value_of has_id index_of_field_id in refl
remap_columns_inv table from row (want ∷ to) {out} id l h =
    let (v, e1, h1) = >>=-eq-ok (remap_column table from row want) _ {w = out} h in
    let (vs, e2, h2) = >>=-eq-ok (remap_columns table from row to) _ {w = out} h1 in
    let (same, _) = remap_column_inv table from row want l e1 in
    let ih = remap_columns_inv table from row to id l e2 in
    subst
      (λ o.
        value_of (want ∷ to) o id ≡ (if has_id (want ∷ to) id then value_of from row id else none))
      (ok-injective h2) (value_of-cons from row want to v vs id same ih)

-- A source shape with no removed column has no value outside the target's ids.
check_removed_keeps :
    (table : Bytes) (to from : List Field) (row : Row) (id : ℤ)
    → check_removed table to from ≡ ok tt
    → has_id to id ≡ false
    → value_of from row id ≡ none
unfolding check_removed value_of
check_removed_keeps table to [] row id h e = refl
check_removed_keeps table to (f ∷ from) [] id h e = refl
check_removed_keeps table to (f ∷ from) (v ∷ row) id h e = elim (Bool-cases (f.id ==ℤ id)) [
  | inl same ↦ let present : has_id to f.id ≡ true = ground arith in cc ((==ℤ_iff f.id id).0 same)
  | inr other ↦ rw other (check_removed_keeps table to from row id (ground arith) e)
]

Fits-column_of :
    (from : List Field) (row : Row) (id : ℤ) {f : Field}
    → Fits from row
    → column_of from id ≡ some f
    → HoldsCell f (value_of from row id)
unfolding column_of value_of
Fits-column_of [] row id h e = cc
Fits-column_of (g ∷ from) [] id h e = absurd h
Fits-column_of (g ∷ from) (v ∷ row) id {f} (h, hs) e = elim (Bool-cases (g.id ==ℤ id)) [
  | inl same ↦ let here : g ≡ f = ground arith in rw same (subst (λ x. HoldsCell x v) here h)
  | inr other ↦ rw other (Fits-column_of from row id {f = f} hs (ground arith))
]

-- The check of one target column against the source shape, on both branches.
check_want_inv :
    (table : Bytes) (from : List Field) (want : Field)
    → IsKnown want.kind
    → check_want table from want ≡ ok tt
    → (IsAbsent from want.id × (want.required ≡ false))
      ⊎ ((f : Field) × (column_of from want.id ≡ some f) × (tag f.kind ≡ tag want.kind))
unfolding check_want same_type
check_want_inv table from want known h = elim (index_cases from want.id) [
  | inl gone ↦ inl (gone, ground (arith, gone.0))
  | inr (i, f, (e, found, at_, _, _)) ↦ inr (f, found, ground (arith, e, at_))
]

tag-injective : (j k : Kind) → IsKnown j → IsKnown k → tag j ≡ tag k → j ≡ k
tag-injective j k hj hk e = sym (of_tag-tag j hj) ∙ ap of_tag e ∙ of_tag-tag k hk

-- A column's kind is known where a row has a value in it.
Holds-IsKnown : {k : Kind} {v : Value} → Holds k v → IsKnown k
unfolding known_kind
Holds-IsKnown (hold_boolean b) = refl
Holds-IsKnown (hold_int z) = refl
Holds-IsKnown (hold_long z) = refl
Holds-IsKnown (hold_float n) = refl
Holds-IsKnown (hold_double n) = refl
Holds-IsKnown (hold_decimal z) = refl
Holds-IsKnown (hold_timestamp_tz z) = refl
Holds-IsKnown (hold_string s h) = refl
Holds-IsKnown (hold_binary s h) = refl

retype :
    (f want : Field) (v : Option Value)
    → IsKnown want.kind
    → tag f.kind ≡ tag want.kind
    → (v ≡ none → want.required ≡ false)
    → HoldsCell f v
    → HoldsCell want v
retype f want none known e req h = req refl
retype f want (some v) known e req h =
    subst (λ k. Holds k v) (tag-injective f.kind want.kind (Holds-IsKnown h) known e) h

remap_column-HoldsCell :
    (table : Bytes) (from : List Field) (row : Row) (want : Field) {v : Option Value}
    → Fits from row
    → length row ≡ length from
    → IsKnown want.kind
    → check_want table from want ≡ ok tt
    → remap_column table from row want ≡ ok v
    → HoldsCell want v
remap_column-HoldsCell table from row want {v} fits l known check h =
    let (same, null) = remap_column_inv table from row want l h in
    elim (check_want_inv table from want known check) [
      | inl (absent, optional) ↦ subst (HoldsCell want) (sym (same ∙ absent.2 row)) optional
      | inr (f, found, tags) ↦ elim null [
        | inl absent ↦ absurd (clash (absent.1) found)
        | inr req ↦
            retype f want v known tags req
              (subst (HoldsCell f) (sym same) (Fits-column_of from row want.id fits found))
      ]
    ]
  where
    clash : {f : Field} → column_of from want.id ≡ none → column_of from want.id ≡ some f → ⊥
    clash a b = cc

remap_columns-Fits :
    (table : Bytes) (from : List Field) (row : Row) (to : List Field) {out : Row}
    → Fits from row
    → length row ≡ length from
    → AllKnown to
    → check_wants table from to ≡ ok tt
    → remap_columns table from row to ≡ ok out
    → Fits to out
unfolding remap_columns check_wants
remap_columns-Fits table from row [] {out} fits l known checked h =
    subst (Fits []) (ok-injective h) tt
remap_columns-Fits table from row (want ∷ to) {out} fits l (k, ks) checked h =
    let (v, e1, h1) = >>=-eq-ok (remap_column table from row want) _ {w = out} h in
    let (vs, e2, h2) = >>=-eq-ok (remap_columns table from row to) _ {w = out} h1 in
    let (same, null) = remap_column_inv table from row want l e1 in
    let check : check_want table from want ≡ ok tt = ground arith in
    let more : check_wants table from to ≡ ok tt = ground arith in
    let rest = remap_columns-Fits table from row to fits l ks more e2 in
    subst (Fits (want ∷ to)) (ok-injective h2)
      (remap_column-HoldsCell table from row want fits l k check e1, rest)

-- The parts of a successful `Remap`.
pub remap_inv :
    (table : Bytes) (from to : Descriptor) (row : Row) {out : Row}
    → remap table from to row ≡ ok out
    → (length row ≡ length from.fields)
      × (check_removed table to.fields from.fields ≡ ok tt)
      × (check_wants table from.fields to.fields ≡ ok tt)
      × (remap_columns table from.fields row to.fields ≡ ok out)
unfolding remap compatible_shapes
remap_inv table from to row h = (ground arith, ground arith, ground arith, ground arith)

-- In what `Remap` returns, every field id has the value that it has in the row given, null where a
-- shape has no column of the id.
pub value_of-remap :
    (table : Bytes) (from to : Descriptor) (row out : Row) (id : ℤ)
    → remap table from to row ≡ ok out
    → value_of to.fields out id ≡ value_of from.fields row id
value_of-remap table from to row out id h =
    let (l, removed, _, moved) = remap_inv table from to row h in
    let kept = remap_columns_inv table from.fields row to.fields id l moved in
    elim (Bool-cases (has_id to.fields id)) [
      | inl there ↦ rw there at kept
      | inr gone ↦
          rw gone at kept
          ∙ sym (check_removed_keeps table to.fields from.fields row id removed gone)
    ]

-- What `Remap` returns for a row that fits the source shape fits the target shape, whose kinds are
-- known: no required column is null and every value has its column's type.
pub remap-Fits :
    (table : Bytes) (from to : Descriptor) (row out : Row)
    → AllKnown to.fields
    → Fits from.fields row
    → remap table from to row ≡ ok out
    → Fits to.fields out
remap-Fits table from to row out known fits h =
    let (l, _, checked, moved) = remap_inv table from to row h in
    remap_columns-Fits table from.fields row to.fields fits l known checked moved
