-- ===== src/Canon/Columns/Layout.antt =====
-- internal/canon/doc.go, "Descriptor layout": the documented bytes of a shape, and which columns are
-- valid; `newDescriptor` and `encodeDescriptor` against them.
use icelake.Prelude.{◌≤◌, ◌≡◌, ℤ, pos, ◌≤ℤ◌, refl, sym, ◌∙◌, ◌↔◌, Bool, true, false, Bool-cases}
use icelake.Prelude.{
  List, [], ◌∷◌, ◌++◌, append_assoc, append-nil, length, if◌then◌else◌, inl, inr, All,
}
use icelake.Prelude.{be32, to_uint32, to_uint8, arith}
use icelake.Errdef.{Bytes, ok, >>=-eq-ok}
use icelake.Canon.Shape.{Field, tag, known_kind, IsKnown, is_decimal, max_value_bytes, max_int32}
use icelake.Canon.Columns.{
  check_decimal, check_digits, check_field, check_fields, is_empty, flags_of,
}
use icelake.Canon.Columns.{append_digits, append_field, append_fields, encode_descriptor}

-- Precision and scale of a decimal column, and their absence elsewhere.
abbrev pub Digits : Bool → ℤ → ℤ → Type 0
Digits true p s = (pos 1 ≤ℤ p) × (p ≤ℤ pos 18) × (pos 0 ≤ℤ s) × (s ≤ℤ p)
Digits false p s = (p ≡ pos 0) × (s ≡ pos 0)

pub record IsValid (f : Field) : Type 0 where
  pub id_low : pos 1 ≤ℤ f.id
  pub id_high : f.id ≤ℤ pos max_int32
  pub named : 1 ≤ length f.name
  pub short : length f.name ≤ max_value_bytes
  pub known : IsKnown f.kind
  pub digits : Digits (is_decimal f.kind) f.precision f.scale

check_digits_valid :
    (table : Bytes) (f : Field)
    → (check_digits table f ≡ ok tt) ↔ Digits (is_decimal f.kind) f.precision f.scale
unfolding check_digits check_decimal
check_digits_valid table f = elim (Bool-cases (is_decimal f.kind)) [
  | inl d ↦ rw d (λ h. ground arith, λ h. ground arith)
  | inr d ↦ rw d (λ h. ground arith, λ h. ground arith)
]

check_field-IsValid : (table : Bytes) (f : Field) → (check_field table f ≡ ok tt) ↔ IsValid f
unfolding check_field is_empty known_kind
check_field-IsValid table f = (
  λ h. record {
    id_low = ground arith;
    id_high = ground arith;
    named = ground arith;
    short = ground arith;
    known = ground arith;
    digits = (check_digits_valid table f).0 (ground arith);
  },
  λ v. ground (arith, v.known, (check_digits_valid table f).1 v.digits),
)

-- The validation of `newDescriptor` passes exactly where every column is valid: an id from 1 to the
-- largest int32, a non-empty name of an encodable length, a known kind, and a precision from 1 to 18
-- with a scale from 0 to it on a decimal column, or zeros on another.
pub check_fields-IsValid :
    (table : Bytes) (fs : List Field) → (check_fields table fs ≡ ok tt) ↔ All IsValid fs
unfolding check_fields
check_fields-IsValid table [] = (λ h. tt, λ h. refl)
check_fields-IsValid table (f ∷ fs) =
    let one = check_field-IsValid table f in
    let more = check_fields-IsValid table fs in
    (
      λ h.
          let (u, e, e') =
            >>=-eq-ok (check_field table f) (λ _. check_fields table fs) {w = tt} h in
          (one.0 e, more.0 e'),
      λ v. rw (one.1 v.0) (more.1 v.1),
    )

abbrev pub digits_layout : Field → Bytes
digits_layout f = if is_decimal f.kind then to_uint8 f.precision ∷ to_uint8 f.scale ∷ [] else []

-- Four bytes of id, the tag, the flags, the digits, four bytes of name length, the name.
abbrev pub field_layout : Field → Bytes
field_layout f =
    be32 (to_uint32 f.id)
    ++ (tag f.kind ∷ flags_of f ∷ (digits_layout f ++ (be32 (length f.name) ++ f.name)))

abbrev pub fields_layout : List Field → Bytes
fields_layout [] = []
fields_layout (f ∷ fs) = field_layout f ++ fields_layout fs

-- The version, the column count, then the columns.
abbrev pub descriptor_layout : List Field → Bytes
descriptor_layout fs = 0x01 ∷ (be32 (length fs) ++ fields_layout fs)

append_field-layout : (out : Bytes) (f : Field) → append_field out f ≡ out ++ field_layout f
unfolding append_field append_digits
append_field-layout out f = elim (Bool-cases (is_decimal f.kind)) [
  | inl d ↦ rw d (simp append_assoc)
  | inr d ↦ rw d (simp append_assoc)
]

append_fields-layout :
    (out : Bytes) (fs : List Field) → append_fields out fs ≡ out ++ fields_layout fs
unfolding append_fields
append_fields-layout out [] = sym (append-nil out)
append_fields-layout out (f ∷ fs) =
    append_fields-layout (append_field out f) fs
    ∙ rw (append_field-layout out f) (append_assoc out (field_layout f) (fields_layout fs))

-- `encodeDescriptor` writes the documented layout.
pub encode_descriptor-layout : (fs : List Field) → encode_descriptor fs ≡ descriptor_layout fs
unfolding encode_descriptor
encode_descriptor-layout fs = append_fields-layout (0x01 ∷ be32 (length fs)) fs
