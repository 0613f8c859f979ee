-- ===== src/Canon/Columns/Reading.antt =====
-- `decodeDescriptor` in canon/descriptor.go on bytes in the documented layout.
use icelake.Prelude.{ℕ, ◌≤◌, ◌≡◌, ℤ, pos, ◌≤ℤ◌, ◌<ℤ◌, refl, subst, sym, ap, ◌∙◌, true, false}
use icelake.Prelude.{List, [], ◌∷◌, ◌++◌, append_assoc, append-nil, length, inl, inr, All}
use icelake.Prelude.{
  be32, to_uint32, to_uint8, arith, Bool-cases, to_uint32-lt, to_uint32_pos, to_uint8_pos,
}
use icelake.Prelude.{length-append}
use icelake.Errdef.{Bytes, ok}
use icelake.Canon.Shape.{Kind, Field, tag, IsKnown, is_decimal, max_value_bytes, max_int32}
use icelake.Canon.Shape.{of_tag-tag}
use icelake.Canon.Cursor.{Cursor, cursor, remaining}
use icelake.Canon.Cursor.Reads.{
  rest, remaining-eq, Yields, byte_at-Reads, bytes-Reads, uint32-Reads,
}
use icelake.Canon.Columns.{read_id, read_kind, read_flags, read_digits, read_name}
use icelake.Canon.Columns.{read_field, read_fields, read_body, decode_descriptor, flags_of}
use icelake.Canon.Columns.Layout.{
  Digits, IsValid, digits_layout, field_layout, fields_layout, descriptor_layout,
}

-- Ids strictly ascending, the first above `previous`.
abbrev pub Ascends : ℤ → List Field → Type 0
Ascends previous [] = Unit
Ascends previous (f ∷ fs) = (previous <ℤ f.id) × Ascends f.id fs

read_id-Yields :
    (previous id : ℤ) (c : Cursor) (r : Bytes)
    → pos 1 ≤ℤ id
    → id ≤ℤ pos max_int32
    → previous <ℤ id
    → rest c ≡ be32 (to_uint32 id) ++ r
    → Yields (read_id previous c) (to_uint32 id) r
unfolding read_id
read_id-Yields previous id c r lo hi up h =
    let (c', read, left) = uint32-Reads c (to_uint32 id) r h (to_uint32-lt id) in
    let same = to_uint32_pos id (omega arith) (omega arith) in
    let lo' : pos 1 ≤ℤ pos (to_uint32 id) = subst (λ z. pos 1 ≤ℤ z) (sym same) lo in
    let hi' : pos (to_uint32 id) ≤ℤ pos max_int32 = subst (λ z. z ≤ℤ pos max_int32) (sym same) hi in
    let up' : previous <ℤ pos (to_uint32 id) = subst (λ z. previous <ℤ z) (sym same) up in
    (c', rw read (ground arith), left)

read_kind-Yields :
    (k : Kind) (c : Cursor) (r : Bytes) → IsKnown k → rest c ≡ tag k ∷ r → Yields (read_kind c) k r
unfolding read_kind
read_kind-Yields k c r known h =
    let (c', read, left) = byte_at-Reads c (tag k) r h in
    (c', rw read (rw (of_tag-tag k known) (rw known)), left)

read_flags-Yields :
    (f : Field) (c : Cursor) (r : Bytes)
    → rest c ≡ flags_of f ∷ r
    → Yields (read_flags c) f.required r
unfolding read_flags
read_flags-Yields f c r h =
    let (c', read, left) = byte_at-Reads c (flags_of f) r h in (c', rw read (ground arith), left)

read_digits_yields :
    (f : Field) (c : Cursor) (r : Bytes)
    → Digits (is_decimal f.kind) f.precision f.scale
    → rest c ≡ digits_layout f ++ r
    → (c' : Cursor) × (read_digits c f.kind ≡ ok (f.precision, f.scale, c')) × (rest c' ≡ r)
unfolding read_digits
read_digits_yields f c r digits h = elim (Bool-cases (is_decimal f.kind)) [
  | inl d ↦
      let (c1, read, left) =
        byte_at-Reads c (to_uint8 f.precision) (to_uint8 f.scale ∷ r) (ground arith) in
      let (c2, read', left') = byte_at-Reads c1 (to_uint8 f.scale) r left in
      let there : Digits true f.precision f.scale = rw d at digits in
      let precision = to_uint8_pos f.precision (omega (arith, there)) (omega (arith, there)) in
      let scale = to_uint8_pos f.scale (omega (arith, there)) (omega (arith, there)) in
      (c2, ground arith, left')
  | inr d ↦
      let none_ : Digits false f.precision f.scale = rw d at digits in
      (c, ground arith, ground arith)
]

read_name-Yields :
    (name : Bytes) (c : Cursor) (r : Bytes)
    → length name ≤ max_value_bytes
    → rest c ≡ be32 (length name) ++ (name ++ r)
    → Yields (read_name c) name r
unfolding read_name
read_name-Yields name c r short h =
    let (c1, read, left) = uint32-Reads c (length name) (name ++ r) h (omega arith) in
    let (c2, read', left') = bytes-Reads c1 name r (length name) left refl in
    (c2, rw read (rw read'), left')

read_field-Yields :
    (previous : ℤ) (f : Field) (c : Cursor) (r : Bytes)
    → IsValid f
    → previous <ℤ f.id
    → rest c ≡ field_layout f ++ r
    → Yields (read_field previous c) f r
unfolding read_field
read_field-Yields previous f c r v up h =
    let text = be32 (length f.name) ++ f.name in
    let (c1, id, left1) =
      read_id-Yields previous f.id c (tag f.kind ∷ flags_of f ∷ ((digits_layout f ++ text) ++ r))
        v.id_low v.id_high up (h ∙ append_assoc (be32 (to_uint32 f.id)) _ r) in
    let (c2, kind, left2) = read_kind-Yields f.kind c1 _ v.known left1 in
    let (c3, flags, left3) = read_flags-Yields f c2 _ left2 in
    let (c4, digits, left4) =
      read_digits_yields f c3 (text ++ r) v.digits
        (left3 ∙ append_assoc (digits_layout f) text r) in
    let (c5, name, left5) =
      read_name-Yields f.name c4 r v.short (left4 ∙ append_assoc (be32 (length f.name)) f.name r) in
    let same = to_uint32_pos f.id (omega (arith, v.id_low)) (omega (arith, v.id_high)) in
    (
      c5,
      rw id
          (rw kind (rw flags (rw digits (rw name (ap (λ i. ok (record f { id = i }, c5)) same))))),
      left5,
    )

read_fields-Yields :
    (fs : List Field) (previous : ℤ) (c : Cursor) (r : Bytes)
    → All IsValid fs
    → Ascends previous fs
    → rest c ≡ fields_layout fs ++ r
    → Yields (read_fields (length fs) previous c) fs r
unfolding read_fields
read_fields-Yields [] previous c r v up h = (c, refl, h)
read_fields-Yields (f ∷ fs) previous c r (v, vs) (up, ups) h =
    let (c1, read, left) =
      read_field-Yields previous f c (fields_layout fs ++ r) v up
        (h ∙ append_assoc (field_layout f) (fields_layout fs) r) in
    let (c2, reads, left') = read_fields-Yields fs f.id c1 r vs ups left in
    (c2, rw read (rw reads), left')

length-field_layout : (f : Field) → 1 ≤ length (field_layout f)
unfolding be32
length-field_layout f = omega arith

length-fields_layout : (fs : List Field) → length fs ≤ length (fields_layout fs)
length-fields_layout [] = omega arith
length-fields_layout (f ∷ fs) = omega (
  arith,
  length-field_layout f,
  length-append (field_layout f) (fields_layout fs),
  length-fields_layout fs,
)

read_body_passes :
    (count : ℕ) (c : Cursor) (fs : List Field) {c' : Cursor}
    → 1 ≤ count
    → count ≤ remaining c
    → read_fields count (pos 0) c ≡ ok (fs, c')
    → remaining c' ≡ 0
    → read_body count c ≡ ok fs
unfolding read_body
read_body_passes count c fs lo hi e done = ground arith

-- `decodeDescriptor` reads back the layout of one or more valid columns, at most `MaxValueBytes`, in
-- strictly ascending id order.
pub decode_descriptor-layout :
    (fs : List Field)
    → 1 ≤ length fs
    → length fs ≤ max_value_bytes
    → All IsValid fs
    → Ascends (pos 0) fs
    → decode_descriptor (descriptor_layout fs) ≡ ok fs
unfolding decode_descriptor
decode_descriptor-layout fs some_ few v up =
    let start : Cursor = cursor (descriptor_layout fs) in
    let (c1, version, left1) =
      byte_at-Reads start 0x01 (be32 (length fs) ++ fields_layout fs) refl in
    let (c2, count, left2) = uint32-Reads c1 (length fs) (fields_layout fs) left1 (omega arith) in
    let (c3, fields, left3) =
      read_fields-Yields fs (pos 0) c2 [] v up (left2 ∙ sym (append-nil (fields_layout fs))) in
    let room : length fs ≤ remaining c2 =
      omega (arith, remaining-eq c2, ap length left2, length-fields_layout fs) in
    let ended : remaining c3 ≡ 0 = omega (arith, remaining-eq c3, ap length left3) in
    rw version (rw count (read_body_passes _ c2 fs some_ room fields ended))
