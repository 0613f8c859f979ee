-- ===== src/Canon/Columns/Strict.antt =====
-- canon/descriptor.go: which bytes `decodeDescriptor` accepts.
use icelake.Prelude.{ℕ, zero, suc, ◌≤◌, ◌<◌, ◌≡◌, ℤ, pos, ◌<ℤ◌, refl, subst, ap, ◌∙◌, not, ◌==◌}
use icelake.Prelude.{List, [], ◌∷◌, ◌++◌, append_assoc, append-nil, length, inl, inr, All, some}
use icelake.Prelude.{be32, to_uint32, to_uint8, arith, Bool-cases, Option-cases, IsByte}
use icelake.Errdef.{Bytes, Result, ok, >>=-eq-ok, refuse_if, ◌>>◌}
use icelake.Canon.Shape.{Kind, Field, tag, of_tag, known_kind, IsKnown, is_decimal, max_value_bytes}
use icelake.Canon.Shape.{tag-of_tag, unknown, boolean}
use icelake.Canon.Cursor.{Cursor, cursor, remaining, advance, uint32}
use icelake.Canon.Cursor.Reads.{rest, byte_at_cases, bytes_cases, uint32_inv, rest-IsByte, no_rest}
use icelake.Canon.Columns.{read_id, read_kind, read_flags, read_digits, read_name}
use icelake.Canon.Columns.{
  read_field, read_fields, read_body, decode_descriptor, malformed, flags_of,
}
use icelake.Canon.Columns.Layout.{digits_layout, field_layout, fields_layout, descriptor_layout}
use icelake.Canon.Columns.Reading.{Ascends}

read_id_inv :
    (previous : ℤ) (c : Cursor) {id : ℕ} {c' : Cursor}
    → All IsByte (rest c)
    → read_id previous c ≡ ok (id, c')
    → (rest c ≡ be32 (to_uint32 (pos id)) ++ rest c') × (previous <ℤ pos id)
unfolding read_id
read_id_inv previous c {id} {c'} b h = elim (Option-cases (uint32 c)) [
  | inl e ↦ cc
  | inr ((n, c1), e) ↦
      let (left, small) = uint32_inv c b e in
      let same : n ≡ id = ground arith in
      let stop : c1 ≡ c' = ground arith in
      let wrap : to_uint32 (pos id) ≡ n = omega arith in (cc, ground arith)
]

known_kind-eq : (j : Kind) {k : Kind} → known_kind j ≡ some k → (j ≡ k) × IsKnown k
unfolding known_kind
known_kind-eq (unknown t) h = cc
known_kind-eq boolean h = (ground arith, cc)
known_kind-eq _ h = (ground arith, cc)

read_kind_inv :
    (c : Cursor) {k : Kind} {c' : Cursor}
    → read_kind c ≡ ok (k, c')
    → (rest c ≡ tag k ∷ rest c') × IsKnown k
unfolding read_kind
read_kind_inv c {k} {c'} h = elim (byte_at_cases c) [
  | inl (e, _) ↦ absurd (ground arith)
  | inr (t, e, left) ↦
      let known : known_kind (of_tag t) ≡ some k = ground arith in
      let (same, is_known) = known_kind-eq (of_tag t) known in
      let stop : advance c 1 ≡ c' = ground arith in (cc (tag-of_tag t), is_known)
]

read_flags_inv :
    (f : Field) (c : Cursor) {c' : Cursor}
    → read_flags c ≡ ok (f.required, c')
    → rest c ≡ flags_of f ∷ rest c'
unfolding read_flags
read_flags_inv f c {c'} h = elim (byte_at_cases c) [
  | inl (e, _) ↦ absurd (ground arith)
  | inr (x, e, left) ↦
      let stop : advance c 1 ≡ c' = ground arith in let flag : x ≡ flags_of f = ground arith in cc
]

byte_value : (n : ℕ) → n < 256 → to_uint8 (pos n) ≡ n
byte_value n h = omega arith

read_digits_inv :
    (f : Field) (c : Cursor) {c' : Cursor}
    → All IsByte (rest c)
    → read_digits c f.kind ≡ ok (f.precision, f.scale, c')
    → rest c ≡ digits_layout f ++ rest c'
unfolding read_digits
read_digits_inv f c {c'} b h = elim (Bool-cases (is_decimal f.kind)) [
  | inl d ↦ elim (byte_at_cases c) [
    | inl (e, _) ↦ absurd (ground arith)
    | inr (p, e, left) ↦ elim (byte_at_cases (advance c 1)) [
      | inl (e', _) ↦ absurd (ground arith)
      | inr (s, e', left') ↦
          let b1 = subst (All IsByte) left b in
          let b2 = subst (All IsByte) left' b1.1 in
          let precision : pos p ≡ f.precision = ground arith in
          let scale : pos s ≡ f.scale = ground arith in
          let stop : advance (advance c 1) 1 ≡ c' = ground arith in
          let p8 : to_uint8 f.precision ≡ p =
            subst (λ z. to_uint8 z ≡ p) precision (byte_value p b1.0) in
          let s8 : to_uint8 f.scale ≡ s = subst (λ z. to_uint8 z ≡ s) scale (byte_value s b2.0) in
          ground arith
    ]
  ]
  | inr d ↦ ground arith
]

read_name_inv :
    (c : Cursor) {name : Bytes} {c' : Cursor}
    → All IsByte (rest c)
    → read_name c ≡ ok (name, c')
    → rest c ≡ be32 (length name) ++ (name ++ rest c')
unfolding read_name
read_name_inv c {name} {c'} b h = elim (Option-cases (uint32 c)) [
  | inl e ↦ cc
  | inr ((n, c1), e) ↦
      let (left, small) = uint32_inv c b e in
      elim (bytes_cases c1 n) [
        | inl (e', _) ↦ cc
        | inr (xs, e', left', l) ↦
            let same : xs ≡ name = ground arith in let stop : advance c1 n ≡ c' = ground arith in cc
      ]
]

-- The slices that the reads of one column took, put together.
join :
    (a d n m r : Bytes) (t g : ℕ) {r0 r1 r2 r3 r4 : Bytes}
    → r0 ≡ a ++ r1
    → r1 ≡ t ∷ r2
    → r2 ≡ g ∷ r3
    → r3 ≡ d ++ r4
    → r4 ≡ n ++ (m ++ r)
    → r0 ≡ (a ++ (t ∷ g ∷ (d ++ (n ++ m)))) ++ r
join a d n m r t g e0 e1 e2 e3 e4 = rw (e0, e1, e2, e3, e4) (simp append_assoc)

read_field_inv :
    (previous : ℤ) (c : Cursor) {f : Field} {c' : Cursor}
    → All IsByte (rest c)
    → read_field previous c ≡ ok (f, c')
    → (rest c ≡ field_layout f ++ rest c') × (previous <ℤ f.id) × IsKnown f.kind
unfolding read_field
read_field_inv previous c {f} {c'} b h =
    let ((id, c1), e1, h1) = >>=-eq-ok (read_id previous c) _ h in
    let ((k, c2), e2, h2) = >>=-eq-ok (read_kind c1) _ h1 in
    let ((required, c3), e3, h3) = >>=-eq-ok (read_flags c2) _ h2 in
    let ((p, s, c4), e4, h4) = >>=-eq-ok (read_digits c3 k) _ h3 in
    let ((name, c5), e5, h5) = >>=-eq-ok (read_name c4) _ h4 in
    let g : Field = record {
      id = pos id;
      name = name;
      kind = k;
      precision = p;
      scale = s;
      required = required;
    } in
    let same : g ≡ f = ground arith in
    let stop : c5 ≡ c' = ground arith in
    let (left1, up) = read_id_inv previous c b e1 in
    let b1 = rest-IsByte (be32 (to_uint32 (pos id))) (rest c1) _ left1 b in
    let (left2, known) = read_kind_inv c1 e2 in
    let b2 = rest-IsByte (tag k ∷ []) (rest c2) _ left2 b1 in
    let left3 = read_flags_inv g c2 e3 in
    let b3 = rest-IsByte (flags_of g ∷ []) (rest c3) _ left3 b2 in
    let left4 = read_digits_inv g c3 b3 e4 in
    let left5 = read_name_inv c4 (rest-IsByte (digits_layout g) (rest c4) _ left4 b3) e5 in
    let whole : rest c ≡ field_layout g ++ rest c5 =
      join (be32 (to_uint32 (pos id))) (digits_layout g) (be32 (length name)) name (rest c5) (tag k)
        (flags_of g) left1 left2 left3 left4 left5 in
    subst (λ j. (rest c ≡ field_layout j ++ rest c') × (previous <ℤ j.id) × IsKnown j.kind) same
      (whole ∙ ap (λ d. field_layout g ++ rest d) stop, up, known)

read_fields_inv :
    (n : ℕ) (previous : ℤ) (c : Cursor) {fs : List Field} {c' : Cursor}
    → All IsByte (rest c)
    → read_fields n previous c ≡ ok (fs, c')
    → (rest c ≡ fields_layout fs ++ rest c') × (length fs ≡ n) × Ascends previous fs
unfolding read_fields
read_fields_inv zero previous c {fs} {c'} b h =
    let none_ : [] ≡ fs = ground arith in
    let stop : c ≡ c' = ground arith in
    subst (λ l. (rest c ≡ fields_layout l ++ rest c') × (length l ≡ zero) × Ascends previous l)
      none_ (ap rest stop, refl, tt)
read_fields_inv (suc n) previous c {fs} {c'} b h =
    let ((f, c1), e1, h1) = >>=-eq-ok (read_field previous c) _ h in
    let ((gs, c2), e2, h2) = >>=-eq-ok (read_fields n f.id c1) _ h1 in
    let all_ : f ∷ gs ≡ fs = ground arith in
    let stop : c2 ≡ c' = ground arith in
    let (left1, up, known) = read_field_inv previous c b e1 in
    let (left2, count, ups) =
      read_fields_inv n f.id c1 (rest-IsByte (field_layout f) (rest c1) _ left1 b) e2 in
    subst (λ l. (rest c ≡ fields_layout l ++ rest c') × (length l ≡ suc n) × Ascends previous l)
      all_
      (cc (append_assoc (field_layout f) (fields_layout gs) (rest c')), ap suc count, (up, ups))

abbrev finish : List Field × Cursor → Result (List Field)
finish p = refuse_if (not (remaining p.1 == 0)) malformed >> ok p.0

-- The bytes that `decodeDescriptor` accepts are the layout of the columns that it returns, of which
-- there is at least one and at most `MaxValueBytes`, in strictly ascending id order.
pub decode_descriptor_inv :
    (b : Bytes) {fs : List Field}
    → All IsByte b
    → decode_descriptor b ≡ ok fs
    → (b ≡ descriptor_layout fs)
      × (1 ≤ length fs)
      × (length fs ≤ max_value_bytes)
      × Ascends (pos 0) fs
unfolding decode_descriptor read_body
decode_descriptor_inv b {fs} bs h = elim (byte_at_cases (cursor b)) [
  | inl (e, _) ↦ absurd (ground arith)
  | inr (x, e, left) ↦
      let start : Cursor = advance (cursor b) 1 in
      elim (Option-cases (uint32 start)) [
        | inl e' ↦ absurd (ground arith)
        | inr ((n, c2), e') ↦
            let b1 = rest-IsByte (x ∷ []) (rest start) _ left bs in
            let (left1, small) = uint32_inv start b1 e' in
            let ((gs, c3), e3, h3) =
              >>=-eq-ok (read_fields n (pos 0) c2) finish {w = fs} (ground arith) in
            let same : gs ≡ fs = ground arith in
            let version : x ≡ 0x01 = ground arith in
            let b2 = rest-IsByte (be32 n) (rest c2) _ left1 b1 in
            let (left2, count, up) = read_fields_inv n (pos 0) c2 b2 e3 in
            let ended : rest c3 ≡ [] = no_rest c3 (ground arith) in
            let some_ : 1 ≤ n = ground arith in
            subst
              (λ l.
                (b ≡ descriptor_layout l)
                × (1 ≤ length l)
                × (length l ≤ max_value_bytes)
                × Ascends (pos 0) l)
              same
              (
                cc (append-nil (fields_layout gs)),
                omega (arith, count, some_),
                omega (arith, count, small),
                up,
              )
      ]
]
