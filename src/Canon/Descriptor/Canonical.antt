-- ===== src/Canon/Descriptor/Canonical.antt =====
-- canon/descriptor.go: the canonical form of a `Descriptor`, and its constructors.
use icelake.Prelude.{◌≤◌, ◌≡◌, pos, ◌≤ℤ◌, refl, subst, false, ◌==◌}
use icelake.Prelude.{List, [], ◌∷◌, length, All, arith, ltb}
use icelake.Prelude.{IsByte, bytes_eq→eq, bytes_eq_refl}
use icelake.Errdef.{Bytes, Result, ok, >>=-eq-ok, refuse_if, ok-injective, ◌>>◌}
use icelake.Canon.Shape.{Field, Descriptor, max_value_bytes}
use icelake.Canon.Iceberg.{NestedField, describe_fields, iceberg_fields}
use icelake.Canon.Iceberg.Inverse.{length-describe_fields, describe_fields-iceberg_fields}
use icelake.Canon.Columns.{check_fields, decode_descriptor, unsupported}
use icelake.Canon.Columns.Layout.{
  IsValid, check_fields-IsValid, descriptor_layout, encode_descriptor-layout,
}
use icelake.Canon.Columns.Reading.{Ascends, decode_descriptor-layout}
use icelake.Canon.Columns.Strict.{decode_descriptor_inv}
use icelake.Canon.Descriptor.{
  sort_fields, check_unique_ids, new_descriptor, parse_descriptor, from_fields,
}
use icelake.Canon.Descriptor.{fingerprint}
use icelake.Canon.Descriptor.Sorting.{
  sort_fields-Ascends, Ascends-check_unique_ids, sort_fields_ascending,
}
use icelake.Canon.Descriptor.Sorting.{length-sort_fields}

-- What a `Descriptor` promises: one or more valid columns in ascending id order, with the
-- documented bytes, and the fingerprint of those bytes.
pub record IsCanonical (sha256_hex : Bytes → Bytes) (d : Descriptor) : Type 0 where
  pub nonempty : 1 ≤ length d.fields
  pub few : length d.fields ≤ max_value_bytes
  pub valid : All IsValid d.fields
  pub ascends : Ascends (pos 0) d.fields
  pub bytes : d.encoded ≡ descriptor_layout d.fields
  pub named : d.fp ≡ fingerprint sha256_hex d.encoded

All-id_low : (fs : List Field) → All IsValid fs → All (λ f. pos 1 ≤ℤ f.id) fs
All-id_low [] h = tt
All-id_low (f ∷ fs) (v, vs) = (v.id_low, All-id_low fs vs)

module _ (sha256_hex : Bytes → Bytes) where
  new_descriptor-IsValid :
      (table : Bytes) (fs : List Field) {d : Descriptor}
      → new_descriptor sha256_hex table fs ≡ ok d
      → All IsValid fs
  unfolding new_descriptor
  new_descriptor-IsValid table fs {d} h =
      let checked : check_fields table fs ≡ ok tt = ground arith in
      (check_fields-IsValid table fs).0 checked

  -- The end of `FromFields`, on the described columns.
  abbrev build_sorted : Bytes → List Field → Result Descriptor
  build_sorted table fs =
      check_unique_ids table (sort_fields fs) >> new_descriptor sha256_hex table (sort_fields fs)

  -- `newDescriptor` on columns in ascending order.
  new_descriptor-IsCanonical :
      (table : Bytes) (fs : List Field) {d : Descriptor}
      → 1 ≤ length fs
      → Ascends (pos 0) fs
      → new_descriptor sha256_hex table fs ≡ ok d
      → IsCanonical sha256_hex d × (d.fields ≡ fs)
  unfolding new_descriptor
  new_descriptor-IsCanonical table fs {d} some_ up h =
      let (_, few, h1) =
        >>=-eq-ok (refuse_if (ltb max_value_bytes (length fs)) (unsupported table [] (pos 0))) _
          h in
      let (u, valid, h2) = >>=-eq-ok (check_fields table fs) _ {w = d} h1 in
      let made = ok-injective h2 in
      subst (λ x. IsCanonical sha256_hex x × (x.fields ≡ fs)) made
        (
          record {
            nonempty = some_;
            few = ground arith;
            valid = (check_fields-IsValid table fs).0 valid;
            ascends = up;
            bytes = encode_descriptor-layout fs;
            named = refl;
          },
          refl,
        )

  new_descriptor_passes :
      (table : Bytes) (d : Descriptor)
      → IsCanonical sha256_hex d
      → new_descriptor sha256_hex table d.fields ≡ ok d
  unfolding new_descriptor
  new_descriptor_passes table d c = ground (
    arith,
    c.few,
    (check_fields-IsValid table d.fields).1 c.valid,
    encode_descriptor-layout d.fields,
    c.bytes,
    c.named,
  )

  -- The steps of a successful `FromFields`.
  pub from_fields_inv :
      (table : Bytes) (src : List NestedField) {d : Descriptor}
      → from_fields sha256_hex table src ≡ ok d
      → (fs : List Field) × (describe_fields table src ≡ ok fs)
        × (1 ≤ length (sort_fields fs))
        × Ascends (pos 0) (sort_fields fs)
        × (new_descriptor sha256_hex table (sort_fields fs) ≡ ok d)
  unfolding from_fields
  from_fields_inv table src {d} h =
      let counted : (length src == 0) ≡ false = ground arith in
      let (fs, described, h2) =
        >>=-eq-ok (describe_fields table src) (build_sorted table) {w = d} (ground arith) in
      let (u, unique, built) =
        >>=-eq-ok (check_unique_ids table (sort_fields fs))
          (λ _. new_descriptor sha256_hex table (sort_fields fs)) {w = d} h2 in
      let some_ : 1 ≤ length (sort_fields fs) =
        ground (arith, length-sort_fields fs, length-describe_fields table src described) in
      let valid = new_descriptor-IsValid table (sort_fields fs) built in
      let up = sort_fields-Ascends table fs (All-id_low (sort_fields fs) valid) unique in
      (fs, described, some_, up, built)

  -- Whatever `FromFields` returns is canonical: it has a column, its columns are valid and in strictly
  -- ascending id order, and its bytes and fingerprint are those of its columns.
  pub from_fields-IsCanonical :
      (table : Bytes) (src : List NestedField) {d : Descriptor}
      → from_fields sha256_hex table src ≡ ok d
      → IsCanonical sha256_hex d
  from_fields-IsCanonical table src h =
      let (fs, _, some_, up, built) = from_fields_inv table src h in
      (new_descriptor-IsCanonical table (sort_fields fs) some_ up built).0

  pub from_fields_build :
      (table : Bytes) (src : List NestedField) (fs : List Field) {d : Descriptor}
      → describe_fields table src ≡ ok fs
      → 1 ≤ length (sort_fields fs)
      → Ascends (pos 0) (sort_fields fs)
      → new_descriptor sha256_hex table (sort_fields fs) ≡ ok d
      → from_fields sha256_hex table src ≡ ok d
  unfolding from_fields
  from_fields_build table src fs described some_ up built = ground (
    arith,
    length-sort_fields fs,
    length-describe_fields table src described,
    Ascends-check_unique_ids table (sort_fields fs) up,
  )

  -- What `ParseDescriptor` accepts of a byte string is canonical, and has that string as its bytes.
  pub parse_descriptor-IsCanonical :
      (b : Bytes) {d : Descriptor}
      → All IsByte b
      → parse_descriptor sha256_hex b ≡ ok d
      → IsCanonical sha256_hex d × (d.encoded ≡ b)
  unfolding parse_descriptor
  parse_descriptor-IsCanonical b {d} bs h =
      let (fs, e, h1) = >>=-eq-ok (decode_descriptor b) _ {w = d} h in
      let (d', e1, h2) = >>=-eq-ok (new_descriptor sha256_hex [] fs) _ {w = d} h1 in
      let (same, some_, few, up) = decode_descriptor_inv b bs e in
      let (c, _) = new_descriptor-IsCanonical [] fs some_ up e1 in
      let d-eq : d' ≡ d = ground arith in
      subst (λ x. IsCanonical sha256_hex x × (x.encoded ≡ b)) d-eq
        (c, bytes_eq→eq d'.encoded b (ground arith))

  -- Parsing the stored bytes of a canonical descriptor gives it back, fingerprint included.
  pub parse_descriptor-encoded :
      (d : Descriptor) → IsCanonical sha256_hex d → parse_descriptor sha256_hex d.encoded ≡ ok d
  unfolding parse_descriptor
  parse_descriptor-encoded d c =
      let read : decode_descriptor d.encoded ≡ ok d.fields =
        rw c.bytes (decode_descriptor-layout d.fields c.nonempty c.few c.valid c.ascends) in
      rw read (rw (new_descriptor_passes [] d c) (rw (bytes_eq_refl d.encoded)))

  -- `FromFields` of the columns of a canonical descriptor, as Iceberg columns, gives it back.
  pub from_fields-iceberg_fields :
      (table : Bytes) (d : Descriptor)
      → IsCanonical sha256_hex d
      → from_fields sha256_hex table (iceberg_fields d.fields) ≡ ok d
  from_fields-iceberg_fields table d c =
      let sorted = sort_fields_ascending (pos 0) d.fields c.ascends in
      from_fields_build table (iceberg_fields d.fields) d.fields
        (describe_fields-iceberg_fields table d.fields c.valid) (rw sorted c.nonempty)
        (rw sorted c.ascends) (rw sorted (new_descriptor_passes table d c))
