-- ===== src/Canon/Iceberg/Inverse.antt =====
-- `IcebergFields` of canon/descriptor.go against `describeField`.
use icelake.Prelude.{◌≡◌, ℤ, refl, sym, subst, ap, ◌∙◌, suc, List, [], ◌∷◌, length, arith, All}
use icelake.Prelude.{some}
use mathlib.Core.List.{Permᴰ}
use mathlib.Core.List.Permᴰ
use icelake.Errdef.{Bytes, ok, >>=-eq-ok, ok-injective}
use icelake.Canon.Shape.{Kind, Field, known_kind, IsKnown, is_decimal}
use icelake.Canon.Shape.{decimal, unknown}
use icelake.Canon.Iceberg.{NestedField, describe_field, describe_fields, kind_of, iceberg_type}
use icelake.Canon.Iceberg.{iceberg_field, iceberg_fields}
use icelake.Canon.Columns.Layout.{IsValid, Digits}

pub length-describe_fields :
    (table : Bytes) (src : List NestedField) {fs : List Field}
    → describe_fields table src ≡ ok fs
    → length fs ≡ length src
unfolding describe_fields
length-describe_fields table [] h = ap length (sym (ok-injective h))
length-describe_fields table (nf ∷ src) h =
    let (f, e, h1) = >>=-eq-ok (describe_field table nf) _ h in
    let (gs, e2, h2) = >>=-eq-ok (describe_fields table src) _ h1 in
    ap length (sym (ok-injective h2)) ∙ ap suc (length-describe_fields table src e2)

length-iceberg_fields : (fs : List Field) → length (iceberg_fields fs) ≡ length fs
unfolding iceberg_fields
length-iceberg_fields [] = refl
length-iceberg_fields (f ∷ fs) = ap suc (length-iceberg_fields fs)

kind_of-iceberg_type :
    (k : Kind) (p s : ℤ)
    → IsKnown k
    → Digits (is_decimal k) p s
    → kind_of (iceberg_type k p s) ≡ some (k, p, s)
unfolding kind_of iceberg_type known_kind is_decimal
kind_of-iceberg_type decimal p s known d = refl
kind_of-iceberg_type (unknown t) p s known d = cc
kind_of-iceberg_type _ p s known d = ground arith

describe_field-iceberg_field :
    (table : Bytes) (f : Field) → IsValid f → describe_field table (iceberg_field f) ≡ ok f
unfolding describe_field
describe_field-iceberg_field table f v =
    rw (kind_of-iceberg_type f.kind f.precision f.scale v.known v.digits)

pub describe_fields-iceberg_fields :
    (table : Bytes) (fs : List Field)
    → All IsValid fs
    → describe_fields table (iceberg_fields fs) ≡ ok fs
unfolding describe_fields iceberg_fields
describe_fields-iceberg_fields table [] h = refl
describe_fields-iceberg_fields table (f ∷ fs) (v, vs) =
    rw (describe_field-iceberg_field table f v) (rw (describe_fields-iceberg_fields table fs vs))

describe_fields_cons :
    (table : Bytes) (nf : NestedField) (src : List NestedField) {f : Field} {fs : List Field}
    → describe_field table nf ≡ ok f
    → describe_fields table src ≡ ok fs
    → describe_fields table (nf ∷ src) ≡ ok (f ∷ fs)
unfolding describe_fields
describe_fields_cons table nf src e es = rw e (rw es)

describe_fields_uncons :
    (table : Bytes) (nf : NestedField) (src : List NestedField) {fs : List Field}
    → describe_fields table (nf ∷ src) ≡ ok fs
    → (f : Field) × (gs : List Field) × (describe_field table nf ≡ ok f)
      × (describe_fields table src ≡ ok gs)
      × (f ∷ gs ≡ fs)
unfolding describe_fields
describe_fields_uncons table nf src {fs} h =
    let (f, e1, h1) = >>=-eq-ok (describe_field table nf) _ {w = fs} h in
    let (gs, e2, h2) = >>=-eq-ok (describe_fields table src) _ {w = fs} h1 in
    (f, gs, e1, e2, ok-injective h2)

-- Columns in another order are described in that order.
pub describe_fields-perm :
    (table : Bytes) {src src' : List NestedField} {fs : List Field}
    → Permᴰ src src'
    → describe_fields table src ≡ ok fs
    → (fs' : List Field) × (describe_fields table src' ≡ ok fs') × Permᴰ fs fs'
describe_fields-perm table {fs} Permᴰ.nil h = (fs, h, Permᴰ.refl fs)
describe_fields-perm table {fs} (Permᴰ.cons {a = nf} {b = mf} {l₁ = src} {l₂ = src'} e p) h =
    let (f, gs, e1, e2, same) = describe_fields_uncons table nf src h in
    let (gs', e3, q) = describe_fields-perm table p e2 in
    (
      f ∷ gs',
      describe_fields_cons table mf src' (subst (λ x. describe_field table x ≡ ok f) e e1) e3,
      subst (λ l. Permᴰ l (f ∷ gs')) same (Permᴰ.cons refl q),
    )
describe_fields-perm table {fs} (Permᴰ.swap {a = x} {b = y} {a' = x'} {b' = y'} {l = src} e e') h =
    let (f, fs1, e1, e2, same) = describe_fields_uncons table x (y ∷ src) h in
    let (g, gs, e3, e4, same') = describe_fields_uncons table y src e2 in
    (
      g ∷ f ∷ gs,
      describe_fields_cons table x' (y' ∷ src) (subst (λ z. describe_field table z ≡ ok g) e' e3)
          (describe_fields_cons table y' src (subst (λ z. describe_field table z ≡ ok f) e e1) e4),
      subst (λ l. Permᴰ l (g ∷ f ∷ gs)) (ap (λ t. f ∷ t) same' ∙ same) (Permᴰ.swap refl refl),
    )
describe_fields-perm table (Permᴰ.trans p q) h =
    let (fs1, e1, p1) = describe_fields-perm table p h in
    let (fs2, e2, p2) = describe_fields-perm table q e1 in (fs2, e2, Permᴰ.trans p1 p2)
