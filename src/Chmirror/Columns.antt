-- ===== src/Chmirror/Columns.antt =====
-- internal/chmirror/ddl.go and table.go: the columns of a mirrored table, and the declared expiry.
use icelake.Prelude.{
  ◌≡◌, refl, sym, ap, ◌∙◌, subst, ◌↔◌, true, false, not, Bool-cases, inl, inr, Option, none, some,
  ℤ, pos, ltb_ℤ, ltb, length, length-append, List, [], ◌∷◌, ◌++◌, bytes_eq, if◌then◌else◌, arith,
}
use icelake.Errdef.{Bytes, ok, err, clickhouse_error, conflict}
use icelake.Canon.Shape.{
  Field, Descriptor, Kind, boolean, int, long, float, double, decimal, timestamp_tz, string, binary,
  unknown,
}
use icelake.Chmirror.Ddl.{text, has_prefix, plain_type, column_type, is_nullable, Ttl}
use icelake.Chmirror.Table.{check_ttl, validate_ttl, is_timestamp}

plain_lem : (k : Kind) (p q : ℤ) → has_prefix (text "Nullable(") (plain_type k p q) ≡ false
unfolding plain_type has_prefix
plain_lem boolean p q = refl
plain_lem int p q = refl
plain_lem long p q = refl
plain_lem float p q = refl
plain_lem double p q = refl
plain_lem decimal p q = refl
plain_lem timestamp_tz p q = refl
plain_lem string p q = refl
plain_lem binary p q = refl
plain_lem (unknown t) p q = refl

long_enough : (t : Bytes) → ltb 9 (length (text "Nullable(" ++ t ++ text ")")) ≡ true
long_enough t = ground (arith, length-append t (text ")"))

-- The reconciliation may add a column exactly where the declared one is optional.
pub is_nullable-column_type : (f : Field) → is_nullable (column_type f) ≡ not f.required
unfolding is_nullable column_type has_prefix
is_nullable-column_type f =
    let t = plain_type f.kind f.precision f.scale in
    let no_ = plain_lem f.kind f.precision f.scale in
    let yes_ = long_enough t in
    elim (Bool-cases f.required) as (λ x. is_nullable (column_type f) ≡ not f.required) [
      | inl e ↦ rw e (ground (arith, no_))
      | inr e ↦ rw e (ground (arith, yes_))
    ]

-- The first field of a name.
pub field_of : Bytes → List Field → Option Field
field_of name [] = none
field_of name (f ∷ fs) = if bytes_eq f.name name then some f else field_of name fs

is_timestamp_inv : (k : Kind) → is_timestamp k ≡ true → k ≡ timestamp_tz
is_timestamp_inv timestamp_tz h = refl
is_timestamp_inv boolean h = cc
is_timestamp_inv int h = cc
is_timestamp_inv long h = cc
is_timestamp_inv float h = cc
is_timestamp_inv double h = cc
is_timestamp_inv decimal h = cc
is_timestamp_inv string h = cc
is_timestamp_inv binary h = cc
is_timestamp_inv (unknown t) h = cc

-- What the expiry of a table needs of its declaration.
abbrev Expires : List Field → Ttl → Type 0
Expires fs ttl =
    (f : Field) × (field_of ttl.column fs ≡ some f) × (f.kind ≡ timestamp_tz) × (f.required ≡ true)

check_ttl-eq-ok :
    (target : Bytes) (ttl : Ttl) (fs : List Field)
    → check_ttl target ttl fs ≡ ok tt
    → Expires fs ttl
unfolding check_ttl field_of
check_ttl-eq-ok target ttl [] h = cc
check_ttl-eq-ok target ttl (f ∷ fs) h = elim (Bool-cases (bytes_eq f.name ttl.column)) [
  | inl e ↦ (
    f,
    rw e refl,
    is_timestamp_inv f.kind (ground (arith, e, h, Bool-cases (is_timestamp f.kind))),
    ground (arith, e, h, Bool-cases (is_timestamp f.kind), Bool-cases f.required),
  )
  | inr e ↦
      let (g, found, k, r) = check_ttl-eq-ok target ttl fs (ground (arith, e, h)) in
      (g, ground (arith, e, found), k, r)
]

check_ttl-Expires :
    (target : Bytes) (ttl : Ttl) (fs : List Field)
    → Expires fs ttl
    → check_ttl target ttl fs ≡ ok tt
unfolding check_ttl field_of
check_ttl-Expires target ttl [] (g, found, k, r) = cc
check_ttl-Expires target ttl (f ∷ fs) (g, found, k, r) =
    elim (Bool-cases (bytes_eq f.name ttl.column)) as (λ x. check_ttl target ttl (f ∷ fs) ≡ ok tt) [
      | inl e ↦
          let first : field_of ttl.column (f ∷ fs) ≡ some f = rw (field_of, e) refl in
          let whole : some f ≡ some g = sym first ∙ found in
          let same : f ≡ g = cc in
          let k' : f.kind ≡ timestamp_tz = ap (λ x. x.kind) same ∙ k in
          let r' : f.required ≡ true = ap (λ x. x.required) same ∙ r in rw (e, k', r') refl
      | inr e ↦
          let h = check_ttl-Expires target ttl fs (g, ground (arith, e, found), k, r) in rw e h
    ]

abbrev pub Accepted : List Field → Ttl → Type 0
Accepted fs ttl = (ltb_ℤ (pos 0) ttl.seconds ≡ true) × Expires fs ttl

accepted :
    (target : Bytes) (d : Descriptor) (ttl : Ttl)
    → validate_ttl target d (some ttl) ≡ ok tt
    → Accepted d.fields ttl
unfolding validate_ttl
accepted target d ttl h = elim (Bool-cases (ltb_ℤ (pos 0) ttl.seconds)) [
  | inl e ↦
      let step : validate_ttl target d (some ttl) ≡ check_ttl target ttl d.fields =
        rw (validate_ttl, e) refl in
      (e, check_ttl-eq-ok target ttl d.fields (sym step ∙ h))
  | inr e ↦
      let step : validate_ttl target d (some ttl)
          ≡ err (clickhouse_error conflict target ttl.column) =
        rw (validate_ttl, e) refl in
      absurd (ground (arith, sym step ∙ h))
]

-- A declared expiry is accepted exactly where it is positive and the first column of its name is a required
-- timestamptz column; a table without one is always accepted.
pub validate_ttl_iff :
    (target : Bytes) (d : Descriptor) (ttl : Option Ttl)
    → (validate_ttl target d ttl ≡ ok tt) ↔ ((e : Ttl) → ttl ≡ some e → Accepted d.fields e)
unfolding validate_ttl
validate_ttl_iff target d none = (λ h e w. cc, λ h. refl)
validate_ttl_iff target d (some ttl) = (
  λ h e w. let same : ttl ≡ e = cc in subst (Accepted d.fields) same (accepted target d ttl h),
  λ h.
      let (positive, expires) = h ttl refl in
      rw positive (check_ttl-Expires target ttl d.fields expires),
)
