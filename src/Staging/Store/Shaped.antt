-- ===== src/Staging/Store/Shaped.antt =====
-- internal/staging/store.go: the shapes that staged rows name stay recorded.
use icelake.Prelude.{
  ◌≡◌, refl, ap, ◌∙◌, subst, true, Bool-cases, inl, inr, some, List, [], ◌∷◌, All, bytes_eq,
  bytes_eq→eq, bytes_eq_refl, if◌then◌else◌, arith,
}
use icelake.Errdef.{
  Bytes, ok, need, refuse_if, staging_error, write, >>=-eq-ok, need-eq-ok, ok-injective,
}
use icelake.Canon.Shape.{Descriptor}
use icelake.Canon.Columns.{is_empty}
use icelake.Staging.Spool.{upsert_schema, find_schema}
use icelake.Staging.Spool.Keeps.{
  HasSchema, upsert_schema_keeps, upsert_schema_has, upsert_schema-All,
}
use icelake.Staging.Store.{StagingRow, AppendRow, checked_rows, is_recorded}
use icelake.Staging.Store.Leaving.{is_named, keep_named}
use icelake.Staging.Store.Gathered.{All-imp}

-- The schemas that an append leaves for one row.
abbrev recorded_in : List Bytes → Descriptor → List (Bytes × Bytes) → List (Bytes × Bytes)
recorded_in recorded d ss =
    if is_recorded d.fp recorded then ss else upsert_schema d.fp d.encoded ss

is_recorded-All :
    (P : Bytes → Type 0) (fp : Bytes) (recorded : List Bytes)
    → is_recorded fp recorded ≡ true
    → All P recorded
    → P fp
unfolding is_recorded
is_recorded-All P fp [] h a = absurd (ground arith)
is_recorded-All P fp (k ∷ ks) h a = elim (Bool-cases (bytes_eq k fp)) [
  | inl e ↦ subst P (bytes_eq→eq k fp e) a.0
  | inr e ↦ is_recorded-All P fp ks (rw e at h) a.1
]

pub recorded_in_has :
    (recorded : List Bytes) (d : Descriptor) (ss : List (Bytes × Bytes))
    → All (HasSchema ss) recorded
    → HasSchema (recorded_in recorded d ss) d.fp
recorded_in_has recorded d ss a = elim (Bool-cases (is_recorded d.fp recorded)) [
  | inl e ↦ rw e (is_recorded-All (HasSchema ss) d.fp recorded e a)
  | inr e ↦ rw e (upsert_schema_has d.fp d.encoded ss)
]

pub recorded_in_keeps :
    (recorded : List Bytes) (d : Descriptor) (ss : List (Bytes × Bytes)) (fp : Bytes)
    → HasSchema ss fp
    → HasSchema (recorded_in recorded d ss) fp
recorded_in_keeps recorded d ss fp h = elim (Bool-cases (is_recorded d.fp recorded)) [
  | inl e ↦ rw e h
  | inr e ↦ rw e (upsert_schema_keeps d.fp d.encoded fp ss h)
]

pub recorded_in-All :
    (P : Bytes × Bytes → Type 0) (recorded : List Bytes) (d : Descriptor)
    (ss : List (Bytes × Bytes))
    → P (d.fp, d.encoded)
    → All P ss
    → All P (recorded_in recorded d ss)
recorded_in-All P recorded d ss p a = elim (Bool-cases (is_recorded d.fp recorded)) [
  | inl e ↦ rw e a
  | inr e ↦ rw e (upsert_schema-All P d.fp d.encoded ss p a)
]

-- What holds of every descriptor that a batch brings holds of those that are checked.
pub checked_rows-All :
    (P : Descriptor → Type 0) (rows : List AppendRow) (checked : List (AppendRow × Descriptor))
    → checked_rows rows ≡ ok checked
    → All (λ r. (d : Descriptor) → r.descriptor ≡ some d → P d) rows
    → All (λ c. P c.1) checked
unfolding checked_rows
checked_rows-All P [] checked h a = subst (All (λ c. P c.1)) (ok-injective h) tt
checked_rows-All P (row ∷ rows) checked h a =
    let (d, found, h1) = >>=-eq-ok (need row.descriptor (staging_error write)) _ h in
    let (u, payload, h2) =
      >>=-eq-ok (refuse_if (is_empty row.payload) (staging_error write)) _ h1 in
    let (rest, tail, h3) = >>=-eq-ok (checked_rows rows) _ h2 in
    subst (All (λ c. P c.1)) (ok-injective h3) (
      a.0 d (need-eq-ok row.descriptor (staging_error write) found),
      checked_rows-All P rows rest tail a.1,
    )

pub All-is_named : (rows : List StagingRow) → All (λ r. is_named r.schema_fp rows ≡ true) rows
unfolding is_named
All-is_named [] = tt
All-is_named (r ∷ rows) = (
  rw (bytes_eq_refl r.schema_fp) refl,
  All-imp (λ s. is_named s.schema_fp rows ≡ true) (λ s. is_named s.schema_fp (r ∷ rows) ≡ true) rows
      (λ s h. ground (arith, h)) (All-is_named rows),
)

pub keep_named_has :
    (rows : List StagingRow) (fp : Bytes) (ss : List (Bytes × Bytes))
    → is_named fp rows ≡ true
    → HasSchema ss fp
    → HasSchema (keep_named rows ss) fp
unfolding keep_named find_schema
keep_named_has rows fp [] n (b, h) = absurd (ground arith)
keep_named_has rows fp (s ∷ ss) n (b, h) = elim (Bool-cases (bytes_eq s.0 fp)) [
  | inl here ↦
      let kept = ap (λ k. is_named k rows) (bytes_eq→eq s.0 fp here) ∙ n in
      (s.1, rw kept (rw here refl))
  | inr other ↦
      let (b', h') = keep_named_has rows fp ss n (b, rw other at h) in
      elim (Bool-cases (is_named s.0 rows)) [
        | inl kept ↦ (b', rw kept (rw other h'))
        | inr gone ↦ (b', rw gone h')
      ]
]

pub keep_named-All :
    (P : Bytes × Bytes → Type 0) (rows : List StagingRow) (ss : List (Bytes × Bytes))
    → All P ss
    → All P (keep_named rows ss)
unfolding keep_named
keep_named-All P rows [] a = tt
keep_named-All P rows (s ∷ ss) a = elim (Bool-cases (is_named s.0 rows)) [
  | inl kept ↦ rw kept (a.0, keep_named-All P rows ss a.1)
  | inr gone ↦ rw gone (keep_named-All P rows ss a.1)
]
