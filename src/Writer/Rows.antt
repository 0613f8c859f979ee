-- ===== src/Writer/Rows.antt =====
-- internal/staging/store.go: the live rows of one table, before and after a statement.
use icelake.Prelude.{
  ℕ, ℤ, suc, ◌+◌, ◌≤◌, ◌<◌, ◌≡◌, refl, subst, Bool, Bool-cases, true, false, not, ◌&&◌, inl, inr,
  List, [], ◌∷◌, ◌++◌, length, ◌==◌, if◌then◌else◌, All, arith,
}
use icelake.Errdef.{Bytes}
use icelake.Staging.Store.{StagingRow, TableId, same_table, table_of, is_quarantined}
use icelake.Staging.Store.Leaving.{
  has_id, delete_row, delete_rows, quarantined_row, mark_row, mark_rows,
}
use icelake.Staging.Store.Related.{Pointwise, Ascends, delete_row-Ascends}

unfoldable pub count : ℕ → List ℕ → ℕ
count i [] = 0
count i (j ∷ js) = if j == i then suc (count i js) else count i js

pub count-append : (i : ℕ) (xs ys : List ℕ) → count i (xs ++ ys) ≡ count i xs + count i ys
unfolding count
count-append i [] ys = omega arith
count-append i (x ∷ xs) ys = ground (arith, count-append i xs ys)

pub count-has_id : (i : ℕ) (ids : List ℕ) → has_id i ids ≡ false → count i ids ≡ 0
unfolding count has_id
count-has_id i [] h = refl
count-has_id i (j ∷ ids) h = ground (arith, count-has_id i ids)

pub has_id-count : (i : ℕ) (ids : List ℕ) → has_id i ids ≡ true → 1 ≤ count i ids
unfolding count has_id
has_id-count i [] h = cc
has_id-count i (j ∷ ids) h = ground (arith, has_id-count i ids)

unfoldable pub row_ids : List StagingRow → List ℕ
row_ids [] = []
row_ids (r ∷ rows) = r.id ∷ row_ids rows

module _ (t : TableId) where
  abbrev pub is_live : StagingRow → Bool
  is_live r = same_table (table_of r) t && not (is_quarantined r)

  -- The rows that wait to be flushed.
  unfoldable pub live_ids : List StagingRow → List ℕ
  live_ids [] = []
  live_ids (r ∷ rows) = if is_live r then r.id ∷ live_ids rows else live_ids rows

  pub live_ids-append : (xs ys : List StagingRow) → live_ids (xs ++ ys) ≡ live_ids xs ++ live_ids ys
  unfolding live_ids
  live_ids-append [] ys = refl
  live_ids-append (r ∷ xs) ys = ground (arith, live_ids-append xs ys, Bool-cases (is_live r))

  live-delete_row :
      (i id : ℕ) (rows : List StagingRow)
      → count i (live_ids (delete_row id rows)) ≡ (if id == i then 0 else count i (live_ids rows))
  unfolding live_ids delete_row count
  live-delete_row i id [] = ground arith
  live-delete_row i id (r ∷ rows) =
      ground (arith, live-delete_row i id rows, Bool-cases (is_live r))

  pub live-delete_rows :
      (i : ℕ) (ids : List ℕ) (rows : List StagingRow)
      → count i (live_ids (delete_rows ids rows))
        ≡ (if has_id i ids then 0 else count i (live_ids rows))
  unfolding delete_rows has_id
  live-delete_rows i [] rows = refl
  live-delete_rows i (id ∷ ids) rows =
      ground (arith, live-delete_rows i ids (delete_row id rows), live-delete_row i id rows)

  marked-not_live :
      (at : ℤ) (cause : Bytes) (r : StagingRow) → is_live (quarantined_row at cause r) ≡ false
  marked-not_live at cause r = ground (arith, Bool-cases (same_table (table_of r) t))

  live-mark_row :
      (at : ℤ) (cause : Bytes) (i id : ℕ) (rows : List StagingRow)
      → count i (live_ids (mark_row at cause id rows))
        ≡ (if id == i then 0 else count i (live_ids rows))
  unfolding live_ids mark_row count
  live-mark_row at cause i id [] = ground arith
  live-mark_row at cause i id (r ∷ rows) = elim (Bool-cases (r.id == id)) [
    | inl e ↦
        rw (e, marked-not_live at cause r)
          (ground (arith, e, live-mark_row at cause i id rows, Bool-cases (is_live r)))
    | inr e ↦ rw e (ground (arith, e, live-mark_row at cause i id rows, Bool-cases (is_live r)))
  ]

  pub live-mark_rows :
      (at : ℤ) (cause : Bytes) (i : ℕ) (ids : List ℕ) (rows : List StagingRow)
      → count i (live_ids (mark_rows at cause ids rows))
        ≡ (if has_id i ids then 0 else count i (live_ids rows))
  unfolding mark_rows has_id
  live-mark_rows at cause i [] rows = refl
  live-mark_rows at cause i (id ∷ ids) rows = ground (
    arith,
    live-mark_rows at cause i ids (mark_row at cause id rows),
    live-mark_row at cause i id rows,
  )

  pub live-le-all :
      (i : ℕ) (rows : List StagingRow) → count i (live_ids rows) ≤ count i (row_ids rows)
  unfolding live_ids row_ids count
  live-le-all i [] = omega arith
  live-le-all i (r ∷ rows) = ground (arith, live-le-all i rows, Bool-cases (is_live r))

  -- What a statement that keeps the ids, the tables and the marks of all rows leaves.
  abbrev pub Keeps : StagingRow → StagingRow → Type 0
  Keeps r s = (s.id ≡ r.id) × (is_live s ≡ is_live r)

  pub live-Pointwise :
      (R : StagingRow → StagingRow → Type 0) (rs ss : List StagingRow)
      → ((r s : StagingRow) → R r s → Keeps r s)
      → Pointwise R rs ss
      → live_ids ss ≡ live_ids rs
  unfolding live_ids
  live-Pointwise R [] [] h p = refl
  live-Pointwise R [] (s ∷ ss) h p = absurd p
  live-Pointwise R (r ∷ rs) [] h p = absurd p
  live-Pointwise R (r ∷ rs) (s ∷ ss) h p =
      let (id, live) = h r s p.0 in rw (id, live, live-Pointwise R rs ss h p.1) refl

-- Where the ids ascend, each is the id of one row.
above_lem : (i : ℕ) (rows : List StagingRow) → All (λ s. i < s.id) rows → count i (row_ids rows) ≡ 0
unfolding count row_ids
above_lem i [] h = refl
above_lem i (r ∷ rows) h = ground (arith, above_lem i rows h.1, h.0)

pub Ascends-once :
    (last i : ℕ) (rows : List StagingRow) → Ascends last rows → count i (row_ids rows) ≤ 1
unfolding count row_ids
Ascends-once last i [] h = omega arith
Ascends-once last i (r ∷ rows) h = elim (Bool-cases (r.id == i)) [
  | inl e ↦
      let same : r.id ≡ i = ground (arith, e) in
      let none_above = above_lem i rows (subst (λ x. All (λ s. x < s.id) rows) same h.1) in
      ground (arith, e, none_above)
  | inr e ↦ ground (arith, e, Ascends-once last i rows h.2)
]

pub Ascends-fresh :
    (last i : ℕ) (rows : List StagingRow)
    → Ascends last rows
    → last < i
    → count i (row_ids rows) ≡ 0
unfolding count row_ids
Ascends-fresh last i [] h l = refl
Ascends-fresh last i (r ∷ rows) h l = ground (arith, Ascends-fresh last i rows h.2 l, h.0)

length-delete_row :
    (id : ℕ) (rows : List StagingRow)
    → length (delete_row id rows) + count id (row_ids rows) ≡ length rows
unfolding count row_ids delete_row
length-delete_row id [] = refl
length-delete_row id (r ∷ rows) = ground (arith, length-delete_row id rows)

pub length-delete_rows :
    (t : TableId) (last : ℕ) (ids : List ℕ) (rows : List StagingRow)
    → Ascends last rows
    → ((i : ℕ) → count i ids ≤ 1)
    → ((i : ℕ) → count i ids ≤ count i (live_ids t rows))
    → length (delete_rows ids rows) + length ids ≡ length rows
unfolding delete_rows count
length-delete_rows t last [] rows up once live = omega arith
length-delete_rows t last (id ∷ ids) rows up once live =
    let rest = delete_row id rows in
    let ih =
      length-delete_rows t last ids rest (delete_row-Ascends last id rows up)
        (λ i. ground (arith, once i))
        (λ i. ground (arith, once i, live i, live-delete_row t i id rows)) in
    let here : count id (id ∷ ids) ≡ suc (count id ids) = ground arith in
    omega (
      arith,
      ih,
      length-delete_row id rows,
      Ascends-once last id rows up,
      live-le-all t id rows,
      live id,
      here,
    )
