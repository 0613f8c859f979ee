-- ===== src/Staging/Index/Covered.antt =====
-- internal/staging/index.go: a claim hands out every live row of its table once.
use icelake.Prelude.{
  ℕ, suc, ◌+◌, ◌≡◌, refl, sym, ap, ◌∙◌, Bool-cases, true, false, inl, inr, List, [], ◌∷◌, ◌++◌,
  append_assoc, length, bytes_eq, arith,
}
use icelake.Errdef.{ok, >>=-eq-ok, ok-injective}
use icelake.Canon.Columns.{is_empty}
use icelake.Flush.Cycle.{ids_of}
use icelake.Staging.Store.{
  StagingRow, StagingStore, TableId, same_table, table_of, key_of, is_quarantined,
}
use icelake.Staging.Store.Leaving.{staged_totals}
use icelake.Staging.Index.{
  PendingRow, PendingBatch, Index, pending_row, place, add_rows, empty_index, tally, check_split,
  scan, sealed_only, unsealed_only, pending_batches, claim,
}
use icelake.Staging.Index.Grouped.{place_all}
use icelake.Staging.Index.Claimed.{
  live_rows, entry, entry-add_rows, pending_batches-entry, claim-scan,
}
use icelake.Writer.Rows.{count, count-append, live_ids, row_ids}

unfoldable pub batch_ids : List PendingBatch → List ℕ
batch_ids [] = []
batch_ids (b ∷ batches) = ids_of b.rows ++ batch_ids batches

count-add_to :
    (i : ℕ) (r : PendingRow) (rows : List PendingRow)
    → count i (ids_of (rows ++ r ∷ [])) ≡ count i (ids_of rows) + count i (r.id ∷ [])
unfolding count
count-add_to i r [] = omega arith
count-add_to i r (s ∷ rows) = ground (arith, count-add_to i r rows)

count-place :
    (i : ℕ) (r : StagingRow) (bs : List PendingBatch)
    → count i (batch_ids (place r bs)) ≡ count i (batch_ids bs) + count i (r.id ∷ [])
unfolding place batch_ids count
count-place i r [] = ground arith
count-place i r (b ∷ bs) = elim (Bool-cases (bytes_eq b.key (key_of r))) [
  | inl e ↦ rw e (
      omega (
        arith,
        count-append i (ids_of (b.rows ++ pending_row r ∷ [])) (batch_ids bs),
        count-append i (ids_of b.rows) (batch_ids bs),
        count-add_to i (pending_row r) b.rows,
      ))
  | inr e ↦ rw e (
      omega (
        arith,
        count-append i (ids_of b.rows) (batch_ids (place r bs)),
        count-append i (ids_of b.rows) (batch_ids bs),
        count-place i r bs,
      ))
]

count-place_all :
    (i : ℕ) (rows : List StagingRow) (bs : List PendingBatch)
    → count i (batch_ids (place_all rows bs)) ≡ count i (batch_ids bs) + count i (row_ids rows)
unfolding place_all row_ids count
count-place_all i [] bs = omega arith
count-place_all i (r ∷ rows) bs =
    ground (arith, count-place_all i rows (place r bs), count-place i r bs)

count-placed :
    (i : ℕ) (rows : List StagingRow)
    → count i (batch_ids (place_all rows [])) ≡ count i (row_ids rows)
unfolding batch_ids count
count-placed i rows = omega (arith, count-place_all i rows [])

batch_ids-append : (bs cs : List PendingBatch) → batch_ids (bs ++ cs) ≡ batch_ids bs ++ batch_ids cs
unfolding batch_ids
batch_ids-append [] cs = refl
batch_ids-append (b ∷ bs) cs =
    ap (λ x. ids_of b.rows ++ x) (batch_ids-append bs cs)
    ∙ sym (append_assoc (ids_of b.rows) (batch_ids bs) (batch_ids cs))

count-halves :
    (i : ℕ) (bs : List PendingBatch)
    → count i (batch_ids (sealed_only bs)) + count i (batch_ids (unsealed_only bs))
      ≡ count i (batch_ids bs)
unfolding sealed_only unsealed_only batch_ids count
count-halves i [] = refl
count-halves i (b ∷ bs) =
    let whole = count-append i (ids_of b.rows) (batch_ids bs) in
    elim (Bool-cases (is_empty b.key)) [
      | inl e ↦ rw e (
          omega (
            arith,
            whole,
            count-halves i bs,
            count-append i (ids_of b.rows) (batch_ids (unsealed_only bs)),
          ))
      | inr e ↦ rw e (
          omega (
            arith,
            whole,
            count-halves i bs,
            count-append i (ids_of b.rows) (batch_ids (sealed_only bs)),
          ))
    ]

count-split :
    (i : ℕ) (bs : List PendingBatch)
    → count i (batch_ids (sealed_only bs ++ unsealed_only bs)) ≡ count i (batch_ids bs)
count-split i bs =
    ap (count i) (batch_ids-append (sealed_only bs) (unsealed_only bs))
    ∙ count-append i (batch_ids (sealed_only bs)) (batch_ids (unsealed_only bs))
    ∙ count-halves i bs

live_rows-ids :
    (t : TableId) (rows : List StagingRow) → row_ids (live_rows t rows) ≡ live_ids t rows
unfolding live_rows row_ids live_ids
live_rows-ids t [] = refl
live_rows-ids t (r ∷ rows) = ground (
  arith,
  live_rows-ids t rows,
  Bool-cases (is_quarantined r),
  Bool-cases (same_table (table_of r) t),
)

staged_totals-length : (rows : List StagingRow) → (staged_totals rows).records ≡ length rows
unfolding staged_totals
staged_totals-length [] = refl
staged_totals-length (r ∷ rows) = ap suc (staged_totals-length rows)

-- Where a scan succeeds, a claim of a table hands out each of its live rows as often as it stands there, and
-- nothing else; and the counter of the scan is the number of all rows.
pub claim-live :
    (t : TableId) (st : StagingStore) (ix : Index)
    → scan false st ≡ ok ix
    → ((i : ℕ) → count i (batch_ids (claim t ix).0) ≡ count i (live_ids t st.staging))
      × (ix.counters.records ≡ length st.staging)
unfolding scan claim entry count batch_ids
claim-live t st ix h =
    let (u, checked, last) =
      >>=-eq-ok (check_split (tally true st.staging []) (tally false st.staging [])) _ h in
    let found = add_rows st.staging empty_index in
    let live = live_rows t st.staging in
    let placed =
      pending_batches-entry t found.groups found.counters found.order
      ∙ ap (λ g. sealed_only g ++ unsealed_only g) (entry-add_rows t st.staging empty_index) in
    (
      λ i.
          ap (λ x. count i (batch_ids (pending_batches t x))) (sym (ok-injective last))
          ∙ ap (λ x. count i (batch_ids x)) placed
          ∙ count-split i (place_all live [])
          ∙ count-placed i live
          ∙ ap (count i) (live_rows-ids t st.staging),
      ap (λ c. c.records) (claim-scan t st ix h).1 ∙ staged_totals-length st.staging,
    )
