-- ===== src/Staging/Index/Claimed.antt =====
-- internal/staging/index.go: what a claim hands out, against the rows of the table.
use icelake.Prelude.{
  ℕ, ◌+◌, ◌≡◌, refl, sym, ap, ◌∙◌, true, false, not, ◌&&◌, Bool-cases, inl, inr, List, [], ◌∷◌,
  ◌++◌, subst, if◌then◌else◌, arith,
}
use mathlib.Core.Path.{ap₂}
use icelake.Errdef.{Bytes, ok, >>=-eq-ok, ok-injective}
use icelake.Canon.Columns.{is_empty}
use icelake.Staging.Store.{StagingRow, StagingStore, TableId, same_table, is_quarantined, table_of}
use icelake.Staging.Store.Gathered.{same_table→eq}
use icelake.Staging.Store.Leaving.{Counters, staged_totals}
use icelake.Staging.Index.{
  PendingBatch, Index, place, place_in, add_row, add_rows, empty_index, tally, check_split, scan,
  group_of, sealed_only, unsealed_only, pending_batches, drop_group, claim,
}
use icelake.Staging.Index.Grouped.{keys_after, batches, place_all, place_all_lem}

-- The rows of a table that replay has to deliver.
unfoldable pub live_rows : TableId → List StagingRow → List StagingRow
live_rows t [] = []
live_rows t (r ∷ rows) =
    if not (is_quarantined r) && same_table (table_of r) t
    then r ∷ live_rows t rows
    else live_rows t rows

-- The keys of sealed batches, and the empty key of the tail.
sealed_keys : List Bytes → List Bytes
sealed_keys [] = []
sealed_keys (k ∷ ks) = if is_empty k then sealed_keys ks else k ∷ sealed_keys ks

unsealed_keys : List Bytes → List Bytes
unsealed_keys [] = []
unsealed_keys (k ∷ ks) = if is_empty k then k ∷ unsealed_keys ks else unsealed_keys ks

-- What is pending for a table: its live rows by batch key, in the order in which the keys come up, and
-- last those without one.
pub pending : TableId → List StagingRow → List PendingBatch
pending t rows =
    let live = live_rows t rows in
    let ks = keys_after [] live in batches live (sealed_keys ks) ++ batches live (unsealed_keys ks)

sealed_only-batches :
    (rows : List StagingRow) (ks : List Bytes)
    → sealed_only (batches rows ks) ≡ batches rows (sealed_keys ks)
unfolding sealed_only batches sealed_keys
sealed_only-batches rows [] = refl
sealed_only-batches rows (k ∷ ks) = elim (Bool-cases (is_empty k)) [
  | inl e ↦ rw e (sealed_only-batches rows ks)
  | inr e ↦ rw (e, sealed_only-batches rows ks) refl
]

unsealed_only-batches :
    (rows : List StagingRow) (ks : List Bytes)
    → unsealed_only (batches rows ks) ≡ batches rows (unsealed_keys ks)
unfolding unsealed_only batches unsealed_keys
unsealed_only-batches rows [] = refl
unsealed_only-batches rows (k ∷ ks) = elim (Bool-cases (is_empty k)) [
  | inl e ↦ rw (e, unsealed_only-batches rows ks) refl
  | inr e ↦ rw e (unsealed_only-batches rows ks)
]

-- A table's entry in the map, empty where it has none.
unfoldable pub entry : TableId → List (TableId × List PendingBatch) → List PendingBatch
entry t [] = []
entry t ((u, bs) ∷ groups) = if same_table u t then bs else entry t groups

entry-place_in :
    (r : StagingRow) (t : TableId) (groups : List (TableId × List PendingBatch))
    → entry t (place_in r groups)
      ≡ (if same_table (table_of r) t then place r (entry t groups) else entry t groups)
unfolding entry place_in
entry-place_in r t [] = refl
entry-place_in r t ((u, bs) ∷ groups) = elim (Bool-cases (same_table u (table_of r))) [
  | inl e ↦ elim (Bool-cases (same_table u t)) [
    | inl f ↦ rw (e, f, sym (ap (λ v. same_table v t) (same_table→eq u (table_of r) e)) ∙ f) refl
    | inr f ↦ rw (e, f, sym (ap (λ v. same_table v t) (same_table→eq u (table_of r) e)) ∙ f) refl
  ]
  | inr e ↦ elim (Bool-cases (same_table u t)) [
    | inl f ↦ elim (Bool-cases (same_table (table_of r) t)) [
      | inl g ↦ absurd (cc (ap (same_table u) (same_table→eq (table_of r) t g), e, f))
      | inr g ↦ rw (e, f, g) refl
    ]
    | inr f ↦ rw (e, f) (entry-place_in r t groups)
  ]
]

pub entry-add_rows :
    (t : TableId) (rows : List StagingRow) (ix : Index)
    → entry t (add_rows rows ix).groups ≡ place_all (live_rows t rows) (entry t ix.groups)
unfolding add_rows live_rows place_all
entry-add_rows t [] ix = refl
entry-add_rows t (r ∷ rows) ix =
    entry-add_rows t rows (add_row r ix) ∙ (elim (Bool-cases (is_quarantined r)) [
      | inl q ↦ rw q refl
      | inr q ↦
          rw (q, entry-place_in r t ix.groups)
            (elim (Bool-cases (same_table (table_of r) t)) [
              | inl e ↦ rw e refl
              | inr e ↦ rw e refl
            ])
    ])

counters-add_rows :
    (rows : List StagingRow) (ix : Index)
    → ((add_rows rows ix).counters.records ≡ ix.counters.records + (staged_totals rows).records)
      × ((add_rows rows ix).counters.bytes ≡ ix.counters.bytes + (staged_totals rows).bytes)
unfolding add_rows staged_totals
counters-add_rows [] ix = (omega arith, omega arith)
counters-add_rows (r ∷ rows) ix =
    let (a, b) = counters-add_rows rows (add_row r ix) in (omega (arith, a), omega (arith, b))

pub pending_batches-entry :
    (t : TableId) (groups : List (TableId × List PendingBatch)) (c : Counters)
    (order : List TableId)
    → pending_batches t (record { counters = c; order = order; groups = groups })
      ≡ sealed_only (entry t groups) ++ unsealed_only (entry t groups)
unfolding pending_batches entry group_of sealed_only unsealed_only
pending_batches-entry t [] c order = refl
pending_batches-entry t ((u, bs) ∷ groups) c order = elim (Bool-cases (same_table u t)) [
  | inl e ↦ rw (pending_batches, group_of, e) refl
  | inr e ↦ rw (pending_batches, group_of, e) (pending_batches-entry t groups c order)
]

pending_batches-add_rows :
    (t : TableId) (rows : List StagingRow)
    → pending_batches t (add_rows rows empty_index) ≡ pending t rows
unfolding pending entry
pending_batches-add_rows t rows =
    let ix = add_rows rows empty_index in
    let live = live_rows t rows in
    let split : List PendingBatch → List PendingBatch = λ g. sealed_only g ++ unsealed_only g in
    let joined : List PendingBatch → List PendingBatch → List PendingBatch = λ xs ys. xs ++ ys in
    pending_batches-entry t ix.groups ix.counters ix.order
    ∙ ap split (entry-add_rows t rows empty_index ∙ place_all_lem live)
    ∙ ap₂ joined (sealed_only-batches live (keys_after [] live))
        (unsealed_only-batches live (keys_after [] live))

pub counters-scan :
    (rows : List StagingRow) → (add_rows rows empty_index).counters ≡ staged_totals rows
counters-scan rows =
    let (a, b) = counters-add_rows rows empty_index in
    let both : ℕ → ℕ → Counters = λ m n. record { records = m; bytes = n } in
    ap₂ both (omega (arith, a)) (omega (arith, b))

-- Where a scan succeeds, a claim of any table hands out exactly the table's live rows: those of each
-- batch key together and in id order, the sealed batches in the order in which their keys come up and
-- the unsealed rows last; and the counters of the scan are the totals over all rows.
pub claim-scan :
    (t : TableId) (st : StagingStore) (ix : Index)
    → scan false st ≡ ok ix
    → ((claim t ix).0 ≡ pending t st.staging) × (ix.counters ≡ staged_totals st.staging)
unfolding scan claim
claim-scan t st ix h =
    let (u, checked, last) =
      >>=-eq-ok (check_split (tally true st.staging []) (tally false st.staging [])) _ h in
    subst
      (λ j. (pending_batches t j ≡ pending t st.staging) × (j.counters ≡ staged_totals st.staging))
      (ok-injective last) (pending_batches-add_rows t st.staging, counters-scan st.staging)

entry-drop_group :
    (t : TableId) (groups : List (TableId × List PendingBatch)) → entry t (drop_group t groups) ≡ []
unfolding entry drop_group
entry-drop_group t [] = refl
entry-drop_group t ((u, bs) ∷ groups) = elim (Bool-cases (same_table u t)) [
  | inl e ↦ rw e (entry-drop_group t groups)
  | inr e ↦ rw (e, e) (entry-drop_group t groups)
]

entry-drop_group_other :
    (t u : TableId) (groups : List (TableId × List PendingBatch))
    → same_table t u ≡ false
    → entry u (drop_group t groups) ≡ entry u groups
unfolding entry drop_group
entry-drop_group_other t u [] h = refl
entry-drop_group_other t u ((v, bs) ∷ groups) h = elim (Bool-cases (same_table v t)) [
  | inl e ↦
      rw (e, ap (λ w. same_table w u) (same_table→eq v t e) ∙ h)
        (entry-drop_group_other t u groups h)
  | inr e ↦ rw (e, entry-drop_group_other t u groups h) refl
]

-- After a claim of a table, a second claim of it hands out nothing, and a claim of any other table what
-- it would have handed out before.
claim-claim :
    (t u : TableId) (ix : Index)
    → same_table t u ≡ false
    → ((claim t (claim t ix).1).0 ≡ []) × ((claim u (claim t ix).1).0 ≡ (claim u ix).0)
unfolding claim sealed_only unsealed_only
claim-claim t u ix h =
    let split : List PendingBatch → List PendingBatch = λ g. sealed_only g ++ unsealed_only g in
    (
      pending_batches-entry t (drop_group t ix.groups) ix.counters ix.order
          ∙ ap split (entry-drop_group t ix.groups),
      pending_batches-entry u (drop_group t ix.groups) ix.counters ix.order
          ∙ ap split (entry-drop_group_other t u ix.groups h)
          ∙ sym (pending_batches-entry u ix.groups ix.counters ix.order),
    )
