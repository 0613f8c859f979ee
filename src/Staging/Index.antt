-- ===== src/Staging/Index.antt =====
-- internal/staging/index.go: one pass over the staged rows, and what a writer claims of it. The maps by
-- table are lists of a table and its entry. `position` needs no list of its own: the place of a key is
-- that of the table's batch with the key.
pub mod Grouped
pub mod Claimed
pub mod Covered
pub mod Whole
pub mod Startup
pub mod Tests
use icelake.Prelude.{
  ℕ, suc, ◌+◌, Bool, true, false, Option, none, some, List, [], ◌∷◌, ◌++◌, if◌then◌else◌, bytes_eq,
  ltb, ◌&&◌,
}
use icelake.Errdef.{Bytes, staging_error, read, state, Result, ok, err, refuse_if, ◌>>=◌, ◌>>◌}
use icelake.Canon.Columns.{is_empty}
use icelake.Staging.Store.{
  StagingRow, StagingStore, TableId, BatchId, same_table, same_batch, key_of, is_quarantined,
  table_of, batch_of, is_sealed,
}
use icelake.Staging.Store.Leaving.{Counters}

pub record PendingRow : Type 0 where
  pub id : ℕ
  pub schema_fp : Bytes
  pub byte_len : ℕ

pub record PendingBatch : Type 0 where
  pub key : Bytes
  pub rows : List PendingRow

pub record Index : Type 0 where
  pub counters : Counters
  pub order : List TableId
  pub groups : List (TableId × List PendingBatch)

abbrev pub pending_row : StagingRow → PendingRow
pending_row r = record { id = r.id; schema_fp = r.schema_fp; byte_len = r.byte_len }

abbrev add_to : PendingBatch → PendingRow → PendingBatch
add_to b p = record { key = b.key; rows = b.rows ++ p ∷ [] }

-- The row joins the batch of its key, which is new where there is none.
pub place : StagingRow → List PendingBatch → List PendingBatch
place r [] = (record { key = key_of r; rows = pending_row r ∷ [] }) ∷ []
place r (b ∷ batches) =
    if bytes_eq b.key (key_of r) then add_to b (pending_row r) ∷ batches else b ∷ place r batches

pub place_in : StagingRow → List (TableId × List PendingBatch) → List (TableId × List PendingBatch)
place_in r [] = (table_of r, place r []) ∷ []
place_in r ((t, batches) ∷ groups) =
    if same_table t (table_of r)
    then (t, place r batches) ∷ groups
    else (t, batches) ∷ place_in r groups

pub is_seen : TableId → List TableId → Bool
is_seen t [] = false
is_seen t (u ∷ order) = if same_table u t then true else is_seen t order

-- What the pass adds to the index for one row.
abbrev pub add_row : StagingRow → Index → Index
add_row r ix = record {
  counters = record { records = suc ix.counters.records; bytes = ix.counters.bytes + r.byte_len };
  order =
      if is_quarantined r
      then ix.order
      else if is_seen (table_of r) ix.order
      then ix.order
      else ix.order ++ table_of r ∷ [];
  groups = if is_quarantined r then ix.groups else place_in r ix.groups;
}

pub add_rows : List StagingRow → Index → Index
add_rows [] ix = ix
add_rows (r ∷ rows) ix = add_rows rows (add_row r ix)

-- `quarantined[b]++` and `live[b]++`.
pub bump : BatchId → List (BatchId × ℕ) → List (BatchId × ℕ)
bump b [] = (b, 1) ∷ []
bump b ((c, n) ∷ m) = if same_batch c b then (c, suc n) ∷ m else (c, n) ∷ bump b m

pub count_of : BatchId → List (BatchId × ℕ) → ℕ
count_of b [] = 0
count_of b ((c, n) ∷ m) = if same_batch c b then n else count_of b m

-- How many rows of each sealed batch are quarantined, where `q` is true, or live.
pub tally : Bool → List StagingRow → List (BatchId × ℕ) → List (BatchId × ℕ)
tally q [] m = m
tally q (r ∷ rows) m = tally q rows (
    if is_sealed r
    then (if is_quarantined r
        then (if q then bump (batch_of r) m else m)
        else (if q then m else bump (batch_of r) m))
    else m)

pub check_split : List (BatchId × ℕ) → List (BatchId × ℕ) → Result (Unit {0})
check_split [] live = ok tt
check_split ((b, n) ∷ quarantined) live =
    refuse_if (ltb 0 (count_of b live)) (staging_error state) >> check_split quarantined live

abbrev pub empty_index : Index
empty_index = record { counters = record { records = 0; bytes = 0 }; order = []; groups = [] }

pub scan : Bool → StagingStore → Result Index
scan true st = err (staging_error read)
scan false st =
    check_split (tally true st.staging []) (tally false st.staging [])
    >> ok (add_rows st.staging empty_index)

unfoldable pub group_of : TableId → List (TableId × List PendingBatch) → Option (List PendingBatch)
group_of t [] = none
group_of t ((u, batches) ∷ groups) = if same_table u t then some batches else group_of t groups

pub tables_in : List TableId → List (TableId × List PendingBatch) → List TableId
tables_in [] groups = []
tables_in (t ∷ order) groups =
    let rest = tables_in order groups in
    elim (group_of t groups) [ none ↦ rest | some batches ↦ t ∷ rest ]

pub tables : Index → List TableId
tables ix = tables_in ix.order ix.groups

-- The batches that are sealed, or those that are not, in their order.
unfoldable pub sealed_only : List PendingBatch → List PendingBatch
sealed_only [] = []
sealed_only (b ∷ batches) = if is_empty b.key then sealed_only batches else b ∷ sealed_only batches

unfoldable pub unsealed_only : List PendingBatch → List PendingBatch
unsealed_only [] = []
unsealed_only (b ∷ batches) =
    if is_empty b.key then b ∷ unsealed_only batches else unsealed_only batches

unfoldable pub pending_batches : TableId → Index → List PendingBatch
pending_batches t ix = elim (group_of t ix.groups) [
  | none ↦ []
  | some batches ↦ sealed_only batches ++ unsealed_only batches
]

unfoldable pub drop_group :
    TableId → List (TableId × List PendingBatch) → List (TableId × List PendingBatch)
drop_group t [] = []
drop_group t ((u, batches) ∷ groups) =
    if same_table u t then drop_group t groups else (u, batches) ∷ drop_group t groups

unfoldable pub claim : TableId → Index → List PendingBatch × Index
claim t ix = (
  pending_batches t ix,
  record { counters = ix.counters; order = ix.order; groups = drop_group t ix.groups },
)
