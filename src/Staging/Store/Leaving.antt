-- ===== src/Staging/Store/Leaving.antt =====
-- internal/staging/store.go: Delete, Quarantine, Schema, PruneSchemas and Counters, with their
-- statements. The map of checkWholeBatches is a list of batches, each with its distinct ids.
use icelake.Prelude.{
  ℕ, suc, ◌+◌, ℤ, Bool, true, false, not, ◌&&◌, none, some, List, [], ◌∷◌, if◌then◌else◌, bytes_eq,
  length, ◌==◌,
}
use icelake.Errdef.{
  Bytes, staging_error, read, write, state, Result, ok, err, need, refuse_if, ◌>>=◌, ◌>>◌,
}
use icelake.Canon.Shape.{Descriptor}
use icelake.Canon.Descriptor.{parse_descriptor}
use icelake.Staging.Spool.{find_schema, unix_milli}
use icelake.Staging.Store.{
  StagingRow, StagingStore, BatchId, same_table, same_batch, table_of, batch_of, is_sealed, tx,
  get_row,
}

unfoldable pub has_id : ℕ → List ℕ → Bool
has_id id [] = false
has_id id (i ∷ ids) = if i == id then true else has_id id ids

abbrev pub with_rows : List StagingRow → StagingStore → StagingStore
with_rows rows st = record {
  staging = rows;
  staging_schemas = st.staging_schemas;
  last_id = st.last_id;
}

-- `DeleteStagedRow` and its loop.
unfoldable pub delete_row : ℕ → List StagingRow → List StagingRow
delete_row id [] = []
delete_row id (r ∷ rows) = if r.id == id then delete_row id rows else r ∷ delete_row id rows

unfoldable pub delete_rows : List ℕ → List StagingRow → List StagingRow
delete_rows [] rows = rows
delete_rows (id ∷ ids) rows = delete_rows ids (delete_row id rows)

unfoldable pub delete : Bool → List ℕ → StagingStore → Result (Unit {0}) × StagingStore
delete fails [] st = (ok tt, st)
delete fails (id ∷ ids) st = tx fails st (ok (tt, with_rows (delete_rows (id ∷ ids) st.staging) st))

-- `QuarantineStagedRow`: the first mark stands.
abbrev pub quarantined_row : ℤ → Bytes → StagingRow → StagingRow
quarantined_row at cause r = record {
  id = r.id;
  namespace = r.namespace;
  table_name = r.table_name;
  batch_key = r.batch_key;
  schema_fp = r.schema_fp;
  payload = r.payload;
  byte_len = r.byte_len;
  created_at = r.created_at;
  quarantined_at = elim r.quarantined_at [ none ↦ some at | some t ↦ some t ];
  quarantine_error = elim r.quarantined_at [ none ↦ some cause | some t ↦ r.quarantine_error ];
}

unfoldable pub mark_row : ℤ → Bytes → ℕ → List StagingRow → List StagingRow
mark_row at cause id [] = []
mark_row at cause id (r ∷ rows) =
    (if r.id == id then quarantined_row at cause r else r) ∷ mark_row at cause id rows

unfoldable pub mark_rows : ℤ → Bytes → List ℕ → List StagingRow → List StagingRow
mark_rows at cause [] rows = rows
mark_rows at cause (id ∷ ids) rows = mark_rows at cause ids (mark_row at cause id rows)

-- The map `named` of checkWholeBatches.
unfoldable pub add_member : BatchId → ℕ → List (BatchId × List ℕ) → List (BatchId × List ℕ)
add_member b id [] = (b, id ∷ []) ∷ []
add_member b id ((c, ids) ∷ named) =
    if same_batch c b
    then (c, if has_id id ids then ids else id ∷ ids) ∷ named
    else (c, ids) ∷ add_member b id named

unfoldable pub gather :
    List StagingRow → List ℕ → List (BatchId × List ℕ) → Result (List (BatchId × List ℕ))
gather rows [] named = ok named
gather rows (id ∷ ids) named = do
  r ← need (get_row id rows) (staging_error state)
  gather rows ids (if is_sealed r then add_member (batch_of r) id named else named)

-- `batch_key = ?` of a column that may be NULL.
abbrev pub has_key : Bytes → StagingRow → Bool
has_key key r = elim r.batch_key [ none ↦ false | some k ↦ bytes_eq k key ]

abbrev pub in_batch : BatchId → StagingRow → Bool
in_batch b r = same_table (table_of r) b.table && has_key b.key r

-- `CountStagedRowsWithBatchKey`.
unfoldable pub count_batch : BatchId → List StagingRow → ℕ
count_batch b [] = 0
count_batch b (r ∷ rows) = if in_batch b r then suc (count_batch b rows) else count_batch b rows

unfoldable pub check_counts : List StagingRow → List (BatchId × List ℕ) → Result (Unit {0})
check_counts rows [] = ok tt
check_counts rows ((b, members) ∷ named) =
    refuse_if (not (count_batch b rows == length members)) (staging_error state)
    >> check_counts rows named

unfoldable pub check_whole_batches : List ℕ → List StagingRow → Result (Unit {0})
check_whole_batches ids rows = do named ← gather rows ids []; check_counts rows named

-- The function that `Quarantine` runs in its transaction.
unfoldable pub quarantine_all : ℤ → Bytes → List ℕ → StagingStore → Result (Unit {0} × StagingStore)
quarantine_all at cause ids st = do
  whole ← check_whole_batches ids st.staging
  ok (tt, with_rows (mark_rows (unix_milli at) cause ids st.staging) st)

unfoldable pub quarantine :
    Bool → ℤ → Bytes → List ℕ → StagingStore → Result (Unit {0}) × StagingStore
quarantine fails at cause [] st = (ok tt, st)
quarantine fails at cause (id ∷ ids) st = tx fails st (quarantine_all at cause (id ∷ ids) st)

-- `DeleteUnreferencedSchemas`.
unfoldable pub is_named : Bytes → List StagingRow → Bool
is_named fp [] = false
is_named fp (r ∷ rows) = if bytes_eq r.schema_fp fp then true else is_named fp rows

unfoldable pub keep_named : List StagingRow → List (Bytes × Bytes) → List (Bytes × Bytes)
keep_named rows [] = []
keep_named rows (s ∷ ss) = if is_named s.0 rows then s ∷ keep_named rows ss else keep_named rows ss

-- The count of deleted descriptors, of which no caller makes use, is left out.
unfoldable pub prune_schemas : Bool → StagingStore → Result (Unit {0}) × StagingStore
prune_schemas true st = (err (staging_error write), st)
prune_schemas false st = (
  ok tt,
  record {
    staging = st.staging;
    staging_schemas = keep_named st.staging st.staging_schemas;
    last_id = st.last_id;
  },
)

module _ (sha256_hex : Bytes → Bytes) where
  unfoldable pub schema : Bool → Bytes → StagingStore → Result Descriptor
  schema true fp st = err (staging_error read)
  schema false fp st = do
    raw ← need (find_schema fp st.staging_schemas) (staging_error state)
    parse_descriptor sha256_hex raw

-- Records and bytes.
pub record Counters : Type 0 where
  pub records : ℕ
  pub bytes : ℕ

-- `StagedTotals`: COUNT(*) and SUM(byte_len).
unfoldable pub staged_totals : List StagingRow → Counters
staged_totals [] = record { records = 0; bytes = 0 }
staged_totals (r ∷ rows) =
    let rest = staged_totals rows in
    record { records = suc rest.records; bytes = r.byte_len + rest.bytes }

unfoldable pub counters : Bool → StagingStore → Result Counters
counters true st = err (staging_error read)
counters false st = ok (staged_totals st.staging)
