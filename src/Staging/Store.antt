-- ===== src/Staging/Store.antt =====
-- internal/staging/store.go, with the statements of internal/staging/queries.sql.go that it runs: the
-- accepted records that are not committed yet. `fails` says that the database breaks, which rolls the
-- transaction back. The rows stand in the order of their ids, which is the order of ScanStagedRows.
pub mod Sealing
pub mod Leaving
pub mod Related
pub mod Sealed
pub mod Counted
pub mod Gathered
pub mod Quarantined
pub mod Whole
pub mod Shaped
pub mod Sound
pub mod Tests
use icelake.Prelude.{
  ℕ, suc, ◌+◌, ℤ, Bool, true, false, not, ◌||◌, ◌&&◌, Option, none, some, List, [], ◌∷◌, ◌++◌,
  if◌then◌else◌, bytes_eq, length, ◌==◌,
}
use icelake.Errdef.{
  Bytes, Error, staging_error, read, write, state, Result, ok, err, need, refuse_if, ◌>>=◌, ◌>>◌,
}
use icelake.Canon.Shape.{Descriptor}
use icelake.Canon.Columns.{is_empty}
use icelake.Canon.Descriptor.{parse_descriptor}
use icelake.Staging.Spool.{upsert_schema, find_schema, unix_milli}

-- A row of the table staging: `none` is NULL.
pub record StagingRow : Type 0 where
  pub id : ℕ
  pub namespace : Bytes
  pub table_name : Bytes
  pub batch_key : Option Bytes
  pub schema_fp : Bytes
  pub payload : Bytes
  pub byte_len : ℕ
  pub created_at : ℤ
  pub quarantined_at : Option ℤ
  pub quarantine_error : Option Bytes

-- The tables staging and staging_schemas, and the last id that AUTOINCREMENT gave.
pub record StagingStore : Type 0 where
  pub staging : List StagingRow
  pub staging_schemas : List (Bytes × Bytes)
  pub last_id : ℕ

pub record TableId : Type 0 where
  pub namespace : Bytes
  pub table : Bytes

pub record BatchId : Type 0 where
  pub table : TableId
  pub key : Bytes

abbrev pub same_table : TableId → TableId → Bool
same_table t u = bytes_eq t.namespace u.namespace && bytes_eq t.table u.table

abbrev pub same_batch : BatchId → BatchId → Bool
same_batch b c = same_table b.table c.table && bytes_eq b.key c.key

-- `BatchKey.String` and `QuarantinedAt.Valid`.
abbrev pub key_of : StagingRow → Bytes
key_of r = elim r.batch_key [ none ↦ [] | some k ↦ k ]

abbrev pub is_quarantined : StagingRow → Bool
is_quarantined r = elim r.quarantined_at [ none ↦ false | some t ↦ true ]

abbrev pub table_of : StagingRow → TableId
table_of r = record { namespace = r.namespace; table = r.table_name }

abbrev pub batch_of : StagingRow → BatchId
batch_of r = record { table = table_of r; key = key_of r }

-- `BatchKey.Valid && BatchKey.String != ""`.
abbrev pub is_sealed : StagingRow → Bool
is_sealed r = not (is_empty (key_of r))

-- `tx`: what the function left where it succeeds, and the store as it was on any error.
abbrev pub tx :
    {A : Type 0} → Bool → StagingStore → Result (A × StagingStore) → Result A × StagingStore
tx true st r = (err (staging_error write), st)
tx false st (err e) = (err e, st)
tx false st (ok (a, st')) = (ok a, st')

pub record AppendRow : Type 0 where
  pub namespace : Bytes
  pub table : Bytes
  pub descriptor : Option Descriptor
  pub payload : Bytes
  pub created_at : ℤ

-- The check before the transaction: every row has a descriptor and a payload.
unfoldable pub checked_rows : List AppendRow → Result (List (AppendRow × Descriptor))
checked_rows [] = ok []
checked_rows (row ∷ rows) = do
  d ← need row.descriptor (staging_error write)
  refuse_if (is_empty row.payload) (staging_error write)
  rest ← checked_rows rows
  ok ((row, d) ∷ rest)

-- `InsertStagedRow`: unsealed, under the next id.
abbrev pub staged : AppendRow → Descriptor → ℕ → StagingRow
staged row d id = record {
  id = id;
  namespace = row.namespace;
  table_name = row.table;
  batch_key = none;
  schema_fp = d.fp;
  payload = row.payload;
  byte_len = length row.payload;
  created_at = unix_milli row.created_at;
  quarantined_at = none;
  quarantine_error = none;
}

pub is_recorded : Bytes → List Bytes → Bool
is_recorded fp [] = false
is_recorded fp (k ∷ ks) = if bytes_eq k fp then true else is_recorded fp ks

abbrev pub insert_row : List Bytes → AppendRow → Descriptor → StagingStore → StagingStore
insert_row recorded row d st = record {
  staging = st.staging ++ staged row d (suc st.last_id) ∷ [];
  staging_schemas =
      if is_recorded d.fp recorded
      then st.staging_schemas
      else upsert_schema d.fp d.encoded st.staging_schemas;
  last_id = suc st.last_id;
}

unfoldable pub insert_rows :
    List Bytes → List (AppendRow × Descriptor) → StagingStore → List ℕ × StagingStore
insert_rows recorded [] st = ([], st)
insert_rows recorded ((row, d) ∷ rows) st =
    let st' = insert_row recorded row d st in
    let rest = insert_rows (d.fp ∷ recorded) rows st' in (st'.last_id ∷ rest.0, rest.1)

unfoldable pub append_batch : Bool → List AppendRow → StagingStore → Result (List ℕ) × StagingStore
append_batch fails [] st = (ok [], st)
append_batch fails (row ∷ rows) st = elim (checked_rows (row ∷ rows)) [
  | err e ↦ (err e, st)
  | ok checked ↦ tx fails st (ok (insert_rows [] checked st))
]

-- `ids[0]`, where there is one.
abbrev first_id : Result (List ℕ) → Result (Option ℕ)
first_id (err e) = err e
first_id (ok []) = ok none
first_id (ok (id ∷ ids)) = ok (some id)

unfoldable pub append : Bool → AppendRow → StagingStore → Result (Option ℕ) × StagingStore
append fails row st =
    let appended = append_batch fails (row ∷ []) st in (first_id appended.0, appended.1)

-- The row of a primary key.
unfoldable pub get_row : ℕ → List StagingRow → Option StagingRow
get_row id [] = none
get_row id (r ∷ rows) = if r.id == id then some r else get_row id rows

pub record StagedRow : Type 0 where
  pub id : ℕ
  pub namespace : Bytes
  pub table : Bytes
  pub batch_key : Bytes
  pub schema_fp : Bytes
  pub payload : Bytes
  pub created_at : ℤ
  pub quarantined : Bool

abbrev pub staged_row : StagingRow → StagedRow
staged_row r = record {
  id = r.id;
  namespace = r.namespace;
  table = r.table_name;
  batch_key = key_of r;
  schema_fp = r.schema_fp;
  payload = r.payload;
  created_at = r.created_at;
  quarantined = is_quarantined r;
}

-- `Rows`, where `fails` says for which ids the database does not answer.
unfoldable pub rows : (ℕ → Bool) → List ℕ → StagingStore → Result (List StagedRow)
rows fails [] st = ok []
rows fails (id ∷ ids) st = do
  refuse_if (fails id) (staging_error read)
  r ← need (get_row id st.staging) (staging_error state)
  rest ← rows fails ids st
  ok (staged_row r ∷ rest)
