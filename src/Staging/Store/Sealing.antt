-- ===== src/Staging/Store/Sealing.antt =====
-- internal/staging/store.go: Seal, with its two statements.
use icelake.Prelude.{
  ℕ, Bool, true, false, not, ◌||◌, ◌&&◌, Option, none, some, List, [], ◌∷◌, if◌then◌else◌, bytes_eq,
  length, ◌==◌,
}
use icelake.Errdef.{
  Bytes, staging_error, write, state, Result, ok, err, need, refuse_if, ◌>>=◌, ◌>>◌,
}
use icelake.Canon.Shape.{Descriptor}
use icelake.Canon.Columns.{is_empty}
use icelake.Staging.Spool.{upsert_schema}
use icelake.Staging.Store.{StagingRow, StagingStore, is_quarantined, tx}

pub record SealRow : Type 0 where
  pub id : ℕ
  pub payload : Option Bytes

pub record SealRequest : Type 0 where
  pub namespace : Bytes
  pub table : Bytes
  pub batch_key : Bytes
  pub descriptor : Option Descriptor
  pub rows : List SealRow

-- The conditions of SealStagedRow and SealStagedRowRecoded on the row of the id.
abbrev pub may_seal : SealRequest → StagingRow → Bool
may_seal req r =
    bytes_eq r.namespace req.namespace
    && bytes_eq r.table_name req.table
    && elim r.batch_key [ none ↦ true | some k ↦ false ]
    && not (is_quarantined r)

-- What the two statements set.
abbrev pub sealed : SealRequest → Descriptor → Option Bytes → StagingRow → StagingRow
sealed req d none r = record {
  id = r.id;
  namespace = r.namespace;
  table_name = r.table_name;
  batch_key = some req.batch_key;
  schema_fp = r.schema_fp;
  payload = r.payload;
  byte_len = r.byte_len;
  created_at = r.created_at;
  quarantined_at = r.quarantined_at;
  quarantine_error = r.quarantine_error;
}
sealed req d (some p) r = record {
  id = r.id;
  namespace = r.namespace;
  table_name = r.table_name;
  batch_key = some req.batch_key;
  schema_fp = d.fp;
  payload = p;
  byte_len = length p;
  created_at = r.created_at;
  quarantined_at = r.quarantined_at;
  quarantine_error = r.quarantine_error;
}

-- One of them: `none` where no row matches.
unfoldable pub seal_row :
    SealRequest → Descriptor → SealRow → List StagingRow → Option (List StagingRow)
seal_row req d s [] = none
seal_row req d s (r ∷ rows) =
    let rest = seal_row req d s rows in
    if r.id == s.id
    then (if may_seal req r then some (sealed req d s.payload r ∷ rows) else none)
    else elim rest [ none ↦ none | some rows' ↦ some (r ∷ rows') ]

unfoldable pub seal_rows :
    SealRequest → Descriptor → List SealRow → List StagingRow → Result (List StagingRow)
seal_rows req d [] rows = ok rows
seal_rows req d (s ∷ ss) rows = do
  rows' ← need (seal_row req d s rows) (staging_error state)
  seal_rows req d ss rows'

-- The function that `Seal` runs in its transaction.
unfoldable pub seal_all : SealRequest → Descriptor → StagingStore → Result (Unit {0} × StagingStore)
seal_all req d st = do
  rows ← seal_rows req d req.rows st.staging
  ok (
    tt,
    record {
      staging = rows;
      staging_schemas = upsert_schema d.fp d.encoded st.staging_schemas;
      last_id = st.last_id;
    },
  )

abbrev pub has_no_rows : List SealRow → Bool
has_no_rows [] = true
has_no_rows (s ∷ ss) = false

-- The descriptor of a request that passes the guards.
unfoldable pub guarded : SealRequest → Result Descriptor
guarded req = do
  refuse_if (is_empty req.namespace || is_empty req.table) (staging_error write)
  refuse_if (is_empty req.batch_key) (staging_error write)
  d ← need req.descriptor (staging_error write)
  refuse_if (has_no_rows req.rows) (staging_error write)
  ok d

unfoldable pub seal : Bool → SealRequest → StagingStore → Result (Unit {0}) × StagingStore
seal fails req st = elim (guarded req) [
  | err e ↦ (err e, st)
  | ok d ↦ tx fails st (seal_all req d st)
]
