-- ===== src/Staging/Spool.antt =====
-- internal/staging/spool.go, with the statements of internal/staging/queries.sql.go that it runs: the
-- rows that say what the cache directory holds. A flag `fails` says that the database refuses the
-- statement or the transaction, which then changes nothing.
pub mod Rows
pub mod Keeps
pub mod Ordered
pub mod Recording
pub mod Consistent
mod Tests
use icelake.Prelude.{
  ℕ, ◌+◌, ◌/◌, ℤ, pos, negsuc, Bool, true, false, not, ◌||◌, ◌&&◌, Option, none, some, List, [],
  ◌∷◌, if◌then◌else◌, bytes_eq, ltb, ◌==◌, ltb_ℤ, ◌==ℤ◌,
}
use icelake.Errdef.{Bytes, Error, staging_error, read, write, state, Result, ok, err, need, ◌>>=◌}
use icelake.Canon.Shape.{Descriptor}
use icelake.Canon.Columns.{is_empty}
use icelake.Canon.Descriptor.{parse_descriptor}

-- A row of spool_files. Times are Unix milliseconds, and `none` is a NULL committed_at.
pub record SpoolEntry : Type 0 where
  pub batch_key : Bytes
  pub namespace : Bytes
  pub table_name : Bytes
  pub schema_fp : Bytes
  pub byte_len : ℕ
  pub created_at : ℤ
  pub committed_at : Option ℤ

-- The tables spool_files and spool_schemas, the latter as fingerprint and descriptor.
pub record Database : Type 0 where
  pub spool_files : List SpoolEntry
  pub spool_schemas : List (Bytes × Bytes)

pub record SpoolRecord : Type 0 where
  pub namespace : Bytes
  pub table_name : Bytes
  pub batch_key : Bytes
  pub descriptor : Option Descriptor
  pub byte_len : ℕ
  pub created_at : ℤ

-- `UnixMilli` of a time in nanoseconds since 1970, rounded down.
unfoldable pub unix_milli : ℤ → ℤ
unix_milli (pos n) = pos (n / 1000000)
unix_milli (negsuc n) = negsuc (n / 1000000)

-- `UpsertSpoolSchema`: nothing on a conflict.
unfoldable pub upsert_schema : Bytes → Bytes → List (Bytes × Bytes) → List (Bytes × Bytes)
upsert_schema fp d [] = (fp, d) ∷ []
upsert_schema fp d (s ∷ ss) = if bytes_eq s.0 fp then s ∷ ss else s ∷ upsert_schema fp d ss

-- `UpsertSpoolFile` on a conflict: the shape and the size move, and nothing else.
abbrev pub rewritten : SpoolEntry → SpoolEntry → SpoolEntry
rewritten old new = record {
  batch_key = old.batch_key;
  namespace = old.namespace;
  table_name = old.table_name;
  schema_fp = new.schema_fp;
  byte_len = new.byte_len;
  created_at = old.created_at;
  committed_at = old.committed_at;
}

pub upsert_file : SpoolEntry → List SpoolEntry → List SpoolEntry
upsert_file new [] = new ∷ []
upsert_file new (old ∷ files) =
    if bytes_eq old.batch_key new.batch_key
    then rewritten old new ∷ files
    else old ∷ upsert_file new files

-- The row that is inserted where the key is new.
abbrev pub entry_of : SpoolRecord → Descriptor → SpoolEntry
entry_of r d = record {
  batch_key = r.batch_key;
  namespace = r.namespace;
  table_name = r.table_name;
  schema_fp = d.fp;
  byte_len = r.byte_len;
  created_at = unix_milli r.created_at;
  committed_at = none;
}

-- The transaction of `RecordSpoolFile`.
pub record_rows : Bool → SpoolRecord → Descriptor → Database → Result (Unit {0}) × Database
record_rows true r d db = (err (staging_error write), db)
record_rows false r d db = (
  ok tt,
  record {
    spool_files = upsert_file (entry_of r d) db.spool_files;
    spool_schemas = upsert_schema d.fp d.encoded db.spool_schemas;
  },
)

pub record_spool_file : Bool → SpoolRecord → Database → Result (Unit {0}) × Database
record_spool_file fails r db =
    if is_empty r.namespace || is_empty r.table_name || is_empty r.batch_key
    then (err (staging_error write), db)
    else elim r.descriptor [
      | none ↦ (err (staging_error write), db)
      | some d ↦ record_rows fails r d db
    ]

-- `MarkSpoolFileCommitted`: the row of the key, where it is not marked already.
abbrev marked : SpoolEntry → ℤ → SpoolEntry
marked f at = record {
  batch_key = f.batch_key;
  namespace = f.namespace;
  table_name = f.table_name;
  schema_fp = f.schema_fp;
  byte_len = f.byte_len;
  created_at = f.created_at;
  committed_at = elim f.committed_at [ none ↦ some at | some t ↦ some t ];
}

pub mark_files : Bytes → ℤ → List SpoolEntry → List SpoolEntry
mark_files key at [] = []
mark_files key at (f ∷ files) =
    (if bytes_eq f.batch_key key then marked f at else f) ∷ mark_files key at files

pub mark_spool_committed : Bool → Bytes → ℤ → Database → Result (Unit {0}) × Database
mark_spool_committed fails key at db =
    if is_empty key || fails then (err (staging_error write), db) else (
      ok tt,
      record {
        spool_files = mark_files key (unix_milli at) db.spool_files;
        spool_schemas = db.spool_schemas;
      },
    )

-- `DeleteSpoolFile` and `DeleteUnreferencedSpoolSchemas`.
unfoldable pub delete_files : Bytes → List SpoolEntry → List SpoolEntry
delete_files key [] = []
delete_files key (f ∷ files) =
    if bytes_eq f.batch_key key then delete_files key files else f ∷ delete_files key files

unfoldable pub delete_spool_file : Bool → Bytes → Database → Result (Unit {0}) × Database
delete_spool_file true key db = (err (staging_error write), db)
delete_spool_file false key db = (
  ok tt,
  record { spool_files = delete_files key db.spool_files; spool_schemas = db.spool_schemas },
)

unfoldable pub is_referenced : Bytes → List SpoolEntry → Bool
is_referenced fp [] = false
is_referenced fp (f ∷ files) = if bytes_eq f.schema_fp fp then true else is_referenced fp files

unfoldable pub keep_referenced : List SpoolEntry → List (Bytes × Bytes) → List (Bytes × Bytes)
keep_referenced files [] = []
keep_referenced files (s ∷ ss) =
    if is_referenced s.0 files then s ∷ keep_referenced files ss else keep_referenced files ss

unfoldable pub prune_spool_schemas : Bool → Database → Result (Unit {0}) × Database
prune_spool_schemas true db = (err (staging_error write), db)
prune_spool_schemas false db = (
  ok tt,
  record {
    spool_files = db.spool_files;
    spool_schemas = keep_referenced db.spool_files db.spool_schemas;
  },
)

-- `GetSpoolSchema`: no row is `none`.
unfoldable pub find_schema : Bytes → List (Bytes × Bytes) → Option Bytes
find_schema fp [] = none
find_schema fp (s ∷ ss) = if bytes_eq s.0 fp then some s.1 else find_schema fp ss

module _ (sha256_hex : Bytes → Bytes) where
  pub spool_schema : Bool → Bytes → Database → Result Descriptor
  spool_schema true fp db = err (staging_error read)
  spool_schema false fp db = do
    raw ← need (find_schema fp db.spool_schemas) (staging_error state)
    parse_descriptor sha256_hex raw
