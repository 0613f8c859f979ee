-- ===== src/Spool.antt =====
-- internal/spool/spool.go: the local cache of Parquet files, its writes and its retention sweep.
pub mod Writing
pub mod Sweep
pub mod Retention
pub mod Counting
pub mod Bounds
pub mod Expiry
mod Tests
use icelake.Prelude.{
  ℕ, zero, suc, ◌+◌, ◌-◌, ◌*◌, ◌^◌, ℤ, pos, negsuc, pos_part, neg_part, Bool, true, false, not,
  ◌||◌, ◌&&◌, Option, none, some, List, [], ◌∷◌, if◌then◌else◌, bytes_eq, ltb, ◌==◌, ltb_ℤ,
}
use icelake.Errdef.{
  Bytes, Error, spool_error, write_failed, record_failed, mark_failed, evict_error, Result, ok, err,
}
use icelake.Canon.Shape.{Descriptor}
use icelake.Staging.Spool.{
  SpoolEntry, Database, SpoolRecord, record_spool_file, mark_spool_committed, delete_spool_file,
  prune_spool_schemas,
}
use icelake.Staging.Spool.Rows.{spool_committed_bytes, spool_evictable}

-- `Path`: the segments that vary under the cache directory.
pub record SpoolPath : Type 0 where
  pub namespace : Bytes
  pub table_name : Bytes
  pub batch_key : Bytes

abbrev pub path_of : SpoolEntry → SpoolPath
path_of f = record { namespace = f.namespace; table_name = f.table_name; batch_key = f.batch_key }

pub path_eq : SpoolPath → SpoolPath → Bool
path_eq p q =
    bytes_eq p.namespace q.namespace
    && bytes_eq p.table_name q.table_name
    && bytes_eq p.batch_key q.batch_key

-- The database and the files that stand under their final names.
pub record Cache : Type 0 where
  pub db : Database
  pub files : List SpoolPath

-- How `writeFile` ends: the file under its final name, nothing under it, or the file with an error,
-- where only the flush of the directory failed.
pub data WriteOutcome : Type 0 where
  written not_written not_flushed : WriteOutcome

-- The kind of the error that the spool returns for an error of the database.
pub wrapped : Error → Result (Unit {0}) → Result (Unit {0})
wrapped cause (ok u) = ok u
wrapped cause (err e) = err cause

abbrev record_of : Bytes → Bytes → Bytes → Descriptor → ℕ → ℤ → SpoolRecord
record_of namespace table key d len now = record {
  namespace = namespace;
  table_name = table;
  batch_key = key;
  descriptor = some d;
  byte_len = len;
  created_at = now;
}

-- `Write`, of a body of `len` bytes.
pub spool_write :
    WriteOutcome
    → Bool
    → Bytes
    → Bytes
    → Bytes
    → Descriptor
    → ℕ
    → ℤ
    → Cache
    → Result (Unit {0}) × Cache
spool_write not_written fails namespace table key d len now c =
    (err (spool_error write_failed key), c)
spool_write not_flushed fails namespace table key d len now c = (
  err (spool_error write_failed key),
  record {
    db = c.db;
    files = record { namespace = namespace; table_name = table; batch_key = key } ∷ c.files;
  },
)
spool_write written fails namespace table key d len now c =
    let (result, db) = record_spool_file fails (record_of namespace table key d len now) c.db in
    (
      wrapped (spool_error record_failed key) result,
      record {
        db = db;
        files = record { namespace = namespace; table_name = table; batch_key = key } ∷ c.files;
      },
    )

mark_committed : Bool → Bytes → ℤ → Cache → Result (Unit {0}) × Cache
mark_committed fails key now c =
    let (result, db) = mark_spool_committed fails key now c.db in
    (wrapped (spool_error mark_failed key) result, record { db = db; files = c.files })

-- What goes wrong in a sweep: the deletion of a file, or of its row, by batch key, and the statements.
pub record Faults : Type 0 where
  pub remove_fails : Bytes → Bool
  pub delete_fails : Bytes → Bool
  pub list_fails : Bool
  pub total_fails : Bool
  pub prune_fails : Bool

-- `os.Remove`; a file that is not there is no error.
pub remove_path : SpoolPath → List SpoolPath → List SpoolPath
remove_path p [] = []
remove_path p (q ∷ files) = if path_eq q p then remove_path p files else q ∷ remove_path p files

pub evict : Faults → SpoolEntry → Cache → Result (Unit {0}) × Cache
evict faults f c =
    if faults.remove_fails f.batch_key
    then (err (evict_error f.batch_key), c)
    else let (result, db) = delete_spool_file (faults.delete_fails f.batch_key) f.batch_key c.db in
      (result, record { db = db; files = remove_path (path_of f) c.files })
