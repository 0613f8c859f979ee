-- ===== src/Spool/Tests.antt =====
-- Concrete sweeps of internal/spool/spool.go, and its theorems at a cache of three files.
use icelake.Prelude.{
  ℕ, ◌≤◌, ◌≡◌, refl, inl, inr, ℤ, pos, true, false, Option, none, some, List, [], ◌∷◌, arith,
  bytes_eq,
}
use icelake.Errdef.{Bytes, ok, err, evict_error}
use icelake.Staging.Spool.{
  SpoolEntry, delete_files, delete_spool_file, is_referenced, keep_referenced, prune_spool_schemas,
}
use icelake.Staging.Spool.Rows.{
  ltb_bytes, comes_before, insert_entry, order_entries, is_committed, committed_only, sum_bytes,
  spool_committed_bytes, spool_evictable,
}
use icelake.Staging.Spool.Keeps.{Unique}
use icelake.Spool.{SpoolPath, path_of, path_eq, Cache, Faults, remove_path, evict}
use icelake.Spool.Sweep.{
  difference, from_milli, saturated, is_expired, first_of, settle, attempt, by_age, not_expired,
  by_size, report, settle_prune, finish, sweep_files, sweep,
}
use icelake.Prelude.{◌⊎◌, In}
use icelake.Errdef.{Error}
use icelake.Canon.Shape.{Descriptor}
use icelake.Spool.{written, spool_write}
use icelake.Staging.Spool.Recording.{IsRecorded}
use icelake.Spool.Writing.{spool_write_cases}
use icelake.Spool.Expiry.{IsYoung, sweep_not_expired}
use icelake.Spool.Counting.{no_faults, committed_bytes}
use icelake.Spool.Retention.{Keeps, sweep-Keeps}
use icelake.Spool.Bounds.{sweep_bounded}

unfoldable all_code : Unit {0}
unfolding bytes_eq delete_files delete_spool_file is_referenced keep_referenced prune_spool_schemas
    ltb_bytes comes_before insert_entry order_entries is_committed committed_only sum_bytes
    spool_committed_bytes spool_evictable path_eq remove_path evict difference from_milli saturated
    is_expired first_of settle attempt by_age not_expired by_size report settle_prune finish
    sweep_files sweep
all_code = tt

abbrev entry : Bytes → ℕ → ℤ → Option ℤ → SpoolEntry
entry key len created committed = record {
  batch_key = key;
  namespace = b'n' ∷ [];
  table_name = b't' ∷ [];
  schema_fp = b'f' ∷ [];
  byte_len = len;
  created_at = created;
  committed_at = committed;
}

-- The youngest row stands first, and the one of a file that was never committed last.
abbrev young : SpoolEntry
young = entry (b'y' ∷ []) 30 (pos 200) (some (pos 300))

abbrev old : SpoolEntry
old = entry (b'o' ∷ []) 20 (pos 100) (some (pos 300))

abbrev open_file : SpoolEntry
open_file = entry (b'u' ∷ []) 50 (pos 50) none

abbrev cache_of : List SpoolEntry → List SpoolPath → Cache
cache_of rows files = record {
  db = record { spool_files = rows; spool_schemas = (b'f' ∷ [], []) ∷ [] };
  files = files;
}

abbrev full : Cache
full =
    cache_of (young ∷ old ∷ open_file ∷ []) (path_of young ∷ path_of old ∷ path_of open_file ∷ [])

abbrev stuck : Faults
stuck = record {
  remove_fails = λ key. true;
  delete_fails = λ key. false;
  list_fails = false;
  total_fails = false;
  prune_fails = false;
}

-- The oldest committed file goes first, and no more than it takes.
swept_by_size :
    sweep no_faults (pos 0) (pos 0) (pos 40) full
    ≡ (ok tt, cache_of (young ∷ open_file ∷ []) (path_of young ∷ path_of open_file ∷ []))
unfolding all_code
swept_by_size = refl

-- 150 ms after the epoch, with a bound of 20 ms, only `old` is too old among the committed.
swept_by_age :
    sweep no_faults (pos 150000000) (pos 20000000) (pos 0) full
    ≡ (ok tt, cache_of (young ∷ open_file ∷ []) (path_of young ∷ path_of open_file ∷ []))
unfolding all_code
swept_by_age = refl

stuck_swept : sweep stuck (pos 0) (pos 0) (pos 40) full ≡ (err (evict_error (b'o' ∷ [])), full)
unfolding all_code
stuck_swept = refl

full-Unique : Unique full.db.spool_files
unfolding all_code
full-Unique = ((refl, (refl, tt)), ((refl, tt), (tt, tt)))

open_file_open : is_committed open_file ≡ false
unfolding all_code
open_file_open = refl

sweep-Keeps_example : Keeps open_file full (sweep stuck (pos 0) (pos 0) (pos 40) full).1
sweep-Keeps_example =
    sweep-Keeps stuck (pos 0) (pos 0) (pos 40) open_file full full-Unique (inr (inr (inl refl)))
      open_file_open

sweep_bounded_example : committed_bytes (sweep no_faults (pos 0) (pos 0) (pos 40) full).1.db ≤ 40
sweep_bounded_example = sweep_bounded (pos 0) (pos 0) 40 full (omega arith) full-Unique

abbrev shape : Descriptor
shape = record { fields = []; encoded = []; fp = b'g' ∷ [] }

-- The batch of `old` is written again, under another shape.
spool_write_cases_example :
    ((e : Error) × ((spool_write written false
          (b'n' ∷ [])
          (b't' ∷ [])
          (b'o' ∷ [])
          shape
          25
          (pos 0)
          full).0
        ≡ err e)
      × ((spool_write written false (b'n' ∷ []) (b't' ∷ []) (b'o' ∷ []) shape 25 (pos 0) full).1.db
          ≡ full.db))
    ⊎ (((spool_write written false (b'n' ∷ []) (b't' ∷ []) (b'o' ∷ []) shape 25 (pos 0) full).0
          ≡ ok tt)
        × In
            (path_of old)
            (spool_write written false
              (b'n' ∷ [])
              (b't' ∷ [])
              (b'o' ∷ [])
              shape
              25
              (pos 0)
              full).1.files
        × IsRecorded
            (b'o' ∷ [])
            shape
            25
            (spool_write written false
              (b'n' ∷ [])
              (b't' ∷ [])
              (b'o' ∷ [])
              shape
              25
              (pos 0)
              full).1.db.spool_files)
spool_write_cases_example =
    spool_write_cases written false (b'n' ∷ []) (b't' ∷ []) (b'o' ∷ []) shape 25 (pos 0) full

young_committed : is_committed young ≡ true
unfolding all_code
young_committed = refl

young_stays :
    In young (sweep no_faults (pos 150000000) (pos 20000000) (pos 0) full).1.db.spool_files
unfolding all_code
young_stays = inl refl

sweep_not_expired_example : IsYoung (pos 150000000) 20000000 young
sweep_not_expired_example =
    sweep_not_expired (pos 150000000) 20000000 (pos 0) full young (omega arith) (omega arith)
      young_stays young_committed
