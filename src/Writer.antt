-- ===== src/Writer.antt =====
-- writer.go and status.go: the writer of one table, with the ceiling counters of store.go and the staging
-- database that all writers share. Each function is what runs under the writer's mutex.
pub mod Accepting
pub mod Rows
pub mod Appended
pub mod Draining
pub mod Whole
pub mod Inserted
pub mod Leaves
pub mod Drained
pub mod Opened
pub mod One
pub mod Reached
pub mod Bounded
pub mod Registry
mod Tests
use icelake.Prelude.{
  ℕ, suc, ◌+◌, ◌-◌, ℤ, ◌-ℤ◌, ltb_ℤ, Bool, true, false, not, ◌&&◌, ◌||◌, Option, none, some, List,
  [], ◌∷◌, ◌++◌, length, drop, leb, ltb, ◌==◌, if◌then◌else◌,
}
use icelake.Errdef.{Bytes, Error, FlushError, err_closed, err_staging_full, Result, err, ok}
use icelake.Canon.Shape.{Descriptor}
use icelake.Staging.Index.{PendingRow, PendingBatch}
use icelake.Staging.Store.{StagingStore, AppendRow, append, append_batch}
use icelake.Flush.Worker.{Batch, Worker, new_worker, enqueue}
use icelake.Canon.Columns.{is_empty}

-- The counters of the store, and the limits of its configuration.
pub record Ceiling : Type 0 where
  pub records : ℕ
  pub bytes : ℕ

pub record Limits : Type 0 where
  pub max_records : ℕ
  pub max_bytes : ℕ

-- `acceptBatch`.
unfoldable pub has_room : Limits → ℕ → ℕ → Ceiling → Bool
has_room limits records bytes c =
    leb (c.records + records) limits.max_records && leb (c.bytes + bytes) limits.max_bytes

unfoldable pub accept_batch : Limits → ℕ → ℕ → Ceiling → Bool × Ceiling
accept_batch limits records bytes c =
    if records == 0
    then (true, c)
    else if has_room limits records bytes c
    then (true, record { records = c.records + records; bytes = c.bytes + bytes })
    else (false, c)

-- `release`: a counter that would fall below 0 is 0.
unfoldable pub release : ℕ → ℕ → Ceiling → Ceiling
release records bytes c = record { records = c.records - records; bytes = c.bytes - bytes }

pub record Settings : Type 0 where
  pub max_records : ℕ
  pub max_bytes : ℕ
  pub floor : ℤ

-- The fields under the mutex, and the worker. A `flush.Row` is a pending row of the index.
pub record Writer (T : Type 0) : Type 0 where
  pub closed : Bool
  pub batch : List PendingRow
  pub batch_bytes : ℕ
  pub last_seal_at : ℤ
  pub queued_records : ℕ
  pub queued_bytes : ℕ
  pub accepted : ℕ
  pub flushes : ℕ
  pub floor_engaged : ℕ
  pub last_commit_at : Option ℤ
  pub last_flush_err : Option FlushError
  pub flush_times : List ℤ
  pub records : List T
  pub worker : Worker

-- The writer with what it shares with the others.
pub record Shared (T : Type 0) : Type 0 where
  pub writer : Writer T
  pub ceiling : Ceiling
  pub staging : StagingStore

abbrev pub recent_flushes : ℕ
recent_flushes = 20

abbrev pub recent_records : ℕ
recent_records = 5

-- The last entries of a window.
unfoldable pub last_of : {A : Type 0} → ℕ → List A → List A
last_of n xs = if ltb n (length xs) then drop (length xs - n) xs else xs

unfoldable pub byte_sum : List PendingRow → ℕ
byte_sum [] = 0
byte_sum (r ∷ rows) = r.byte_len + byte_sum rows

module _ {T : Type 0} where
  unfoldable pub open_writer : ℤ → Writer T
  open_writer now = record {
    closed = false;
    batch = [];
    batch_bytes = 0;
    last_seal_at = now;
    queued_records = 0;
    queued_bytes = 0;
    accepted = 0;
    flushes = 0;
    floor_engaged = 0;
    last_commit_at = none;
    last_flush_err = none;
    flush_times = [];
    records = [];
    worker = new_worker;
  }

  -- One batch of a previous run.
  unfoldable pub replay_batch : PendingBatch → Writer T → Writer T
  replay_batch b w =
      if is_empty b.key
      then record w { batch = w.batch ++ b.rows; batch_bytes = w.batch_bytes + byte_sum b.rows }
      else record w {
        queued_records = w.queued_records + length b.rows;
        queued_bytes = w.queued_bytes + byte_sum b.rows;
        worker = (enqueue (record { key = b.key; rows = b.rows }) true w.worker).1;
      }

  unfoldable pub replay : List PendingBatch → Writer T → Writer T
  replay [] w = w
  replay (b ∷ pending) w = replay pending (replay_batch b w)

  abbrev pub handed_over : ℤ → Writer T → Writer T
  handed_over now w = record w {
    batch = [];
    batch_bytes = 0;
    last_seal_at = now;
    queued_records = w.queued_records + length w.batch;
    queued_bytes = w.queued_bytes + w.batch_bytes;
    worker = (enqueue (record { key = []; rows = w.batch }) false w.worker).1;
  }

  unfoldable pub seal_batch : ℤ → Writer T → Writer T
  seal_batch now w = if length w.batch == 0 then w else handed_over now w

  -- `triggerLocked`, with the two readings of the clock.
  unfoldable pub trigger : Settings → ℤ → ℤ → Writer T → Writer T
  trigger settings now sealed_at w =
      if length w.batch == 0
      then w
      else if ltb_ℤ (now -ℤ w.last_seal_at) settings.floor
      then record w { floor_engaged = suc w.floor_engaged }
      else seal_batch sealed_at w

  unfoldable pub pending : Writer T → ℕ × ℕ
  pending w = (length w.batch + w.queued_records, w.batch_bytes + w.queued_bytes)

  -- `committed` up to the release, and the whole of `quarantined`.
  unfoldable pub unqueued : ℕ → ℕ → Writer T → Writer T
  unqueued records bytes w = record w {
    queued_records = w.queued_records - records;
    queued_bytes = w.queued_bytes - bytes;
  }

  unfoldable pub remember : T → Writer T → Writer T
  remember row w = record w {
    accepted = suc w.accepted;
    records = last_of recent_records (w.records ++ row ∷ []);
  }

  unfoldable pub remember_batch : List T → Writer T → Writer T
  remember_batch rows w = record w {
    accepted = w.accepted + length rows;
    records = last_of recent_records (w.records ++ last_of recent_records rows);
  }

  unfoldable pub note_commit : ℤ → Writer T → Writer T
  note_commit at w = record w {
    flushes = suc w.flushes;
    last_commit_at = some at;
    flush_times = last_of recent_flushes (w.flush_times ++ at ∷ []);
  }

  unfoldable pub cycle_ended : ℤ → Option FlushError → Writer T → Writer T
  cycle_ended now none w = note_commit now (record w { last_flush_err = none })
  cycle_ended now (some e) w = record w { last_flush_err = some e }
