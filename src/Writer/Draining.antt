-- ===== src/Writer/Draining.antt =====
-- writer.go with internal/flush/worker.go: what the end of a cycle on the job at the head does to the writer
-- and to what the writers share. The worker's goroutine makes these changes one after the other; no other
-- goroutine changes what they read.
use icelake.Prelude.{ℤ, Bool, true, false, none, some, length}
use icelake.Errdef.{Bytes, FlushError, Result, err, ok}
use icelake.Staging.Store.{StagingStore}
use icelake.Staging.Store.Leaving.{delete, quarantine, prune_schemas}
use icelake.Flush.Worker.{Job, CycleResult, finish}
use icelake.Flush.Cycle.{ids_of}
use icelake.Writer.{Writer, Shared, byte_sum, release, unqueued, cycle_ended}

abbrev pub landing : CycleResult
landing = record { err = none; quarantined = false; report = false }

abbrev pub marked : FlushError → CycleResult
marked e = record { err = some e; quarantined = true; report = true }

module _ {T : Type 0} where
  abbrev pub finished : ℤ → Job → CycleResult → Writer T → Writer T
  finished now j res w =
      let ended = cycle_ended now res.err w in record ended { worker = finish j res ended.worker }

  -- `committed`, after the rows are pruned, and the end of the cycle.
  unfoldable pub committed : ℤ → Job → Shared T → Shared T
  committed now j s = record s {
    writer =
        finished now j landing (unqueued (length j.batch.rows) (byte_sum j.batch.rows) s.writer);
    ceiling = release (length j.batch.rows) (byte_sum j.batch.rows) s.ceiling;
  }

  abbrev after_prune : ℤ → Job → Shared T → Result (Unit {0}) × StagingStore → Shared T
  after_prune now j s (err e, staging) = record s { staging = staging }
  after_prune now j s (ok u, staging) = committed now j (record s { staging = staging })

  abbrev pub after_delete : Bool → ℤ → Job → Shared T → Result (Unit {0}) × StagingStore → Shared T
  after_delete schema_fails now j s (err e, staging) = s
  after_delete schema_fails now j s (ok u, staging) =
      after_prune now j s (prune_schemas schema_fails staging)

  -- A cycle whose batch has landed, from its `prune` on. The two flags say which of the statements fails.
  unfoldable pub land : Bool → Bool → ℤ → Job → Shared T → Shared T
  land fails schema_fails now j s =
      after_delete schema_fails now j s (delete fails (ids_of j.batch.rows) s.staging)

  abbrev pub after_mark :
      ℤ → Job → FlushError → Shared T → Result (Unit {0}) × StagingStore → Shared T
  after_mark now j e s (err e', staging) = s
  after_mark now j e s (ok u, staging) = record s {
    writer =
        finished now j (marked e) (unqueued (length j.batch.rows) (byte_sum j.batch.rows) s.writer);
    staging = staging;
  }

  -- A cycle whose batch cannot be encoded, from its `Quarantine` on.
  unfoldable pub set_aside : Bool → ℤ → Bytes → ℤ → Job → FlushError → Shared T → Shared T
  set_aside fails at cause now j e s =
      after_mark now j e s (quarantine fails at cause (ids_of j.batch.rows) s.staging)

  -- A cycle that ends with an error that is not final.
  unfoldable pub give_up : ℤ → Bool → Job → FlushError → Shared T → Shared T
  give_up now report j e s = record s {
    writer =
        finished now j (record { err = some e; quarantined = false; report = report }) s.writer;
  }
