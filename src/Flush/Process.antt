-- ===== src/Flush/Process.antt =====
-- internal/flush/flush.go: process, with prune and classify. The record builder and the Parquet encoder, the
-- mirror, the cache directory, the object store and the catalog are parameters over a state `E` of theirs.
pub mod Durable
pub mod Gone
mod Tests
use icelake.Prelude.{
  ℕ, Bool, true, false, not, ◌&&◌, ◌||◌, Option, none, some, List, [], ◌∷◌, if◌then◌else◌, length,
}
use icelake.Errdef.{Bytes, Error, FlushError, Result, ok, err}
use icelake.Canon.Shape.{Descriptor}
use icelake.Canon.Record.{Row}
use icelake.Staging.Store.{StagingStore}
use icelake.Staging.Store.Leaving.{delete, prune_schemas}
use icelake.Flush.Worker.{Batch, Job}
use icelake.Flush.Cycle.{
  FailureKind, failure_none, failure_encode, failure_transient, Attempt, flush_error,
}
use icelake.Flush.Prepare.{
  Failure, unencodable, failed, Tried, halt, went, Held, Run, follow, ◌>>=◌, return, tried_as,
  content, Faults, Prepared, prepare,
}

-- The cache directory, where one is configured.
pub record Spooling (E : Type 0) : Type 0 where
  pub write : Bytes → Bytes → E → Result (Unit {0}) × E
  pub mark_committed : Bytes → E → Result (Unit {0}) × E

pub record Destination (E : Type 0) : Type 0 where
  pub local_only : Bool
  -- `Build` and `encodeParquet`.
  pub encode_file : List Row → Result Bytes
  pub mirror : Bytes → List Row → E → E
  pub spool : Option (Spooling E)
  pub already_committed : Bytes → E → Result Bool × E
  pub upload : Bytes → Bytes → E → Result (Unit {0}) × E
  pub commit : Bytes → E → Result (Unit {0}) × E

pub record World (E : Type 0) : Type 0 where
  pub held : Held
  pub env : E

-- Which of the statements of a prune the database does not answer.
pub record PruneFaults : Type 0 where
  pub delete_fails : Bool
  pub prune_fails : Bool

-- `classify`
abbrev pub kind_of : (Error → FlushError) → Failure → FailureKind
kind_of wrap (unencodable e) = failure_encode (wrap e)
kind_of wrap (failed e) = failure_transient (wrap e)

module _ {E : Type 0} (dest : Destination E) (faults : PruneFaults) where
  abbrev with_store : StagingStore → World E → World E
  with_store st w = record { held = record { store = st; shapes = w.held.shapes }; env = w.env }

  -- A call of another party.
  abbrev pub calls : {A : Type 0} → (E → Result A × E) → Run (World E) A
  calls op w = let out = op w.env in (tried_as failed out.0, record { held = w.held; env = out.1 })

  abbrev pub on_store : (StagingStore → Result (Unit {0}) × StagingStore) → Run (World E) (Unit {0})
  on_store op w = let out = op w.held.store in (tried_as failed out.0, with_store out.1 w)

  pub prune : List ℕ → Run (World E) (Unit {0})
  prune ids = do
    deleted ← on_store (delete faults.delete_fails ids)
    on_store (prune_schemas faults.prune_fails)

  abbrev pub mark_in : Option (Spooling E) → Bytes → Run (World E) (Unit {0})
  mark_in none key = return tt
  mark_in (some s) key = calls (s.mark_committed key)

  abbrev pub mark_spooled : Bytes → Run (World E) (Unit {0})
  mark_spooled key = mark_in dest.spool key

  abbrev pub write_in : Option (Spooling E) → Bytes → Bytes → Run (World E) (Unit {0})
  write_in none key body = return tt
  write_in (some s) key body = calls (s.write key body)

  -- What follows a commit.
  unfoldable pub settle : Prepared → Run (World E) (Unit {0})
  settle p = do marked ← mark_spooled p.key; prune p.ids

  pub deliver : Prepared → Bytes → Run (World E) (Unit {0})
  deliver p body = do
    uploaded ← calls (dest.upload p.key body)
    committed ← calls (dest.commit p.key)
    settle p

  abbrev pub mirrored : Prepared → Run (World E) (Unit {0})
  mirrored p w = (went tt, record { held = w.held; env = dest.mirror p.key p.rows w.env })

  pub write_file : Prepared → Run (World E) (Unit {0})
  write_file p = do
    body ← content (dest.encode_file p.rows)
    copied ← mirrored p
    spooled ← write_in dest.spool p.key body
    if dest.local_only then prune p.ids else deliver p body

  -- The check that a batch tried before, or by an earlier process, is not in the table already.
  pub check_committed : Job → Prepared → Run (World E) Bool
  check_committed j p =
      if not dest.local_only && (j.attempted || j.replayed)
      then calls (dest.already_committed p.key)
      else return false

  pub land : Job → Prepared → Run (World E) (Unit {0})
  land j p = do done ← check_committed j p; if done then settle p else write_file p

  module _ (sha256_hex : Bytes → Bytes) (namespace table : Bytes) (current : Descriptor)
      (read_faults : Faults) where
    -- `fail`, and an attempt that succeeded.
    abbrev pub keyed : Bytes → Job → Job
    keyed key j = record {
      batch = record { key = key; rows = j.batch.rows };
      seq = j.seq;
      replayed = j.replayed;
      attempts = j.attempts;
      attempted = j.attempted;
    }

    abbrev pub attempt_of : Job → Bytes → Tried (Unit {0}) × World E → Attempt (World E)
    attempt_of j key (halt f, w) = record {
      kind = kind_of (flush_error namespace table (keyed key j)) f;
      key = key;
      state = w;
    }
    attempt_of j key (went u, w) = record { kind = failure_none; key = key; state = w }

    abbrev pub landing : Job → E → Tried Prepared × Held → Attempt (World E)
    landing j e (halt f, h) = attempt_of j j.batch.key (halt f, record { held = h; env = e })
    landing j e (went p, h) = attempt_of j p.key (land j p (record { held = h; env = e }))

    pub process : Job → World E → Attempt (World E)
    process j w =
        landing j w.env (prepare sha256_hex namespace table current read_faults j.batch w.held)
