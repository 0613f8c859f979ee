-- ===== src/Writer/Accepting.antt =====
-- writer.go: Insert, InsertBatch, and the halves of Flush, Close and the timer that run under the writer's
-- mutex. `Bind` of the codec and the callback of the mirror hook are parameters. ErrStagingFull is the sentinel
-- alone: the text around it, which names the table, is left out.
use icelake.Prelude.{
  ℕ, suc, ◌+◌, ℤ, Bool, true, not, ◌||◌, Option, none, some, List, [], ◌∷◌, ◌++◌, length, leb,
  if◌then◌else◌,
}
use icelake.Errdef.{
  Bytes, err_closed, err_staging_full, batch_error, mirror_error, Result, err, ok, ◌>>=◌, ◌>>◌,
}
use icelake.Canon.Shape.{Descriptor}
use icelake.Canon.Record.{Row, encode}
use icelake.Poison.{check_poison}
use icelake.Staging.Index.{PendingRow}
use icelake.Staging.Store.{StagingStore, AppendRow, append, append_batch}
use icelake.Writer.{
  Ceiling, Limits, accept_batch, release, Settings, Writer, Shared, seal_batch, trigger, remember,
  remember_batch,
}

-- What a writer is opened with. `bind` and `on_accept` are the codec's and the caller's.
pub record Options (T : Type 0) : Type 0 where
  pub namespace : Bytes
  pub table : Bytes
  pub descriptor : Descriptor
  pub limits : Limits
  pub settings : Settings
  pub bind : T → Result Row
  pub on_accept : Option (T → Result (Unit {0}))

-- The clock's readings for the staged rows, for the trigger and for the seal.
pub record Readings : Type 0 where
  pub staged_at : ℤ
  pub now : ℤ
  pub sealed_at : ℤ

-- `fmt.Errorf` and the like around a record's own error.
abbrev pub indexed : {A : Type 0} → ℕ → Result A → Result A
indexed i (err e) = err (batch_error i e)
indexed i (ok a) = ok a

module _ {T : Type 0} (opts : Options T) where
  unfoldable pub payload_of : T → Result Bytes
  payload_of row = do
    values ← opts.bind row
    check_poison opts.table opts.descriptor values
    encode opts.table opts.descriptor values

  -- The loop over the records, from index `i`.
  unfoldable pub payloads_of : ℕ → List T → Result (List Bytes)
  payloads_of i [] = ok []
  payloads_of i (row ∷ rows) = do
    payload ← indexed i (payload_of row)
    payloads ← payloads_of (suc i) rows
    ok (payload ∷ payloads)

  unfoldable pub total_of : List Bytes → ℕ
  total_of [] = 0
  total_of (p ∷ payloads) = length p + total_of payloads

  abbrev pub append_row : ℤ → Bytes → AppendRow
  append_row at payload = record {
    namespace = opts.namespace;
    table = opts.table;
    descriptor = some opts.descriptor;
    payload = payload;
    created_at = at;
  }

  unfoldable pub append_rows : ℤ → List Bytes → List AppendRow
  append_rows at [] = []
  append_rows at (p ∷ payloads) = append_row at p ∷ append_rows at payloads

  abbrev pub flush_row : ℕ → Bytes → PendingRow
  flush_row id payload = record {
    id = id;
    schema_fp = opts.descriptor.fp;
    byte_len = length payload;
  }

  unfoldable pub flush_rows : List ℕ → List Bytes → List PendingRow
  flush_rows [] payloads = []
  flush_rows (id ∷ ids) [] = []
  flush_rows (id ∷ ids) (p ∷ payloads) = flush_row id p ∷ flush_rows ids payloads

  abbrev pub is_due : Writer T → Bool
  is_due w =
      leb opts.settings.max_records (length w.batch) || leb opts.settings.max_bytes w.batch_bytes

  abbrev pub triggered : Readings → Writer T → Writer T
  triggered at w = if is_due w then trigger opts.settings at.now at.sealed_at w else w

  -- The rows join the batch.
  abbrev pub joined : List PendingRow → ℕ → Writer T → Writer T
  joined rows total w = record w { batch = w.batch ++ rows; batch_bytes = w.batch_bytes + total }

  -- What follows the append, which has left `staging`.
  unfoldable pub staged_batch :
      Readings
      → List T
      → List Bytes
      → Shared T
      → Ceiling
      → Result (List ℕ) × StagingStore
      → Result (Unit {0}) × Shared T
  staged_batch at rows payloads s charged (err e, staging) = (
    err e,
    record s { ceiling = release (length rows) (total_of payloads) charged; staging = staging },
  )
  staged_batch at rows payloads s charged (ok ids, staging) = (
    ok tt,
    record s {
      writer =
          triggered at
            (remember_batch rows (joined (flush_rows ids payloads) (total_of payloads) s.writer));
      ceiling = charged;
      staging = staging;
    },
  )

  -- `fails` says that the database breaks.
  unfoldable pub stage_batch :
      Bool → Readings → List T → List Bytes → Shared T → Result (Unit {0}) × Shared T
  stage_batch fails at rows payloads s =
      let room = accept_batch opts.limits (length rows) (total_of payloads) s.ceiling in
      if s.writer.closed
      then (err err_closed, s)
      else if not room.0
      then (err err_staging_full, s)
      else staged_batch at rows payloads s room.1
          (append_batch fails (append_rows at.staged_at payloads) s.staging)

  -- `Append` of one row gives an id where it succeeds: `ids[0]` is there.
  unfoldable pub staged_row :
      Readings
      → T
      → Bytes
      → Shared T
      → Ceiling
      → Result (Option ℕ) × StagingStore
      → Result (Unit {0}) × Shared T
  staged_row at row payload s charged (err e, staging) =
      (err e, record s { ceiling = release 1 (length payload) charged; staging = staging })
  staged_row at row payload s charged (ok none, staging) = (ok tt, s)
  staged_row at row payload s charged (ok (some id), staging) = (
    ok tt,
    record s {
      writer =
          triggered at
            (remember row (joined (flush_row id payload ∷ []) (length payload) s.writer));
      ceiling = charged;
      staging = staging;
    },
  )

  unfoldable pub stage : Bool → Readings → T → Bytes → Shared T → Result (Unit {0}) × Shared T
  stage fails at row payload s =
      let room = accept_batch opts.limits 1 (length payload) s.ceiling in
      if s.writer.closed
      then (err err_closed, s)
      else if not room.0
      then (err err_staging_full, s)
      else staged_row at row payload s room.1
          (append fails (append_row at.staged_at payload) s.staging)

  abbrev pub mirrored : Result (Unit {0}) → Result (Unit {0})
  mirrored (err e) = err (mirror_error opts.namespace opts.table e)
  mirrored (ok u) = ok u

  unfoldable pub accepted_in : Option (T → Result (Unit {0})) → List T → Result (Unit {0})
  accepted_in none rows = ok tt
  accepted_in (some hook) [] = ok tt
  accepted_in (some hook) (row ∷ rows) = mirrored (hook row) >> accepted_in (some hook) rows

  -- The mirror hook, where the records were staged.
  abbrev pub reported : List T → Result (Unit {0}) × Shared T → Result (Unit {0}) × Shared T
  reported rows (err e, s) = (err e, s)
  reported rows (ok u, s) = (accepted_in opts.on_accept rows, s)

  abbrev pub staging_of :
      {A : Type 0}
      → (A → Result (Unit {0}) × Shared T)
      → Shared T
      → Result A
      → Result (Unit {0}) × Shared T
  staging_of next s (err e) = (err e, s)
  staging_of next s (ok a) = next a

  unfoldable pub insert : Bool → Readings → T → Shared T → Result (Unit {0}) × Shared T
  insert fails at row s =
      if s.writer.closed
      then (err err_closed, s)
      else staging_of (λ payload. reported (row ∷ []) (stage fails at row payload s)) s
          (payload_of row)

  abbrev insert_rows : Bool → Readings → List T → Shared T → Result (Unit {0}) × Shared T
  insert_rows fails at [] s = (ok tt, s)
  insert_rows fails at (row ∷ rows) s =
      staging_of (λ payloads. reported (row ∷ rows) (stage_batch fails at (row ∷ rows) payloads s))
        s (payloads_of 0 (row ∷ rows))

  unfoldable pub insert_batch : Bool → Readings → List T → Shared T → Result (Unit {0}) × Shared T
  insert_batch fails at rows s =
      if s.writer.closed then (err err_closed, s) else insert_rows fails at rows s

  -- A tick of the timer.
  unfoldable pub tick : ℤ → ℤ → Writer T → Writer T
  tick now sealed_at w = if w.closed then w else trigger opts.settings now sealed_at w

  -- `Flush` and `close` up to the wait for the worker.
  unfoldable pub flush : ℤ → Writer T → Result (Unit {0}) × Writer T
  flush now w = if w.closed then (err err_closed, w) else (ok tt, seal_batch now w)

  unfoldable pub close : ℤ → Writer T → Result (Unit {0}) × Writer T
  close now w =
      if w.closed then (err err_closed, w) else (ok tt, seal_batch now (record w { closed = true }))
