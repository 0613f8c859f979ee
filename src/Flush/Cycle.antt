-- ===== src/Flush/Cycle.antt =====
-- internal/flush/worker.go: cycle and quarantine, with internal/flush/flush.go: classify. What one attempt
-- does, the quarantine in the database, the context and the clock are parameters; `S` is their state.
pub mod Budget
mod Tests
use icelake.Prelude.{
  ℕ, zero, suc, ℤ, pos, Bool, true, false, not, Option, none, some, List, [], ◌∷◌, if◌then◌else◌,
  ltb_ℤ, length,
}
use icelake.Errdef.{Bytes, Error, FlushError, Result, ok, err}
use icelake.Staging.Index.{PendingRow}
use icelake.Flush.Retry.{Retry, attempts}
use icelake.Flush.Worker.{Batch, Job, CycleResult}

-- `failureKind` and the error that `process` returns with it.
pub data FailureKind : Type 0 where
  failure_none : FailureKind
  failure_encode failure_transient : FlushError → FailureKind

-- What one attempt at a batch came to, and the batch's key.
pub record Attempt (S : Type 0) : Type 0 where
  pub kind : FailureKind
  pub key : Bytes
  pub state : S

-- `j.attempts++`
abbrev pub counted : Job → Job
counted j = record {
  batch = j.batch;
  seq = j.seq;
  replayed = j.replayed;
  attempts = suc j.attempts;
  attempted = j.attempted;
}

-- `j.batch.Key = key` and `j.attempted = true`
abbrev pub tried : Bytes → Job → Job
tried key j = record {
  batch = record { key = key; rows = j.batch.rows };
  seq = j.seq;
  replayed = j.replayed;
  attempts = j.attempts;
  attempted = true;
}

abbrev pub reset : Job → Job
reset j = record {
  batch = j.batch;
  seq = j.seq;
  replayed = j.replayed;
  attempts = 0;
  attempted = j.attempted;
}

abbrev pub ids_of : List PendingRow → List ℕ
ids_of [] = []
ids_of (r ∷ rows) = r.id ∷ ids_of rows

abbrev marked_quarantined : FlushError → FlushError
marked_quarantined e = record {
  namespace = e.namespace;
  table = e.table;
  batch_key = e.batch_key;
  records = e.records;
  attempts = e.attempts;
  quarantined = true;
  cause = e.cause;
}

-- The error of a quarantine that the database refuses.
abbrev pub flush_error : Bytes → Bytes → Job → Error → FlushError
flush_error namespace table j e = record {
  namespace = namespace;
  table = table;
  batch_key = j.batch.key;
  records = length j.batch.rows;
  attempts = j.attempts;
  quarantined = false;
  cause = e;
}

-- What `w.opts` gives a cycle.
pub record Options (S : Type 0) : Type 0 where
  pub namespace : Bytes
  pub table : Bytes
  pub retry : Retry
  pub process : Job → S → Attempt S
  pub quarantine_rows : List ℕ → FlushError → S → Result (Unit {0}) × S
  pub cancelled : S → Bool
  -- Whether the sleep after an attempt runs its course.
  pub sleep : ℕ → S → Bool × S

module _ {S : Type 0} (opts : Options S) where
  abbrev quarantined_as : Job → FlushError → Result (Unit {0}) → CycleResult
  quarantined_as j cause (err e) = record {
    err = some (flush_error opts.namespace opts.table j e);
    quarantined = false;
    report = true;
  }
  quarantined_as j cause (ok u) = record {
    err = some (marked_quarantined cause);
    quarantined = true;
    report = true;
  }

  unfoldable pub quarantine : Job → FlushError → S → CycleResult × S
  quarantine j cause s =
      let out = opts.quarantine_rows (ids_of j.batch.rows) cause s in
      (quarantined_as j cause out.0, out.1)

  abbrev pub stopped : FlushError → Bool → CycleResult
  stopped cause report = record { err = some cause; quarantined = false; report = report }

  abbrev pub is_spent : Job → Bool
  is_spent j = not (ltb_ℤ (pos j.attempts) (attempts opts.retry))

  abbrev pub landed : CycleResult
  landed = record { err = none; quarantined = false; report = false }

  -- What follows an attempt. `rest` is the loop from here on.
  abbrev pub after_attempt :
      Attempt S → Job → (S → Option (CycleResult × Job × S)) → Option (CycleResult × Job × S)
  after_attempt a j rest = elim a.kind [
    | failure_none ↦ some (landed, j, a.state)
    | failure_encode cause ↦ let out = quarantine j cause a.state in some (out.0, j, out.1)
    | failure_transient cause ↦
        if opts.cancelled a.state
        then some (stopped cause false, j, a.state)
        else if is_spent j
        then some (stopped cause true, j, a.state)
        else (let slept = opts.sleep j.attempts a.state in
            if slept.0 then rest slept.1 else some (stopped cause false, j, slept.1))
  ]

  -- The loop of `cycle`, with at most `fuel` attempts.
  pub attempts_from : ℕ → Job → S → Option (CycleResult × Job × S)
  attempts_from zero j s = none
  attempts_from (suc fuel) j s =
      let a = opts.process (counted j) s in
      let j' = tried a.key (counted j) in after_attempt a j' (attempts_from fuel j')

  pub cycle : ℕ → Job → S → Option (CycleResult × Job × S)
  cycle fuel j s = attempts_from fuel (reset j) s
