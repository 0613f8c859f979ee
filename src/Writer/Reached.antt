-- ===== src/Writer/Reached.antt =====
-- writer.go with internal/flush/worker.go: the states that one table's writer reaches, with its worker, over a
-- staging store and a ceiling of its own.
use icelake.Prelude.{
  ℕ, ◌≡◌, refl, sym, ap, subst, ℤ, Bool, Bool-cases, true, false, ◌∙◌, ◌++◌, ◌&&◌, not, ltb, arith,
  List, [], ◌∷◌,
}
use icelake.Errdef.{Bytes, FlushError, Result, ok}
use icelake.Staging.Index.{Index, scan}
use icelake.Staging.Store.{StagingStore}
use icelake.Staging.Store.Sealing.{SealRequest, seal}
use icelake.Staging.Store.Related.{Ascends}
use icelake.Flush.Worker.{Job, Worker, is_some, answer, stop}
use icelake.Flush.Cycle.{ids_of}
use icelake.Writer.{Writer, Shared}
use icelake.Writer.Accepting.{Options, Readings, insert, insert_batch, tick, flush, close}
use icelake.Writer.Draining.{land, set_aside, give_up}
use icelake.Writer.Whole.{
  job_ids, job_records, job_bytes, IsWhole, Holds, if-cases, seal_batch-Holds, trigger-Holds,
}
use icelake.Writer.Inserted.{table_id, insert_batch-IsWhole}
use icelake.Writer.Drained.{land-IsWhole, set_aside-IsWhole, give_up-IsWhole}
use icelake.Writer.Opened.{opened, with_worker, opened_lem, kept_lem, sealed_lem, tried_lem}
use icelake.Writer.One.{AsOne-state, insert_batch-one}

module _ {T : Type 0} (opts : Options T) where
  -- One change under the mutex, of the writer or of its worker.
  pub data Step : Shared T → Shared T → Type 0 where
    inserted :
        (fails : Bool) (at : Readings) (row : T) (s : Shared T)
        → Step s (insert opts fails at row s).1
    batch_inserted :
        (fails : Bool) (at : Readings) (rows : List T) (s : Shared T)
        → Step s (insert_batch opts fails at rows s).1
    ticked :
        (now sealed_at : ℤ) (s : Shared T)
        → Step s (record s { writer = tick opts now sealed_at s.writer })
    flushed : (now : ℤ) (s : Shared T) → Step s (record s { writer = (flush opts now s.writer).1 })
    shut : (now : ℤ) (s : Shared T) → Step s (record s { writer = (close opts now s.writer).1 })
    answered :
        (since seq : ℕ) (s : Shared T) → Step s (with_worker (answer since seq s.writer.worker).1 s)
    stopped :
        (s : Shared T)
        → Step s (record s { writer = record s.writer { worker = stop s.writer.worker } })
    batch_sealed :
        (fails : Bool) (req : SealRequest) (s : Shared T)
        → Step s (record s { staging = (seal fails req s.staging).1 })
    landed :
        (fails : Bool) (now : ℤ) (j : Job) (queue : List Job) (s : Shared T)
        → s.writer.worker.queue ≡ j ∷ queue
        → Step s (land fails false now j s)
    tried :
        (j j' : Job) (queue : List Job) (s : Shared T)
        → s.writer.worker.queue ≡ j ∷ queue
        → (j'.batch.rows ≡ j.batch.rows) × (j'.seq ≡ j.seq)
        → Step s (with_worker (record s.writer.worker { queue = j' ∷ queue }) s)
    put_aside :
        (fails : Bool) (at : ℤ) (cause : Bytes) (now : ℤ) (j : Job) (queue : List Job)
        (e : FlushError) (s : Shared T)
        → s.writer.worker.queue ≡ j ∷ queue
        → Step s (set_aside fails at cause now j e s)
    gave_up :
        (now : ℤ) (report : Bool) (j : Job) (queue : List Job) (e : FlushError) (s : Shared T)
        → s.writer.worker.queue ≡ j ∷ queue
        → Step s (give_up now report j e s)

  -- What a writer reaches that opens over the store of a previous run.
  pub data Reached : Shared T → Type 0 where
    opens :
        (now : ℤ) (ix : Index) (st : StagingStore)
        → scan false st ≡ ok ix
        → Ascends st.last_id st.staging
        → Reached (opened (table_id opts) now ix st)
    steps : (s s' : Shared T) → Reached s → Step s s' → Reached s'

  idle_lem : (w : Writer T) → Holds w w
  idle_lem w = record { counted = λ h. h; same = refl }

  tick-Holds : (now sealed_at : ℤ) (w : Writer T) → Holds w (tick opts now sealed_at w)
  unfolding tick
  tick-Holds now sealed_at w =
      if-cases (Holds w) w.closed (λ e. idle_lem w)
        (λ e. trigger-Holds opts.settings now sealed_at w)

  flush-Holds : (now : ℤ) (w : Writer T) → Holds w (flush opts now w).1
  unfolding flush
  flush-Holds now w =
      if-cases {A = Result (Unit {0}) × Writer T} (λ out. Holds w out.1) w.closed (λ e. idle_lem w)
        (λ e. seal_batch-Holds now w)

  close-Holds : (now : ℤ) (w : Writer T) → Holds w (close opts now w).1
  unfolding close
  close-Holds now w =
      let next = seal_batch-Holds now (record w { closed = true }) in
      if-cases {A = Result (Unit {0}) × Writer T} (λ out. Holds w out.1) w.closed (λ e. idle_lem w)
        (λ e. record {
          counted = λ h.
              next.counted (record { batched = h.batched; queued = h.queued; sized = h.sized });
          same = next.same;
        })

  with_worker-Holds :
      (k : Worker) (w : Writer T) → k.queue ≡ w.worker.queue → Holds w (record w { worker = k })
  with_worker-Holds k w same = record {
    counted = λ h. record {
      batched = h.batched;
      queued = h.queued ∙ ap job_records (sym same);
      sized = h.sized ∙ ap job_bytes (sym same);
    };
    same = ap (λ q. job_ids q ++ ids_of w.batch) same;
  }

  answer-queue : (since seq : ℕ) (k : Worker) → (answer since seq k).1.queue ≡ k.queue
  unfolding answer
  answer-queue since seq k = ground (
    arith,
    Bool-cases (is_some k.quarantined && not (ltb seq k.quarantined_seq)),
    Bool-cases (ltb since k.failures && is_some k.failure && not (ltb seq k.failure_seq)),
    Bool-cases (not (ltb k.completed seq)),
  )

  stop-queue : (k : Worker) → (stop k).queue ≡ k.queue
  unfolding stop
  stop-queue k = refl

  abbrev Whole : Shared T → Type 0
  Whole = IsWhole (table_id opts)

  step-IsWhole : (s s' : Shared T) → Step s s' → Whole s → Whole s'
  step-IsWhole _ _ (inserted fails at row s) h =
      subst Whole (AsOne-state opts row s _ _ (insert_batch-one opts fails at row s))
        (insert_batch-IsWhole opts fails at (row ∷ []) s h)
  step-IsWhole _ _ (batch_inserted fails at rows s) h = insert_batch-IsWhole opts fails at rows s h
  step-IsWhole _ _ (ticked now sealed_at s) h = kept_lem _ _ s (tick-Holds now sealed_at s.writer) h
  step-IsWhole _ _ (flushed now s) h = kept_lem _ _ s (flush-Holds now s.writer) h
  step-IsWhole _ _ (shut now s) h = kept_lem _ _ s (close-Holds now s.writer) h
  step-IsWhole _ _ (answered since seq s) h =
      kept_lem _ _ s
        (with_worker-Holds (answer since seq s.writer.worker).1 s.writer
          (answer-queue since seq s.writer.worker))
        h
  step-IsWhole _ _ (stopped s) h =
      kept_lem _ _ s
        (with_worker-Holds (stop s.writer.worker) s.writer (stop-queue s.writer.worker)) h
  step-IsWhole _ _ (batch_sealed fails req s) h = sealed_lem _ fails req s h
  step-IsWhole _ _ (tried j j' queue s first same) h = tried_lem _ j j' queue s first same.0 h
  step-IsWhole _ _ (landed fails now j queue s first) h = land-IsWhole _ j queue fails now s first h
  step-IsWhole _ _ (put_aside fails at cause now j queue e s first) h =
      set_aside-IsWhole _ j queue fails at cause now e s first h
  step-IsWhole _ _ (gave_up now report j queue e s first) h =
      give_up-IsWhole _ j queue now report e s h

  -- A writer opens over any store that a scan accepts and whose ids ascend, and then records and
  -- batches come, the timer ticks, Flush, Close and their waits run, and the worker seals, tries,
  -- lands, sets aside and gives up its first batch, in any order and with any failures, except that no
  -- PruneSchemas after a deletion fails. In every state of this kind the queue and the batch in memory
  -- hold each row of the table that is not quarantined as often as it stands in the store, and no other
  -- row; the writer's counters are the numbers and the bytes of the rows in its queue and of the bytes
  -- in its batch; the ids of the store ascend; and the record counter of the ceiling is the number of
  -- rows in the store.
  pub Reached-IsWhole : (s : Shared T) → Reached s → Whole s
  Reached-IsWhole _ (opens now ix st scanned order) = opened_lem _ now ix st scanned order
  Reached-IsWhole s' (steps s _ before step) = step-IsWhole s s' step (Reached-IsWhole s before)
