-- ===== src/Writer/Opened.antt =====
-- writer.go: a writer that opens, and the statements that keep its rows.
use icelake.Prelude.{
  ℕ, suc, ◌+◌, ◌≡◌, refl, sym, ap, ◌∙◌, subst, ℤ, Bool, Bool-cases, true, false, inl, inr, none,
  some, Option, List, [], ◌∷◌, ◌++◌, append-nil, length, arith,
}
use icelake.Errdef.{Bytes, ok}
use icelake.Canon.Columns.{is_empty}
use icelake.Staging.Index.{PendingBatch, Index, scan, claim}
use icelake.Staging.Index.Covered.{batch_ids, claim-live}
use icelake.Staging.Store.{StagingRow, StagingStore, TableId}
use icelake.Staging.Store.Sealing.{SealRequest, SealRow, seal, may_seal, sealed}
use icelake.Canon.Shape.{Descriptor}
use icelake.Staging.Store.Sealed.{SealedBy, SealedBy-id, seal_cases}
use icelake.Staging.Store.Related.{Pointwise, Ascends, Pointwise-Ascends}
use icelake.Flush.Worker.{new_job, Job, Worker, enqueue}
use icelake.Flush.Cycle.{ids_of}
use icelake.Writer.{Writer, Shared, byte_sum, open_writer, replay_batch, replay}
use icelake.Writer.Rows.{Keeps, count, count-append, is_live, live-Pointwise}
use icelake.Writer.Whole.{
  held, job_ids, job_records, job_bytes, job_ids-append, job_records-append, job_bytes-append,
  byte_sum-append, ids_of-append, IsCounted, IsWhole, Holds,
}
use icelake.Writer.Drained.{Pointwise-length}

sealed-is_live :
    (t : TableId) (req : SealRequest) (d : Descriptor) (p : Option Bytes) (r : StagingRow)
    → may_seal req r ≡ true
    → is_live t (sealed req d p r) ≡ is_live t r
sealed-is_live t req d none r m = ground arith
sealed-is_live t req d (some p) r m = ground arith

SealedBy-Keeps :
    (t : TableId) (req : SealRequest) (d : Descriptor) (ss : List SealRow) (r x : StagingRow)
    → SealedBy req d ss r x
    → Keeps t r x
SealedBy-Keeps t req d ss r x (inl e) = (ap (λ (y : StagingRow). y.id) e, ap (is_live t) e)
SealedBy-Keeps t req d ss r x (inr (row, there, (i, m, e))) = (
  SealedBy-id req d ss r x (inr (row, there, (i, m, e))),
  ap (is_live t) e ∙ sealed-is_live t req d row.payload r m,
)

module _ {T : Type 0} where
  -- The state in which a writer opens over a store whose rows the index lists.
  abbrev pub opened : TableId → ℤ → Index → StagingStore → Shared T
  opened t now ix st = record {
    writer = replay (claim t ix).0 (open_writer now);
    ceiling = record { records = ix.counters.records; bytes = ix.counters.bytes };
    staging = st;
  }

  abbrev pub with_worker : Worker → Shared T → Shared T
  with_worker k s = record s { writer = record s.writer { worker = k } }

  -- A batch of a previous run is held besides what the writer held.
  replay_batch_lem :
      (i : ℕ) (b : PendingBatch) (w : Writer T)
      → count i (held (replay_batch b w)) ≡ count i (ids_of b.rows) + count i (held w)
  unfolding replay_batch enqueue job_ids
  replay_batch_lem i b w = elim (Bool-cases (is_empty b.key)) [
    | inl e ↦ rw e (
        omega (
          arith,
          count-append i (job_ids w.worker.queue) (ids_of (w.batch ++ b.rows)),
          count-append i (job_ids w.worker.queue) (ids_of w.batch),
          ap (count i) (ids_of-append w.batch b.rows),
          count-append i (ids_of w.batch) (ids_of b.rows),
        ))
    | inr e ↦
        let job = new_job (record { key = b.key; rows = b.rows }) (suc w.worker.enqueued) true in
        rw e (
          omega (
            arith,
            count-append i (job_ids (w.worker.queue ++ job ∷ [])) (ids_of w.batch),
            count-append i (job_ids w.worker.queue) (ids_of w.batch),
            ap (count i) (job_ids-append w.worker.queue (job ∷ [])),
            count-append i (job_ids w.worker.queue) (ids_of b.rows ++ []),
            ap (count i) (append-nil (ids_of b.rows)),
          ))
  ]

  replay_batch-IsCounted :
      (b : PendingBatch) (w : Writer T) → IsCounted w → IsCounted (replay_batch b w)
  unfolding replay_batch enqueue job_records job_bytes
  replay_batch-IsCounted b w h = elim (Bool-cases (is_empty b.key)) [
    | inl e ↦ rw e (record {
      batched = omega (arith, h.batched, byte_sum-append w.batch b.rows);
      queued = h.queued;
      sized = h.sized;
    })
    | inr e ↦
        let job = new_job (record { key = b.key; rows = b.rows }) (suc w.worker.enqueued) true in
        rw e (record {
          batched = h.batched;
          queued = omega (arith, job_records-append w.worker.queue (job ∷ []), h.queued);
          sized = omega (arith, job_bytes-append w.worker.queue (job ∷ []), h.sized);
        })
  ]

  replay_lem :
      (bs : List PendingBatch) (w : Writer T)
      → ((i : ℕ) → count i (held (replay bs w)) ≡ count i (batch_ids bs) + count i (held w))
        × (IsCounted w → IsCounted (replay bs w))
  unfolding replay batch_ids count
  replay_lem [] w = (λ i. omega arith, λ h. h)
  replay_lem (b ∷ bs) w =
      let (later, counted) = replay_lem bs (replay_batch b w) in
      (
        λ i.
            omega (
              arith,
              later i,
              replay_batch_lem i b w,
              count-append i (ids_of b.rows) (batch_ids bs),
            ),
        λ h. counted (replay_batch-IsCounted b w h),
      )

  pub opened_lem :
      (t : TableId) (now : ℤ) (ix : Index) (st : StagingStore)
      → scan false st ≡ ok ix
      → Ascends st.last_id st.staging
      → IsWhole {T = T} t (opened t now ix st)
  unfolding open_writer job_ids job_records job_bytes byte_sum count
  opened_lem t now ix st scanned order =
      let (found, size) = claim-live t st ix scanned in
      let (replayed, counted) = replay_lem (claim t ix).0 (open_writer {T = T} now) in
      record {
        counted = counted (record { batched = refl; queued = refl; sized = refl });
        live = λ i. omega (arith, found i, replayed i);
        order = order;
        full = size;
      }

  -- A step that leaves the counters of the writer right, its rows and the ceiling.
  pub kept_lem :
      (t : TableId) (w : Writer T) (s : Shared T)
      → Holds s.writer w
      → IsWhole t s
      → IsWhole t (record s { writer = w })
  kept_lem t w s holds h = record {
    counted = holds.counted h.counted;
    live = λ i. h.live i ∙ sym (ap (count i) holds.same);
    order = h.order;
    full = h.full;
  }

  -- A statement that leaves the ids, the tables and the marks of all rows.
  restored_lem :
      (t : TableId) (R : StagingRow → StagingRow → Type 0) (st : StagingStore) (s : Shared T)
      → ((r x : StagingRow) → R r x → Keeps t r x)
      → Pointwise R s.staging.staging st.staging
      → st.last_id ≡ s.staging.last_id
      → IsWhole t s
      → IsWhole t (record s { staging = st })
  restored_lem t R st s keeps moved last h = record {
    counted = h.counted;
    live =
        λ i. ap (count i) (live-Pointwise t R s.staging.staging st.staging keeps moved) ∙ h.live i;
    order =
        subst (λ n. Ascends n st.staging) (sym last)
          (Pointwise-Ascends R s.staging.last_id s.staging.staging st.staging
            (λ r x p. (keeps r x p).0) moved h.order);
    full = h.full ∙ Pointwise-length R s.staging.staging st.staging moved;
  }

  pub sealed_lem :
      (t : TableId) (fails : Bool) (req : SealRequest) (s : Shared T)
      → IsWhole t s
      → IsWhole t (record s { staging = (seal fails req s.staging).1 })
  sealed_lem t fails req s h = elim (seal_cases fails req s.staging) [
    | inl (e, refused) ↦ rw refused h
    | inr (d, done, moved) ↦
        restored_lem t (SealedBy req d req.rows) (seal fails req s.staging).1 s
          (SealedBy-Keeps t req d req.rows) moved.moved moved.last h
  ]

  pub tried_lem :
      (t : TableId) (j j' : Job) (queue : List Job) (s : Shared T)
      → s.writer.worker.queue ≡ j ∷ queue
      → j'.batch.rows ≡ j.batch.rows
      → IsWhole t s
      → IsWhole t (with_worker (record s.writer.worker { queue = j' ∷ queue }) s)
  unfolding job_ids job_records job_bytes
  tried_lem t j j' queue s first same h =
      kept_lem t _ s
        (record {
          counted = λ c. record {
            batched = c.batched;
            queued =
                c.queued ∙ ap job_records first ∙ ap (λ x. length x + job_records queue) (sym same);
            sized =
                c.sized ∙ ap job_bytes first ∙ ap (λ x. byte_sum x + job_bytes queue) (sym same);
          };
          same =
              ap (λ x. (ids_of x ++ job_ids queue) ++ ids_of s.writer.batch) same
              ∙ ap (λ x. job_ids x ++ ids_of s.writer.batch) (sym first);
        })
        h
