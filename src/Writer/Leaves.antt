-- ===== src/Writer/Leaves.antt =====
-- writer.go with internal/flush/worker.go: what the writer holds when a job has left its queue.
use icelake.Prelude.{
  ℕ, ◌+◌, ◌-◌, ◌≤◌, ◌≡◌, refl, sym, ap, ◌∙◌, List, ◌∷◌, ◌++◌, append_assoc, length, if◌then◌else◌,
  arith,
}
use icelake.Staging.Store.{StagingRow, TableId}
use icelake.Staging.Store.Leaving.{has_id}
use icelake.Flush.Worker.{Job}
use icelake.Flush.Cycle.{ids_of}
use icelake.Writer.{Writer, Shared, byte_sum}
use icelake.Writer.Rows.{
  count, count-append, count-has_id, has_id-count, live_ids, Ascends-once, live-le-all,
}
use icelake.Writer.Whole.{held, job_ids, job_records, job_bytes, IsCounted, IsWhole}

module _ {T : Type 0} (t : TableId) (j : Job) (queue : List Job) where
  -- What is left when the job at the head leaves the queue.
  pub record Leaves (w w' : Writer T) : Type 0 where
    pub counted : IsCounted w → IsCounted w'
    pub fewer : held w ≡ ids_of j.batch.rows ++ held w'

  pub leaves_lem :
      (w w' : Writer T)
      → w.worker.queue ≡ j ∷ queue
      → (w'.worker.queue ≡ queue)
        × (w'.batch ≡ w.batch)
        × (w'.batch_bytes ≡ w.batch_bytes)
        × (w'.queued_records ≡ w.queued_records - length j.batch.rows)
        × (w'.queued_bytes ≡ w.queued_bytes - byte_sum j.batch.rows)
      → Leaves w w'
  unfolding job_ids job_records job_bytes
  leaves_lem w w' first (q, b, bb, qr, qb) = record {
    counted = λ h. record {
      batched = bb ∙ h.batched ∙ ap byte_sum (sym b);
      queued = omega (arith, qr, h.queued, ap job_records first, ap job_records q);
      sized = omega (arith, qb, h.sized, ap job_bytes first, ap job_bytes q);
    };
    fewer =
        ap (λ x. job_ids x ++ ids_of w.batch) first
        ∙ append_assoc (ids_of j.batch.rows) (job_ids queue) (ids_of w.batch)
        ∙ ap (λ x. ids_of j.batch.rows ++ (job_ids x ++ ids_of w.batch)) (sym q)
        ∙ ap (λ x. ids_of j.batch.rows ++ (job_ids w'.worker.queue ++ ids_of x)) (sym b);
  }

  -- The ids of the job are held once.
  pub once_lem :
      (i : ℕ) (w w' : Writer T) (s : Shared T)
      → s.writer ≡ w
      → IsWhole t s
      → Leaves w w'
      → (count i (ids_of j.batch.rows) + count i (held w') ≡ count i (live_ids t s.staging.staging))
        × (count i (live_ids t s.staging.staging) ≤ 1)
  once_lem i w w' s e h leaves =
      let split =
        sym (count-append i (ids_of j.batch.rows) (held w'))
        ∙ ap (count i) (sym leaves.fewer)
        ∙ ap (λ x. count i (held x)) (sym e)
        ∙ sym (h.live i) in
      (
        split,
        omega (
          arith,
          live-le-all t i s.staging.staging,
          Ascends-once s.staging.last_id i s.staging.staging h.order,
        ),
      )

  -- The live rows after a statement that takes the job's rows away.
  pub taken_lem :
      (i : ℕ) (w' : Writer T) (s : Shared T) (rows : List StagingRow)
      → IsWhole t s
      → Leaves s.writer w'
      → count i (live_ids t rows)
        ≡ (if has_id i (ids_of j.batch.rows) then 0 else count i (live_ids t s.staging.staging))
      → count i (live_ids t rows) ≡ count i (held w')
  taken_lem i w' s rows h leaves e =
      let (split, once) = once_lem i s.writer w' s refl h leaves in
      ground (
        arith,
        e,
        split,
        once,
        count-has_id i (ids_of j.batch.rows),
        has_id-count i (ids_of j.batch.rows),
      )
