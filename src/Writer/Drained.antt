-- ===== src/Writer/Drained.antt =====
-- writer.go with internal/flush/worker.go: the ends of a cycle, and the worker's other statements.
use icelake.Prelude.{
  ℕ, suc, ◌≡◌, refl, ap, ◌∙◌, ℤ, Bool, true, false, inl, inr, ◌⊎◌, List, [], ◌∷◌, length, ==_iff,
  arith,
}
use icelake.Errdef.{Bytes, Error, FlushError, ok, err, staging_error, write}
use icelake.Staging.Index.{PendingRow}
use icelake.Staging.Store.{StagingRow, StagingStore, TableId}
use icelake.Staging.Store.Leaving.{
  delete, delete_rows, with_rows, quarantine, quarantine_all, check_whole_batches, mark_rows,
  prune_schemas,
}
use icelake.Staging.Store.Quarantined.{MarkedBy, mark_rows-Pointwise}
use icelake.Staging.Spool.{unix_milli}
use icelake.Writer.Appended.{Result-cases}
use icelake.Staging.Store.Related.{Pointwise, delete_rows-Ascends, Pointwise-Ascends}
use icelake.Flush.Worker.{Job, without, finish}
use icelake.Flush.Cycle.{ids_of}
use icelake.Writer.{Writer, Shared, byte_sum, release, unqueued, note_commit, cycle_ended}
use icelake.Writer.Rows.{count, live_ids, live-delete_rows, live-mark_rows, length-delete_rows}
use icelake.Writer.Draining.{finished, landing, marked, committed, land, set_aside, give_up}
use icelake.Writer.Whole.{IsWhole}
use icelake.Writer.Leaves.{Leaves, leaves_lem, once_lem, taken_lem}

rows-length : (rows : List PendingRow) → length (ids_of rows) ≡ length rows
rows-length [] = refl
rows-length (r ∷ rows) = ap suc (rows-length rows)

delete_cases :
    (fails : Bool) (ids : List ℕ) (st : StagingStore)
    → ((e : Error) × (delete fails ids st ≡ (err e, st)))
      ⊎ (delete fails ids st ≡ (ok tt, with_rows (delete_rows ids st.staging) st))
unfolding delete delete_rows
delete_cases fails [] st = inr refl
delete_cases true (id ∷ ids) st = inl (staging_error write, refl)
delete_cases false (id ∷ ids) st = inr refl

quarantine_cases :
    (fails : Bool) (at : ℤ) (cause : Bytes) (ids : List ℕ) (st : StagingStore)
    → ((e : Error) × (quarantine fails at cause ids st ≡ (err e, st)))
      ⊎ (quarantine fails at cause ids st
          ≡ (ok tt, with_rows (mark_rows (unix_milli at) cause ids st.staging) st))
unfolding quarantine quarantine_all mark_rows
quarantine_cases fails at cause [] st = inr refl
quarantine_cases true at cause (id ∷ ids) st = inl (staging_error write, refl)
quarantine_cases false at cause (id ∷ ids) st =
    elim (Result-cases (check_whole_batches (id ∷ ids) st.staging)) [
      | inl (e, h) ↦ inl (e, rw (quarantine, quarantine_all, h) refl)
      | inr (u, h) ↦ inr (rw (quarantine, quarantine_all, h) refl)
    ]

pub Pointwise-length :
    (R : StagingRow → StagingRow → Type 0) (rs ss : List StagingRow)
    → Pointwise R rs ss
    → length rs ≡ length ss
Pointwise-length R [] [] p = refl
Pointwise-length R [] (x ∷ ss) p = absurd p
Pointwise-length R (r ∷ rs) [] p = absurd p
Pointwise-length R (r ∷ rs) (x ∷ ss) p = ap suc (Pointwise-length R rs ss p.1)

without-head : (j : Job) (queue : List Job) → without j (j ∷ queue) ≡ queue
without-head j queue = rw ((==_iff j.seq j.seq).1 refl) refl

module _ {T : Type 0} (t : TableId) (j : Job) (queue : List Job) where
  committed-Leaves :
      (now : ℤ) (w : Writer T)
      → w.worker.queue ≡ j ∷ queue
      → Leaves t j queue w
          (finished now j landing (unqueued (length j.batch.rows) (byte_sum j.batch.rows) w))
  unfolding finish cycle_ended note_commit unqueued
  committed-Leaves now w first =
      leaves_lem t j queue w _ first
        (ap (without j) first ∙ without-head j queue, refl, refl, refl, refl)

  marked-Leaves :
      (now : ℤ) (e : FlushError) (w : Writer T)
      → w.worker.queue ≡ j ∷ queue
      → Leaves t j queue w
          (finished now j (marked e) (unqueued (length j.batch.rows) (byte_sum j.batch.rows) w))
  unfolding finish cycle_ended unqueued
  marked-Leaves now e w first =
      leaves_lem t j queue w _ first
        (ap (without j) first ∙ without-head j queue, refl, refl, refl, refl)

  gone-IsWhole :
      (now : ℤ) (s : Shared T) (st : StagingStore)
      → st.staging ≡ delete_rows (ids_of j.batch.rows) s.staging.staging
      → st.last_id ≡ s.staging.last_id
      → s.writer.worker.queue ≡ j ∷ queue
      → IsWhole t s
      → IsWhole t (committed now j (record s { staging = st }))
  unfolding committed release
  gone-IsWhole now s st left last first h =
      let w' =
        finished now j landing (unqueued (length j.batch.rows) (byte_sum j.batch.rows) s.writer) in
      let leaves = committed-Leaves now s.writer first in
      let ids = ids_of j.batch.rows in
      let held_once = λ (i : ℕ). once_lem t j queue i s.writer w' s refl h leaves in
      let size =
        length-delete_rows t s.staging.last_id ids s.staging.staging h.order
          (λ i. omega (arith, (held_once i).0, (held_once i).1))
          (λ i. omega (arith, (held_once i).0)) in
      record {
        counted = leaves.counted h.counted;
        live = λ i.
            ap (λ x. count i (live_ids t x)) left
            ∙ taken_lem t j queue i w' s (delete_rows ids s.staging.staging) h leaves
                (live-delete_rows t i ids s.staging.staging);
        order =
            rw (left, last) (delete_rows-Ascends s.staging.last_id ids s.staging.staging h.order);
        full = omega (arith, h.full, size, rows-length j.batch.rows, ap length left);
      }

  -- The batch leaves, unless the deletion fails; then all is as it was. The schemas are pruned.
  pub land-IsWhole :
      (fails : Bool) (now : ℤ) (s : Shared T)
      → s.writer.worker.queue ≡ j ∷ queue
      → IsWhole t s
      → IsWhole t (land fails false now j s)
  unfolding land prune_schemas
  land-IsWhole fails now s first h = elim (delete_cases fails (ids_of j.batch.rows) s.staging) [
    | inl (e, refused) ↦ rw refused h
    | inr gone ↦ rw gone (
        gone-IsWhole now s
          (prune_schemas false
            (with_rows (delete_rows (ids_of j.batch.rows) s.staging.staging) s.staging)).1
          refl refl first h)
  ]

  kept-IsWhole :
      (now : ℤ) (e : FlushError) (at : ℤ) (cause : Bytes) (s : Shared T)
      → s.writer.worker.queue ≡ j ∷ queue
      → IsWhole t s
      → IsWhole t (record s {
        writer =
            finished now j
              (marked e)
              (unqueued (length j.batch.rows) (byte_sum j.batch.rows) s.writer);
        staging = with_rows (mark_rows at cause (ids_of j.batch.rows) s.staging.staging) s.staging;
      })
  kept-IsWhole now e at cause s first h =
      let ids = ids_of j.batch.rows in
      let w' =
        finished now j (marked e)
          (unqueued (length j.batch.rows) (byte_sum j.batch.rows) s.writer) in
      let leaves = marked-Leaves now e s.writer first in
      let moved = mark_rows-Pointwise at cause ids s.staging.staging in
      record {
        counted = leaves.counted h.counted;
        live = λ i.
            taken_lem t j queue i w' s (mark_rows at cause ids s.staging.staging) h leaves
              (live-mark_rows t at cause i ids s.staging.staging);
        order =
            Pointwise-Ascends (MarkedBy ids) s.staging.last_id s.staging.staging
              (mark_rows at cause ids s.staging.staging) (λ r x m. m.id) moved h.order;
        full =
            h.full
            ∙ Pointwise-length (MarkedBy ids) s.staging.staging
                (mark_rows at cause ids s.staging.staging) moved;
      }

  pub set_aside-IsWhole :
      (fails : Bool) (at : ℤ) (cause : Bytes) (now : ℤ) (e : FlushError) (s : Shared T)
      → s.writer.worker.queue ≡ j ∷ queue
      → IsWhole t s
      → IsWhole t (set_aside fails at cause now j e s)
  unfolding set_aside
  set_aside-IsWhole fails at cause now e s first h =
      elim (quarantine_cases fails at cause (ids_of j.batch.rows) s.staging) [
        | inl (e', refused) ↦ rw refused h
        | inr kept ↦ rw kept (kept-IsWhole now e (unix_milli at) cause s first h)
      ]

  pub give_up-IsWhole :
      (now : ℤ) (report : Bool) (e : FlushError) (s : Shared T)
      → IsWhole t s
      → IsWhole t (give_up now report j e s)
  unfolding give_up finish cycle_ended
  give_up-IsWhole now report e s h = record {
    counted = record {
      batched = h.counted.batched;
      queued = h.counted.queued;
      sized = h.counted.sized;
    };
    live = h.live;
    order = h.order;
    full = h.full;
  }
