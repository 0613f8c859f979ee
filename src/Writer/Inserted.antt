-- ===== src/Writer/Inserted.antt =====
-- writer.go: InsertBatch keeps what the writer holds.
use icelake.Prelude.{
  ℕ, suc, ◌+◌, ◌≡◌, refl, sym, ap, ◌∙◌, subst, ℤ, Bool, Bool-cases, true, not, inl, inr, List, [],
  ◌∷◌, ◌++◌, append_assoc, length, All, arith,
}
use icelake.Errdef.{Bytes, Error, Result, ok, err, ok-injective, >>=-eq-ok}
use icelake.Staging.Index.{PendingRow}
use icelake.Staging.Store.{append_batch, StagingStore, TableId}
use icelake.Flush.Cycle.{ids_of}
use icelake.Writer.{
  Writer, Shared, Ceiling, byte_sum, release, accept_batch, has_room, remember_batch,
}
use icelake.Writer.Appended.{
  Result-cases, InTable, IsAppended, append_batch_cases, length-ids_after,
}
use icelake.Writer.Rows.{count, count-append, live_ids}
use icelake.Writer.Accepting.{
  Options, Readings, total_of, flush_rows, is_due, triggered, joined, append_rows, staged_batch,
  stage_batch, reported, payloads_of, payload_of, indexed, insert_batch,
}
use icelake.Writer.Whole.{
  held, job_ids, byte_sum-append, ids_of-append, IsCounted, IsWhole, if-cases, trigger-Holds,
}

module _ {T : Type 0} (opts : Options T) where
  abbrev pub table_id : TableId
  table_id = record { namespace = opts.namespace; table = opts.table }

  flush_rows-sum :
      (ids : List ℕ) (payloads : List Bytes)
      → length ids ≡ length payloads
      → (byte_sum (flush_rows opts ids payloads) ≡ total_of opts payloads)
        × (ids_of (flush_rows opts ids payloads) ≡ ids)
  unfolding flush_rows total_of byte_sum
  flush_rows-sum [] [] e = (refl, refl)
  flush_rows-sum [] (p ∷ payloads) e = absurd (omega arith)
  flush_rows-sum (id ∷ ids) [] e = absurd (omega arith)
  flush_rows-sum (id ∷ ids) (p ∷ payloads) e =
      let (sum, same) = flush_rows-sum ids payloads (omega (arith, e)) in
      (omega (arith, sum), ap (λ x. id ∷ x) same)

  -- The rows join the batch, and the trigger may seal it.
  record Joins (ids : List ℕ) (w w' : Writer T) : Type 0 where
    counted : IsCounted w → IsCounted w'
    longer : held w' ≡ held w ++ ids

  joined-Joins :
      (rows : List PendingRow) (total : ℕ) (w w' : Writer T)
      → byte_sum rows ≡ total
      → (w'.batch ≡ w.batch ++ rows)
        × (w'.batch_bytes ≡ w.batch_bytes + total)
        × (w'.queued_records ≡ w.queued_records)
        × (w'.queued_bytes ≡ w.queued_bytes)
        × (w'.worker ≡ w.worker)
      → Joins (ids_of rows) w w'
  joined-Joins rows total w w' sum (b, bb, qr, qb, k) = record {
    counted = λ h. record {
      batched = rw b (omega (arith, bb, h.batched, sum, byte_sum-append w.batch rows));
      queued = rw k (qr ∙ h.queued);
      sized = rw k (qb ∙ h.sized);
    };
    longer =
        rw (b, k)
          (ap (λ x. job_ids w.worker.queue ++ x) (ids_of-append w.batch rows)
            ∙ sym (append_assoc (job_ids w.worker.queue) (ids_of w.batch) (ids_of rows)));
  }

  triggered-Joins :
      (at : Readings) (ids : List ℕ) (w w' : Writer T)
      → Joins ids w w'
      → Joins ids w (triggered opts at w')
  triggered-Joins at ids w w' h = elim (Bool-cases (is_due opts w')) [
    | inl e ↦
        let next = trigger-Holds opts.settings at.now at.sealed_at w' in
        rw e (record { counted = λ k. next.counted (h.counted k); longer = next.same ∙ h.longer })
    | inr e ↦ rw e h
  ]

  append_rows-InTable :
      (at : ℤ) (payloads : List Bytes)
      → All (InTable table_id) (append_rows opts at payloads)
        × (length (append_rows opts at payloads) ≡ length payloads)
  unfolding append_rows table_id
  append_rows-InTable at [] = (tt, refl)
  append_rows-InTable at (p ∷ payloads) =
      let (here, size) = append_rows-InTable at payloads in (((refl, refl), here), ap suc size)

  payloads_of-length :
      (i : ℕ) (rows : List T) {payloads : List Bytes}
      → payloads_of opts i rows ≡ ok payloads
      → length payloads ≡ length rows
  unfolding payloads_of
  payloads_of-length i [] h = sym (ap length (ok-injective h))
  payloads_of-length i (row ∷ rows) h =
      let (p, first, h1) = >>=-eq-ok (indexed i (payload_of opts row)) _ h in
      let (ps, later, h2) = >>=-eq-ok (payloads_of opts (suc i) rows) _ h1 in
      sym (ap length (ok-injective h2)) ∙ ap suc (payloads_of-length (suc i) rows later)

  charged_lem :
      (records bytes : ℕ) (c : Ceiling)
      → (accept_batch opts.limits records bytes c).0 ≡ true
      → (accept_batch opts.limits records bytes c).1.records ≡ c.records + records
  unfolding accept_batch
  charged_lem records bytes c h = ground (arith, Bool-cases (has_room opts.limits records bytes c))

  -- What an accepted batch leaves.
  appended-IsWhole :
      (at : Readings) (rows : List T) (payloads : List Bytes) (s : Shared T) (c : Ceiling)
      (ids : List ℕ) (st' : StagingStore) (n : ℕ)
      → length payloads ≡ n
      → c.records ≡ s.ceiling.records + n
      → IsAppended table_id n s.staging ids st'
      → IsWhole table_id s
      → IsWhole table_id (staged_batch opts at rows payloads s c (ok ids, st')).1
  unfolding staged_batch remember_batch
  appended-IsWhole at rows payloads s c ids st' n size charged new h =
      let joins = flush_rows opts ids payloads in
      let (sum, same) =
        flush_rows-sum ids payloads
          (ap length new.given ∙ length-ids_after s.staging.last_id n ∙ sym size) in
      let after = remember_batch rows (joined opts joins (total_of opts payloads) s.writer) in
      let joined_ =
        joined-Joins joins (total_of opts payloads) s.writer after sum
          (refl, refl, refl, refl, refl) in
      let next = triggered-Joins at (ids_of joins) s.writer after joined_ in
      record {
        counted = next.counted h.counted;
        live = λ i.
            ap (count i) new.live
            ∙ count-append i (live_ids table_id s.staging.staging) ids
            ∙ ap (λ x. x + count i ids) (h.live i)
            ∙ sym (count-append i (held s.writer) ids)
            ∙ ap (λ x. count i (held s.writer ++ x)) (sym same)
            ∙ sym (ap (count i) next.longer);
        order = new.order h.order;
        full = charged ∙ ap (λ x. x + n) h.full ∙ sym new.size;
      }

  released-IsWhole :
      (at : Readings) (rows : List T) (payloads : List Bytes) (s : Shared T) (c : Ceiling)
      (e : Error)
      → c.records ≡ s.ceiling.records + length rows
      → IsWhole table_id s
      → IsWhole table_id (staged_batch opts at rows payloads s c (err e, s.staging)).1
  unfolding staged_batch release
  released-IsWhole at rows payloads s c e charged h = record {
    counted = h.counted;
    live = h.live;
    order = h.order;
    full = omega (arith, charged, h.full);
  }

  staged_batch-IsWhole :
      (fails : Bool) (at : Readings) (rows : List T) (payloads : List Bytes) (s : Shared T)
      (c : Ceiling)
      → length payloads ≡ length rows
      → c.records ≡ s.ceiling.records + length rows
      → IsWhole table_id s
      → IsWhole table_id
          (staged_batch opts at rows payloads s c
            (append_batch fails (append_rows opts at.staged_at payloads) s.staging)).1
  staged_batch-IsWhole fails at rows payloads s c size charged h =
      let (here, long) = append_rows-InTable at.staged_at payloads in
      elim (append_batch_cases table_id fails (append_rows opts at.staged_at payloads) s.staging
        here) [
          | inl (e, refused) ↦ rw refused (released-IsWhole at rows payloads s c e charged h)
          | inr (ids, st', taken, new) ↦ rw taken (
              appended-IsWhole at rows payloads s c ids st' (length rows) size charged
                (subst (λ n. IsAppended table_id n s.staging ids st') (long ∙ size) new) h)
        ]

  abbrev After : Result (Unit {0}) × Shared T → Type 0
  After r = IsWhole table_id r.1

  stage_batch-IsWhole :
      (fails : Bool) (at : Readings) (rows : List T) (payloads : List Bytes) (s : Shared T)
      → length payloads ≡ length rows
      → IsWhole table_id s
      → IsWhole table_id (stage_batch opts fails at rows payloads s).1
  unfolding stage_batch
  stage_batch-IsWhole fails at rows payloads s size h =
      let room = accept_batch opts.limits (length rows) (total_of opts payloads) s.ceiling in
      if-cases After s.writer.closed (λ e. h)
        (λ open_.
          if-cases After (not room.0) (λ full. h)
            (λ fits.
              staged_batch-IsWhole fails at rows payloads s room.1 size
                (charged_lem (length rows) (total_of opts payloads) s.ceiling
                  (ground (arith, fits, Bool-cases room.0)))
                h))

  reported-lem :
      (rows : List T) (r : Result (Unit {0}) × Shared T)
      → IsWhole table_id r.1
      → IsWhole table_id (reported opts rows r).1
  reported-lem rows (err e, s) h = h
  reported-lem rows (ok u, s) h = h

  pub insert_batch-IsWhole :
      (fails : Bool) (at : Readings) (rows : List T) (s : Shared T)
      → IsWhole table_id s
      → IsWhole table_id (insert_batch opts fails at rows s).1
  unfolding insert_batch
  insert_batch-IsWhole fails at [] s h = if-cases After s.writer.closed (λ e. h) (λ e. h)
  insert_batch-IsWhole fails at (row ∷ rows) s h =
      if-cases After s.writer.closed (λ e. h)
        (λ open_. elim (Result-cases (payloads_of opts 0 (row ∷ rows))) [
          | inl (e, refused) ↦ rw refused h
          | inr (payloads, made) ↦ rw made (
              reported-lem (row ∷ rows) (stage_batch opts fails at (row ∷ rows) payloads s) (
                stage_batch-IsWhole fails at (row ∷ rows) payloads s
                  (payloads_of-length 0 (row ∷ rows) made) h))
        ])
