-- ===== src/Writer/Whole.antt =====
-- writer.go: in every state that the writer and its worker reach, the writer holds the live rows of its table.
use icelake.Prelude.{
  ℕ, suc, ◌+◌, ◌≡◌, refl, sym, ap, ◌∙◌, ℤ, Bool, Bool-cases, true, false, inl, inr, List, [], ◌∷◌,
  ◌++◌, append_assoc, append-nil, length, if◌then◌else◌, ltb_ℤ, ◌-ℤ◌, ◌==◌, arith,
}
use icelake.Staging.Index.{PendingRow}
use icelake.Staging.Store.{TableId}
use icelake.Staging.Store.Related.{Ascends}
use icelake.Flush.Worker.{new_job, Job, enqueue}
use icelake.Flush.Cycle.{ids_of}
use icelake.Writer.{Writer, Shared, Settings, byte_sum, handed_over, seal_batch, trigger}
use icelake.Writer.Rows.{count, live_ids}

unfoldable pub job_ids : List Job → List ℕ
job_ids [] = []
job_ids (j ∷ queue) = ids_of j.batch.rows ++ job_ids queue

unfoldable pub job_records : List Job → ℕ
job_records [] = 0
job_records (j ∷ queue) = length j.batch.rows + job_records queue

unfoldable pub job_bytes : List Job → ℕ
job_bytes [] = 0
job_bytes (j ∷ queue) = byte_sum j.batch.rows + job_bytes queue

-- The rows that the worker's queue and the batch in memory hold.
abbrev pub held : {T : Type 0} → Writer T → List ℕ
held w = job_ids w.worker.queue ++ ids_of w.batch

-- What the writer's own counters say.
pub record IsCounted {T : Type 0} (w : Writer T) : Type 0 where
  pub batched : w.batch_bytes ≡ byte_sum w.batch
  pub queued : w.queued_records ≡ job_records w.worker.queue
  pub sized : w.queued_bytes ≡ job_bytes w.worker.queue

-- The writer holds each live row of its table once, and nothing else; the ceiling counts all rows.
pub record IsWhole {T : Type 0} (t : TableId) (s : Shared T) : Type 0 where
  pub counted : IsCounted s.writer
  pub live : (i : ℕ) → count i (live_ids t s.staging.staging) ≡ count i (held s.writer)
  pub order : Ascends s.staging.last_id s.staging.staging
  pub full : s.ceiling.records ≡ length s.staging.staging

pub if-cases :
    {A : Type 0} (P : A → Type 0) (b : Bool) {x y : A}
    → (b ≡ true → P x)
    → (b ≡ false → P y)
    → P (if b then x else y)
if-cases P true h k = h refl
if-cases P false h k = k refl

pub job_ids-append : (xs ys : List Job) → job_ids (xs ++ ys) ≡ job_ids xs ++ job_ids ys
unfolding job_ids
job_ids-append [] ys = refl
job_ids-append (j ∷ xs) ys =
    ap (λ x. ids_of j.batch.rows ++ x) (job_ids-append xs ys)
    ∙ sym (append_assoc (ids_of j.batch.rows) (job_ids xs) (job_ids ys))

pub job_records-append :
    (xs ys : List Job) → job_records (xs ++ ys) ≡ job_records xs + job_records ys
unfolding job_records
job_records-append [] ys = omega arith
job_records-append (j ∷ xs) ys = omega (arith, job_records-append xs ys)

pub job_bytes-append : (xs ys : List Job) → job_bytes (xs ++ ys) ≡ job_bytes xs + job_bytes ys
unfolding job_bytes
job_bytes-append [] ys = omega arith
job_bytes-append (j ∷ xs) ys = omega (arith, job_bytes-append xs ys)

pub byte_sum-append : (xs ys : List PendingRow) → byte_sum (xs ++ ys) ≡ byte_sum xs + byte_sum ys
unfolding byte_sum
byte_sum-append [] ys = omega arith
byte_sum-append (r ∷ xs) ys = omega (arith, byte_sum-append xs ys)

pub ids_of-append : (xs ys : List PendingRow) → ids_of (xs ++ ys) ≡ ids_of xs ++ ids_of ys
ids_of-append [] ys = refl
ids_of-append (r ∷ xs) ys = ap (λ x. r.id ∷ x) (ids_of-append xs ys)

-- A step of the writer that leaves the counters right and holds the rows that it held.
pub record Holds {T : Type 0} (w w' : Writer T) : Type 0 where
  pub counted : IsCounted w → IsCounted w'
  pub same : held w' ≡ held w

module _ {T : Type 0} where
  handed_over-Holds : (now : ℤ) (w : Writer T) → Holds w (handed_over now w)
  unfolding enqueue job_ids job_records job_bytes byte_sum
  handed_over-Holds now w =
      let handed = new_job (record { key = []; rows = w.batch }) (suc w.worker.enqueued) false in
      record {
        counted = λ h. record {
          batched = refl;
          queued = omega (arith, job_records-append w.worker.queue (handed ∷ []), h.queued);
          sized = omega (arith, job_bytes-append w.worker.queue (handed ∷ []), h.sized, h.batched);
        };
        same =
            append-nil (job_ids (w.worker.queue ++ handed ∷ []))
            ∙ job_ids-append w.worker.queue (handed ∷ [])
            ∙ ap (λ x. job_ids w.worker.queue ++ x) (append-nil (ids_of w.batch));
      }

  pub seal_batch-Holds : (now : ℤ) (w : Writer T) → Holds w (seal_batch now w)
  unfolding seal_batch
  seal_batch-Holds now w = elim (Bool-cases (length w.batch == 0)) [
    | inl e ↦ rw e (record { counted = λ h. h; same = refl })
    | inr e ↦ rw e (handed_over-Holds now w)
  ]

  pub trigger-Holds :
      (settings : Settings) (now sealed_at : ℤ) (w : Writer T)
      → Holds w (trigger settings now sealed_at w)
  unfolding trigger
  trigger-Holds settings now sealed_at w = elim (Bool-cases (length w.batch == 0)) [
    | inl e ↦ rw e (record { counted = λ h. h; same = refl })
    | inr e ↦ elim (Bool-cases (ltb_ℤ (now -ℤ w.last_seal_at) settings.floor)) [
      | inl f ↦
          rw (e, f)
            (record {
              counted = λ h. record { batched = h.batched; queued = h.queued; sized = h.sized };
              same = refl;
            })
      | inr f ↦ rw (e, f) (seal_batch-Holds sealed_at w)
    ]
  ]
