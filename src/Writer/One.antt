-- ===== src/Writer/One.antt =====
-- writer.go: Insert of one record against InsertBatch of a batch with that record.
use icelake.Prelude.{
  ℕ, suc, ◌+◌, ◌≡◌, refl, sym, ap, ◌∙◌, Bool, Bool-cases, true, false, inl, inr, ◌⊎◌, some, [], ◌∷◌,
  length, if◌then◌else◌, arith,
}
use icelake.Errdef.{Bytes, Error, Result, ok, err, err_closed, batch_error}
use icelake.Staging.Store.{StagingStore, append}
use icelake.Writer.{Writer, Shared, Ceiling, accept_batch, remember, remember_batch, last_of}
use icelake.Writer.Accepting.{
  Options, Readings, payload_of, payloads_of, total_of, append_rows, append_row, flush_row,
  flush_rows, joined, staged_batch, stage_batch, staged_row, stage, reported, insert, insert_batch,
}
use icelake.Writer.Appended.{ids_after, append_batch_cases, Result-cases}
use icelake.Writer.Inserted.{table_id}

ids_one : (last : ℕ) → ids_after last 1 ≡ suc last ∷ []
unfolding ids_after
ids_one last = refl

if_true : {A : Type 0} (x y : A) {b : Bool} → b ≡ true → (if b then x else y) ≡ x
if_true x y h = rw h refl

if_false : {A : Type 0} (x y : A) {b : Bool} → b ≡ false → (if b then x else y) ≡ y
if_false x y h = rw h refl

module _ {T : Type 0} (opts : Options T) where
  total_one : (p : Bytes) → total_of opts (p ∷ []) ≡ length p
  unfolding total_of
  total_one p = omega arith

  remember_one : (row : T) (w : Writer T) → remember_batch (row ∷ []) w ≡ remember row w
  unfolding remember_batch remember last_of
  remember_one row w = let more : w.accepted + 1 ≡ suc w.accepted = omega arith in rw more refl

  -- What follows the append, at one record.
  staged_one_err :
      (at : Readings) (row : T) (p : Bytes) (s : Shared T) (c : Ceiling) (e : Error)
      (st : StagingStore)
      → staged_batch opts at (row ∷ []) (p ∷ []) s c (err e, st)
        ≡ staged_row opts at row p s c (err e, st)
  unfolding staged_batch staged_row
  staged_one_err at row p s c e st = rw (total_one p) refl

  staged_one_ok :
      (at : Readings) (row : T) (p : Bytes) (s : Shared T) (c : Ceiling) (id : ℕ)
      (st : StagingStore)
      → staged_batch opts at (row ∷ []) (p ∷ []) s c (ok (id ∷ []), st)
        ≡ staged_row opts at row p s c (ok (some id), st)
  unfolding staged_batch staged_row flush_rows
  staged_one_ok at row p s c id st =
      rw (total_one p)
        (rw (remember_one row (joined opts (flush_row opts id p ∷ []) (length p) s.writer)) refl)

  stage_one :
      (fails : Bool) (at : Readings) (row : T) (p : Bytes) (s : Shared T)
      → stage_batch opts fails at (row ∷ []) (p ∷ []) s ≡ stage opts fails at row p s
  unfolding stage_batch stage append append_rows
  stage_one fails at row p s =
      let new = append_row opts at.staged_at p in
      let c = (accept_batch opts.limits 1 (length p) s.ceiling).1 in
      elim (append_batch_cases (table_id opts) fails (new ∷ []) s.staging ((refl, refl), tt)) [
        | inl (e, refused) ↦
            rw (total_one p) (rw refused (rw (staged_one_err at row p s c e s.staging) refl))
        | inr (ids, st, done, taken) ↦
            let one : ids ≡ suc s.staging.last_id ∷ [] = taken.given ∙ ids_one s.staging.last_id in
            rw (total_one p)
              (rw done (rw one (rw (staged_one_ok at row p s c (suc s.staging.last_id) st) refl)))
      ]

  -- The answers of InsertBatch and of Insert, and the state that both leave.
  module _ (row : T) (s : Shared T) (batch one : Result (Unit {0}) × Shared T) where
    -- The writer is closed.
    pub record BothClosed : Type 0 where
      pub shut : s.writer.closed ≡ true
      pub batch_says : batch ≡ (err err_closed, s)
      pub one_says : one ≡ (err err_closed, s)

    -- The record has no payload: its own error, in a batch with its index.
    pub record BothRefused : Type 0 where
      pub open_ : s.writer.closed ≡ false
      pub reason : Error
      pub refused : payload_of opts row ≡ err reason
      pub batch_says : batch ≡ (err (batch_error 0 reason), s)
      pub one_says : one ≡ (err reason, s)

    -- The record has a payload, and all that follows is the same.
    pub record BothStaged : Type 0 where
      pub open_ : s.writer.closed ≡ false
      pub payload : Bytes
      pub encoded : payload_of opts row ≡ ok payload
      pub same : batch ≡ one

    abbrev pub AsOne : Type 0
    AsOne = BothClosed ⊎ (BothRefused ⊎ BothStaged)

  pub AsOne-state :
      (row : T) (s : Shared T) (batch one : Result (Unit {0}) × Shared T)
      → AsOne row s batch one
      → batch.1 ≡ one.1
  AsOne-state row s batch one (inl h) = ap (λ x. x.1) (h.batch_says ∙ sym h.one_says)
  AsOne-state row s batch one (inr (inl h)) =
      ap (λ x. x.1) h.batch_says ∙ ap (λ x. x.1) (sym h.one_says)
  AsOne-state row s batch one (inr (inr h)) = ap (λ x. x.1) h.same

  -- InsertBatch of one record against Insert of the record. On a closed writer both answer ErrClosed
  -- and leave the state as it was. On an open writer, where Bind, the poison check or Encode refuses
  -- the record, Insert answers the record's own error and InsertBatch that error with the index 0,
  -- and both leave the state as it was; else both have the same answer and leave the same state,
  -- whatever the ceiling, the database and the mirror hook do.
  pub insert_batch-one :
      (fails : Bool) (at : Readings) (row : T) (s : Shared T)
      → AsOne row s (insert_batch opts fails at (row ∷ []) s) (insert opts fails at row s)
  unfolding insert_batch insert payloads_of
  insert_batch-one fails at row s = elim (Bool-cases s.writer.closed) [
    | inl shut ↦
        inl (record { shut = shut; batch_says = if_true _ _ shut; one_says = if_true _ _ shut })
    | inr open_ ↦ elim (Result-cases (payload_of opts row)) [
      | inl (e, bad) ↦ inr (
          inl (record {
            open_ = open_;
            reason = e;
            refused = bad;
            batch_says = if_false _ _ open_ ∙ rw bad refl;
            one_says = if_false _ _ open_ ∙ rw bad refl;
          }))
      | inr (p, good) ↦ inr (
          inr (record {
            open_ = open_;
            payload = p;
            encoded = good;
            same =
                if_false _ _ open_
                ∙ rw good (ap (reported opts (row ∷ [])) (stage_one fails at row p s))
                ∙ sym (if_false _ _ open_);
          }))
    ]
  ]
