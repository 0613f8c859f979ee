-- ===== src/Writer/Bounded.antt =====
-- store.go: the ceiling of records, over the steps of a writer.
use icelake.Prelude.{
  ℕ, ℤ, ◌+◌, ◌≤◌, subst, Bool, Bool-cases, false, not, inl, inr, List, [], ◌∷◌, length, leb, arith,
}
use icelake.Errdef.{Bytes, FlushError, Result, ok, err}
use icelake.Staging.Store.{StagingStore, append_batch}
use icelake.Staging.Store.Leaving.{delete, quarantine, prune_schemas}
use icelake.Flush.Worker.{Job}
use icelake.Flush.Cycle.{ids_of}
use icelake.Writer.{Shared, Ceiling, accept_batch, has_room, release}
use icelake.Writer.Accepting.{
  Options, Readings, total_of, append_rows, payloads_of, staged_batch, stage_batch, reported,
  insert_batch,
}
use icelake.Writer.Draining.{after_delete, committed, land, set_aside, after_mark, give_up}
use icelake.Writer.Whole.{if-cases}
use icelake.Writer.Appended.{Result-cases}
use icelake.Writer.One.{AsOne-state, insert_batch-one}
use icelake.Writer.Reached.{
  Step, inserted, batch_inserted, ticked, flushed, shut, answered, stopped, batch_sealed, tried,
  landed, put_aside, gave_up, Reached, steps, Reached-IsWhole,
}

module _ {T : Type 0} (opts : Options T) where
  abbrev IsWithin : Ceiling → Type 0
  IsWithin c = c.records ≤ opts.limits.max_records

  charged-IsWithin :
      (records bytes : ℕ) (c : Ceiling)
      → IsWithin c
      → IsWithin (accept_batch opts.limits records bytes c).1
  unfolding accept_batch has_room
  charged-IsWithin records bytes c h =
      ground (arith, h, Bool-cases (leb (c.bytes + bytes) opts.limits.max_bytes))

  staged_batch-IsWithin :
      (at : Readings) (rows : List T) (payloads : List Bytes) (s : Shared T) (c : Ceiling)
      (out : Result (List ℕ) × StagingStore)
      → IsWithin c
      → IsWithin (staged_batch opts at rows payloads s c out).1.ceiling
  unfolding staged_batch release
  staged_batch-IsWithin at rows payloads s c (err e, st) h = omega (arith, h)
  staged_batch-IsWithin at rows payloads s c (ok ids, st) h = h

  abbrev Within : Result (Unit {0}) × Shared T → Type 0
  Within out = IsWithin out.1.ceiling

  reported-IsWithin :
      (rows : List T) (out : Result (Unit {0}) × Shared T)
      → Within out
      → Within (reported opts rows out)
  reported-IsWithin rows (err e, s) h = h
  reported-IsWithin rows (ok u, s) h = h

  insert_batch-IsWithin :
      (fails : Bool) (at : Readings) (rows : List T) (s : Shared T)
      → IsWithin s.ceiling
      → Within (insert_batch opts fails at rows s)
  unfolding insert_batch stage_batch
  insert_batch-IsWithin fails at [] s h = if-cases Within s.writer.closed (λ e. h) (λ e. h)
  insert_batch-IsWithin fails at (row ∷ rows) s h =
      if-cases Within s.writer.closed (λ e. h)
        (λ open_. elim (Result-cases (payloads_of opts 0 (row ∷ rows))) [
          | inl (e, bad) ↦ rw bad h
          | inr (payloads, made) ↦
              let room =
                accept_batch opts.limits (length (row ∷ rows)) (total_of opts payloads) s.ceiling in
              rw made (
                reported-IsWithin (row ∷ rows) (stage_batch opts fails at (row ∷ rows) payloads s) (
                  if-cases Within s.writer.closed (λ e. h)
                    (λ again.
                      if-cases Within (not room.0) (λ full. h)
                        (λ fits.
                          staged_batch-IsWithin at (row ∷ rows) payloads s room.1
                            (append_batch fails (append_rows opts at.staged_at payloads) s.staging)
                            (charged-IsWithin (length (row ∷ rows)) (total_of opts payloads)
                              s.ceiling h)))))
        ])

  land-IsWithin :
      (now : ℤ) (j : Job) (s : Shared T) (out : Result (Unit {0}) × StagingStore)
      → IsWithin s.ceiling
      → IsWithin (after_delete false now j s out).ceiling
  unfolding committed release prune_schemas
  land-IsWithin now j s (err e, st) h = h
  land-IsWithin now j s (ok u, st) h = omega (arith, h)

  set_aside-IsWithin :
      (now : ℤ) (j : Job) (e : FlushError) (s : Shared T) (out : Result (Unit {0}) × StagingStore)
      → IsWithin s.ceiling
      → IsWithin (after_mark now j e s out).ceiling
  set_aside-IsWithin now j e s (err e', st) h = h
  set_aside-IsWithin now j e s (ok u, st) h = h

  step-IsWithin : (s s' : Shared T) → Step opts s s' → IsWithin s.ceiling → IsWithin s'.ceiling
  unfolding land set_aside give_up
  step-IsWithin _ _ (inserted fails at row s) h =
      subst (λ x. IsWithin x.ceiling)
        (AsOne-state opts row s _ _ (insert_batch-one opts fails at row s))
        (insert_batch-IsWithin fails at (row ∷ []) s h)
  step-IsWithin _ _ (batch_inserted fails at rows s) h = insert_batch-IsWithin fails at rows s h
  step-IsWithin _ _ (ticked now sealed_at s) h = h
  step-IsWithin _ _ (flushed now s) h = h
  step-IsWithin _ _ (shut now s) h = h
  step-IsWithin _ _ (answered since seq s) h = h
  step-IsWithin _ _ (stopped s) h = h
  step-IsWithin _ _ (batch_sealed fails req s) h = h
  step-IsWithin _ _ (tried j j' queue s first same) h = h
  step-IsWithin _ _ (landed fails now j queue s first) h =
      land-IsWithin now j s (delete fails (ids_of j.batch.rows) s.staging) h
  step-IsWithin _ _ (put_aside fails at cause now j queue e s first) h =
      set_aside-IsWithin now j e s (quarantine fails at cause (ids_of j.batch.rows) s.staging) h
  step-IsWithin _ _ (gave_up now report j queue e s first) h = h

  -- From a state that a writer reaches without PruneSchemas failing after a deletion, with at most
  -- the configured number of rows in its staging store, every step of the writer or of its worker
  -- but a landing in which PruneSchemas fails after the deletion leaves at most that number of rows
  -- there.
  pub step-bounded :
      (s s' : Shared T)
      → Reached opts s
      → Step opts s s'
      → length s.staging.staging ≤ opts.limits.max_records
      → length s'.staging.staging ≤ opts.limits.max_records
  step-bounded s s' before step few =
      let here = Reached-IsWhole opts s before in
      let there = Reached-IsWhole opts s' (steps s s' before step) in
      let fits : IsWithin s.ceiling = omega (arith, here.full, few) in
      omega (arith, there.full, step-IsWithin s s' step fits)
