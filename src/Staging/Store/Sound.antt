-- ===== src/Staging/Store/Sound.antt =====
-- internal/staging/store.go: the states that the store's operations reach.
use icelake.Prelude.{
  ℕ, ◌≡◌, refl, sym, ap, ◌∙◌, subst, ℤ, Bool, true, false, inl, inr, Option, none, some, List, [],
  ◌∷◌, All, All-append, length,
}
use icelake.Errdef.{Bytes, Result, ok, err, ◌>>=◌}
use icelake.Canon.Shape.{Descriptor}
use icelake.Canon.Descriptor.Canonical.{IsCanonical}
use icelake.Staging.Spool.{unix_milli, upsert_schema}
use icelake.Staging.Spool.Keeps.{
  HasSchema, upsert_schema_keeps, upsert_schema_has, upsert_schema-All,
}
use icelake.Staging.Spool.Consistent.{IsShape}
use icelake.Staging.Store.{
  StagingRow, StagingStore, AppendRow, checked_rows, insert_row, insert_rows, append_batch, tx,
}
use icelake.Staging.Store.Sealing.{SealRequest, sealed, seal}
use icelake.Staging.Store.Leaving.{
  with_rows, delete, mark_rows, check_whole_batches, quarantine_all, quarantine, prune_schemas,
}
use icelake.Staging.Store.Related.{
  Pointwise-All, Ascends, Pointwise-Ascends, Ascends-append, delete_rows-All, delete_rows-Ascends,
  delete_rows-In,
}
use icelake.Staging.Store.Sealed.{SealedBy, SealedBy-id, IsSealed, seal_cases}
use icelake.Staging.Store.Quarantined.{MarkedBy, mark_rows-Pointwise}
use icelake.Staging.Store.Gathered.{All-imp, All-zip}
use icelake.Staging.Store.Whole.{IsWhole, IsFresh, append-IsWhole, mark_rows-IsWhole, seal-IsWhole}
use icelake.Staging.Store.Shaped.{
  recorded_in_has, recorded_in_keeps, recorded_in-All, checked_rows-All, All-is_named,
  keep_named_has, keep_named-All,
}

abbrev pub empty_store : StagingStore
empty_store = record { staging = []; staging_schemas = []; last_id = 0 }

module _ (sha256_hex : Bytes → Bytes) where
  pub record IsSound (st : StagingStore) : Type 0 where
    pub ascends : Ascends st.last_id st.staging
    sized : All (λ r. r.byte_len ≡ length r.payload) st.staging
    shaped : All (λ r. HasSchema st.staging_schemas r.schema_fp) st.staging
    shapes : All (IsShape sha256_hex) st.staging_schemas
    pub whole : IsWhole st.staging

  insert_row-IsSound :
      (recorded : List Bytes) (row : AppendRow) (d : Descriptor) (st : StagingStore)
      → IsCanonical sha256_hex d
      → All (HasSchema st.staging_schemas) recorded
      → IsSound st
      → IsSound (insert_row recorded row d st)
  insert_row-IsSound recorded row d st c a h = record {
    ascends = Ascends-append st.last_id st.staging _ refl h.ascends;
    sized = (All-append _ st.staging _).1 (h.sized, (refl, tt));
    shaped = (All-append _ st.staging _).1 (
      All-imp _ _ st.staging (λ r. recorded_in_keeps recorded d st.staging_schemas r.schema_fp)
          h.shaped,
      (recorded_in_has recorded d st.staging_schemas a, tt),
    );
    shapes =
        recorded_in-All (IsShape sha256_hex) recorded d st.staging_schemas (d, c, refl) h.shapes;
    whole = append-IsWhole st.staging _ refl h.whole;
  }

  insert_rows-IsSound :
      (recorded : List Bytes) (checked : List (AppendRow × Descriptor)) (st : StagingStore)
      → All (λ c. IsCanonical sha256_hex c.1) checked
      → All (HasSchema st.staging_schemas) recorded
      → IsSound st
      → IsSound (insert_rows recorded checked st).1
  unfolding insert_rows
  insert_rows-IsSound recorded [] st c a h = h
  insert_rows-IsSound recorded ((row, d) ∷ checked) st c a h =
      insert_rows-IsSound (d.fp ∷ recorded) checked (insert_row recorded row d st) c.1
        (
          recorded_in_has recorded d st.staging_schemas a,
          All-imp _ _ recorded (λ fp. recorded_in_keeps recorded d st.staging_schemas fp) a,
        )
        (insert_row-IsSound recorded row d st c.0 a h)

  -- A record's descriptor comes from one of canon's constructors.
  abbrev HasCanonical : Option Descriptor → Type 0
  HasCanonical o = (d : Descriptor) → o ≡ some d → IsCanonical sha256_hex d

  append_batch-IsSound :
      (fails : Bool) (rows : List AppendRow) (st : StagingStore)
      → All (λ r. HasCanonical r.descriptor) rows
      → IsSound st
      → IsSound (append_batch fails rows st).1
  unfolding append_batch
  append_batch-IsSound fails [] st c h = h
  append_batch-IsSound fails (row ∷ rows) st c h = go (checked_rows (row ∷ rows)) refl fails
    where
      go :
          (m : Result (List (AppendRow × Descriptor)))
          → checked_rows (row ∷ rows) ≡ m
          → (b : Bool)
          → IsSound
              (elim m as (λ _. Result (List ℕ) × StagingStore) [
                | err e ↦ (err e, st)
                | ok checked ↦ tx b st (ok (insert_rows [] checked st))
              ]).1
      go (err e) found b = h
      go (ok checked) found true = h
      go (ok checked) found false =
          insert_rows-IsSound [] checked st
            (checked_rows-All (IsCanonical sha256_hex) (row ∷ rows) checked found c) tt h

  sealed-size :
      (req : SealRequest) (d : Descriptor) (o : Option Bytes) (r : StagingRow)
      → r.byte_len ≡ length r.payload
      → (sealed req d o r).byte_len ≡ length (sealed req d o r).payload
  sealed-size req d none r e = e
  sealed-size req d (some p) r e = refl

  sealed_shape :
      (P : Bytes → Type 0) (req : SealRequest) (d : Descriptor) (o : Option Bytes) (r : StagingRow)
      → P d.fp
      → P r.schema_fp
      → P (sealed req d o r).schema_fp
  sealed_shape P req d none r new old = old
  sealed_shape P req d (some p) r new old = new

  IsSealed-IsSound :
      (req : SealRequest) (d : Descriptor) (st st' : StagingStore)
      → HasCanonical req.descriptor
      → IsFresh req st.staging
      → IsSealed req d st st'
      → IsSound st
      → IsSound st'
  IsSealed-IsSound req d st st' c fresh s h = record {
    ascends =
        subst (λ n. Ascends n st'.staging) (sym s.last)
          (Pointwise-Ascends _ st.last_id st.staging st'.staging
            (λ r t m. SealedBy-id req d req.rows r t m) s.moved h.ascends);
    sized = Pointwise-All _ _ _ st.staging st'.staging size s.moved h.sized;
    shaped =
        subst (λ ss. All (λ r. HasSchema ss r.schema_fp) st'.staging) (sym s.recorded)
          (Pointwise-All _ _ _ st.staging st'.staging shape s.moved h.shaped);
    shapes = subst (All (IsShape sha256_hex)) (sym s.recorded) (
        upsert_schema-All (IsShape sha256_hex) d.fp d.encoded st.staging_schemas
          (d, c d s.named, refl) h.shapes);
    whole = seal-IsWhole req d st.staging st'.staging s.moved fresh h.whole;
  }
    where
      size :
          (r t : StagingRow)
          → SealedBy req d req.rows r t
          → r.byte_len ≡ length r.payload
          → t.byte_len ≡ length t.payload
      size r t (inl e) k = subst (λ (x : StagingRow). x.byte_len ≡ length x.payload) (sym e) k
      size r t (inr (q, there, (i, m, e))) k =
          subst (λ (x : StagingRow). x.byte_len ≡ length x.payload) (sym e)
            (sealed-size req d q.payload r k)

      shape :
          (r t : StagingRow)
          → SealedBy req d req.rows r t
          → HasSchema st.staging_schemas r.schema_fp
          → HasSchema (upsert_schema d.fp d.encoded st.staging_schemas) t.schema_fp
      shape r t (inl e) k =
          subst
            (λ (x : StagingRow).
              HasSchema (upsert_schema d.fp d.encoded st.staging_schemas) x.schema_fp)
            (sym e) (upsert_schema_keeps d.fp d.encoded r.schema_fp st.staging_schemas k)
      shape r t (inr (q, there, (i, m, e))) k =
          subst
            (λ (x : StagingRow).
              HasSchema (upsert_schema d.fp d.encoded st.staging_schemas) x.schema_fp)
            (sym e)
            (sealed_shape (HasSchema (upsert_schema d.fp d.encoded st.staging_schemas)) req d
              q.payload r (upsert_schema_has d.fp d.encoded st.staging_schemas)
              (upsert_schema_keeps d.fp d.encoded r.schema_fp st.staging_schemas k))

  marked-IsSound :
      (at : ℤ) (cause : Bytes) (ids : List ℕ) (st : StagingStore) {u : Unit {0}}
      → check_whole_batches ids st.staging ≡ ok u
      → IsSound st
      → IsSound (with_rows (mark_rows at cause ids st.staging) st)
  marked-IsSound at cause ids st checked h =
      let moved = mark_rows-Pointwise at cause ids st.staging in
      let rows = mark_rows at cause ids st.staging in
      record {
        ascends =
            Pointwise-Ascends (MarkedBy ids) st.last_id st.staging rows (λ r t m. m.id) moved
              h.ascends;
        sized =
            Pointwise-All (MarkedBy ids) _ _ st.staging rows
              (λ r t m k. m.size ∙ k ∙ ap length (sym m.payload)) moved h.sized;
        shaped =
            Pointwise-All (MarkedBy ids) _ _ st.staging rows
              (λ r t m k. subst (HasSchema st.staging_schemas) (sym m.shape) k) moved h.shaped;
        shapes = h.shapes;
        whole = mark_rows-IsWhole st.last_id at cause ids st.staging checked h.ascends h.whole;
      }

  quarantine-IsSound :
      (fails : Bool) (at : ℤ) (cause : Bytes) (ids : List ℕ) (st : StagingStore)
      → IsSound st
      → IsSound (quarantine fails at cause ids st).1
  unfolding quarantine quarantine_all
  quarantine-IsSound fails at cause [] st h = h
  quarantine-IsSound true at cause (id ∷ ids) st h = h
  quarantine-IsSound false at cause (id ∷ ids) st h =
      go (check_whole_batches (id ∷ ids) st.staging) refl
    where
      go :
          (m : Result (Unit {0}))
          → check_whole_batches (id ∷ ids) st.staging ≡ m
          → IsSound
              (tx false st (
                m >>= λ whole.
                ok (tt, with_rows (mark_rows (unix_milli at) cause (id ∷ ids) st.staging) st))).1
      go (err e) found = h
      go (ok u) found = marked-IsSound (unix_milli at) cause (id ∷ ids) st found h

  delete-IsSound :
      (fails : Bool) (ids : List ℕ) (st : StagingStore)
      → IsSound st
      → IsSound (delete fails ids st).1
  unfolding delete
  delete-IsSound fails [] st h = h
  delete-IsSound true (id ∷ ids) st h = h
  delete-IsSound false (id ∷ ids) st h = record {
    ascends = delete_rows-Ascends st.last_id (id ∷ ids) st.staging h.ascends;
    sized = delete_rows-All _ (id ∷ ids) st.staging h.sized;
    shaped = delete_rows-All _ (id ∷ ids) st.staging h.shaped;
    shapes = h.shapes;
    whole = λ b r s key in_r in_s br bs.
        h.whole b r s key (delete_rows-In (id ∷ ids) st.staging r in_r)
          (delete_rows-In (id ∷ ids) st.staging s in_s) br bs;
  }

  prune_schemas-IsSound :
      (fails : Bool) (st : StagingStore) → IsSound st → IsSound (prune_schemas fails st).1
  unfolding prune_schemas
  prune_schemas-IsSound true st h = h
  prune_schemas-IsSound false st h = record {
    ascends = h.ascends;
    sized = h.sized;
    shaped =
        All-zip _ _ _ st.staging (λ r. keep_named_has st.staging r.schema_fp st.staging_schemas)
          (All-is_named st.staging) h.shaped;
    shapes = keep_named-All (IsShape sha256_hex) st.staging st.staging_schemas h.shapes;
    whole = h.whole;
  }

  -- One operation of the store, whether the database fails or not. What is appended and sealed has
  -- descriptors from canon's constructors, and no quarantined batch of the table has the key that a
  -- seal gives.
  pub data Step : StagingStore → StagingStore → Type 0 where
    appended :
        (fails : Bool) (rows : List AppendRow) (st : StagingStore)
        → All (λ r. HasCanonical r.descriptor) rows
        → Step st (append_batch fails rows st).1
    sealed_batch :
        (fails : Bool) (req : SealRequest) (st : StagingStore)
        → HasCanonical req.descriptor
        → IsFresh req st.staging
        → Step st (seal fails req st).1
    deleted : (fails : Bool) (ids : List ℕ) (st : StagingStore) → Step st (delete fails ids st).1
    quarantined :
        (fails : Bool) (at : ℤ) (cause : Bytes) (ids : List ℕ) (st : StagingStore)
        → Step st (quarantine fails at cause ids st).1
    pruned : (fails : Bool) (st : StagingStore) → Step st (prune_schemas fails st).1

  -- The states that any sequence of operations reaches from the empty store.
  pub data Reached : StagingStore → Type 0 where
    created : Reached empty_store
    after : {st st' : StagingStore} → Reached st → Step st st' → Reached st'

  seal-IsSound :
      (fails : Bool) (req : SealRequest) (st : StagingStore)
      → HasCanonical req.descriptor
      → IsFresh req st.staging
      → IsSound st
      → IsSound (seal fails req st).1
  seal-IsSound fails req st c fresh h = elim (seal_cases fails req st) [
    | inl (e, refused) ↦ subst IsSound (sym (ap (λ out. out.1) refused)) h
    | inr (d, done, s) ↦ IsSealed-IsSound req d st _ c fresh s h
  ]

  step-IsSound : {st st' : StagingStore} → Step st st' → IsSound st → IsSound st'
  step-IsSound (appended fails rows st c) h = append_batch-IsSound fails rows st c h
  step-IsSound (sealed_batch fails req st c fresh) h = seal-IsSound fails req st c fresh h
  step-IsSound (deleted fails ids st) h = delete-IsSound fails ids st h
  step-IsSound (quarantined fails at cause ids st) h = quarantine-IsSound fails at cause ids st h
  step-IsSound (pruned fails st) h = prune_schemas-IsSound fails st h

  -- In every state that appends, seals, deletions, quarantines and prunes reach from the empty store, in
  -- any order and with any failures, where what is appended and sealed has canonical descriptors and no
  -- seal gives the key of a quarantined batch of its table: the ids ascend and are at most the last one
  -- given, every row has the length of its payload, the shape of every row is recorded as a canonical
  -- descriptor under its fingerprint, and the rows of a sealed batch are all quarantined or all live.
  pub Reached-IsSound : {st : StagingStore} → Reached st → IsSound st
  Reached-IsSound created = record {
    ascends = tt;
    sized = tt;
    shaped = tt;
    shapes = tt;
    whole = λ b r s key in_r in_s br bs. absurd in_r;
  }
  Reached-IsSound (after r s) = step-IsSound s (Reached-IsSound r)
