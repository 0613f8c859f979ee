-- ===== src/Writer/Appended.antt =====
-- internal/staging/store.go: the live rows of a table after AppendBatch and Seal.
use icelake.Prelude.{
  ℕ, zero, suc, ◌+◌, ◌≤◌, ◌<◌, ◌≡◌, refl, sym, ap, ◌∙◌, subst, Bool, true, false, inl, inr, ◌⊎◌,
  List, [], ◌∷◌, ◌++◌, append_assoc, append-nil, length, length-append, bytes_eq_refl, All, arith,
}
use icelake.Errdef.{
  Bytes, Error, staging_error, write, Result, ok, err, need, refuse_if, >>=-eq-ok, ok-injective,
}
use icelake.Canon.Shape.{Descriptor}
use icelake.Canon.Columns.{is_empty}
use icelake.Staging.Store.{
  StagingRow, StagingStore, TableId, AppendRow, staged, checked_rows, insert_row, insert_rows,
  append_batch,
}
use icelake.Staging.Store.Related.{Ascends, Ascends-append}
use icelake.Writer.Rows.{count, is_live, live_ids, live_ids-append}

-- The next ids.
unfoldable pub ids_after : ℕ → ℕ → List ℕ
ids_after last zero = []
ids_after last (suc n) = suc last ∷ ids_after (suc last) n

pub ids_after-once :
    (i last n : ℕ) → (count i (ids_after last n) ≤ 1) × (i ≤ last → count i (ids_after last n) ≡ 0)
unfolding count ids_after
ids_after-once i last zero = (omega arith, λ h. refl)
ids_after-once i last (suc n) =
    let (once, old) = ids_after-once i (suc last) n in
    (ground (arith, once, old), λ h. ground (arith, old))

pub ids_after-fresh : (i last n : ℕ) → last + n < i → count i (ids_after last n) ≡ 0
unfolding count ids_after
ids_after-fresh i last zero h = refl
ids_after-fresh i last (suc n) h = ground (arith, ids_after-fresh i (suc last) n)

pub length-ids_after : (last n : ℕ) → length (ids_after last n) ≡ n
unfolding ids_after
length-ids_after last zero = refl
length-ids_after last (suc n) = ap suc (length-ids_after (suc last) n)

pub Result-cases :
    {A : Type 0} (r : Result A) → ((e : Error) × (r ≡ err e)) ⊎ ((a : A) × (r ≡ ok a))
Result-cases (err e) = inl (e, refl)
Result-cases (ok a) = inr (a, refl)

module _ (t : TableId) where
  abbrev pub InTable : AppendRow → Type 0
  InTable row = (row.namespace ≡ t.namespace) × (row.table ≡ t.table)

  pub record IsAppended (n : ℕ) (st : StagingStore) (ids : List ℕ) (st' : StagingStore)
      : Type 0 where
    pub given : ids ≡ ids_after st.last_id n
    pub live : live_ids t st'.staging ≡ live_ids t st.staging ++ ids
    pub last : st'.last_id ≡ st.last_id + n
    pub size : length st'.staging ≡ length st.staging + n
    pub order : Ascends st.last_id st.staging → Ascends st'.last_id st'.staging

  staged-live :
      (row : AppendRow) (d : Descriptor) (id : ℕ) → InTable row → is_live t (staged row d id) ≡ true
  staged-live row d id (n, m) = rw (n, m, bytes_eq_refl t.namespace, bytes_eq_refl t.table) refl

  live_ids-one : (r : StagingRow) → is_live t r ≡ true → live_ids t (r ∷ []) ≡ r.id ∷ []
  unfolding live_ids
  live_ids-one r h = rw h refl

  insert_rows-IsAppended :
      (recorded : List Bytes) (rows : List (AppendRow × Descriptor)) (st : StagingStore)
      → All (λ r. InTable r.0) rows
      → IsAppended
          (length rows)
          st
          (insert_rows recorded rows st).0
          (insert_rows recorded rows st).1
  unfolding insert_rows ids_after
  insert_rows-IsAppended recorded [] st here = record {
    given = refl;
    live = sym (append-nil (live_ids t st.staging));
    last = omega arith;
    size = omega arith;
    order = λ h. h;
  }
  insert_rows-IsAppended recorded ((row, d) ∷ rows) st here =
      let st' = insert_row recorded row d st in
      let new = staged row d (suc st.last_id) in
      let rest = insert_rows-IsAppended (d.fp ∷ recorded) rows st' here.1 in
      let ids = (insert_rows (d.fp ∷ recorded) rows st').0 in
      let one : live_ids t st'.staging ≡ live_ids t st.staging ++ suc st.last_id ∷ [] =
        live_ids-append t st.staging (new ∷ [])
        ∙ ap (λ x. live_ids t st.staging ++ x)
            (live_ids-one new (staged-live row d (suc st.last_id) here.0)) in
      record {
        given = ap (λ x. suc st.last_id ∷ x) rest.given;
        live =
            rest.live
            ∙ ap (λ x. x ++ ids) one
            ∙ append_assoc (live_ids t st.staging) (suc st.last_id ∷ []) ids;
        last = omega (arith, rest.last);
        size = omega (arith, rest.size, length-append st.staging (new ∷ []));
        order = λ h. rest.order (Ascends-append st.last_id st.staging new refl h);
      }

  checked_rows-InTable :
      (rows : List AppendRow) {checked : List (AppendRow × Descriptor)}
      → All InTable rows
      → checked_rows rows ≡ ok checked
      → All (λ r. InTable r.0) checked × (length checked ≡ length rows)
  unfolding checked_rows
  checked_rows-InTable [] here h =
      subst (λ x. All (λ r. InTable r.0) x × (length x ≡ 0)) (ok-injective h) (tt, refl)
  checked_rows-InTable (row ∷ rows) here h =
      let (d, described, h1) = >>=-eq-ok (need row.descriptor (staging_error write)) _ h in
      let (u, filled, h2) =
        >>=-eq-ok (refuse_if (is_empty row.payload) (staging_error write)) _ h1 in
      let (rest, checked, h3) = >>=-eq-ok (checked_rows rows) _ h2 in
      let (all, size) = checked_rows-InTable rows here.1 checked in
      subst (λ x. All (λ r. InTable r.0) x × (length x ≡ suc (length rows))) (ok-injective h3)
        ((here.0, all), ap suc size)

  -- AppendBatch either refuses and leaves the store as it was, or the rows have the next ids.
  pub append_batch_cases :
      (fails : Bool) (rows : List AppendRow) (st : StagingStore)
      → All InTable rows
      → ((e : Error) × (append_batch fails rows st ≡ (err e, st)))
        ⊎ ((ids : List ℕ) × (st' : StagingStore) × (append_batch fails rows st ≡ (ok ids, st'))
            × IsAppended (length rows) st ids st')
  unfolding append_batch ids_after
  append_batch_cases fails [] st here = inr (
    [],
    st,
    refl,
    record {
      given = refl;
      live = sym (append-nil (live_ids t st.staging));
      last = omega arith;
      size = omega arith;
      order = λ h. h;
    },
  )
  append_batch_cases true (row ∷ rows) st here = elim (Result-cases (checked_rows (row ∷ rows))) [
    | inl (e, h) ↦ inl (e, rw (append_batch, h) refl)
    | inr (checked, h) ↦ inl (staging_error write, rw (append_batch, h) refl)
  ]
  append_batch_cases false (row ∷ rows) st here = elim (Result-cases (checked_rows (row ∷ rows))) [
    | inl (e, h) ↦ inl (e, rw (append_batch, h) refl)
    | inr (checked, h) ↦
        let (all, size) = checked_rows-InTable (row ∷ rows) here h in
        let out = insert_rows [] checked st in
        inr (
          out.0,
          out.1,
          rw (append_batch, h) refl,
          subst (λ n. IsAppended n st out.0 out.1) size (insert_rows-IsAppended [] checked st all),
        )
  ]
