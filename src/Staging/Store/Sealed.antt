-- ===== src/Staging/Store/Sealed.antt =====
-- internal/staging/store.go: what a seal does to the rows.
use icelake.Prelude.{
  ◌≡◌, refl, sym, ap, ◌∙◌, subst, Bool, Bool-cases, true, false, ◌||◌, ◌==◌, Option, Option-cases,
  none, some, inl, inr, ◌⊎◌, List, [], ◌∷◌, In, All, bytes_eq→eq, arith,
}
use mathlib.Core.Option.{some-injective}
use icelake.Errdef.{
  Bytes, Error, Result, ok, err, need, refuse_if, >>=-eq-ok, need-eq-ok, refuse_if-eq-ok,
  ok-injective, staging_error, state,
}
use icelake.Canon.Shape.{Descriptor}
use icelake.Canon.Columns.{is_empty}
use icelake.Staging.Spool.{upsert_schema}
use icelake.Staging.Store.{StagingRow, StagingStore, is_quarantined, tx}
use icelake.Staging.Store.Sealing.{
  SealRow, SealRequest, has_no_rows, may_seal, sealed, seal_row, seal_rows, seal_all, guarded, seal,
}
use icelake.Staging.Store.Related.{Pointwise, Pointwise_refl, Pointwise_trans, Pointwise_forward}

module _ (req : SealRequest) (d : Descriptor) where
  abbrev SealedAs : SealRow → StagingRow → StagingRow → Type 0
  SealedAs s r t = (r.id ≡ s.id) × (may_seal req r ≡ true) × (t ≡ sealed req d s.payload r)

  -- The row is as it was, or it was free to be sealed and one of the request's rows names it.
  abbrev pub SealedBy : List SealRow → StagingRow → StagingRow → Type 0
  SealedBy ss r t = (t ≡ r) ⊎ ((s : SealRow) × In s ss × SealedAs s r t)

  seal_row-Pointwise :
      (s : SealRow) (rows : List StagingRow) (rows' : List StagingRow)
      → seal_row req d s rows ≡ some rows'
      → Pointwise (λ r t. (t ≡ r) ⊎ SealedAs s r t) rows rows'
  unfolding seal_row
  seal_row-Pointwise s [] rows' h = absurd (ground arith)
  seal_row-Pointwise s (r ∷ rows) rows' h = elim (Bool-cases (r.id == s.id)) [
    | inl e ↦ elim (Bool-cases (may_seal req r)) [
      | inl m ↦
          subst (Pointwise (λ r t. (t ≡ r) ⊎ SealedAs s r t) (r ∷ rows))
            (some-injective _ _ (rw (e, m) at h))
            (inr (ground (arith, e), m, refl), Pointwise_refl _ rows (λ r. inl refl))
      | inr m ↦ absurd (cc (rw (e, m) at h))
    ]
    | inr e ↦ elim (Option-cases (seal_row req d s rows)) [
      | inl gone ↦ absurd (cc (rw (e, gone) at h))
      | inr (rest, found) ↦
          subst (Pointwise (λ r t. (t ≡ r) ⊎ SealedAs s r t) (r ∷ rows))
            (some-injective _ _ (rw (e, found) at h))
            (inl refl, seal_row-Pointwise s rows rest found)
    ]
  ]

  -- A row that is sealed is not free any more.
  may_seal-sealed : (p : Option Bytes) (r : StagingRow) → may_seal req (sealed req d p r) ≡ false
  may_seal-sealed none r = ground arith
  may_seal-sealed (some p) r = ground arith

  SealedBy-then :
      (s : SealRow) (ss : List SealRow) (r x t : StagingRow)
      → (x ≡ r) ⊎ SealedAs s r x
      → SealedBy ss x t
      → SealedBy (s ∷ ss) r t
  SealedBy-then s ss r x t (inl e) (inl f) = inl (f ∙ e)
  SealedBy-then s ss r x t (inl e) (inr (s', there, h)) =
      inr (s', inr there, subst (λ y. SealedAs s' y t) e h)
  SealedBy-then s ss r x t (inr (i, m, e)) (inl f) = inr (s, inl refl, (i, m, f ∙ e))
  SealedBy-then s ss r x t (inr (i, m, e)) (inr (s', there, (i', m', e'))) =
      absurd (cc (ap (may_seal req) e, may_seal-sealed s.payload r, m'))

  seal_rows-Pointwise :
      (ss : List SealRow) (rows rows' : List StagingRow)
      → seal_rows req d ss rows ≡ ok rows'
      → Pointwise (SealedBy ss) rows rows'
  unfolding seal_rows
  seal_rows-Pointwise [] rows rows' h =
      subst (Pointwise (SealedBy []) rows) (ok-injective h)
        (Pointwise_refl (SealedBy []) rows (λ r. inl refl))
  seal_rows-Pointwise (s ∷ ss) rows rows' h =
      let (mid, first, rest) = >>=-eq-ok (need (seal_row req d s rows) (staging_error state)) _ h in
      Pointwise_trans (λ r t. (t ≡ r) ⊎ SealedAs s r t) (SealedBy ss) (SealedBy (s ∷ ss)) rows mid
        rows' (SealedBy-then s ss)
        (seal_row-Pointwise s rows mid
          (need-eq-ok (seal_row req d s rows) (staging_error state) first))
        (seal_rows-Pointwise ss mid rows' rest)

  -- A live row of the request's table, sealed under its key.
  abbrev pub IsHeld : StagingRow → Type 0
  IsHeld r =
      (r.batch_key ≡ some req.batch_key)
      × (r.namespace ≡ req.namespace)
      × (r.table_name ≡ req.table)
      × (is_quarantined r ≡ false)

  -- The row of a named id, after the seal.
  abbrev pub IsStamped : List StagingRow → SealRow → Type 0
  IsStamped rows s = (r : StagingRow) × In r rows × (r.id ≡ s.id) × IsHeld r

  sealed-id : (p : Option Bytes) (r : StagingRow) → (sealed req d p r).id ≡ r.id
  sealed-id none r = refl
  sealed-id (some p) r = refl

  pub SealedBy-id : (ss : List SealRow) (r t : StagingRow) → SealedBy ss r t → t.id ≡ r.id
  SealedBy-id ss r t (inl e) = ap (λ (x : StagingRow). x.id) e
  SealedBy-id ss r t (inr (s, there, (i, m, e))) =
      ap (λ (x : StagingRow). x.id) e ∙ sealed-id s.payload r

  sealed-IsHeld :
      (p : Option Bytes) (r : StagingRow) → may_seal req r ≡ true → IsHeld (sealed req d p r)
  sealed-IsHeld p r m = go p
    where
      go : (o : Option Bytes) → IsHeld (sealed req d o r)
      go none = (
        refl,
        bytes_eq→eq r.namespace req.namespace (ground arith),
        bytes_eq→eq r.table_name req.table (ground arith),
        ground arith,
      )
      go (some q) = (
        refl,
        bytes_eq→eq r.namespace req.namespace (ground arith),
        bytes_eq→eq r.table_name req.table (ground arith),
        ground arith,
      )

  seal_row-IsStamped :
      (s : SealRow) (rows rows' : List StagingRow)
      → seal_row req d s rows ≡ some rows'
      → IsStamped rows' s
  unfolding seal_row
  seal_row-IsStamped s [] rows' h = absurd (ground arith)
  seal_row-IsStamped s (r ∷ rows) rows' h = elim (Bool-cases (r.id == s.id)) [
    | inl e ↦ elim (Bool-cases (may_seal req r)) [
      | inl m ↦
          subst (λ xs. IsStamped xs s) (some-injective _ _ (rw (e, m) at h))
            (
              sealed req d s.payload r,
              inl refl,
              sealed-id s.payload r ∙ ground (arith, e),
              sealed-IsHeld s.payload r m,
            )
      | inr m ↦ absurd (cc (rw (e, m) at h))
    ]
    | inr e ↦ elim (Option-cases (seal_row req d s rows)) [
      | inl gone ↦ absurd (cc (rw (e, gone) at h))
      | inr (rest, found) ↦
          let (q, there, i, k) = seal_row-IsStamped s rows rest found in
          subst (λ xs. IsStamped xs s) (some-injective _ _ (rw (e, found) at h))
            (q, inr there, i, k)
    ]
  ]

  SealedBy-IsStamped :
      (ss : List SealRow) (s : SealRow) (rows rows' : List StagingRow)
      → Pointwise (SealedBy ss) rows rows'
      → IsStamped rows s
      → IsStamped rows' s
  SealedBy-IsStamped ss s rows rows' p (r, there, i, k) =
      let (t, there', h) = Pointwise_forward (SealedBy ss) rows rows' r p there in
      let (i', k') = keep t h in (t, there', i', k')
    where
      keep : (t : StagingRow) → SealedBy ss r t → (t.id ≡ s.id) × IsHeld t
      keep t (inl e) = (ap (λ (x : StagingRow). x.id) e ∙ i, subst IsHeld (sym e) k)
      keep t (inr (s', q, (j, m, e))) = (
        ap (λ (x : StagingRow). x.id) e ∙ sealed-id s'.payload r ∙ i,
        subst IsHeld (sym e) (sealed-IsHeld s'.payload r m),
      )

  seal_rows-IsStamped :
      (ss : List SealRow) (rows rows' : List StagingRow)
      → seal_rows req d ss rows ≡ ok rows'
      → All (IsStamped rows') ss
  unfolding seal_rows
  seal_rows-IsStamped [] rows rows' h = tt
  seal_rows-IsStamped (s ∷ ss) rows rows' h =
      let (mid, first, rest) = >>=-eq-ok (need (seal_row req d s rows) (staging_error state)) _ h in
      (
        SealedBy-IsStamped ss s mid rows' (seal_rows-Pointwise ss mid rows' rest) (
            seal_row-IsStamped s rows mid
              (need-eq-ok (seal_row req d s rows) (staging_error state) first)),
        seal_rows-IsStamped ss mid rows' rest,
      )

guarded-ok :
    (req : SealRequest) {d : Descriptor}
    → guarded req ≡ ok d
    → (req.descriptor ≡ some d) × (is_empty req.batch_key ≡ false) × (has_no_rows req.rows ≡ false)
unfolding guarded
guarded-ok req h =
    let (u, table, h1) =
      >>=-eq-ok (refuse_if (is_empty req.namespace || is_empty req.table) _) _ h in
    let (v, key, h2) = >>=-eq-ok (refuse_if (is_empty req.batch_key) _) _ h1 in
    let (d', found, h3) = >>=-eq-ok (need req.descriptor _) _ h2 in
    let (w, some_rows, h4) = >>=-eq-ok (refuse_if (has_no_rows req.rows) _) _ h3 in
    (
      need-eq-ok req.descriptor _ found ∙ ap some (ok-injective h4),
      refuse_if-eq-ok (is_empty req.batch_key) _ key,
      refuse_if-eq-ok (has_no_rows req.rows) _ some_rows,
    )

-- What a seal that succeeds leaves.
pub record IsSealed (req : SealRequest) (d : Descriptor) (st st' : StagingStore) : Type 0 where
  pub named : req.descriptor ≡ some d
  pub keyed : is_empty req.batch_key ≡ false
  pub listed : has_no_rows req.rows ≡ false
  pub moved : Pointwise (SealedBy req d req.rows) st.staging st'.staging
  pub stamped : All (IsStamped req d st'.staging) req.rows
  pub recorded : st'.staging_schemas ≡ upsert_schema d.fp d.encoded st.staging_schemas
  pub last : st'.last_id ≡ st.last_id

-- A seal either refuses and leaves the store as it was, or it succeeds: then every row that it names is
-- live, of the request's table, and has the batch key, and a row is as it was unless the request names
-- it and it was unsealed, not quarantined and of the request's table; of such a row only the key moves,
-- and with a new payload the shape, the payload and the size.
pub seal_cases :
    (fails : Bool) (req : SealRequest) (st : StagingStore)
    → ((e : Error) × (seal fails req st ≡ (err e, st)))
      ⊎ ((d : Descriptor) × ((seal fails req st).0 ≡ ok tt)
          × IsSealed req d st (seal fails req st).1)
unfolding seal seal_all
seal_cases fails req st = go (guarded req) refl
  where
    Outcome : Result (Unit {0}) × StagingStore → Type 0
    Outcome out =
        ((e : Error) × (out ≡ (err e, st)))
        ⊎ ((d : Descriptor) × (out.0 ≡ ok tt) × IsSealed req d st out.1)

    run :
        (b : Bool) (d : Descriptor) (m : Result (List StagingRow))
        → guarded req ≡ ok d
        → seal_rows req d req.rows st.staging ≡ m
        → Outcome (tx b st (seal_all req d st))
    run true d m g h = inl (_, refl)
    run false d (err e) g h = inl (e, rw h refl)
    run false d (ok rows) g h = rw h (
        inr (
          d,
          refl,
          record {
            named = (guarded-ok req g).0;
            keyed = (guarded-ok req g).1;
            listed = (guarded-ok req g).2;
            moved = seal_rows-Pointwise req d req.rows st.staging rows h;
            stamped = seal_rows-IsStamped req d req.rows st.staging rows h;
            recorded = refl;
            last = refl;
          },
        ))

    go :
        (m : Result Descriptor)
        → guarded req ≡ m
        → Outcome (elim m as (λ _. Result (Unit {0}) × StagingStore) [
          | err e ↦ (err e, st)
          | ok d ↦ tx fails st (seal_all req d st)
        ])
    go (err e) g = inl (e, refl)
    go (ok d) g = run fails d (seal_rows req d req.rows st.staging) g refl
