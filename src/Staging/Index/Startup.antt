-- ===== src/Staging/Index/Startup.antt =====
-- internal/staging/index.go: the pass over the states that internal/staging/store.go reaches.
use icelake.Prelude.{
  ◌≡◌, ap, ◌∙◌, true, false, not, inl, inr, Option, none, some, [], ◌∷◌, In, List, All, arith,
}
use mathlib.Core.Path.{ap₂}
use icelake.Errdef.{Bytes, ok, err, staging_error, state}
use icelake.Canon.Shape.{Descriptor}
use icelake.Canon.Columns.{is_empty}
use icelake.Staging.Store.{StagingRow, StagingStore, TableId, BatchId, batch_of, is_quarantined}
use icelake.Staging.Store.Sealing.{SealRow, SealRequest, has_no_rows, seal}
use icelake.Staging.Store.Leaving.{in_batch}
use icelake.Staging.Store.Related.{Pointwise_forward}
use icelake.Staging.Store.Sealed.{SealedBy, IsHeld, IsStamped, IsSealed, seal_cases}
use icelake.Staging.Store.Gathered.{batch_of-in_batch}
use icelake.Staging.Store.Whole.{request_batch}
use icelake.Staging.Store.Sound.{Reached, Reached-IsSound}
use icelake.Staging.Index.{Index, scan, claim, add_rows, empty_index}
use icelake.Staging.Index.Claimed.{pending, claim-scan}
use icelake.Staging.Index.Whole.{Tallied, scan-IsWhole, scan_split}

-- In every state that the store's operations reach from the empty store, where what is appended and
-- sealed has canonical descriptors and no seal gives the key of a quarantined batch of its table, a
-- scan that the database answers succeeds, and a claim of any table hands out the table's live rows.
pub scan-Reached :
    (sha256_hex : Bytes → Bytes) {st : StagingStore} (t : TableId)
    → Reached sha256_hex st
    → (ix : Index) × (scan false st ≡ ok ix) × ((claim t ix).0 ≡ pending t st.staging)
scan-Reached sha256_hex {st} t r =
    let ix = add_rows st.staging empty_index in
    let scanned = scan-IsWhole st (Reached-IsSound sha256_hex r).whole in
    (ix, scanned, (claim-scan t st ix scanned).0)

-- The rows that a seal stamps are live rows of its batch.
batch_of-IsHeld :
    (req : SealRequest) (d : Descriptor) (r : StagingRow)
    → IsHeld req d r
    → batch_of r ≡ request_batch req
batch_of-IsHeld req d r (key, namespace, table, live) =
    let at : Bytes → Bytes → Option Bytes → BatchId = λ n t k. record {
      table = record { namespace = n; table = t };
      key = elim k [ none ↦ [] | some k' ↦ k' ];
    } in
    ap₂ (λ n t. at n t r.batch_key) namespace table ∙ ap (at req.namespace req.table) key

IsStamped-Tallied :
    (req : SealRequest) (d : Descriptor) (rows : List StagingRow) (ss : List SealRow)
    → is_empty req.batch_key ≡ false
    → has_no_rows ss ≡ false
    → All (IsStamped req d rows) ss
    → Tallied false (request_batch req) rows
IsStamped-Tallied req d rows [] key h a = absurd (cc h)
IsStamped-Tallied req d rows (s ∷ ss) key h ((r, there, i, held), a) =
    let same = batch_of-IsHeld req d r held in
    (r, there, held.3, ap (λ (b : BatchId). not (is_empty b.key)) same ∙ ap not key, same)

IsSealed-Tallied :
    (req : SealRequest) (d : Descriptor) (st st' : StagingStore) (r : StagingRow)
    → IsSealed req d st st'
    → In r st.staging
    → in_batch (request_batch req) r ≡ true
    → is_quarantined r ≡ true
    → Tallied true (request_batch req) st'.staging
IsSealed-Tallied req d st st' r s there batch marked =
    let (t, there', h) =
      Pointwise_forward (SealedBy req d req.rows) st.staging st'.staging r s.moved there in
    elim h [
      | inl e ↦
          let same = ap batch_of e ∙ batch_of-in_batch (request_batch req) r batch in
          (
            t,
            there',
            ap is_quarantined e ∙ marked,
            ap (λ (b : BatchId). not (is_empty b.key)) same ∙ ap not s.keyed,
            same,
          )
      | inr (q, named, (i, m, e)) ↦ absurd (ground (arith, m, marked))
    ]

-- Where a seal succeeds under the key of a quarantined row of its table, the next scan refuses.
pub scan-seal :
    (req : SealRequest) (st : StagingStore) (r : StagingRow)
    → (seal false req st).0 ≡ ok tt
    → In r st.staging
    → in_batch (request_batch req) r ≡ true
    → is_quarantined r ≡ true
    → scan false (seal false req st).1 ≡ err (staging_error state)
scan-seal req st r done there batch marked = elim (seal_cases false req st) [
  | inl (e, refused) ↦ absurd (cc (ap (λ out. out.0) refused, done))
  | inr (d, sealed, s) ↦ split d s
]
  where
    split :
        (d : Descriptor)
        → IsSealed req d st (seal false req st).1
        → scan false (seal false req st).1 ≡ err (staging_error state)
    split d s =
        scan_split (request_batch req) (seal false req st).1
          (IsSealed-Tallied req d st _ r s there batch marked)
          (IsStamped-Tallied req d _ req.rows s.keyed s.listed s.stamped)
