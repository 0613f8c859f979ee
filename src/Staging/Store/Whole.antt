-- ===== src/Staging/Store/Whole.antt =====
-- internal/staging/store.go: why no batch comes to be quarantined in part.
use icelake.Prelude.{
  ℕ, ◌≡◌, refl, sym, ap, ◌∙◌, ℤ, Bool, true, false, ◌&&◌, ◌||◌, Option, none, some, inl, inr, ◌⊎◌,
  List, [], ◌∷◌, ◌++◌, In, bytes_eq, bytes_eq→eq, arith,
}
use mathlib.Core.Path.{ap₂}
use icelake.Errdef.{Bytes, ok}
use icelake.Canon.Shape.{Descriptor}
use icelake.Canon.Columns.{is_empty}
use icelake.Staging.Store.{
  StagingRow, TableId, BatchId, table_of, batch_of, same_table, is_quarantined,
}
use icelake.Staging.Store.Sealing.{SealRequest, may_seal, sealed}
use icelake.Staging.Store.Leaving.{has_id, in_batch, mark_rows, check_whole_batches}
use icelake.Staging.Store.Related.{Pointwise, Pointwise-In, Ascends}
use icelake.Staging.Store.Sealed.{SealedBy}
use icelake.Staging.Store.Quarantined.{MarkedBy, mark_rows-Pointwise}
use icelake.Staging.Store.Gathered.{batch_of-in_batch, check_whole_batches-all}

-- Two rows of one sealed batch are both quarantined or both live.
abbrev pub IsWhole : List StagingRow → Type 0
IsWhole rows =
    (b : BatchId) (r s : StagingRow)
    → is_empty b.key ≡ false
    → In r rows
    → In s rows
    → in_batch b r ≡ true
    → in_batch b s ≡ true
    → is_quarantined r ≡ is_quarantined s

abbrev pub request_batch : SealRequest → BatchId
request_batch req = record {
  table = record { namespace = req.namespace; table = req.table };
  key = req.batch_key;
}

-- No quarantined row of the request's table has the key that it seals under.
abbrev pub IsFresh : SealRequest → List StagingRow → Type 0
IsFresh req rows =
    (r : StagingRow) → In r rows → in_batch (request_batch req) r ≡ true → is_quarantined r ≡ false

In-append :
    (r : StagingRow) (xs : List StagingRow) (y : StagingRow)
    → In r (xs ++ y ∷ [])
    → In r xs ⊎ (r ≡ y)
In-append r [] y (inl same) = inr same
In-append r [] y (inr later) = absurd later
In-append r (x ∷ xs) y (inl same) = inl (inl same)
In-append r (x ∷ xs) y (inr later) = elim (In-append r xs y later) [
  | inl old ↦ inl (inr old)
  | inr new ↦ inr new
]

-- A row without a key is in no batch.
keyless :
    (b : BatchId) (r : StagingRow) → r.batch_key ≡ none → in_batch b r ≡ true → (X : Type 0) → X
keyless b r e h X = absurd (ground (arith, rw e at h))

pub append-IsWhole :
    (rows : List StagingRow) (new : StagingRow)
    → new.batch_key ≡ none
    → IsWhole rows
    → IsWhole (rows ++ new ∷ [])
append-IsWhole rows new e w b r s key in_r in_s br bs = elim (In-append r rows new in_r) [
  | inl old_r ↦ elim (In-append s rows new in_s) [
    | inl old_s ↦ w b r s key old_r old_s br bs
    | inr new_s ↦ keyless b s (ap (λ (x : StagingRow). x.batch_key) new_s ∙ e) bs _
  ]
  | inr new_r ↦ keyless b r (ap (λ (x : StagingRow). x.batch_key) new_r ∙ e) br _
]

in_batch-MarkedBy :
    (ids : List ℕ) (b : BatchId) (r t : StagingRow)
    → MarkedBy ids r t
    → in_batch b t ≡ true
    → in_batch b r ≡ true
in_batch-MarkedBy ids b r t m h =
    let test : TableId → Option Bytes → Bool =
      λ u k. same_table u b.table && elim k [ none ↦ false | some k' ↦ bytes_eq k' b.key ] in
    sym (ap₂ test m.table m.key) ∙ h

bool_iff : (x y : Bool) → (x ≡ true → y ≡ true) → (y ≡ true → x ≡ true) → x ≡ y
bool_iff true y h k = sym (h refl)
bool_iff false true h k = k refl
bool_iff false false h k = refl

pub mark_rows-IsWhole :
    (last : ℕ) (at : ℤ) (cause : Bytes) (ids : List ℕ) (rows : List StagingRow) {u : Unit {0}}
    → check_whole_batches ids rows ≡ ok u
    → Ascends last rows
    → IsWhole rows
    → IsWhole (mark_rows at cause ids rows)
mark_rows-IsWhole last at cause ids rows h a w b r' s' key in_r in_s br bs =
    let p = mark_rows-Pointwise at cause ids rows in
    let (r, old_r, rm) = Pointwise-In (MarkedBy ids) rows _ r' p in_r in
    let (s, old_s, sm) = Pointwise-In (MarkedBy ids) rows _ s' p in_s in
    let br_old = in_batch-MarkedBy ids b r r' rm br in
    let bs_old = in_batch-MarkedBy ids b s s' sm bs in
    let same = w b r s key old_r old_s br_old bs_old in
    let named =
      bool_iff (has_id r.id ids) (has_id s.id ids)
        (check_whole_batches-all last ids rows b r s h a key old_r old_s br_old bs_old)
        (check_whole_batches-all last ids rows b s r h a key old_s old_r bs_old br_old) in
    rm.mark ∙ ap₂ (λ x y. x || y) same named ∙ sym sm.mark

sealed-live :
    (req : SealRequest) (d : Descriptor) (p : Option Bytes) (r : StagingRow)
    → may_seal req r ≡ true
    → is_quarantined (sealed req d p r) ≡ false
sealed-live req d none r m = ground arith
sealed-live req d (some p) r m = ground arith

batch_of-sealed :
    (req : SealRequest) (d : Descriptor) (p : Option Bytes) (r : StagingRow)
    → may_seal req r ≡ true
    → batch_of (sealed req d p r) ≡ request_batch req
batch_of-sealed req d p r m =
    let at : Bytes → Bytes → BatchId =
      λ n t. record { table = record { namespace = n; table = t }; key = req.batch_key } in
    same p
    ∙ ap₂ at (bytes_eq→eq r.namespace req.namespace (ground arith))
        (bytes_eq→eq r.table_name req.table (ground arith))
  where
    same :
        (o : Option Bytes)
        → batch_of (sealed req d o r) ≡ record { table = table_of r; key = req.batch_key }
    same none = refl
    same (some q) = refl

pub seal-IsWhole :
    (req : SealRequest) (d : Descriptor) (rows rows' : List StagingRow)
    → Pointwise (SealedBy req d req.rows) rows rows'
    → IsFresh req rows
    → IsWhole rows
    → IsWhole rows'
seal-IsWhole req d rows rows' p fresh w b r' s' key in_r in_s br bs =
    let (r, old_r, rm) = Pointwise-In (SealedBy req d req.rows) rows rows' r' p in_r in
    let (s, old_s, sm) = Pointwise-In (SealedBy req d req.rows) rows rows' s' p in_s in
    go r s old_r old_s rm sm
  where
    -- A row of the batch of a sealed one is live where it is as it was.
    beside :
        (x x' y y' : StagingRow) (o : Option Bytes)
        → In x rows
        → x' ≡ x
        → may_seal req y ≡ true
        → y' ≡ sealed req d o y
        → in_batch b x' ≡ true
        → in_batch b y' ≡ true
        → is_quarantined x' ≡ is_quarantined y'
    beside x x' y y' o old e m f bx by =
        let batch = sym (batch_of-in_batch b y' by) ∙ ap batch_of f ∙ batch_of-sealed req d o y m in
        ap is_quarantined e
        ∙ fresh x old (sym (ap₂ in_batch batch e) ∙ bx)
        ∙ sym (ap is_quarantined f ∙ sealed-live req d o y m)

    go :
        (r s : StagingRow)
        → In r rows
        → In s rows
        → SealedBy req d req.rows r r'
        → SealedBy req d req.rows s s'
        → is_quarantined r' ≡ is_quarantined s'
    go r s old_r old_s (inl e) (inl f) =
        ap is_quarantined e
        ∙ w b r s key old_r old_s (sym (ap (in_batch b) e) ∙ br) (sym (ap (in_batch b) f) ∙ bs)
        ∙ sym (ap is_quarantined f)
    go r s old_r old_s (inl e) (inr (x, q, (i, m, f))) =
        beside r r' s s' x.payload old_r e m f br bs
    go r s old_r old_s (inr (x, q, (i, m, f))) (inl e) =
        sym (beside s s' r r' x.payload old_s e m f bs br)
    go r s old_r old_s (inr (x, q, (i, m, e))) (inr (y, q', (j, n, f))) =
        ap is_quarantined e
        ∙ sealed-live req d x.payload r m
        ∙ sym (ap is_quarantined f ∙ sealed-live req d y.payload s n)
