-- ===== src/Staging/Store/Counted.antt =====
-- internal/staging/store.go: the counts that checkWholeBatches compares.
use icelake.Prelude.{
  ℕ, suc, ◌≤◌, ◌≡◌, sym, ap, ◌∙◌, Bool-cases, true, false, ◌&&◌, inl, inr, List, [], ◌∷◌, In, All,
  length, if◌then◌else◌, arith,
}
use icelake.Staging.Store.{StagingRow, BatchId}
use icelake.Staging.Store.Leaving.{has_id, in_batch, count_batch}

-- The rows of a batch that are among the members.
both : BatchId → List ℕ → List StagingRow → ℕ
both b ms [] = 0
both b ms (r ∷ rows) =
    if in_batch b r && has_id r.id ms then suc (both b ms rows) else both b ms rows

both_le : (b : BatchId) (ms : List ℕ) (rows : List StagingRow) → both b ms rows ≤ count_batch b rows
unfolding both count_batch
both_le b ms [] = omega arith
both_le b ms (r ∷ rows) = ground (arith, both_le b ms rows)

both_grows :
    (b : BatchId) (m : ℕ) (ms : List ℕ) (rows : List StagingRow)
    → both b ms rows ≤ both b (m ∷ ms) rows
unfolding both has_id
both_grows b m ms [] = omega arith
both_grows b m ms (r ∷ rows) = ground (arith, both_grows b m ms rows)

both_new :
    (b : BatchId) (m : ℕ) (ms : List ℕ) (rows : List StagingRow) (r : StagingRow)
    → has_id m ms ≡ false
    → In r rows
    → r.id ≡ m
    → in_batch b r ≡ true
    → suc (both b ms rows) ≤ both b (m ∷ ms) rows
unfolding both has_id
both_new b m ms [] r new there e h = absurd there
both_new b m ms (x ∷ rows) r new (inl same) e h =
    let xm : x.id ≡ m = ap (λ (y : StagingRow). y.id) (sym same) ∙ e in
    let xh : in_batch b x ≡ true = ap (in_batch b) (sym same) ∙ h in
    let xnew : has_id x.id ms ≡ false = ap (λ i. has_id i ms) xm ∙ new in
    rw (xh, xnew) (ground (arith, xm, both_grows b m ms rows))
both_new b m ms (x ∷ rows) r new (inr later) e h =
    ground (arith, both_new b m ms rows r new later e h)

-- Members are distinct.
abbrev pub DistinctIds : List ℕ → Type 0
DistinctIds [] = Unit
DistinctIds (m ∷ ms) = (has_id m ms ≡ false) × DistinctIds ms

-- The member is the id of a row of the batch.
abbrev pub IsMember : BatchId → List StagingRow → ℕ → Type 0
IsMember b rows m = (r : StagingRow) × In r rows × (r.id ≡ m) × (in_batch b r ≡ true)

length_le :
    (b : BatchId) (ms : List ℕ) (rows : List StagingRow)
    → DistinctIds ms
    → All (IsMember b rows) ms
    → length ms ≤ both b ms rows
length_le b [] rows d a = omega arith
length_le b (m ∷ ms) rows d ((r, there, e, h), a) =
    omega (arith, length_le b ms rows d.1 a, both_new b m ms rows r d.0 there e h)

both_full :
    (b : BatchId) (ms : List ℕ) (rows : List StagingRow) (r : StagingRow)
    → count_batch b rows ≤ both b ms rows
    → In r rows
    → in_batch b r ≡ true
    → has_id r.id ms ≡ true
unfolding both count_batch
both_full b ms [] r full there h = absurd there
both_full b ms (x ∷ rows) r full (inl same) h = elim (Bool-cases (has_id x.id ms)) [
  | inl member ↦ ap (λ (y : StagingRow). has_id y.id ms) same ∙ member
  | inr other ↦
      let xh : in_batch b x ≡ true = ap (in_batch b) (sym same) ∙ h in
      let over : suc (count_batch b rows) ≤ both b ms rows = rw (xh, other) at full in
      absurd (omega (arith, over, both_le b ms rows))
]
both_full b ms (x ∷ rows) r full (inr later) h =
    both_full b ms rows r (ground (arith, full, both_le b ms rows)) later h

-- Distinct members that are as many as the rows of the batch are all of them.
pub count_batch-members :
    (b : BatchId) (ms : List ℕ) (rows : List StagingRow) (r : StagingRow)
    → DistinctIds ms
    → All (IsMember b rows) ms
    → count_batch b rows ≡ length ms
    → In r rows
    → in_batch b r ≡ true
    → has_id r.id ms ≡ true
count_batch-members b ms rows r d a e there h =
    both_full b ms rows r (omega (arith, length_le b ms rows d a, e)) there h
