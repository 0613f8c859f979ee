-- ===== src/Staging/Store/Gathered.antt =====
-- internal/staging/store.go: the map that checkWholeBatches builds, and what its counts say.
use icelake.Prelude.{
  ℕ, ◌<◌, ◌≡◌, refl, sym, ap, ◌∙◌, subst, Bool, Bool-cases, true, false, not, ◌==◌, Option-cases,
  some, inl, inr, List, [], ◌∷◌, In, All, length, bytes_eq_refl, bytes_eq→eq, if◌then◌else◌, arith,
}
use mathlib.Core.Path.{ap₂}
use mathlib.Core.Option.{some-injective}
use icelake.Errdef.{
  Bytes, ok, need, refuse_if, >>=-eq-ok, need-eq-ok, refuse_if-eq-ok, ok-injective, staging_error,
  state,
}
use icelake.Canon.Columns.{is_empty}
use icelake.Staging.Store.{
  StagingRow, TableId, BatchId, same_table, same_batch, table_of, batch_of, key_of, is_sealed,
  get_row,
}
use icelake.Staging.Store.Leaving.{
  has_id, add_member, gather, has_key, in_batch, count_batch, check_counts, check_whole_batches,
}
use icelake.Staging.Store.Related.{Ascends}
use icelake.Staging.Store.Counted.{DistinctIds, IsMember, count_batch-members}

pub same_table→eq : (t u : TableId) → same_table t u ≡ true → t ≡ u
same_table→eq t u h =
    let at : Bytes → Bytes → TableId = λ n m. record { namespace = n; table = m } in
    ap₂ at (bytes_eq→eq t.namespace u.namespace (ground arith))
      (bytes_eq→eq t.table u.table (ground arith))

pub same_batch→eq : (b c : BatchId) → same_batch b c ≡ true → b ≡ c
same_batch→eq b c h =
    let at : TableId → Bytes → BatchId = λ t k. record { table = t; key = k } in
    ap₂ at (same_table→eq b.table c.table (ground arith)) (bytes_eq→eq b.key c.key (ground arith))

pub same_batch_refl : (b : BatchId) → same_batch b b ≡ true
same_batch_refl b =
    rw (bytes_eq_refl b.table.namespace, bytes_eq_refl b.table.table, bytes_eq_refl b.key) refl

-- A sealed row is in its batch, and a row of a batch has that batch.
pub in_batch-batch_of : (r : StagingRow) → is_sealed r ≡ true → in_batch (batch_of r) r ≡ true
unfolding is_empty
in_batch-batch_of r h =
    rw (bytes_eq_refl r.namespace, bytes_eq_refl r.table_name)
      (elim (Option-cases r.batch_key) [
        | inl e ↦ absurd (cc (rw e at h))
        | inr (k, e) ↦ rw e (bytes_eq_refl k)
      ])

has_key→eq : (key : Bytes) (r : StagingRow) → has_key key r ≡ true → key_of r ≡ key
has_key→eq key r h = elim (Option-cases r.batch_key) [
  | inl e ↦ absurd (cc (rw e at h))
  | inr (k, e) ↦ rw e (bytes_eq→eq k key (rw e at h))
]

pub batch_of-in_batch : (b : BatchId) (r : StagingRow) → in_batch b r ≡ true → batch_of r ≡ b
batch_of-in_batch b r h =
    let at : TableId → Bytes → BatchId = λ t k. record { table = t; key = k } in
    ap₂ at (same_table→eq (table_of r) b.table (ground arith)) (has_key→eq b.key r (ground arith))

get_row-In :
    (id : ℕ) (rows : List StagingRow) {r : StagingRow}
    → get_row id rows ≡ some r
    → In r rows × (r.id ≡ id)
unfolding get_row
get_row-In id [] h = absurd (ground arith)
get_row-In id (x ∷ rows) {r} h = elim (Bool-cases (x.id == id)) [
  | inl e ↦
      let same = some-injective _ _ (rw e at h) in
      (inl (sym same), ap (λ (y : StagingRow). y.id) (sym same) ∙ ground (arith, e))
  | inr e ↦ let (there, i) = get_row-In id rows (rw e at h) in (inr there, i)
]

In-above :
    (n : ℕ) (rows : List StagingRow) (r : StagingRow)
    → All (λ (s : StagingRow). n < s.id) rows
    → In r rows
    → n < r.id
In-above n [] r a there = absurd there
In-above n (x ∷ rows) r a (inl same) = subst (λ (y : StagingRow). n < y.id) (sym same) a.0
In-above n (x ∷ rows) r a (inr later) = In-above n rows r a.1 later

-- Distinct ids: a row is the one that its id finds.
get_row-Ascends :
    (last : ℕ) (rows : List StagingRow) (r : StagingRow)
    → Ascends last rows
    → In r rows
    → get_row r.id rows ≡ some r
unfolding get_row
get_row-Ascends last [] r a there = absurd there
get_row-Ascends last (x ∷ rows) r a (inl same) =
    subst (λ (y : StagingRow). (if x.id == y.id then some x else get_row y.id rows) ≡ some y)
      (sym same) (ground arith)
get_row-Ascends last (x ∷ rows) r a (inr later) =
    let above = In-above x.id rows r a.1 later in
    rw (get_row-Ascends last rows r a.2 later) (ground (arith, above))

-- An entry of the map: distinct ids of the call, each of a row of the entry's batch.
abbrev IsEntry : List StagingRow → List ℕ → BatchId × List ℕ → Type 0
IsEntry rows ids e =
    DistinctIds e.1 × All (IsMember e.0 rows) e.1 × All (λ m. has_id m ids ≡ true) e.1

has_batch : BatchId → List (BatchId × List ℕ) → Bool
has_batch b [] = false
has_batch b ((c, ms) ∷ named) = if same_batch c b then true else has_batch b named

add_member-IsEntry :
    (rows : List StagingRow) (ids : List ℕ) (b : BatchId) (id : ℕ) (named : List (BatchId × List ℕ))
    → IsMember b rows id
    → has_id id ids ≡ true
    → All (IsEntry rows ids) named
    → All (IsEntry rows ids) (add_member b id named)
unfolding add_member has_id
add_member-IsEntry rows ids b id [] m i a = (((refl, tt), (m, tt), (i, tt)), tt)
add_member-IsEntry rows ids b id ((c, ms) ∷ named) m i a = elim (Bool-cases (same_batch c b)) [
  | inl e ↦ elim (Bool-cases (has_id id ms)) [
    | inl old ↦ rw (e, old) a
    | inr new ↦
        rw (e, new)
          (
            (
              (new, a.0.0),
              (subst (λ x. IsMember x rows id) (sym (same_batch→eq c b e)) m, a.0.1),
              (i, a.0.2),
            ),
            a.1,
          )
  ]
  | inr e ↦ rw e (a.0, add_member-IsEntry rows ids b id named m i a.1)
]

add_member_has :
    (b : BatchId) (id : ℕ) (named : List (BatchId × List ℕ))
    → has_batch b (add_member b id named) ≡ true
unfolding add_member has_batch
add_member_has b id [] = rw (same_batch_refl b) refl
add_member_has b id ((c, ms) ∷ named) = elim (Bool-cases (same_batch c b)) [
  | inl e ↦ rw (e, e) refl
  | inr e ↦ rw (e, e) (add_member_has b id named)
]

add_member_keeps :
    (b c : BatchId) (id : ℕ) (named : List (BatchId × List ℕ))
    → has_batch c named ≡ true
    → has_batch c (add_member b id named) ≡ true
unfolding add_member has_batch
add_member_keeps b c id [] h = absurd (ground arith)
add_member_keeps b c id ((d, ms) ∷ named) h = elim (Bool-cases (same_batch d b)) [
  | inl e ↦ rw e (ground (arith, h))
  | inr e ↦ rw e (ground (arith, h, add_member_keeps b c id named))
]

-- What `gather` adds to the map for one row.
abbrev gathered : StagingRow → ℕ → List (BatchId × List ℕ) → List (BatchId × List ℕ)
gathered r id named = if is_sealed r then add_member (batch_of r) id named else named

gathered-IsEntry :
    (rows : List StagingRow) (ids : List ℕ) (r : StagingRow) (id : ℕ)
    (named : List (BatchId × List ℕ))
    → In r rows × (r.id ≡ id)
    → has_id id ids ≡ true
    → All (IsEntry rows ids) named
    → All (IsEntry rows ids) (gathered r id named)
gathered-IsEntry rows ids r id named (there, e) i a = elim (Bool-cases (is_sealed r)) [
  | inl s ↦
      rw s
        (add_member-IsEntry rows ids (batch_of r) id named (r, there, e, in_batch-batch_of r s) i a)
  | inr s ↦ rw s a
]

gathered_keeps :
    (r : StagingRow) (id : ℕ) (c : BatchId) (named : List (BatchId × List ℕ))
    → has_batch c named ≡ true
    → has_batch c (gathered r id named) ≡ true
gathered_keeps r id c named h = elim (Bool-cases (is_sealed r)) [
  | inl s ↦ rw s (add_member_keeps (batch_of r) c id named h)
  | inr s ↦ rw s h
]

gather_keeps :
    (rows : List StagingRow) (c : BatchId) (todo : List ℕ) (named out : List (BatchId × List ℕ))
    → gather rows todo named ≡ ok out
    → has_batch c named ≡ true
    → has_batch c out ≡ true
unfolding gather
gather_keeps rows c [] named out g h = ap (has_batch c) (sym (ok-injective g)) ∙ h
gather_keeps rows c (id ∷ todo) named out g h =
    let (r, found, rest) = >>=-eq-ok (need (get_row id rows) (staging_error state)) _ g in
    gather_keeps rows c todo (gathered r id named) out rest (gathered_keeps r id c named h)

gather-IsEntry :
    (rows : List StagingRow) (ids todo : List ℕ) (named out : List (BatchId × List ℕ))
    → gather rows todo named ≡ ok out
    → All (λ m. has_id m ids ≡ true) todo
    → All (IsEntry rows ids) named
    → All (IsEntry rows ids) out
unfolding gather
gather-IsEntry rows ids [] named out g i a = subst (All (IsEntry rows ids)) (ok-injective g) a
gather-IsEntry rows ids (id ∷ todo) named out g i a =
    let (r, found, rest) = >>=-eq-ok (need (get_row id rows) (staging_error state)) _ g in
    gather-IsEntry rows ids todo (gathered r id named) out rest i.1 (
      gathered-IsEntry rows ids r id named
        (get_row-In id rows (need-eq-ok (get_row id rows) (staging_error state) found)) i.0 a)

-- The batch of every sealed row that is named has an entry.
gather_has :
    (rows : List StagingRow) (r : StagingRow) (todo : List ℕ) (named out : List (BatchId × List ℕ))
    → gather rows todo named ≡ ok out
    → has_id r.id todo ≡ true
    → get_row r.id rows ≡ some r
    → is_sealed r ≡ true
    → has_batch (batch_of r) out ≡ true
unfolding gather has_id
gather_has rows r [] named out g i found s = absurd (ground arith)
gather_has rows r (id ∷ todo) named out g i found s =
    let (q, here, rest) = >>=-eq-ok (need (get_row id rows) (staging_error state)) _ g in
    elim (Bool-cases (id == r.id)) [
      | inl e ↦
          let same : q ≡ r = some-injective _ _ (
            sym (need-eq-ok (get_row id rows) (staging_error state) here)
            ∙ ap (λ j. get_row j rows) (ground (arith, e))
            ∙ found) in
          gather_keeps rows (batch_of r) todo (gathered q id named) out rest (
            subst (λ x. has_batch (batch_of r) (gathered x id named) ≡ true) (sym same)
              (rw s (add_member_has (batch_of r) id named)))
      | inr e ↦ gather_has rows r todo (gathered q id named) out rest (rw e at i) found s
    ]

-- The counts of the entry of a batch agree.
check_counts-IsEntry :
    (rows : List StagingRow) (ids : List ℕ) (b : BatchId) (named : List (BatchId × List ℕ))
    {u : Unit {0}}
    → check_counts rows named ≡ ok u
    → All (IsEntry rows ids) named
    → has_batch b named ≡ true
    → (ms : List ℕ) × IsEntry rows ids (b, ms) × (count_batch b rows ≡ length ms)
unfolding check_counts has_batch
check_counts-IsEntry rows ids b [] h a i = absurd (ground arith)
check_counts-IsEntry rows ids b ((c, ms) ∷ named) h a i =
    let (v, count, rest) =
      >>=-eq-ok (refuse_if (not (count_batch c rows == length ms)) (staging_error state)) _ h in
    elim (Bool-cases (same_batch c b)) [
      | inl e ↦
          let agree = refuse_if-eq-ok (not (count_batch c rows == length ms)) _ count in
          subst
            (λ x. (ms' : List ℕ) × IsEntry rows ids (x, ms') × (count_batch x rows ≡ length ms'))
            (same_batch→eq c b e) (ms, a.0, ground (arith, agree))
      | inr e ↦ check_counts-IsEntry rows ids b named rest a.1 (rw e at i)
    ]

pub All-imp :
    {A : Type 0} (P Q : A → Type 0) (ms : List A) → ((m : A) → P m → Q m) → All P ms → All Q ms
All-imp P Q [] h a = tt
All-imp P Q (m ∷ ms) h a = (h m a.0, All-imp P Q ms h a.1)

pub All-zip :
    {A : Type 0} (P Q R : A → Type 0) (ms : List A)
    → ((m : A) → P m → Q m → R m)
    → All P ms
    → All Q ms
    → All R ms
All-zip P Q R [] h a b = tt
All-zip P Q R (m ∷ ms) h a b = (h m a.0 b.0, All-zip P Q R ms h a.1 b.1)

All-has_id : (ids : List ℕ) → All (λ m. has_id m ids ≡ true) ids
unfolding has_id
All-has_id [] = tt
All-has_id (id ∷ ids) = (
  ground arith,
  All-imp (λ m. has_id m ids ≡ true) (λ m. has_id m (id ∷ ids) ≡ true) ids
      (λ m h. ground (arith, h)) (All-has_id ids),
)

has_id-All : (P : ℕ → Type 0) (m : ℕ) (ms : List ℕ) → has_id m ms ≡ true → All P ms → P m
unfolding has_id
has_id-All P m [] h a = absurd (ground arith)
has_id-All P m (i ∷ ms) h a = elim (Bool-cases (i == m)) [
  | inl e ↦ subst P (ground (arith, e)) a.0
  | inr e ↦ has_id-All P m ms (rw e at h) a.1
]

-- A check that passes names all rows of a sealed batch or none.
pub check_whole_batches-all :
    (last : ℕ) (ids : List ℕ) (rows : List StagingRow) (b : BatchId) (r s : StagingRow)
    {u : Unit {0}}
    → check_whole_batches ids rows ≡ ok u
    → Ascends last rows
    → is_empty b.key ≡ false
    → In r rows
    → In s rows
    → in_batch b r ≡ true
    → in_batch b s ≡ true
    → has_id r.id ids ≡ true
    → has_id s.id ids ≡ true
unfolding check_whole_batches
check_whole_batches-all last ids rows b r s h a key in_r in_s br bs named =
    let (out, g, counts) = >>=-eq-ok (gather rows ids []) _ h in
    let rb = batch_of-in_batch b r br in
    let (ms, entry, count) =
      check_counts-IsEntry rows ids b out counts
        (gather-IsEntry rows ids ids [] out g (All-has_id ids) tt)
        (subst (λ x. has_batch x out ≡ true) rb
          (gather_has rows r ids [] out g named (get_row-Ascends last rows r a in_r)
            (ap not (ap (λ (x : BatchId). is_empty x.key) rb ∙ key)))) in
    has_id-All (λ m. has_id m ids ≡ true) s.id ms
      (count_batch-members b ms rows s entry.0 entry.1 count in_s bs) entry.2
