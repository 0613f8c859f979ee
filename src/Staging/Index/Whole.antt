-- ===== src/Staging/Index/Whole.antt =====
-- internal/staging/index.go: when a scan refuses.
use icelake.Prelude.{
  ℕ, ◌<◌, ◌≤◌, ◌≡◌, refl, sym, ap, ◌∙◌, subst, Bool, Bool-cases, true, false, ltb, inl, inr, ◌⊎◌,
  List, [], ◌∷◌, In, All, if◌then◌else◌, arith,
}
use icelake.Errdef.{ok, err, staging_error, state}
use icelake.Canon.Columns.{is_empty}
use icelake.Staging.Store.{
  StagingRow, StagingStore, BatchId, same_batch, batch_of, is_sealed, is_quarantined,
}
use icelake.Staging.Store.Gathered.{All-imp, in_batch-batch_of, same_batch→eq, same_batch_refl}
use icelake.Staging.Store.Leaving.{in_batch}
use icelake.Staging.Store.Whole.{IsWhole}
use icelake.Staging.Index.{add_rows, empty_index, scan, bump, count_of, tally, check_split}

-- A row that the count of a batch stands for.
abbrev pub Tallied : Bool → BatchId → List StagingRow → Type 0
Tallied q b rows =
    (r : StagingRow) × In r rows × (is_quarantined r ≡ q) × (is_sealed r ≡ true) × (batch_of r ≡ b)

-- The map after one row.
tallied : Bool → StagingRow → List (BatchId × ℕ) → List (BatchId × ℕ)
tallied q r m =
    if is_sealed r
    then (if is_quarantined r
        then (if q then bump (batch_of r) m else m)
        else (if q then m else bump (batch_of r) m))
    else m

-- Either the row counts, or the map is as it was.
tallied_cases :
    (q : Bool) (r : StagingRow) (m : List (BatchId × ℕ))
    → ((is_quarantined r ≡ q) × (is_sealed r ≡ true) × (tallied q r m ≡ bump (batch_of r) m))
      ⊎ (tallied q r m ≡ m)
unfolding tallied
tallied_cases true r m = elim (Bool-cases (is_sealed r)) [
  | inl s ↦ elim (Bool-cases (is_quarantined r)) [
    | inl z ↦ inl (z, s, rw (s, z) refl)
    | inr z ↦ inr (rw (s, z) refl)
  ]
  | inr s ↦ inr (rw s refl)
]
tallied_cases false r m = elim (Bool-cases (is_sealed r)) [
  | inl s ↦ elim (Bool-cases (is_quarantined r)) [
    | inl z ↦ inr (rw (s, z) refl)
    | inr z ↦ inl (z, s, rw (s, z) refl)
  ]
  | inr s ↦ inr (rw s refl)
]

count_of-bump :
    (b c : BatchId) (m : List (BatchId × ℕ))
    → 0 < count_of b (bump c m)
    → (0 < count_of b m) ⊎ (c ≡ b)
unfolding count_of bump
count_of-bump b c [] h = elim (Bool-cases (same_batch c b)) [
  | inl e ↦ inr (same_batch→eq c b e)
  | inr e ↦ absurd (omega (arith, rw e at h))
]
count_of-bump b c ((d, n) ∷ m) h = elim (Bool-cases (same_batch d c)) [
  | inl e ↦ elim (Bool-cases (same_batch d b)) [
    | inl f ↦ inr (sym (same_batch→eq d c e) ∙ same_batch→eq d b f)
    | inr f ↦ inl (rw f (rw (e, f) at h))
  ]
  | inr e ↦ elim (Bool-cases (same_batch d b)) [
    | inl f ↦ inl (rw f (rw (e, f) at h))
    | inr f ↦ rw f (count_of-bump b c m (rw (e, f) at h))
  ]
]

count_of-tally :
    (q : Bool) (b : BatchId) (rows : List StagingRow) (m : List (BatchId × ℕ))
    → 0 < count_of b (tally q rows m)
    → (0 < count_of b m) ⊎ Tallied q b rows
unfolding tally tallied
count_of-tally q b [] m h = inl h
count_of-tally q b (r ∷ rows) m h = elim (count_of-tally q b rows (tallied q r m) h) [
  | inl pos ↦ elim (tallied_cases q r m) [
    | inl (z, s, e) ↦ elim (count_of-bump b (batch_of r) m (rw e at pos)) [
      | inl old ↦ inl old
      | inr same ↦ inr (r, inl refl, z, s, same)
    ]
    | inr e ↦ inl (rw e at pos)
  ]
  | inr (s, there, z, k, e) ↦ inr (s, inr there, z, k, e)
]

bump-All :
    (P : BatchId → Type 0) (b : BatchId) (m : List (BatchId × ℕ))
    → P b
    → All (λ e. P e.0) m
    → All (λ e. P e.0) (bump b m)
unfolding bump
bump-All P b [] p a = (p, tt)
bump-All P b ((c, n) ∷ m) p a = elim (Bool-cases (same_batch c b)) [
  | inl e ↦ rw e a
  | inr e ↦ rw e (a.0, bump-All P b m p a.1)
]

tally-All :
    (q : Bool) (all rows : List StagingRow) (m : List (BatchId × ℕ))
    → ((r : StagingRow) → In r rows → In r all)
    → All (λ e. Tallied q e.0 all) m
    → All (λ e. Tallied q e.0 all) (tally q rows m)
unfolding tally tallied
tally-All q all [] m sub a = a
tally-All q all (r ∷ rows) m sub a =
    tally-All q all rows (tallied q r m) (λ s there. sub s (inr there))
      (elim (tallied_cases q r m) [
        | inl (z, s, e) ↦
            subst (All (λ x. Tallied q x.0 all)) (sym e)
              (bump-All (λ b. Tallied q b all) (batch_of r) m (r, sub r (inl refl), z, s, refl) a)
        | inr e ↦ subst (All (λ x. Tallied q x.0 all)) (sym e) a
      ])

check_split-ok :
    (m live : List (BatchId × ℕ))
    → All (λ e. ltb 0 (count_of e.0 live) ≡ false) m
    → check_split m live ≡ ok tt
unfolding check_split
check_split-ok [] live a = refl
check_split-ok ((b, n) ∷ m) live a = rw a.0 (check_split-ok m live a.1)

in_its_batch :
    (r : StagingRow) (b : BatchId) → is_sealed r ≡ true → batch_of r ≡ b → in_batch b r ≡ true
in_its_batch r b k e = subst (λ x. in_batch x r ≡ true) e (in_batch-batch_of r k)

-- The rows of a batch are quarantined together.
check_split-IsWhole :
    (rows : List StagingRow)
    → IsWhole rows
    → check_split (tally true rows []) (tally false rows []) ≡ ok tt
unfolding count_of
check_split-IsWhole rows w =
    check_split-ok (tally true rows []) (tally false rows [])
      (All-imp _ _ (tally true rows []) alone (tally-All true rows rows [] (λ r there. there) tt))
  where
    alone :
        (e : BatchId × ℕ)
        → Tallied true e.0 rows
        → ltb 0 (count_of e.0 (tally false rows [])) ≡ false
    alone (b, n) (r, in_r, z, k, e) = elim (Bool-cases (ltb 0 (count_of b (tally false rows [])))) [
      | inl some_live ↦ elim (count_of-tally false b rows [] (ground (arith, some_live))) [
        | inl none_yet ↦ absurd (omega (arith, none_yet))
        | inr (s, in_s, y, l, f) ↦
            let key : is_empty b.key ≡ false =
              sym (ap (λ (x : BatchId). is_empty x.key) e) ∙ ground (arith, k) in
            absurd (cc (w b r s key in_r in_s (in_its_batch r b k e) (in_its_batch s b l f), z, y))
      ]
      | inr none_live ↦ none_live
    ]

pub scan-IsWhole :
    (st : StagingStore) → IsWhole st.staging → scan false st ≡ ok (add_rows st.staging empty_index)
unfolding scan
scan-IsWhole st w = rw (check_split-IsWhole st.staging w) refl

count_of-bump_le : (b c : BatchId) (m : List (BatchId × ℕ)) → count_of b m ≤ count_of b (bump c m)
unfolding count_of bump
count_of-bump_le b c [] = omega arith
count_of-bump_le b c ((d, n) ∷ m) = elim (Bool-cases (same_batch d c)) [
  | inl e ↦ rw e (ground arith)
  | inr e ↦ rw e (ground (arith, count_of-bump_le b c m))
]

count_of-bump_own : (b : BatchId) (m : List (BatchId × ℕ)) → 0 < count_of b (bump b m)
unfolding count_of bump
count_of-bump_own b [] = rw (same_batch_refl b) (omega arith)
count_of-bump_own b ((d, n) ∷ m) = elim (Bool-cases (same_batch d b)) [
  | inl e ↦ rw (e, e) (omega arith)
  | inr e ↦ rw (e, e) (count_of-bump_own b m)
]

count_of-tally_le :
    (q : Bool) (b : BatchId) (rows : List StagingRow) (m : List (BatchId × ℕ))
    → count_of b m ≤ count_of b (tally q rows m)
unfolding tally tallied
count_of-tally_le q b [] m = omega arith
count_of-tally_le q b (r ∷ rows) m =
    let ih = count_of-tally_le q b rows (tallied q r m) in
    elim (tallied_cases q r m) [
      | inl (z, s, e) ↦ omega (arith, ih, ap (count_of b) e, count_of-bump_le b (batch_of r) m)
      | inr e ↦ omega (arith, ih, ap (count_of b) e)
    ]

tallied-count :
    (q : Bool) (r : StagingRow) (m : List (BatchId × ℕ))
    → is_quarantined r ≡ q
    → is_sealed r ≡ true
    → tallied q r m ≡ bump (batch_of r) m
unfolding tallied
tallied-count true r m z s = rw (s, z) refl
tallied-count false r m z s = rw (s, z) refl

-- A row that counts is counted.
tally-count :
    (q : Bool) (b : BatchId) (rows : List StagingRow) (m : List (BatchId × ℕ))
    → Tallied q b rows
    → 0 < count_of b (tally q rows m)
unfolding tally tallied
tally-count q b [] m (r, there, z, s, e) = absurd there
tally-count q b (x ∷ rows) m (r, inl same, z, s, e) =
    let new : tallied q x m ≡ bump b m =
      subst (λ y. tallied q y m ≡ bump (batch_of y) m) same (tallied-count q r m z s)
      ∙ ap (λ c. bump c m) (sym (ap batch_of same) ∙ e) in
    omega (
      arith,
      count_of-tally_le q b rows (tallied q x m),
      ap (count_of b) new,
      count_of-bump_own b m,
    )
tally-count q b (x ∷ rows) m (r, inr later, z, s, e) =
    tally-count q b rows (tallied q x m) (r, later, z, s, e)

check_split-err :
    (b : BatchId) (m live : List (BatchId × ℕ))
    → 0 < count_of b m
    → 0 < count_of b live
    → check_split m live ≡ err (staging_error state)
unfolding check_split count_of
check_split-err b [] live h l = absurd (omega (arith, h))
check_split-err b ((c, n) ∷ m) live h l = elim (Bool-cases (ltb 0 (count_of c live))) [
  | inl split ↦ rw split refl
  | inr whole ↦ elim (Bool-cases (same_batch c b)) [
    | inl e ↦ absurd (ground (arith, whole, ap (λ x. count_of x live) (same_batch→eq c b e), l))
    | inr e ↦ rw whole (check_split-err b m live (rw e at h) l)
  ]
]

-- A batch with a quarantined row and a live one makes the scan refuse.
pub scan_split :
    (b : BatchId) (st : StagingStore)
    → Tallied true b st.staging
    → Tallied false b st.staging
    → scan false st ≡ err (staging_error state)
unfolding scan count_of
scan_split b st marked live =
    rw
      (check_split-err b (tally true st.staging []) (tally false st.staging [])
        (tally-count true b st.staging [] marked) (tally-count false b st.staging [] live))
      refl
