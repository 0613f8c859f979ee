-- ===== src/Spool/Expiry.antt =====
-- internal/spool/spool.go: the age bound, where nothing fails.
use icelake.Prelude.{
  negsuc, pos_part, neg_part, ◌+◌, ◌-◌, ◌*◌, ◌^◌, ◌≤◌, ◌<◌, arith, ℕ, ◌≡◌, refl, sym, ap, ◌∙◌,
  subst, ℤ, pos, true, false, Bool-cases, not, ◌||◌, ◌⊎◌, inl, inr, List, [], ◌∷◌, In, All,
  bytes_eq, bytes_eq_refl, ltb_ℤ,
}
use icelake.Staging.Spool.{SpoolEntry, delete_files, delete_spool_file}
use icelake.Staging.Spool.Rows.{
  comes_before, insert_entry, order_entries, is_committed, committed_only, spool_committed_bytes,
  spool_evictable,
}
use icelake.Staging.Spool.Keeps.{Apart, In-All, delete_files-All}
use icelake.Staging.Spool.Ordered.{All-In}
use icelake.Spool.{Cache, evict}
use icelake.Spool.Sweep.{
  is_expired, saturated, difference, from_milli, Progress, settle, attempt, by_age, not_expired,
  by_size, start, sweep_files, sweep,
}
use icelake.Spool.Retention.{by_age_cases}
use icelake.Spool.Counting.{no_faults, committed_bytes}
use icelake.Spool.Bounds.{finish_rows}

attempt_rows :
    (g : SpoolEntry) (p : Progress)
    → (attempt no_faults g p).cache.db.spool_files ≡ delete_files g.batch_key p.cache.db.spool_files
unfolding attempt evict delete_spool_file settle
attempt_rows g p = refl

attempt-All :
    (P : SpoolEntry → Type 0) (g : SpoolEntry) (p : Progress)
    → All P p.cache.db.spool_files
    → All P (attempt no_faults g p).cache.db.spool_files
attempt-All P g p a =
    subst (All P) (sym (attempt_rows g p)) (delete_files-All P g.batch_key p.cache.db.spool_files a)

by_age-All :
    (P : SpoolEntry → Type 0) (now max_age : ℤ) (files : List SpoolEntry) (p : Progress)
    → All P p.cache.db.spool_files
    → All P (by_age no_faults now max_age files p).cache.db.spool_files
by_age-All P now max_age [] p a = unfold by_age in a
by_age-All P now max_age (g ∷ files) p a = elim (by_age_cases no_faults now max_age g files p) [
  | inl (_, e) ↦
      subst (λ q. All P q.cache.db.spool_files) (sym e)
        (by_age-All P now max_age files (attempt no_faults g p) (attempt-All P g p a))
  | inr (_, e) ↦
      subst (λ q. All P q.cache.db.spool_files) (sym e) (by_age-All P now max_age files p a)
]

by_size-All :
    (P : SpoolEntry → Type 0) (max_bytes : ℤ) (files : List SpoolEntry) (p : Progress)
    → All P p.cache.db.spool_files
    → All P (by_size no_faults max_bytes files p).cache.db.spool_files
unfolding by_size
by_size-All P max_bytes [] p a = a
by_size-All P max_bytes (g ∷ files) p a =
    elim (Bool-cases (not (ltb_ℤ (pos 0) max_bytes) || not (ltb_ℤ max_bytes p.total))) [
      | inl fits ↦ rw fits a
      | inr over ↦
          rw over (by_size-All P max_bytes files (attempt no_faults g p) (attempt-All P g p a))
    ]

delete_files_gone : (k : List ℕ) (files : List SpoolEntry) → Apart k (delete_files k files)
unfolding delete_files
delete_files_gone k [] = tt
delete_files_gone k (f ∷ files) = elim (Bool-cases (bytes_eq f.batch_key k)) [
  | inl same ↦ rw same (delete_files_gone k files)
  | inr other ↦ rw other (other, delete_files_gone k files)
]

-- The loop by age deletes the row of every expired file of its list.
by_age_gone :
    (now max_age : ℤ) (f : SpoolEntry) (files : List SpoolEntry) (p : Progress)
    → In f files
    → is_expired now max_age f ≡ true
    → Apart f.batch_key (by_age no_faults now max_age files p).cache.db.spool_files
by_age_gone now max_age f [] p there old = absurd there
by_age_gone now max_age f (g ∷ files) p (inl same) old =
    elim (by_age_cases no_faults now max_age g files p) [
      | inl (_, e) ↦
          let gone : Apart f.batch_key (attempt no_faults g p).cache.db.spool_files =
            subst (Apart f.batch_key) (sym (attempt_rows g p)) (
              subst (λ h. Apart f.batch_key (delete_files h.batch_key p.cache.db.spool_files)) same
                (delete_files_gone f.batch_key p.cache.db.spool_files)) in
          subst (λ q. Apart f.batch_key q.cache.db.spool_files) (sym e)
            (by_age-All _ now max_age files (attempt no_faults g p) gone)
      | inr (young, _) ↦ absurd (cc (sym (ap (is_expired now max_age) same) ∙ old, young))
    ]
by_age_gone now max_age f (g ∷ files) p (inr later) old =
    elim (by_age_cases no_faults now max_age g files p) [
      | inl (_, e) ↦
          subst (λ q. Apart f.batch_key q.cache.db.spool_files) (sym e)
            (by_age_gone now max_age f files (attempt no_faults g p) later old)
      | inr (_, e) ↦
          subst (λ q. Apart f.batch_key q.cache.db.spool_files) (sym e)
            (by_age_gone now max_age f files p later old)
    ]

insert_entry-In :
    (f g : SpoolEntry) (files : List SpoolEntry)
    → (f ≡ g) ⊎ In f files
    → In f (insert_entry g files)
unfolding insert_entry
insert_entry-In f g [] h = h
insert_entry-In f g (k ∷ files) h = elim (Bool-cases (comes_before k g)) [
  | inl before ↦ rw before (elim h [
    | inl new ↦ inr (insert_entry-In f g files (inl new))
    | inr (inl first) ↦ inl first
    | inr (inr later) ↦ inr (insert_entry-In f g files (inr later))
  ])
  | inr behind ↦ rw behind h
]

order_entries-In :
    (f : SpoolEntry) (files : List SpoolEntry) → In f files → In f (order_entries files)
unfolding order_entries
order_entries-In f [] there = there
order_entries-In f (g ∷ files) (inl same) = insert_entry-In f g (order_entries files) (inl same)
order_entries-In f (g ∷ files) (inr later) =
    insert_entry-In f g (order_entries files) (inr (order_entries-In f files later))

committed_only-In :
    (f : SpoolEntry) (files : List SpoolEntry)
    → In f files
    → is_committed f ≡ true
    → In f (committed_only files)
unfolding committed_only
committed_only-In f [] there done = there
committed_only-In f (g ∷ files) (inl same) done = rw (sym (ap is_committed same) ∙ done) (inl same)
committed_only-In f (g ∷ files) (inr later) done = elim (Bool-cases (is_committed g)) [
  | inl also ↦ rw also (inr (committed_only-In f files later done))
  | inr waits ↦ rw waits (committed_only-In f files later done)
]

-- What the loop by age leaves is not expired.
sweep-is_expired :
    (now max_age max_bytes : ℤ) (c : Cache) (f : SpoolEntry)
    → In f (sweep no_faults now max_age max_bytes c).1.db.spool_files
    → is_committed f ≡ true
    → is_expired now max_age f ≡ false
unfolding sweep spool_evictable spool_committed_bytes sweep_files
sweep-is_expired now max_age max_bytes c f there done =
    let files = order_entries (committed_only c.db.spool_files) in
    let aged = by_age no_faults now max_age files (start (committed_bytes c.db) c) in
    let sized = by_size no_faults max_bytes (not_expired now max_age files) aged in
    let kept : In f sized.cache.db.spool_files = subst (In f) (finish_rows sized) there in
    let before : In f c.db.spool_files =
      In-All (λ g. In g c.db.spool_files) sized.cache.db.spool_files f kept
        (by_size-All _ max_bytes (not_expired now max_age files) aged (
          by_age-All _ now max_age files (start (committed_bytes c.db) c)
            (All-In c.db.spool_files))) in
    let listed = order_entries-In f _ (committed_only-In f c.db.spool_files before done) in
    elim (Bool-cases (is_expired now max_age f)) [
      | inr young ↦ young
      | inl old ↦
          let gone = by_age_gone now max_age f files (start (committed_bytes c.db) c) listed old in
          let still =
            In-All (λ g. bytes_eq g.batch_key f.batch_key ≡ false) sized.cache.db.spool_files f kept
              (by_size-All _ max_bytes (not_expired now max_age files) aged gone) in
          absurd (cc (still, bytes_eq_refl f.batch_key))
    ]

-- The time from the file's creation, in milliseconds, to `now`, in nanoseconds, is at most `max_age`
-- nanoseconds: `now` - `created_at` * 10^6 ≤ `max_age`, with the negative parts moved to the other side.
abbrev pub IsYoung : ℤ → ℕ → SpoolEntry → Type 0
IsYoung now max_age f =
    pos_part now + neg_part f.created_at * 1000000
    ≤ max_age + neg_part now + pos_part f.created_at * 1000000

difference_lem :
    (a b : ℤ)
    → pos_part (difference a b) + neg_part a + pos_part b
      ≡ neg_part (difference a b) + pos_part a + neg_part b
unfolding difference
difference_lem a b = ground arith

from_milli_lem :
    (t : ℤ)
    → (pos_part (from_milli t) ≡ pos_part t * 1000000)
      × (neg_part (from_milli t) ≡ neg_part t * 1000000)
unfolding from_milli
from_milli_lem (pos n) = (refl, refl)
from_milli_lem (negsuc n) = (refl, omega arith)

-- Below the greatest duration, the bound of `Sub` does not matter.
saturated_lem :
    (m : ℕ) (z : ℤ)
    → m < 2 ^ 63 - 1
    → ltb_ℤ (pos m) (saturated z) ≡ false
    → pos_part z ≤ m + neg_part z
unfolding saturated
saturated_lem m z small h = ground arith

is_expired-IsYoung :
    (now : ℤ) (max_age : ℕ) (f : SpoolEntry)
    → 0 < max_age
    → max_age < 2 ^ 63 - 1
    → is_expired now (pos max_age) f ≡ false
    → IsYoung now max_age f
unfolding is_expired
is_expired-IsYoung now max_age f some_ small h =
    let age = difference now (from_milli f.created_at) in
    let fits : ltb_ℤ (pos max_age) (saturated age) ≡ false = ground (arith, some_, h) in
    omega (
      arith,
      saturated_lem max_age age small fits,
      difference_lem now (from_milli f.created_at),
      (from_milli_lem f.created_at).0,
      (from_milli_lem f.created_at).1,
    )

-- After a sweep in which nothing fails, with an age bound above zero and below the greatest Go
-- duration, no committed file is older than the bound: the time from its creation, recorded in
-- milliseconds, to the sweep's, in nanoseconds, is at most the bound, whatever the size bound.
pub sweep_not_expired :
    (now : ℤ) (max_age : ℕ) (max_bytes : ℤ) (c : Cache) (f : SpoolEntry)
    → 0 < max_age
    → max_age < 2 ^ 63 - 1
    → In f (sweep no_faults now (pos max_age) max_bytes c).1.db.spool_files
    → is_committed f ≡ true
    → IsYoung now max_age f
sweep_not_expired now max_age max_bytes c f some_ small there done =
    is_expired-IsYoung now max_age f some_ small
      (sweep-is_expired now (pos max_age) max_bytes c f there done)
