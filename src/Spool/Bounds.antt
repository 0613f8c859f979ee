-- ===== src/Spool/Bounds.antt =====
-- internal/spool/spool.go: the size bound, where nothing fails.
use icelake.Prelude.{
  ℕ, ◌+◌, ◌≤◌, ◌≡◌, refl, sym, subst, ℤ, pos, true, Bool-cases, not, ◌||◌, inl, inr, List, [], ◌∷◌,
  ltb_ℤ, ◌==◌, arith,
}
use icelake.Staging.Spool.{SpoolEntry, Database, prune_spool_schemas}
use icelake.Staging.Spool.Rows.{
  order_entries, committed_only, sum_bytes, spool_committed_bytes, spool_evictable,
}
use icelake.Staging.Spool.Keeps.{Unique, All-map, bytes_eq_sym}
use icelake.Staging.Spool.Ordered.{
  order_entries-All, committed_only-All, sum_order, order_entries-Unique, committed_only-Unique,
  committed_only_committed, All-In,
}
use icelake.Spool.{Cache}
use icelake.Spool.Sweep.{
  Progress, attempt, by_age, not_expired, by_size, settle_prune, finish, start, sweep_files, sweep,
}
use icelake.Spool.Retention.{by_age_cases, by_age-Keeps, not_expired-All}
use icelake.Spool.Counting.{no_faults, committed_bytes, Aligned, Counted, attempt-Aligned}

Aligned-tail :
    (db : Database) (g : SpoolEntry) (files : List SpoolEntry)
    → Aligned db (g ∷ files)
    → Aligned db files
Aligned-tail db g files a = record {
  unique = a.unique;
  there = a.there.1;
  done = a.done.1;
  apart = a.apart.1;
}

-- The loop by age leaves the files that are not expired, and counts the others off.
by_age-Aligned :
    (now max_age : ℤ) (files : List SpoolEntry) (p : Progress) (k : ℕ)
    → Aligned p.cache.db files
    → Counted p
    → committed_bytes p.cache.db ≡ sum_bytes files + k
    → Aligned (by_age no_faults now max_age files p).cache.db (not_expired now max_age files)
      × Counted (by_age no_faults now max_age files p)
      × (committed_bytes (by_age no_faults now max_age files p).cache.db
          ≡ sum_bytes (not_expired now max_age files) + k)
unfolding sum_bytes not_expired
by_age-Aligned now max_age [] p k a c e = unfold by_age in (a, c, e)
by_age-Aligned now max_age (g ∷ files) p k a c e =
    elim (by_age_cases no_faults now max_age g files p) [
      | inl (old, step) ↦
          let (a', c', less) = attempt-Aligned g files p a c in
          let ih =
            by_age-Aligned now max_age files (attempt no_faults g p) k a' c'
              (omega (arith, less, e)) in
          rw (old, step) ih
      | inr (young, step) ↦
          let q = by_age no_faults now max_age files p in
          let (a', c', e') =
            by_age-Aligned now max_age files p (g.byte_len + k) (Aligned-tail p.cache.db g files a)
              c (omega (arith, e)) in
          let others =
            All-map _ _ files (λ h ne. bytes_eq_sym h.batch_key g.batch_key ne) a.apart.0 in
          rw (young, step)
            (
              record {
                unique = a'.unique;
                there =
                    ((by_age-Keeps no_faults now max_age g files p others).0 a.there.0, a'.there);
                done = (a.done.0, a'.done);
                apart = (not_expired-All _ now max_age files a.apart.0, a'.apart);
              },
              c',
              omega (arith, e'),
            )
    ]

-- The loop by size stops where the files are within the bound, or where none is left.
by_size_bounded :
    (m : ℕ) (files : List SpoolEntry) (p : Progress)
    → 1 ≤ m
    → Aligned p.cache.db files
    → Counted p
    → committed_bytes p.cache.db ≡ sum_bytes files
    → committed_bytes (by_size no_faults (pos m) files p).cache.db ≤ m
unfolding by_size sum_bytes
by_size_bounded m [] p some_ a c e = omega (arith, e)
by_size_bounded m (g ∷ files) p some_ a c e =
    elim (Bool-cases (not (ltb_ℤ (pos 0) (pos m)) || not (ltb_ℤ (pos m) p.total))) [
      | inl fits ↦ rw fits (within (committed_bytes p.cache.db) p.total c fits)
      | inr over ↦
          let (a', c', less) = attempt-Aligned g files p a c in
          rw over
            (by_size_bounded m files (attempt no_faults g p) some_ a' c' (omega (arith, less, e)))
    ]
  where
    within :
        (n : ℕ) (total : ℤ)
        → total ≡ pos n
        → (not (ltb_ℤ (pos 0) (pos m)) || not (ltb_ℤ (pos m) total)) ≡ true
        → n ≤ m
    within n total c h = ground (arith, some_)

-- What the sweep lists is aligned with the database.
listed-Aligned :
    (db : Database)
    → Unique db.spool_files
    → Aligned db (order_entries (committed_only db.spool_files))
listed-Aligned db u = record {
  unique = u;
  there = order_entries-All _ _ (committed_only-All _ db.spool_files (All-In db.spool_files));
  done = order_entries-All _ _ (committed_only_committed db.spool_files);
  apart = order_entries-Unique _ (committed_only-Unique db.spool_files u);
}

pub finish_rows : (p : Progress) → (finish no_faults p).1.db.spool_files ≡ p.cache.db.spool_files
unfolding finish prune_spool_schemas settle_prune
finish_rows p = elim (Bool-cases (p.evicted == 0)) [
  | inl none_ ↦ rw none_ refl
  | inr some_ ↦ rw some_ refl
]

-- After a sweep in which nothing fails, over rows with distinct keys and under a size bound above
-- zero, the committed files together are within the bound.
pub sweep_bounded :
    (now max_age : ℤ) (m : ℕ) (c : Cache)
    → 1 ≤ m
    → Unique c.db.spool_files
    → committed_bytes (sweep no_faults now max_age (pos m) c).1.db ≤ m
unfolding sweep spool_evictable spool_committed_bytes sweep_files
sweep_bounded now max_age m c some_ u =
    let files = order_entries (committed_only c.db.spool_files) in
    let begin = start (committed_bytes c.db) c in
    let (a, counted, e) =
      by_age-Aligned now max_age files begin 0 (listed-Aligned c.db u) refl
        (omega (arith, sum_order (committed_only c.db.spool_files))) in
    let aged = by_age no_faults now max_age files begin in
    let bounded =
      by_size_bounded m (not_expired now max_age files) aged some_ a counted (omega (arith, e)) in
    subst (λ rows. sum_bytes (committed_only rows) ≤ m)
      (sym (finish_rows (by_size no_faults (pos m) (not_expired now max_age files) aged))) bounded
