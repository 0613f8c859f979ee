-- ===== src/Spool/Retention.antt =====
-- internal/spool/spool.go: what an eviction and a sweep leave of the other files.
use icelake.Prelude.{
  ℕ, ◌≡◌, refl, sym, ap, ◌∙◌, subst, ℤ, pos, Bool, true, false, Bool-cases, not, ◌||◌, ◌⊎◌, inl,
  inr, List, [], ◌∷◌, In, All, if◌then◌else◌, bytes_eq, ltb_ℤ, ◌==◌, arith,
}
use icelake.Errdef.{Bytes, Result, ok, err, ok-injective}
use icelake.Staging.Spool.{
  SpoolEntry, Database, delete_files, delete_spool_file, prune_spool_schemas,
}
use icelake.Staging.Spool.Rows.{
  is_committed, committed_only, spool_committed_bytes, spool_evictable,
}
use icelake.Staging.Spool.Keeps.{Unique, Apart, All-map, In-All, bytes_eq_sym}
use icelake.Staging.Spool.Ordered.{order_entries-All, committed_only-All}
use icelake.Spool.{SpoolPath, path_of, path_eq, Cache, Faults, remove_path, evict}
use icelake.Spool.Sweep.{
  is_expired, Progress, settle, attempt, by_age, not_expired, by_size, settle_prune, finish, start,
  sweep_files, sweep,
}

-- The row of `f` stays, and so does its file.
abbrev pub Keeps : SpoolEntry → Cache → Cache → Type 0
Keeps f c c' =
    (In f c.db.spool_files → In f c'.db.spool_files)
    × (In (path_of f) c.files → In (path_of f) c'.files)

Keeps-trans : (f : SpoolEntry) (a b c : Cache) → Keeps f a b → Keeps f b c → Keeps f a c
Keeps-trans f a b c p q = (λ h. q.0 (p.0 h), λ h. q.1 (p.1 h))

pub delete_files-In :
    (f : SpoolEntry) (k : Bytes) (files : List SpoolEntry)
    → bytes_eq f.batch_key k ≡ false
    → In f files
    → In f (delete_files k files)
unfolding delete_files
delete_files-In f k [] ne there = there
delete_files-In f k (g ∷ files) ne (inl same) =
    rw (sym (ap (λ e. bytes_eq e.batch_key k) same) ∙ ne) (inl same)
delete_files-In f k (g ∷ files) ne (inr later) = elim (Bool-cases (bytes_eq g.batch_key k)) [
  | inl gone ↦ rw gone (delete_files-In f k files ne later)
  | inr kept ↦ rw kept (inr (delete_files-In f k files ne later))
]

remove_path-In :
    (p q : SpoolPath) (files : List SpoolPath)
    → path_eq p q ≡ false
    → In p files
    → In p (remove_path q files)
unfolding remove_path
remove_path-In p q [] ne there = there
remove_path-In p q (r ∷ files) ne (inl same) = rw (sym (ap (λ e. path_eq e q) same) ∙ ne) (inl same)
remove_path-In p q (r ∷ files) ne (inr later) = elim (Bool-cases (path_eq r q)) [
  | inl gone ↦ rw gone (remove_path-In p q files ne later)
  | inr kept ↦ rw kept (inr (remove_path-In p q files ne later))
]

other_path :
    (f g : SpoolEntry)
    → bytes_eq f.batch_key g.batch_key ≡ false
    → path_eq (path_of f) (path_of g) ≡ false
unfolding path_eq
other_path f g ne = ground (arith, ne)

delete_spool_file-In :
    (fails : Bool) (f : SpoolEntry) (k : Bytes) (db : Database)
    → bytes_eq f.batch_key k ≡ false
    → In f db.spool_files
    → In f (delete_spool_file fails k db).1.spool_files
unfolding delete_spool_file
delete_spool_file-In true f k db ne h = h
delete_spool_file-In false f k db ne h = delete_files-In f k db.spool_files ne h

evict-Keeps :
    (faults : Faults) (f g : SpoolEntry) (c : Cache)
    → bytes_eq f.batch_key g.batch_key ≡ false
    → Keeps f c (evict faults g c).1
unfolding evict
evict-Keeps faults f g c ne = elim (Bool-cases (faults.remove_fails g.batch_key)) [
  | inl stays ↦ rw stays (λ h. h, λ h. h)
  | inr goes ↦ rw goes (
    delete_spool_file-In (faults.delete_fails g.batch_key) f g.batch_key c.db ne,
    remove_path-In (path_of f) (path_of g) c.files (other_path f g ne),
  )
]

settle-cache :
    (g : SpoolEntry) (p : Progress) (r : Result (Unit {0})) (c : Cache) → (settle g p r c).cache ≡ c
unfolding settle
settle-cache g p (ok u) c = refl
settle-cache g p (err e) c = refl

attempt-Keeps :
    (faults : Faults) (f g : SpoolEntry) (p : Progress)
    → bytes_eq f.batch_key g.batch_key ≡ false
    → Keeps f p.cache (attempt faults g p).cache
unfolding attempt
attempt-Keeps faults f g p ne =
    subst (Keeps f p.cache) (sym (settle-cache g p _ _)) (evict-Keeps faults f g p.cache ne)

-- The keys of a list all differ from that of `f`.
abbrev OtherKeys : SpoolEntry → List SpoolEntry → Type 0
OtherKeys f files = All (λ g. bytes_eq f.batch_key g.batch_key ≡ false) files

pub by_age_cases :
    (faults : Faults) (now max_age : ℤ) (g : SpoolEntry) (files : List SpoolEntry) (p : Progress)
    → ((is_expired now max_age g ≡ true)
        × (by_age faults now max_age (g ∷ files) p
            ≡ by_age faults now max_age files (attempt faults g p)))
      ⊎ ((is_expired now max_age g ≡ false)
          × (by_age faults now max_age (g ∷ files) p ≡ by_age faults now max_age files p))
unfolding by_age
by_age_cases faults now max_age g files p =
    let next : Bool → Progress =
      λ b. by_age faults now max_age files (if b then attempt faults g p else p) in
    elim (Bool-cases (is_expired now max_age g)) [
      | inl old ↦ inl (old, ap next old)
      | inr young ↦ inr (young, ap next young)
    ]

pub by_age-Keeps :
    (faults : Faults) (now max_age : ℤ) (f : SpoolEntry) (files : List SpoolEntry) (p : Progress)
    → OtherKeys f files
    → Keeps f p.cache (by_age faults now max_age files p).cache
by_age-Keeps faults now max_age f [] p o = unfold by_age in (λ h. h, λ h. h)
by_age-Keeps faults now max_age f (g ∷ files) p o =
    elim (by_age_cases faults now max_age g files p) [
      | inl (_, e) ↦
          subst (λ q. Keeps f p.cache q.cache) (sym e)
            (Keeps-trans f p.cache (attempt faults g p).cache
              (by_age faults now max_age files (attempt faults g p)).cache
              (attempt-Keeps faults f g p o.0)
              (by_age-Keeps faults now max_age f files (attempt faults g p) o.1))
      | inr (_, e) ↦
          subst (λ q. Keeps f p.cache q.cache) (sym e)
            (by_age-Keeps faults now max_age f files p o.1)
    ]

pub not_expired-All :
    (P : SpoolEntry → Type 0) (now max_age : ℤ) (files : List SpoolEntry)
    → All P files
    → All P (not_expired now max_age files)
unfolding not_expired
not_expired-All P now max_age [] a = tt
not_expired-All P now max_age (g ∷ files) a = elim (Bool-cases (is_expired now max_age g)) [
  | inl old ↦ rw old (not_expired-All P now max_age files a.1)
  | inr young ↦ rw young (a.0, not_expired-All P now max_age files a.1)
]

by_size-Keeps :
    (faults : Faults) (max_bytes : ℤ) (f : SpoolEntry) (files : List SpoolEntry) (p : Progress)
    → OtherKeys f files
    → Keeps f p.cache (by_size faults max_bytes files p).cache
unfolding by_size
by_size-Keeps faults max_bytes f [] p o = (λ h. h, λ h. h)
by_size-Keeps faults max_bytes f (g ∷ files) p o =
    elim (Bool-cases (not (ltb_ℤ (pos 0) max_bytes) || not (ltb_ℤ max_bytes p.total))) [
      | inl fits ↦ rw fits (λ h. h, λ h. h)
      | inr over ↦ rw over (
          Keeps-trans f p.cache (attempt faults g p).cache
            (by_size faults max_bytes files (attempt faults g p)).cache
            (attempt-Keeps faults f g p o.0)
            (by_size-Keeps faults max_bytes f files (attempt faults g p) o.1))
    ]

-- A file that is not committed shares its key with none that is.
committed_only-OtherKeys :
    (f : SpoolEntry) (files : List SpoolEntry)
    → Unique files
    → In f files
    → is_committed f ≡ false
    → OtherKeys f (committed_only files)
unfolding committed_only
committed_only-OtherKeys f [] u there left = tt
committed_only-OtherKeys f (g ∷ files) u (inl same) left =
    let apart : Apart f.batch_key files = subst (λ e. Apart e.batch_key files) (sym same) u.0 in
    rw (sym (ap is_committed same) ∙ left) (
      committed_only-All _ files
        (All-map _ _ files (λ e h. bytes_eq_sym e.batch_key f.batch_key h) apart))
committed_only-OtherKeys f (g ∷ files) u (inr later) left = elim (Bool-cases (is_committed g)) [
  | inl done ↦ rw done (In-All _ files f later u.0, committed_only-OtherKeys f files u.1 later left)
  | inr waits ↦ rw waits (committed_only-OtherKeys f files u.1 later left)
]

finish-Keeps :
    (faults : Faults) (f : SpoolEntry) (p : Progress) → Keeps f p.cache (finish faults p).1
unfolding finish prune_spool_schemas
finish-Keeps faults f p = elim (Bool-cases (p.evicted == 0)) [
  | inl none_ ↦ rw none_ (λ h. h, λ h. h)
  | inr some_ ↦ rw some_ (pruned faults.prune_fails)
]
  where
    pruned :
        (fails : Bool)
        → Keeps f p.cache
            (settle_prune p
              (prune_spool_schemas fails p.cache.db).0
              (prune_spool_schemas fails p.cache.db).1).1
    pruned true = unfold settle_prune in (λ h. h, λ h. h)
    pruned false = unfold settle_prune in (λ h. h, λ h. h)

sweep_files-Keeps :
    (faults : Faults) (now max_age max_bytes : ℤ) (f : SpoolEntry) (files : List SpoolEntry)
    (total : ℕ) (c : Cache)
    → OtherKeys f files
    → Keeps f c (sweep_files faults now max_age max_bytes files total c).1
unfolding sweep_files
sweep_files-Keeps faults now max_age max_bytes f files total c o =
    let aged = by_age faults now max_age files (start total c) in
    let sized = by_size faults max_bytes (not_expired now max_age files) aged in
    Keeps-trans f c aged.cache (finish faults sized).1
      (by_age-Keeps faults now max_age f files (start total c) o)
      (Keeps-trans f aged.cache sized.cache (finish faults sized).1
        (by_size-Keeps faults max_bytes f (not_expired now max_age files) aged
          (not_expired-All _ now max_age files o))
        (finish-Keeps faults f sized))

spool_evictable-OtherKeys :
    (fails : Bool) (f : SpoolEntry) (db : Database) (files : List SpoolEntry)
    → Unique db.spool_files
    → In f db.spool_files
    → is_committed f ≡ false
    → spool_evictable fails db ≡ ok files
    → OtherKeys f files
unfolding spool_evictable
spool_evictable-OtherKeys true f db files u there left e = cc
spool_evictable-OtherKeys false f db files u there left e = subst (OtherKeys f) (ok-injective e) (
    order_entries-All _ (committed_only db.spool_files)
      (committed_only-OtherKeys f db.spool_files u there left))

-- Whatever a retention sweep runs into, where the rows have distinct keys, the row of a file that is
-- not committed stays, and so does the file.
pub sweep-Keeps :
    (faults : Faults) (now max_age max_bytes : ℤ) (f : SpoolEntry) (c : Cache)
    → Unique c.db.spool_files
    → In f c.db.spool_files
    → is_committed f ≡ false
    → Keeps f c (sweep faults now max_age max_bytes c).1
unfolding sweep
sweep-Keeps faults now max_age max_bytes f c u there left =
    run (spool_evictable faults.list_fails c.db) (spool_committed_bytes faults.total_fails c.db)
      (λ files. spool_evictable-OtherKeys faults.list_fails f c.db files u there left)
  where
    run :
        (listed : Result (List SpoolEntry)) (totalled : Result ℕ)
        → ((files : List SpoolEntry) → listed ≡ ok files → OtherKeys f files)
        → Keeps f c
            (elim listed as (λ _. Result (Unit {0}) × Cache) [
              | err e ↦ (err e, c)
              | ok files ↦ elim totalled as (λ _. Result (Unit {0}) × Cache) [
                | err e ↦ (err e, c)
                | ok total ↦ sweep_files faults now max_age max_bytes files total c
              ]
            ]).1
    run (err e) totalled o = (λ h. h, λ h. h)
    run (ok files) (err e) o = (λ h. h, λ h. h)
    run (ok files) (ok total) o =
        sweep_files-Keeps faults now max_age max_bytes f files total c (o files refl)
