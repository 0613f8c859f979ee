-- ===== src/Spool/Counting.antt =====
-- internal/spool/spool.go: evictions that work, and the size that a sweep counts down.
use icelake.Prelude.{
  ℕ, ◌+◌, ◌≡◌, refl, sym, ap, ◌∙◌, subst, pos, true, false, Bool-cases, inl, inr, List, [], ◌∷◌, In,
  All, bytes_eq, bytes_eq_refl, arith,
}
use icelake.Errdef.{Bytes}
use icelake.Staging.Spool.{SpoolEntry, Database, delete_files, delete_spool_file}
use icelake.Staging.Spool.Rows.{is_committed, committed_only, sum_bytes}
use icelake.Staging.Spool.Keeps.{Unique, Apart, All-both, In-All, bytes_eq_sym, delete_files-Unique}
use icelake.Spool.{Faults, evict}
use icelake.Spool.Sweep.{difference, Progress, settle, attempt}
use icelake.Spool.Retention.{delete_files-In}

-- Nothing fails.
abbrev pub no_faults : Faults
no_faults = record {
  remove_fails = λ key. false;
  delete_fails = λ key. false;
  list_fails = false;
  total_fails = false;
  prune_fails = false;
}

-- The size that the bound is about.
abbrev pub committed_bytes : Database → ℕ
committed_bytes db = sum_bytes (committed_only db.spool_files)

delete_files-Apart :
    (k : Bytes) (files : List SpoolEntry) → Apart k files → delete_files k files ≡ files
unfolding delete_files
delete_files-Apart k [] a = refl
delete_files-Apart k (f ∷ files) a = rw a.0 (ap (λ fs. f ∷ fs) (delete_files-Apart k files a.1))

sum_cons :
    (f : SpoolEntry) (files : List SpoolEntry)
    → is_committed f ≡ true
    → sum_bytes (committed_only (f ∷ files)) ≡ f.byte_len + sum_bytes (committed_only files)
unfolding committed_only sum_bytes
sum_cons f files done = rw done

-- Deleting a committed file takes its bytes off the sum.
delete_files_sum :
    (g : SpoolEntry) (files : List SpoolEntry)
    → Unique files
    → In g files
    → is_committed g ≡ true
    → g.byte_len + sum_bytes (committed_only (delete_files g.batch_key files))
      ≡ sum_bytes (committed_only files)
unfolding delete_files committed_only sum_bytes
delete_files_sum g [] u there done = absurd there
delete_files_sum g (h ∷ files) u (inl same) done =
    let apart : Apart g.batch_key files = subst (λ e. Apart e.batch_key files) (sym same) u.0 in
    let head : bytes_eq h.batch_key g.batch_key ≡ true =
      ap (λ e. bytes_eq h.batch_key e.batch_key) same ∙ bytes_eq_refl h.batch_key in
    let counted : is_committed h ≡ true = sym (ap is_committed same) ∙ done in
    let len : g.byte_len ≡ h.byte_len = ap (λ e. e.byte_len) same in
    rw (head, delete_files-Apart g.batch_key files apart, counted, len) refl
delete_files_sum g (h ∷ files) u (inr later) done =
    let ne : bytes_eq h.batch_key g.batch_key ≡ false =
      bytes_eq_sym g.batch_key h.batch_key (In-All _ files g later u.0) in
    let ih = delete_files_sum g files u.1 later done in
    elim (Bool-cases (is_committed h)) [
      | inl counted ↦ rw (ne, counted) (omega (arith, ih))
      | inr waits ↦ rw (ne, waits) ih
    ]

-- The list holds committed files of the database, each once.
pub record Aligned (db : Database) (files : List SpoolEntry) : Type 0 where
  pub unique : Unique db.spool_files
  pub there : All (λ g. In g db.spool_files) files
  pub done : All (λ g. is_committed g ≡ true) files
  pub apart : Unique files

deleted : SpoolEntry → Database → Database
deleted g db = record {
  spool_files = delete_files g.batch_key db.spool_files;
  spool_schemas = db.spool_schemas;
}

Aligned-deleted :
    (g : SpoolEntry) (files : List SpoolEntry) (db : Database)
    → Aligned db (g ∷ files)
    → Aligned (deleted g db) files
      × (g.byte_len + committed_bytes (deleted g db) ≡ committed_bytes db)
unfolding deleted
Aligned-deleted g files db a = (
  record {
    unique = delete_files-Unique g.batch_key db.spool_files a.unique;
    there =
        All-both _ _ _ files (λ h ne m. delete_files-In h g.batch_key db.spool_files ne m) a.apart.0
          a.there.1;
    done = a.done.1;
    apart = a.apart.1;
  },
  delete_files_sum g db.spool_files a.unique a.there.0 a.done.0,
)

-- The progress's total is the committed size.
abbrev pub Counted : Progress → Type 0
Counted p = p.total ≡ pos (committed_bytes p.cache.db)

difference_pos : (a b : ℕ) → difference (pos (b + a)) (pos b) ≡ pos a
unfolding difference
difference_pos a b = ground arith

-- An eviction that works deletes the row, and keeps the count.
attempt_works :
    (g : SpoolEntry) (p : Progress)
    → ((attempt no_faults g p).cache.db ≡ deleted g p.cache.db)
      × ((attempt no_faults g p).total ≡ difference p.total (pos g.byte_len))
unfolding attempt evict delete_spool_file settle deleted
attempt_works g p = (refl, refl)

pub attempt-Aligned :
    (g : SpoolEntry) (files : List SpoolEntry) (p : Progress)
    → Aligned p.cache.db (g ∷ files)
    → Counted p
    → Aligned (attempt no_faults g p).cache.db files
      × Counted (attempt no_faults g p)
      × (g.byte_len + committed_bytes (attempt no_faults g p).cache.db ≡ committed_bytes p.cache.db)
attempt-Aligned g files p a counted =
    let (rows, total) = attempt_works g p in
    let (aligned, less) = Aligned-deleted g files p.cache.db a in
    (
      subst (λ db. Aligned db files) (sym rows) aligned,
      total
          ∙ ap (λ t. difference t (pos g.byte_len)) (counted ∙ ap pos (sym less))
          ∙ difference_pos (committed_bytes (deleted g p.cache.db)) g.byte_len
          ∙ ap (λ db. pos (committed_bytes db)) (sym rows),
      ap (λ db. g.byte_len + committed_bytes db) rows ∙ less,
    )
