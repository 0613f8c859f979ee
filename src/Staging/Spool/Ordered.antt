-- ===== src/Staging/Spool/Ordered.antt =====
-- internal/staging/spool.go: what the selection and the order of spool_files keep of the rows.
use icelake.Prelude.{◌+◌, ◌≡◌, refl, inl, inr, true, Bool-cases, List, [], ◌∷◌, In, All, arith}
use icelake.Staging.Spool.{SpoolEntry}
use icelake.Staging.Spool.Rows.{
  comes_before, insert_entry, order_entries, is_committed, committed_only, sum_bytes,
}
use icelake.Staging.Spool.Keeps.{Unique, Apart, All-map, bytes_eq_sym}

insert_entry-All :
    (P : SpoolEntry → Type 0) (f : SpoolEntry) (files : List SpoolEntry)
    → P f
    → All P files
    → All P (insert_entry f files)
unfolding insert_entry
insert_entry-All P f [] p a = (p, tt)
insert_entry-All P f (g ∷ files) p a = elim (Bool-cases (comes_before g f)) [
  | inl before ↦ rw before (a.0, insert_entry-All P f files p a.1)
  | inr behind ↦ rw behind (p, a)
]

pub order_entries-All :
    (P : SpoolEntry → Type 0) (files : List SpoolEntry) → All P files → All P (order_entries files)
unfolding order_entries
order_entries-All P [] a = tt
order_entries-All P (f ∷ files) a = insert_entry-All P f _ a.0 (order_entries-All P files a.1)

pub committed_only-All :
    (P : SpoolEntry → Type 0) (files : List SpoolEntry) → All P files → All P (committed_only files)
unfolding committed_only
committed_only-All P [] a = tt
committed_only-All P (g ∷ files) a = elim (Bool-cases (is_committed g)) [
  | inl done ↦ rw done (a.0, committed_only-All P files a.1)
  | inr waits ↦ rw waits (committed_only-All P files a.1)
]

sum_insert :
    (f : SpoolEntry) (files : List SpoolEntry)
    → sum_bytes (insert_entry f files) ≡ f.byte_len + sum_bytes files
unfolding insert_entry sum_bytes
sum_insert f [] = refl
sum_insert f (g ∷ files) = elim (Bool-cases (comes_before g f)) [
  | inl before ↦ rw before (omega (arith, sum_insert f files))
  | inr behind ↦ rw behind refl
]

pub sum_order : (files : List SpoolEntry) → sum_bytes (order_entries files) ≡ sum_bytes files
unfolding order_entries sum_bytes
sum_order [] = refl
sum_order (f ∷ files) = omega (arith, sum_insert f (order_entries files), sum_order files)

insert_entry-Unique :
    (f : SpoolEntry) (files : List SpoolEntry)
    → Apart f.batch_key files
    → Unique files
    → Unique (insert_entry f files)
unfolding insert_entry
insert_entry-Unique f [] a u = (tt, tt)
insert_entry-Unique f (g ∷ files) a u = elim (Bool-cases (comes_before g f)) [
  | inl before ↦ rw before (
    insert_entry-All _ f files (bytes_eq_sym g.batch_key f.batch_key a.0) u.0,
    insert_entry-Unique f files a.1 u.1,
  )
  | inr behind ↦ rw behind (a, u)
]

pub order_entries-Unique : (files : List SpoolEntry) → Unique files → Unique (order_entries files)
unfolding order_entries
order_entries-Unique [] u = tt
order_entries-Unique (f ∷ files) u =
    insert_entry-Unique f (order_entries files) (order_entries-All _ files u.0)
      (order_entries-Unique files u.1)

pub committed_only-Unique : (files : List SpoolEntry) → Unique files → Unique (committed_only files)
unfolding committed_only
committed_only-Unique [] u = tt
committed_only-Unique (f ∷ files) u = elim (Bool-cases (is_committed f)) [
  | inl done ↦ rw done (committed_only-All _ files u.0, committed_only-Unique files u.1)
  | inr waits ↦ rw waits (committed_only-Unique files u.1)
]

pub committed_only_committed :
    (files : List SpoolEntry) → All (λ g. is_committed g ≡ true) (committed_only files)
unfolding committed_only
committed_only_committed [] = tt
committed_only_committed (f ∷ files) = elim (Bool-cases (is_committed f)) [
  | inl done ↦ rw done (done, committed_only_committed files)
  | inr waits ↦ rw waits (committed_only_committed files)
]

pub All-In : (files : List SpoolEntry) → All (λ g. In g files) files
All-In [] = tt
All-In (f ∷ files) = (inl refl, All-map _ _ files (λ g h. inr h) (All-In files))
