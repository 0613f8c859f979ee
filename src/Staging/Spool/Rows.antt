-- ===== src/Staging/Spool/Rows.antt =====
-- internal/staging/spool.go: the queries over spool_files, in their order.
use icelake.Prelude.{
  ℕ, ◌+◌, Bool, true, false, not, ◌&&◌, none, some, List, [], ◌∷◌, if◌then◌else◌, bytes_eq, ltb,
  ◌==◌, ltb_ℤ, ◌==ℤ◌,
}
use icelake.Errdef.{Bytes, staging_error, read, Result, ok, err}
use icelake.Staging.Spool.{SpoolEntry, Database}

-- SQLite's order of text, byte by byte.
unfoldable pub ltb_bytes : Bytes → Bytes → Bool
ltb_bytes [] [] = false
ltb_bytes [] (y ∷ ys) = true
ltb_bytes (x ∷ xs) [] = false
ltb_bytes (x ∷ xs) (y ∷ ys) = if x == y then ltb_bytes xs ys else ltb x y

-- ORDER BY created_at, batch_key
unfoldable pub comes_before : SpoolEntry → SpoolEntry → Bool
comes_before f g =
    if f.created_at ==ℤ g.created_at
    then ltb_bytes f.batch_key g.batch_key
    else ltb_ℤ f.created_at g.created_at

unfoldable pub insert_entry : SpoolEntry → List SpoolEntry → List SpoolEntry
insert_entry f [] = f ∷ []
insert_entry f (g ∷ files) = if comes_before g f then g ∷ insert_entry f files else f ∷ g ∷ files

unfoldable pub order_entries : List SpoolEntry → List SpoolEntry
order_entries [] = []
order_entries (f ∷ files) = insert_entry f (order_entries files)

unfoldable pub is_committed : SpoolEntry → Bool
is_committed f = elim f.committed_at [ none ↦ false | some t ↦ true ]

-- WHERE committed_at IS NOT NULL
unfoldable pub committed_only : List SpoolEntry → List SpoolEntry
committed_only [] = []
committed_only (f ∷ files) =
    if is_committed f then f ∷ committed_only files else committed_only files

-- WHERE namespace = ? AND table_name = ? AND committed_at IS NULL
backlog_of : Bytes → Bytes → List SpoolEntry → List SpoolEntry
backlog_of ns table [] = []
backlog_of ns table (f ∷ files) =
    if bytes_eq f.namespace ns && bytes_eq f.table_name table && not (is_committed f)
    then f ∷ backlog_of ns table files
    else backlog_of ns table files

spool_backlog : Bool → Bytes → Bytes → Database → Result (List SpoolEntry)
spool_backlog true ns table db = err (staging_error read)
spool_backlog false ns table db = ok (order_entries (backlog_of ns table db.spool_files))

unfoldable pub sum_bytes : List SpoolEntry → ℕ
sum_bytes [] = 0
sum_bytes (f ∷ files) = f.byte_len + sum_bytes files

unfoldable pub spool_committed_bytes : Bool → Database → Result ℕ
spool_committed_bytes true db = err (staging_error read)
spool_committed_bytes false db = ok (sum_bytes (committed_only db.spool_files))

unfoldable pub spool_evictable : Bool → Database → Result (List SpoolEntry)
spool_evictable true db = err (staging_error read)
spool_evictable false db = ok (order_entries (committed_only db.spool_files))
