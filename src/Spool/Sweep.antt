-- ===== src/Spool/Sweep.antt =====
-- internal/spool/spool.go: the retention sweep.
use icelake.Prelude.{
  ℕ, suc, ◌+◌, ◌-◌, ◌*◌, ◌^◌, ℤ, pos, negsuc, pos_part, neg_part, Bool, not, ◌||◌, ◌&&◌, Option,
  none, some, List, [], ◌∷◌, if◌then◌else◌, ltb, ◌==◌, ltb_ℤ,
}
use icelake.Errdef.{Error, Result, ok, err}
use icelake.Staging.Spool.{SpoolEntry, Database, prune_spool_schemas}
use icelake.Staging.Spool.Rows.{spool_committed_bytes, spool_evictable}
use icelake.Spool.{Cache, Faults, evict}

-- `a - b` on integers.
unfoldable pub difference : ℤ → ℤ → ℤ
difference a b =
    let up = pos_part a + neg_part b in
    let down = neg_part a + pos_part b in
    if ltb up down then negsuc (down - up - 1) else pos (up - down)

-- Nanoseconds from milliseconds.
unfoldable pub from_milli : ℤ → ℤ
from_milli (pos n) = pos (n * 1000000)
from_milli (negsuc n) = negsuc (suc n * 1000000 - 1)

-- `now.Sub(t)`, which stops at the ends of int64.
unfoldable pub saturated : ℤ → ℤ
saturated z =
    if ltb_ℤ (pos (2 ^ 63 - 1)) z
    then pos (2 ^ 63 - 1)
    else if ltb_ℤ z (negsuc (2 ^ 63 - 1))
    then negsuc (2 ^ 63 - 1)
    else z

unfoldable pub is_expired : ℤ → ℤ → SpoolEntry → Bool
is_expired now max_age f =
    ltb_ℤ (pos 0) max_age && ltb_ℤ max_age (saturated (difference now (from_milli f.created_at)))

-- The local variables of `Sweep`, with the state.
pub record Progress : Type 0 where
  pub cache : Cache
  pub total : ℤ
  pub evicted : ℕ
  pub first : Option Error

unfoldable pub first_of : Option Error → Error → Option Error
first_of none e = some e
first_of (some earlier) e = some earlier

-- What both loops do with the result of `evict`.
unfoldable pub settle : SpoolEntry → Progress → Result (Unit {0}) → Cache → Progress
settle f p (err e) c = record {
  cache = c;
  total = p.total;
  evicted = p.evicted;
  first = first_of p.first e;
}
settle f p (ok u) c = record {
  cache = c;
  total = difference p.total (pos f.byte_len);
  evicted = suc p.evicted;
  first = p.first;
}

unfoldable pub attempt : Faults → SpoolEntry → Progress → Progress
attempt faults f p = let (result, c) = evict faults f p.cache in settle f p result c

-- The loop by age: the files that it leaves, and the progress.
unfoldable pub by_age : Faults → ℤ → ℤ → List SpoolEntry → Progress → Progress
by_age faults now max_age [] p = p
by_age faults now max_age (f ∷ files) p =
    by_age faults now max_age files (if is_expired now max_age f then attempt faults f p else p)

unfoldable pub not_expired : ℤ → ℤ → List SpoolEntry → List SpoolEntry
not_expired now max_age [] = []
not_expired now max_age (f ∷ files) =
    if is_expired now max_age f
    then not_expired now max_age files
    else f ∷ not_expired now max_age files

-- The loop by size over the files that the first loop left.
unfoldable pub by_size : Faults → ℤ → List SpoolEntry → Progress → Progress
by_size faults max_bytes [] p = p
by_size faults max_bytes (f ∷ files) p =
    if not (ltb_ℤ (pos 0) max_bytes) || not (ltb_ℤ max_bytes p.total)
    then p
    else by_size faults max_bytes files (attempt faults f p)

unfoldable pub report : Option Error → Result (Unit {0})
report none = ok tt
report (some e) = err e

unfoldable pub settle_prune : Progress → Result (Unit {0}) → Database → Result (Unit {0}) × Cache
settle_prune p (ok u) db = (report p.first, record { db = db; files = p.cache.files })
settle_prune p (err e) db = (report (first_of p.first e), record { db = db; files = p.cache.files })

unfoldable pub finish : Faults → Progress → Result (Unit {0}) × Cache
finish faults p =
    if p.evicted == 0
    then (report p.first, p.cache)
    else let (result, db) = prune_spool_schemas faults.prune_fails p.cache.db in
      settle_prune p result db

abbrev pub start : ℕ → Cache → Progress
start total c = record { cache = c; total = pos total; evicted = 0; first = none }

-- `Sweep`, once the files are listed and totalled.
unfoldable pub sweep_files :
    Faults → ℤ → ℤ → ℤ → List SpoolEntry → ℕ → Cache → Result (Unit {0}) × Cache
sweep_files faults now max_age max_bytes files total c = finish faults (
    by_size faults max_bytes (not_expired now max_age files)
      (by_age faults now max_age files (start total c)))

unfoldable pub sweep : Faults → ℤ → ℤ → ℤ → Cache → Result (Unit {0}) × Cache
sweep faults now max_age max_bytes c = elim (spool_evictable faults.list_fails c.db) [
  | err e ↦ (err e, c)
  | ok files ↦ elim (spool_committed_bytes faults.total_fails c.db) [
    | err e ↦ (err e, c)
    | ok total ↦ sweep_files faults now max_age max_bytes files total c
  ]
]
