-- ===== src/Writer/Registry.antt =====
-- store.go and drain.go: the slots of a store's tables. An open, a drain and a writer hold the slot of
-- the table that they work on. Each function is what runs under the store's mutex.
pub mod Exclusive
use icelake.Prelude.{
  ℕ, suc, ◌+◌, ◌-◌, ◌≤◌, ◌≡◌, refl, sym, ap, ◌∙◌, subst, Bool, Bool-cases, true, false, inl, inr,
  List, [], ◌∷◌, if◌then◌else◌, ◌↔◌, arith,
}
use icelake.Errdef.{Bytes, Error, Result, ok, err, err_closed, err_table_in_use}
use icelake.Staging.Store.{TableId, same_table}
use icelake.Staging.Store.Gathered.{same_table→eq}

-- What stands in a slot: `tableClaim`, or a writer, which is known by a number.
pub data Owner : Type 0 where
  table_claim : Owner
  writer_of : ℕ → Owner

pub record Registry : Type 0 where
  pub closed : Bool
  pub writers : List (TableId × Owner)

unfoldable pub is_live : TableId → List (TableId × Owner) → Bool
is_live t [] = false
is_live t ((u, w) ∷ writers) = if same_table u t then true else is_live t writers

-- `s.writers[id] = w`
unfoldable pub put : TableId → Owner → List (TableId × Owner) → List (TableId × Owner)
put t w [] = (t, w) ∷ []
put t w ((u, v) ∷ writers) = if same_table u t then (u, w) ∷ writers else (u, v) ∷ put t w writers

-- `delete(s.writers, id)`
unfoldable pub drop_slot : TableId → List (TableId × Owner) → List (TableId × Owner)
drop_slot t [] = []
drop_slot t ((u, v) ∷ writers) = if same_table u t then writers else (u, v) ∷ drop_slot t writers

unfoldable pub attach : Owner → TableId → Registry → Result (Unit {0}) × Registry
attach w t r =
    if r.closed
    then (err err_closed, r)
    else if is_live t r.writers
    then (err err_table_in_use, r)
    else (ok tt, record r { writers = put t w r.writers })

abbrev pub claim_table : TableId → Registry → Result (Unit {0}) × Registry
claim_table t r = attach table_claim t r

unfoldable pub detach : TableId → Registry → Registry
detach t r = record r { writers = drop_slot t r.writers }

abbrev pub release_table : TableId → Registry → Registry
release_table t r = detach t r

unfoldable pub swap_claim : Owner → TableId → Registry → Result (Unit {0}) × Registry
swap_claim w t r =
    if r.closed then (err err_closed, r) else (ok tt, record r { writers = put t w r.writers })

-- `Close` up to the closing of the writers, which it has taken out.
unfoldable pub close_store : Registry → Result (Unit {0}) × Registry
close_store r =
    if r.closed then (err err_closed, r) else (ok tt, record { closed = true; writers = [] })

-- How often a table stands in a list of tables.
unfoldable pub holders : TableId → List TableId → ℕ
holders t [] = 0
holders t (u ∷ tables) = if same_table u t then suc (holders t tables) else holders t tables

unfoldable pub slots : TableId → List (TableId × Owner) → ℕ
slots t [] = 0
slots t ((u, w) ∷ writers) = if same_table u t then suc (slots t writers) else slots t writers

-- One of those that work on the table stops.
unfoldable pub leave : TableId → List TableId → List TableId
leave t [] = []
leave t (u ∷ tables) = if same_table u t then tables else u ∷ leave t tables

-- The registry, and the tables that an open, a drain or a writer works on, one entry for each of these.
pub record Process : Type 0 where
  pub registry : Registry
  pub at_work : List TableId

-- Where a call of `claimTable` succeeds, the caller starts to work.
abbrev pub started : TableId → Process → Result (Unit {0}) × Registry → Process
started t p (err e, r) = record { registry = r; at_work = p.at_work }
started t p (ok u, r) = record { registry = r; at_work = t ∷ p.at_work }

pub data Step : Process → Process → Type 0 where
  claimed : (t : TableId) (p : Process) → Step p (started t p (claim_table t p.registry))
  -- An open or a drain that ends, and a writer that has closed.
  released :
      (t : TableId) (p : Process)
      → 1 ≤ holders t p.at_work
      → Step p (record { registry = release_table t p.registry; at_work = leave t p.at_work })
  -- An open that hands its slot to the writer.
  swapped :
      (n : ℕ) (t : TableId) (p : Process)
      → 1 ≤ holders t p.at_work
      → Step p
          (record { registry = (swap_claim (writer_of n) t p.registry).1; at_work = p.at_work })
  store_closed :
      (p : Process) → Step p (record { registry = (close_store p.registry).1; at_work = p.at_work })

abbrev pub opened_process : Process
opened_process = record { registry = record { closed = false; writers = [] }; at_work = [] }

pub data Reached : Process → Type 0 where
  opens : Reached opened_process
  steps : (p q : Process) → Reached p → Step p q → Reached q

-- No table has two that work on it; until the store closes, it has a slot exactly where one works on it.
pub record IsExclusive (p : Process) : Type 0 where
  pub once : (t : TableId) → holders t p.at_work ≤ 1
  pub slot :
      p.registry.closed ≡ false → (t : TableId) → slots t p.registry.writers ≡ holders t p.at_work
