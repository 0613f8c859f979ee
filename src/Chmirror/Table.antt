-- ===== src/Chmirror/Table.antt =====
-- internal/chmirror/table.go: the declared expiry, and the reconciliation of a live table. The server is a
-- parameter over a state `S` of its own: a statement's answer, and the rows of the two tables that are read.
use icelake.Prelude.{
  pos, ltb_ℤ, Bool, true, false, not, ◌||◌, Option, none, some, List, [], ◌∷◌, ◌++◌, bytes_eq,
  if◌then◌else◌,
}
use icelake.Errdef.{
  Bytes, Error, ClickHouseKind, connect_failed, schema_failed, conflict, clickhouse_error, Result,
  err, ok,
}
use icelake.Canon.Shape.{Field, Descriptor, Kind, timestamp_tz}
use icelake.Chmirror.Ddl.{
  Column, Ttl, text, contains, is_nullable, create_database, create_table, add_column, modify_ttl,
  ttl_expr, strip_ident_quotes,
}

-- A failure of the driver: the server's own exception, or any other.
pub data Failure : Type 0 where
  exception other : Failure

-- `unread`: the driver could not read a row of the answer.
pub data Answer (A : Type 0) : Type 0 where
  answered : A → Answer A
  failed : Failure → Answer A
  unread : Answer A

pub record Server (S : Type 0) : Type 0 where
  pub exec : Bytes → S → Option Failure × S
  -- The names and the types that system.columns has for a database and a table.
  pub columns : Bytes → Bytes → S → Answer (List (Bytes × Bytes))
  pub engine_full : Bytes → Bytes → S → Answer Bytes

pub record Table : Type 0 where
  pub database : Bytes
  pub name : Bytes
  pub target : Bytes
  pub cols : List Column
  pub ready : Bool
  pub ttl : Option Ttl

abbrev pub is_timestamp : Kind → Bool
is_timestamp timestamp_tz = true
is_timestamp _ = false

-- The loop over the fields.
unfoldable pub check_ttl : Bytes → Ttl → List Field → Result (Unit {0})
check_ttl target ttl [] = err (clickhouse_error conflict target ttl.column)
check_ttl target ttl (f ∷ fs) =
    let rest = check_ttl target ttl fs in
    if not (bytes_eq f.name ttl.column)
    then rest
    else if not (is_timestamp f.kind) || not f.required
    then err (clickhouse_error conflict target ttl.column)
    else ok tt

unfoldable pub validate_ttl : Bytes → Descriptor → Option Ttl → Result (Unit {0})
validate_ttl target d none = ok tt
validate_ttl target d (some ttl) =
    if not (ltb_ℤ (pos 0) ttl.seconds)
    then err (clickhouse_error conflict target ttl.column)
    else check_ttl target ttl d.fields

abbrev kind_for : Failure → ClickHouseKind
kind_for exception = schema_failed
kind_for other = connect_failed

-- `live[name]`, where the last row of a name stands.
unfoldable pub live_type : Bytes → List (Bytes × Bytes) → Option Bytes
live_type name [] = none
live_type name (row ∷ rows) = elim (live_type name rows) [
  | some typ ↦ some typ
  | none ↦ if bytes_eq row.0 name then some row.1 else none
]

abbrev pub ready_of : Table → Table
ready_of t = record {
  database = t.database;
  name = t.name;
  target = t.target;
  cols = t.cols;
  ready = true;
  ttl = t.ttl;
}

abbrev pub Exchange : Type 0 → Type 0 → Type 0
Exchange S A = S → Result A × S

module _ {S A B : Type 0} where
  abbrev pub follow : (A → Exchange S B) → Result A × S → Result B × S
  follow next (err e, s) = (err e, s)
  follow next (ok a, s) = next a s

  infixl 5 ◌>>=◌
  abbrev pub ◌>>=◌ : Exchange S A → (A → Exchange S B) → Exchange S B
  (first >>= next) s = follow next (first s)

module _ {S : Type 0} (server : Server S) (t : Table) where
  abbrev pub conflict_at : Bytes → Error
  conflict_at col = clickhouse_error conflict t.target col

  abbrev pub fail : ClickHouseKind → Error
  fail kind = clickhouse_error kind t.target []

  abbrev pub done : Option Failure × S → Result (Unit {0}) × S
  done (none, s) = (ok tt, s)
  done (some f, s) = (err (fail (kind_for f)), s)

  abbrev pub run : Bytes → Exchange S (Unit {0})
  run statement s = done (server.exec statement s)

  abbrev pub taken : {A : Type 0} → ClickHouseKind → Answer A → Result A
  taken misread (answered a) = ok a
  taken misread (failed f) = err (fail (kind_for f))
  taken misread unread = err (fail misread)

  unfoldable pub live_columns : Exchange S (List (Bytes × Bytes))
  live_columns s = (taken schema_failed (server.columns t.database t.name s), s)

  unfoldable pub reconcile_column : List (Bytes × Bytes) → Column → Exchange S (Unit {0})
  reconcile_column live c s = elim (live_type c.name live) [
    | some have ↦ if bytes_eq have c.typ then (ok tt, s) else (err (conflict_at c.name), s)
    | none ↦
        if is_nullable c.typ
        then run (add_column t.database t.name c) s
        else (err (conflict_at c.name), s)
  ]

  -- The loop over the declared columns.
  unfoldable pub reconcile : List (Bytes × Bytes) → List Column → Exchange S (Unit {0})
  reconcile live [] s = (ok tt, s)
  reconcile live (c ∷ cs) s = follow (λ u. reconcile live cs) (reconcile_column live c s)

  abbrev pub has_ttl : Bytes → Ttl → Bool
  has_ttl full ttl =
      contains full (text "TTL " ++ ttl_expr ttl)
      || contains full (text "TTL " ++ strip_ident_quotes (ttl_expr ttl))

  abbrev pub expire : Ttl → Bytes → Exchange S (Unit {0})
  expire ttl full s =
      if has_ttl full ttl then (ok tt, s) else run (modify_ttl t.database t.name ttl) s

  unfoldable pub ensure_ttl : Option Ttl → Exchange S (Unit {0})
  ensure_ttl none s = (ok tt, s)
  ensure_ttl (some ttl) s =
      follow (expire ttl) (taken connect_failed (server.engine_full t.database t.name s), s)

  unfoldable pub prepare_table : Exchange S Table
  prepare_table = do
    database ← run (create_database t.database)
    created ← run (create_table t.database t.name t.cols t.ttl)
    live ← live_columns
    agreed ← reconcile live t.cols
    expiring ← ensure_ttl t.ttl
    λ s. (ok (ready_of t), s)

  -- `Ensure`, with the table as it is after it; it is as it was where the answer is an error.
  unfoldable pub ensure : Exchange S Table
  ensure s = if t.ready then (ok t, s) else prepare_table s
