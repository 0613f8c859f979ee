-- ===== src/Chmirror/Reconcile.antt =====
-- internal/chmirror/table.go: what the reconciliation leaves in a table of the server.
use icelake.Prelude.{
  ◌≡◌, refl, sym, ap, ◌∙◌, subst, false, Bool-cases, Option-cases, inl, inr, Option, none, some,
  ◌⊎◌, List, [], ◌∷◌, ◌++◌, All, bytes_eq, bytes_eq→eq, arith, ◌≢◌,
}
use icelake.Errdef.{
  Bytes, Error, Result, ok, err, ok-injective, ClickHouseKind, connect_failed, schema_failed,
}
use icelake.Canon.Shape.{Descriptor}
use icelake.Chmirror.Ddl.{
  key_column, Column, Ttl, is_nullable, create_database, create_table, add_column, modify_ttl,
}
use icelake.Chmirror.Opening.{
  DistinctColumns, DistinctNames, new_table, new_table_inv, declared_columns,
}
use icelake.Chmirror.Table.{
  Exchange, ◌>>=◌, Failure, Answer, answered, failed, unread, expire, Server, Table, live_type,
  ready_of, follow, conflict_at, done, run, taken, live_columns, reconcile_column, reconcile,
  has_ttl, ensure_ttl, prepare_table, ensure,
}

abbrev pub Catalog : Type 0
Catalog = List (Bytes × Bytes)

-- The columns that a table had are there with their types.
abbrev pub Keeps : Catalog → Catalog → Type 0
Keeps before after =
    (name typ : Bytes) → live_type name before ≡ some typ → live_type name after ≡ some typ

abbrev pub Has : Catalog → Column → Type 0
Has live c = live_type c.name live ≡ some c.typ

-- What ADD COLUMN IF NOT EXISTS does to the columns of the table, for one column.
abbrev pub Adds : {S : Type 0} → Server S → (S → Catalog) → Table → Column → Type 0
Adds {S} server catalog t c =
    (s : S)
    → ((server.exec (add_column t.database t.name c) s).0 ≡ none
        → live_type c.name (catalog s) ≡ none
        → Has (catalog (server.exec (add_column t.database t.name c) s).1) c)
      × Keeps (catalog s) (catalog (server.exec (add_column t.database t.name c) s).1)
      × ((name : Bytes)
          → name ≢ c.name
          → live_type name (catalog (server.exec (add_column t.database t.name c) s).1)
            ≡ live_type name (catalog s))

-- What ClickHouse documents of the statements: `catalog` is the content of system.columns for the table.
pub record Documented {S : Type 0} (server : Server S) (catalog : S → Catalog) (t : Table)
    : Type 0 where
  pub reads :
      (s : S) (rows : Catalog)
      → server.columns t.database t.name s ≡ answered rows
      → rows ≡ catalog s
  pub creates_database :
      (s : S) → Keeps (catalog s) (catalog (server.exec (create_database t.database) s).1)
  pub creates_table :
      (s : S)
      → Keeps (catalog s) (catalog (server.exec (create_table t.database t.name t.cols t.ttl) s).1)
  pub adds : All (Adds server catalog t) t.cols
  pub expires :
      (ttl : Ttl) (s : S)
      → Keeps (catalog s) (catalog (server.exec (modify_ttl t.database t.name ttl) s).1)

refused :
    {S A : Type 0} {e : Error} {a : A} {s s' : S} → ◌≡◌ {A = Result A × S} (err e, s) (ok a, s') → ⊥
refused h = ground (arith, ap (λ r. r.0) h)

module _ {S : Type 0} (server : Server S) (catalog : S → Catalog) (t : Table) where
  done_inv :
      (r : Option Failure × S) (s' : S) → done server t r ≡ (ok tt, s') → (r.0 ≡ none) × (r.1 ≡ s')
  done_inv (none, s) s' h = (refl, ap (λ r. r.1) h)
  done_inv (some f, s) s' h = absurd (refused h)

  -- A column is as declared, or it is missing and the server has added it.
  column_inv :
      (live : Catalog) (c : Column) (s s' : S)
      → reconcile_column server t live c s ≡ (ok tt, s')
      → (Has live c × (s ≡ s'))
        ⊎ ((live_type c.name live ≡ none)
            × ((server.exec (add_column t.database t.name c) s).0 ≡ none)
            × ((server.exec (add_column t.database t.name c) s).1 ≡ s'))
  unfolding reconcile_column
  column_inv live c s s' h = elim (Option-cases (live_type c.name live)) [
    | inl e ↦ elim (Bool-cases (is_nullable c.typ)) [
      | inl n ↦
          let step : reconcile_column server t live c s
              ≡ run server t (add_column t.database t.name c) s =
            rw (reconcile_column, e, n) refl in
          let (added, state) =
            done_inv (server.exec (add_column t.database t.name c) s) s' (sym step ∙ h) in
          inr (e, added, state)
      | inr n ↦
          let step : reconcile_column server t live c s ≡ (err (conflict_at server t c.name), s) =
            rw (reconcile_column, e, n) refl in
          absurd (refused (sym step ∙ h))
    ]
    | inr (have, e) ↦ elim (Bool-cases (bytes_eq have c.typ)) [
      | inl n ↦
          let step : reconcile_column server t live c s ≡ (ok tt, s) =
            rw (reconcile_column, e, n) refl in
          inl (e ∙ ap some (bytes_eq→eq have c.typ n), ap (λ r. r.1) (sym step ∙ h))
      | inr n ↦
          let step : reconcile_column server t live c s ≡ (err (conflict_at server t c.name), s) =
            rw (reconcile_column, e, n) refl in
          absurd (refused (sym step ∙ h))
    ]
  ]

  abbrev Step : Column → S → S → Type 0
  Step c s s' =
      Has (catalog s') c
      × Keeps (catalog s) (catalog s')
      × ((name : Bytes) → name ≢ c.name → live_type name (catalog s') ≡ live_type name (catalog s))

  column_lem :
      (live : Catalog) (c : Column) (s s' : S)
      → Adds server catalog t c
      → live_type c.name live ≡ live_type c.name (catalog s)
      → reconcile_column server t live c s ≡ (ok tt, s')
      → Step c s s'
  column_lem live c s s' laws same h = elim (column_inv live c s s' h) [
    | inl (has, e) ↦ subst (λ x. Step c s x) e (sym same ∙ has, λ name typ k. k, λ name other. refl)
    | inr (missing, added, e) ↦
        let (adds, keeps, others) = laws s in
        subst (λ x. Step c s x) e (adds added (sym same ∙ missing), keeps, others)
  ]

  follow_inv :
      {A B : Type 0} (next : A → S → Result B × S) (r : Result A × S) {b : B} {s' : S}
      → follow next r ≡ (ok b, s')
      → (a : A) × (r.0 ≡ ok a) × (next a r.1 ≡ (ok b, s'))
  follow_inv next (err e, s) h = absurd (refused h)
  follow_inv next (ok a, s) h = (a, refl, h)

  bind_inv :
      {A B : Type 0} (first : Exchange S A) (next : A → Exchange S B) (s : S) {b : B} {s' : S}
      → (first >>= next) s ≡ (ok b, s')
      → (a : A) × (mid : S) × (first s ≡ (ok a, mid)) × (next a mid ≡ (ok b, s'))
  bind_inv first next s h =
      let (a, went, rest) = follow_inv next (first s) h in
      (a, (first s).1, ap (λ x. (x, (first s).1)) went, rest)

  Keeps-trans : (x y z : Catalog) → Keeps x y → Keeps y z → Keeps x z
  Keeps-trans x y z f g name typ h = g name typ (f name typ h)

  abbrev Same : Catalog → S → Column → Type 0
  Same live s c = live_type c.name live ≡ live_type c.name (catalog s)

  reconcile_column-Same :
      (live : Catalog) (c : Column) (s s' : S) (cs : List Column)
      → Step c s s'
      → All (λ d. d.name ≢ c.name) cs
      → All (Same live s) cs
      → All (Same live s') cs
  reconcile_column-Same live c s s' [] step apart same = tt
  reconcile_column-Same live c s s' (d ∷ cs) step apart same = (
    same.0 ∙ sym (step.2 d.name apart.0),
    reconcile_column-Same live c s s' cs step apart.1 same.1,
  )

  reconcile_lem :
      (live : Catalog) (cs : List Column) (s s' : S)
      → All (Adds server catalog t) cs
      → DistinctColumns cs
      → All (Same live s) cs
      → reconcile server t live cs s ≡ (ok tt, s')
      → All (Has (catalog s')) cs × Keeps (catalog s) (catalog s')
  unfolding reconcile
  reconcile_lem live [] s s' laws apart same h =
      (tt, λ name typ k. subst (λ x. live_type name (catalog x) ≡ some typ) (ap (λ r. r.1) h) k)
  reconcile_lem live (c ∷ cs) s s' laws apart same h =
      let next : S = (reconcile_column server t live c s).1 in
      let (u, went, rest) =
        follow_inv (λ u. reconcile server t live cs) (reconcile_column server t live c s) h in
      let step = column_lem live c s next laws.0 same.0 (ap (λ x. (x, next)) went) in
      let (has, keeps) =
        reconcile_lem live cs next s' laws.1 apart.1
          (reconcile_column-Same live c s next cs step apart.0 same.1) rest in
      (
        (keeps c.name c.typ step.0, has),
        Keeps-trans (catalog s) (catalog next) (catalog s') step.1 keeps,
      )

  Has-Keeps : (x y : Catalog) (cs : List Column) → Keeps x y → All (Has x) cs → All (Has y) cs
  Has-Keeps x y [] keeps has = tt
  Has-Keeps x y (c ∷ cs) keeps has = (keeps c.name c.typ has.0, Has-Keeps x y cs keeps has.1)

  run_inv :
      (statement : Bytes) (s s' : S)
      → run server t statement s ≡ (ok tt, s')
      → (server.exec statement s).1 ≡ s'
  run_inv statement s s' h = (done_inv (server.exec statement s) s' h).1

  run-Keeps :
      (statement : Bytes) (s s' : S)
      → Keeps (catalog s) (catalog (server.exec statement s).1)
      → run server t statement s ≡ (ok tt, s')
      → Keeps (catalog s) (catalog s')
  run-Keeps statement s s' keeps h =
      subst (λ x. Keeps (catalog s) (catalog x)) (run_inv statement s s' h) keeps

  expire-Keeps :
      Documented server catalog t
      → (ttl : Ttl) (full : Bytes) (s s' : S) → expire server t ttl full s ≡ (ok tt, s')
      → Keeps (catalog s) (catalog s')
  expire-Keeps docs ttl full s s' h = elim (Bool-cases (has_ttl server t full ttl)) [
    | inl e ↦
        let step : expire server t ttl full s ≡ (ok tt, s) = rw e refl in
        subst (λ x. Keeps (catalog s) (catalog x)) (ap (λ r. r.1) (sym step ∙ h)) (λ name typ k. k)
    | inr e ↦
        let step : expire server t ttl full s ≡ run server t (modify_ttl t.database t.name ttl) s =
          rw e refl in
        run-Keeps (modify_ttl t.database t.name ttl) s s' (docs.expires ttl s) (sym step ∙ h)
  ]

  ensure_ttl-Keeps :
      Documented server catalog t
      → (ttl : Option Ttl) (s s' : S) → ensure_ttl server t ttl s ≡ (ok tt, s')
      → Keeps (catalog s) (catalog s')
  unfolding ensure_ttl
  ensure_ttl-Keeps docs none s s' h =
      subst (λ x. Keeps (catalog s) (catalog x)) (ap (λ r. r.1) h) (λ name typ k. k)
  ensure_ttl-Keeps docs (some ttl) s s' h =
      let answer = taken server t connect_failed (server.engine_full t.database t.name s) in
      let (full, read, rest) = follow_inv (expire server t ttl) (answer, s) h in
      expire-Keeps docs ttl full s s' rest

  taken_inv :
      {A : Type 0} (k : ClickHouseKind) (o : Answer A) {a : A}
      → taken server t k o ≡ ok a
      → o ≡ answered a
  taken_inv k (answered a) h = ap answered (ok-injective h)
  taken_inv k (failed f) h = cc
  taken_inv k unread h = cc

  catalog-Same :
      (live : Catalog) (s : S) (cs : List Column) → live ≡ catalog s → All (Same live s) cs
  catalog-Same live s [] e = tt
  catalog-Same live s (c ∷ cs) e = (ap (live_type c.name) e, catalog-Same live s cs e)

  -- The steps of the preparation, one after the other.
  steps_lem :
      (live : Catalog) (s s1 s2 s3 s4 s5 : S)
      → Documented server catalog t
      → DistinctColumns t.cols
      → run server t (create_database t.database) s ≡ (ok tt, s1)
      → run server t (create_table t.database t.name t.cols t.ttl) s1 ≡ (ok tt, s2)
      → live_columns server t s2 ≡ (ok live, s3)
      → reconcile server t live t.cols s3 ≡ (ok tt, s4)
      → ensure_ttl server t t.ttl s4 ≡ (ok tt, s5)
      → All (Has (catalog s5)) t.cols × Keeps (catalog s) (catalog s5)
  unfolding live_columns
  steps_lem live s s1 s2 s3 s4 s5 docs apart made created read agreed expiring =
      let answer : server.columns t.database t.name s2 ≡ answered live =
        taken_inv schema_failed (server.columns t.database t.name s2) (ap (λ r. r.0) read) in
      let stays : s2 ≡ s3 = ap (λ r. r.1) read in
      let current : live ≡ catalog s3 = docs.reads s2 live answer ∙ ap catalog stays in
      let (has, kept) =
        reconcile_lem live t.cols s3 s4 docs.adds apart (catalog-Same live s3 t.cols current)
          agreed in
      let expired = ensure_ttl-Keeps docs t.ttl s4 s5 expiring in
      let early =
        Keeps-trans (catalog s) (catalog s1) (catalog s2)
          (run-Keeps (create_database t.database) s s1 (docs.creates_database s) made)
          (run-Keeps (create_table t.database t.name t.cols t.ttl) s1 s2 (docs.creates_table s1)
            created) in
      let late = Keeps-trans (catalog s3) (catalog s4) (catalog s5) kept expired in
      (
        Has-Keeps (catalog s4) (catalog s5) t.cols expired has,
        Keeps-trans (catalog s) (catalog s2) (catalog s5) early
            (subst (λ x. Keeps (catalog x) (catalog s5)) (sym stays) late),
      )

  abbrev Ensured : S → Table → S → Type 0
  Ensured s t' s' =
      (t' ≡ ready_of t) × All (Has (catalog s')) t.cols × Keeps (catalog s) (catalog s')

  ends_lem :
      (s s5 s' : S) (t' : Table)
      → All (Has (catalog s5)) t.cols × Keeps (catalog s) (catalog s5)
      → ◌≡◌ {A = Result Table × S} (ok (ready_of t), s5) (ok t', s')
      → Ensured s t' s'
  ends_lem s s5 s' t' (has, keeps) h =
      let e : s5 ≡ s' = ap (λ r. r.1) h in
      (
        sym (ok-injective (ap (λ r. r.0) h)),
        subst (λ x. All (Has (catalog x)) t.cols) e has,
        subst (λ x. Keeps (catalog s) (catalog x)) e keeps,
      )

  -- `Ensure` of a table that is not ready, where ClickHouse does what it documents and the declared columns
  -- have different names: where it succeeds, the table is ready, every declared column is in the server's
  -- table with its declared type, and every column that the table had before has the type it had.
  ensure-Has :
      Documented server catalog t
      → DistinctColumns t.cols
      → t.ready ≡ false
      → (t' : Table) (s s' : S) → ensure server t s ≡ (ok t', s')
      → (t' ≡ ready_of t) × All (Has (catalog s')) t.cols × Keeps (catalog s) (catalog s')
  unfolding ensure prepare_table live_columns
  ensure-Has docs apart unready t' s s' h =
      let step : ensure server t s ≡ prepare_table server t s = rw unready refl in
      let (u1, s1, made, h1) =
        bind_inv (run server t (create_database t.database)) _ s (sym step ∙ h) in
      let (u2, s2, created, h2) =
        bind_inv (run server t (create_table t.database t.name t.cols t.ttl)) _ s1 h1 in
      let (live, s3, read, h3) = bind_inv (live_columns server t) _ s2 h2 in
      let (u4, s4, agreed, h4) = bind_inv (reconcile server t live t.cols) _ s3 h3 in
      let (u5, s5, expiring, h5) = bind_inv (ensure_ttl server t t.ttl) _ s4 h4 in
      ends_lem s s5 s' t'
        (steps_lem live s s1 s2 s3 s4 s5 docs apart made created read agreed expiring) h5

  -- `Ensure` of a table that `NewTable` has prepared for a shape whose columns have different names, where
  -- ClickHouse does what it documents: where it succeeds, the table is ready, every column of the shape is in
  -- the server's table with its type, the batch key is there as a String, and every column that the table had
  -- before has the type it had.
  pub ensure-new_table :
      (database namespace table : Bytes) (d : Descriptor) (ttl : Option Ttl)
      → Documented server catalog t
      → DistinctNames d.fields
      → new_table database namespace table d ttl ≡ ok t
      → (t' : Table) (s s' : S) → ensure server t s ≡ (ok t', s')
      → (t' ≡ ready_of t)
        × All (Has (catalog s')) (declared_columns d.fields ++ key_column ∷ [])
        × Keeps (catalog s) (catalog s')
  ensure-new_table database namespace table d ttl docs apart made t' s s' h =
      let (unready, cols, distinct, given, valid) =
        new_table_inv database namespace table d ttl t apart made in
      let (ready, has, keeps) = ensure-Has docs distinct unready t' s s' h in
      (ready, subst (All (Has (catalog s'))) cols has, keeps)
