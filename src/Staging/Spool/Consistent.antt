-- ===== src/Staging/Spool/Consistent.antt =====
-- internal/staging/spool.go: the states that the store's operations reach.
use icelake.Prelude.{
  ◌≡◌, refl, sym, ap, ◌∙◌, ℤ, Bool, true, false, Bool-cases, inl, inr, Option, none, some, [], In,
  All, ◌||◌,
}
use icelake.Errdef.{Bytes, Result, ok, err, staging_error, write}
use icelake.Canon.Shape.{Descriptor}
use icelake.Canon.Columns.{is_empty}
use icelake.Canon.Descriptor.{parse_descriptor}
use icelake.Canon.Descriptor.Canonical.{IsCanonical, parse_descriptor-encoded}
use icelake.Staging.Spool.{
  SpoolEntry, Database, SpoolRecord, record_rows, record_spool_file, mark_spool_committed,
  delete_spool_file, prune_spool_schemas, spool_schema,
}
use icelake.Staging.Spool.Keeps.{
  Unique, HasSchema, upsert_schema_keeps, upsert_schema_has, upsert_file-Unique, upsert_file-All,
  All-map, All-both, In-All, mark_files-Unique, mark_files-All, delete_files-Unique,
  delete_files-All, All-is_referenced, keep_referenced_has, keep_referenced-All, upsert_schema-All,
  find_schema-All,
}

-- The database before the first record.
abbrev pub empty_database : Database
empty_database = record { spool_files = []; spool_schemas = [] }

module _ (sha256_hex : Bytes → Bytes) where
  -- A row of spool_schemas holds a canonical descriptor under its fingerprint.
  abbrev pub IsShape : Bytes × Bytes → Type 0
  IsShape s = (d : Descriptor) × IsCanonical sha256_hex d × (s ≡ (d.fp, d.encoded))

  pub record IsConsistent (db : Database) : Type 0 where
    pub unique : Unique db.spool_files
    shaped : All (λ f. HasSchema db.spool_schemas f.schema_fp) db.spool_files
    pub shapes : All IsShape db.spool_schemas

  -- A record's descriptor comes from one of canon's constructors.
  abbrev HasCanonical : SpoolRecord → Type 0
  HasCanonical r = (d : Descriptor) → r.descriptor ≡ some d → IsCanonical sha256_hex d

  -- One operation of the store, whether the database refuses it or not.
  pub data Step : Database → Database → Type 0 where
    recorded :
        (fails : Bool) (r : SpoolRecord) (db : Database)
        → HasCanonical r
        → Step db (record_spool_file fails r db).1
    committed :
        (fails : Bool) (key : Bytes) (at : ℤ) (db : Database)
        → Step db (mark_spool_committed fails key at db).1
    deleted :
        (fails : Bool) (key : Bytes) (db : Database) → Step db (delete_spool_file fails key db).1
    pruned : (fails : Bool) (db : Database) → Step db (prune_spool_schemas fails db).1

  -- The states that any sequence of operations reaches from the empty database.
  pub data Reached : Database → Type 0 where
    created : Reached empty_database
    after : {db db' : Database} → Reached db → Step db db' → Reached db'

  record_rows-IsConsistent :
      (fails : Bool) (r : SpoolRecord) (d : Descriptor) (db : Database)
      → IsCanonical sha256_hex d
      → IsConsistent db
      → IsConsistent (record_rows fails r d db).1
  unfolding record_rows
  record_rows-IsConsistent true r d db c h = h
  record_rows-IsConsistent false r d db c h = record {
    unique = upsert_file-Unique _ db.spool_files h.unique;
    shaped =
        upsert_file-All _ _ db.spool_files (upsert_schema_has d.fp d.encoded db.spool_schemas) (
          All-map _ _ db.spool_files
            (λ f. upsert_schema_keeps d.fp d.encoded f.schema_fp db.spool_schemas) h.shaped);
    shapes = upsert_schema-All IsShape d.fp d.encoded db.spool_schemas (d, c, refl) h.shapes;
  }

  record_spool_file-IsConsistent :
      (fails : Bool) (r : SpoolRecord) (db : Database)
      → HasCanonical r
      → IsConsistent db
      → IsConsistent (record_spool_file fails r db).1
  unfolding record_spool_file
  record_spool_file-IsConsistent fails r db c h =
      elim (Bool-cases (is_empty r.namespace || is_empty r.table_name || is_empty r.batch_key)) [
        | inl bad ↦ rw bad h
        | inr good ↦ rw good (split r.descriptor refl)
      ]
    where
      split :
          (o : Option Descriptor)
          → r.descriptor ≡ o
          → IsConsistent
              (elim o as (λ _. Result (Unit {0}) × Database) [
                | none ↦ (err (staging_error write), db)
                | some d ↦ record_rows fails r d db
              ]).1
      split none e = h
      split (some d) e = record_rows-IsConsistent fails r d db (c d e) h

  mark_spool_committed-IsConsistent :
      (fails : Bool) (key : Bytes) (at : ℤ) (db : Database)
      → IsConsistent db
      → IsConsistent (mark_spool_committed fails key at db).1
  unfolding mark_spool_committed
  mark_spool_committed-IsConsistent fails key at db h = elim (Bool-cases (is_empty key || fails)) [
    | inl bad ↦ rw bad h
    | inr good ↦ rw good (record {
      unique = mark_files-Unique key _ db.spool_files h.unique;
      shaped = mark_files-All _ key _ db.spool_files h.shaped;
      shapes = h.shapes;
    })
  ]

  delete_spool_file-IsConsistent :
      (fails : Bool) (key : Bytes) (db : Database)
      → IsConsistent db
      → IsConsistent (delete_spool_file fails key db).1
  unfolding delete_spool_file
  delete_spool_file-IsConsistent true key db h = h
  delete_spool_file-IsConsistent false key db h = record {
    unique = delete_files-Unique key db.spool_files h.unique;
    shaped = delete_files-All _ key db.spool_files h.shaped;
    shapes = h.shapes;
  }

  prune_spool_schemas-IsConsistent :
      (fails : Bool) (db : Database)
      → IsConsistent db
      → IsConsistent (prune_spool_schemas fails db).1
  unfolding prune_spool_schemas
  prune_spool_schemas-IsConsistent true db h = h
  prune_spool_schemas-IsConsistent false db h = record {
    unique = h.unique;
    shaped =
        All-both _ _ _ db.spool_files
          (λ f. keep_referenced_has db.spool_files f.schema_fp db.spool_schemas)
          (All-is_referenced db.spool_files) h.shaped;
    shapes = keep_referenced-All IsShape db.spool_files db.spool_schemas h.shapes;
  }

  step-IsConsistent : {db db' : Database} → Step db db' → IsConsistent db → IsConsistent db'
  step-IsConsistent (recorded fails r db c) h = record_spool_file-IsConsistent fails r db c h
  step-IsConsistent (committed fails key at db) h =
      mark_spool_committed-IsConsistent fails key at db h
  step-IsConsistent (deleted fails key db) h = delete_spool_file-IsConsistent fails key db h
  step-IsConsistent (pruned fails db) h = prune_spool_schemas-IsConsistent fails db h

  -- In every state that recording, marking, deleting and pruning reach from the empty database, in
  -- any order and with any failures, where what is recorded has canonical descriptors: no two files
  -- have one batch key, every file's shape is recorded, and every recorded shape is that of a
  -- canonical descriptor, under its fingerprint.
  pub Reached-IsConsistent : {db : Database} → Reached db → IsConsistent db
  Reached-IsConsistent created = record { unique = tt; shaped = tt; shapes = tt }
  Reached-IsConsistent (after r s) = step-IsConsistent s (Reached-IsConsistent r)

  -- In every state that recording, marking, deleting and pruning reach from the empty database, the
  -- shape of every recorded file is read back where the database answers: a descriptor with the file's
  -- fingerprint.
  spool_schema-Reached :
      {db : Database} (f : SpoolEntry)
      → Reached db
      → In f db.spool_files
      → (d : Descriptor) × (spool_schema sha256_hex false f.schema_fp db ≡ ok d)
        × (d.fp ≡ f.schema_fp)
  unfolding spool_schema
  spool_schema-Reached {db} f r there =
      let h = Reached-IsConsistent r in
      let (raw, found) =
        In-All (λ g. HasSchema db.spool_schemas g.schema_fp) db.spool_files f there h.shaped in
      let (d, c, same) = find_schema-All IsShape f.schema_fp db.spool_schemas h.shapes found in
      (
        d,
        rw found (
            ap (parse_descriptor sha256_hex) (ap (λ s. s.1) same)
            ∙ parse_descriptor-encoded sha256_hex d c),
        sym (ap (λ s. s.0) same),
      )
