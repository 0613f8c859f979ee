-- ===== src/Staging/Spool/Recording.antt =====
-- internal/staging/spool.go: what recording a file does to the rows.
use icelake.Prelude.{
  ℕ, ◌≡◌, refl, sym, ap, Bool, true, false, Bool-cases, ◌||◌, ◌⊎◌, inl, inr, some, List, [], ◌∷◌,
  In, bytes_eq, bytes_eq→eq,
}
use icelake.Errdef.{Bytes, Error, Result, ok, err, staging_error, write}
use icelake.Canon.Shape.{Descriptor}
use icelake.Canon.Columns.{is_empty}
use icelake.Staging.Spool.{
  SpoolEntry, Database, SpoolRecord, rewritten, upsert_schema, upsert_file, entry_of, record_rows,
  record_spool_file,
}

-- The row of a batch, with the shape and the size of its file.
abbrev pub IsRecorded : Bytes → Descriptor → ℕ → List SpoolEntry → Type 0
IsRecorded key d len files =
    (f : SpoolEntry) × In f files × (f.batch_key ≡ key) × (f.schema_fp ≡ d.fp) × (f.byte_len ≡ len)

pub upsert_file-IsRecorded :
    (new : SpoolEntry) (files : List SpoolEntry)
    → (f : SpoolEntry) × In f (upsert_file new files)
      × (f.batch_key ≡ new.batch_key)
      × (f.schema_fp ≡ new.schema_fp)
      × (f.byte_len ≡ new.byte_len)
unfolding upsert_file
upsert_file-IsRecorded new [] = (new, inl refl, refl, refl, refl)
upsert_file-IsRecorded new (old ∷ files) =
    elim (Bool-cases (bytes_eq old.batch_key new.batch_key)) [
      | inl same ↦ (
        rewritten old new,
        rw same (inl refl),
        bytes_eq→eq old.batch_key new.batch_key same,
        refl,
        refl,
      )
      | inr other ↦
          let (f, there, key, fp, len) = upsert_file-IsRecorded new files in
          (f, rw other (inr there), key, fp, len)
    ]

-- What a step leaves of a row that it may rewrite: its key, its age, and whether it is committed.
abbrev pub Remains : SpoolEntry → List SpoolEntry → Type 0
Remains f files =
    (g : SpoolEntry) × In g files
    × (g.batch_key ≡ f.batch_key)
    × (g.created_at ≡ f.created_at)
    × (g.committed_at ≡ f.committed_at)

pub upsert_file-Remains :
    (new f : SpoolEntry) (files : List SpoolEntry) → In f files → Remains f (upsert_file new files)
unfolding upsert_file
upsert_file-Remains new f [] there = absurd there
upsert_file-Remains new f (old ∷ files) there =
    elim (Bool-cases (bytes_eq old.batch_key new.batch_key)) [
      | inl same ↦ rw same (rewrites there)
      | inr other ↦ rw other (passes (upsert_file-Remains new f files) there)
    ]
  where
    rewrites : In f (old ∷ files) → Remains f (rewritten old new ∷ files)
    rewrites (inl here) = (
      rewritten old new,
      inl refl,
      ap (λ e. e.batch_key) (sym here),
      ap (λ e. e.created_at) (sym here),
      ap (λ e. e.committed_at) (sym here),
    )
    rewrites (inr later) = (f, inr later, refl, refl, refl)

    passes :
        (In f files → Remains f (upsert_file new files))
        → In f (old ∷ files)
        → Remains f (old ∷ upsert_file new files)
    passes more (inl here) = (f, inl here, refl, refl, refl)
    passes more (inr later) =
        let (g, there', key, age, mark) = more later in (g, inr there', key, age, mark)

-- Either the record is refused and nothing changes, or it is there.
abbrev Recorded : SpoolRecord → Descriptor → Database → Result (Unit {0}) × Database → Type 0
Recorded r d db after =
    ((e : Error) × (after ≡ (err e, db)))
    ⊎ (after ≡ (
      ok tt,
      record {
        spool_files = upsert_file (entry_of r d) db.spool_files;
        spool_schemas = upsert_schema d.fp d.encoded db.spool_schemas;
      },
    ))

record_rows-Recorded :
    (fails : Bool) (r : SpoolRecord) (d : Descriptor) (db : Database)
    → Recorded r d db (record_rows fails r d db)
unfolding record_rows
record_rows-Recorded true r d db = inl (staging_error write, refl)
record_rows-Recorded false r d db = inr refl

pub record_spool_file-Recorded :
    (fails : Bool) (r : SpoolRecord) (d : Descriptor) (db : Database)
    → r.descriptor ≡ some d
    → Recorded r d db (record_spool_file fails r db)
unfolding record_spool_file
record_spool_file-Recorded fails r d db has =
    elim (Bool-cases (is_empty r.namespace || is_empty r.table_name || is_empty r.batch_key)) [
      | inl bad ↦ rw bad (inl (staging_error write, refl))
      | inr good ↦ rw good (rw has (record_rows-Recorded fails r d db))
    ]
