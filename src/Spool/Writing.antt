-- ===== src/Spool/Writing.antt =====
-- internal/spool/spool.go: `Write`, on the rows and on the files.
use icelake.Prelude.{ℕ, ◌≡◌, refl, ℤ, Bool, ◌⊎◌, inl, inr, In}
use icelake.Errdef.{Bytes, Error, ok, err, spool_error, record_failed, write_failed}
use icelake.Canon.Shape.{Descriptor}
use icelake.Staging.Spool.{SpoolEntry, entry_of}
use icelake.Spool.{
  Cache, WriteOutcome, written, not_written, not_flushed, wrapped, record_of, spool_write,
}
use icelake.Staging.Spool.Recording.{
  IsRecorded, Remains, upsert_file-IsRecorded, upsert_file-Remains, record_spool_file-Recorded,
}

-- A write of a batch either returns an error and leaves the rows as they were, or it succeeds, with
-- the file under its final name and a row with its key, shape and size.
pub spool_write_cases :
    (outcome : WriteOutcome) (fails : Bool) (namespace table key : Bytes) (d : Descriptor) (len : ℕ)
    (now : ℤ) (c : Cache)
    → ((e : Error) × ((spool_write outcome fails namespace table key d len now c).0 ≡ err e)
        × ((spool_write outcome fails namespace table key d len now c).1.db ≡ c.db))
      ⊎ (((spool_write outcome fails namespace table key d len now c).0 ≡ ok tt)
          × In
              (record { namespace = namespace; table_name = table; batch_key = key })
              (spool_write outcome fails namespace table key d len now c).1.files
          × IsRecorded key d len
              (spool_write outcome fails namespace table key d len now c).1.db.spool_files)
unfolding spool_write wrapped
spool_write_cases not_written fails namespace table key d len now c =
    inl (spool_error write_failed key, refl, refl)
spool_write_cases not_flushed fails namespace table key d len now c =
    inl (spool_error write_failed key, refl, refl)
spool_write_cases written fails namespace table key d len now c =
    elim (record_spool_file-Recorded fails (record_of namespace table key d len now) d c.db refl) [
      | inl (e, refused) ↦ inl (spool_error record_failed key, rw refused refl, rw refused refl)
      | inr done ↦ inr (
        rw done refl,
        inl refl,
        rw done (
            upsert_file-IsRecorded (entry_of (record_of namespace table key d len now) d)
              c.db.spool_files),
      )
    ]

-- After a write of any batch, whatever it returns, every row that was there is still there with its
-- key, its age and its committed mark.
pub spool_write-Remains :
    (outcome : WriteOutcome) (fails : Bool) (namespace table key : Bytes) (d : Descriptor) (len : ℕ)
    (now : ℤ) (c : Cache) (f : SpoolEntry)
    → In f c.db.spool_files
    → Remains f (spool_write outcome fails namespace table key d len now c).1.db.spool_files
unfolding spool_write
spool_write-Remains not_written fails namespace table key d len now c f there =
    (f, there, refl, refl, refl)
spool_write-Remains not_flushed fails namespace table key d len now c f there =
    (f, there, refl, refl, refl)
spool_write-Remains written fails namespace table key d len now c f there =
    elim (record_spool_file-Recorded fails (record_of namespace table key d len now) d c.db refl) [
      | inl (e, refused) ↦ rw refused (f, there, refl, refl, refl)
      | inr done ↦ rw done (
          upsert_file-Remains (entry_of (record_of namespace table key d len now) d) f
            c.db.spool_files there)
    ]
