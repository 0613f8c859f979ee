-- ===== src/Staging/Spool/Tests.antt =====
-- Concrete runs of internal/staging/spool.go, and its theorems at a database with one file.
use icelake.Prelude.{◌≡◌, refl, subst, pos, true, false, some, [], ◌∷◌, arith, bytes_eq}
use mathlib.Core.Option.{some-injective}
use icelake.Errdef.{Bytes, ok, err, staging_error, write}
use icelake.Canon.Shape.{Field, Descriptor, long, is_decimal, known_kind}
use icelake.Canon.Columns.{is_empty}
use icelake.Canon.Columns.Layout.{descriptor_layout}
use icelake.Canon.Descriptor.{fingerprint}
use icelake.Canon.Descriptor.Canonical.{IsCanonical}
use icelake.Staging.Spool.{
  Database, SpoolRecord, unix_milli, upsert_schema, upsert_file, entry_of, record_rows,
  record_spool_file, mark_files, mark_spool_committed, delete_files, delete_spool_file,
  is_referenced, keep_referenced, prune_spool_schemas, find_schema, spool_schema,
}
use icelake.Staging.Spool.Consistent.{
  empty_database, IsConsistent, recorded, Reached, created, after, Reached-IsConsistent,
}

unfoldable all_code : Unit {0}
unfolding bytes_eq is_empty unix_milli upsert_schema upsert_file record_rows record_spool_file
    mark_files mark_spool_committed delete_files delete_spool_file is_referenced keep_referenced
    prune_spool_schemas find_schema spool_schema is_decimal known_kind
all_code = tt

abbrev toy_hash : Bytes → Bytes
toy_hash b = b

abbrev column : Field
column = record {
  id = pos 1;
  name = b'a' ∷ [];
  kind = long;
  precision = pos 0;
  scale = pos 0;
  required = true;
}

abbrev shape : Descriptor
shape = record {
  fields = column ∷ [];
  encoded = descriptor_layout (column ∷ []);
  fp = fingerprint toy_hash (descriptor_layout (column ∷ []));
}

shape-IsCanonical : IsCanonical toy_hash shape
unfolding all_code
shape-IsCanonical = record {
  nonempty = omega arith;
  few = omega arith;
  valid = (
    record {
      id_low = omega arith;
      id_high = omega arith;
      named = omega arith;
      short = omega arith;
      known = refl;
      digits = (refl, refl);
    },
    tt,
  );
  ascends = (omega arith, tt);
  bytes = refl;
  named = refl;
}

abbrev file : SpoolRecord
file = record {
  namespace = b'n' ∷ [];
  table_name = b't' ∷ [];
  batch_key = b'k' ∷ [];
  descriptor = some shape;
  byte_len = 10;
  created_at = pos 5000000;
}

abbrev nameless : SpoolRecord
nameless = record {
  namespace = [];
  table_name = b't' ∷ [];
  batch_key = b'k' ∷ [];
  descriptor = some shape;
  byte_len = 10;
  created_at = pos 5000000;
}

abbrev one_file : Database
one_file = record {
  spool_files = entry_of file shape ∷ [];
  spool_schemas = (shape.fp, shape.encoded) ∷ [];
}

file_recorded : record_spool_file false file empty_database ≡ (ok tt, one_file)
unfolding all_code
file_recorded = refl

nameless_refused :
    record_spool_file false nameless empty_database ≡ (err (staging_error write), empty_database)
unfolding all_code
nameless_refused = refl

one_file-Reached : Reached toy_hash one_file
unfolding all_code
one_file-Reached = after created (
    recorded false file empty_database
      (λ d e. subst (IsCanonical toy_hash) (some-injective shape d e) shape-IsCanonical))

Reached-IsConsistent_example : IsConsistent toy_hash one_file
Reached-IsConsistent_example = Reached-IsConsistent toy_hash one_file-Reached
