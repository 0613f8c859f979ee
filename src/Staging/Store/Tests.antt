-- ===== src/Staging/Store/Tests.antt =====
-- Concrete runs of internal/staging/store.go, and its theorems at a store with one row.
use icelake.Prelude.{
  ◌≡◌, ◌⊎◌, refl, subst, pos, true, false, none, some, List, [], ◌∷◌, bytes_eq, Bool, if◌then◌else◌,
}
use mathlib.Core.Option.{some-injective}
use icelake.Errdef.{Error, ok, err, staging_error, write, state}
use icelake.Canon.Shape.{Descriptor}
use icelake.Canon.Tests.{all_code, toy_hash, table, shape, payload, shape-IsCanonical}
use icelake.Canon.Descriptor.Canonical.{IsCanonical}
use icelake.Staging.Spool.{unix_milli, upsert_schema, find_schema}
use icelake.Staging.Store.{
  StagingRow, StagingStore, AppendRow, checked_rows, staged, staged_row, is_recorded, insert_rows,
  append_batch, append, get_row, rows,
}
use icelake.Staging.Store.Sealing.{SealRequest, seal_row, seal_rows, seal_all, guarded, seal}
use icelake.Staging.Store.Leaving.{
  has_id, delete_row, delete_rows, delete, mark_row, mark_rows, add_member, gather, count_batch,
  check_counts, check_whole_batches, quarantine_all, quarantine, is_named, keep_named,
  prune_schemas, schema, staged_totals, counters,
}
use icelake.Staging.Store.Sealed.{IsSealed, seal_cases}
use icelake.Staging.Store.Sound.{
  empty_store, IsSound, Reached, created, after, appended, Reached-IsSound,
}

unfoldable pub store_code : Unit {0}
unfolding all_code bytes_eq unix_milli upsert_schema find_schema checked_rows is_recorded
    insert_rows append_batch append get_row rows seal_row seal_rows seal_all guarded seal has_id
    delete_row delete_rows delete mark_row mark_rows add_member gather count_batch check_counts
    check_whole_batches quarantine_all quarantine is_named keep_named prune_schemas schema
    staged_totals counters
store_code = tt

abbrev pub record_a : AppendRow
record_a = record {
  namespace = b'n' ∷ [];
  table = table;
  descriptor = some shape;
  payload = payload;
  created_at = pos 5000000;
}

-- A record whose payload is empty.
abbrev hollow : AppendRow
hollow = record {
  namespace = b'n' ∷ [];
  table = table;
  descriptor = some shape;
  payload = [];
  created_at = pos 5000000;
}

abbrev pub one_row : StagingStore
one_row = record {
  staging = staged record_a shape 1 ∷ [];
  staging_schemas = (shape.fp, shape.encoded) ∷ [];
  last_id = 1;
}

abbrev request_1 : SealRequest
request_1 = record {
  namespace = b'n' ∷ [];
  table = table;
  batch_key = b'k' ∷ [];
  descriptor = some shape;
  rows = record { id = 1; payload = none } ∷ [];
}

-- The row of `record_a` under a key, quarantined or not.
abbrev pub keyed_row : Bool → StagingRow
keyed_row marked = record {
  id = 1;
  namespace = b'n' ∷ [];
  table_name = table;
  batch_key = some (b'k' ∷ []);
  schema_fp = shape.fp;
  payload = payload;
  byte_len = 17;
  created_at = pos 5;
  quarantined_at = if marked then some (pos 7) else none;
  quarantine_error = if marked then some (b'e' ∷ []) else none;
}

abbrev pub store_of : List StagingRow → StagingStore
store_of rs = record { staging = rs; staging_schemas = (shape.fp, shape.encoded) ∷ []; last_id = 2 }

record_appended : append_batch false (record_a ∷ []) empty_store ≡ (ok (1 ∷ []), one_row)
unfolding store_code
record_appended = refl

hollow_refused :
    append_batch false (record_a ∷ hollow ∷ []) empty_store
    ≡ (err (staging_error write), empty_store)
unfolding store_code
hollow_refused = refl

id_of_appended : (append false record_a one_row).0 ≡ ok (some 2)
unfolding store_code
id_of_appended = refl

row_read : rows (λ id. false) (1 ∷ []) one_row ≡ ok (staged_row (staged record_a shape 1) ∷ [])
unfolding store_code
row_read = refl

gone_row_refused : rows (λ id. false) (2 ∷ []) one_row ≡ err (staging_error state)
unfolding store_code
gone_row_refused = refl

row_sealed : (seal false request_1 one_row).1.staging ≡ keyed_row false ∷ []
unfolding store_code
row_sealed = refl

sealed_again_refused :
    (seal false request_1 (store_of (keyed_row false ∷ []))).0 ≡ err (staging_error state)
unfolding store_code
sealed_again_refused = refl

row_quarantined :
    quarantine false (pos 7000000) (b'e' ∷ []) (1 ∷ []) (store_of (keyed_row false ∷ []))
    ≡ (ok tt, store_of (keyed_row true ∷ []))
unfolding store_code
row_quarantined = refl

first_mark_stands :
    quarantine false (pos 9000000) [] (1 ∷ []) (store_of (keyed_row true ∷ []))
    ≡ (ok tt, store_of (keyed_row true ∷ []))
unfolding store_code
first_mark_stands = refl

row_deleted : (delete false (1 ∷ 5 ∷ []) one_row).1.staging ≡ []
unfolding store_code
row_deleted = refl

shape_pruned : (prune_schemas false (delete false (1 ∷ []) one_row).1).1.staging_schemas ≡ []
unfolding store_code
shape_pruned = refl

shape_read : schema toy_hash false shape.fp one_row ≡ ok shape
unfolding store_code
shape_read = refl

rows_counted : counters false one_row ≡ ok (record { records = 1; bytes = 17 })
unfolding store_code
rows_counted = refl

pub one_row-Reached : Reached toy_hash one_row
unfolding store_code
one_row-Reached = after created (
    appended false (record_a ∷ []) empty_store
      (λ d e. subst (IsCanonical toy_hash) (some-injective shape d e) shape-IsCanonical, tt))

Reached-IsSound_example : IsSound toy_hash one_row
Reached-IsSound_example = Reached-IsSound toy_hash one_row-Reached

seal_cases_example :
    ((e : Error) × (seal false request_1 one_row ≡ (err e, one_row)))
    ⊎ ((d : Descriptor) × ((seal false request_1 one_row).0 ≡ ok tt)
        × IsSealed request_1 d one_row (seal false request_1 one_row).1)
seal_cases_example = seal_cases false request_1 one_row
