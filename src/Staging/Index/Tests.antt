-- ===== src/Staging/Index/Tests.antt =====
-- Concrete runs of internal/staging/index.go, and its theorems at stores with up to three rows.
use icelake.Prelude.{◌≡◌, refl, inl, true, false, none, some, [], ◌∷◌, bytes_eq}
use icelake.Errdef.{ok, err, staging_error, state}
use icelake.Canon.Tests.{toy_hash, table, shape}
use icelake.Staging.Store.{StagingStore, TableId, staged}
use icelake.Staging.Store.Sealing.{SealRequest, seal}
use icelake.Staging.Store.Leaving.{in_batch, staged_totals}
use icelake.Staging.Store.Whole.{request_batch}
use icelake.Staging.Store.Tests.{
  store_code, record_a, one_row, keyed_row, store_of, one_row-Reached,
}
use icelake.Staging.Index.{
  Index, place, place_in, is_seen, add_rows, bump, count_of, tally, check_split, scan, group_of,
  tables_in, tables, sealed_only, unsealed_only, pending_batches, drop_group, claim,
}
use icelake.Staging.Index.Claimed.{pending, claim-scan}
use icelake.Staging.Index.Startup.{scan-Reached, scan-seal}

unfoldable index_code : Unit {0}
unfolding store_code bytes_eq place place_in is_seen add_rows bump count_of tally check_split scan
    group_of tables_in tables sealed_only unsealed_only pending_batches drop_group claim
index_code = tt

abbrev pub table_t : TableId
table_t = record { namespace = b'n' ∷ []; table = table }

-- A sealed row between two that are not.
abbrev pub mixed : StagingStore
mixed = store_of (staged record_a shape 0 ∷ keyed_row false ∷ staged record_a shape 2 ∷ [])

abbrev pub mixed_index : Index
mixed_index = record {
  counters = record { records = 3; bytes = 51 };
  order = table_t ∷ [];
  groups =
      (
        table_t,
        record {
          key = [];
          rows =
              record { id = 0; schema_fp = shape.fp; byte_len = 17 }
              ∷ record { id = 2; schema_fp = shape.fp; byte_len = 17 }
              ∷ [];
        }
            ∷ record {
              key = b'k' ∷ [];
              rows = record { id = 1; schema_fp = shape.fp; byte_len = 17 } ∷ [];
            }
            ∷ [],
      )
      ∷ [];
}

pub mixed_scanned : scan false mixed ≡ ok mixed_index
unfolding index_code
mixed_scanned = refl

mixed_claimed :
    (claim table_t mixed_index).0
    ≡ record { key = b'k' ∷ []; rows = record { id = 1; schema_fp = shape.fp; byte_len = 17 } ∷ [] }
      ∷ record {
        key = [];
        rows =
            record { id = 0; schema_fp = shape.fp; byte_len = 17 }
            ∷ record { id = 2; schema_fp = shape.fp; byte_len = 17 }
            ∷ [];
      }
      ∷ []
unfolding index_code
mixed_claimed = refl

table_listed : tables mixed_index ≡ table_t ∷ []
unfolding index_code
table_listed = refl

claimed_table_gone : tables (claim table_t mixed_index).1 ≡ []
unfolding index_code
claimed_table_gone = refl

claim-scan_example :
    ((claim table_t mixed_index).0 ≡ pending table_t mixed.staging)
    × (mixed_index.counters ≡ staged_totals mixed.staging)
claim-scan_example = claim-scan table_t mixed mixed_index mixed_scanned

scan-Reached_example :
    (ix : Index) × (scan false one_row ≡ ok ix)
    × ((claim table_t ix).0 ≡ pending table_t one_row.staging)
scan-Reached_example = scan-Reached toy_hash table_t one_row-Reached

-- A quarantined row, and a live one that is sealed under the same key.
abbrev poisoned : StagingStore
poisoned = store_of (keyed_row true ∷ staged record_a shape 2 ∷ [])

abbrev request_2 : SealRequest
request_2 = record {
  namespace = b'n' ∷ [];
  table = table;
  batch_key = b'k' ∷ [];
  descriptor = some shape;
  rows = record { id = 2; payload = none } ∷ [];
}

request_2_done : (seal false request_2 poisoned).0 ≡ ok tt
unfolding index_code
request_2_done = refl

keyed_row-in_batch : in_batch (request_batch request_2) (keyed_row true) ≡ true
unfolding index_code
keyed_row-in_batch = refl

scan-seal_example : scan false (seal false request_2 poisoned).1 ≡ err (staging_error state)
scan-seal_example =
    scan-seal request_2 poisoned (keyed_row true) request_2_done (inl refl) keyed_row-in_batch refl
