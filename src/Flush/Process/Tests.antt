-- ===== src/Flush/Process/Tests.antt =====
-- Concrete runs of process of internal/flush/flush.go, and its theorems at one batch of one record.
use icelake.Prelude.{
  ◌≡◌, ◌⊎◌, refl, Bool, true, false, none, List, [], ◌∷◌, if◌then◌else◌, bytes_eq, bytes_eq_refl,
}
use icelake.Errdef.{Bytes, ok, ok-injective, staging_error, write}
use icelake.Canon.Tests.{toy_hash, table, shape}
use icelake.Staging.Store.Tests.{store_code, one_row}
use icelake.Flush.Worker.{Job, new_job}
use icelake.Flush.Cycle.{failure_none, Attempt}
use icelake.Flush.Prepare.{
  halt, failed, Faults, find_shape, descriptor, decode_sealed, decode_rows, recode, recode_rows,
  decode_payloads, decode_recoded, seal_under, seal_recoded, prepare_unsealed, prepare_sealed,
  prepare,
}
use icelake.Flush.Prepare.Sealing.{SealedOr}
use icelake.Flush.Process.{
  Destination, World, PruneFaults, prune, settle, deliver, write_file, check_committed, land,
  process,
}
use icelake.Flush.Process.Gone.{Stands, prune_gone}
use icelake.Flush.Process.Durable.{IsDurable, IsSafe, process_durable}

-- The catalog is the list of the keys of its files.
in_catalog : Bytes → List Bytes → Bool
in_catalog key [] = false
in_catalog key (k ∷ keys) = if bytes_eq k key then true else in_catalog key keys

unfoldable process_code : Unit {0}
unfolding store_code bytes_eq find_shape descriptor decode_sealed decode_rows recode recode_rows
    decode_payloads decode_recoded seal_under seal_recoded prepare_unsealed prepare_sealed prepare
    prune settle deliver write_file check_committed land process in_catalog
process_code = tt

abbrev catalog : Destination (List Bytes)
catalog = record {
  local_only = false;
  encode_file = λ rows. ok (b'f' ∷ []);
  mirror = λ key rows keys. keys;
  spool = none;
  already_committed = λ key keys. (ok (in_catalog key keys), keys);
  upload = λ key body keys. (ok tt, keys);
  commit = λ key keys. (ok tt, key ∷ keys);
}

abbrev InTable : Bytes → List Bytes → Type 0
InTable key keys = in_catalog key keys ≡ true

abbrev InCache : Bytes → List Bytes → Type 0
InCache key keys = ⊥

catalog-IsDurable : IsDurable catalog InTable InCache
unfolding in_catalog
catalog-IsDurable = record {
  checked = λ key e h. ok-injective h;
  landed = λ key e u h. rw (bytes_eq_refl key) refl;
  kept = λ s key other e h t. absurd (cc h);
  local = λ h. absurd (cc h);
  cached = λ s key body e u h w. absurd (cc h);
}

abbrev answers : Faults
answers = record { row_fails = λ id. false; schema_fails = λ fp. false; seal_fails = false }

abbrev prunes : PruneFaults
prunes = record { delete_fails = false; prune_fails = false }

abbrev job : Job
job =
    new_job
      (record { key = []; rows = record { id = 1; schema_fp = shape.fp; byte_len = 17 } ∷ [] }) 1
      false

abbrev world : World (List Bytes)
world = record { held = record { store = one_row; shapes = [] }; env = [] }

abbrev first_attempt : Attempt (World (List Bytes))
first_attempt = process catalog prunes toy_hash (b'n' ∷ []) table shape answers job world

batch_landed : first_attempt.kind ≡ failure_none
unfolding process_code
batch_landed = refl

rows_pruned : first_attempt.state.held.store.staging ≡ []
unfolding process_code
rows_pruned = refl

process_durable_example :
    SealedOr toy_hash (b'n' ∷ []) table shape answers one_row first_attempt.state.held.store
    ⊎ IsSafe catalog prunes InTable InCache catalog-IsDurable first_attempt.key
        first_attempt.state.env
process_durable_example =
    process_durable catalog prunes InTable InCache catalog-IsDurable toy_hash (b'n' ∷ []) table
      shape answers job world

abbrev breaks : PruneFaults
breaks = record { delete_fails = false; prune_fails = true }

prune_gone_example :
    ((prune catalog breaks (1 ∷ []) world).0 ≡ halt (failed (staging_error write)))
    × Stands catalog prunes toy_hash
        (b'n' ∷ [])
        table
        shape
        answers
        job
        (prune catalog breaks (1 ∷ []) world).1
prune_gone_example =
    prune_gone catalog prunes toy_hash (b'n' ∷ []) table shape answers breaks
      (record { id = 1; schema_fp = shape.fp; byte_len = 17 }) [] world job refl refl refl
