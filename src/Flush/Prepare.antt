-- ===== src/Flush/Prepare.antt =====
-- internal/flush/flush.go: prepare and the cache of shapes. An attempt halts on a failure of the batch's own
-- content, which flush.go marks `unencodable`, or of what surrounds it.
pub mod Sealing
use icelake.Prelude.{
  ℕ, Bool, true, false, not, Option, none, some, List, [], ◌∷◌, if◌then◌else◌, bytes_eq,
}
use icelake.Errdef.{Bytes, Error, Result, ok, err}
use icelake.Canon.Shape.{Descriptor}
use icelake.Canon.Columns.{is_empty}
use icelake.Canon.Record.{Row, decode}
use icelake.Canon.Remap.{remap, transcode}
use icelake.Canon.Batch.{batch_hash}
use icelake.Staging.Store.{StagingStore, StagedRow, rows}
use icelake.Staging.Store.Sealing.{SealRow, SealRequest, seal}
use icelake.Staging.Store.Leaving.{schema}
use icelake.Staging.Index.{PendingRow}
use icelake.Flush.Worker.{Batch}
use icelake.Flush.Cycle.{ids_of}

pub data Failure : Type 0 where
  unencodable failed : Error → Failure

pub data Tried (A : Type 0) : Type 0 where
  halt : Failure → Tried A
  went : A → Tried A

-- The store and the shapes that the worker has read from it.
pub record Held : Type 0 where
  pub store : StagingStore
  pub shapes : List (Bytes × Descriptor)

abbrev pub Run : Type 0 → Type 0 → Type 0
Run S A = S → Tried A × S

module _ {S : Type 0} {A B : Type 0} where
  -- `v, err := step; if err != nil { return err }`
  abbrev pub follow : (A → Run S B) → Tried A × S → Tried B × S
  follow next (halt f, s) = (halt f, s)
  follow next (went a, s) = next a s

  infixl 5 ◌>>=◌
  abbrev pub ◌>>=◌ : Run S A → (A → Run S B) → Run S B
  (step >>= next) s = follow next (step s)

abbrev pub return : {S A : Type 0} → A → Run S A
return a s = (went a, s)

-- An error of the database or of another party, and one that is the content's.
abbrev pub tried_as : {A : Type 0} → (Error → Failure) → Result A → Tried A
tried_as mark (err e) = halt (mark e)
tried_as mark (ok a) = went a

abbrev pub content : {S A : Type 0} → Result A → Run S A
content r s = (tried_as unencodable r, s)

-- Which statements the database does not answer.
pub record Faults : Type 0 where
  pub row_fails : ℕ → Bool
  pub schema_fails : Bytes → Bool
  pub seal_fails : Bool

unfoldable pub find_shape : Bytes → List (Bytes × Descriptor) → Option Descriptor
find_shape fp [] = none
find_shape fp (s ∷ shapes) = if bytes_eq s.0 fp then some s.1 else find_shape fp shapes

pub record Prepared : Type 0 where
  pub key : Bytes
  pub rows : List Row
  pub ids : List ℕ

-- A row and those behind it, of which the first that does not decode counts.
abbrev and_then : Result Row → Result (List Row) → Result (List Row)
and_then (err e) rest = err e
and_then (ok row) (err e) = err e
and_then (ok row) (ok rest) = ok (row ∷ rest)

module _ (sha256_hex : Bytes → Bytes) (namespace table : Bytes) (current : Descriptor)
    (faults : Faults) where
  abbrev pub loaded : Bytes → Held → Result Descriptor → Tried Descriptor × Held
  loaded fp h (err e) = (halt (failed e), h)
  loaded fp h (ok d) = (went d, record { store = h.store; shapes = (fp, d) ∷ h.shapes })

  unfoldable pub descriptor : Bytes → Run Held Descriptor
  descriptor fp h = elim (find_shape fp h.shapes) [
    | some d ↦ (went d, h)
    | none ↦ loaded fp h (schema sha256_hex (faults.schema_fails fp) fp h.store)
  ]

  -- A row of a batch that was sealed before.
  unfoldable pub decode_sealed : StagedRow → Run Held Row
  decode_sealed r = do
    recorded ← descriptor r.schema_fp
    row ← content (decode table recorded r.payload)
    if bytes_eq recorded.fp current.fp
        then return row
        else content (remap table recorded current row)

  unfoldable pub decode_rows : List StagedRow → Run Held (List Row)
  decode_rows [] = return []
  decode_rows (r ∷ staged) = do
    row ← decode_sealed r
    rest ← decode_rows staged
    return (row ∷ rest)

  -- A row of a batch that is sealed now, with its part of the seal and its payload.
  unfoldable pub recode : StagedRow → Run Held (SealRow × Bytes)
  recode r =
      if bytes_eq r.schema_fp current.fp
      then return (record { id = r.id; payload = none }, r.payload)
      else do
        recorded ← descriptor r.schema_fp
        recoded ← content (transcode table recorded current r.payload)
        return (record { id = r.id; payload = some recoded }, recoded)

  unfoldable pub recode_rows : List StagedRow → Run Held (List SealRow × List Bytes)
  recode_rows [] = return ([], [])
  recode_rows (r ∷ staged) = do
    row ← recode r
    rest ← recode_rows staged
    return (row.0 ∷ rest.0, row.1 ∷ rest.1)

  unfoldable pub decode_payloads : List Bytes → Result (List Row)
  decode_payloads [] = ok []
  decode_payloads (p ∷ payloads) = and_then (decode table current p) (decode_payloads payloads)

  abbrev pub request : Bytes → List SealRow → SealRequest
  request key seal_rows = record {
    namespace = namespace;
    table = table;
    batch_key = key;
    descriptor = some current;
    rows = seal_rows;
  }

  abbrev pub read_rows : List ℕ → Run Held (List StagedRow)
  read_rows ids h = (tried_as failed (rows faults.row_fails ids h.store), h)

  abbrev pub seal_batch : SealRequest → Run Held (Unit {0})
  seal_batch req h =
      let out = seal faults.seal_fails req h.store in
      (tried_as failed out.0, record { store = out.1; shapes = h.shapes })

  -- The rows of the batch, as they would be read after a crash.
  unfoldable pub decode_recoded : List ℕ → Bytes → List Bytes → Run Held Prepared
  decode_recoded ids key payloads = do
    decoded ← content (decode_payloads payloads)
    return (record { key = key; rows = decoded; ids = ids })

  unfoldable pub seal_under : List ℕ → List SealRow × List Bytes → Bytes → Run Held Prepared
  seal_under ids recoded key = do
    stamped ← seal_batch (request key recoded.0)
    decode_recoded ids key recoded.1

  unfoldable pub seal_recoded : List ℕ → List SealRow × List Bytes → Run Held Prepared
  seal_recoded ids recoded = do
    key ← content (batch_hash sha256_hex namespace table current recoded.1)
    seal_under ids recoded key

  unfoldable pub prepare_unsealed : List ℕ → List StagedRow → Run Held Prepared
  prepare_unsealed ids staged = do recoded ← recode_rows staged; seal_recoded ids recoded

  unfoldable pub prepare_sealed : Bytes → List ℕ → List StagedRow → Run Held Prepared
  prepare_sealed key ids staged = do
    decoded ← decode_rows staged
    return (record { key = key; rows = decoded; ids = ids })

  unfoldable pub prepare : Batch → Run Held Prepared
  prepare b = do
    staged ← read_rows (ids_of b.rows)
    if is_empty b.key
        then prepare_unsealed (ids_of b.rows) staged
        else prepare_sealed b.key (ids_of b.rows) staged
