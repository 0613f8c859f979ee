-- ===== src/Canon/Batch.antt =====
-- internal/canon/batch.go: a batch's content hash. The hash state is the bytes written to it so far;
-- SHA-256 with its hex rendering is the parameter `sha256_hex`.
pub mod Identity
use icelake.Prelude.{ℕ, zero, suc, pos, List, [], ◌∷◌, ◌++◌, length, ltb, be32, be64}
use icelake.Errdef.{
  Bytes, Error, encoding_error, value, empty_batch, Result, ok, err, refuse_if, ◌>>=◌, ◌>>◌,
}
use icelake.Canon.Shape.{Descriptor, max_value_bytes}

-- "icelake/batch/v1\n"
abbrev pub batch_domain : Bytes
batch_domain =
    b'i' ∷ b'c' ∷ b'e' ∷ b'l' ∷ b'a' ∷ b'k' ∷ b'e' ∷ b'/' ∷ b'b' ∷ b'a' ∷ b't' ∷ b'c' ∷ b'h' ∷ b'/'
    ∷ b'v' ∷ b'1' ∷ 10 ∷ []

abbrev pub too_long : Bytes → Error
too_long table = encoding_error value table [] (pos 0)

-- `writeChunk`: the length as a uint32, then the bytes.
unfoldable pub write_chunk : Bytes → Bytes → Bytes
write_chunk h b = (h ++ be32 (length b)) ++ b

-- The guard on a length, then the chunk, as the source does for each of its inputs.
unfoldable pub write_checked : Bytes → Bytes → Bytes → Result Bytes
write_checked table h b = do
  refuse_if (ltb max_value_bytes (length b)) (too_long table)
  ok (write_chunk h b)

unfoldable pub write_payloads : Bytes → Bytes → List Bytes → Result Bytes
write_payloads table h [] = ok h
write_payloads table h (p ∷ ps) = do h' ← write_checked table h p; write_payloads table h' ps

-- Everything that is written to the hash.
unfoldable pub preimage : Bytes → Bytes → Descriptor → List Bytes → Result Bytes
preimage namespace table d payloads = do
  h1 ← write_checked table batch_domain namespace
  h2 ← write_checked table h1 table
  h3 ← write_checked table h2 d.encoded
  write_payloads table (h3 ++ be64 (length payloads)) payloads

unfoldable pub refuse_empty : Bytes → List Bytes → Result (Unit {0})
refuse_empty table [] = err (encoding_error empty_batch table [] (pos 0))
refuse_empty table (p ∷ ps) = ok tt

module _ (sha256_hex : Bytes → Bytes) where
  unfoldable pub batch_hash : Bytes → Bytes → Descriptor → List Bytes → Result Bytes
  batch_hash namespace table d payloads = do
    refuse_empty table payloads
    h ← preimage namespace table d payloads
    ok (sha256_hex h)
