-- ===== src/Canon/Tests/Shapes.antt =====
-- The theorems on the shapes and batch keys of internal/canon at concrete inputs.
use icelake.Prelude.{◌≡◌, ◌⊎◌, refl, [], ◌∷◌, ◌++◌, arith}
use icelake.Errdef.{Bytes, ok}
use icelake.Canon.Hash.{Collide}
use icelake.Canon.Descriptor.Canonical.{parse_descriptor-encoded}
use icelake.Canon.Descriptor.Identity.{from_fields_perm, fingerprint_identity}
use icelake.Canon.Batch.Identity.{batch_hash_identity}
use mathlib.Core.List.Permᴰ
use icelake.Canon.Descriptor.{fingerprint_domain}
use icelake.Canon.Batch.Identity.{batch_layout}
use icelake.Canon.Columns.{decode_descriptor}
use icelake.Canon.Descriptor.{fingerprint, parse_descriptor, from_fields}
use icelake.Canon.Batch.{batch_hash}
use icelake.Canon.Tests.{
  all_code, toy_hash, table, fields, bytes_of_fields, shape, nested_a, nested_b, nested_c, payload,
  shape_described, batch_hashed, shape-IsCanonical,
}

fingerprint_identity_example :
    (shape ≡ shape)
    ⊎ Collide toy_hash (fingerprint_domain ++ shape.encoded) (fingerprint_domain ++ shape.encoded)
fingerprint_identity_example =
    fingerprint_identity toy_hash table table (nested_c ∷ nested_a ∷ nested_b ∷ [])
      (nested_c ∷ nested_a ∷ nested_b ∷ []) shape shape shape_described shape_described refl

from_fields_perm_example :
    from_fields toy_hash table (nested_a ∷ nested_c ∷ nested_b ∷ []) ≡ ok shape
from_fields_perm_example =
    from_fields_perm toy_hash table (nested_c ∷ nested_a ∷ nested_b ∷ [])
      (nested_a ∷ nested_c ∷ nested_b ∷ []) shape (Permᴰ.swap refl refl) shape_described

parse_descriptor-encoded_example : parse_descriptor toy_hash bytes_of_fields ≡ ok shape
parse_descriptor-encoded_example = parse_descriptor-encoded toy_hash shape shape-IsCanonical

batch_hash_identity_example :
    ((table ≡ table)
      × (table ≡ table)
      × (bytes_of_fields ≡ bytes_of_fields)
      × (payload ∷ [] ≡ payload ∷ []))
    ⊎ Collide toy_hash
        (batch_layout table table bytes_of_fields (payload ∷ []))
        (batch_layout table table bytes_of_fields (payload ∷ []))
batch_hash_identity_example =
    batch_hash_identity toy_hash table table table table shape shape (payload ∷ []) (payload ∷ [])
      (batch_layout table table bytes_of_fields (payload ∷ [])) (omega arith) (omega arith)
      batch_hashed batch_hashed

columns_decoded : decode_descriptor bytes_of_fields ≡ ok fields
unfolding all_code
columns_decoded = refl

-- A hash of one value, under which every hypothesis about equal digests holds.
abbrev constant_hash : Bytes → Bytes
constant_hash b = []

constant_batch : batch_hash constant_hash table table shape (payload ∷ []) ≡ ok []
unfolding all_code
constant_batch = refl

constant_fingerprint : [] ≡ fingerprint constant_hash bytes_of_fields
unfolding all_code
constant_fingerprint = refl
