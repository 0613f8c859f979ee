-- ===== src/Canon/Batch/Identity.antt =====
-- A batch key as an identity (canon/batch.go, canon/doc.go).
use icelake.Prelude.{◌≤◌, ◌<◌, ◌^◌, ◌≡◌, ◌⊎◌, inl, inr, refl, sym, ap, ◌∙◌}
use icelake.Prelude.{List, [], ◌∷◌, ◌++◌, append_assoc, append-nil, length, All, arith}
use icelake.Prelude.{
  be32, be64, length-be32, length-be64, uint32_of, uint64_of, uint32_of-be32, uint64_of-be64,
}
use icelake.Errdef.{Bytes, ok, >>=-eq-ok, ok-injective, ◌>>=◌}
use icelake.Canon.Hash.{Collide, same_or_Collide}
use icelake.Canon.Descriptor.{fingerprint, fingerprint_domain}
use icelake.Canon.Shape.{Descriptor, max_value_bytes}
use icelake.Canon.Batch.{
  batch_domain, write_chunk, write_checked, write_payloads, preimage, batch_hash,
}
use icelake.Canon.Batch.{refuse_empty}

append_injective : (a b r s : Bytes) → length a ≡ length b → a ++ r ≡ b ++ s → (a ≡ b) × (r ≡ s)
append_injective [] [] r s l e = (refl, e)
append_injective [] (y ∷ b) r s l e = absurd (omega arith)
append_injective (x ∷ a) [] r s l e = absurd (omega arith)
append_injective (x ∷ a) (y ∷ b) r s l e =
    let (same, rest) = append_injective a b r s (omega arith) (ground arith) in (ground arith, rest)

abbrev chunk : Bytes → Bytes
chunk b = be32 (length b) ++ b

chunk_injective :
    (a b r s : Bytes)
    → length a ≤ max_value_bytes
    → length b ≤ max_value_bytes
    → chunk a ++ r ≡ chunk b ++ s
    → (a ≡ b) × (r ≡ s)
chunk_injective a b r s la lb e =
    let e' = sym (append_assoc (be32 (length a)) a r) ∙ e ∙ append_assoc (be32 (length b)) b s in
    let (sizes, rest) =
      append_injective (be32 (length a)) (be32 (length b)) (a ++ r) (b ++ s)
        (length-be32 _ ∙ sym (length-be32 _)) e' in
    let l : length a ≡ length b =
      sym (uint32_of-be32 _ (omega arith)) ∙ ap uint32_of sizes ∙ uint32_of-be32 _ (omega arith) in
    append_injective a b r s l rest

abbrev Fit : Bytes → Type 0
Fit b = length b ≤ max_value_bytes

abbrev chunks : List Bytes → Bytes
chunks [] = []
chunks (p ∷ ps) = chunk p ++ chunks ps

-- What `BatchHash` hashes, as canon/doc.go documents it.
abbrev pub batch_layout : Bytes → Bytes → Bytes → List Bytes → Bytes
batch_layout namespace table encoded payloads =
    batch_domain
    ++ (chunk namespace
        ++ (chunk table ++ (chunk encoded ++ (be64 (length payloads) ++ chunks payloads))))

write_checked_inv :
    (table h b : Bytes) {h' : Bytes} → write_checked table h b ≡ ok h' → Fit b × (h' ≡ h ++ chunk b)
unfolding write_checked write_chunk
write_checked_inv table h b e = (ground arith, ground (arith, append_assoc h (be32 (length b)) b))

write_payloads_inv :
    (table h : Bytes) (ps : List Bytes) {h' : Bytes}
    → write_payloads table h ps ≡ ok h'
    → All Fit ps × (h' ≡ h ++ chunks ps)
unfolding write_payloads
write_payloads_inv table h [] e = (tt, sym (ok-injective e) ∙ sym (append-nil h))
write_payloads_inv table h (p ∷ ps) e =
    let (h1, e1, e2) = >>=-eq-ok (write_checked table h p) _ e in
    let (fit, same) = write_checked_inv table h p e1 in
    let (fits, rest) = write_payloads_inv table h1 ps e2 in
    ((fit, fits), cc (append_assoc h (chunk p) (chunks ps)))

chunks_injective :
    (ps qs : List Bytes)
    → All Fit ps
    → All Fit qs
    → length ps ≡ length qs
    → chunks ps ≡ chunks qs
    → ps ≡ qs
chunks_injective [] [] hp hq l e = refl
chunks_injective [] (q ∷ qs) hp hq l e = absurd (omega arith)
chunks_injective (p ∷ ps) [] hp hq l e = absurd (omega arith)
chunks_injective (p ∷ ps) (q ∷ qs) (hp, hps) (hq, hqs) l e =
    let (same, rest) = chunk_injective p q (chunks ps) (chunks qs) hp hq e in
    cc (chunks_injective ps qs hps hqs (omega arith) rest)

preimage_inv :
    (namespace table : Bytes) (d : Descriptor) (ps : List Bytes) {h : Bytes}
    → preimage namespace table d ps ≡ ok h
    → Fit namespace
      × Fit table
      × Fit d.encoded
      × All Fit ps
      × (h ≡ batch_layout namespace table d.encoded ps)
unfolding preimage
preimage_inv namespace table d ps {h} e =
    let (h1, e1, r1) = >>=-eq-ok (write_checked table batch_domain namespace) _ {w = h} e in
    let (h2, e2, r2) = >>=-eq-ok (write_checked table h1 table) _ {w = h} r1 in
    let (h3, e3, r3) = >>=-eq-ok (write_checked table h2 d.encoded) _ {w = h} r2 in
    let (f1, s1) = write_checked_inv table batch_domain namespace e1 in
    let (f2, s2) = write_checked_inv table h1 table e2 in
    let (f3, s3) = write_checked_inv table h2 d.encoded e3 in
    let (fs, s4) = write_payloads_inv table (h3 ++ be64 (length ps)) ps r3 in
    (
      f1,
      f2,
      f3,
      fs,
      join batch_domain (chunk namespace) (chunk table) (chunk d.encoded) (be64 (length ps))
          (chunks ps) s1 s2 s3 s4,
    )
  where
    join :
        (a b c d e g : Bytes) {h1 h2 h3 h : Bytes}
        → h1 ≡ a ++ b
        → h2 ≡ h1 ++ c
        → h3 ≡ h2 ++ d
        → h ≡ (h3 ++ e) ++ g
        → h ≡ a ++ (b ++ (c ++ (d ++ (e ++ g))))
    join a b c d e g p q r s = rw (s, r, q, p) (simp append_assoc)

-- The documented layout determines what was hashed.
batch_layout_injective :
    (ns ns' t t' d d' : Bytes) (ps qs : List Bytes)
    → Fit ns
    → Fit ns'
    → Fit t
    → Fit t'
    → Fit d
    → Fit d'
    → All Fit ps
    → All Fit qs
    → length ps < 2 ^ 63
    → length qs < 2 ^ 63
    → batch_layout ns t d ps ≡ batch_layout ns' t' d' qs
    → (ns ≡ ns') × (t ≡ t') × (d ≡ d') × (ps ≡ qs)
batch_layout_injective ns ns' t t' d d' ps qs fn fn' ft ft' fd fd' fp fq lp lq e =
    let (_, r1) = append_injective batch_domain batch_domain _ _ refl e in
    let (names, r2) = chunk_injective ns ns' _ _ fn fn' r1 in
    let (tables, r3) = chunk_injective t t' _ _ ft ft' r2 in
    let (shapes, r4) = chunk_injective d d' _ _ fd fd' r3 in
    let (counts, r5) =
      append_injective (be64 (length ps)) (be64 (length qs)) _ _
        (length-be64 _ ∙ sym (length-be64 _)) r4 in
    let l : length ps ≡ length qs =
      sym (uint64_of-be64 _ (omega arith)) ∙ ap uint64_of counts ∙ uint64_of-be64 _ (omega arith) in
    (names, tables, shapes, chunks_injective ps qs fp fq l r5)

module _ (sha256_hex : Bytes → Bytes) where
  batch_hash_inv :
      (namespace table : Bytes) (d : Descriptor) (ps : List Bytes) {key : Bytes}
      → batch_hash sha256_hex namespace table d ps ≡ ok key
      → Fit namespace
        × Fit table
        × Fit d.encoded
        × All Fit ps
        × (key ≡ sha256_hex (batch_layout namespace table d.encoded ps))
  unfolding batch_hash
  batch_hash_inv namespace table d ps {key} e =
      let (u, _, e1) =
        >>=-eq-ok (refuse_empty table ps)
          (λ _. preimage namespace table d ps >>= λ h. ok (sha256_hex h)) {w = key} e in
      let (h, made, e2) = >>=-eq-ok (preimage namespace table d ps) _ {w = key} e1 in
      let (f1, f2, f3, fs, same) = preimage_inv namespace table d ps made in
      (f1, f2, f3, fs, sym (ok-injective e2) ∙ ap sha256_hex same)

  -- Two batches of fewer than 2^63 payloads (a Go slice has no more) with one key have the same
  -- namespace, table, shape bytes and payloads in the same order, unless the two different byte
  -- strings that were hashed for them collide under SHA-256.
  pub batch_hash_identity :
      (ns ns' t t' : Bytes) (d d' : Descriptor) (ps qs : List Bytes) (key : Bytes)
      → length ps < 2 ^ 63
      → length qs < 2 ^ 63
      → batch_hash sha256_hex ns t d ps ≡ ok key
      → batch_hash sha256_hex ns' t' d' qs ≡ ok key
      → ((ns ≡ ns') × (t ≡ t') × (d.encoded ≡ d'.encoded) × (ps ≡ qs))
        ⊎ Collide sha256_hex (batch_layout ns t d.encoded ps) (batch_layout ns' t' d'.encoded qs)
  batch_hash_identity ns ns' t t' d d' ps qs key lp lq e e' =
      let (fn, ft, fd, fp, k) = batch_hash_inv ns t d ps e in
      let (fn', ft', fd', fq, k') = batch_hash_inv ns' t' d' qs e' in
      elim (same_or_Collide sha256_hex (batch_layout ns t d.encoded ps)
        (batch_layout ns' t' d'.encoded qs) (sym k ∙ k')) [
          | inl same ↦ inl (
              batch_layout_injective ns ns' t t' d.encoded d'.encoded ps qs fn fn' ft ft' fd fd' fp
                fq lp lq same)
          | inr clash ↦ inr clash
        ]

  -- The bytes hashed for a batch key differ from those hashed for any schema fingerprint: a key that
  -- equals a fingerprint is a collision of SHA-256 between the two.
  pub batch_hash-ne-fingerprint :
      (namespace table encoded : Bytes) (d : Descriptor) (ps : List Bytes) (key : Bytes)
      → batch_hash sha256_hex namespace table d ps ≡ ok key
      → key ≡ fingerprint sha256_hex encoded
      → Collide sha256_hex
          (batch_layout namespace table d.encoded ps)
          (fingerprint_domain ++ encoded)
  unfolding fingerprint
  batch_hash-ne-fingerprint namespace table encoded d ps key e same =
      let (_, _, _, _, k) = batch_hash_inv namespace table d ps e in
      ((λ p. ground arith), sym k ∙ same)
