-- ===== src/Flush/Prepare/Sealing.antt =====
-- internal/flush/flush.go: what prepare does to the staged rows.
use icelake.Prelude.{
  ℕ, ◌≡◌, refl, ap, ◌∙◌, subst, Bool, Bool-cases, true, false, Option-cases, inl, inr, ◌⊎◌, List,
  [], ◌∷◌, bytes_eq, if◌then◌else◌,
}
use icelake.Errdef.{Bytes, Error, Result, ok, err}
use icelake.Canon.Shape.{Descriptor}
use icelake.Canon.Columns.{is_empty}
use icelake.Canon.Record.{decode}
use icelake.Canon.Remap.{remap, transcode}
use icelake.Canon.Batch.{batch_hash}
use icelake.Staging.Store.{StagingStore, StagedRow}
use icelake.Staging.Store.Sealing.{SealRow, SealRequest, seal}
use icelake.Staging.Store.Leaving.{schema}
use icelake.Flush.Worker.{Batch}
use icelake.Flush.Cycle.{ids_of}
use icelake.Flush.Prepare.{
  Failure, Tried, halt, went, Held, Run, follow, ◌>>=◌, return, tried_as, content, Faults,
  find_shape, Prepared, loaded, descriptor, decode_sealed, decode_rows, recode, recode_rows,
  decode_payloads, request, read_rows, seal_batch, decode_recoded, seal_under, seal_recoded,
  prepare_unsealed, prepare_sealed, prepare,
}

-- A step that leaves the store as it was.
record Keeps {A : Type 0} (m : Run Held A) : Type 0 where
  same : (h : Held) → (m h).1.store ≡ h.store

module _ {A B : Type 0} where
  follow-Keeps :
      (st : StagingStore) (next : A → Run Held B) (out : Tried A × Held)
      → ((a : A) → Keeps (next a))
      → out.1.store ≡ st
      → (follow next out).1.store ≡ st
  follow-Keeps st next (halt f, h) k e = e
  follow-Keeps st next (went a, h) k e = (k a).same h ∙ e

  >>=-Keeps :
      (m : Run Held A) (next : A → Run Held B)
      → Keeps m
      → ((a : A) → Keeps (next a))
      → Keeps (m >>= next)
  >>=-Keeps m next k l = record { same = λ h. follow-Keeps h.store next (m h) l (k.same h) }

  -- A run that succeeds does so step by step.
  follow-went :
      {S : Type 0} (next : A → Run S B) (out : Tried A × S) {b : B}
      → (follow next out).0 ≡ went b
      → (a : A) × (out.0 ≡ went a) × ((next a out.1).0 ≡ went b)
  follow-went next (halt f, s) e = absurd (cc e)
  follow-went next (went a, s) e = (a, refl, e)

  follow-at :
      {S : Type 0} (next : A → Run S B) (out : Tried A × S) (a : A)
      → out.0 ≡ went a
      → follow next out ≡ next a out.1
  follow-at next (halt f, s) a e = absurd (cc e)
  follow-at next (went b, s) a e = ap (λ x. next x s) (went-injective e)
    where
      value : Tried A → A
      value (halt f) = a
      value (went c) = c

      went-injective : {x y : A} → went x ≡ went y → x ≡ y
      went-injective e = ap value e

-- What follows a value of the content either does not run or starts from the same state.
follow-content :
    {S A B : Type 0} (r : Result A) (next : A → Run S B) (s : S)
    → ((follow next (content r s)).1 ≡ s)
      ⊎ ((a : A) × (r ≡ ok a) × (follow next (content r s) ≡ next a s))
follow-content (err e) next s = inl refl
follow-content (ok a) next s = inr (a, refl, refl)

pub tried_as-went :
    {A : Type 0} (mark : Error → Failure) (r : Result A) {a : A}
    → tried_as mark r ≡ went a
    → r ≡ ok a
tried_as-went mark (err e) h = absurd (cc h)
tried_as-went {A} mark (ok b) {a} h = ap (λ x. ok (value x)) h
  where
    value : Tried A → A
    value (halt f) = b
    value (went c) = c

content-Keeps : {A : Type 0} (r : Result A) → Keeps (content {S = Held} r)
content-Keeps r = record { same = λ h. refl }

return-Keeps : {A : Type 0} (a : A) → Keeps (return {S = Held} a)
return-Keeps a = record { same = λ h. refl }

module _ (sha256_hex : Bytes → Bytes) (namespace table : Bytes) (current : Descriptor)
    (faults : Faults) where
  loaded-Keeps :
      (fp : Bytes) (h : Held) (r : Result Descriptor)
      → (loaded sha256_hex namespace table current faults fp h r).1.store ≡ h.store
  loaded-Keeps fp h (err e) = refl
  loaded-Keeps fp h (ok d) = refl

  descriptor-Keeps : (fp : Bytes) → Keeps (descriptor sha256_hex namespace table current faults fp)
  unfolding descriptor
  descriptor-Keeps fp = record {
    same = λ h. elim (Option-cases (find_shape fp h.shapes)) [
      | inl new ↦
          rw (descriptor, new)
            (loaded-Keeps fp h (schema sha256_hex (faults.schema_fails fp) fp h.store))
      | inr (d, old) ↦ rw (descriptor, old) refl
    ];
  }

  if-Keeps :
      {A : Type 0} (b : Bool) (m k : Run Held A) → Keeps m → Keeps k → Keeps (if b then m else k)
  if-Keeps true m k x y = x
  if-Keeps false m k x y = y

  decode_sealed-Keeps :
      (r : StagedRow) → Keeps (decode_sealed sha256_hex namespace table current faults r)
  unfolding decode_sealed
  decode_sealed-Keeps r =
      >>=-Keeps (descriptor sha256_hex namespace table current faults r.schema_fp) _
        (descriptor-Keeps r.schema_fp)
        (λ recorded.
          >>=-Keeps (content (decode table recorded r.payload)) _
            (content-Keeps (decode table recorded r.payload))
            (λ row.
              if-Keeps (bytes_eq recorded.fp current.fp) (return row)
                (content (remap table recorded current row)) (return-Keeps row)
                (content-Keeps (remap table recorded current row))))

  decode_rows-Keeps :
      (staged : List StagedRow)
      → Keeps (decode_rows sha256_hex namespace table current faults staged)
  unfolding decode_rows
  decode_rows-Keeps [] = return-Keeps []
  decode_rows-Keeps (r ∷ staged) =
      >>=-Keeps (decode_sealed sha256_hex namespace table current faults r) _
        (decode_sealed-Keeps r)
        (λ row.
          >>=-Keeps (decode_rows sha256_hex namespace table current faults staged) _
            (decode_rows-Keeps staged) (λ rest. return-Keeps (row ∷ rest)))

  recode-Keeps : (r : StagedRow) → Keeps (recode sha256_hex namespace table current faults r)
  unfolding recode
  recode-Keeps r = if-Keeps (bytes_eq r.schema_fp current.fp) _ _ (return-Keeps _) (
      >>=-Keeps (descriptor sha256_hex namespace table current faults r.schema_fp) _
        (descriptor-Keeps r.schema_fp)
        (λ recorded.
          >>=-Keeps (content (transcode table recorded current r.payload)) _
            (content-Keeps (transcode table recorded current r.payload)) (λ p. return-Keeps _)))

  recode_rows-Keeps :
      (staged : List StagedRow)
      → Keeps (recode_rows sha256_hex namespace table current faults staged)
  unfolding recode_rows
  recode_rows-Keeps [] = return-Keeps ([], [])
  recode_rows-Keeps (r ∷ staged) =
      >>=-Keeps (recode sha256_hex namespace table current faults r) _ (recode-Keeps r) (λ row.
        >>=-Keeps (recode_rows sha256_hex namespace table current faults staged) _
          (recode_rows-Keeps staged) (λ rest. return-Keeps (row.0 ∷ rest.0, row.1 ∷ rest.1)))

  -- The seal rows name the rows that were read.
  abbrev Names : List SealRow → List ℕ → Type 0
  Names [] [] = Unit
  Names [] (id ∷ ids) = ⊥
  Names (s ∷ ss) [] = ⊥
  Names (s ∷ ss) (id ∷ ids) = (s.id ≡ id) × Names ss ids

  -- What a seal or nothing does to the store.
  abbrev pub SealedOr : StagingStore → StagingStore → Type 0
  SealedOr st st' = (st' ≡ st) ⊎ ((req : SealRequest) × (st' ≡ (seal faults.seal_fails req st).1))

  decode_recoded-Keeps :
      (ids : List ℕ) (key : Bytes) (payloads : List Bytes)
      → Keeps (decode_recoded sha256_hex namespace table current faults ids key payloads)
  unfolding decode_recoded
  decode_recoded-Keeps ids key payloads =
      >>=-Keeps (content (decode_payloads sha256_hex namespace table current faults payloads)) _
        (content-Keeps (decode_payloads sha256_hex namespace table current faults payloads))
        (λ decoded. return-Keeps (record { key = key; rows = decoded; ids = ids }))

  abbrev request_of : Bytes → List SealRow → SealRequest
  request_of key ss = request sha256_hex namespace table current faults key ss

  seal_under_store :
      (ids : List ℕ) (recoded : List SealRow × List Bytes) (key : Bytes) (h : Held)
      → (seal_under sha256_hex namespace table current faults ids recoded key h).1.store
        ≡ (seal faults.seal_fails (request_of key recoded.0) h.store).1
  unfolding seal_under
  seal_under_store ids recoded key h =
      follow-Keeps (seal faults.seal_fails (request_of key recoded.0) h.store).1
        (λ stamped. decode_recoded sha256_hex namespace table current faults ids key recoded.1)
        (seal_batch sha256_hex namespace table current faults (request_of key recoded.0) h)
        (λ u. decode_recoded-Keeps ids key recoded.1) refl

  seal_recoded-SealedOr :
      (ids : List ℕ) (recoded : List SealRow × List Bytes) (h : Held)
      → SealedOr h.store
          (seal_recoded sha256_hex namespace table current faults ids recoded h).1.store
  unfolding seal_recoded
  seal_recoded-SealedOr ids recoded h =
      elim (follow-content (batch_hash sha256_hex namespace table current recoded.1)
        (seal_under sha256_hex namespace table current faults ids recoded) h) [
          | inl stays ↦ inl (ap (λ (x : Held). x.store) stays)
          | inr (key, hashed, runs) ↦ inr (
            request_of key recoded.0,
            ap (λ (x : Tried Prepared × Held). x.1.store) runs ∙ seal_under_store ids recoded key h,
          )
        ]

  follow-SealedOr :
      {A B : Type 0} (st : StagingStore) (next : A → Run Held B) (out : Tried A × Held)
      → ((a : A) (h : Held) → SealedOr h.store (next a h).1.store)
      → out.1.store ≡ st
      → SealedOr st (follow next out).1.store
  follow-SealedOr st next (halt f, h) k e = inl e
  follow-SealedOr st next (went a, h) k e = subst (λ x. SealedOr x (next a h).1.store) e (k a h)

  -- Whatever prepare comes to, the store is as it was or as one seal leaves it.
  pub prepare-SealedOr :
      (b : Batch) (h : Held)
      → SealedOr h.store (prepare sha256_hex namespace table current faults b h).1.store
  unfolding prepare prepare_unsealed prepare_sealed
  prepare-SealedOr b h =
      follow-SealedOr h.store
        (λ staged.
          if is_empty b.key
          then prepare_unsealed sha256_hex namespace table current faults (ids_of b.rows) staged
          else prepare_sealed sha256_hex namespace table current faults b.key (ids_of b.rows)
              staged)
        (read_rows sha256_hex namespace table current faults (ids_of b.rows) h)
        (λ staged h'. elim (Bool-cases (is_empty b.key)) [
          | inl fresh ↦ rw fresh (
              follow-SealedOr h'.store
                (seal_recoded sha256_hex namespace table current faults (ids_of b.rows))
                (recode_rows sha256_hex namespace table current faults staged h')
                (seal_recoded-SealedOr (ids_of b.rows)) ((recode_rows-Keeps staged).same h'))
          | inr earlier ↦ rw earlier (
              inl (
                follow-Keeps h'.store
                  (λ decoded. return (record { key = b.key; rows = decoded; ids = ids_of b.rows }))
                  (decode_rows sha256_hex namespace table current faults staged h')
                  (λ decoded. return-Keeps _) ((decode_rows-Keeps staged).same h')))
        ])
        refl
