-- ===== src/Staging/Index/Grouped.antt =====
-- internal/staging/index.go: the batches that the pass builds, against the rows themselves.
use icelake.Prelude.{
  ◌≡◌, refl, sym, ap, ◌∙◌, Bool, true, false, ◌||◌, Bool-cases, inl, inr, List, [], ◌∷◌, ◌++◌,
  append_assoc, append-nil, subst, if◌then◌else◌, bytes_eq, bytes_eq→eq, bytes_eq_refl, All, arith,
}
use icelake.Errdef.{Bytes}
use icelake.Staging.Spool.Keeps.{bytes_eq_sym}
use icelake.Staging.Store.{StagingRow, key_of}
use icelake.Staging.Index.{PendingRow, PendingBatch, pending_row, place}

-- The rows of a key, in their order.
unfoldable pub with_key : Bytes → List StagingRow → List PendingRow
with_key k [] = []
with_key k (r ∷ rows) =
    if bytes_eq k (key_of r) then pending_row r ∷ with_key k rows else with_key k rows

unfoldable pub is_in : Bytes → List Bytes → Bool
is_in k [] = false
is_in k (j ∷ ks) = if bytes_eq j k then true else is_in k ks

unfoldable pub add_key : Bytes → List Bytes → List Bytes
add_key k [] = k ∷ []
add_key k (j ∷ ks) = if bytes_eq j k then j ∷ ks else j ∷ add_key k ks

-- The keys that rows have, each where it comes first.
unfoldable pub keys_after : List Bytes → List StagingRow → List Bytes
keys_after ks [] = ks
keys_after ks (r ∷ rows) = keys_after (add_key (key_of r) ks) rows

-- Every key with its rows.
unfoldable pub batches : List StagingRow → List Bytes → List PendingBatch
batches rows [] = []
batches rows (k ∷ ks) = record { key = k; rows = with_key k rows } ∷ batches rows ks

abbrev pub Distinct : List Bytes → Type 0
Distinct [] = Unit
Distinct (k ∷ ks) = All (λ j. bytes_eq k j ≡ false) ks × Distinct ks

unfoldable pub place_all : List StagingRow → List PendingBatch → List PendingBatch
place_all [] bs = bs
place_all (r ∷ rows) bs = place_all rows (place r bs)

with_key_same :
    (k : Bytes) (r : StagingRow) (seen : List StagingRow)
    → bytes_eq k (key_of r) ≡ true
    → with_key k (seen ++ r ∷ []) ≡ with_key k seen ++ pending_row r ∷ []
unfolding with_key
with_key_same k r [] h = rw h refl
with_key_same k r (s ∷ seen) h = elim (Bool-cases (bytes_eq k (key_of s))) [
  | inl e ↦ rw (e, with_key_same k r seen h) refl
  | inr e ↦ rw e (with_key_same k r seen h)
]

with_key_other :
    (k : Bytes) (r : StagingRow) (seen : List StagingRow)
    → bytes_eq k (key_of r) ≡ false
    → with_key k (seen ++ r ∷ []) ≡ with_key k seen
unfolding with_key
with_key_other k r [] h = rw h refl
with_key_other k r (s ∷ seen) h = elim (Bool-cases (bytes_eq k (key_of s))) [
  | inl e ↦ rw (e, with_key_other k r seen h) refl
  | inr e ↦ rw e (with_key_other k r seen h)
]

batches_other :
    (r : StagingRow) (seen : List StagingRow) (ks : List Bytes)
    → All (λ j. bytes_eq (key_of r) j ≡ false) ks
    → batches (seen ++ r ∷ []) ks ≡ batches seen ks
unfolding batches
batches_other r seen [] a = refl
batches_other r seen (k ∷ ks) a =
    rw (with_key_other k r seen (bytes_eq_sym (key_of r) k a.0), batches_other r seen ks a.1) refl

-- One more row keeps the batches those of the rows.
place-batches :
    (r : StagingRow) (seen : List StagingRow) (ks : List Bytes)
    → Distinct ks
    → (is_in (key_of r) ks ≡ false → with_key (key_of r) seen ≡ [])
    → place r (batches seen ks) ≡ batches (seen ++ r ∷ []) (add_key (key_of r) ks)
unfolding place batches add_key is_in
place-batches r seen [] d absent =
    rw (with_key_same (key_of r) r seen (bytes_eq_refl (key_of r)), absent refl) refl
place-batches r seen (k ∷ ks) d absent = elim (Bool-cases (bytes_eq k (key_of r))) [
  | inl e ↦
      rw
        (
          e,
          with_key_same k r seen e,
          batches_other r seen ks
              (subst (λ x. All (λ j. bytes_eq x j ≡ false) ks) (bytes_eq→eq k (key_of r) e) d.0),
        )
        refl
  | inr e ↦
      rw (e, with_key_other k r seen e)
        (ap (λ (bs : List PendingBatch). record { key = k; rows = with_key k seen } ∷ bs)
          (place-batches r seen ks d.1 (λ h. absent (rw e h))))
]

add_key-Apart :
    (k j : Bytes) (ks : List Bytes)
    → bytes_eq j k ≡ false
    → All (λ i. bytes_eq j i ≡ false) ks
    → All (λ i. bytes_eq j i ≡ false) (add_key k ks)
unfolding add_key
add_key-Apart k j [] h a = (h, tt)
add_key-Apart k j (i ∷ ks) h a = elim (Bool-cases (bytes_eq i k)) [
  | inl e ↦ rw e a
  | inr e ↦ rw e (a.0, add_key-Apart k j ks h a.1)
]

pub add_key-Distinct : (k : Bytes) (ks : List Bytes) → Distinct ks → Distinct (add_key k ks)
unfolding add_key
add_key-Distinct k [] d = (tt, tt)
add_key-Distinct k (j ∷ ks) d = elim (Bool-cases (bytes_eq j k)) [
  | inl e ↦ rw e d
  | inr e ↦ rw e (add_key-Apart k j ks e d.0, add_key-Distinct k ks d.1)
]

is_in-add_key :
    (k j : Bytes) (ks : List Bytes) → is_in j (add_key k ks) ≡ (is_in j ks || bytes_eq k j)
unfolding is_in add_key
is_in-add_key k j [] = ground arith
is_in-add_key k j (i ∷ ks) = elim (Bool-cases (bytes_eq i k)) [
  | inl e ↦
      subst
        (λ x.
          is_in j (if bytes_eq i k then i ∷ ks else i ∷ add_key k ks)
          ≡ (if bytes_eq i j then true else is_in j ks) || bytes_eq x j)
        (bytes_eq→eq i k e) (rw e (ground arith))
  | inr e ↦ rw e (ground (arith, is_in-add_key k j ks))
]

-- A key that has not come up has no rows.
abbrev Absent : List StagingRow → List Bytes → Type 0
Absent seen ks = (k : Bytes) → is_in k ks ≡ false → with_key k seen ≡ []

add_key-Absent :
    (r : StagingRow) (seen : List StagingRow) (ks : List Bytes)
    → Absent seen ks
    → Absent (seen ++ r ∷ []) (add_key (key_of r) ks)
add_key-Absent r seen ks absent k h =
    let out = sym (is_in-add_key (key_of r) k ks) ∙ h in
    with_key_other k r seen (bytes_eq_sym (key_of r) k (ground (arith, out)))
    ∙ absent k (ground (arith, out))

place_all-batches :
    (rows seen : List StagingRow) (ks : List Bytes)
    → Distinct ks
    → Absent seen ks
    → place_all rows (batches seen ks) ≡ batches (seen ++ rows) (keys_after ks rows)
unfolding place_all keys_after
place_all-batches [] seen ks d absent =
    ap (λ (xs : List StagingRow). batches xs ks) (sym (append-nil seen))
place_all-batches (r ∷ rows) seen ks d absent = rw (place-batches r seen ks d (absent (key_of r))) (
    place_all-batches rows (seen ++ r ∷ []) (add_key (key_of r) ks)
      (add_key-Distinct (key_of r) ks d) (add_key-Absent r seen ks absent)
    ∙ ap (λ (xs : List StagingRow). batches xs (keys_after (add_key (key_of r) ks) rows))
        (append_assoc seen (r ∷ []) rows))

-- The batches that rows are placed into are their keys, each with its rows.
pub place_all_lem : (rows : List StagingRow) → place_all rows [] ≡ batches rows (keys_after [] rows)
unfolding batches with_key
place_all_lem rows = place_all-batches rows [] [] tt (λ k h. refl)
