-- ===== src/Canon/Descriptor/Sorting.antt =====
-- canon/descriptor.go: the ordering of columns in `FromFields`, and the scan for a shared id.
use icelake.Prelude.{suc, ◌≡◌, ℤ, pos, ◌≤ℤ◌, refl, ap, ◌∙◌, ltb_ℤ}
use icelake.Prelude.{List, [], ◌∷◌, length, inl, inr, All, arith, Bool-cases}
use icelake.Errdef.{Bytes, ok}
use icelake.Canon.Shape.{Field}
use icelake.Canon.Columns.Reading.{Ascends}
use icelake.Canon.Descriptor.{insert_field, sort_fields, check_unique, check_unique_ids}

-- Ids in ascending order, equal neighbours allowed, none below `previous`.
abbrev Rises : ℤ → List Field → Type 0
Rises previous [] = Unit
Rises previous (f ∷ fs) = (previous ≤ℤ f.id) × Rises f.id fs

abbrev IsSorted : List Field → Type 0
IsSorted [] = Unit
IsSorted (f ∷ fs) = Rises f.id fs

insert_field-Rises :
    (f : Field) (fs : List Field) (previous : ℤ)
    → previous ≤ℤ f.id
    → Rises previous fs
    → Rises previous (insert_field f fs)
unfolding insert_field
insert_field-Rises f [] previous h r = (h, tt)
insert_field-Rises f (g ∷ fs) previous h (lo, r) = elim (Bool-cases (ltb_ℤ g.id f.id)) [
  | inl below ↦ rw below (lo, insert_field-Rises f fs g.id (ground arith) r)
  | inr above ↦ rw above (h, (ground arith, r))
]

insert_field-IsSorted : (f : Field) (fs : List Field) → IsSorted fs → IsSorted (insert_field f fs)
unfolding insert_field
insert_field-IsSorted f [] h = tt
insert_field-IsSorted f (g ∷ fs) h = elim (Bool-cases (ltb_ℤ g.id f.id)) [
  | inl below ↦ rw below (insert_field-Rises f fs g.id (ground arith) h)
  | inr above ↦ rw above (ground arith, h)
]

sort_fields-IsSorted : (fs : List Field) → IsSorted (sort_fields fs)
unfolding sort_fields
sort_fields-IsSorted [] = tt
sort_fields-IsSorted (f ∷ fs) = insert_field-IsSorted f (sort_fields fs) (sort_fields-IsSorted fs)

check_unique-Ascends :
    (table : Bytes) (g : Field) (fs : List Field)
    → Rises g.id fs
    → check_unique table g fs ≡ ok tt
    → Ascends g.id fs
unfolding check_unique
check_unique-Ascends table g [] r h = tt
check_unique-Ascends table g (f ∷ fs) (lo, r) h =
    (ground arith, check_unique-Ascends table f fs r (ground arith))

Ascends-check_unique :
    (table : Bytes) (g : Field) (fs : List Field)
    → Ascends g.id fs
    → check_unique table g fs ≡ ok tt
unfolding check_unique
Ascends-check_unique table g [] h = refl
Ascends-check_unique table g (f ∷ fs) (up, h) = ground (arith, Ascends-check_unique table f fs h)

-- Sorted columns of valid ids that pass the scan ascend from above 0.
pub sort_fields-Ascends :
    (table : Bytes) (fs : List Field)
    → All (λ f. pos 1 ≤ℤ f.id) (sort_fields fs)
    → check_unique_ids table (sort_fields fs) ≡ ok tt
    → Ascends (pos 0) (sort_fields fs)
sort_fields-Ascends table fs = go (sort_fields fs) (sort_fields-IsSorted fs)
  where
    go :
        (gs : List Field)
        → IsSorted gs
        → All (λ f. pos 1 ≤ℤ f.id) gs
        → check_unique_ids table gs ≡ ok tt
        → Ascends (pos 0) gs
    go [] s v h = tt
    go (g ∷ gs) s v h =
        (omega (arith, v.0), check_unique-Ascends table g gs s (unfold check_unique_ids in h))

pub Ascends-check_unique_ids :
    (table : Bytes) (fs : List Field) → Ascends (pos 0) fs → check_unique_ids table fs ≡ ok tt
unfolding check_unique_ids
Ascends-check_unique_ids table [] h = refl
Ascends-check_unique_ids table (f ∷ fs) h = Ascends-check_unique table f fs h.1

insert_field_first : (f : Field) (fs : List Field) → Ascends f.id fs → insert_field f fs ≡ f ∷ fs
unfolding insert_field
insert_field_first f [] h = refl
insert_field_first f (g ∷ fs) h = ground arith

-- Columns in ascending id order are left as they are.
pub sort_fields_ascending :
    (previous : ℤ) (fs : List Field) → Ascends previous fs → sort_fields fs ≡ fs
unfolding sort_fields
sort_fields_ascending previous [] h = refl
sort_fields_ascending previous (f ∷ fs) (up, h) =
    rw (sort_fields_ascending f.id fs h) (insert_field_first f fs h)

length-insert_field : (f : Field) (fs : List Field) → length (insert_field f fs) ≡ suc (length fs)
unfolding insert_field
length-insert_field f [] = refl
length-insert_field f (g ∷ fs) = ground (arith, length-insert_field f fs)

pub length-sort_fields : (fs : List Field) → length (sort_fields fs) ≡ length fs
unfolding sort_fields
length-sort_fields [] = refl
length-sort_fields (f ∷ fs) =
    length-insert_field f (sort_fields fs) ∙ ap suc (length-sort_fields fs)
