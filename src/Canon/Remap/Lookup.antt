-- ===== src/Canon/Remap/Lookup.antt =====
-- A row read by permanent field id, and the index search of canon/descriptor.go in those terms.
use icelake.Prelude.{ℕ, suc, ◌≡◌, ℤ, true, false, Option, none, some, List, [], ◌∷◌, refl}
use icelake.Prelude.{length, ◌==ℤ◌, ==ℤ_iff, if◌then◌else◌, arith, inl, inr, ◌⊎◌, Bool-cases}
use icelake.Canon.Shape.{Field}
use icelake.Canon.Record.{Value, Row}
use icelake.Canon.Descriptor.{index_of_field_id}
use icelake.Canon.Remap.{field_at, cell_at}

-- The value that a row holds for a field id: null where the shape has no such column.
unfoldable pub value_of : List Field → Row → ℤ → Option Value
value_of (f ∷ fs) (v ∷ row) id = if f.id ==ℤ id then v else value_of fs row id
value_of _ _ id = none

-- The column with a field id.
unfoldable pub column_of : List Field → ℤ → Option Field
column_of [] id = none
column_of (f ∷ fs) id = if f.id ==ℤ id then some f else column_of fs id

value_of_here :
    (f : Field) (fs : List Field) (row : Row) (id : ℤ)
    → (f.id ==ℤ id) ≡ true
    → length row ≡ length (f ∷ fs)
    → cell_at row 0 ≡ value_of (f ∷ fs) row id
unfolding value_of cell_at
value_of_here f fs [] id e l = absurd (omega arith)
value_of_here f fs (v ∷ row) id e l = rw e

value_of_later :
    (f : Field) (fs : List Field) (row : Row) (id : ℤ) (i : ℕ)
    → (f.id ==ℤ id) ≡ false
    → ((row : Row) → length row ≡ length fs → cell_at row i ≡ value_of fs row id)
    → length row ≡ length (f ∷ fs)
    → cell_at row (suc i) ≡ value_of (f ∷ fs) row id
unfolding value_of cell_at
value_of_later f fs [] id i e h l = absurd (omega arith)
value_of_later f fs (v ∷ row) id i e h l = rw e (h row (omega arith))

value_of_skip :
    (f : Field) (fs : List Field) (row : Row) (id : ℤ)
    → (f.id ==ℤ id) ≡ false
    → ((row : Row) → value_of fs row id ≡ none)
    → value_of (f ∷ fs) row id ≡ none
unfolding value_of
value_of_skip f fs [] id e h = refl
value_of_skip f fs (v ∷ row) id e h = rw e (h row)

-- No column has the id, and every row is null there.
abbrev pub IsAbsent : List Field → ℤ → Type 0
IsAbsent fs id =
    (index_of_field_id fs id ≡ none)
    × (column_of fs id ≡ none)
    × ((row : Row) → value_of fs row id ≡ none)

-- The index search finds `f`, and a row's cell at the index is the row's value for the id.
abbrev IsFound : List Field → ℤ → ℕ → Field → Type 0
IsFound fs id i f =
    (index_of_field_id fs id ≡ some i)
    × (column_of fs id ≡ some f)
    × (field_at fs i ≡ some f)
    × (f.id ≡ id)
    × ((row : Row) → length row ≡ length fs → cell_at row i ≡ value_of fs row id)

pub index_cases :
    (fs : List Field) (id : ℤ) → IsAbsent fs id ⊎ ((i : ℕ) × (f : Field) × IsFound fs id i f)
unfolding index_of_field_id column_of field_at
index_cases [] id = inl (refl, refl, λ row. unfold value_of in refl)
index_cases (f ∷ fs) id = elim (Bool-cases (f.id ==ℤ id)) [
  | inl e ↦
      inr (0, f, (rw e, rw e, refl, (==ℤ_iff f.id id).0 e, λ row l. value_of_here f fs row id e l))
  | inr e ↦ elim (index_cases fs id) [
    | inl (a, b, h) ↦ inl (ground arith, ground arith, λ row. value_of_skip f fs row id e h)
    | inr (i, g, (a, b, found, same, h)) ↦ inr (
      suc i,
      g,
      (ground arith, ground arith, found, same, λ row l. value_of_later f fs row id i e h l),
    )
  ]
]
